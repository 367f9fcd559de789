-- ===== src/Subsurface/Stack.antt =====
-- The order of a surface and its children as one list, from the bottom to the top.
use neuswc.Prelude.{
  ℕ, Bool, true, false, List, [], ◌∷◌, ◌++◌, Option, none, some, map, if◌then◌else◌, ◌==◌,
}
use neuswc.Subsurface.State.{Order}

-- `none` is the parent.
abbrev pub Layer : Type 0
Layer = Option ℕ

abbrev pub same_layer : Layer → Layer → Bool
same_layer none none = true
same_layer none (some _) = false
same_layer (some _) none = false
same_layer (some x) (some y) = x == y

abbrev pub stack : Order → List Layer
stack o = map some o.below ++ none ∷ map some o.above

-- Without the first occurrence of a layer.
abbrev pub without : Layer → List Layer → List Layer
without e [] = []
without e (x ∷ xs) = if same_layer x e then xs else x ∷ without e xs

-- With a layer just over another, or just under it.
abbrev pub put_over : (next_to : Layer) → Layer → List Layer → List Layer
put_over t e [] = []
put_over t e (x ∷ xs) = if same_layer x t then x ∷ e ∷ xs else x ∷ put_over t e xs

abbrev pub put_under : (next_to : Layer) → Layer → List Layer → List Layer
put_under t e [] = []
put_under t e (x ∷ xs) = if same_layer x t then e ∷ x ∷ xs else x ∷ put_under t e xs
