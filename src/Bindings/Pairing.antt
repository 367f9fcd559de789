-- ===== src/Bindings/Pairing.antt =====
-- libswc/bindings.c: presses that are held and the entries that they point to.
use neuswc.Prelude.{
  All-append, ℕ, ◌+◌, ◌^◌, ◌<◌, ◌≡◌, ◌≢◌, refl, sym, Bool, not, ◌&&◌, ◌||◌, List, [], ◌∷◌, ◌++◌,
  Option, none, some, All, arith, if_intro,
}
use neuswc.Bindings.Entries.{
  Binding, at_address, find_binding, find_key_binding, find_by_level, or_else,
}
use neuswc.Bindings.Handle.{
  Taker, nobody, bindings, another, Held, Device, handle_press, press_key, press_button, Keymap,
  Others, hold, offer, is_held, key_down, button_down, binding_allowed_while_locked,
}
use neuswc.Bindings.Counts.{IsTracked, one_at, at-first_entry}
use neuswc.Bindings.Tracked.{IsTracked-ext, IsTracked-press}

-- Whether a press was taken by the entry at an address.
abbrev pub owned : ℕ → Taker → Option ℕ → ℕ
owned id bindings (some t) = one_at t id
owned id _ _ = 0

abbrev pub holding : ℕ → List Held → ℕ
holding id [] = 0
holding id (h ∷ hs) = owned id h.handler h.target + holding id hs

-- A press that the bindings have taken points to something.
abbrev pub IsAimed : Held → Type 0
IsAimed h = h.handler ≡ bindings → (id : ℕ) × (h.target ≡ some id)

-- Each entry counts the presses that are held on it, and some more that `lost` gives.
pub record IsFit (n : ℕ) (lost : ℕ → ℕ) (d : Device) : Type 0 where
  pub tracked : IsTracked n d.entries (λ id. holding id d.held + lost id)
  pub aimed : All IsAimed d.held

pub holding-append :
    (id : ℕ) (hs : List Held) (h : Held)
    → holding id (hs ++ (h ∷ [])) ≡ owned id h.handler h.target + holding id hs
holding-append id [] h = refl
holding-append id (x ∷ hs) h = omega (arith, holding-append id hs h)

owned-none : (id : ℕ) (taker : Taker) → owned id taker none ≡ 0
owned-none id nobody = refl
owned-none id bindings = refl
owned-none id another = refl

another-not_ours : another ≢ bindings
another-not_ours p = absurd (ground arith)

nobody-not_ours : nobody ≢ bindings
nobody-not_ours p = absurd (ground arith)

-- A press that the bindings do not take.
hold-IsFit :
    (n : ℕ) (lost : ℕ → ℕ) (d : Device) (value : ℕ) (taker : Taker)
    → taker ≢ bindings
    → IsFit n lost d
    → IsFit n lost (hold value taker none d)
hold-IsFit n lost d value taker p f = record {
  tracked = IsTracked-ext n d.entries _ _ f.tracked (λ id. omega (
    arith,
    holding-append id d.held (record { value = value; handler = taker; target = none }),
    owned-none id taker,
  ));
  aimed = All-append IsAimed d.held _ f.aimed ((λ e. absurd (p e)), tt);
}

-- A search of the entries.
abbrev IsFound : List Binding → Option Binding → Type 0
IsFound bs o = (b : Binding) → o ≡ some b → at_address bs b.id ≡ some b

-- One press more can be counted.
abbrev pub IsRoom : (ℕ → ℕ) → Device → Type 0
IsRoom lost d = (id : ℕ) → holding id d.held + lost id + 1 < 2 ^ 32

offer-IsFit :
    (n : ℕ) (lost : ℕ → ℕ) (d : Device) (value : ℕ) (later : Bool) (o : Option Binding)
    → IsFound d.entries o
    → IsRoom lost d
    → IsFit n lost d
    → IsFit n lost (offer value later (handle_press o d))
offer-IsFit n lost d value later none q m f =
    hold-IsFit n lost d value _
      (if_intro (λ t. t ≢ bindings) later another nobody (λ _. another-not_ours)
        (λ _. nobody-not_ours))
      f
offer-IsFit n lost d value later (some b) q m f =
    let h : Held = record { value = value; handler = bindings; target = some b.id } in
    record {
      tracked =
          IsTracked-ext n _ _ _ (IsTracked-press n d.entries _ b f.tracked (q b refl) (m b.id))
            (λ id. omega (arith, holding-append id d.held h));
      aimed = All-append IsAimed d.held (h ∷ []) f.aimed ((λ _. (b.id, refl)), tt);
    }

find-IsFound :
    (n : ℕ) (c : ℕ → ℕ) (bs : List Binding) (modifiers value : ℕ)
    → IsTracked n bs c
    → IsFound bs (find_binding bs modifiers value)
unfolding find_binding
find-IsFound n c bs modifiers value t b e = at-first_entry _ bs b t.distinct e

or_else-IsFound :
    (bs : List Binding) (o p : Option Binding)
    → IsFound bs o
    → IsFound bs p
    → IsFound bs (or_else o p)
or_else-IsFound bs none p f g = g
or_else-IsFound bs (some b) p f g = f

none-IsFound : (bs : List Binding) → IsFound bs none
none-IsFound bs b e = absurd (ground arith)

find_by_level-IsFound :
    (n : ℕ) (c : ℕ → ℕ) (bs : List Binding) (modifiers : ℕ) (level0 : Option ℕ)
    → IsTracked n bs c
    → IsFound bs (find_by_level bs modifiers level0)
find_by_level-IsFound n c bs modifiers none t = none-IsFound bs
find_by_level-IsFound n c bs modifiers (some sym) t = find-IsFound n c bs modifiers sym t

find_key-IsFound :
    (n : ℕ) (c : ℕ → ℕ) (bs : List Binding) (present : Bool) (keysym : ℕ) (level0 : Option ℕ)
    (modifiers : ℕ)
    → IsTracked n bs c
    → IsFound bs (find_key_binding bs present keysym level0 modifiers)
unfolding find_key_binding
find_key-IsFound n c bs present keysym level0 modifiers t =
    if_intro (IsFound bs) (not present) _ _ (λ _. none-IsFound bs)
      (λ _.
        or_else-IsFound bs _ _ (find-IsFound n c bs modifiers keysym t)
          (find_by_level-IsFound n c bs modifiers level0 t))

pub key_down-IsFit :
    (n : ℕ) (lost : ℕ → ℕ) (d : Device) (locked : Bool) (k : Keymap) (others : Others)
    (memory : Bool) (value : ℕ)
    → IsRoom lost d
    → IsFit n lost d
    → IsFit n lost (key_down locked k others memory value d)
unfolding key_down press_key
key_down-IsFit n lost d locked k others memory value m f =
    if_intro (IsFit n lost) (is_held value d.held || not memory) _ _ (λ _. f)
      (λ _.
        if_intro (IsFit n lost) others.earlier _ _
          (λ _. hold-IsFit n lost d value another another-not_ours f)
          (λ _.
            if_intro (λ r. IsFit n lost (offer value others.later r))
              (locked && not (binding_allowed_while_locked k.keysym)) _ _
              (λ _. offer-IsFit n lost d value others.later none (none-IsFound d.entries) m f)
              (λ _.
                offer-IsFit n lost d value others.later _
                  (find_key-IsFound n _ d.entries k.present k.keysym k.level0 k.modifiers f.tracked)
                  m f)))

pub button_down-IsFit :
    (n : ℕ) (lost : ℕ → ℕ) (d : Device) (locked : Bool) (modifiers : ℕ) (others : Others)
    (memory : Bool) (value : ℕ)
    → IsRoom lost d
    → IsFit n lost d
    → IsFit n lost (button_down locked modifiers others memory value d)
unfolding button_down press_button
button_down-IsFit n lost d locked modifiers others memory value m f =
    if_intro (IsFit n lost) (not memory) _ _ (λ _. f)
      (λ _.
        if_intro (IsFit n lost) others.earlier _ _
          (λ _. hold-IsFit n lost d value another another-not_ours f)
          (λ _.
            if_intro (λ r. IsFit n lost (offer value others.later r)) locked _ _
              (λ _. offer-IsFit n lost d value others.later none (none-IsFound d.entries) m f)
              (λ _.
                offer-IsFit n lost d value others.later _
                  (find-IsFound n _ d.entries modifiers value f.tracked) m f)))
