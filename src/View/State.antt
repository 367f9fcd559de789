-- ===== src/View/State.antt =====
-- libswc/view.c: the geometry, the buffer and the screens of a view, and what its handlers hear.
use neuswc.Prelude.{
  ℕ, zero, suc, Bool, true, false, not, ◌&&◌, List, [], ◌∷◌, ◌++◌, Option, none, some,
  if◌then◌else◌, ◌==◌, set,
}
use neuswc.View.Geometry.{Rectangle, rectangle_overlap}

-- What each handler of a view hears, and what is done to a buffer. A mask of screens is a list of 32
-- bits.
pub data Event : Type 0 where
  attached moved : Event
  resized : (old_width old_height : ℕ) → Event
  screens_changed : (entered left : List Bool) → Event
  frame : ℕ → Event
  referenced unreferenced : ℕ → Event

pub record View : Type 0 where
  pub geometry : Rectangle
  pub buffer : Option ℕ
  pub screens : List Bool
  pub handlers : List ℕ
  pub events : List Event

abbrev pub zeroes : ℕ → List Bool
zeroes zero = []
zeroes (suc n) = false ∷ zeroes n

abbrev pub no_screens : List Bool
no_screens = zeroes 32

abbrev pub say : Event → View → View
say e v = record v { events = v.events ++ e ∷ [] }

unfoldable pub view_initialize : List Event → View
view_initialize events = record {
  geometry = record { x = 0; y = 0; width = 0; height = 0 };
  buffer = none;
  screens = no_screens;
  handlers = [];
  events = events;
}

abbrev pub say_reference : Option ℕ → View → View
say_reference none v = v
say_reference (some b) v = say (referenced b) v

abbrev pub say_unreference : Option ℕ → View → View
say_unreference none v = v
say_unreference (some b) v = say (unreferenced b) v

unfoldable pub view_finalize : View → View
view_finalize v = record (say_unreference v.buffer (record v { handlers = [] })) { buffer = none }

-- `accepted` says that the view's own `attach` did not fail.
unfoldable pub view_attach : (accepted : Bool) → Option ℕ → View → View
view_attach accepted buffer v =
    if not accepted
    then v
    else say attached
        (record (say_unreference v.buffer (say_reference buffer v)) { buffer = buffer })

-- The result is whether anything changed.
unfoldable pub view_set_position : (x y : ℕ) → View → View × Bool
view_set_position x y v =
    if x == v.geometry.x && y == v.geometry.y
    then (v, false)
    else (say moved (record v { geometry = record (v.geometry) { x = x; y = y } }), true)

unfoldable pub view_set_size : (width height : ℕ) → View → View × Bool
view_set_size width height v =
    if v.geometry.width == width && v.geometry.height == height then (v, false) else (
      say (resized v.geometry.width v.geometry.height)
          (record v { geometry = record (v.geometry) { width = width; height = height } }),
      true,
    )

-- The size of a buffer, or none.
unfoldable pub view_set_size_from_buffer : Option (ℕ × ℕ) → View → View × Bool
unfolding view_set_size
view_set_size_from_buffer none v = view_set_size 0 0 v
view_set_size_from_buffer (some (width, height)) v = view_set_size width height v

-- `a & ~b`.
abbrev pub and_not : List Bool → List Bool → List Bool
and_not [] ys = []
and_not (x ∷ xs) [] = x ∷ xs
and_not (x ∷ xs) (y ∷ ys) = (x && not y) ∷ and_not xs ys

abbrev pub same_bit : Bool → Bool → Bool
same_bit true b = b
same_bit false b = not b

abbrev pub same_mask : List Bool → List Bool → Bool
same_mask [] [] = true
same_mask [] (y ∷ ys) = false
same_mask (x ∷ xs) [] = false
same_mask (x ∷ xs) (y ∷ ys) = same_bit x y && same_mask xs ys

unfoldable pub view_set_screens : List Bool → View → View
view_set_screens screens v =
    if same_mask v.screens screens
    then v
    else say (screens_changed (and_not screens v.screens) (and_not v.screens screens))
        (record v { screens = screens })

pub record Screen : Type 0 where
  pub id : ℕ
  pub geometry : Rectangle

-- The loop over the screens, and `|= 1 << id`.
unfoldable pub overlapping : Rectangle → List Screen → List Bool → List Bool
overlapping g [] mask = mask
overlapping g (s ∷ ss) mask =
    overlapping g ss (if rectangle_overlap s.geometry g then set mask s.id true else mask)

unfoldable pub view_update_screens : List Screen → View → View
unfolding overlapping view_set_screens
view_update_screens ss v = view_set_screens (overlapping v.geometry ss no_screens) v

unfoldable pub view_frame : ℕ → View → View
view_frame time v = say (frame time) v
