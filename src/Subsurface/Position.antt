-- ===== src/Subsurface/Position.antt =====
-- libswc/subsurface.c, lines 50 to 103: where the view of a child goes, on 32-bit coordinates, and whether
-- it is shown.
use neuswc.Prelude.{◌≡◌, Bool, ◌&&◌, Option, none, some, if◌then◌else◌, arith}
use neuswc.Prelude.Int.{ℤ, pos, negsuc, ◌+ℤ◌, ◌-ℤ◌, ◌≤ℤ◌, ltb_ℤ, +ℤ_parts, -ℤ_parts}
use neuswc.Subsurface.State.{Point}

abbrev pub int32_min : ℤ
int32_min = negsuc 2147483647

abbrev pub int32_max : ℤ
int32_max = pos 2147483647

-- MIN and MAX.
abbrev pub min : ℤ → ℤ → ℤ
min a b = if ltb_ℤ a b then a else b

abbrev pub max : ℤ → ℤ → ℤ
max a b = if ltb_ℤ b a then a else b

unfoldable pub clamp : ℤ → ℤ
clamp a = max int32_min (min a int32_max)

-- The sum is made on 64 bits.
abbrev pub coordinate : (parent own offset : ℤ) → ℤ
coordinate parent own offset = clamp (parent +ℤ own -ℤ offset)

-- A view: where it is, and how far into its buffer.
pub record Placed : Type 0 where
  pub geometry : Point
  pub buffer_offset : Point

-- Where view_move moves the view of a child to, if the child and its parent have one.
abbrev pub subsurface_update_position :
    (view parent_view : Option Placed) → (own : Point) → Option Point
subsurface_update_position none _ own = none
subsurface_update_position (some _) none own = none
subsurface_update_position (some _) (some v) own = some (record {
  x = coordinate v.geometry.x own.x v.buffer_offset.x;
  y = coordinate v.geometry.y own.y v.buffer_offset.y;
})

abbrev pub IsInt32 : ℤ → Type 0
IsInt32 a = (int32_min ≤ℤ a) × (a ≤ℤ int32_max)

abbrev pub IsInt64 : ℤ → Type 0
IsInt64 a = (negsuc 9223372036854775807 ≤ℤ a) × (a ≤ℤ pos 9223372036854775807)

clamp-IsInt32 : (a : ℤ) → IsInt32 (clamp a)
unfolding clamp
clamp-IsInt32 a = ground arith

clamp_inside : (a : ℤ) → IsInt32 a → clamp a ≡ a
unfolding clamp
clamp_inside a h = ground arith

clamp_below : (a : ℤ) → a ≤ℤ int32_min → clamp a ≡ int32_min
unfolding clamp
clamp_below a h = ground arith

clamp_above : (a : ℤ) → int32_max ≤ℤ a → clamp a ≡ int32_max
unfolding clamp
clamp_above a h = ground arith

-- For 32-bit coordinates the sum fits into 64 bits, and the coordinate that a view is moved to fits into
-- 32: it is the sum where that fits, and otherwise the least or the greatest number, whichever is nearer.
pub coordinate_bounds :
    (parent own offset : ℤ)
    → IsInt32 parent
    → IsInt32 own
    → IsInt32 offset
    → let sum = parent +ℤ own -ℤ offset in
      let moved = coordinate parent own offset in
      (IsInt64 sum × IsInt32 moved)
      × ((IsInt32 sum → moved ≡ sum)
          × ((sum ≤ℤ int32_min → moved ≡ int32_min) × (int32_max ≤ℤ sum → moved ≡ int32_max)))
coordinate_bounds parent own offset p o f =
    let sum = parent +ℤ own -ℤ offset in
    let facts = +ℤ_parts parent own in
    let facts' = -ℤ_parts (parent +ℤ own) offset in
    (
      ((omega (arith, facts, facts'), omega (arith, facts, facts')), clamp-IsInt32 sum),
      (clamp_inside sum, (clamp_below sum, clamp_above sum)),
    )

-- Whether a view is shown or hidden.
pub data Change : Type 0 where
  no_change show hide : Change

-- subsurface_update_visibility: whether the view of the child has a buffer and that of the parent is
-- visible, if they have a view.
abbrev pub subsurface_update_visibility :
    (has_buffer : Option Bool) → (parent_visible : Option Bool) → (added : Bool) → Change
subsurface_update_visibility none _ added = no_change
subsurface_update_visibility (some _) none added = no_change
subsurface_update_visibility (some has_buffer) (some visible) added =
    if added && (visible && has_buffer) then show else hide
