-- ===== src/View/Overlap.antt =====
-- What rectangle_overlap of libswc/util.h decides, where coordinates are not negative and where they
-- are.
use neuswc.Prelude.{
  ◌%◌, ℕ, ◌+◌, ◌^◌, ◌≤◌, ◌<◌, ◌≡◌, ◌↔◌, refl, Bool, true, false, ◌&&◌, if◌then◌else◌, ltb, arith,
}
use neuswc.View.Geometry.{word, Rectangle, axis_overlap, rectangle_overlap}

-- The coordinates are not negative, and the far edge is one too.
abbrev pub IsPlain : (x w : ℕ) → Type 0
IsPlain x w = x + w < 2 ^ 31

abbrev pub IsShared : (x1 w1 x2 w2 p : ℕ) → Type 0
IsShared x1 w1 x2 w2 p = (x1 ≤ p) × (p < x1 + w1) × (x2 ≤ p) × (p < x2 + w2)

axis_overlap_sound :
    (x1 w1 x2 w2 : ℕ)
    → IsPlain x1 w1
    → IsPlain x2 w2
    → axis_overlap x1 w1 x2 w2 ≡ true
    → (p : ℕ) × IsShared x1 w1 x2 w2 p
unfolding axis_overlap
axis_overlap_sound x1 w1 x2 w2 h1 h2 e = (
  if ltb x1 x2 then x2 else x1,
  (
    ground (arith, h1, h2, e),
    ground (arith, h1, h2, e),
    ground (arith, h1, h2, e),
    ground (arith, h1, h2, e),
  ),
)

axis_overlap_complete :
    (x1 w1 x2 w2 p : ℕ)
    → IsPlain x1 w1
    → IsPlain x2 w2
    → IsShared x1 w1 x2 w2 p
    → axis_overlap x1 w1 x2 w2 ≡ true
unfolding axis_overlap
axis_overlap_complete x1 w1 x2 w2 p h1 h2 (a, b, c, d) = ground (arith, h1, h2, a, b, c, d)

-- The point of a pixel that both rectangles have.
abbrev pub AreOverlapping : Rectangle → Rectangle → Type 0
AreOverlapping r1 r2 =
    ((p : ℕ) × IsShared r1.x r1.width r2.x r2.width p)
    × ((q : ℕ) × IsShared r1.y r1.height r2.y r2.height q)

abbrev pub ArePlain : Rectangle → Rectangle → Type 0
ArePlain r1 r2 =
    IsPlain r1.x r1.width × IsPlain r1.y r1.height × IsPlain r2.x r2.width × IsPlain r2.y r2.height

both : (a b : Bool) → a && b ≡ true → (a ≡ true) × (b ≡ true)
both true b e = (refl, e)
both false b e = cc

and_true : (a b : Bool) → a ≡ true → b ≡ true → a && b ≡ true
and_true true b e f = f
and_true false b e f = e

-- Where no coordinate is negative and no far edge is past 2 ^ 31, two rectangles are found to overlap
-- exactly if they have a pixel in common; touching edges do not count, nor do empty rectangles.
pub rectangle_overlap_iff :
    (r1 r2 : Rectangle) → ArePlain r1 r2 → (rectangle_overlap r1 r2 ≡ true) ↔ AreOverlapping r1 r2
unfolding rectangle_overlap
rectangle_overlap_iff r1 r2 (x1, y1, x2, y2) = (
  λ e.
      let (a, b) = both (axis_overlap r1.x r1.width r2.x r2.width) _ e in
      (
        axis_overlap_sound r1.x r1.width r2.x r2.width x1 x2 a,
        axis_overlap_sound r1.y r1.height r2.y r2.height y1 y2 b,
      ),
  λ ((p, sp), (q, sq)).
      and_true _ _ (axis_overlap_complete r1.x r1.width r2.x r2.width p x1 x2 sp)
        (axis_overlap_complete r1.y r1.height r2.y r2.height q y1 y2 sq),
)

axis_left :
    (x1 w1 x2 w2 : ℕ)
    → 2 ^ 31 ≤ x1
    → x1 + w1 < 2 ^ 32
    → IsPlain x2 w2
    → 0 < w2
    → w1 + w2 < 2 ^ 32
    → axis_overlap x1 w1 x2 w2 ≡ true
unfolding axis_overlap
axis_left x1 w1 x2 w2 a b c d e = ground (arith, a, b, c, d, e)

-- A rectangle that lies wholly to the left of 0 is still found to overlap one with some width that
-- starts at 0 or to the right of it, if their rows overlap and the two widths do not add up to 2 ^ 32;
-- yet its right edge is before the left edge of the other, counted from -2 ^ 31. The edge `x + width` is compared as an unsigned number.
pub overlap_left :
    (r1 r2 : Rectangle)
    → 2 ^ 31 ≤ r1.x
    → r1.x + r1.width < 2 ^ 32
    → IsPlain r2.x r2.width
    → 0 < r2.width
    → r1.width + r2.width < 2 ^ 32
    → axis_overlap r1.y r1.height r2.y r2.height ≡ true
    → (rectangle_overlap r1 r2 ≡ true)
      × ((r1.x + 2 ^ 31) % word + r1.width < (r2.x + 2 ^ 31) % word)
unfolding rectangle_overlap
overlap_left r1 r2 a b c d e f =
    (and_true _ _ (axis_left r1.x r1.width r2.x r2.width a b c d e) f, ground (arith, a, b, c))
