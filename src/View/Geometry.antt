-- ===== src/View/Geometry.antt =====
-- libswc/util.h, lines 65, 66 and 152 to 160: whether two rectangles overlap.
use neuswc.Prelude.{ℕ, ◌+◌, ◌-◌, ◌%◌, ◌^◌, Bool, ◌&&◌, if◌then◌else◌, ltb}

-- `x` and `y` are the bits of 32-bit signed numbers, a negative one being at least 2 ^ 31.
pub record Rectangle : Type 0 where
  pub x : ℕ
  pub y : ℕ
  pub width : ℕ
  pub height : ℕ

abbrev pub word : ℕ
word = 2 ^ 32

-- `<` of two signed numbers.
abbrev pub signed_lt : ℕ → ℕ → Bool
signed_lt a b = ltb ((a + 2 ^ 31) % word) ((b + 2 ^ 31) % word)

-- `MIN` of two signed numbers, and `MAX` of two unsigned ones: `x + width` is unsigned.
abbrev pub min_signed : ℕ → ℕ → ℕ
min_signed a b = if signed_lt a b then a else b

abbrev pub max_unsigned : ℕ → ℕ → ℕ
max_unsigned a b = if ltb b a then a else b

abbrev pub add32 : ℕ → ℕ → ℕ
add32 a b = (a + b) % word

-- On 32 bits, for `b` below 2 ^ 32.
abbrev pub sub32 : ℕ → ℕ → ℕ
sub32 a b = (a + (word - b)) % word

-- One of the two conditions.
unfoldable pub axis_overlap : (x1 w1 x2 w2 : ℕ) → Bool
axis_overlap x1 w1 x2 w2 =
    ltb (sub32 (max_unsigned (add32 x1 w1) (add32 x2 w2)) (min_signed x1 x2)) (add32 w1 w2)

unfoldable pub rectangle_overlap : Rectangle → Rectangle → Bool
unfolding axis_overlap
rectangle_overlap r1 r2 =
    axis_overlap r1.x r1.width r2.x r2.width && axis_overlap r1.y r1.height r2.y r2.height
