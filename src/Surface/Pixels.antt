-- ===== src/Surface/Pixels.antt =====
-- libswc/surface.c, lines 390 to 462 and 623 to 655: a buffer with a scale and a transform, in logical
-- coordinates.
use neuswc.Prelude.{
  ℕ, suc, ◌+◌, ◌-◌, ◌*◌, ◌/◌, ◌%◌, ◌^◌, ◌≤◌, ◌<◌, ◌≡◌, sym, ap, subst, ◌≢◌, Bool, true, false, not,
  ◌||◌, ◌&&◌, if◌then◌else◌, ◌==◌, ltb, arith, if_intro, Bool-cases, inl, inr,
}
use native.Mathlib.Nat.{mul-suc, mul_comm, mul-le-mul_right, div-mul-le_self}

pub record Size : Type 0 where
  pub width : ℕ
  pub height : ℕ

abbrev pub u32 : ℕ
u32 = 2 ^ 32

-- What comes of a source: the buffer itself, a new one of a size, a protocol error, or nothing.
pub data Logical : Type 0 where
  itself invalid_size too_large : Logical
  rasterized : Size → Logical

-- `transform & 1` and `transform & 4`.
abbrev pub is_turned : ℕ → Bool
is_turned transform = transform % 2 == 1

abbrev pub is_flipped : ℕ → Bool
is_flipped transform = transform / 4 % 2 == 1

abbrev pub rotated : (transform : ℕ) → Size → Size
rotated transform s =
    if is_turned transform then record { width = s.height; height = s.width } else s

abbrev is_too_large : (source out : Size) → Bool
is_too_large source out =
    out.width == 0
    || (out.height == 0
        || (ltb ((u32 - 1) / 4) source.width
            || ltb ((2 ^ 64 - 1) / (source.width * 4)) source.height))

abbrev pub rasterized_size : (source : Size) → (scale : ℕ) → (turned : Size) → Logical
rasterized_size source scale turned =
    let out : Size = record { width = turned.width / scale; height = turned.height / scale } in
    if not (turned.width % scale == 0) || not (turned.height % scale == 0)
    then invalid_size
    else if is_too_large source out
    then too_large
    else rasterized out

-- logical_buffer up to the creation of the new buffer.
unfoldable pub logical_size : (source : Size) → (scale transform : ℕ) → Logical
logical_size source scale transform =
    if scale == 1 && transform == 0
    then itself
    else rasterized_size source scale (rotated transform source)

-- A subtraction of two numbers on 32 bits.
abbrev pub sub32 : ℕ → ℕ → ℕ
sub32 a b = (a + (u32 - b)) % u32

abbrev pub middle : (scale x : ℕ) → ℕ
middle scale x = ((x * scale) % u32 + scale / 2) % u32

abbrev pub mirrored : (transform : ℕ) → (rotated_width tx : ℕ) → ℕ
mirrored transform rotated_width tx =
    if is_flipped transform then sub32 (sub32 rotated_width 1) tx else tx

-- The `switch`, on `transform & 3`.
abbrev pub turn_back : (source : Size) → (quarter tx ty : ℕ) → ℕ × ℕ
turn_back source quarter tx ty =
    if quarter == 1
    then (ty, sub32 (sub32 source.height 1) tx)
    else if quarter == 2
    then (sub32 (sub32 source.width 1) tx, sub32 (sub32 source.height 1) ty)
    else if quarter == 3
    then (sub32 (sub32 source.width 1) ty, tx)
    else (tx, ty)

-- The pixel of the source that the pixel at (x, y) is read from.
unfoldable pub source_pixel : (source : Size) → (scale transform : ℕ) → (x y : ℕ) → ℕ × ℕ
source_pixel source scale transform x y =
    turn_back source (transform % 4)
      (mirrored transform (rotated transform source).width (middle scale x)) (middle scale y)

step_inside : (x s r : ℕ) → x < r / s → x * s + s ≤ r
step_inside x s r h = omega (
  arith,
  mul-le-mul_right {m = suc x} {n = r / s} s (omega arith),
  div-mul-le_self r s,
  mul_comm (suc x) s,
  mul-suc s x,
  mul_comm s x,
)

-- The middle of a pixel of the new buffer lies in the turned source.
middle_inside : (x s r : ℕ) → 0 < s → r < u32 → x < r / s → middle s x < r
middle_inside x s r p b h = omega (arith, step_inside x s r h)

sub32_inside : (n i : ℕ) → i < n → n < u32 → sub32 (sub32 n 1) i < n
sub32_inside n i h b = omega arith

mirrored_inside : (transform r tx : ℕ) → r < u32 → tx < r → mirrored transform r tx < r
mirrored_inside transform r tx b h =
    if_intro (λ n. n < r) (is_flipped transform) _ _ (λ _. sub32_inside r tx h b) (λ _. h)

abbrev pub IsInside : Size → ℕ × ℕ → Type 0
IsInside s p = (p.0 < s.width) × (p.1 < s.height)

-- Quarters 1 and 3 are those that turn the sides.
module _ (source : Size) (transform tx ty : ℕ) (w : source.width < u32) (h : source.height < u32)
    (p : tx < (rotated transform source).width) (q : ty < (rotated transform source).height) where
  turned_inside : is_turned transform ≡ true → (tx < source.height) × (ty < source.width)
  turned_inside e = (rw e at p, rw e at q)

  upright_inside : is_turned transform ≡ false → (tx < source.width) × (ty < source.height)
  upright_inside e = (rw e at p, rw e at q)

  turn_back-IsInside : IsInside source (turn_back source (transform % 4) tx ty)
  turn_back-IsInside =
      if_intro (IsInside source) (transform % 4 == 1) _ _
        (λ e. let (a, b) = turned_inside (ground arith) in (b, sub32_inside source.height tx a h))
        (λ e.
          if_intro (IsInside source) (transform % 4 == 2) _ _
            (λ f.
              let (a, b) = upright_inside (ground arith) in
              (sub32_inside source.width tx a w, sub32_inside source.height ty b h))
            (λ f.
              if_intro (IsInside source) (transform % 4 == 3) _ _
                (λ g.
                  let (a, b) = turned_inside (ground arith) in
                  (sub32_inside source.width ty b w, a))
                (λ g. upright_inside (ground arith))))

itself-not_rasterized : {s : Size} → itself ≢ rasterized s
itself-not_rasterized p = absurd (ground arith)

chosen :
    (c d : Bool) (o out : Size)
    → (if c then invalid_size else if d then too_large else rasterized o) ≡ rasterized out
    → o ≡ out
chosen true d o out e = absurd (ground arith)
chosen false true o out e = absurd (ground arith)
chosen false false o out e = cc

rasterized_out :
    (source : Size) (scale : ℕ) (turned out : Size)
    → rasterized_size source scale turned ≡ rasterized out
    → (out.width ≡ turned.width / scale) × (out.height ≡ turned.height / scale)
rasterized_out source scale turned out e =
    let same = chosen _ _ _ out e in
    (ap (λ (o : Size). o.width) (sym same), ap (λ (o : Size). o.height) (sym same))

logical_out :
    (source : Size) (scale transform : ℕ) (out : Size)
    → logical_size source scale transform ≡ rasterized out
    → (out.width ≡ (rotated transform source).width / scale)
      × (out.height ≡ (rotated transform source).height / scale)
unfolding logical_size
logical_out source scale transform out e = elim (Bool-cases (scale == 1 && transform == 0)) [
  | inl f ↦ absurd (itself-not_rasterized (rw f at e))
  | inr f ↦ rasterized_out source scale (rotated transform source) out (rw f at e)
]

rotated_small :
    (transform : ℕ) (source : Size)
    → source.width < u32
    → source.height < u32
    → ((rotated transform source).width < u32) × ((rotated transform source).height < u32)
rotated_small transform source w h =
    if_intro (λ (s : Size). (s.width < u32) × (s.height < u32)) (is_turned transform) _ _
      (λ _. (h, w)) (λ _. (w, h))

-- If a buffer whose sides are 32-bit numbers is rasterized for a scale that is not 0 and any transform,
-- each pixel of the new buffer is read from a pixel that the source has.
pub source_pixel-IsInside :
    (source : Size) (scale transform : ℕ) (out : Size) (x y : ℕ)
    → source.width < u32
    → source.height < u32
    → 0 < scale
    → logical_size source scale transform ≡ rasterized out
    → x < out.width
    → y < out.height
    → IsInside source (source_pixel source scale transform x y)
unfolding source_pixel
source_pixel-IsInside source scale transform out x y w h p e a b =
    let r = rotated transform source in
    let (rw', rh') = rotated_small transform source w h in
    let (ow, oh) = logical_out source scale transform out e in
    let in_x = middle_inside x scale r.width p rw' (subst (λ n. x < n) ow a) in
    let in_y = middle_inside y scale r.height p rh' (subst (λ n. y < n) oh b) in
    turn_back-IsInside source transform _ _ w h
      (mirrored_inside transform r.width (middle scale x) rw' in_x) in_y
