-- ===== src/Bindings/Axis.antt =====
-- libswc/bindings.c, lines 86 to 91, 194 to 208, 296 to 326 and 416 to 432: the wheels that are bound.
use neuswc.Prelude.{
  ℕ, ◌*◌, ◌/◌, ◌≡◌, Bool, false, not, ◌&&◌, List, [], ◌∷◌, ◌++◌, Option, none, some, if◌then◌else◌,
  ◌==◌, arith,
}
use neuswc.Bindings.Entries.{fits_modifiers}

-- A signed number: a wl_fixed_t in 256ths, or a step in 120ths.
pub record Signed : Type 0 where
  pub negative : Bool
  pub magnitude : ℕ

-- `client` is none when there is no handler.
pub record AxisBinding : Type 0 where
  pub axis : ℕ
  pub modifiers : ℕ
  pub client : Option ℕ

unfoldable pub find_axis_binding :
    List AxisBinding → (modifiers : ℕ) → (axis : ℕ) → Option AxisBinding
find_axis_binding [] modifiers axis = none
find_axis_binding (b ∷ bs) modifiers axis =
    if b.axis == axis && fits_modifiers b.modifiers modifiers
    then some b
    else find_axis_binding bs modifiers axis

abbrev pub is_zero : Signed → Bool
is_zero n = n.magnitude == 0

-- `(int32_t)(wl_fixed_to_double(value) * 120.0)`, which rounds towards 0.
abbrev pub in_steps : Signed → Signed
in_steps value = record value { magnitude = value.magnitude * 120 / 256 }

abbrev pub one_step : Bool → Signed
one_step negative = record { negative = negative; magnitude = 1 }

unfoldable pub delta : (value value120 : Signed) → Signed
delta value value120 =
    if is_zero value120 && not (is_zero value)
    then (if is_zero (in_steps value) then one_step value.negative else in_steps value)
    else value120

abbrev pub call_axis : Option AxisBinding → Signed → Option (ℕ × Signed)
call_axis none d = none
call_axis (some b) d = elim b.client [ none ↦ none | some client ↦ some (client, d) ]

-- handle_axis: the handler that is called, with its argument, or none if the event is refused.
unfoldable pub handle_axis :
    (locked : Bool)
    → List AxisBinding
    → (modifiers axis : ℕ) → (value value120 : Signed) → Option (ℕ × Signed)
handle_axis locked bs modifiers axis value value120 =
    if locked then none else call_axis (find_axis_binding bs modifiers axis) (delta value value120)

abbrev pub swc_add_axis_binding :
    (memory : Bool)
    → (modifiers axis : ℕ) → (client : Option ℕ) → List AxisBinding
    → List AxisBinding
swc_add_axis_binding memory modifiers axis client bs =
    if memory
    then bs ++ (record { axis = axis; modifiers = modifiers; client = client } ∷ [])
    else bs

-- A turn that is not 0 is passed on as one that is not 0.
pub delta_moves :
    (value value120 : Signed)
    → (is_zero value && is_zero value120) ≡ false
    → is_zero (delta value value120) ≡ false
unfolding delta
delta_moves value value120 h = ground arith
