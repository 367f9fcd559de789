-- ===== src/Bindings/Entries.antt =====
-- libswc/bindings.c, lines 38 to 47, 134 to 192 and 352 to 414: the entries, how they are found, added
-- and removed.
use neuswc.Prelude.{
  ℕ, ◌-◌, ◌^◌, Bool, true, false, not, ◌&&◌, ◌||◌, List, [], ◌∷◌, Option, none, some, if◌then◌else◌,
  ◌==◌,
}

pub data BindingType : Type 0 where
  key button other_type : BindingType

-- `id` is the address of the struct; `client` stands for the handler and its data.
pub record Binding : Type 0 where
  pub id : ℕ
  pub presses : ℕ
  pub removed : Bool
  pub value : ℕ
  pub modifiers : ℕ
  pub client : ℕ

-- A call of the handler of the entry at the address `id`.
pub record Call : Type 0 where
  pub id : ℕ
  pub client : ℕ
  pub value : ℕ
  pub pressed : Bool

-- SWC_MOD_ANY, as a `uint32_t`.
abbrev pub mod_any : ℕ
mod_any = 2 ^ 32 - 1

abbrev pub fits_modifiers : (bound : ℕ) → (modifiers : ℕ) → Bool
fits_modifiers bound modifiers = bound == modifiers || bound == mod_any

abbrev pub is_bound : (modifiers : ℕ) → (value : ℕ) → Binding → Bool
is_bound modifiers value b =
    not b.removed && (b.value == value && fits_modifiers b.modifiers modifiers)

-- The first entry that passes a test.
abbrev pub first_entry : (Binding → Bool) → List Binding → Option Binding
first_entry p [] = none
first_entry p (b ∷ bs) = if p b then some b else first_entry p bs

unfoldable pub find_binding : List Binding → (modifiers : ℕ) → (value : ℕ) → Option Binding
find_binding bs modifiers value = first_entry (is_bound modifiers value) bs

-- `keysym` is what the keymap gives in its state, `level0` the first keysym of the key on level 0.
abbrev pub find_by_level : List Binding → (modifiers : ℕ) → (level0 : Option ℕ) → Option Binding
find_by_level bs modifiers none = none
find_by_level bs modifiers (some sym) = find_binding bs modifiers sym

abbrev pub or_else : Option Binding → Option Binding → Option Binding
or_else none o = o
or_else (some b) o = some b

-- `present`: there is a seat with a keyboard.
unfoldable pub find_key_binding :
    List Binding
    → (present : Bool) → (keysym : ℕ) → (level0 : Option ℕ) → (modifiers : ℕ) → Option Binding
find_key_binding bs present keysym level0 modifiers =
    if not present
    then none
    else or_else (find_binding bs modifiers keysym) (find_by_level bs modifiers level0)

-- The entry at an address.
abbrev pub at_address : List Binding → ℕ → Option Binding
at_address bs id = first_entry (λ b. b.id == id) bs

-- A write through a pointer to an entry.
abbrev pub write : ℕ → (Binding → Binding) → List Binding → List Binding
write id f [] = []
write id f (b ∷ bs) = if b.id == id then f b ∷ bs else b ∷ write id f bs

-- `wl_list_remove` and `free`.
abbrev pub unlink : ℕ → List Binding → List Binding
unlink id [] = []
unlink id (b ∷ bs) = if b.id == id then bs else b ∷ unlink id bs

abbrev pub new_binding : (id modifiers value client : ℕ) → Binding
new_binding id modifiers value client = record {
  id = id;
  presses = 0;
  removed = false;
  value = value;
  modifiers = modifiers;
  client = client;
}

-- The first that is to be removed: the match is exact.
abbrev pub is_exactly : (modifiers : ℕ) → (value : ℕ) → Binding → Bool
is_exactly modifiers value b =
    not (b.removed || (not (b.value == value) || not (b.modifiers == modifiers)))

abbrev pub mark_removed : Binding → Binding
mark_removed b = record b { removed = true }

abbrev pub call : Binding → (pressed : Bool) → Call
call b pressed = record { id = b.id; client = b.client; value = b.value; pressed = pressed }
