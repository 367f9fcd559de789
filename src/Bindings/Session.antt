-- ===== src/Bindings/Session.antt =====
-- libswc/bindings.c, lines 49 to 84, 116 to 126 and 328 to 414: batches of entries, and all sequences of
-- input events and calls of the window manager. A handler is taken not to call back into the library.
use neuswc.Prelude.{
  ℕ, suc, Bool, true, false, List, [], ◌∷◌, ◌++◌, Option, none, some, ◌>>=◌, if◌then◌else◌,
}
use neuswc.Bindings.Entries.{BindingType, key, button, other_type}
use neuswc.Bindings.Handle.{
  Device, Keymap, Others, key_down, key_up, button_down, button_up, add_entry, remove_entry,
  release_all,
}

-- An entry of a batch, which is not linked yet.
pub record Entry : Type 0 where
  pub type : BindingType
  pub modifiers : ℕ
  pub value : ℕ
  pub client : ℕ

-- `next` is the address that the allocator gives to the next entry; `batch` is the batch that is being
-- made.
pub record Bindings : Type 0 where
  pub keys : Device
  pub buttons : Device
  pub batch : List Entry
  pub next : ℕ

-- swc_add_binding, for a type that it knows and with memory; swc_binding_batch_commit links an entry in
-- the same way.
unfoldable pub link_entry : Entry → Bindings → Bindings
link_entry e s = elim e.type [
  | key ↦ record s {
    keys = add_entry s.next e.modifiers e.value e.client s.keys;
    next = suc s.next;
  }
  | button ↦ record s {
    buttons = add_entry s.next e.modifiers e.value e.client s.buttons;
    next = suc s.next;
  }
  | other_type ↦ s
]

abbrev pub swc_add_binding : (memory : Bool) → Entry → Bindings → Bindings
swc_add_binding memory e s = if memory then link_entry e s else s

abbrev pub is_batched : BindingType → Bool
is_batched other_type = false
is_batched _ = true

unfoldable pub swc_binding_batch_add : (memory : Bool) → Entry → Bindings → Bindings
swc_binding_batch_add memory e s =
    if is_batched e.type
    then (if memory then record s { batch = s.batch ++ (e ∷ []) } else s)
    else s

abbrev pub swc_binding_batch_discard : Bindings → Bindings
swc_binding_batch_discard s = record s { batch = [] }

unfoldable pub link_all : List Entry → Bindings → Bindings
link_all [] s = s
link_all (e ∷ es) s = link_all es (link_entry e s)

abbrev pub swc_binding_batch_commit : Bindings → Bindings
swc_binding_batch_commit s = record (link_all s.batch s) { batch = [] }

abbrev pub swc_remove_binding : BindingType → (modifiers value : ℕ) → Bindings → Bindings
swc_remove_binding key modifiers value s = record s { keys = remove_entry modifiers value s.keys }
swc_remove_binding button modifiers value s = record s {
  buttons = remove_entry modifiers value s.buttons;
}
swc_remove_binding other_type modifiers value s = s

abbrev pub bindings_initialize : Bindings
bindings_initialize = record { keys = unused; buttons = unused; batch = []; next = 1 }
  where
    unused : Device
    unused = record { entries = []; held = []; calls = [] }

-- bindings_finalize, after which the library is not used.
abbrev pub bindings_finalize : Bindings → Bindings
bindings_finalize s = record s {
  keys = record (s.keys) { entries = [] };
  buttons = record (s.buttons) { entries = [] };
}

-- What can happen while the library runs. `locked` is session_lock_active.
pub data Event : Type 0 where
  key_pressed : (locked : Bool) → Keymap → Others → (memory : Bool) → (value : ℕ) → Event
  key_released : (value : ℕ) → Event
  keyboard_reset : Event
  button_pressed :
      (locked : Bool) → (modifiers : ℕ) → Others → (memory : Bool) → (value : ℕ) → Event
  button_released : (locked : Bool) → (value : ℕ) → Event
  added : (memory : Bool) → Entry → Event
  removed : BindingType → (modifiers value : ℕ) → Event
  batch_added : (memory : Bool) → Entry → Event
  batch_discarded batch_committed : Event

abbrev with_keys : Bindings → Option Device → Option Bindings
with_keys s none = none
with_keys s (some d) = some (record s { keys = d })

abbrev with_buttons : Bindings → Option Device → Option Bindings
with_buttons s none = none
with_buttons s (some d) = some (record s { buttons = d })

unfoldable pub step : Event → Bindings → Option Bindings
step (key_pressed locked k others memory value) s =
    some (record s { keys = key_down locked k others memory value s.keys })
step (key_released value) s = with_keys s (key_up value s.keys)
step keyboard_reset s = with_keys s (release_all s.keys.held s.keys)
step (button_pressed locked modifiers others memory value) s =
    some (record s { buttons = button_down locked modifiers others memory value s.buttons })
step (button_released locked value) s = with_buttons s (button_up locked value s.buttons)
step (added memory e) s = some (swc_add_binding memory e s)
step (removed type modifiers value) s = some (swc_remove_binding type modifiers value s)
step (batch_added memory e) s = some (swc_binding_batch_add memory e s)
step batch_discarded s = some (swc_binding_batch_discard s)
step batch_committed s = some (swc_binding_batch_commit s)

unfoldable pub run : List Event → Bindings → Option Bindings
run [] s = some s
run (e ∷ es) s = step e s >>= run es
