-- ===== src/Bindings/Handle.antt =====
-- libswc/bindings.c, lines 210 to 294 and 352 to 414, libswc/keyboard.c, lines 312 to 335 and 416 to 470,
-- and libswc/pointer.c, lines 1053 to 1100: presses and releases, and changes of the entries meanwhile.
use neuswc.Prelude.{
  ℕ, ◌+◌, ◌-◌, ◌^◌, ◌%◌, Bool, true, false, not, ◌&&◌, ◌||◌, List, [], ◌∷◌, ◌++◌, Option, none,
  some, ◌>>=◌, if◌then◌else◌, ◌==◌, leb,
}
use neuswc.Bindings.Entries.{
  Binding, Call, find_binding, find_key_binding, first_entry, at_address, write, unlink,
  new_binding, is_exactly, mark_removed, call,
}

-- Who has accepted a press.
pub data Taker : Type 0 where
  nobody bindings another : Taker

-- struct key or struct button. `target` is the pointer `data` that the press holds.
pub record Held : Type 0 where
  pub value : ℕ
  pub handler : Taker
  pub target : Option ℕ

-- The keyboard or the pointer, with the list of entries for it. `calls` are the calls of the handlers of
-- entries, the last one first.
pub record Device : Type 0 where
  pub entries : List Binding
  pub held : List Held
  pub calls : List Call

abbrev pub tell : Binding → Bool → Device → Device
tell b pressed d = record d { calls = if b.removed then d.calls else call b pressed ∷ d.calls }

-- `++binding->presses` and `--binding->presses`, on 32 bits.
abbrev pub press_more : Binding → Binding
press_more b = record b { presses = (b.presses + 1) % 2 ^ 32 }

abbrev pub press_less : Binding → Binding
press_less b = record b { presses = if b.presses == 0 then 2 ^ 32 - 1 else b.presses - 1 }

-- handle_binding for a press: the entry that was found is counted up and kept with the press. The second
-- component is what the function returns, with the pointer that the press then holds.
abbrev pub handle_press : Option Binding → Device → Device × Option ℕ
handle_press none d = (d, none)
handle_press (some b) d =
    (tell b true (record d { entries = write b.id press_more d.entries }), some b.id)

-- The end of handle_binding for a release, once the handler was called.
abbrev pub without_press : Binding → List Binding → List Binding
without_press b bs =
    if (press_less b).presses == 0 && b.removed then unlink b.id bs else write b.id press_less bs

abbrev pub drop_press : Binding → Device → Device
drop_press b d = record d { entries = without_press b d.entries }

abbrev pub release_entry : Option Binding → Device → Option Device
release_entry none d = none
release_entry (some b) d = some (drop_press b (tell b false d))

-- handle_binding for a release. A fault is a read through a null pointer or through one to a freed entry.
unfoldable pub handle_release : Option ℕ → Device → Option Device
handle_release none d = none
handle_release (some id) d = release_entry (at_address d.entries id) d

-- The key symbols XF86Switch_VT_1 and XF86Switch_VT_12.
abbrev pub binding_allowed_while_locked : ℕ → Bool
binding_allowed_while_locked keysym = leb 0x1008fe01 keysym && leb keysym 0x1008fe0c

-- What the keymap says of a key, and the modifiers.
pub record Keymap : Type 0 where
  pub present : Bool
  pub keysym : ℕ
  pub level0 : Option ℕ
  pub modifiers : ℕ

-- handle_key for a press.
unfoldable pub press_key : (locked : Bool) → Keymap → Device → Device × Option ℕ
press_key locked k d =
    if locked && not (binding_allowed_while_locked k.keysym)
    then (d, none)
    else handle_press (find_key_binding d.entries k.present k.keysym k.level0 k.modifiers) d

-- handle_button for a press.
unfoldable pub press_button :
    (locked : Bool) → (modifiers : ℕ) → (value : ℕ) → Device → Device × Option ℕ
press_button locked modifiers value d =
    if locked then (d, none) else handle_press (find_binding d.entries modifiers value) d

-- handle_button for a release.
unfoldable pub release_button : (locked : Bool) → Option ℕ → Device → Option Device
release_button locked p d = if locked then some d else handle_release p d

-- The handlers that come before and after those of the bindings, and whether they accept a press.
pub record Others : Type 0 where
  pub earlier : Bool
  pub later : Bool

abbrev pub hold : ℕ → Taker → Option ℕ → Device → Device
hold value taker p d = record d {
  held = d.held ++ (record { value = value; handler = taker; target = p } ∷ []);
}

-- The search for a handler that accepts the press, after those before the bindings have refused.
abbrev pub offer : ℕ → (later : Bool) → Device × Option ℕ → Device
offer value later (d, some id) = hold value bindings (some id) d
offer value later (d, none) = hold value (if later then another else nobody) none d

abbrev pub is_held : ℕ → List Held → Bool
is_held value [] = false
is_held value (h ∷ hs) = if h.value == value then true else is_held value hs

-- `array_remove` of the first with the value.
abbrev pub let_go : ℕ → List Held → List Held
let_go value [] = []
let_go value (h ∷ hs) = if h.value == value then hs else h ∷ let_go value hs

abbrev pub first_held : ℕ → List Held → Option Held
first_held value [] = none
first_held value (h ∷ hs) = if h.value == value then some h else first_held value hs

abbrev pub forget : ℕ → Device → Device
forget value d = record d { held = let_go value d.held }

-- keyboard_handle_key for a press. A press of a key that is down is a repetition. `memory`: wl_array_add
-- succeeds.
unfoldable pub key_down : (locked : Bool) → Keymap → Others → (memory : Bool) → ℕ → Device → Device
key_down locked k others memory value d =
    if is_held value d.held || not memory
    then d
    else if others.earlier
    then hold value another none d
    else offer value others.later (press_key locked k d)

-- The handler of a press hears of its release.
abbrev pub release_taken :
    (Option ℕ → Device → Option Device) → Taker → Option ℕ → Device → Option Device
release_taken release bindings p d = release p d
release_taken release _ p d = some d

abbrev pub release_held :
    (Option ℕ → Device → Option Device) → (value : ℕ) → Option Held → Device → Option Device
release_held release value none d = some d
release_held release value (some h) d = do
  d' ← release_taken release h.handler h.target d
  some (forget value d')

-- keyboard_handle_key for a release, and handle_key, which does not look at the lock then.
unfoldable pub key_up : ℕ → Device → Option Device
key_up value d = release_held handle_release value (first_held value d.held) d

-- pointer_handle_button.
unfoldable pub button_down :
    (locked : Bool) → (modifiers : ℕ) → Others → (memory : Bool) → ℕ → Device → Device
button_down locked modifiers others memory value d =
    if not memory
    then d
    else if others.earlier
    then hold value another none d
    else offer value others.later (press_button locked modifiers value d)

unfoldable pub button_up : (locked : Bool) → ℕ → Device → Option Device
button_up locked value d = release_held (release_button locked) value (first_held value d.held) d

-- swc_add_binding and swc_binding_batch_commit put a new entry last.
unfoldable pub add_entry : (id modifiers value client : ℕ) → Device → Device
add_entry id modifiers value client d = record d {
  entries = d.entries ++ (new_binding id modifiers value client ∷ []);
}

-- swc_remove_binding, for the entry that was found: one that is held ends its operation first.
abbrev pub remove_found : Option Binding → Device → Device
remove_found none d = d
remove_found (some b) d = record d {
  entries = if b.presses == 0 then unlink b.id d.entries else write b.id mark_removed d.entries;
  calls = if b.presses == 0 then d.calls else call b false ∷ d.calls;
}

unfoldable pub remove_entry : (modifiers value : ℕ) → Device → Device
remove_entry modifiers value d = remove_found (first_entry (is_exactly modifiers value) d.entries) d

-- The loop of keyboard_reset over the keys that are held.
unfoldable pub release_all : List Held → Device → Option Device
release_all [] d = some (record d { held = [] })
release_all (h ∷ hs) d = release_taken handle_release h.handler h.target d >>= release_all hs
