-- ===== src/Lock/State.antt =====
-- libswc/session_lock.c, lines 60 to 251: the state of the lock, and its begin and end.
use neuswc.Prelude.{
  ℕ, ◌+◌, ◌^◌, ◌%◌, Bool, true, false, not, List, [], ◌∷◌, ◌++◌, Option, none, some, if◌then◌else◌,
  ◌==◌,
}

-- `presented` is `lock_presented_generation`.
pub record Screen : Type 0 where
  pub name : ℕ
  pub presented : ℕ
  pub width : ℕ
  pub height : ℕ

-- `resource` names the surface and its view, and `screen` the screen, or NULL.
pub record LockSurface : Type 0 where
  pub resource : ℕ
  pub screen : Option ℕ
  pub configure_serial : ℕ
  pub acked : Bool
  pub mapped : Bool

pub data Error : Type 0 where
  invalid_serial before_first_ack null_buffer dimensions_mismatch role already_constructed : Error
  duplicate_output invalid_unlock no_memory : Error

-- What clients are sent, and what the compositor is told to do.
pub data Event : Type 0 where
  locked finished show_surface hide_surface : ℕ → Event
  configure : (resource serial width height : ℕ) → Event
  error : ℕ → Error → Event
  hide_views restore_views damage_all : Event

-- The struct `lock`, with the screens, the focus of the keyboard, if there is one, and the serial of
-- the display.
pub record Lock : Type 0 where
  pub resource : Option ℕ
  pub locked : Bool
  pub sent_locked : Bool
  pub views_hidden : Bool
  pub generation : ℕ
  pub surfaces : List LockSurface
  pub saved_focus : Option ℕ
  pub screens : List Screen
  pub has_keyboard : Bool
  pub focus : Option ℕ
  pub serial : ℕ
  pub sent : List Event

abbrev pub say : Event → Lock → Lock
say e l = record l { sent = l.sent ++ e ∷ [] }

abbrev pub clear_saved_focus : Lock → Lock
clear_saved_focus l = record l { saved_focus = none }

abbrev pub keyboard_set_focus : Option ℕ → Lock → Lock
keyboard_set_focus view l = if l.has_keyboard then record l { focus = view } else l

-- `owner` is `xdg_popup_grab_focus_owner`.
unfoldable pub save_focus : (owner : Option ℕ → Option ℕ) → Lock → Lock
save_focus owner l = record l { saved_focus = owner (if l.has_keyboard then l.focus else none) }

-- The loop of `focus_a_lock_surface`; `under` says that the pointer is on a screen.
abbrev pub is_under : (under : ℕ → Bool) → Option ℕ → Bool
is_under under none = false
is_under under (some s) = under s

abbrev pub or_first : Option LockSurface → LockSurface → Option LockSurface
or_first none s = some s
or_first (some c) s = some c

unfoldable pub choose :
    (under : ℕ → Bool) → Option LockSurface → List LockSurface → Option LockSurface
choose under chosen [] = chosen
choose under chosen (s ∷ ss) =
    let skipped = choose under chosen ss in
    let kept = choose under (or_first chosen s) ss in
    if not s.mapped then skipped else if is_under under s.screen then some s else kept

abbrev pub focus_chosen : Option LockSurface → Lock → Lock
focus_chosen none l = l
focus_chosen (some s) l = keyboard_set_focus (some s.resource) l

unfoldable pub focus_a_lock_surface : (under : ℕ → Bool) → Lock → Lock
unfolding choose
focus_a_lock_surface under l = focus_chosen (choose under none l.surfaces) l

unfoldable pub all_screens_covered : ℕ → List Screen → Bool
all_screens_covered generation [] = true
all_screens_covered generation (s ∷ ss) =
    if not (s.presented == generation) then false else all_screens_covered generation ss

-- `maybe_send_locked` for the resource of the lock.
abbrev pub send_locked : Option ℕ → Lock → Lock
send_locked none l = l
send_locked (some r) l =
    if all_screens_covered l.generation l.screens
    then say (locked r) (record l { sent_locked = true })
    else l

unfoldable pub maybe_send_locked : Lock → Lock
unfolding all_screens_covered
maybe_send_locked l = if l.sent_locked then l else send_locked l.resource l

-- `if (!++generation) ++generation` on 64 bits.
abbrev pub next_generation : ℕ → ℕ
next_generation g = let next = (g + 1) % 2 ^ 64 in if next == 0 then (next + 1) % 2 ^ 64 else next

abbrev pub hide_for_lock : Lock → Lock
hide_for_lock l =
    if not l.views_hidden then say hide_views (record l { views_hidden = true }) else l

unfoldable pub begin_lock : (owner : Option ℕ → Option ℕ) → Lock → Lock
unfolding save_focus maybe_send_locked
begin_lock owner l =
    let started = record l {
      locked = true;
      generation = next_generation l.generation;
      sent_locked = false;
    } in
    maybe_send_locked
      (say damage_all (hide_for_lock (keyboard_set_focus none (save_focus owner started))))

abbrev pub restore_after_lock : Lock → Lock
restore_after_lock l =
    if l.views_hidden then say restore_views (record l { views_hidden = false }) else l

unfoldable pub end_lock : Lock → Lock
end_lock l =
    let ended = record l { locked = false; sent_locked = false; resource = none } in
    say damage_all (keyboard_set_focus l.saved_focus (clear_saved_focus (restore_after_lock ended)))
