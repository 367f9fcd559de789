-- ===== src/Lock/Tests.antt =====
-- The theorems about the lock of the session at concrete states.
use neuswc.Prelude.{ℕ, ◌≡◌, refl, ◌⊎◌, true, false, [], ◌∷◌, Option, some}
use neuswc.Lock.State.{
  Screen, Lock, all_screens_covered, begin_lock, save_focus, maybe_send_locked, end_lock,
}
use neuswc.Lock.Requests.{
  unlock_and_destroy, manager_lock, session_lock_frame_presented, set_presented,
  session_lock_finish,
}
use neuswc.Lock.Session.{unlock, created}
use neuswc.Lock.Effects.{HasEnded}
use neuswc.Lock.Reached.{locked_stays}

abbrev screen : Screen
screen = record { name = 1; presented = 0; width = 800; height = 600 }

abbrev plugged : Lock
plugged = record (created true) { screens = screen ∷ [] }

abbrev no_grab : Option ℕ → Option ℕ
no_grab o = o

abbrev asked : Lock
asked = manager_lock true 5 no_grab plugged

-- The screen shows its cover.
abbrev told : Lock
told = session_lock_frame_presented 1 1 asked

asked-locked : asked.locked ≡ true
unfolding manager_lock begin_lock save_focus maybe_send_locked all_screens_covered
asked-locked = refl

unlocked_run : (unlock_and_destroy 5 told).locked ≡ false
unfolding manager_lock begin_lock save_focus maybe_send_locked all_screens_covered
    session_lock_frame_presented set_presented unlock_and_destroy end_lock
unlocked_run = refl

finished_run : (session_lock_finish told).locked ≡ false
unfolding session_lock_finish
finished_run = refl

-- Another client may not unlock.
locked_stays_example :
    ((unlock_and_destroy 7 asked).locked ≡ true)
    ⊎ ((r : ℕ) × (asked.resource ≡ some r)
        × (asked.sent_locked ≡ true)
        × (unlock_and_destroy r asked ≡ unlock_and_destroy 7 asked)
        × HasEnded (unlock_and_destroy 7 asked))
locked_stays_example = locked_stays (unlock 7 refl) asked-locked
