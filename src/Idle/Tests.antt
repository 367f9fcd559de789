-- ===== src/Idle/Tests.antt =====
-- The theorems about idle clients at concrete states, and a run.
use neuswc.Prelude.{◌≢◌, All, arith, ◌≡◌, refl, true, false, [], ◌∷◌, none, some}
use neuswc.Idle.Notify.{idled, resumed}
use neuswc.Idle.Inhibit.{
  Views, is_seen, any_seen, idle_inhibit_active, idle_inhibit_update, idle_notify_activity, part,
  get_idle_notification, create_inhibitor, timer_fires, created,
}
use neuswc.Idle.Clock.{IsSound}
use neuswc.Idle.Session.{
  Session, ask, inhibit, input, called, show, Calls, still, next, Reach, start, later, Reach-IsFit,
}
use neuswc.Idle.Fit.{IsFit}

abbrev seen : Views
seen _ = some (record { visible = true; buffer = true; screens = 1; clip = part })

abbrev unseen : Views
unseen _ = none

abbrev asked : Session
asked = record { views = unseen; state = get_idle_notification true 5 30000 false unseen created }

-- There is an inhibitor that is not seen yet.
abbrev held : Session
held = record { views = unseen; state = create_inhibitor true 9 2 unseen asked.state }

-- It comes into sight, and then the user does something.
abbrev sighted : Session
sighted = record { views = seen; state = held.state }

abbrev updated : Session
updated = record { views = seen; state = idle_inhibit_update seen held.state }

sighted-Reach : Reach sighted
sighted-Reach =
    later
      (later
        (later (start unseen)
          (called (ask (record { views = unseen; state = created }) true 5 30000 false)))
        (called (inhibit asked true 9 2)))
      (show held seen)

stale : sighted.state.effective_inhibition ≢ idle_inhibit_active sighted.views sighted.state
unfolding idle_inhibit_active any_seen is_seen create_inhibitor idle_inhibit_update
    get_idle_notification
stale e = ground (arith, e)

Reach-IsFit_example :
    All IsSound sighted.state.notifications
    × (sighted.state.effective_inhibition ≢ idle_inhibit_active seen sighted.state
        → (t : Session) → Calls updated t
        → IsFit t.views t.state)
Reach-IsFit_example = Reach-IsFit sighted-Reach

fits_after_input : IsFit seen (idle_notify_activity seen updated.state)
fits_after_input =
    (Reach-IsFit sighted-Reach).1 stale
      (record { views = seen; state = idle_notify_activity seen updated.state })
      (next still (input updated))

-- The client has been idle before the inhibitor came, and is told that it has resumed.
resumed_by_inhibitor :
    (create_inhibitor true 9 2 seen (timer_fires 5 asked.state)).notifications
    ≡ record {
      resource = 5;
      timer = none;
      timeout_ms = 30000;
      ignore_inhibitors = false;
      idled = false;
      sent = resumed ∷ idled ∷ [];
    }
      ∷ []
unfolding create_inhibitor timer_fires get_idle_notification
resumed_by_inhibitor = refl
