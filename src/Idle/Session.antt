-- ===== src/Idle/Session.antt =====
-- The two files together: every sequence of events of a session.
use neuswc.Prelude.{ℕ, ◌≢◌, refl, Bool, false, All}
use neuswc.Idle.Inhibit.{
  Views, Idle, idle_inhibit_active, idle_notify_activity, idle_inhibit_update, create_inhibitor,
  inhibitor_resource_destroy, inhibitors_of, surface_destroyed, get_idle_notification,
  notification_destroyed, timer_fires, created,
}
use neuswc.Idle.Clock.{IsSound}
use neuswc.Idle.Fit.{
  IsRunning, All-IsSound, update-IsRunning, changed-IsFit, activity-IsRunning, All-asked,
  release-IsRunning, destroy_inhibitors-IsRunning, create-IsRunning, IsFit, update-IsFit,
  fit-IsStale, activity-IsFit, All-ask, All-destroy, All-expire, release-IsFit,
  destroy_inhibitors-IsFit, create-IsFit,
}

-- The state of the files, with the views of the surfaces as they are now.
pub record Session : Type 0 where
  pub views : Views
  pub state : Idle
  pub open state use *

-- The calls and callbacks; `update` is idle_inhibit_update, which the compositor calls too.
pub data Call : Session → Session → Type 0 where
  input : (s : Session) → Call s (record s { state = idle_notify_activity s.views s.state })
  ask :
      (s : Session) (granted : Bool) (id timeout : ℕ) (ignore_inhibitors : Bool)
      → Call s (record s {
        state = get_idle_notification granted id timeout ignore_inhibitors s.views s.state;
      })
  leave : (s : Session) (r : ℕ) → Call s (record s { state = notification_destroyed r s.state })
  fire : (s : Session) (r : ℕ) → Call s (record s { state = timer_fires r s.state })
  inhibit :
      (s : Session) (granted : Bool) (id surface : ℕ)
      → Call s (record s { state = create_inhibitor granted id surface s.views s.state })
  release :
      (s : Session) (r : ℕ)
      → Call s (record s { state = inhibitor_resource_destroy r s.views s.state })
  unmap :
      (s : Session) (surface : ℕ)
      → Call s (record s { state = surface_destroyed surface s.views s.state })
  update : (s : Session) → Call s (record s { state = idle_inhibit_update s.views s.state })

-- What is seen changes at any time, and the update comes later, or never.
pub data Step : Session → Session → Type 0 where
  called : {s t : Session} → Call s t → Step s t
  show : (s : Session) (views : Views) → Step s (record s { views = views })

pub data Reach : Session → Type 0 where
  start : (views : Views) → Reach (record { views = views; state = created })
  later : {s t : Session} → Reach s → Step s t → Reach t

-- Calls while what is seen stays.
pub data Calls (s : Session) : Session → Type 0 where
  still : Calls s s
  next : {t u : Session} → Calls s t → Call t u → Calls s u

Call-IsFit : {s t : Session} → Call s t → IsFit s.views s.state → IsFit t.views t.state
unfolding get_idle_notification notification_destroyed timer_fires surface_destroyed
Call-IsFit (input s) v = activity-IsFit s.views s.state v
Call-IsFit (ask s granted id timeout i) v = record {
  running = v.running;
  ready = v.ready;
  effective = v.effective;
  kept = rw v.effective (All-ask _ granted id timeout i s.notifications (rw v.effective at v.kept));
}
Call-IsFit (leave s r) v = record {
  running = v.running;
  ready = v.ready;
  effective = v.effective;
  kept = All-destroy s.effective_inhibition r s.notifications v.kept;
}
Call-IsFit (fire s r) v = record {
  running = v.running;
  ready = v.ready;
  effective = v.effective;
  kept = All-expire s.effective_inhibition r s.notifications v.kept;
}
Call-IsFit (inhibit s granted id surface) v = create-IsFit granted id surface s.views s.state v
Call-IsFit (release s r) v = release-IsFit r s.views s.state (fit-IsStale v)
Call-IsFit (unmap s surface) v =
    destroy_inhibitors-IsFit (inhibitors_of surface s.inhibitors) s.views s.state v
Call-IsFit (update s) v = update-IsFit s.views s.state (fit-IsStale v)

Calls-IsFit : {s t : Session} → Calls s t → IsFit s.views s.state → IsFit t.views t.state
Calls-IsFit still v = v
Calls-IsFit (next cs c) v = Call-IsFit c (Calls-IsFit cs v)

Call-IsRunning : {s t : Session} → Call s t → IsRunning s.state → IsRunning t.state
unfolding get_idle_notification notification_destroyed timer_fires surface_destroyed
Call-IsRunning (input s) v = activity-IsRunning s.views s.state v
Call-IsRunning (ask s granted id timeout i) v = record {
  running = v.running;
  ready = v.ready;
  kept = All-asked _ granted id timeout i s.notifications v.kept;
}
Call-IsRunning (leave s r) v = record {
  running = v.running;
  ready = v.ready;
  kept = All-destroy false r s.notifications v.kept;
}
Call-IsRunning (fire s r) v = record {
  running = v.running;
  ready = v.ready;
  kept = All-expire false r s.notifications v.kept;
}
Call-IsRunning (inhibit s granted id surface) v =
    create-IsRunning granted id surface s.views s.state v
Call-IsRunning (release s r) v = release-IsRunning r s.views s.state v
Call-IsRunning (unmap s surface) v =
    destroy_inhibitors-IsRunning (inhibitors_of surface s.inhibitors) s.views s.state v
Call-IsRunning (update s) v = update-IsRunning s.views s.state v

Reach-IsRunning : {s : Session} → Reach s → IsRunning s.state
Reach-IsRunning (start views) = record { running = refl; ready = refl; kept = tt }
Reach-IsRunning (later r (called c)) = Call-IsRunning c (Reach-IsRunning r)
Reach-IsRunning (later r (show s views)) = Reach-IsRunning r

-- After any sequence of events, with what is seen changing at any time, each client has been told idle and
-- resumed in turn, and knows its state; its timer runs only while it is not idle, with its timeout. Once an
-- update finds that the flag is not what is seen, and until what is seen changes again, the flag is what is
-- seen, and while that is a seen inhibitor no client that minds inhibitors is idle or has a timer that runs.
pub Reach-IsFit :
    {s : Session}
    → Reach s
    → All IsSound s.state.notifications
      × (s.state.effective_inhibition ≢ idle_inhibit_active s.views s.state
          → (t : Session) → Calls (record s { state = idle_inhibit_update s.views s.state }) t
          → IsFit t.views t.state)
Reach-IsFit {s} r =
    let v = Reach-IsRunning r in
    (
      All-IsSound false s.state.notifications v.kept,
      λ stale t cs. Calls-IsFit cs (changed-IsFit s.views s.state v stale),
    )
