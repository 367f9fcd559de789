-- ===== src/Idle/Notify.antt =====
-- libswc/idle_notify.c: one notification with its timer and events, and the list of them. A timer of
-- the event loop is armed by a positive delay and disarmed by zero, and fires once.
use neuswc.Prelude.{
  ℕ, ◌-◌, ◌^◌, Bool, true, false, not, ◌&&◌, List, [], ◌∷◌, map, if◌then◌else◌, ◌==◌, ltb, Option,
  none, some,
}

pub data Sent : Type 0 where
  idled resumed : Sent

-- `timer` is the delay that the timer is armed with; `sent` is newest first.
pub record Notification : Type 0 where
  pub resource : ℕ
  pub timer : Option ℕ
  pub timeout_ms : ℕ  -- uint32_t
  pub ignore_inhibitors : Bool
  pub idled : Bool
  pub sent : List Sent

abbrev pub int_max : ℕ
int_max = 2 ^ 31 - 1

abbrev pub same : Bool → Bool → Bool
same true b = b
same false b = not b

abbrev pub event_of : Bool → Sent
event_of true = Sent.idled
event_of false = Sent.resumed

unfoldable pub set_idle : Bool → Notification → Notification
set_idle now n =
    if same n.idled now then n else record n { idled = now; sent = event_of now ∷ n.sent }

-- `wl_event_source_timer_update`.
abbrev pub timer_update : ℕ → Notification → Notification
timer_update delay n = record n { timer = if delay == 0 then none else some delay }

-- `active` is what `idle_inhibit_active` answers.
unfoldable pub arm : (active : Bool) → Notification → Notification
unfolding set_idle
arm active n =
    if not n.ignore_inhibitors && active
    then set_idle false (timer_update 0 n)
    else if n.timeout_ms == 0
    then set_idle true n
    else timer_update (if ltb int_max n.timeout_ms then int_max else n.timeout_ms)
        (set_idle false n)

unfoldable pub handle_timeout : Notification → Notification
unfolding set_idle
handle_timeout n = set_idle true n

-- The event loop runs the handler of an armed timer, and of no other.
unfoldable pub expire : Notification → Notification
unfolding handle_timeout
expire n = elim n.timer [ none ↦ n | some delay ↦ handle_timeout (record n { timer = none }) ]

unfoldable pub activity : (active : Bool) → List Notification → List Notification
activity active = map (arm active)

abbrev pub arm_aware : Bool → Notification → Notification
arm_aware active n = if not n.ignore_inhibitors then arm active n else n

unfoldable pub inhibit_changed : (active : Bool) → List Notification → List Notification
inhibit_changed active = map (arm_aware active)

-- The destructor of a resource takes its notification off the list.
unfoldable pub destroy_notification : ℕ → List Notification → List Notification
destroy_notification r [] = []
destroy_notification r (n ∷ ns) = if n.resource == r then ns else n ∷ destroy_notification r ns

abbrev pub new_notification : (id timeout : ℕ) (ignore_inhibitors : Bool) → Notification
new_notification id timeout ignore_inhibitors = record {
  resource = id;
  timer = none;
  timeout_ms = timeout;
  ignore_inhibitors = ignore_inhibitors;
  idled = false;
  sent = [];
}

-- `granted` says that the memory, the resource and the timer were all to be had; where one was not,
-- the others are given back and the client gets a no-memory error.
unfoldable pub get_notification :
    (active granted : Bool) (id timeout : ℕ) (ignore_inhibitors : Bool)
    → List Notification
    → List Notification
unfolding arm
get_notification active granted id timeout ignore_inhibitors ns =
    if granted then arm active (new_notification id timeout ignore_inhibitors) ∷ ns else ns
