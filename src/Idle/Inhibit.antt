-- ===== src/Idle/Inhibit.antt =====
-- libswc/idle_inhibit.c: which surfaces keep the session awake, and the update that tells the
-- notifications; the whole state of the two files.
use neuswc.Prelude.{
  ℕ, Bool, true, false, not, ◌&&◌, ◌||◌, List, [], ◌∷◌, if◌then◌else◌, ◌==◌, Option, none, some,
}
use neuswc.Idle.Notify.{
  Notification, same, activity, inhibit_changed, destroy_notification, get_notification, expire,
}

-- The answers of `pixman_region32_contains_rectangle`.
pub data Overlap : Type 0 where
  out within part : Overlap

-- What `idle_inhibit_active` reads of the view of a surface; `clip` is how the region that covers the
-- view contains its extents.
pub record View : Type 0 where
  pub visible : Bool
  pub buffer : Bool
  pub screens : ℕ
  pub clip : Overlap

pub record Inhibitor : Type 0 where
  pub resource : ℕ
  pub surface : ℕ

pub record Idle : Type 0 where
  pub initialized : Bool
  pub notifications : List Notification
  pub inhibitors_ready : Bool
  pub effective_inhibition : Bool
  pub inhibitors : List Inhibitor

-- The compositor's view of each surface, if it has one.
abbrev pub Views : Type 0
Views = ℕ → Option View

abbrev pub is_within : Overlap → Bool
is_within within = true
is_within _ = false

unfoldable pub is_seen : Option View → Bool
is_seen none = false
is_seen (some v) = v.visible && v.buffer && not (v.screens == 0) && not (is_within v.clip)

unfoldable pub any_seen : Views → List Inhibitor → Bool
unfolding is_seen
any_seen views [] = false
any_seen views (i ∷ is) = is_seen (views i.surface) || any_seen views is

unfoldable pub idle_inhibit_active : Views → Idle → Bool
unfolding any_seen
idle_inhibit_active views s = s.inhibitors_ready && any_seen views s.inhibitors

unfoldable pub idle_notify_activity : Views → Idle → Idle
unfolding activity idle_inhibit_active
idle_notify_activity views s =
    if not s.initialized
    then s
    else record s { notifications = activity (idle_inhibit_active views s) s.notifications }

unfoldable pub idle_notify_inhibit_changed : Views → Idle → Idle
unfolding inhibit_changed idle_inhibit_active
idle_notify_inhibit_changed views s =
    if not s.initialized
    then s
    else record s { notifications = inhibit_changed (idle_inhibit_active views s) s.notifications }

unfoldable pub idle_inhibit_update : Views → Idle → Idle
unfolding idle_inhibit_active idle_notify_inhibit_changed
idle_inhibit_update views s =
    let active = idle_inhibit_active views s in
    if same active s.effective_inhibition
    then s
    else idle_notify_inhibit_changed views (record s { effective_inhibition = active })

-- Without the memory or the resource the client gets a no-memory error and nothing changes.
unfoldable pub create_inhibitor : (granted : Bool) (id surface : ℕ) → Views → Idle → Idle
unfolding idle_inhibit_update
create_inhibitor granted id surface views s =
    if granted
    then idle_inhibit_update views
        (record s { inhibitors = record { resource = id; surface = surface } ∷ s.inhibitors })
    else s

unfoldable pub remove_inhibitor : ℕ → List Inhibitor → List Inhibitor
remove_inhibitor r [] = []
remove_inhibitor r (i ∷ is) = if i.resource == r then is else i ∷ remove_inhibitor r is

unfoldable pub inhibitor_resource_destroy : ℕ → Views → Idle → Idle
unfolding remove_inhibitor idle_inhibit_update
inhibitor_resource_destroy r views s =
    idle_inhibit_update views (record s { inhibitors = remove_inhibitor r s.inhibitors })

-- The resources of the inhibitors of a surface, in the order of the list.
unfoldable pub inhibitors_of : ℕ → List Inhibitor → List ℕ
inhibitors_of surface [] = []
inhibitors_of surface (i ∷ is) =
    if i.surface == surface then i.resource ∷ inhibitors_of surface is else inhibitors_of surface is

unfoldable pub destroy_inhibitors : List ℕ → Views → Idle → Idle
unfolding inhibitor_resource_destroy
destroy_inhibitors [] views s = s
destroy_inhibitors (r ∷ rs) views s =
    destroy_inhibitors rs views (inhibitor_resource_destroy r views s)

-- The destruction of a surface, whose listeners destroy the resources of its inhibitors.
unfoldable pub surface_destroyed : ℕ → Views → Idle → Idle
unfolding destroy_inhibitors inhibitors_of
surface_destroyed surface views s = destroy_inhibitors (inhibitors_of surface s.inhibitors) views s

unfoldable pub get_idle_notification :
    (granted : Bool) (id timeout : ℕ) (ignore_inhibitors : Bool) → Views → Idle → Idle
unfolding get_notification idle_inhibit_active
get_idle_notification granted id timeout ignore_inhibitors views s = record s {
  notifications =
      get_notification (idle_inhibit_active views s) granted id timeout ignore_inhibitors
        s.notifications;
}

unfoldable pub notification_destroyed : ℕ → Idle → Idle
unfolding destroy_notification
notification_destroyed r s = record s { notifications = destroy_notification r s.notifications }

-- The timer of the notification with this resource fires.
unfoldable pub expire_at : ℕ → List Notification → List Notification
unfolding expire
expire_at r [] = []
expire_at r (n ∷ ns) = if n.resource == r then expire n ∷ ns else n ∷ expire_at r ns

unfoldable pub timer_fires : ℕ → Idle → Idle
unfolding expire_at
timer_fires r s = record s { notifications = expire_at r s.notifications }

-- The state of both files once the two globals exist.
abbrev pub created : Idle
created = record {
  initialized = true;
  notifications = [];
  inhibitors_ready = true;
  effective_inhibition = false;
  inhibitors = [];
}

unfoldable pub idle_notifier_finish : Idle → Idle
idle_notifier_finish s =
    if not s.initialized then s else record s { notifications = []; initialized = false }

-- The loop of `idle_inhibit_manager_finish`, whose destructors run the update each time.
unfoldable pub destroy_all : List Inhibitor → Views → Idle → Idle
unfolding inhibitor_resource_destroy
destroy_all [] views s = s
destroy_all (i ∷ is) views s = destroy_all is views (inhibitor_resource_destroy i.resource views s)

unfoldable pub idle_inhibit_manager_finish : Views → Idle → Idle
unfolding destroy_all
idle_inhibit_manager_finish views s =
    if not s.inhibitors_ready then s else record (destroy_all s.inhibitors views s) {
      inhibitors_ready = false;
      effective_inhibition = false;
    }
