-- ===== src/Syncobj/Check.antt =====
-- Which commits libswc/drm_syncobj.c lets pass.
use neuswc.Prelude.{ℕ, ◌<◌, ◌≡◌, ◌↔◌, refl, Bool, true, false, ◌&&◌, Option, none, some, arith}
use neuswc.Syncobj.Queue.{Commit}
use neuswc.Syncobj.Apply.{same_timeline, drm_syncobj_surface_check_commit}

same_timeline_iff : (a b : Option ℕ) → (same_timeline a b ≡ true) ↔ (a ≡ b)
same_timeline_iff none none = (λ e. refl, λ e. refl)
same_timeline_iff none (some u) = (λ e. cc, λ e. cc)
same_timeline_iff (some t) none = (λ e. cc, λ e. cc)
same_timeline_iff (some t) (some u) = (λ e. ground arith, λ e. ground arith)

-- The two points are both set, and in order if they are of one timeline.
abbrev pub AreOrdered : Commit → Type 0
AreOrdered c =
    (c.has_acquire ≡ true)
    × (c.has_release ≡ true)
    × (c.acquire.timeline ≡ c.release.timeline → c.acquire.value < c.release.value)

-- While the object has its resource, a commit that attaches a buffer passes exactly if it has an
-- acquire point and a release point, the first before the second if they are of one timeline.
pub check_commit_attached :
    (c : Commit) → (drm_syncobj_surface_check_commit true true true c ≡ none) ↔ AreOrdered c
unfolding drm_syncobj_surface_check_commit
check_commit_attached c = (
  λ e. (
    ground arith,
    ground arith,
    ground (arith, same_timeline_iff c.acquire.timeline c.release.timeline),
  ),
  λ (a, r, o). ground (arith, a, r, o, same_timeline_iff c.acquire.timeline c.release.timeline),
)

-- A commit that attaches no buffer passes exactly if it has no point, whether or not the object has
-- its resource.
check_commit_bare :
    (has_resource attached has_buffer : Bool) (c : Commit)
    → attached && has_buffer ≡ false
    → (drm_syncobj_surface_check_commit has_resource attached has_buffer c ≡ none)
      ↔ ((c.has_acquire ≡ false) × (c.has_release ≡ false))
unfolding drm_syncobj_surface_check_commit
check_commit_bare has_resource attached has_buffer c h =
    (λ e. (ground arith, ground arith), λ (a, r). ground (arith, a, r))
