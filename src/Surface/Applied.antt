-- ===== src/Surface/Applied.antt =====
-- libswc/surface.c: what whole applications of commits leave, with their trimming.
use neuswc.Prelude.{ℕ, ◌≡◌, refl, sym, ap, ◌∙◌, Bool, true, false, List, [], Option, none, some}
use neuswc.Surface.State.{Regions, IsRegions, State, Pending, Surface}
use neuswc.Surface.Cache.{cache_pending}
use neuswc.Surface.Commit.{
  Outside, assigned, begun, prepared, refreshes, apply_commit, finish_apply, surface_apply_pending,
}
use neuswc.Surface.Session.{Event, run, surface_new}
use neuswc.Surface.Flagged.{cache_pending-assigned}

module _ {R : Type 0} (regions : Regions R) where
  -- The state but for what is trimmed, the damage and the opaque region, and for the callbacks.
  abbrev pub steady : State R → State R
  steady s = record s {
    damage = regions.empty;
    opaque_region = regions.empty;
    frame_callbacks = [];
  }

  finish_apply-steady :
      (o : Outside) (p : Pending R) (s : Surface R) (refresh : Bool) (b : Option (Option ℕ))
      → steady ((finish_apply regions o p s refresh b).0.state) ≡ steady s.state
  finish_apply-steady o p s refresh none = refl
  finish_apply-steady o p s refresh (some b) = refl

  apply_commit-steady :
      (o : Outside) (p : Pending R) (s : Surface R)
      → steady ((apply_commit regions o p s).0.state) ≡ steady (assigned regions p s.state)
  apply_commit-steady o p s =
      finish_apply-steady o p (begun regions o p s) (refreshes o p.commit)
        (prepared regions o p.commit (assigned regions p s.state))

  finish_apply-pending :
      (o : Outside) (p : Pending R) (s : Surface R) (refresh : Bool) (b : Option (Option ℕ))
      → (finish_apply regions o p s refresh b).0.pending ≡ s.pending
  finish_apply-pending o p s refresh none = refl
  finish_apply-pending o p s refresh (some b) = refl

  apply_commit-pending :
      (o : Outside) (p : Pending R) (s : Surface R)
      → (apply_commit regions o p s).0.pending ≡ s.pending
  apply_commit-pending o p s =
      finish_apply-pending o p (begun regions o p s) (refreshes o p.commit)
        (prepared regions o p.commit (assigned regions p s.state))

  -- What is trimmed does not matter for the rest.
  assigned-steady :
      (p : Pending R) (s : State R)
      → steady (assigned regions p s) ≡ steady (assigned regions p (steady s))
  unfolding assigned
  assigned-steady p s = refl

  one_after_the_other :
      (o o' : Outside) (s : Surface R)
      → steady
          (surface_apply_pending regions o' true false
            (surface_apply_pending regions o true true s)).state
        ≡ steady (assigned regions s.pending (assigned regions s.cached s.state))
  unfolding surface_apply_pending
  one_after_the_other o o' s =
      let first = surface_apply_pending regions o true true s in
      apply_commit-steady o' first.pending first
      ∙ ap (λ (p : Pending R). steady (assigned regions p first.state))
          (apply_commit-pending o s.cached s)
      ∙ assigned-steady s.pending first.state
      ∙ ap (λ (k : State R). steady (assigned regions s.pending k))
          (apply_commit-steady o s.cached s)
      ∙ sym (assigned-steady s.pending (assigned regions s.cached s.state))

  -- For every surface that requests, commits and frames lead to, where the checks let the commits through,
  -- and whatever the renderer, the view and explicit synchronization answer each time: surface_apply_pending on what is cached, once cache_pending
  -- has added the pending commit to that, leaves the buffer, its resource, scale and transform and the input
  -- region that surface_apply_pending on what was cached and then on the pending commit leaves.
  pub cache_pending-applied :
      IsRegions regions
      → (get : ℕ → Option ℕ) (es : List (Event R)) (o o' o'' : Outside)
      → (let s = (run regions get es (surface_new regions)).surface in
          steady (surface_apply_pending regions o true true (cache_pending regions s)).state
          ≡ steady
              (surface_apply_pending regions o'' true false
                (surface_apply_pending regions o' true true s)).state)
  unfolding surface_apply_pending cache_pending
  cache_pending-applied laws get es o o' o'' =
      let s = (run regions get es (surface_new regions)).surface in
      let cached = (cache_pending regions s).cached in
      apply_commit-steady o cached (cache_pending regions s)
      ∙ ap steady ((cache_pending-assigned regions laws get es).0)
      ∙ sym (one_after_the_other o' o'' s)
