-- ===== src/Surface/Flagged.antt =====
-- libswc/surface.c: the damage of a pending or cached commit goes with its bit, so a cached commit is exact.
use neuswc.Prelude.{
  ℕ, ◌≡◌, refl, Bool, true, false, ◌||◌, List, [], ◌∷◌, Option, none, some, if◌then◌else◌, ltb,
  ◌==◌, if_intro, arith,
}
use neuswc.Prelude.Int.{pos, negsuc}
use neuswc.Surface.State.{Regions, IsRegions, Pending, Surface, is_void}
use neuswc.Surface.Cache.{merged, cache_pending}
use neuswc.Surface.Commit.{
  Outside, assigned, assigned_window, begun, prepared, refreshes, finish_apply,
  surface_apply_pending, commit,
}
use neuswc.Surface.Session.{
  Event, attached, damaged, buffer_damaged, framed, opaque_set, input_set, transform_set, scale_set,
  committed, cached_applied, frame_done, Session, step, run, surface_new,
}
use neuswc.Surface.Latest.{without_callbacks, assigned-merged}

module _ {R : Type 0} (regions : Regions R) where
  abbrev IsFlagged : Pending R → Type 0
  IsFlagged p = p.commit.damage ≡ false → p.state.damage ≡ regions.empty

  abbrev IsMarked : Surface R → Type 0
  IsMarked s = IsFlagged s.pending × IsFlagged s.cached

  emptied :
      (b : Bool) (r : R)
      → (b ≡ false → r ≡ regions.empty)
      → (if b then regions.empty else r) ≡ regions.empty
  emptied true r h = refl
  emptied false r h = h refl

  kept :
      (b d : Bool) (r q : R)
      → (b ≡ false → r ≡ regions.empty)
      → (b || d) ≡ false
      → (if d then q else r) ≡ regions.empty
  kept false false r q h e = h refl
  kept false true r q h e = ground arith
  kept true d r q h e = ground arith

  finish_apply-IsFlagged :
      (o : Outside) (p : Pending R) (s : Surface R) (refresh : Bool) (b : Option (Option ℕ))
      → IsFlagged p
      → IsFlagged ((finish_apply regions o p s refresh b).1)
  finish_apply-IsFlagged o p s refresh none h _ = emptied p.commit.damage p.state.damage h
  finish_apply-IsFlagged o p s refresh (some b) h _ = emptied p.commit.damage p.state.damage h

  finish_apply-IsMarked :
      (o : Outside) (p : Pending R) (s : Surface R) (refresh : Bool) (b : Option (Option ℕ))
      → IsMarked s
      → IsMarked ((finish_apply regions o p s refresh b).0)
  finish_apply-IsMarked o p s refresh none h = h
  finish_apply-IsMarked o p s refresh (some b) h = h

  cache_pending-IsMarked : (s : Surface R) → IsMarked s → IsMarked (cache_pending regions s)
  unfolding cache_pending merged
  cache_pending-IsMarked s h = (
    (λ _. refl),
    (λ e. kept s.cached.commit.damage s.pending.commit.damage s.cached.state.damage _ h.1 e),
  )

  surface_apply_pending-IsMarked :
      (o : Outside) (passes cached : Bool) (s : Surface R)
      → IsMarked s
      → IsMarked (surface_apply_pending regions o passes cached s)
  unfolding surface_apply_pending
  surface_apply_pending-IsMarked o false cached s h = h
  surface_apply_pending-IsMarked o true true s h =
      let b = begun regions o s.cached s in
      let r = refreshes o s.cached.commit in
      let n = prepared regions o s.cached.commit (assigned regions s.cached s.state) in
      ((finish_apply-IsMarked o s.cached b r n h).0, finish_apply-IsFlagged o s.cached b r n h.1)
  surface_apply_pending-IsMarked o true false s h =
      let b = begun regions o s.pending s in
      let r = refreshes o s.pending.commit in
      let n = prepared regions o s.pending.commit (assigned regions s.pending s.state) in
      (finish_apply-IsFlagged o s.pending b r n h.0, (finish_apply-IsMarked o s.pending b r n h).1)

  commit-IsMarked :
      (o : Outside) (passes synchronized : Bool) (s : Surface R)
      → IsMarked s
      → IsMarked (commit regions o passes synchronized s)
  commit-IsMarked o false true s h = h
  commit-IsMarked o true true s h = cache_pending-IsMarked s h
  commit-IsMarked o passes false s h = surface_apply_pending-IsMarked o passes false s h

  step-IsMarked :
      (get : ℕ → Option ℕ) (e : Event R) (s : Session R)
      → IsMarked s.surface
      → IsMarked ((step regions get e s).surface)
  unfolding step
  step-IsMarked get (attached r x y) s h = h
  step-IsMarked get (damaged r) s h =
      (if_intro IsFlagged (is_void regions r) _ _ (λ _. h.0) (λ _ e. ground arith), h.1)
  step-IsMarked get (buffer_damaged r) s h =
      (if_intro IsFlagged (is_void regions r) _ _ (λ _. h.0) (λ _. h.0), h.1)
  step-IsMarked get (framed none) s h = h
  step-IsMarked get (framed (some d)) s h = h
  step-IsMarked get (opaque_set r) s h = h
  step-IsMarked get (input_set r) s h = h
  step-IsMarked get (transform_set (negsuc t)) s h = h
  step-IsMarked get (transform_set (pos t)) s h =
      (if_intro (λ (k : Pending R × Bool). IsFlagged k.0) (ltb 7 t) _ _ (λ _. h.0) (λ _. h.0), h.1)
  step-IsMarked get (scale_set (negsuc t)) s h = h
  step-IsMarked get (scale_set (pos t)) s h =
      (if_intro (λ (k : Pending R × Bool). IsFlagged k.0) (t == 0) _ _ (λ _. h.0) (λ _. h.0), h.1)
  step-IsMarked get (committed o passes synchronized) s h =
      commit-IsMarked o passes synchronized s.surface h
  step-IsMarked get (cached_applied o passes) s h =
      surface_apply_pending-IsMarked o passes true s.surface h
  step-IsMarked get frame_done s h = h

  run-IsMarked :
      (get : ℕ → Option ℕ) (es : List (Event R)) (s : Session R)
      → IsMarked s.surface
      → IsMarked ((run regions get es s).surface)
  unfolding run
  run-IsMarked get [] s h = h
  run-IsMarked get (e ∷ es) s h =
      run-IsMarked get es (step regions get e s) (step-IsMarked get e s h)

  -- For every surface that requests, commits and frames lead to: once cache_pending has added the pending
  -- commit to what is cached, the state that surface_apply_pending assigns from that, before it trims the
  -- damage and the opaque region to the buffer, is without the callbacks, and the window geometry is, what
  -- assigning first what was cached and then the pending commit leaves.
  pub cache_pending-assigned :
      IsRegions regions
      → (get : ℕ → Option ℕ) (es : List (Event R))
      → (let s = (run regions get es (surface_new regions)).surface in
          let cached = (cache_pending regions s).cached in
          (without_callbacks (assigned regions cached s.state)
            ≡ without_callbacks (assigned regions s.pending (assigned regions s.cached s.state)))
          × (assigned_window regions cached s.window
              ≡ assigned_window regions s.pending (assigned_window regions s.cached s.window)))
  unfolding cache_pending
  cache_pending-assigned laws get es =
      let s = (run regions get es (surface_new regions)).surface in
      assigned-merged regions laws s.pending s.cached s.state s.window
        ((run-IsMarked get es (surface_new regions) ((λ _. refl), (λ _. refl))).1)
