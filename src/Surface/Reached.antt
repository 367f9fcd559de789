-- ===== src/Surface/Reached.antt =====
-- libswc/surface.c: the callbacks and the damage of a surface after any sequence of events.
use neuswc.Prelude.{
  ℕ, ◌+◌, ◌≡◌, refl, ◌∙◌, Bool, true, false, List, [], ◌∷◌, ◌++◌, Option, none, some, if◌then◌else◌,
  times, ltb, ◌==◌, times-append, arith, if_intro,
}
use neuswc.Prelude.Int.{ℤ, pos, negsuc}
use neuswc.Surface.State.{
  Regions, Pending, Surface, is_void, set_buffer_transform, set_buffer_scale,
}
use neuswc.Surface.Cache.{merged, cache_pending}
use neuswc.Surface.Commit.{
  Outside, assigned, begun, prepared, refreshes, apply_commit, finish_apply, surface_apply_pending,
  commit,
}
use neuswc.Surface.Session.{
  Event, attached, damaged, buffer_damaged, framed, opaque_set, input_set, transform_set, scale_set,
  committed, cached_applied, frame_done, Session, step, run, surface_new,
}

abbrev pub requested_by : {R : Type 0} → Event R → List ℕ
requested_by (framed (some c)) = c ∷ []
requested_by _ = []

-- The callbacks that requests made.
abbrev pub requested : {R : Type 0} → List (Event R) → List ℕ
requested [] = []
requested (e ∷ es) = requested_by e ++ requested es

-- How often a callback waits in a surface.
abbrev pub waiting : {R : Type 0} → ℕ → Surface R → ℕ
waiting c s =
    times c s.pending.state.frame_callbacks
    + (times c s.cached.state.frame_callbacks + times c s.state.frame_callbacks)

-- How often a callback was done or waits.
abbrev pub held : {R : Type 0} → ℕ → Session R → ℕ
held c s = times c s.done + waiting c s.surface

module _ {R : Type 0} (regions : Regions R) (c : ℕ) where
  taken :
      (b : Bool) (p s : List ℕ)
      → times c (if b then [] else p) + times c (if b then p ++ s else s) ≡ times c p + times c s
  taken true p s = omega (arith, times-append c p s)
  taken false p s = refl

  abbrev both : Surface R × Pending R → ℕ
  both r = times c r.1.state.frame_callbacks + times c r.0.state.frame_callbacks

  finished :
      (o : Outside) (p : Pending R) (s : Surface R) (refresh : Bool) (b : Option (Option ℕ))
      → both (finish_apply regions o p s refresh b)
        ≡ times c (if p.commit.frame then [] else p.state.frame_callbacks)
          + times c s.state.frame_callbacks
  finished o p s refresh none = refl
  finished o p s refresh (some b) = refl

  kept_caches :
      (o : Outside) (p : Pending R) (s : Surface R) (refresh : Bool) (b : Option (Option ℕ))
      → ((finish_apply regions o p s refresh b).0.pending ≡ s.pending)
        × ((finish_apply regions o p s refresh b).0.cached ≡ s.cached)
  kept_caches o p s refresh none = (refl, refl)
  kept_caches o p s refresh (some b) = (refl, refl)

  apply_commit-both :
      (o : Outside) (p : Pending R) (s : Surface R)
      → both (apply_commit regions o p s)
        ≡ times c p.state.frame_callbacks + times c s.state.frame_callbacks
  unfolding assigned
  apply_commit-both o p s =
      finished o p (begun regions o p s) (refreshes o p.commit)
        (prepared regions o p.commit (assigned regions p s.state))
      ∙ taken p.commit.frame p.state.frame_callbacks s.state.frame_callbacks

  apply_commit-kept :
      (o : Outside) (p : Pending R) (s : Surface R)
      → ((apply_commit regions o p s).0.pending ≡ s.pending)
        × ((apply_commit regions o p s).0.cached ≡ s.cached)
  apply_commit-kept o p s =
      kept_caches o p (begun regions o p s) (refreshes o p.commit)
        (prepared regions o p.commit (assigned regions p s.state))

  cache_pending-waiting : (s : Surface R) → waiting c (cache_pending regions s) ≡ waiting c s
  unfolding cache_pending merged
  cache_pending-waiting s =
      omega (arith, times-append c s.cached.state.frame_callbacks s.pending.state.frame_callbacks)

  surface_apply_pending-waiting :
      (o : Outside) (passes cached : Bool) (s : Surface R)
      → waiting c (surface_apply_pending regions o passes cached s) ≡ waiting c s
  unfolding surface_apply_pending
  surface_apply_pending-waiting o false cached s = refl
  surface_apply_pending-waiting o true true s =
      rw (apply_commit-kept o s.cached s).0 (omega (arith, apply_commit-both o s.cached s))
  surface_apply_pending-waiting o true false s =
      rw (apply_commit-kept o s.pending s).1 (omega (arith, apply_commit-both o s.pending s))

  commit-waiting :
      (o : Outside) (passes synchronized : Bool) (s : Surface R)
      → waiting c (commit regions o passes synchronized s) ≡ waiting c s
  commit-waiting o false true s = refl
  commit-waiting o true true s = cache_pending-waiting s
  commit-waiting o passes false s = surface_apply_pending-waiting o passes false s

  set_buffer_transform-times :
      (t : ℤ) (p : Pending R)
      → times c ((set_buffer_transform regions t p).0.state.frame_callbacks)
        ≡ times c p.state.frame_callbacks
  set_buffer_transform-times (negsuc t) p = refl
  set_buffer_transform-times (pos t) p =
      if_intro
        (λ (r : Pending R × Bool).
          times c r.0.state.frame_callbacks ≡ times c p.state.frame_callbacks)
        (ltb 7 t) _ _ (λ _. refl) (λ _. refl)

  set_buffer_scale-times :
      (t : ℤ) (p : Pending R)
      → times c ((set_buffer_scale regions t p).0.state.frame_callbacks)
        ≡ times c p.state.frame_callbacks
  set_buffer_scale-times (negsuc t) p = refl
  set_buffer_scale-times (pos t) p =
      if_intro
        (λ (r : Pending R × Bool).
          times c r.0.state.frame_callbacks ≡ times c p.state.frame_callbacks)
        (t == 0) _ _ (λ _. refl) (λ _. refl)

  if-times :
      (b : Bool) (p q : Pending R)
      → times c q.state.frame_callbacks ≡ times c p.state.frame_callbacks
      → times c ((if b then p else q).state.frame_callbacks) ≡ times c p.state.frame_callbacks
  if-times true p q e = refl
  if-times false p q e = e

  step-held :
      (get : ℕ → Option ℕ) (e : Event R) (s : Session R)
      → held c (step regions get e s) ≡ held c s + times c (requested_by e)
  unfolding step
  step-held get (attached r x y) s = omega arith
  step-held get (damaged r) s = omega (
    arith,
    if-times (is_void regions r) s.surface.pending
        (record (s.surface.pending) {
          state = record (s.surface.pending.state) {
            damage = regions.union s.surface.pending.state.damage (regions.rectangle r);
          };
          commit = record (s.surface.pending.commit) { damage = true };
        })
        refl,
  )
  step-held get (buffer_damaged r) s = omega (
    arith,
    if-times (is_void regions r) s.surface.pending
        (record (s.surface.pending) {
          commit = record (s.surface.pending.commit) { damage_buffer = true };
        })
        refl,
  )
  step-held get (framed none) s = omega arith
  step-held get (framed (some d)) s =
      omega (arith, times-append c s.surface.pending.state.frame_callbacks (d ∷ []))
  step-held get (opaque_set r) s = omega arith
  step-held get (input_set r) s = omega arith
  step-held get (transform_set t) s = omega (arith, set_buffer_transform-times t s.surface.pending)
  step-held get (scale_set t) s = omega (arith, set_buffer_scale-times t s.surface.pending)
  step-held get (committed o passes synchronized) s =
      omega (arith, commit-waiting o passes synchronized s.surface)
  step-held get (cached_applied o passes) s =
      omega (arith, surface_apply_pending-waiting o passes true s.surface)
  step-held get frame_done s = omega (arith, times-append c s.surface.state.frame_callbacks s.done)

  run-held :
      (get : ℕ → Option ℕ) (es : List (Event R)) (s : Session R)
      → held c (run regions get es s) ≡ held c s + times c (requested es)
  unfolding run
  run-held get [] s = omega arith
  run-held get (e ∷ es) s = omega (
    arith,
    run-held get es (step regions get e s),
    step-held get e s,
    times-append c (requested_by e) (requested es),
  )

  -- After any sequence of requests, commits and frames, each callback was done or still waits in one of the
  -- states of the surface, altogether as often as requests made it: none is lost, and none is done twice.
  pub run-times :
      (get : ℕ → Option ℕ) (es : List (Event R))
      → held c (run regions get es (surface_new regions)) ≡ times c (requested es)
  run-times get es = omega (arith, run-held get es (surface_new regions))
