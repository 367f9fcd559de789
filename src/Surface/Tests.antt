-- ===== src/Surface/Tests.antt =====
-- The theorems about surfaces at concrete states.
use neuswc.Prelude.{◌≡◌, refl, Bool, true, false, ◌||◌, ◌++◌, none, some, arith, List, [], ◌∷◌}
use neuswc.Prelude.Int.{pos}
use neuswc.Surface.Pixels.{
  Size, rasterized, logical_size, source_pixel, IsInside, source_pixel-IsInside,
}
use neuswc.Surface.State.{
  Regions, IsRegions, State, Pending, no_flags, state_initialize, attach, damage, frame,
  set_input_region,
}
use neuswc.Surface.Cache.{cache_pending, merged}
use neuswc.Surface.Commit.{Outside, surface_apply_pending, assigned, assigned_window}
use neuswc.Surface.Latest.{without_callbacks}
use neuswc.Surface.Session.{
  handle_frame, Event, attached, damaged, framed, input_set, committed, cached_applied, frame_done,
  run, step, surface_new,
}
use neuswc.Surface.Reached.{held, run-times}
use neuswc.Surface.Applied.{steady, cache_pending-applied}
use neuswc.Surface.Flagged.{cache_pending-assigned}
use neuswc.Surface.Frames.{handle_frame_order}

-- A buffer of 300 by 200 pixels with the scale 2, turned by a quarter and flipped.
abbrev photo : Size
photo = record { width = 300; height = 200 }

photo_size : logical_size photo 2 5 ≡ rasterized (record { width = 100; height = 150 })
unfolding logical_size
photo_size = refl

source_pixel-IsInside_example : IsInside photo (source_pixel photo 2 5 99 149)
source_pixel-IsInside_example =
    source_pixel-IsInside photo 2 5 (record { width = 100; height = 150 }) 99 149 (omega arith)
      (omega arith) (omega arith) photo_size (omega arith) (omega arith)

-- Whether there is anything in a region.
abbrev any : Regions Bool
any = record {
  empty = false;
  infinite = true;
  union = λ a b. a || b;
  rectangle = λ _. true;
  trim = λ r _ _. r;
}

or_assoc : (a b c : Bool) → ((a || b) || c) ≡ a || (b || c)
or_assoc true b c = refl
or_assoc false b c = refl

or-false : (a : Bool) → (a || false) ≡ a
or-false true = refl
or-false false = refl

any-IsRegions : IsRegions any
any-IsRegions = record { union_assoc = or_assoc; union-empty = or-false }

abbrev start : State Bool
start = state_initialize any

abbrev unused : Pending Bool
unused = record {
  state = start;
  commit = no_flags;
  x = pos 0;
  y = pos 0;
  window_geometry = record { x = pos 0; y = pos 0; width = pos 0; height = pos 0 };
}

abbrev first : Pending Bool
first = frame any (some 40) (attach any (λ r. some r) (some 7) (pos 0) (pos 0) unused)

abbrev second : Pending Bool
second = frame any (some 41) (
    damage any (record { x = pos 0; y = pos 0; width = pos 5; height = pos 5 })
      (set_input_region any none unused))

-- Two commits of a synchronized subsurface, the parent's commit and a frame, and a request.
abbrev ready : Outside
ready = record {
  ready = true;
  keeps = false;
  shown = none;
  size = λ _. photo;
  logical = λ b _ _. some b;
}

abbrev commits : List (Event Bool)
commits =
    attached (some 7) (pos 0) (pos 0)
    ∷ framed (some 40)
    ∷ committed ready true true
    ∷ framed (some 41)
    ∷ damaged (record { x = pos 0; y = pos 0; width = pos 5; height = pos 5 })
    ∷ committed ready true true
    ∷ cached_applied ready true
    ∷ frame_done
    ∷ framed (some 40)
    ∷ input_set none
    ∷ []

commits_done : (run any (λ r. some r) commits (surface_new any)).done ≡ 40 ∷ 41 ∷ []
unfolding run step merged cache_pending assigned assigned_window surface_apply_pending
commits_done = refl

run-times_example : held 40 (run any (λ r. some r) commits (surface_new any)) ≡ 2
run-times_example = run-times any 40 (λ r. some r) commits

cache_pending-assigned_example :
    (let s = (run any (λ r. some r) commits (surface_new any)).surface in
      let cached = (cache_pending any s).cached in
      (without_callbacks (assigned any cached s.state)
        ≡ without_callbacks (assigned any s.pending (assigned any s.cached s.state)))
      × (assigned_window any cached s.window
          ≡ assigned_window any s.pending (assigned_window any s.cached s.window)))
cache_pending-assigned_example = cache_pending-assigned any any-IsRegions (λ r. some r) commits

-- The renderer has no memory.
abbrev broken : Outside
broken = record ready { logical = λ _ _ _. none }

cache_pending-applied_example :
    (let s = (run any (λ r. some r) commits (surface_new any)).surface in
      steady any (surface_apply_pending any ready true true (cache_pending any s)).state
      ≡ steady any
          (surface_apply_pending any ready true false
            (surface_apply_pending any broken true true s)).state)
cache_pending-applied_example =
    cache_pending-applied any any-IsRegions (λ r. some r) commits ready broken ready

handle_frame_order_example :
    ((handle_frame (assigned any second (assigned any first start))).0
      ≡ second.state.frame_callbacks ++ (first.state.frame_callbacks ++ start.frame_callbacks))
    × ((handle_frame (assigned any (merged any second first) start)).0
        ≡ (first.state.frame_callbacks ++ second.state.frame_callbacks) ++ start.frame_callbacks)
handle_frame_order_example = handle_frame_order any first second start refl refl
