-- ===== src/Subsurface/Tests.antt =====
-- The theorems about children of a surface at concrete states.
use neuswc.Prelude.{ℕ, ◌≡◌, true, List, [], ◌∷◌, some, arith}
use neuswc.Prelude.Int.{pos, negsuc, ◌+ℤ◌, ◌-ℤ◌, ◌≤ℤ◌}
use neuswc.Subsurface.State.{Child, Parent, place_above, place_below}
use neuswc.Subsurface.Stack.{stack, put_over, put_under}
use neuswc.Subsurface.Refines.{Places, place_refines}
use neuswc.Subsurface.Commit.{new_child, subsurface_cache_parent_commit}
use neuswc.Subsurface.Session.{
  Event, placed_above, placed_below, created, destroyed, committed, commit_at_once, run, childless,
}
use neuswc.Subsurface.Reached.{commit_exact}
use neuswc.Subsurface.Stale.{cached_order_lost}
use neuswc.Subsurface.Position.{
  int32_min, int32_max, coordinate, IsInt32, IsInt64, coordinate_bounds,
}

-- A surface at 100 with the children 1, 2 and 3, whose surfaces are at 101 to 103; 3 goes below it.
abbrev requests : List Event
requests =
    created true 1 101
    ∷ created true 2 102
    ∷ created true 3 103
    ∷ committed
    ∷ placed_below 3 (some 100)
    ∷ placed_above 1 (some 102)
    ∷ destroyed 2
    ∷ []

abbrev blank : ℕ → Child
blank x = new_child x

abbrev family : Parent
family = run requests (childless 100 blank (λ _. true))

place_refines_example :
    Places put_over 1 (some 103) family (place_above 1 (some 103) family)
    × Places put_under 1 (some 103) family (place_below 1 (some 103) family)
place_refines_example = place_refines 1 (some 103) family

commit_exact_example :
    (stack (commit_at_once family).state ≡ stack family.pending)
    × ((commit_at_once family).pending ≡ family.pending)
commit_exact_example = commit_exact requests 100 blank (λ _. true)

cached_order_lost_example :
    ((commit_at_once (subsurface_cache_parent_commit family)).state ≡ family.state)
    × ((subsurface_cache_parent_commit family).cached ≡ family.pending)
cached_order_lost_example = cached_order_lost family

-- A child far to the left of a parent that is at the left end.
coordinate_bounds_example :
    let sum = int32_min +ℤ negsuc 9 -ℤ pos 5 in
    let moved = coordinate int32_min (negsuc 9) (pos 5) in
    (IsInt64 sum × IsInt32 moved)
    × ((IsInt32 sum → moved ≡ sum)
        × ((sum ≤ℤ int32_min → moved ≡ int32_min) × (int32_max ≤ℤ sum → moved ≡ int32_max)))
coordinate_bounds_example =
    coordinate_bounds int32_min (negsuc 9) (pos 5) (omega arith, omega arith)
      (omega arith, omega arith) (omega arith, omega arith)
