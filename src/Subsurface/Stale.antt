-- ===== src/Subsurface/Stale.antt =====
-- libswc/subsurface.c with libswc/surface.c: a commit that is cached and not applied, and then one that
-- is applied at once.
use neuswc.Prelude.{ℕ, ◌≡◌, refl, true, false, List, [], ◌∷◌, ◌==◌, Bool-cases, inl, inr, arith}
use neuswc.Subsurface.State.{Child, Parent, member, write_child}
use neuswc.Subsurface.Commit.{
  subsurface_parent_commit, take_order_dirty, clear_dirty, subsurface_cache_parent_commit,
  cache_all, cache_child,
}
use neuswc.Subsurface.Session.{commit_at_once}

still_clean :
    (xs : List ℕ) (child : ℕ → Child) (x : ℕ)
    → (child x).order_dirty ≡ false
    → (cache_all xs child x).order_dirty ≡ false
still_clean [] child x h = h
still_clean (y ∷ xs) child x h = still_clean xs (write_child y cache_child child) x (ground arith)

-- Caching takes every mark.
cached-clean :
    (xs : List ℕ) (child : ℕ → Child) (x : ℕ)
    → member x xs ≡ true
    → (cache_all xs child x).order_dirty ≡ false
cached-clean [] child x m = absurd (ground arith)
cached-clean (y ∷ xs) child x m = elim (Bool-cases (y == x)) [
  | inl e ↦ still_clean xs (write_child y cache_child child) x (ground arith)
  | inr e ↦ cached-clean xs (write_child y cache_child child) x (rw e at m)
]

nothing_to_take :
    (xs : List ℕ) (child : ℕ → Child)
    → ((x : ℕ) → member x xs ≡ true → (child x).order_dirty ≡ false)
    → (take_order_dirty false xs child).0 ≡ false
unfolding take_order_dirty
nothing_to_take [] child h = refl
nothing_to_take (y ∷ xs) child h =
    let here : member y (y ∷ xs) ≡ true = ground arith in
    rw (h y here) (
      nothing_to_take xs (write_child y (clear_dirty false) child)
        (λ x m. let there : member x (y ∷ xs) ≡ true = ground arith in ground (arith, h x there)))

-- If a commit of the surface is cached, and the next one is applied at once, the current order stays as
-- it was, whatever order the cached commit has taken over: the marks are gone, and nothing looks at the
-- cached ones.
pub cached_order_lost :
    (p : Parent)
    → ((commit_at_once (subsurface_cache_parent_commit p)).state ≡ p.state)
      × ((subsurface_cache_parent_commit p).cached ≡ p.pending)
unfolding commit_at_once subsurface_parent_commit subsurface_cache_parent_commit
cached_order_lost p =
    let child = cache_all p.subsurfaces p.child in
    let none_marked = nothing_to_take p.subsurfaces child (cached-clean p.subsurfaces p.child) in
    (rw none_marked refl, refl)
