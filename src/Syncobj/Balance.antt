-- ===== src/Syncobj/Balance.antt =====
-- The references of timelines in libswc/drm_syncobj.c.
use neuswc.Prelude.{
  ◌≤◌, ℕ, ◌+◌, ◌<◌, ◌≡◌, refl, ap, ◌∙◌, inl, inr, Bool, true, false, List, [], ◌∷◌, Option, none,
  some, if◌then◌else◌, ◌==◌, ==_false, arith, Bool-cases, Option-cases,
}
use neuswc.Syncobj.World.{
  Point, Event, signalled, fenced, abandoned, World, null_point, note, timeline_ref, timeline_unref,
  point_clear, ref_point, point_set, point_signal, Gpu, finished, fence, defer_release, abandon,
  release_behind, point_release, complete,
}

-- How often a pointer is that to a timeline.
abbrev pub points_to : ℕ → Option ℕ → ℕ
points_to t none = 0
points_to t (some u) = if t == u then 1 else 0

abbrev pub total {ℓ} : {A : Type ℓ} → (A → ℕ) → List A → ℕ
total f [] = 0
total f (x ∷ xs) = f x + total f xs

abbrev pub names : ℕ → Point → ℕ
names t p = points_to t p.timeline

-- The references of each timeline are those counted by `c`, and those of the deferred releases, and
-- no timeline has been used after it was freed.
pub record IsBalanced (c : ℕ → ℕ) (w : World) : Type 0 where
  pub refs_eq : (t : ℕ) → w.refs t ≡ c t + total (names t) w.deferred
  pub unfaulty : w.faulty ≡ false

pub recount : (c d : ℕ → ℕ) (w : World) → ((t : ℕ) → c t ≡ d t) → IsBalanced c w → IsBalanced d w
recount c d w h b = record { refs_eq = λ t. omega (arith, h t, b.refs_eq t); unfaulty = b.unfaulty }

pub note-IsBalanced : (c : ℕ → ℕ) (e : Event) (w : World) → IsBalanced c w → IsBalanced c (note e w)
note-IsBalanced c e w b = record { refs_eq = b.refs_eq; unfaulty = b.unfaulty }

pub timeline_unref-IsBalanced :
    (c : ℕ → ℕ) (o : Option ℕ) (w : World)
    → IsBalanced (λ t. c t + points_to t o) w
    → IsBalanced c (timeline_unref o w)
unfolding timeline_unref
timeline_unref-IsBalanced c none w b = recount (λ t. c t + 0) c w (λ t. omega arith) b
timeline_unref-IsBalanced c (some u) w b =
    simp (==_false (w.refs u) 0 (λ e. ground (arith, b.refs_eq u)))
      (record { refs_eq = λ t. ground (arith, b.refs_eq t, b.refs_eq u); unfaulty = b.unfaulty })

pub timeline_ref-IsBalanced :
    (c : ℕ → ℕ) (u : ℕ) (w : World)
    → IsBalanced c w
    → 0 < w.refs u
    → IsBalanced (λ t. c t + points_to t (some u)) (timeline_ref u w)
unfolding timeline_ref
timeline_ref-IsBalanced c u w b h =
    simp (==_false (w.refs u) 0 (λ e. omega (arith, h, e)))
      (record { refs_eq = λ t. ground (arith, b.refs_eq t, b.refs_eq u); unfaulty = b.unfaulty })

-- A pointer that is already counted, or one to a timeline that is alive.
abbrev pub IsAlive : Option ℕ → World → Type 0
IsAlive none w = Unit
IsAlive (some t) w = 0 < w.refs t

pub ref_point-IsBalanced :
    (c : ℕ → ℕ) (o : Option ℕ) (w : World)
    → IsAlive o w
    → IsBalanced c w
    → IsBalanced (λ t. c t + points_to t o) (ref_point o w)
unfolding ref_point
ref_point-IsBalanced c none w h b = recount c (λ t. c t + 0) w (λ t. omega arith) b
ref_point-IsBalanced c (some u) w h b = timeline_ref-IsBalanced c u w b h

-- The point that is set is counted in place of the old one.
pub point_set-IsBalanced :
    (c : ℕ → ℕ) (old p : Point) (w : World)
    → IsAlive p.timeline w
    → IsBalanced (λ t. c t + names t old) w
    → IsBalanced (λ t. c t + names t p) (point_set old p w)
point_set-IsBalanced c old p w h b =
    timeline_unref-IsBalanced (λ t. c t + names t p) old.timeline (ref_point p.timeline w)
      (recount (λ t. c t + names t old + names t p) (λ t. c t + names t p + names t old) _
        (λ t. omega arith) (ref_point-IsBalanced (λ t. c t + names t old) p.timeline w h b))

pub timeline_unref-deferred :
    (o : Option ℕ) (w : World) → (timeline_unref o w).deferred ≡ w.deferred
unfolding timeline_unref
timeline_unref-deferred none w = refl
timeline_unref-deferred (some t) w = elim (Bool-cases (w.refs t == 0)) [
  | inl e ↦ simp e
  | inr e ↦ simp e
]

pub ref_point-deferred : (o : Option ℕ) (w : World) → (ref_point o w).deferred ≡ w.deferred
unfolding ref_point timeline_ref
ref_point-deferred none w = refl
ref_point-deferred (some t) w = elim (Bool-cases (w.refs t == 0)) [
  | inl e ↦ simp e
  | inr e ↦ simp e
]

point_set-deferred : (old p : Point) (w : World) → (point_set old p w).deferred ≡ w.deferred
point_set-deferred old p w =
    timeline_unref-deferred old.timeline (ref_point p.timeline w) ∙ ref_point-deferred p.timeline w

pub counted_le-IsAlive :
    (c : ℕ → ℕ) (o : Option ℕ) (w : World)
    → IsBalanced c w
    → ((t : ℕ) → points_to t o ≤ c t)
    → IsAlive o w
counted_le-IsAlive c none w b h = tt
counted_le-IsAlive c (some u) w b h = ground (arith, b.refs_eq u, h u)

pub counted-IsAlive :
    (c : ℕ → ℕ) (o : Option ℕ) (w : World) → IsBalanced (λ t. c t + points_to t o) w → IsAlive o w
counted-IsAlive c none w b = tt
counted-IsAlive c (some u) w b = ground (arith, b.refs_eq u)

pub point_signal-IsBalanced :
    (c : ℕ → ℕ) (p : Point) (w : World)
    → IsBalanced (λ t. c t + names t p) w
    → IsBalanced c (point_signal p w)
unfolding point_signal
point_signal-IsBalanced c p w b = elim (Option-cases p.timeline) [
  | inl e ↦ simp e (recount _ c w (λ t. simp e (omega arith)) b)
  | inr (u, e) ↦ simp e (
      timeline_unref-IsBalanced c (some u) (note (signalled p) w)
        (note-IsBalanced _ (signalled p) w (recount _ _ w (λ t. simp e refl) b)))
]

module _ (c : ℕ → ℕ) (p : Point) (w : World) (b : IsBalanced (λ t. c t + names t p) w) where
  abandon-IsBalanced : IsBalanced c (abandon p w)
  unfolding abandon
  abandon-IsBalanced =
      timeline_unref-IsBalanced c p.timeline (note (abandoned p) w)
        (note-IsBalanced _ (abandoned p) w b)

  fenced-IsBalanced : IsBalanced c (point_clear p (note (fenced p) w))
  fenced-IsBalanced =
      timeline_unref-IsBalanced c p.timeline (note (fenced p) w) (note-IsBalanced _ (fenced p) w b)

  -- A deferred release keeps the reference.
  defer_release-IsBalanced : IsBalanced c (defer_release p w)
  unfolding defer_release
  defer_release-IsBalanced = timeline_unref-IsBalanced c p.timeline _ (
      let set =
        point_set-IsBalanced (λ t. c t + names t p) null_point p w
          (counted-IsAlive c p.timeline w b) (recount _ _ w (λ t. omega arith) b) in
      record {
        refs_eq = λ t.
            omega (arith, set.refs_eq t, ap (total (names t)) (point_set-deferred null_point p w));
        unfaulty = set.unfaulty;
      })

  release_behind-IsBalanced : (gpu : Gpu) → IsBalanced c (release_behind gpu p w)
  unfolding release_behind
  release_behind-IsBalanced finished = point_signal-IsBalanced c p w b
  release_behind-IsBalanced (fence true readable watchable) = fenced-IsBalanced
  release_behind-IsBalanced (fence false true watchable) = point_signal-IsBalanced c p w b
  release_behind-IsBalanced (fence false false true) = defer_release-IsBalanced
  release_behind-IsBalanced (fence false false false) = abandon-IsBalanced

  -- However a release ends, its reference is given back or kept by the list of deferred ones.
  pub point_release-IsBalanced : (gpu : Gpu) → IsBalanced c (point_release gpu p w)
  unfolding point_release
  point_release-IsBalanced gpu = elim (Option-cases p.timeline) [
    | inl e ↦ simp e (recount _ c w (λ t. simp e (omega arith)) b)
    | inr (u, e) ↦ simp e (release_behind-IsBalanced gpu)
  ]

  pub complete-IsBalanced : (readable : Bool) → IsBalanced c (complete readable p w)
  unfolding complete
  complete-IsBalanced true = point_signal-IsBalanced c p w b
  complete-IsBalanced false = timeline_unref-IsBalanced c p.timeline w b
