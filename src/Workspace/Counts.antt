-- ===== src/Workspace/Counts.antt =====
-- How many resources of a group are live, and the removal events that its teardown sends.
use neuswc.Prelude.{
  ℕ, zero, suc, ◌+◌, ◌<◌, ◌≤◌, ◌≡◌, refl, ap, Bool, true, false, ◌&&◌, List, [], ◌∷◌, if◌then◌else◌,
  get_or, set, length, arith,
}
use neuswc.Workspace.Types.{Event, workspace_removed}

abbrev pub num : Bool → ℕ
num true = 1
num false = 0

-- How many of the resources from index `i` on are live.
abbrev pub live_from : ℕ → List Bool → ℕ
live_from i [] = 0
live_from zero (b ∷ bs) = num b + live_from zero bs
live_from (suc i) (b ∷ bs) = live_from i bs

pub live_from-suc :
    (i : ℕ) (bs : List Bool) → live_from i bs ≡ num (get_or bs i false) + live_from (suc i) bs
live_from-suc i [] = ground arith
live_from-suc zero (b ∷ []) = ground arith
live_from-suc zero (b ∷ c ∷ bs) = ground arith
live_from-suc (suc i) (b ∷ bs) = live_from-suc i bs

pub live_from-set :
    (i : ℕ) (bs : List Bool) → live_from (suc i) (set bs i false) ≡ live_from (suc i) bs
live_from-set i [] = refl
live_from-set zero (b ∷ []) = refl
live_from-set zero (b ∷ c ∷ bs) = refl
live_from-set (suc i) (b ∷ bs) = live_from-set i bs

pub live_from-length : (i : ℕ) (bs : List Bool) → length bs ≡ i → live_from i bs ≡ 0
live_from-length i [] h = refl
live_from-length zero (b ∷ bs) h = absurd (omega arith)
live_from-length (suc i) (b ∷ bs) h = live_from-length i bs (omega arith)

-- The removal events of the live workspaces from index `i` on, `n` at most; none unless `announce`.
abbrev pub removals : Bool → ℕ → ℕ → ℕ → List Bool → List Event
removals announce screen zero i bs = []
removals announce screen (suc n) i bs =
    let rest = removals announce screen n (suc i) bs in
    if announce && get_or bs i false then workspace_removed screen i ∷ rest else rest

pub get_or-set_lt :
    (i k : ℕ) (bs : List Bool) → i < k → get_or (set bs i false) k false ≡ get_or bs k false
get_or-set_lt i k [] h = refl
get_or-set_lt zero zero (b ∷ bs) h = absurd (omega arith)
get_or-set_lt zero (suc k) (b ∷ bs) h = refl
get_or-set_lt (suc i) zero (b ∷ bs) h = absurd (omega arith)
get_or-set_lt (suc i) (suc k) (b ∷ bs) h = get_or-set_lt i k bs (omega arith)

pub removals-set :
    (announce : Bool) (screen n i k : ℕ) (bs : List Bool)
    → i < k
    → removals announce screen n k (set bs i false) ≡ removals announce screen n k bs
removals-set announce screen zero i k bs h = refl
removals-set announce screen (suc n) i k bs h =
    rw (get_or-set_lt i k bs h, removals-set announce screen n i (suc k) bs (omega arith))

pub live_from-hit :
    (i : ℕ) (bs : List Bool)
    → get_or bs i false ≡ true
    → live_from i bs ≡ suc (live_from (suc i) bs)
live_from-hit i bs e = ground (arith, live_from-suc i bs)

pub live_from-miss :
    (i : ℕ) (bs : List Bool) → get_or bs i false ≡ false → live_from i bs ≡ live_from (suc i) bs
live_from-miss i bs e = ground (arith, live_from-suc i bs)

pub length-set : (i : ℕ) (bs : List Bool) → length (set bs i false) ≡ length bs
length-set i [] = refl
length-set zero (b ∷ bs) = refl
length-set (suc i) (b ∷ bs) = ap suc (length-set i bs)

pub removals-miss :
    (announce : Bool) (screen n i : ℕ) (bs : List Bool)
    → get_or bs i false ≡ false
    → removals announce screen n (suc i) bs ≡ removals announce screen (suc n) i bs
removals-miss true screen n i bs e = rw e
removals-miss false screen n i bs e = refl

pub removals-quiet : (screen n i : ℕ) (bs : List Bool) → removals false screen n i bs ≡ []
removals-quiet screen zero i bs = refl
removals-quiet screen (suc n) i bs = removals-quiet screen n (suc i) bs

pub live_from-le : (i : ℕ) (bs : List Bool) → live_from i bs ≤ length bs
live_from-le i [] = omega arith
live_from-le zero (true ∷ bs) = omega (arith, live_from-le zero bs)
live_from-le zero (false ∷ bs) = omega (arith, live_from-le zero bs)
live_from-le (suc i) (b ∷ bs) = omega (arith, live_from-le i bs)

pub live_from-set-false :
    (i : ℕ) (bs : List Bool)
    → get_or bs i false ≡ true
    → suc (live_from 0 (set bs i false)) ≡ live_from 0 bs
live_from-set-false i [] e = absurd (cc)
live_from-set-false zero (b ∷ bs) e = ground arith
live_from-set-false (suc i) (b ∷ bs) e = omega (arith, live_from-set-false i bs e)
