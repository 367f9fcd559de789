-- ===== src/Activation/Session.antt =====
-- Every sequence of events of libswc/xdg_activation.c.
use mathlib.Core.List.{Memᴰ}
use mathlib.Core.List.Memᴰ
use neuswc.Prelude.{ℕ, ◌≡◌, sym, ap, subst, ◌∙◌, Bool, List, [], Option, none, some, arith}
use neuswc.Activation.Token.{
  Token, Activation, Reply, Read, handle_expiry, token_commit, destroy_token_resource,
}
use neuswc.Activation.Manager.{get_activation_token, Surface, activate}
use neuswc.Activation.Safety.{IsSafe, handle_expiry-IsSafe}
use neuswc.Activation.Moves.{token_commit-IsSafe, destroy_token_resource-IsSafe, activate-IsSafe}
use neuswc.Activation.Use.{get_activation_token-IsSafe}

abbrev pub created : Activation
created = record { tokens = []; user_data = λ _. none; next = 0 }

pub data Step (s : Activation) (t : Activation) : Type 0 where
  ask :
      (granted : Bool) (r : ℕ)
      → s.user_data r ≡ none
      → (get_activation_token granted r s).0 ≡ t
      → Step s t
  commit :
      (r : ℕ) (opened : Bool) (reads : List Read) (reply : Reply)
      → token_commit r opened reads s ≡ some (t, reply)
      → Step s t
  leave : (r : ℕ) → destroy_token_resource r s ≡ some t → Step s t
  expire : (token : Token) → Memᴰ token s.tokens → handle_expiry token s ≡ t → Step s t
  present :
      (needle : List ℕ) (surface : Option Surface) → (activate needle surface s).0 ≡ t → Step s t

pub data Reach : Activation → Type 0 where
  start : Reach created
  later : {s t : Activation} → Reach s → Step s t → Reach t

some_eq {ℓ} : {A : Type ℓ} (a b : A) → some a ≡ some b → a ≡ b
some_eq a b e = cc

same_state :
    (s t : Activation) (q r : Reply)
    → ◌≡◌ {A = Option (Activation × Reply)} (some (s, q)) (some (t, r))
    → s ≡ t
same_state s t q r e = ap (λ (p : Activation × Reply). p.0) (some_eq _ _ e)

Step-IsSafe : {s t : Activation} → Step s t → IsSafe s → IsSafe t
Step-IsSafe {s} (ask granted r free e) v =
    subst IsSafe e (get_activation_token-IsSafe granted r s v free)
Step-IsSafe {s} (commit r opened reads reply e) v =
    let (s', reply', run, safe) = token_commit-IsSafe r opened reads s v in
    subst IsSafe (same_state s' _ reply' reply (sym run ∙ e)) safe
Step-IsSafe {s} (leave r e) v =
    let (s', run, safe) = destroy_token_resource-IsSafe r s v in
    subst IsSafe (some_eq s' _ (sym run ∙ e)) safe
Step-IsSafe {s} (expire token m e) v = subst IsSafe e (handle_expiry-IsSafe token s v m)
Step-IsSafe {s} (present needle surface e) v = subst IsSafe e (activate-IsSafe needle surface s v)

created-IsSafe : IsSafe created
created-IsSafe = record {
  bounded = omega arith;
  distinct = λ t u mt mu e. absurd (Memᴰ.not-nil mt);
  below = λ t mt. absurd (Memᴰ.not-nil mt);
  linked = λ r p e. cc;
  back = λ t r mt e. absurd (Memᴰ.not-nil mt);
}

safe : {s : Activation} → Reach s → IsSafe s
safe start = created-IsSafe
safe (later r st) = Step-IsSafe st (safe r)

-- After any sequence of events there are at most 64 tokens, tokens and resources point at each other,
-- and neither committing through a resource nor its end reads a dangling pointer.
pub Reach-IsSafe :
    {s : Activation}
    → Reach s
    → IsSafe s
      × ((r : ℕ) (opened : Bool) (reads : List Read)
          → (t : Activation) × (reply : Reply) × (token_commit r opened reads s ≡ some (t, reply))
            × IsSafe t)
      × ((r : ℕ) → (t : Activation) × (destroy_token_resource r s ≡ some t) × IsSafe t)
Reach-IsSafe {s} reach =
    let v = safe reach in
    (
      v,
      λ r opened reads. token_commit-IsSafe r opened reads s v,
      λ r. destroy_token_resource-IsSafe r s v,
    )
