-- ===== src/Activation/Tests.antt =====
-- The theorems about activation tokens at concrete states, and a run.
use mathlib.Core.List.{Memᴰ}
use mathlib.Core.List.Memᴰ
use neuswc.Prelude.{◌↔◌, ℕ, ◌≡◌, refl, sym, ◌∙◌, Bool, true, List, [], ◌∷◌, Option, none, some}
use neuswc.Activation.Token.{
  Token, Activation, Reply, Read, bytes, interrupted, hex, generate_token, token_commit,
  destroy_token_resource, find_id, token_of, read_loop, commit_token, commit_text, modify, unlink,
}
use neuswc.Activation.Manager.{get_activation_token, Surface, find_token, request, activate, spend}
use neuswc.Activation.Safety.{IsSafe}
use neuswc.Activation.Use.{AreRandom, activate_once, activate_exact, IsCurrent, CanRaise}
use neuswc.Activation.Session.{created, Reach, start, later, ask, commit, Reach-IsSafe}

abbrev sixteen : List ℕ
sixteen = 0 ∷ 1 ∷ 2 ∷ 3 ∷ 4 ∷ 5 ∷ 6 ∷ 7 ∷ 8 ∷ 9 ∷ 10 ∷ 11 ∷ 12 ∷ 13 ∷ 14 ∷ 255 ∷ []

abbrev reads : List Read
reads =
    bytes (0 ∷ 1 ∷ 2 ∷ [])
    ∷ interrupted
    ∷ bytes (3 ∷ 4 ∷ 5 ∷ 6 ∷ 7 ∷ 8 ∷ 9 ∷ 10 ∷ 11 ∷ 12 ∷ 13 ∷ 14 ∷ 255 ∷ 7 ∷ [])
    ∷ []

generate_token_run : generate_token true reads ≡ some (hex sixteen)
unfolding generate_token read_loop
generate_token_run = refl

abbrev asked : Activation
asked = (get_activation_token true 7 created).0

abbrev committed : Activation
committed = record {
  tokens = record { id = 0; resource = some 7; token = hex sixteen; committed = true } ∷ [];
  user_data = asked.user_data;
  next = 1;
}

committed-Reach : Reach committed
unfolding token_commit generate_token read_loop token_of find_id get_activation_token commit_token
    commit_text modify
committed-Reach =
    later (later start (ask true 7 refl refl)) (commit 7 true reads (Reply.done (hex sixteen)) refl)

Reach-IsSafe_example :
    IsSafe committed
    × ((r : ℕ) (opened : Bool) (rs : List Read)
        → (t : Activation) × (reply : Reply) × (token_commit r opened rs committed
            ≡ some (t, reply))
          × IsSafe t)
    × ((r : ℕ) → (t : Activation) × (destroy_token_resource r committed ≡ some t) × IsSafe t)
Reach-IsSafe_example = Reach-IsSafe committed-Reach

abbrev window : Option Surface
window =
    some (record { view = some (record { window = some (record { name = 4; handles = true }) }) })

only-one :
    (t : Token)
    → Memᴰ t committed.tokens
    → t ≡ record { id = 0; resource = some 7; token = hex sixteen; committed = true }
only-one t m = Memᴰ.eq_of_singleton m

committed-AreRandom : AreRandom committed.tokens
committed-AreRandom t u mt mu ct cu e = only-one t mt ∙ sym (only-one u mu)

activate_once_example :
    find_token (hex sixteen) (activate (hex sixteen) window committed).0.tokens ≡ none
activate_once_example =
    activate_once (hex sixteen) window committed (Reach-IsSafe committed-Reach).0
      committed-AreRandom

activate_exact_example :
    ((w : ℕ)
      → ((activate (hex sixteen) window committed).1 ≡ some w)
        ↔ (((t : Token) × IsCurrent (hex sixteen) committed t) × CanRaise window w))
    × (((t : Token) → ¬ IsCurrent (hex sixteen) committed t)
        → activate (hex sixteen) window committed ≡ (committed, none))
    × (((t : Token) × IsCurrent (hex sixteen) committed t)
        → (t : Token) × IsCurrent (hex sixteen) committed t
          × ((activate (hex sixteen) window committed).0.tokens ≡ unlink t.id committed.tokens))
activate_exact_example = activate_exact (hex sixteen) window committed

activate_run : (activate (hex sixteen) window committed).1 ≡ some 4
unfolding activate find_token hex request spend
activate_run = refl
