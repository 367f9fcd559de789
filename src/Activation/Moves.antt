-- ===== src/Activation/Moves.antt =====
-- Each operation of libswc/xdg_activation.c keeps the pointers and the bound.
use mathlib.Core.List.{Memᴰ}
use neuswc.Prelude.{
  ℕ, ◌<◌, ◌≡◌, ◌≢◌, refl, sym, ap, subst, ◌∙◌, inl, inr, Bool, true, List, [], ◌∷◌, Option, none,
  some, arith, Bool-cases, ◌&&◌,
}
use neuswc.Activation.Token.{
  Token, Activation, Reply, Read, set_user_data, modify, token_free, clear_data, commit_text,
  commit_token, token_commit, destroy_token, destroy_token_resource, generate_token,
}
use neuswc.Activation.Modify.{image, mem-modify, modify-mem, length-modify, image-other}
use neuswc.Activation.Manager.{drop_oldest, find_token, same_text, Surface, spend, activate}
use neuswc.Activation.Safety.{
  IsSafe, free-IsSafe, Held, token_of-total, some-clear_data, clear_data-other, back-eq,
}

abbrev write_text : List ℕ → Token → Token
write_text text t = record t { token = text; committed = true }

image-id : (p : ℕ) (text : List ℕ) (u : Token) → (image p (write_text text) u).id ≡ u.id
image-id p text u = ground arith

image-resource :
    (p : ℕ) (text : List ℕ) (u : Token) → (image p (write_text text) u).resource ≡ u.resource
image-resource p text u = ground arith

commit_text-IsSafe :
    (t : Token) (text : Option (List ℕ)) (s : Activation)
    → IsSafe s
    → IsSafe (commit_text t text s).0
unfolding commit_text
commit_text-IsSafe t none s v = v
commit_text-IsSafe t (some text) s v = record {
  bounded = omega (arith, v.bounded, length-modify t.id (write_text text) s.tokens);
  distinct = λ a b ma mb e.
      let (a', ma', ea) = mem-modify t.id (write_text text) s.tokens a ma in
      let (b', mb', eb) = mem-modify t.id (write_text text) s.tokens b mb in
      ea
      ∙ ap (image t.id (write_text text)) (
          v.distinct a' b' ma' mb' (
            sym (image-id t.id text a')
            ∙ ap (λ (y : Token). y.id) (sym ea)
            ∙ e
            ∙ ap (λ (y : Token). y.id) eb
            ∙ image-id t.id text b'))
      ∙ sym eb;
  below = λ a ma.
      let (a', ma', ea) = mem-modify t.id (write_text text) s.tokens a ma in
      subst (λ n. n < s.next) (sym (ap (λ (y : Token). y.id) ea ∙ image-id t.id text a'))
        (v.below a' ma');
  linked = λ r p h.
      let (a, ma, ia, ra) = v.linked r p h in
      (
        image t.id (write_text text) a,
        modify-mem t.id (write_text text) s.tokens a ma,
        image-id t.id text a ∙ ia,
        image-resource t.id text a ∙ ra,
      );
  back = λ a r ma ra.
      let (a', ma', ea) = mem-modify t.id (write_text text) s.tokens a ma in
      v.back a' r ma'
        (sym (image-resource t.id text a') ∙ ap (λ (y : Token). y.resource) (sym ea) ∙ ra)
      ∙ ap some (sym (ap (λ (y : Token). y.id) ea ∙ image-id t.id text a'));
}

commit_token-IsSafe :
    (text : Option (List ℕ)) (s : Activation) (o : Option Token)
    → IsSafe s
    → IsSafe (commit_token text s o).0
unfolding commit_token
commit_token-IsSafe text s none v = v
commit_token-IsSafe text s (some t) v = elim (Bool-cases t.committed) [
  | inl e ↦ simp e v
  | inr e ↦ simp e (commit_text-IsSafe t text s v)
]

abbrev unhook : Token → Token
unhook t = record t { resource = none }

hooked : (p : ℕ) (u : Token) → u.id ≡ p → (image p unhook u).resource ≡ none
hooked p u e = ground arith

-- Committing through a resource reads no dangling pointer, whatever the random device gives.
pub token_commit-IsSafe :
    (r : ℕ) (opened : Bool) (reads : List Read) (s : Activation)
    → IsSafe s
    → (s' : Activation) × (reply : Reply) × (token_commit r opened reads s ≡ some (s', reply))
      × IsSafe s'
unfolding token_commit
token_commit-IsSafe r opened reads s v =
    let (o, e, h) = token_of-total r s v in
    (
      (commit_token (generate_token opened reads) s o).0,
      (commit_token (generate_token opened reads) s o).1,
      rw (e, token_commit),
      commit_token-IsSafe (generate_token opened reads) s o v,
    )

unhook-id : (p : ℕ) (u : Token) → (image p unhook u).id ≡ u.id
unhook-id p u = ground arith

hooked-ne : (p : ℕ) (u : Token) (q : ℕ) → (image p unhook u).resource ≡ some q → u.id ≢ p
hooked-ne p u q h e = cc (sym h ∙ hooked p u e)

-- The end of the resource of a committed token.
unhook-IsSafe :
    (r : ℕ) (t : Token) (s : Activation)
    → IsSafe s
    → Memᴰ t s.tokens
    → t.resource ≡ some r
    → IsSafe (record s {
      user_data = set_user_data r none s.user_data;
      tokens = modify t.id unhook s.tokens;
    })
unhook-IsSafe r t s v m rt = record {
  bounded = omega (arith, v.bounded, length-modify t.id unhook s.tokens);
  distinct = λ a b ma mb e.
      let (a', ma', ea) = mem-modify t.id unhook s.tokens a ma in
      let (b', mb', eb) = mem-modify t.id unhook s.tokens b mb in
      ea
      ∙ ap (image t.id unhook) (
          v.distinct a' b' ma' mb' (
            sym (unhook-id t.id a')
            ∙ ap (λ (y : Token). y.id) (sym ea)
            ∙ e
            ∙ ap (λ (y : Token). y.id) eb
            ∙ unhook-id t.id b'))
      ∙ sym eb;
  below = λ a ma.
      let (a', ma', ea) = mem-modify t.id unhook s.tokens a ma in
      subst (λ n. n < s.next) (sym (ap (λ (y : Token). y.id) ea ∙ unhook-id t.id a'))
        (v.below a' ma');
  linked = λ q p h.
      let (held, other) = some-clear_data (some r) s.user_data q p h in
      let (a, ma, ia, ra) = v.linked q p held in
      let apart : a.id ≢ t.id =
        λ e. other (sym rt ∙ ap (λ (y : Token). y.resource) (sym (v.distinct a t ma m e)) ∙ ra) in
      (
        a,
        subst (λ b. Memᴰ b (modify t.id unhook s.tokens)) (image-other t.id unhook a apart)
            (modify-mem t.id unhook s.tokens a ma),
        ia,
        ra,
      );
  back = λ a q ma ra.
      let (a', ma', ea) = mem-modify t.id unhook s.tokens a ma in
      let apart = hooked-ne t.id a' q (ap (λ (y : Token). y.resource) (sym ea) ∙ ra) in
      let same : a ≡ a' = ea ∙ image-other t.id unhook a' apart in
      let ra' : a'.resource ≡ some q = ap (λ (y : Token). y.resource) (sym same) ∙ ra in
      clear_data-other (some r) s.user_data q (λ e. apart (back-eq s v a' t q ma' m ra' (rt ∙ e)))
      ∙ v.back a' q ma' ra'
      ∙ ap (λ (y : Token). some y.id) (sym same);
}

destroy_token-IsSafe :
    (r : ℕ) (s : Activation) (o : Option Token)
    → IsSafe s
    → Held r s o
    → IsSafe (destroy_token r s o)
unfolding destroy_token
destroy_token-IsSafe r s none v h = v
destroy_token-IsSafe r s (some t) v (m, rt) = elim (Bool-cases t.committed) [
  | inl e ↦ simp e (unhook-IsSafe r t s v m rt)
  | inr e ↦ simp e (
      subst (λ o. IsSafe (token_free t (record s { user_data = clear_data o s.user_data }))) rt
        (free-IsSafe t s v m))
]

-- The end of a resource reads no dangling pointer and leaves none.
pub destroy_token_resource-IsSafe :
    (r : ℕ) (s : Activation)
    → IsSafe s
    → (s' : Activation) × (destroy_token_resource r s ≡ some s') × IsSafe s'
unfolding destroy_token_resource
destroy_token_resource-IsSafe r s v =
    let (o, e, h) = token_of-total r s v in
    (destroy_token r s o, rw (e, destroy_token_resource), destroy_token-IsSafe r s o v h)

pub drop_oldest-IsSafe :
    (ts : List Token) (s : Activation) → IsSafe s → s.tokens ≡ ts → IsSafe (drop_oldest ts s)
unfolding drop_oldest
drop_oldest-IsSafe [] s v e = v
drop_oldest-IsSafe (t ∷ ts) s v e = free-IsSafe t s v (subst (Memᴰ t) (sym e) (Memᴰ.head refl))

spend-IsSafe :
    (surface : Option Surface) (s : Activation) (o : Option Token)
    → IsSafe s
    → ((t : Token) → o ≡ some t → Memᴰ t s.tokens)
    → IsSafe (spend surface s o).0
unfolding spend
spend-IsSafe surface s none v h = v
spend-IsSafe surface s (some t) v h = free-IsSafe t s v (h t refl)

pub find_token-mem :
    (needle : List ℕ) (ts : List Token) (t : Token) → find_token needle ts ≡ some t → Memᴰ t ts
unfolding find_token
find_token-mem needle [] t e = cc
find_token-mem needle (x ∷ ts) t e = elim (Bool-cases (x.committed && same_text x.token needle)) [
  | inl h ↦ Memᴰ.head (ground arith)
  | inr h ↦ Memᴰ.tail (find_token-mem needle ts t (ground arith))
]

pub activate-IsSafe :
    (needle : List ℕ) (surface : Option Surface) (s : Activation)
    → IsSafe s
    → IsSafe (activate needle surface s).0
unfolding activate
activate-IsSafe needle surface s v = spend-IsSafe surface s _ v (find_token-mem needle s.tokens)
