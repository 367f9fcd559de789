-- ===== src/Activation/Token.antt =====
-- libswc/xdg_activation.c, lines 50 to 197: tokens, their random text, and their resources.
use neuswc.Prelude.{
  ℕ, ◌+◌, ◌-◌, ◌/◌, ◌%◌, Bool, true, not, List, [], ◌∷◌, ◌++◌, Option, none, some, if◌then◌else◌,
  ◌==◌, ltb, length, take,
}

abbrev pub token_bytes : ℕ
token_bytes = 16

abbrev pub token_max : ℕ
token_max = 64

-- `id` is the address of the struct; `token` is the text, a code for each character.
pub record Token : Type 0 where
  pub id : ℕ
  pub resource : Option ℕ
  pub token : List ℕ
  pub committed : Bool

-- `tokens` is in the order of creation. `user_data` of a resource is the address that it holds, and
-- `next` the address that the allocator gives out next.
pub record Activation : Type 0 where
  pub tokens : List Token
  pub user_data : ℕ → Option ℕ
  pub next : ℕ

-- `wl_resource_set_user_data`.
abbrev pub set_user_data : ℕ → Option ℕ → (ℕ → Option ℕ) → ℕ → Option ℕ
set_user_data r p u q = if q == r then p else u q

-- What the client that owns a resource is told.
pub data Reply : Type 0 where
  nothing no_memory already_used : Reply
  done : List ℕ → Reply

-- The results of `read` on the random device, a `failed` one past the end of the list.
pub data Read : Type 0 where
  bytes : List ℕ → Read
  interrupted failed : Read

-- The loop over the reads. A read returns at most the bytes that are asked for, and at least one.
unfoldable pub read_loop : List ℕ → List Read → Option (List ℕ)
read_loop got [] = if ltb (length got) token_bytes then none else some got
read_loop got (bytes bs ∷ rs) =
    let more = read_loop (got ++ take (token_bytes - length got) bs) rs in
    if ltb (length got) token_bytes then (if length bs == 0 then none else more) else some got
read_loop got (interrupted ∷ rs) =
    let more = read_loop got rs in if ltb (length got) token_bytes then more else some got
read_loop got (failed ∷ rs) = if ltb (length got) token_bytes then none else some got

-- `%02x`.
unfoldable pub hex_digit : ℕ → ℕ
hex_digit d = if ltb d 10 then b'0' + d else b'a' + (d - 10)

unfoldable pub hex : List ℕ → List ℕ
unfolding hex_digit
hex [] = []
hex (b ∷ bs) = hex_digit (b / 16) ∷ hex_digit (b % 16) ∷ hex bs

-- `opened` says whether the random device could be opened.
unfoldable pub generate_token : (opened : Bool) → List Read → Option (List ℕ)
generate_token opened reads =
    if opened then elim (read_loop [] reads) [ none ↦ none | some bs ↦ some (hex bs) ] else none

unfoldable pub find_id : ℕ → List Token → Option Token
find_id p [] = none
find_id p (t ∷ ts) = if t.id == p then some t else find_id p ts

-- `wl_list_remove` of the token at an address.
unfoldable pub unlink : ℕ → List Token → List Token
unlink p [] = []
unlink p (t ∷ ts) = if t.id == p then unlink p ts else t ∷ unlink p ts

-- A write through the pointer to a token.
unfoldable pub modify : ℕ → (Token → Token) → List Token → List Token
modify p f [] = []
modify p f (t ∷ ts) = (if t.id == p then f t else t) ∷ modify p f ts

unfoldable pub token_free : Token → Activation → Activation
token_free t s = record s { tokens = unlink t.id s.tokens }

-- `if (token->resource) wl_resource_set_user_data(token->resource, NULL)`.
abbrev pub clear_data : Option ℕ → (ℕ → Option ℕ) → ℕ → Option ℕ
clear_data none u = u
clear_data (some r) u = set_user_data r none u

abbrev pub detach : Token → Activation → Activation
detach t s = record s { user_data = clear_data t.resource s.user_data }

unfoldable pub handle_expiry : Token → Activation → Activation
unfolding token_free
handle_expiry t s = token_free t (detach t s)

-- What `token_commit` does with the token that the resource holds, and with its random text.
unfoldable pub commit_text : Token → Option (List ℕ) → Activation → Activation × Reply
commit_text t none s = (s, no_memory)
commit_text t (some text) s = (
  record s { tokens = modify t.id (λ t. record t { token = text; committed = true }) s.tokens },
  done text,
)

-- `none` when the address is not that of a token: a dangling pointer.
unfoldable pub deref : List Token → Option ℕ → Option (Option Token)
deref ts none = some none
deref ts (some p) = elim (find_id p ts) [ none ↦ none | some t ↦ some (some t) ]

-- `wl_resource_get_user_data`.
unfoldable pub token_of : ℕ → Activation → Option (Option Token)
unfolding deref
token_of r s = deref s.tokens (s.user_data r)

unfoldable pub commit_token : Option (List ℕ) → Activation → Option Token → Activation × Reply
commit_token text s none = (s, nothing)
commit_token text s (some t) = if t.committed then (s, already_used) else commit_text t text s

unfoldable pub token_commit :
    ℕ → (opened : Bool) → List Read → Activation → Option (Activation × Reply)
token_commit r opened reads s = elim (token_of r s) [
  | none ↦ none
  | some t ↦ some (commit_token (generate_token opened reads) s t)
]

-- The destructor of a resource; the resource is gone afterwards.
unfoldable pub destroy_token : ℕ → Activation → Option Token → Activation
unfolding token_free
destroy_token r s none = s
destroy_token r s (some t) =
    let gone = record s { user_data = set_user_data r none s.user_data } in
    if not t.committed
    then token_free t gone
    else record gone { tokens = modify t.id (λ t. record t { resource = none }) s.tokens }

unfoldable pub destroy_token_resource : ℕ → Activation → Option Activation
destroy_token_resource r s = elim (token_of r s) [
  | none ↦ none
  | some t ↦ some (destroy_token r s t)
]
