-- ===== src/Activation/Manager.antt =====
-- libswc/xdg_activation.c, lines 207 to 366: asking for a token, and spending one.
use neuswc.Prelude.{
  ℕ, suc, Bool, true, false, ◌&&◌, List, [], ◌∷◌, ◌++◌, Option, none, some, if◌then◌else◌, ◌==◌,
  ltb, length, ◌>>=◌,
}
use neuswc.Activation.Token.{
  token_max, Token, Activation, Reply, nothing, no_memory, set_user_data, detach, token_free,
}

-- `wl_container_of(tokens.next)` and its end, when the list is full.
unfoldable pub drop_oldest : List Token → Activation → Activation
unfolding token_free
drop_oldest [] s = s
drop_oldest (t ∷ ts) s = token_free t (detach t s)

abbrev pub make_room : Activation → Activation
make_room s = if ltb (length s.tokens) token_max then s else drop_oldest s.tokens s

abbrev pub new_token : (id resource : ℕ) → Token
new_token id resource = record { id = id; resource = some resource; token = []; committed = false }

-- `granted` says that the memory, the resource and the timer were all to be had.
unfoldable pub get_activation_token :
    (granted : Bool) (resource : ℕ) → Activation → Activation × Reply
unfolding drop_oldest
get_activation_token granted resource s =
    let room = make_room s in
    if granted
    then (
      record {
        tokens = room.tokens ++ new_token room.next resource ∷ [];
        user_data = set_user_data resource (some room.next) room.user_data;
        next = suc room.next;
      },
      nothing,
    )
    else (room, no_memory)

-- `strcmp` for equality.
abbrev pub same_text : List ℕ → List ℕ → Bool
same_text [] [] = true
same_text [] (d ∷ ds) = false
same_text (c ∷ cs) [] = false
same_text (c ∷ cs) (d ∷ ds) = c == d && same_text cs ds

unfoldable pub find_token : List ℕ → List Token → Option Token
find_token needle [] = none
find_token needle (t ∷ ts) =
    if t.committed && same_text t.token needle then some t else find_token needle ts

-- The pointers from a surface to the handler of its window, each of which may be NULL.
pub record Window : Type 0 where
  pub name : ℕ
  pub handles : Bool

pub record View : Type 0 where
  pub window : Option Window

pub record Surface : Type 0 where
  pub view : Option View

-- The window whose handler is asked to raise it.
unfoldable pub request : Option Surface → Option ℕ
request surface = do s ← surface; v ← s.view; w ← v.window; if w.handles then some w.name else none

unfoldable pub spend : Option Surface → Activation → Option Token → Activation × Option ℕ
unfolding token_free request
spend surface s none = (s, none)
spend surface s (some t) = (token_free t (detach t s), request surface)

unfoldable pub activate : List ℕ → Option Surface → Activation → Activation × Option ℕ
activate needle surface s = spend surface s (find_token needle s.tokens)

-- The loop of `xdg_activation_finish`.
unfoldable pub free_all : List Token → Activation → Activation
unfolding token_free
free_all [] s = s
free_all (t ∷ ts) s = free_all ts (token_free t (detach t s))

unfoldable pub xdg_activation_finish : Activation → Activation
unfolding free_all
xdg_activation_finish s = free_all s.tokens s
