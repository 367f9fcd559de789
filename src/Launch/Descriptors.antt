-- ===== src/Launch/Descriptors.antt =====
-- launch/protocol.c, lines 157 to 204 and 224 to 233: the descriptors that come with a message, and how
-- receive_fd ends.
use neuswc.Prelude.{
  ℕ, Bool, true, false, ◌&&◌, List, [], ◌∷◌, ◌++◌, Option, none, some, if◌then◌else◌, ◌==◌, length,
}
use neuswc.Launch.Message.{Bytes, Errno, Outcome, ok, failed, other}

-- A control message: descriptors, or one of another kind.
pub data Control : Type 0 where
  rights : List ℕ → Control
  unrelated : Control

-- What the socket holds: bytes, the control messages that come with the first of them, and whether
-- recvmsg says that something was cut off.
pub record Socket : Type 0 where
  pub bytes : Bytes
  pub controls : List Control
  pub truncated : Bool

pub record Gathered : Type 0 where
  pub kept : Option ℕ
  pub closed : List ℕ

-- `fd` is what is stored for the caller, `closed` the descriptors that are closed, `contents` what a
-- call that returns a size has put into each vector that it has used.
pub record Received : Type 0 where
  pub result : Outcome ℕ
  pub fd : Option ℕ
  pub closed : List ℕ
  pub contents : List Bytes

abbrev pub is_none : Option ℕ → Bool
is_none none = true
is_none (some _) = false

abbrev pub to_list : Option ℕ → List ℕ
to_list none = []
to_list (some x) = x ∷ []

abbrev pub keep_or_close : (wanted : Bool) → (count : ℕ) → ℕ → Gathered → Gathered
keep_or_close wanted count candidate g =
    if wanted && (is_none g.kept && count == 1)
    then record g { kept = some candidate }
    else record g { closed = candidate ∷ g.closed }

unfoldable pub keep_all : (wanted : Bool) → (count : ℕ) → List ℕ → Gathered → Gathered
keep_all wanted count [] g = g
keep_all wanted count (candidate ∷ fds) g =
    keep_all wanted count fds (keep_or_close wanted count candidate g)

unfoldable pub gather : (wanted : Bool) → List Control → Gathered → Gathered
gather wanted [] g = g
gather wanted (rights fds ∷ controls) g =
    gather wanted controls (keep_all wanted (length fds) fds g)
gather wanted (unrelated ∷ controls) g = gather wanted controls g

-- `fail:`
abbrev pub fail : Errno → Gathered → Received
fail e g = record {
  result = failed e;
  fd = none;
  closed = to_list g.kept ++ g.closed;
  contents = [];
}

-- The end of the function, after fcntl, which fails with an error or does not.
abbrev pub finish_kept :
    (cloexec : Option ℕ) → (kept : Option ℕ) → Gathered → (size : ℕ) → List Bytes → Received
finish_kept (some e) (some _) g size contents = fail (other e) g
finish_kept _ _ g size contents = record {
  result = ok size;
  fd = g.kept;
  closed = g.closed;
  contents = contents;
}

abbrev pub finish : (cloexec : Option ℕ) → Gathered → (size : ℕ) → List Bytes → Received
finish cloexec g size contents = finish_kept cloexec g.kept g size contents

-- `if (!size)`
abbrev pub end_of_file : Gathered → Received
end_of_file g = record {
  result = ok 0;
  fd = none;
  closed = to_list g.kept ++ g.closed;
  contents = [];
}
