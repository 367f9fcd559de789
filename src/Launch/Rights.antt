-- ===== src/Launch/Rights.antt =====
-- launch/protocol.c: no descriptor that arrives is lost.
use neuswc.Prelude.{
  times, times-append, if_intro, ℕ, ◌+◌, ◌≡◌, ◌≢◌, refl, true, false, Bool, List, [], ◌∷◌, ◌++◌,
  Option, none, some, length, arith, ◌==◌, ◌||◌, if◌then◌else◌, ltb,
}
use neuswc.Launch.Message.{
  Bytes, SocketType, stream, seqpacket, Errno, emsgsize, other, ok, blocked, Kernel, message_size,
  decode,
}
use neuswc.Launch.Send.{Answer}
use neuswc.Launch.Descriptors.{
  Control, rights, unrelated, Socket, Gathered, Received, to_list, keep_or_close, keep_all, gather,
  fail, finish_kept, end_of_file,
}
use neuswc.Launch.Receive.{
  Arrival, Read, read, stopped, pending, finish_read, receive_body, receive_rest, receive_first,
  receive_sized, receive_fd, first_answer,
}

abbrev pub sent_along : List Control → List ℕ
sent_along [] = []
sent_along (rights fds ∷ controls) = fds ++ sent_along controls
sent_along (unrelated ∷ controls) = sent_along controls

abbrev held : Gathered → List ℕ
held g = to_list g.kept ++ g.closed

abbrev gathered : Option ℕ → List ℕ → Gathered
gathered kept closed = record { kept = kept; closed = closed }

times_kept :
    (c x : ℕ) (wanted : Bool) (count : ℕ) (kept : Option ℕ) (closed : List ℕ)
    → times c (held (keep_or_close wanted count x (gathered kept closed)))
      ≡ times c (x ∷ []) + times c (held (gathered kept closed))
times_kept c x false count none closed = omega arith
times_kept c x false count (some y) closed = omega arith
times_kept c x true count (some y) closed = omega arith
times_kept c x true count none closed =
    if_intro (λ g. times c (held g) ≡ times c (x ∷ []) + times c closed) (count == 1) _ _
      (λ _. omega arith) (λ _. omega arith)

times-keep_or_close :
    (c : ℕ) (wanted : Bool) (count x : ℕ) (g : Gathered)
    → times c (held (keep_or_close wanted count x g)) ≡ times c (x ∷ []) + times c (held g)
times-keep_or_close c wanted count x g = times_kept c x wanted count g.kept g.closed

times-keep_all :
    (c : ℕ) (wanted : Bool) (count : ℕ) (fds : List ℕ) (g : Gathered)
    → times c (held (keep_all wanted count fds g)) ≡ times c fds + times c (held g)
unfolding keep_all
times-keep_all c wanted count [] g = omega arith
times-keep_all c wanted count (x ∷ fds) g = omega (
  arith,
  times-keep_all c wanted count fds (keep_or_close wanted count x g),
  times-keep_or_close c wanted count x g,
)

times-gather :
    (c : ℕ) (wanted : Bool) (controls : List Control) (g : Gathered)
    → times c (held (gather wanted controls g)) ≡ times c (sent_along controls) + times c (held g)
unfolding gather
times-gather c wanted [] g = omega arith
times-gather c wanted (rights fds ∷ controls) g = omega (
  arith,
  times-gather c wanted controls (keep_all wanted (length fds) fds g),
  times-keep_all c wanted (length fds) fds g,
  times-append c fds (sent_along controls),
)
times-gather c wanted (unrelated ∷ controls) g = times-gather c wanted controls g

-- A call that has not returned, or whose caller gets at most what was kept and the rest is closed; a
-- call that fails gives nothing.
abbrev IsAccounted : Gathered → Received → Type 0
IsAccounted g r =
    r.result ≢ blocked
    → ((c : ℕ) → times c (to_list r.fd ++ r.closed) ≡ times c (held g))
      × ((n : ℕ) → r.fd ≡ some n → (m : ℕ) × (r.result ≡ ok m))

failed-IsAccounted : (e : Errno) (g : Gathered) → IsAccounted g (fail e g)
failed-IsAccounted e g _ = (λ c. refl, λ n p. absurd (ground arith))

finish-IsAccounted :
    (cloexec : Option ℕ) (kept : Option ℕ) (closed : List ℕ) (size : ℕ) (contents : List Bytes)
    → IsAccounted
        (gathered kept closed)
        (finish_kept cloexec kept (gathered kept closed) size contents)
finish-IsAccounted none kept closed size contents _ = (λ c. refl, λ n p. (size, refl))
finish-IsAccounted (some e) none closed size contents _ = (λ c. refl, λ n p. (size, refl))
finish-IsAccounted (some e) (some fd) closed size contents h =
    failed-IsAccounted (other e) (gathered (some fd) closed) h

finish_read-IsAccounted :
    (kernel : Kernel) (cloexec : Option ℕ) (g : Gathered) (size : ℕ) (r : Read (List Bytes))
    → IsAccounted g (finish_read kernel cloexec g size r)
finish_read-IsAccounted kernel cloexec g size (read contents _ _) h =
    finish-IsAccounted cloexec g.kept g.closed size contents h
finish_read-IsAccounted kernel cloexec g size (stopped e) h = failed-IsAccounted e g h
finish_read-IsAccounted kernel cloexec g size pending h = absurd (h refl)

receive_body-IsAccounted :
    (kernel : Kernel) (cloexec : Option ℕ) (capacity : ℕ) (lens : List ℕ) (g : Gathered)
    (r : Read Bytes)
    → IsAccounted g (receive_body kernel cloexec capacity lens g r)
receive_body-IsAccounted kernel cloexec capacity lens g (stopped e) h = failed-IsAccounted e g h
receive_body-IsAccounted kernel cloexec capacity lens g pending h = absurd (h refl)
receive_body-IsAccounted kernel cloexec capacity lens g (read header arrivals bytes) h =
    if_intro (IsAccounted g) (decode header == 0 || ltb capacity (decode header)) _ _
      (λ _. failed-IsAccounted emsgsize g)
      (λ _. finish_read-IsAccounted kernel cloexec g (decode header) _) h

-- The tests that both kinds of socket share.
before_body :
    (socket : Socket) (g : Gathered) (size : ℕ) (r : Received)
    → IsAccounted g r
    → IsAccounted g
        (if socket.truncated then fail emsgsize g else if size == 0 then end_of_file g else r)
before_body socket g size r h =
    if_intro (IsAccounted g) socket.truncated _ _ (λ _. failed-IsAccounted emsgsize g)
      (λ _.
        if_intro (IsAccounted g) (size == 0) _ _ (λ _ _. (λ c. refl, λ n p. absurd (ground arith)))
          (λ _. h))

receive_rest-IsAccounted :
    (kernel : Kernel) (type : SocketType) (arrivals : List Arrival) (cloexec : Option ℕ)
    (capacity : ℕ) (lens : List ℕ) (socket : Socket) (g : Gathered) (size : ℕ)
    → IsAccounted g (receive_rest kernel type arrivals cloexec capacity lens socket g size)
unfolding receive_rest
receive_rest-IsAccounted kernel stream arrivals cloexec capacity lens socket g size =
    before_body socket g size _ (receive_body-IsAccounted kernel cloexec capacity lens g _)
receive_rest-IsAccounted kernel seqpacket arrivals cloexec capacity lens socket g size =
    before_body socket g size _ (finish-IsAccounted cloexec g.kept g.closed size _)

-- When receive_fd returns after a recvmsg, every descriptor that has arrived is given to the caller or
-- closed, as often as it arrived and never both; and one is given only along with a size.
pub receive_fd_exact :
    (kernel : Kernel) (type : SocketType) (answers : List Answer) (arrivals : List Arrival)
    (wanted : Bool) (cloexec : Option ℕ) (lens : List ℕ) (socket : Socket) (capacity k : ℕ)
    → message_size lens ≡ ok capacity
    → first_answer answers ≡ ok k
    → let r = receive_fd kernel type answers arrivals wanted cloexec lens socket in
      r.result ≢ blocked
      → ((c : ℕ) → times c (to_list r.fd ++ r.closed) ≡ times c (sent_along socket.controls))
        × ((n : ℕ) → r.fd ≡ some n → (m : ℕ) × (r.result ≡ ok m))
unfolding receive_fd receive_sized receive_first
receive_fd_exact kernel type answers arrivals wanted cloexec lens socket capacity k m a =
    let g = gather wanted socket.controls (gathered none []) in
    rw (m, a)
      (λ h.
        let (all, given) =
          receive_rest-IsAccounted kernel type arrivals cloexec capacity lens socket g _ h in
        (
          λ c. omega (arith, all c, times-gather c wanted socket.controls (gathered none [])),
          given,
        ))
