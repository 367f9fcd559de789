-- ===== src/Launch/Sent.antt =====
-- launch/protocol.c: what send_fd puts on a stream, and that it returns.
use neuswc.Prelude.{
  if_intro, ℕ, suc, ◌+◌, ◌-◌, ◌≤◌, ◌<◌, ◌≢◌, ◌≡◌, zero, refl, sym, ap, subst, ◌∙◌, List, [], ◌∷◌,
  ◌++◌, Option, none, length, take, drop, length-append, length-take, length-drop, take_append_drop,
  All, arith, Bool-cases, inl, inr, ◌==◌, leb,
}
use neuswc.Launch.Message.{
  Bytes, stream, Outcome, Errno, ok, failed, Kernel, IsBounded, IsProgressing, message_size, encode,
  concat, lengths,
}
use neuswc.Launch.Size.{message_size_iff, sum-lengths}
use neuswc.Launch.Send.{
  Answer, interrupted, error, moved, Segment, Sending, sending, advance, after, send_loop,
  send_sized, send_fd,
}

abbrev pub payload : List Segment → Bytes
payload [] = []
payload (s ∷ w) = s.bytes ++ payload w

abbrev pub Bare : Segment → Type 0
Bare s = s.rights ≡ none

-- `control` goes with the first byte and nothing with what follows.
abbrev pub IsLed : Option ℕ → List Segment → Type 0
IsLed control [] = Unit
IsLed control (s ∷ w) = (s.rights ≡ control) × ((0 < length s.bytes) × All Bare w)

-- The calls of sendmsg that move bytes, up to the first that fails.
abbrev pub moves : List Answer → ℕ
moves [] = 0
moves (interrupted ∷ answers) = moves answers
moves (error _ ∷ answers) = 0
moves (moved _ ∷ answers) = suc (moves answers)

drop_append : (n : ℕ) (xs ys : Bytes) → n < length xs → drop n (xs ++ ys) ≡ drop n xs ++ ys
drop_append zero xs ys h = refl
drop_append (suc n) [] ys h = absurd (omega arith)
drop_append (suc n) (x ∷ xs) ys h = drop_append n xs ys (omega arith)

drop_past : (n : ℕ) (xs ys : Bytes) → length xs ≤ n → drop n (xs ++ ys) ≡ drop (n - length xs) ys
drop_past n [] ys h = ap (λ k. drop k ys) (minus_zero n)
  where
    minus_zero : (n : ℕ) → n ≡ n - 0
    minus_zero n = omega arith
drop_past zero (x ∷ xs) ys h = absurd (omega arith)
drop_past (suc n) (x ∷ xs) ys h =
    drop_past n xs ys (omega arith) ∙ ap (λ k. drop k ys) (minus_suc n (length xs))
  where
    minus_suc : (n m : ℕ) → n - m ≡ suc n - suc m
    minus_suc n m = omega arith

concat-advance : (n : ℕ) (vs : List Bytes) → concat (advance n vs) ≡ drop n (concat vs)
unfolding advance
concat-advance zero [] = refl
concat-advance (suc n) [] = refl
concat-advance n (v ∷ vs) = elim (Bool-cases (leb (length v) n)) [
  | inl e ↦ rw e (concat-advance (n - length v) vs ∙ sym (drop_past n v (concat vs) (ground arith)))
  | inr e ↦ rw e (sym (drop_append n v (concat vs) (ground arith)))
]

length_zero : (xs : Bytes) → length xs ≡ 0 → xs ≡ []
length_zero [] h = refl
length_zero (x ∷ xs) h = absurd (omega arith)

failed-not_ok : {e : Errno} {n : ℕ} → failed e ≢ ok n
failed-not_ok p = absurd (ground arith)

All-led : (w : List Segment) → IsLed none w → All Bare w
All-led [] h = tt
All-led (s ∷ w) (e, (_, h)) = (e, h)

module _ (kernel : Kernel) (bounded : IsBounded kernel) where
  abbrev Sends : Bytes → Option ℕ → Sending → Type 0
  Sends bytes control r =
      (((n : ℕ) → r.result ≡ ok n → payload r.wire ≡ bytes) × IsLed control r.wire)

  nothing_sent :
      (bytes : Bytes) (control : Option ℕ) (o : Outcome ℕ)
      → ((n : ℕ) → o ≡ ok n → length bytes ≡ 0)
      → Sends bytes control (sending o [])
  nothing_sent bytes control o h = (λ n e. sym (length_zero bytes (h n e)), tt)

  -- A round that sends something.
  after-Sends :
      (n : ℕ) (bytes : Bytes) (control : Option ℕ) (r : Sending)
      → 0 < n
      → n ≤ length bytes
      → Sends (drop n bytes) none r
      → Sends bytes control (after (record { bytes = take n bytes; rights = control }) r)
  after-Sends n bytes control r p h (whole, led) = (
    λ m e. ap (take n bytes ++◌) (whole m e) ∙ take_append_drop n bytes,
    (refl, (omega (arith, length-take n bytes h), All-led r.wire led)),
  )

  send_loop-Sends :
      (size : ℕ) (answers : List Answer) (vectors : List Bytes) (control : Option ℕ) (remaining : ℕ)
      → length (concat vectors) ≡ remaining
      → Sends
          (concat vectors)
          control
          (send_loop kernel stream size answers vectors control remaining)
  unfolding send_loop
  send_loop-Sends size [] vectors control remaining h =
      nothing_sent _ control _ (λ n e. ground arith)
  send_loop-Sends size (interrupted ∷ answers) vectors control remaining h =
      if_intro (Sends (concat vectors) control) (remaining == 0) _ _
        (λ e. nothing_sent _ control _ (λ _ _. ground arith))
        (λ _. send_loop-Sends size answers vectors control remaining h)
  send_loop-Sends size (error e ∷ answers) vectors control remaining h =
      nothing_sent _ control _ (λ n e. ground arith)
  send_loop-Sends size (moved k ∷ answers) vectors control remaining h =
      let sent = kernel.count k (length (concat vectors)) in
      let fits = bounded.bounded k (length (concat vectors)) in
      let next =
        send_loop kernel stream size answers (advance sent vectors) none (remaining - sent) in
      let rest = send_loop-Sends size answers (advance sent vectors) none (remaining - sent) (
        omega (
          arith,
          ap length (concat-advance sent vectors),
          length-drop sent (concat vectors) fits,
        )) in
      if_intro (Sends (concat vectors) control) (remaining == 0) _ _
        (λ e. nothing_sent _ control _ (λ _ _. ground arith))
        (λ _.
          if_intro (Sends (concat vectors) control) (sent == 0) _ _
            (λ _. nothing_sent _ control _ (λ n e. absurd (failed-not_ok e)))
            (λ p.
              after-Sends sent (concat vectors) control _ (ground arith) fits
                (subst (λ b. Sends b none next) (concat-advance sent vectors) rest)))

  module _ (progressing : IsProgressing kernel) where
    abbrev Returns : ℕ → Sending → Type 0
    Returns size r = r.result ≡ ok size

    -- With enough calls of sendmsg that move bytes, all are sent.
    send_loop-returns :
        (size : ℕ) (answers : List Answer) (vectors : List Bytes) (control : Option ℕ)
        (remaining : ℕ)
        → length (concat vectors) ≡ remaining
        → remaining ≤ moves answers
        → (send_loop kernel stream size answers vectors control remaining).result ≡ ok size
    unfolding send_loop
    send_loop-returns size [] vectors control remaining h m = ground arith
    send_loop-returns size (interrupted ∷ answers) vectors control remaining h m =
        if_intro (Returns size) (remaining == 0) _ _ (λ e. refl)
          (λ _. send_loop-returns size answers vectors control remaining h m)
    send_loop-returns size (error e ∷ answers) vectors control remaining h m = ground arith
    send_loop-returns size (moved k ∷ answers) vectors control remaining h m =
        let most = length (concat vectors) in
        let sent = kernel.count k most in
        let fits = bounded.bounded k most in
        let some_sent = progressing.progress k most in
        let rest = send_loop-returns size answers (advance sent vectors) none (remaining - sent) (
          omega (
            arith,
            ap length (concat-advance sent vectors),
            length-drop sent (concat vectors) fits,
          )) in
        ground (arith, some_sent, rest)

pub length-encode : (n : ℕ) → length (encode n) ≡ 4
unfolding encode
length-encode n = refl

-- The size that is let through is the number of bytes.
pub size-length :
    (iov : List Bytes) (n : ℕ) → message_size (lengths iov) ≡ ok n → n ≡ length (concat iov)
size-length iov n e = ((message_size_iff (lengths iov) n).0 e).0 ∙ sum-lengths iov

module _ (kernel : Kernel) (bounded : IsBounded kernel) (answers : List Answer) (fd : Option ℕ)
    (iov : List Bytes) (n : ℕ) where
  -- The frame: the size, then the bytes.
  length-frame : message_size (lengths iov) ≡ ok n → length (concat (encode n ∷ iov)) ≡ n + 4
  length-frame e =
      omega (arith, length-append (encode n) (concat iov), length-encode n, size-length iov n e)

  send_fd_loop :
      message_size (lengths iov) ≡ ok n
      → send_fd kernel stream answers fd iov
        ≡ send_loop kernel stream n answers (encode n ∷ iov) fd (n + 4)
  unfolding send_fd send_sized
  send_fd_loop e = rw e refl

  -- On a stream, if send_fd returns a size, all its bytes are on the wire, behind the four that give
  -- their number, in however many pieces; the descriptor is with the first piece and no other one.
  pub send_fd_frames :
      message_size (lengths iov) ≡ ok n
      → (send_fd kernel stream answers fd iov).result ≡ ok n
      → (payload (send_fd kernel stream answers fd iov).wire ≡ encode n ++ concat iov)
        × IsLed fd (send_fd kernel stream answers fd iov).wire
  send_fd_frames e h =
      let sends =
        send_loop-Sends kernel bounded n answers (encode n ∷ iov) fd (n + 4) (length-frame e) in
      rw (send_fd_loop e) (sends.0 n (rw (send_fd_loop e) at h), sends.1)

  -- On a stream, send_fd returns the size of its message after so many calls of sendmsg that move
  -- something, interrupted ones between them, as there are bytes, the four of the size with them.
  pub send_fd_returns :
      IsProgressing kernel
      → message_size (lengths iov) ≡ ok n
      → n + 4 ≤ moves answers
      → (send_fd kernel stream answers fd iov).result ≡ ok n
  send_fd_returns progressing e m = rw (send_fd_loop e) (
      send_loop-returns kernel bounded progressing n answers (encode n ∷ iov) fd (n + 4)
        (length-frame e) m)
