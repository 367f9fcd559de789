-- ===== src/Launch/Received.antt =====
-- launch/protocol.c: what send_fd puts on a stream, receive_fd gets back, however it is cut up.
use neuswc.Prelude.{
  ℕ, zero, suc, ◌+◌, ◌-◌, ◌≤◌, ◌<◌, ◌≡◌, refl, ap, false, List, [], ◌∷◌, length, take, drop,
  length-drop, take-add, drop-add, arith, ◌==◌,
}
use neuswc.Launch.Message.{Bytes, Kernel, IsBounded, IsProgressing, concat}
use neuswc.Launch.Size.{sum}
use neuswc.Launch.Receive.{
  Arrival, retried, timed_out, broken, arrived, Read, read, least, receive_bytes, scatter,
}

-- The rounds that read something, up to the first that fails.
abbrev pub reads : List Arrival → ℕ
reads [] = 0
reads (retried ∷ arrivals) = reads arrivals
reads (timed_out ∷ arrivals) = 0
reads (broken _ ∷ arrivals) = 0
reads (arrived _ ∷ arrivals) = suc (reads arrivals)

-- `r` has read `a` and `size` bytes of the wire, in at most as many rounds.
abbrev pub Reads {ℓ} : {A : Type ℓ} → Read A → List Arrival → Bytes → A → ℕ → Type ℓ
Reads r arrivals bytes a size =
    (left : List Arrival) × ((r ≡ read a left (drop size bytes))
      × (reads arrivals ≤ reads left + size))

pub positive : (n : ℕ) → 0 < n → (n == 0) ≡ false
positive n h = ground arith

module _ (kernel : Kernel) (bounded : IsBounded kernel) (progressing : IsProgressing kernel) where
  receive_none :
      (arrivals : List Arrival) (bytes : Bytes)
      → receive_bytes kernel arrivals bytes 0 ≡ read [] arrivals bytes
  unfolding receive_bytes
  receive_none [] bytes = refl
  receive_none (retried ∷ arrivals) bytes = refl
  receive_none (timed_out ∷ arrivals) bytes = refl
  receive_none (broken _ ∷ arrivals) bytes = refl
  receive_none (arrived _ ∷ arrivals) bytes = refl

  pub receive_bytes-Reads :
      (arrivals : List Arrival) (bytes : Bytes) (size : ℕ)
      → size ≤ length bytes
      → size ≤ reads arrivals
      → Reads (receive_bytes kernel arrivals bytes size) arrivals bytes (take size bytes) size
  unfolding receive_bytes
  receive_bytes-Reads arrivals bytes zero h r =
      (arrivals, (receive_none arrivals bytes, omega arith))
  receive_bytes-Reads [] bytes (suc size) h r = absurd (omega arith)
  receive_bytes-Reads (retried ∷ arrivals) bytes (suc size) h r =
      rw (positive (suc size) (omega arith)) (receive_bytes-Reads arrivals bytes (suc size) h r)
  receive_bytes-Reads (timed_out ∷ arrivals) bytes (suc size) h r = absurd (omega arith)
  receive_bytes-Reads (broken _ ∷ arrivals) bytes (suc size) h r = absurd (omega arith)
  receive_bytes-Reads (arrived k ∷ arrivals) bytes (suc size) h r =
      let most = least (suc size) (length bytes) in
      let got = kernel.count k most in
      let some_got : 0 < got = progressing.progress k most (ground arith) in
      let fits : got ≤ suc size = ground (arith, bounded.bounded k most) in
      let (left, (e, l)) =
        receive_bytes-Reads arrivals (drop got bytes) (suc size - got)
          (omega (arith, length-drop got bytes (omega arith))) (omega arith) in
      let all : got + (suc size - got) ≡ suc size = omega arith in
      (
        left,
        (
          rw
              (
                positive (suc size) (omega arith),
                positive got some_got,
                e,
                take-add got (suc size - got) bytes,
                drop-add got (suc size - got) bytes,
                all,
              )
              refl,
          omega arith,
        ),
      )

  pub scatter-Reads :
      (lens : List ℕ) (size : ℕ) (arrivals : List Arrival) (bytes : Bytes)
      → size ≤ sum lens
      → size ≤ length bytes
      → size ≤ reads arrivals
      → (contents : List Bytes) × (Reads
            (scatter kernel lens size arrivals bytes)
            arrivals
            bytes
            contents
            size
          × (concat contents ≡ take size bytes))
  unfolding scatter
  scatter-Reads [] size arrivals bytes c h r =
      let none_left : 0 ≡ size = omega arith in
      (
        [],
        (
          (arrivals, (ap (λ n. read [] arrivals (drop n bytes)) none_left, omega arith)),
          ap (λ n. take n bytes) none_left,
        ),
      )
  scatter-Reads (len ∷ lens) zero arrivals bytes c h r =
      ([], ((arrivals, (refl, omega arith)), refl))
  scatter-Reads (len ∷ lens) (suc size) arrivals bytes c h r =
      let part = least len (suc size) in
      let fits : part ≤ suc size = ground arith in
      let rest : suc size - part ≤ sum lens = ground arith in
      let (left, (e, l)) = receive_bytes-Reads arrivals bytes part (omega arith) (omega arith) in
      let (contents, ((left', (e', l')), w)) =
        scatter-Reads lens (suc size - part) left (drop part bytes) rest
          (omega (arith, length-drop part bytes (omega arith))) (omega arith) in
      let all : part + (suc size - part) ≡ suc size = omega arith in
      (
        take part bytes ∷ contents,
        (
          (
            left',
            (
              rw
                  (
                    positive (suc size) (omega arith),
                    e,
                    e',
                    drop-add part (suc size - part) bytes,
                    all,
                  )
                  refl,
              omega arith,
            ),
          ),
          rw (w, take-add part (suc size - part) bytes, all) refl,
        ),
      )
