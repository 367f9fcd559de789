-- ===== src/View/Buffers.antt =====
-- The references to buffers that a view of libswc/view.c takes and gives back.
use neuswc.Prelude.{
  ℕ, ◌+◌, ◌≡◌, refl, Bool, true, false, List, [], ◌∷◌, ◌++◌, Option, none, some, if◌then◌else◌,
  ◌==◌, arith,
}
use neuswc.View.State.{
  Event, attached, moved, resized, screens_changed, frame, referenced, unreferenced, View,
  say_reference, say_unreference, view_attach, view_finalize,
}

abbrev pub one : ℕ → ℕ → ℕ
one b c = if c == b then 1 else 0

abbrev pub taken : ℕ → List Event → ℕ
taken b [] = 0
taken b (referenced c ∷ es) = one b c + taken b es
taken b (unreferenced c ∷ es) = taken b es
taken b (attached ∷ es) = taken b es
taken b (moved ∷ es) = taken b es
taken b (resized w h ∷ es) = taken b es
taken b (screens_changed m n ∷ es) = taken b es
taken b (frame t ∷ es) = taken b es

abbrev pub given : ℕ → List Event → ℕ
given b [] = 0
given b (referenced c ∷ es) = given b es
given b (unreferenced c ∷ es) = one b c + given b es
given b (attached ∷ es) = given b es
given b (moved ∷ es) = given b es
given b (resized w h ∷ es) = given b es
given b (screens_changed m n ∷ es) = given b es
given b (frame t ∷ es) = given b es

abbrev pub holds : ℕ → Option ℕ → ℕ
holds b none = 0
holds b (some c) = one b c

-- The references that were taken and not given back are the one of the buffer that the view has.
abbrev pub IsHeld : View → Type 0
IsHeld v = (b : ℕ) → taken b v.events ≡ given b v.events + holds b v.buffer

taken-append : (b : ℕ) (es fs : List Event) → taken b (es ++ fs) ≡ taken b es + taken b fs
taken-append b [] fs = omega arith
taken-append b (referenced c ∷ es) fs = omega (arith, taken-append b es fs)
taken-append b (unreferenced c ∷ es) fs = taken-append b es fs
taken-append b (attached ∷ es) fs = taken-append b es fs
taken-append b (moved ∷ es) fs = taken-append b es fs
taken-append b (resized w h ∷ es) fs = taken-append b es fs
taken-append b (screens_changed m n ∷ es) fs = taken-append b es fs
taken-append b (frame t ∷ es) fs = taken-append b es fs

given-append : (b : ℕ) (es fs : List Event) → given b (es ++ fs) ≡ given b es + given b fs
given-append b [] fs = omega arith
given-append b (referenced c ∷ es) fs = given-append b es fs
given-append b (unreferenced c ∷ es) fs = omega (arith, given-append b es fs)
given-append b (attached ∷ es) fs = given-append b es fs
given-append b (moved ∷ es) fs = given-append b es fs
given-append b (resized w h ∷ es) fs = given-append b es fs
given-append b (screens_changed m n ∷ es) fs = given-append b es fs
given-append b (frame t ∷ es) fs = given-append b es fs

reference-taken :
    (b : ℕ) (o : Option ℕ) (v : View)
    → (taken b (say_reference o v).events ≡ taken b v.events + holds b o)
      × (given b (say_reference o v).events ≡ given b v.events)
reference-taken b none v = (omega arith, refl)
reference-taken b (some c) v = (
  omega (arith, taken-append b v.events (referenced c ∷ [])),
  omega (arith, given-append b v.events (referenced c ∷ [])),
)

unreference-given :
    (b : ℕ) (o : Option ℕ) (v : View)
    → (taken b (say_unreference o v).events ≡ taken b v.events)
      × (given b (say_unreference o v).events ≡ given b v.events + holds b o)
unreference-given b none v = (refl, omega arith)
unreference-given b (some c) v = (
  omega (arith, taken-append b v.events (unreferenced c ∷ [])),
  omega (arith, given-append b v.events (unreferenced c ∷ [])),
)

attach-IsHeld :
    (accepted : Bool) (buffer : Option ℕ) (v : View)
    → IsHeld v
    → IsHeld (view_attach accepted buffer v)
unfolding view_attach
attach-IsHeld false buffer v h = h
attach-IsHeld true buffer v h = λ b.
    let more : View = say_reference buffer v in
    let less : View = say_unreference v.buffer more in
    let (t1, g1) = reference-taken b buffer v in
    let (t2, g2) = unreference-given b v.buffer more in
    omega (
      arith,
      h b,
      t1,
      g1,
      t2,
      g2,
      taken-append b less.events (attached ∷ []),
      given-append b less.events (attached ∷ []),
    )

finalize-given :
    (v : View)
    → IsHeld v
    → (b : ℕ) → taken b (view_finalize v).events ≡ given b (view_finalize v).events
unfolding view_finalize
finalize-given v h b =
    let (t, g) = unreference-given b v.buffer (record v { handlers = [] }) in
    omega (arith, h b, t, g)

-- A view that holds one reference to its buffer, and no other, still does after `view_attach`, also when the same buffer is attached again
-- and when it refuses a buffer; and when it ends it has given back all that it took.
pub view_attach-IsHeld :
    (accepted : Bool) (buffer : Option ℕ) (v : View)
    → IsHeld v
    → IsHeld (view_attach accepted buffer v)
      × ((b : ℕ)
          → taken b (view_finalize (view_attach accepted buffer v)).events
            ≡ given b (view_finalize (view_attach accepted buffer v)).events)
view_attach-IsHeld accepted buffer v h =
    let kept = attach-IsHeld accepted buffer v h in
    (kept, finalize-given (view_attach accepted buffer v) kept)
