-- ===== src/Bindings/Heard.antt =====
-- libswc/bindings.c: whether a handler hears of the release of what it was pressed with.
use neuswc.Prelude.{ℕ, ◌+◌, ◌≡◌, refl, sym, subst, ◌∙◌, true, false, ◌∷◌, some, arith}
use mathlib.Core.Option.{some-injective}
use neuswc.Bindings.Entries.{Binding, at_address, call}
use neuswc.Bindings.Handle.{
  bindings, Held, Device, first_held, forget, drop_press, tell, handle_release, release_button,
  let_go, key_up, button_up,
}
use neuswc.Bindings.Counts.{presses_at}
use neuswc.Bindings.Tracked.{presses-counted}
use neuswc.Bindings.Pairing.{holding, IsFit}
use neuswc.Bindings.Releases.{key_up-Released, holding-let_go}
use neuswc.Bindings.Sound.{nothing_lost}

-- A press that the entry at an address has taken.
abbrev pub taken : (value : ℕ) → (id : ℕ) → Held
taken value id = record { value = value; handler = bindings; target = some id }

key_up-taken :
    (d : Device) (value id : ℕ) (b : Binding)
    → first_held value d.held ≡ some (taken value id)
    → at_address d.entries id ≡ some b
    → key_up value d ≡ some (forget value (drop_press b (tell b false d)))
unfolding key_up handle_release
key_up-taken d value id b e a = rw (e, a) refl

own_press :
    (value id : ℕ) (d : Device)
    → first_held value d.held ≡ some (taken value id)
    → holding id d.held ≡ 1 + holding id (let_go value d.held)
own_press value id d e = ground (arith, holding-let_go id value d.held (taken value id) e)

-- A key that is released while its entry is not removed: the handler is called with the release, whether
-- the session is locked or not, and the entry has one press less.
pub key_up_heard :
    (n : ℕ) (lost : ℕ → ℕ) (d : Device) (value id : ℕ) (b : Binding)
    → IsFit n lost d
    → first_held value d.held ≡ some (taken value id)
    → at_address d.entries id ≡ some b
    → b.removed ≡ false
    → (d' : Device) × ((key_up value d ≡ some d')
        × ((d'.calls ≡ call b false ∷ d.calls) × (presses_at d'.entries id + 1 ≡ b.presses)))
key_up_heard n lost d value id b f e a r =
    let (d', (p, (f', few))) = key_up-Released n lost d value f in
    let after = forget value (drop_press b (tell b false d)) in
    let same = some-injective d' after (sym p ∙ key_up-taken d value id b e a) in
    let fit : IsFit n lost after = subst (IsFit n lost) same f' in
    let before = presses-counted n d.entries _ id b f.tracked a in
    (
      after,
      (
        key_up-taken d value id b e a,
        (rw r refl, omega (arith, fit.tracked.counted id, before, own_press value id d e)),
      ),
    )

-- A button that is released while the session is locked, on an entry that has counted its presses right:
-- the handler is not called, and the entry counts a press more than are held on it, though it is still
-- linked.
pub button_up_locked :
    (n : ℕ) (d : Device) (value id : ℕ)
    → IsFit n nothing_lost d
    → first_held value d.held ≡ some (taken value id)
    → (d' : Device) × ((button_up true value d ≡ some d')
        × ((d'.calls ≡ d.calls) × (presses_at d'.entries id ≡ 1 + holding id d'.held)))
unfolding button_up release_button
button_up_locked n d value id f e = (
  forget value d,
  (rw e refl, (refl, omega (arith, f.tracked.counted id, own_press value id d e))),
)
