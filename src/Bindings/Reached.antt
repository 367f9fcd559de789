-- ===== src/Bindings/Reached.antt =====
-- libswc/bindings.c: what holds after any sequence of events, and what a release does.
use neuswc.Prelude.{
  ℕ, suc, ◌+◌, ◌^◌, ◌<◌, ◌≡◌, refl, ap, subst, length, List, [], ◌∷◌, some, arith, if_intro,
}
use neuswc.Bindings.Entries.{key, button, other_type}
use neuswc.Bindings.Handle.{key_down, button_down, remove_entry}
use neuswc.Bindings.Few.{key_down-IsFew, button_down-IsFew, remove_entry-held}
use neuswc.Bindings.Pairing.{holding, key_down-IsFit, button_down-IsFit}
use neuswc.Bindings.Changes.{remove_entry-IsFit}
use neuswc.Bindings.Releases.{key_up-Released, button_up-Released, release_all-Released}
use neuswc.Bindings.Session.{
  Bindings, is_batched, swc_binding_batch_add, bindings_initialize, Event, key_pressed,
  key_released, keyboard_reset, button_pressed, button_released, added, removed, batch_added,
  batch_discarded, batch_committed, step, run,
}
use neuswc.Bindings.Sound.{
  IsSound, nothing_lost, Continues, sound, link_entry-IsSound, link_all-IsSound, with_batch-IsSound,
  with_keys-IsSound, with_buttons-IsSound,
}

step-Continues :
    (k : ℕ) (e : Event) (s : Bindings) → k + 1 < 2 ^ 32 → IsSound k s → Continues (suc k) (step e s)
unfolding step swc_binding_batch_add
step-Continues k (key_pressed locked m others memory value) s room h =
    let d = key_down locked m others memory value s.keys in
    (
      record s { keys = d },
      (
        refl,
        with_keys-IsSound k s d h
            (key_down-IsFit s.next _ s.keys locked m others memory value
              (λ id. omega (arith, h.few_keys id)) h.keys)
            (λ id.
              omega (arith, h.few_keys id, key_down-IsFew id locked m others memory value s.keys)),
      ),
    )
step-Continues k (key_released value) s room h =
    let (d, (e, (f, few))) = key_up-Released s.next _ s.keys value h.keys in
    (
      record s { keys = d },
      (rw e refl, with_keys-IsSound k s d h f (λ id. omega (arith, few id, h.few_keys id))),
    )
step-Continues k keyboard_reset s room h =
    let (d, (e, (f, few))) =
      release_all-Released s.next _ s.keys.held s.keys h.keys.aimed h.keys.tracked in
    (
      record s { keys = d },
      (rw e refl, with_keys-IsSound k s d h f (λ id. omega (arith, few id, h.few_keys id))),
    )
step-Continues k (button_pressed locked modifiers others memory value) s room h =
    let d = button_down locked modifiers others memory value s.buttons in
    (
      record s { buttons = d },
      (
        refl,
        with_buttons-IsSound k s h.lost d h
            (button_down-IsFit s.next _ s.buttons locked modifiers others memory value
              (λ id. omega (arith, h.few_buttons id)) h.buttons)
            (λ id. omega (
              arith,
              h.few_buttons id,
              button_down-IsFew id locked modifiers others memory value s.buttons,
            )),
      ),
    )
step-Continues k (button_released locked value) s room h =
    let (more, (d, (e, (f, few)))) =
      button_up-Released s.next h.lost s.buttons locked value h.buttons in
    (
      record s { buttons = d },
      (rw e refl, with_buttons-IsSound k s _ d h f (λ id. omega (arith, few id, h.few_buttons id))),
    )
step-Continues k (added memory e) s room h =
    sound k _ (if_intro (IsSound k) memory _ _ (λ _. link_entry-IsSound k e s h) (λ _. h))
step-Continues k (removed key modifiers value) s room h =
    let d = remove_entry modifiers value s.keys in
    (
      record s { keys = d },
      (
        refl,
        with_keys-IsSound k s d h (remove_entry-IsFit s.next _ s.keys modifiers value h.keys) (λ id.
            omega (
              arith,
              h.few_keys id,
              ap (holding id) (remove_entry-held id modifiers value s.keys),
            )),
      ),
    )
step-Continues k (removed button modifiers value) s room h =
    let d = remove_entry modifiers value s.buttons in
    (
      record s { buttons = d },
      (
        refl,
        with_buttons-IsSound k s h.lost d h
            (remove_entry-IsFit s.next _ s.buttons modifiers value h.buttons)
            (λ id. omega (
              arith,
              h.few_buttons id,
              ap (holding id) (remove_entry-held id modifiers value s.buttons),
            )),
      ),
    )
step-Continues k (removed other_type modifiers value) s room h = sound k s h
step-Continues k (batch_added memory e) s room h = sound k _ (
    if_intro (IsSound k) (is_batched e.type) _ _
      (λ _. if_intro (IsSound k) memory _ _ (λ _. with_batch-IsSound k _ s h) (λ _. h)) (λ _. h))
step-Continues k batch_discarded s room h = sound k _ (with_batch-IsSound k [] s h)
step-Continues k batch_committed s room h =
    sound k _ (with_batch-IsSound k [] _ (link_all-IsSound k s.batch s h))

run-Continues :
    (k : ℕ) (es : List Event) (s : Bindings)
    → k + length es < 2 ^ 32
    → IsSound k s
    → Continues (k + length es) (run es s)
unfolding run
run-Continues k [] s room h = (s, (refl, subst (λ n. IsSound n s) (omega arith) h))
run-Continues k (e ∷ es) s room h =
    let (s', (p, h')) = step-Continues k e s (omega arith) h in
    let (t, (q, i)) = run-Continues (suc k) es s' (omega arith) h' in
    (t, (rw p q, subst (λ n. IsSound n t) (omega arith) i))

initial-IsSound : IsSound 0 bindings_initialize
initial-IsSound = record {
  keys = record {
    tracked = record { distinct = tt; below = tt; counted = λ _. omega arith };
    aimed = tt;
  };
  few_keys = λ id. omega arith;
  lost = nothing_lost;
  buttons = record {
    tracked = record { distinct = tt; below = tt; counted = λ _. omega arith };
    aimed = tt;
  };
  few_buttons = λ id. omega arith;
}

-- After any sequence of fewer than 2 ^ 32 events, no release has read through a null pointer or one to a
-- freed entry. Each key entry counts the presses that are held on it and no more, each button entry those
-- at least; so a press that is held on an entry keeps it, and no count is held for an address without an
-- entry. No entry counts more presses than there were events.
pub run_total :
    (es : List Event)
    → length es < 2 ^ 32
    → (s : Bindings) × ((run es bindings_initialize ≡ some s) × IsSound (length es) s)
run_total es room =
    subst (λ n. Continues n (run es bindings_initialize)) (omega arith)
      (run-Continues 0 es bindings_initialize (omega arith) initial-IsSound)
