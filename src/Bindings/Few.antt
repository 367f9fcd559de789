-- ===== src/Bindings/Few.antt =====
-- libswc/bindings.c: a press adds one to what is held on an entry at most.
use neuswc.Prelude.{
  ℕ, ◌+◌, ◌≤◌, ◌≡◌, refl, Bool, not, ◌&&◌, ◌||◌, Option, none, some, arith, if_intro, if◌then◌else◌,
}
use neuswc.Bindings.Entries.{Binding}
use neuswc.Bindings.Handle.{
  Taker, nobody, bindings, another, Device, handle_press, press_key, press_button, Keymap, Others,
  hold, offer, is_held, key_down, button_down, binding_allowed_while_locked, remove_found,
  remove_entry,
}
use neuswc.Bindings.Entries.{first_entry, is_exactly}
use neuswc.Bindings.Pairing.{owned, holding, holding-append}

module _ (id : ℕ) where
  owned_few : (taker : Taker) (p : Option ℕ) → owned id taker p ≤ 1
  owned_few nobody p = omega arith
  owned_few another p = omega arith
  owned_few bindings none = omega arith
  owned_few bindings (some t) = ground arith

  abbrev IsFew : Device → Device → Type 0
  IsFew d t = holding id t.held ≤ 1 + holding id d.held

  hold-IsFew :
      (value : ℕ) (taker : Taker) (p : Option ℕ) (d : Device) → IsFew d (hold value taker p d)
  hold-IsFew value taker p d = omega (
    arith,
    holding-append id d.held (record { value = value; handler = taker; target = p }),
    owned_few taker p,
  )

  offer-IsFew :
      (value : ℕ) (later : Bool) (o : Option Binding) (d : Device)
      → IsFew d (offer value later (handle_press o d))
  offer-IsFew value later none d = hold-IsFew value (if later then another else nobody) none d
  offer-IsFew value later (some b) d = hold-IsFew value bindings (some b.id) d

  pub key_down-IsFew :
      (locked : Bool) (k : Keymap) (others : Others) (memory : Bool) (value : ℕ) (d : Device)
      → IsFew d (key_down locked k others memory value d)
  unfolding key_down press_key
  key_down-IsFew locked k others memory value d =
      if_intro (IsFew d) (is_held value d.held || not memory) _ _ (λ _. omega arith)
        (λ _.
          if_intro (IsFew d) others.earlier _ _ (λ _. hold-IsFew value another none d)
            (λ _.
              if_intro (λ r. IsFew d (offer value others.later r))
                (locked && not (binding_allowed_while_locked k.keysym)) _ _
                (λ _. offer-IsFew value others.later none d)
                (λ _. offer-IsFew value others.later _ d)))

  pub button_down-IsFew :
      (locked : Bool) (modifiers : ℕ) (others : Others) (memory : Bool) (value : ℕ) (d : Device)
      → IsFew d (button_down locked modifiers others memory value d)
  unfolding button_down press_button
  button_down-IsFew locked modifiers others memory value d =
      if_intro (IsFew d) (not memory) _ _ (λ _. omega arith)
        (λ _.
          if_intro (IsFew d) others.earlier _ _ (λ _. hold-IsFew value another none d)
            (λ _.
              if_intro (λ r. IsFew d (offer value others.later r)) locked _ _
                (λ _. offer-IsFew value others.later none d)
                (λ _. offer-IsFew value others.later _ d)))

  found-held : (o : Option Binding) (d : Device) → (remove_found o d).held ≡ d.held
  found-held none d = refl
  found-held (some b) d = refl

  pub remove_entry-held :
      (modifiers value : ℕ) (d : Device) → (remove_entry modifiers value d).held ≡ d.held
  unfolding remove_entry
  remove_entry-held modifiers value d =
      found-held (first_entry (is_exactly modifiers value) d.entries) d
