-- ===== src/Bindings/Tests.antt =====
-- The theorems about bindings at concrete states.
use neuswc.Prelude.{◌+◌, ◌≡◌, refl, true, false, List, [], ◌∷◌, some, none, arith}
use neuswc.Bindings.Entries.{Binding, key, button, call}
use neuswc.Bindings.Handle.{Device, Keymap, Others, key_up, button_up}
use neuswc.Bindings.Counts.{presses_at}
use neuswc.Bindings.Pairing.{holding, IsFit}
use neuswc.Bindings.Session.{
  Bindings, Event, added, removed, key_pressed, key_released, button_pressed, button_released,
  bindings_initialize, run,
}
use neuswc.Bindings.Sound.{IsSound, nothing_lost}
use neuswc.Bindings.Reached.{run_total}
use neuswc.Bindings.Heard.{taken, key_up_heard, button_up_locked}

abbrev alone : Others
alone = record { earlier = false; later = false }

abbrev layout : Keymap
layout = record { present = true; keysym = 113; level0 = none; modifiers = 4 }

-- A key and a button are bound, both are pressed, the key's entry is removed while it is held, the
-- session locks, and both are released.
abbrev busy : List Event
busy =
    added true (record { type = key; modifiers = 4; value = 113; client = 7 })
    ∷ added true (record { type = button; modifiers = 4; value = 272; client = 8 })
    ∷ key_pressed false layout alone true 16
    ∷ button_pressed false 4 alone true 272
    ∷ removed key 4 113
    ∷ button_released true 272
    ∷ key_released 16
    ∷ []

run_total_example : (s : Bindings) × ((run busy bindings_initialize ≡ some s) × IsSound 7 s)
run_total_example = run_total busy (omega arith)

abbrev quit : Binding
quit = record { id = 1; presses = 1; removed = false; value = 113; modifiers = 4; client = 7 }

-- The entry is pressed with the key or button 16.
abbrev pressed : Device
pressed = record { entries = quit ∷ []; held = taken 16 1 ∷ []; calls = call quit true ∷ [] }

pressed-IsFit : IsFit 2 nothing_lost pressed
pressed-IsFit = record {
  tracked = record {
    distinct = (refl, tt);
    below = (omega arith, tt);
    counted = λ id. ground arith;
  };
  aimed = ((λ _. (1, refl)), tt);
}

key_up_heard_example :
    (d : Device) × ((key_up 16 pressed ≡ some d)
      × ((d.calls ≡ call quit false ∷ pressed.calls) × (presses_at d.entries 1 + 1 ≡ quit.presses)))
key_up_heard_example = key_up_heard 2 nothing_lost pressed 16 1 quit pressed-IsFit refl refl refl

button_up_locked_example :
    (d : Device) × ((button_up true 16 pressed ≡ some d)
      × ((d.calls ≡ pressed.calls) × (presses_at d.entries 1 ≡ 1 + holding 1 d.held)))
button_up_locked_example = button_up_locked 2 pressed 16 1 pressed-IsFit refl
