-- ===== src/Bindings/Sound.antt =====
-- libswc/bindings.c: the keys and the buttons together, and what leaves them sound.
use neuswc.Prelude.{ℕ, suc, ◌+◌, ◌≤◌, ◌≡◌, refl, List, [], ◌∷◌, Option, some, arith}
use neuswc.Bindings.Entries.{key, button, other_type}
use neuswc.Bindings.Handle.{Device, add_entry}
use neuswc.Bindings.Pairing.{holding, IsFit}
use neuswc.Bindings.Changes.{add_entry-IsFit, IsFit-weaken}
use neuswc.Bindings.Session.{Entry, Bindings, link_entry, link_all}

abbrev pub nothing_lost : ℕ → ℕ
nothing_lost _ = 0

-- Of keys no press is lost; of buttons, some may be. No entry has more than `k` presses that are held or
-- lost.
pub record IsSound (k : ℕ) (s : Bindings) : Type 0 where
  pub keys : IsFit s.next nothing_lost s.keys
  pub few_keys : (id : ℕ) → holding id s.keys.held + 0 ≤ k
  pub lost : ℕ → ℕ
  pub buttons : IsFit s.next lost s.buttons
  pub few_buttons : (id : ℕ) → holding id s.buttons.held + lost id ≤ k

abbrev pub Continues : ℕ → Option Bindings → Type 0
Continues k r = (s : Bindings) × ((r ≡ some s) × IsSound k s)

-- An event that presses nothing.
pub sound : (k : ℕ) (s : Bindings) → IsSound k s → Continues (suc k) (some s)
sound k s h = (
  s,
  (
    refl,
    record {
      keys = h.keys;
      few_keys = λ id. omega (arith, h.few_keys id);
      lost = h.lost;
      buttons = h.buttons;
      few_buttons = λ id. omega (arith, h.few_buttons id);
    },
  ),
)

pub link_entry-IsSound :
    (k : ℕ) (e : Entry) (s : Bindings) → IsSound k s → IsSound k (link_entry e s)
unfolding link_entry add_entry
link_entry-IsSound k e s h =
    elim e.type as (λ t. IsSound k (link_entry (record e { type = t }) s)) [
      | key ↦ record {
        keys = add_entry-IsFit s.next _ s.keys e.modifiers e.value e.client h.keys;
        few_keys = h.few_keys;
        lost = h.lost;
        buttons = IsFit-weaken s.next _ s.buttons h.buttons;
        few_buttons = h.few_buttons;
      }
      | button ↦ record {
        keys = IsFit-weaken s.next _ s.keys h.keys;
        few_keys = h.few_keys;
        lost = h.lost;
        buttons = add_entry-IsFit s.next _ s.buttons e.modifiers e.value e.client h.buttons;
        few_buttons = h.few_buttons;
      }
      | other_type ↦ h
    ]

pub link_all-IsSound :
    (k : ℕ) (es : List Entry) (s : Bindings) → IsSound k s → IsSound k (link_all es s)
unfolding link_all
link_all-IsSound k [] s h = h
link_all-IsSound k (e ∷ es) s h =
    link_all-IsSound k es (link_entry e s) (link_entry-IsSound k e s h)

-- The batch does not matter.
pub with_batch-IsSound :
    (k : ℕ) (es : List Entry) (s : Bindings) → IsSound k s → IsSound k (record s { batch = es })
with_batch-IsSound k es s h = record {
  keys = h.keys;
  few_keys = h.few_keys;
  lost = h.lost;
  buttons = h.buttons;
  few_buttons = h.few_buttons;
}

-- What an event makes of the keys, with the buttons as they are, and of the buttons.
pub with_keys-IsSound :
    (k : ℕ) (s : Bindings) (d : Device)
    → IsSound k s
    → IsFit s.next nothing_lost d
    → ((id : ℕ) → holding id d.held ≤ suc k)
    → IsSound (suc k) (record s { keys = d })
with_keys-IsSound k s d h f few = record {
  keys = f;
  few_keys = λ id. omega (arith, few id);
  lost = h.lost;
  buttons = h.buttons;
  few_buttons = λ id. omega (arith, h.few_buttons id);
}

pub with_buttons-IsSound :
    (k : ℕ) (s : Bindings) (lost : ℕ → ℕ) (d : Device)
    → IsSound k s
    → IsFit s.next lost d
    → ((id : ℕ) → holding id d.held + lost id ≤ suc k)
    → IsSound (suc k) (record s { buttons = d })
with_buttons-IsSound k s lost d h f few = record {
  keys = h.keys;
  few_keys = λ id. omega (arith, h.few_keys id);
  lost = lost;
  buttons = f;
  few_buttons = few;
}
