-- ===== src/Bindings/Changes.antt =====
-- libswc/bindings.c: entries that are added and removed keep what is held.
use neuswc.Prelude.{ℕ, suc, ◌+◌, ◌≡◌, refl, ap, Option, none, some, arith, ◌==◌, if_intro}
use neuswc.Bindings.Entries.{Binding, first_entry, at_address, is_exactly}
use neuswc.Bindings.Handle.{Device, remove_found, remove_entry, add_entry}
use neuswc.Bindings.Counts.{IsTracked, at-first_entry}
use neuswc.Bindings.Tracked.{
  IsTracked-mark, IsTracked-append, IsTracked-unlink, IsTracked-weaken, presses-counted,
}
use neuswc.Bindings.Pairing.{holding, IsFit}

remove_found-IsFit :
    (n : ℕ) (lost : ℕ → ℕ) (d : Device) (o : Option Binding)
    → ((b : Binding) → o ≡ some b → at_address d.entries b.id ≡ some b)
    → IsFit n lost d
    → IsFit n lost (remove_found o d)
remove_found-IsFit n lost d none h f = f
remove_found-IsFit n lost d (some b) h f =
    let c : ℕ → ℕ = λ j. holding j d.held + lost j in
    let counted = presses-counted n d.entries c b.id b f.tracked (h b refl) in
    record {
      tracked =
          if_intro (λ bs. IsTracked n bs c) (b.presses == 0) _ _
            (λ z.
              IsTracked-unlink n d.entries c c b.id f.tracked
                (λ j. ground (arith, counted, ap c {x = b.id} {y = j})))
            (λ _. IsTracked-mark n d.entries c b f.tracked (h b refl));
      aimed = f.aimed;
    }

pub remove_entry-IsFit :
    (n : ℕ) (lost : ℕ → ℕ) (d : Device) (modifiers value : ℕ)
    → IsFit n lost d
    → IsFit n lost (remove_entry modifiers value d)
unfolding remove_entry
remove_entry-IsFit n lost d modifiers value f =
    remove_found-IsFit n lost d (first_entry (is_exactly modifiers value) d.entries)
      (λ b. at-first_entry _ d.entries b f.tracked.distinct) f

pub add_entry-IsFit :
    (n : ℕ) (lost : ℕ → ℕ) (d : Device) (modifiers value client : ℕ)
    → IsFit n lost d
    → IsFit (suc n) lost (add_entry n modifiers value client d)
unfolding add_entry
add_entry-IsFit n lost d modifiers value client f = record {
  tracked = IsTracked-append n d.entries _ modifiers value client f.tracked;
  aimed = f.aimed;
}

pub IsFit-weaken : (n : ℕ) (lost : ℕ → ℕ) (d : Device) → IsFit n lost d → IsFit (suc n) lost d
IsFit-weaken n lost d f = record {
  tracked = IsTracked-weaken n d.entries _ f.tracked;
  aimed = f.aimed;
}
