-- ===== src/View/Tests.antt =====
-- The theorems about views at concrete states.
use neuswc.Prelude.{
  ◌+◌, ◌%◌, ◌^◌, ◌<◌, ℕ, ◌≡◌, ◌↔◌, refl, true, false, List, [], ◌∷◌, some, get_or, arith,
}
use neuswc.View.Geometry.{word, Rectangle, axis_overlap, rectangle_overlap}
use neuswc.View.Overlap.{AreOverlapping, rectangle_overlap_iff, overlap_left}
use neuswc.View.State.{
  View, Screen, no_screens, view_update_screens, view_attach, view_finalize, referenced,
}
use neuswc.View.Screens.{is_on, IsHeard, view_update_screens_exact}
use neuswc.View.Buffers.{IsHeld, taken, given, view_attach-IsHeld}

abbrev monitor : Rectangle
monitor = record { x = 0; y = 0; width = 800; height = 600 }

abbrev window : Rectangle
window = record { x = 700; y = 500; width = 200; height = 200 }

-- 100 pixels to the left of 0, and 50 wide.
abbrev outside : Rectangle
outside = record { x = 4294967196; y = 10; width = 50; height = 50 }

rectangle_overlap_iff_example :
    (rectangle_overlap window monitor ≡ true) ↔ AreOverlapping window monitor
rectangle_overlap_iff_example =
    rectangle_overlap_iff window monitor (omega arith, omega arith, omega arith, omega arith)

rows : axis_overlap 10 50 0 600 ≡ true
unfolding axis_overlap
rows = refl

overlap_left_example :
    (rectangle_overlap outside monitor ≡ true)
    × ((outside.x + 2 ^ 31) % word + outside.width < (monitor.x + 2 ^ 31) % word)
overlap_left_example =
    overlap_left outside monitor (omega arith) (omega arith) (omega arith) (omega arith)
      (omega arith) rows

abbrev screens : List Screen
screens =
    record { id = 0; geometry = monitor }
    ∷ record { id = 1; geometry = record { x = 800; y = 0; width = 800; height = 600 } }
    ∷ []

abbrev shown : View
shown = record {
  geometry = window;
  buffer = some 3;
  screens = no_screens;
  handlers = 1 ∷ [];
  events = referenced 3 ∷ [];
}

view_update_screens_exact_example :
    ((i : ℕ) → get_or (view_update_screens screens shown).screens i false ≡ is_on window i screens)
    × IsHeard (view_update_screens screens shown).screens shown (view_update_screens screens shown)
view_update_screens_exact_example =
    view_update_screens_exact screens shown (omega arith, (omega arith, tt)) refl

shown-IsHeld : IsHeld shown
shown-IsHeld b = omega arith

view_attach-IsHeld_example :
    IsHeld (view_attach true (some 3) shown)
    × ((b : ℕ)
        → taken b (view_finalize (view_attach true (some 3) shown)).events
          ≡ given b (view_finalize (view_attach true (some 3) shown)).events)
view_attach-IsHeld_example = view_attach-IsHeld true (some 3) shown shown-IsHeld
