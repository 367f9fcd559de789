-- ===== src/Surface/Frames.antt =====
-- libswc/surface.c, lines 257 to 270: the order of the callbacks of frames.
use neuswc.Prelude.{◌≡◌, refl, true, ◌++◌}
use neuswc.Surface.State.{Regions, State, Pending}
use neuswc.Surface.Session.{handle_frame}
use neuswc.Surface.Cache.{merged}
use neuswc.Surface.Commit.{assigned}

-- If two commits with callbacks are applied one after the other before a frame, the callbacks of the
-- second one are done before those of the first; if the first one was cached and the second one added to
-- it, they are done after those of the first, though still before those of earlier commits.
pub handle_frame_order :
    {R : Type 0} (regions : Regions R) (first second : Pending R) (s : State R)
    → first.commit.frame ≡ true
    → second.commit.frame ≡ true
    → ((handle_frame (assigned regions second (assigned regions first s))).0
        ≡ second.state.frame_callbacks ++ (first.state.frame_callbacks ++ s.frame_callbacks))
      × ((handle_frame (assigned regions (merged regions second first) s)).0
          ≡ (first.state.frame_callbacks ++ second.state.frame_callbacks) ++ s.frame_callbacks)
unfolding assigned merged
handle_frame_order regions first second s f g = (rw (f, g) refl, rw f refl)
