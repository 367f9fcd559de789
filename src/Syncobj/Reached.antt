-- ===== src/Syncobj/Reached.antt =====
-- Every event of libswc/drm_syncobj.c keeps the references right.
use neuswc.Prelude.{ℕ, ◌+◌, ◌<◌, ◌≡◌, refl, subst, inl, inr, Bool, true, false, ◌&&◌, some, arith}
use neuswc.Syncobj.World.{posted, World, complete_point_release, set_refs}
use neuswc.Syncobj.Queue.{Synced}
use neuswc.Syncobj.Life.{Object, kept, gone, import_timeline, destroy_timeline_resource}
use neuswc.Syncobj.Balance.{IsBalanced, recount, timeline_unref-IsBalanced, note-IsBalanced}
use neuswc.Syncobj.QueueBalance.{holds, IsAccounted}
use neuswc.Syncobj.Sound.{IsSound, apply_commit-IsSound}
use neuswc.Syncobj.Moves.{
  complete_point_release-IsBalanced, handle_acquire-IsSound, queue_settle-IsSound,
  handle_pending_destroy-IsSound, handle_held_destroy-IsSound, cache_commit-IsSound,
  set_point-IsAccounted, set_point-IsOpen,
}
use neuswc.Syncobj.Ends.{
  IsLegal, open-cases, finish-IsSound, handle_surface_destroy-IsLegal, destroy_resource-IsLegal,
  get_surface-IsLegal,
}
use neuswc.Syncobj.Session.{
  System, world_of, onto, resources, put, Move, set, apply, cache, settle, acquire, end_buffer,
  end_held, finish, end_surface, Step, move, end_resource, get, complete, import, refuse,
  end_timeline, created, Reach, start, later, IsValid,
}

alive-lt :
    (alive : ℕ → Bool) (s : Synced) (t : ℕ)
    → alive t ≡ true
    → IsAccounted (resources alive) s
    → 0 < s.world.refs t
alive-lt alive s t h b = ground (arith, b.refs_eq t)

Move-IsLegal :
    (alive : ℕ → Bool) (s : Synced) (o : Object)
    → Move alive s o
    → IsSound (resources alive) s
    → IsLegal (resources alive) o
Move-IsLegal alive s o (set timeline hi lo acq h e) (b, v) = subst (IsLegal (resources alive)) e (
  set_point-IsAccounted _ timeline hi lo acq s (alive-lt alive s timeline h b) b,
  inl (set_point-IsOpen timeline hi lo acq s v),
)
Move-IsLegal alive s o (apply a attached replaced e) v =
    let (b, v') = apply_commit-IsSound (resources alive) a attached replaced s v in
    subst (IsLegal (resources alive)) e (b, inl v')
Move-IsLegal alive s o (cache attached e) v =
    let (b, v') = cache_commit-IsSound (resources alive) attached s v in
    subst (IsLegal (resources alive)) e (b, inl v')
Move-IsLegal alive s o (settle readable gpu now e) v =
    let (b, v') = queue_settle-IsSound (resources alive) readable gpu now s v in
    subst (IsLegal (resources alive)) e (b, inl v')
Move-IsLegal alive s o (acquire gpu now wait p m e) v =
    let (b, v') = handle_acquire-IsSound (resources alive) gpu now wait p s v in
    subst (IsLegal (resources alive)) e (b, inl v')
Move-IsLegal alive s o (end_buffer p e) v =
    let (b, v') = handle_pending_destroy-IsSound (resources alive) p s v in
    subst (IsLegal (resources alive)) e (b, inl v')
Move-IsLegal alive s o (end_held e) v =
    let (b, v') = handle_held_destroy-IsSound (resources alive) s v in
    subst (IsLegal (resources alive)) e (b, inl v')
Move-IsLegal alive s o (finish gpu e) v =
    let (b, v') = finish-IsSound (resources alive) gpu s v in
    subst (IsLegal (resources alive)) e (b, inl v')
Move-IsLegal alive s o (end_surface gpu e) v =
    subst (IsLegal (resources alive)) e (handle_surface_destroy-IsLegal (resources alive) gpu s v)

-- What happens to the world alone.
onto-IsLegal :
    (others d : ℕ → ℕ) (f : World → World) (o : Object)
    → ((k : ℕ → ℕ)
        → IsBalanced (λ t. others t + k t) (world_of o)
        → IsBalanced (λ t. d t + k t) (f (world_of o)))
    → IsLegal others o
    → IsLegal d (onto f o)
onto-IsLegal others d f (gone w) h b =
    recount (λ t. d t + 0) d (f w) (λ t. omega arith)
      (h (λ t. 0) (recount others (λ t. others t + 0) w (λ t. omega arith) b))
onto-IsLegal others d f (kept s) h (b, inl o) = (
  h (λ t. holds t s) b,
  inl (record { surface = o.surface; bounded = o.bounded; unowed = o.unowed }),
)
onto-IsLegal others d f (kept s) h (b, inr c) = (
  h (λ t. holds t s) b,
  inr (record { no_surface = c.no_surface; empty = c.empty; unowed = c.unowed }),
)

import-IsBalanced :
    (alive : ℕ → Bool) (t : ℕ) (w : World) (k : ℕ → ℕ)
    → w.refs t ≡ 0
    → IsBalanced (λ u. resources alive u + k u) w
    → IsBalanced (λ u. resources (put t true alive) u + k u) (import_timeline true true true t w)
unfolding import_timeline
import-IsBalanced alive t w k h b = record {
  refs_eq = λ u. ground (arith, b.refs_eq u, b.refs_eq t, h);
  unfaulty = b.unfaulty;
}

refuse-IsBalanced :
    (others : ℕ → ℕ) (imported allocated granted : Bool) (t : ℕ) (w : World)
    → imported && (allocated && granted) ≡ false
    → w.refs t ≡ 0
    → IsBalanced others w
    → IsBalanced others (import_timeline imported allocated granted t w)
unfolding import_timeline
refuse-IsBalanced others false allocated granted t w h z b = note-IsBalanced others posted w b
refuse-IsBalanced others true false granted t w h z b = note-IsBalanced others posted w b
refuse-IsBalanced others true true false t w h z b = note-IsBalanced others posted _ (
    timeline_unref-IsBalanced others (some t) (record w { refs = set_refs t 1 w.refs })
      (record {
        refs_eq = λ u. ground (arith, b.refs_eq u, b.refs_eq t, z);
        unfaulty = b.unfaulty;
      }))
refuse-IsBalanced others true true true t w h z b = cc

end-IsBalanced :
    (alive : ℕ → Bool) (t : ℕ) (w : World) (k : ℕ → ℕ)
    → alive t ≡ true
    → IsBalanced (λ u. resources alive u + k u) w
    → IsBalanced (λ u. resources (put t false alive) u + k u) (destroy_timeline_resource t w)
unfolding destroy_timeline_resource
end-IsBalanced alive t w k h b =
    timeline_unref-IsBalanced _ (some t) w (recount _ _ w (λ u. ground (arith, h)) b)

Step-IsValid : {a b : System} → Step a b → IsValid a → IsValid b
Step-IsValid {a} (move s o e h m f) v =
    subst IsValid f
      (Move-IsLegal a.alive s o m (open-cases _ s (subst (IsLegal (resources a.alive)) e v) h))
Step-IsValid {a} (end_resource s e f) v =
    subst IsValid f (destroy_resource-IsLegal _ s (subst (IsLegal (resources a.alive)) e v))
Step-IsValid {a} (get granted h f) v = subst IsValid f (get_surface-IsLegal _ granted a.object h v)
Step-IsValid {a} (complete readable broken i f) v = subst IsValid f (
    onto-IsLegal _ _ (complete_point_release readable broken i) a.object
      (λ k b. complete_point_release-IsBalanced _ readable broken i _ b) v)
Step-IsValid {a} (import t h f) v = subst IsValid f (
    onto-IsLegal _ _ (import_timeline true true true t) a.object
      (λ k b. import-IsBalanced a.alive t _ k h b) v)
Step-IsValid {a} (refuse imported allocated granted t h z f) v = subst IsValid f (
    onto-IsLegal _ _ (import_timeline imported allocated granted t) a.object
      (λ k b. refuse-IsBalanced _ imported allocated granted t _ h z b) v)
Step-IsValid {a} (end_timeline t h f) v = subst IsValid f (
    onto-IsLegal _ _ (destroy_timeline_resource t) a.object
      (λ k b. end-IsBalanced a.alive t _ k h b) v)

created-IsValid : IsValid created
created-IsValid = record { refs_eq = λ t. omega arith; unfaulty = refl }

valid : {a : System} → Reach a → IsValid a
valid start = created-IsValid
valid (later r st) = Step-IsValid st (valid r)

IsLegal-unfaulty : (others : ℕ → ℕ) (o : Object) → IsLegal others o → (world_of o).faulty ≡ false
IsLegal-unfaulty others (gone w) b = b.unfaulty
IsLegal-unfaulty others (kept s) (b, c) = b.unfaulty

-- After any sequence of events the references of each timeline are those that its resource, the
-- points of the object of the surface and the deferred releases hold; so no timeline is used after it
-- was freed, and none is left over. While the surface is there, at most two buffers wait; when it is
-- gone, none does, and no release point is owed.
pub Reach-IsValid : {a : System} → Reach a → IsValid a × ((world_of a.object).faulty ≡ false)
Reach-IsValid {a} r = (valid r, IsLegal-unfaulty (resources a.alive) a.object (valid r))
