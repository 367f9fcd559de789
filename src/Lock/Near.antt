-- ===== src/Lock/Near.antt =====
-- What most events leave alone in the lock of libswc/session_lock.c.
use neuswc.Prelude.{
  ℕ, ◌≡◌, refl, sym, subst, ◌∙◌, ◌⊎◌, inl, inr, Bool, true, false, not, ◌||◌, List, [], ◌∷◌, ◌++◌,
  Option, none, some, if◌then◌else◌, ◌==◌, Bool-cases,
}
use neuswc.Lock.State.{
  Screen, LockSurface, Event, hide_views, restore_views, damage_all, locked, finished, show_surface,
  hide_surface, configure, error, Lock, keyboard_set_focus, focus_chosen, focus_a_lock_surface,
  all_screens_covered, send_locked, maybe_send_locked,
}
use neuswc.Lock.Surfaces.{
  find_surface, screen_of, configure_on, send_configure, ack_found, lock_surface_ack_configure,
  map_surface, commit_on, handle_lock_surface_commit, destroy_lock_surface,
  handle_lock_screen_destroy,
}
use neuswc.Lock.Requests.{is_holder, has_duplicate, new_surface, Found, get_lock_surface}

-- That every screen has shown its cover and there is someone to tell.
abbrev pub MayTell : Lock → Type 0
MayTell l = ((r : ℕ) × (l.resource ≡ some r)) × (all_screens_covered l.generation l.screens ≡ true)

-- Whether the compositor hides its views after what it is told, `hidden` being so before.
abbrev pub hidden_after : Bool → List Event → Bool
hidden_after hidden [] = hidden
hidden_after hidden (hide_views ∷ es) = hidden_after true es
hidden_after hidden (restore_views ∷ es) = hidden_after false es
hidden_after hidden (_ ∷ es) = hidden_after hidden es

pub hidden-append :
    (h : Bool) (es fs : List Event)
    → hidden_after h (es ++ fs) ≡ hidden_after (hidden_after h es) fs
hidden-append h [] fs = refl
hidden-append h (hide_views ∷ es) fs = hidden-append true es fs
hidden-append h (restore_views ∷ es) fs = hidden-append false es fs
hidden-append h (damage_all ∷ es) fs = hidden-append h es fs
hidden-append h (locked r ∷ es) fs = hidden-append h es fs
hidden-append h (finished r ∷ es) fs = hidden-append h es fs
hidden-append h (show_surface r ∷ es) fs = hidden-append h es fs
hidden-append h (hide_surface r ∷ es) fs = hidden-append h es fs
hidden-append h (configure r n w k ∷ es) fs = hidden-append h es fs
hidden-append h (error r e ∷ es) fs = hidden-append h es fs

-- The compositor hides the views, by what the lock has told it, exactly if the flag says so.
abbrev pub IsShown : Lock → Type 0
IsShown l = hidden_after false l.sent ≡ l.views_hidden

-- The lock, its holder, its generation and the screens are the same, and the holder is told of the
-- lock only if it may be.
pub record IsNear (l t : Lock) : Type 0 where
  pub locked_eq : t.locked ≡ l.locked
  pub hidden_eq : t.views_hidden ≡ l.views_hidden
  pub told_views : hidden_after false t.sent ≡ hidden_after false l.sent
  pub resource_eq : t.resource ≡ l.resource
  pub generation_eq : t.generation ≡ l.generation
  pub screens_eq : t.screens ≡ l.screens
  pub told : (t.sent_locked ≡ l.sent_locked) ⊎ ((t.sent_locked ≡ true) × MayTell l)

pub same-IsNear :
    (l : Lock) (surfaces : List LockSurface) (saved focus : Option ℕ) (serial : ℕ)
    (sent : List Event)
    → hidden_after false sent ≡ hidden_after false l.sent
    → IsNear l (record l {
      surfaces = surfaces;
      saved_focus = saved;
      focus = focus;
      serial = serial;
      sent = sent;
    })
same-IsNear l surfaces saved focus serial sent same = record {
  locked_eq = refl;
  hidden_eq = refl;
  told_views = same;
  resource_eq = refl;
  generation_eq = refl;
  screens_eq = refl;
  told = inl refl;
}

may_tell_back : (l t : Lock) → IsNear l t → MayTell t → MayTell l
may_tell_back l t n ((r, e), c) = (
  (r, sym n.resource_eq ∙ e),
  subst (λ (g : ℕ). all_screens_covered g l.screens ≡ true) n.generation_eq
      (subst (λ (ss : List Screen). all_screens_covered t.generation ss ≡ true) n.screens_eq c),
)

pub may_tell_on : (l t : Lock) → IsNear l t → MayTell l → MayTell t
may_tell_on l t n ((r, e), c) = (
  (r, n.resource_eq ∙ e),
  subst (λ (g : ℕ). all_screens_covered g t.screens ≡ true) (sym n.generation_eq)
      (subst (λ (ss : List Screen). all_screens_covered l.generation ss ≡ true) (sym n.screens_eq)
        c),
)

pub trans-IsNear : (l t u : Lock) → IsNear l t → IsNear t u → IsNear l u
trans-IsNear l t u a b = record {
  locked_eq = b.locked_eq ∙ a.locked_eq;
  hidden_eq = b.hidden_eq ∙ a.hidden_eq;
  told_views = b.told_views ∙ a.told_views;
  resource_eq = b.resource_eq ∙ a.resource_eq;
  generation_eq = b.generation_eq ∙ a.generation_eq;
  screens_eq = b.screens_eq ∙ a.screens_eq;
  told = elim (b.told) [
    | inl e ↦ elim (a.told) [ inl f ↦ inl (e ∙ f) | inr (f, m) ↦ inr (e ∙ f, m) ]
    | inr (e, m) ↦ inr (e, may_tell_back l t a m)
  ];
}

send_locked-IsNear : (l : Lock) (o : Option ℕ) → l.resource ≡ o → IsNear l (send_locked o l)
send_locked-IsNear l none h = same-IsNear l _ _ _ _ _ refl
send_locked-IsNear l (some r) h = elim (Bool-cases (all_screens_covered l.generation l.screens)) [
  | inl e ↦ simp e (record {
    locked_eq = refl;
    hidden_eq = refl;
    told_views = hidden-append false l.sent _;
    resource_eq = refl;
    generation_eq = refl;
    screens_eq = refl;
    told = inr (refl, ((r, h), e));
  })
  | inr e ↦ simp e (same-IsNear l _ _ _ _ _ refl)
]

-- The holder is told only when every screen has shown its cover.
pub maybe_send_locked-IsNear : (l : Lock) → IsNear l (maybe_send_locked l)
unfolding maybe_send_locked
maybe_send_locked-IsNear l = elim (Bool-cases l.sent_locked) [
  | inl e ↦ simp e (same-IsNear l _ _ _ _ _ refl)
  | inr e ↦ simp e (send_locked-IsNear l l.resource refl)
]

get_cases : (b : Bool) (l t u : Lock) → IsNear l t → IsNear l u → IsNear l (if b then t else u)
get_cases true l t u a b = a
get_cases false l t u a b = b

pub keyboard_set_focus-IsNear : (o : Option ℕ) (l : Lock) → IsNear l (keyboard_set_focus o l)
keyboard_set_focus-IsNear o l =
    get_cases l.has_keyboard l _ _ (same-IsNear l _ _ _ _ _ refl) (same-IsNear l _ _ _ _ _ refl)

focus_chosen-IsNear : (o : Option LockSurface) (l : Lock) → IsNear l (focus_chosen o l)
focus_chosen-IsNear none l = same-IsNear l _ _ _ _ _ refl
focus_chosen-IsNear (some s) l = keyboard_set_focus-IsNear (some s.resource) l

configure_on-IsNear :
    (s : LockSurface) (o : Option Screen) (l : Lock) → IsNear l (configure_on s o l)
configure_on-IsNear s none l = same-IsNear l _ _ _ _ _ refl
configure_on-IsNear s (some screen) l = same-IsNear l _ _ _ _ _ (hidden-append false l.sent _)

ack_found-IsNear :
    (serial : ℕ) (o : Option LockSurface) (l : Lock) → IsNear l (ack_found serial o l)
ack_found-IsNear serial none l = same-IsNear l _ _ _ _ _ refl
ack_found-IsNear serial (some s) l = elim (Bool-cases (serial == s.configure_serial)) [
  | inl e ↦ simp e (same-IsNear l _ _ _ _ _ refl)
  | inr e ↦ simp e (same-IsNear l _ _ _ _ _ (hidden-append false l.sent _))
]

pub lock_surface_ack_configure-IsNear :
    (r serial : ℕ) (l : Lock) → IsNear l (lock_surface_ack_configure r serial l)
unfolding lock_surface_ack_configure
lock_surface_ack_configure-IsNear r serial l = ack_found-IsNear serial (find_surface r l.surfaces) l

map_surface-IsNear :
    (under : ℕ → Bool) (s : LockSurface) (l : Lock) → IsNear l (map_surface under s l)
unfolding focus_a_lock_surface
map_surface-IsNear under s l = elim (Bool-cases s.mapped) [
  | inl e ↦ simp e (same-IsNear l _ _ _ _ _ refl)
  | inr e ↦ simp e (
      trans-IsNear l _ _ (same-IsNear l _ _ _ _ _ (hidden-append false l.sent _))
        (focus_chosen-IsNear _ _))
]

commit_on-IsNear :
    (under : ℕ → Bool) (w h : ℕ) (s : LockSurface) (o : Option Screen) (l : Lock)
    → IsNear l (commit_on under w h s o l)
commit_on-IsNear under w h s none l = same-IsNear l _ _ _ _ _ refl
commit_on-IsNear under w h s (some screen) l =
    elim (Bool-cases (not (w == screen.width) || not (h == screen.height))) [
      | inl e ↦ rw e (same-IsNear l _ _ _ _ _ (hidden-append false l.sent _))
      | inr e ↦ rw e (
          trans-IsNear l (map_surface under s l) _ (map_surface-IsNear under s l)
            (maybe_send_locked-IsNear _))
    ]

pub commit-IsNear :
    (under : ℕ → Bool) (has_buffer : Bool) (w h : ℕ) (s : LockSurface) (l : Lock)
    → IsNear l (handle_lock_surface_commit under has_buffer w h s l)
unfolding handle_lock_surface_commit
commit-IsNear under false w h s l = elim (Bool-cases s.mapped) [
  | inl e ↦ simp e (same-IsNear l _ _ _ _ _ (hidden-append false l.sent _))
  | inr e ↦ simp e (same-IsNear l _ _ _ _ _ refl)
]
commit-IsNear under true w h s l = elim (Bool-cases s.acked) [
  | inl e ↦ simp e (commit_on-IsNear under w h s (screen_of s.screen l.screens) l)
  | inr e ↦ simp e (same-IsNear l _ _ _ _ _ (hidden-append false l.sent _))
]

pub destroy_lock_surface-IsNear : (s : LockSurface) (l : Lock) → IsNear l (destroy_lock_surface s l)
unfolding destroy_lock_surface
destroy_lock_surface-IsNear s l =
    get_cases l.locked l _ _ (same-IsNear l _ _ _ _ _ (hidden-append false l.sent _))
      (same-IsNear l _ _ _ _ _ refl)

pub screen_destroy-IsNear : (s : LockSurface) (l : Lock) → IsNear l (handle_lock_screen_destroy s l)
unfolding handle_lock_screen_destroy
screen_destroy-IsNear s l = elim (Bool-cases s.mapped) [
  | inl e ↦ simp e (
      trans-IsNear l _ _ (same-IsNear l _ _ _ _ _ (hidden-append false l.sent _))
        (maybe_send_locked-IsNear _))
  | inr e ↦ simp e (trans-IsNear l _ _ (same-IsNear l _ _ _ _ _ refl) (maybe_send_locked-IsNear _))
]

added-IsNear :
    (s : LockSurface) (l : Lock)
    → IsNear l (send_configure s (record l { surfaces = l.surfaces ++ s ∷ [] }))
unfolding send_configure
added-IsNear s l =
    trans-IsNear l _ _
      (same-IsNear l (l.surfaces ++ s ∷ []) l.saved_focus l.focus l.serial l.sent refl)
      (configure_on-IsNear s (screen_of s.screen l.screens) _)

pub get_lock_surface-IsNear :
    (r id : ℕ) (f : Found) (screen : Option ℕ) (l : Lock)
    → IsNear l (get_lock_surface r id f screen l)
unfolding get_lock_surface
get_lock_surface-IsNear r id f screen l =
    get_cases (not (is_holder r l.resource)) l _ _ (same-IsNear l _ _ _ _ _ refl) (
      get_cases (not f.is_surface) l _ _ (same-IsNear l _ _ _ _ _ (hidden-append false l.sent _)) (
        get_cases f.has_buffer l _ _ (same-IsNear l _ _ _ _ _ (hidden-append false l.sent _)) (
          get_cases (has_duplicate screen l.surfaces) l _ _
            (same-IsNear l _ _ _ _ _ (hidden-append false l.sent _))
            (get_cases (not f.granted) l _ _
              (same-IsNear l _ _ _ _ _ (hidden-append false l.sent _))
              (get_cases (not f.takes_role) l _ _
                (same-IsNear l _ _ _ _ _ (hidden-append false l.sent _))
                (added-IsNear (new_surface id screen) l))))))
