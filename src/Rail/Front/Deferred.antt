-- ===== src/Rail/Front/Deferred.antt =====
-- The windows that src/rail.rs opens late: those that are announced without a size.
use wayland_macos.Base.{
  ℕ, suc, ◌≡◌, refl, Bool, true, false, not, ◌||◌, List, [], ◌∷◌, arith, if◌then◌else◌, ◌==◌,
  contains, contains-append, Bool-cases, inl, inr,
}
use wayland_macos.Base.Int.{ℤ}
use wayland_macos.Mac.{Text, WinCmd}
use wayland_macos.Rail.Front.{
  Front, post, spawn_window, on_window_create, resize_window, on_window_update, is_empty_size,
}

-- The number of times that a window was created.
unfoldable pub creations : ℕ → List WinCmd → ℕ
creations id [] = 0
creations id (WinCmd.create j w h dst_w dst_h decorated title geom ∷ rest) =
    if j == id then suc (creations id rest) else creations id rest
creations id (_ ∷ rest) = creations id rest

-- An update's place and size.
pub record Update : Type 0 where
  pub x : ℤ
  pub y : ℤ
  pub w : ℕ
  pub h : ℕ

unfoldable pub update_all : ℕ → List Update → Front → Front
update_all id [] s = s
update_all id (u ∷ rest) s = update_all id rest (on_window_update id u.x u.y u.w u.h s)

unfoldable pub any_size : List Update → Bool
any_size [] = false
any_size (u ∷ rest) = not (is_empty_size u.w u.h) || any_size rest

spawn-created :
    (id : ℕ) (x y : ℤ) (w h : ℕ) (name : Text) (s : Front)
    → (contains (spawn_window id x y w h name s).live_windows id ≡ true)
      × (creations id (spawn_window id x y w h name s).posted ≡ suc (creations id s.posted))
unfolding spawn_window post creations contains
spawn-created id x y w h name s = ground (arith, contains-append s.live_windows (id ∷ []) id)

resize-created :
    (id : ℕ) (x y : ℤ) (w h : ℕ) (s : Front)
    → ((resize_window id x y w h s).live_windows ≡ s.live_windows)
      × (creations id (resize_window id x y w h s).posted ≡ creations id s.posted)
unfolding resize_window post creations
resize-created id x y w h s = ground arith

update-live :
    (id : ℕ) (u : Update) (s : Front)
    → contains s.live_windows id ≡ true
    → (contains (on_window_update id u.x u.y u.w u.h s).live_windows id ≡ true)
      × (creations id (on_window_update id u.x u.y u.w u.h s).posted ≡ creations id s.posted)
unfolding on_window_update
update-live id u s live = simp live (ground (arith, resize-created id u.x u.y u.w u.h s))

updates-live :
    (id : ℕ) (us : List Update) (s : Front)
    → contains s.live_windows id ≡ true
    → creations id (update_all id us s).posted ≡ creations id s.posted
unfolding update_all
updates-live id [] s live = refl
updates-live id (u ∷ rest) s live =
    let (still, same) = update-live id u s live in
    ground (arith, updates-live id rest (on_window_update id u.x u.y u.w u.h s))

update-new :
    (id : ℕ) (u : Update) (s : Front)
    → contains s.live_windows id ≡ false
    → (contains (on_window_update id u.x u.y u.w u.h s).live_windows id
        ≡ not (is_empty_size u.w u.h))
      × (creations id (on_window_update id u.x u.y u.w u.h s).posted
          ≡ (if is_empty_size u.w u.h then creations id s.posted else suc (creations id s.posted)))
unfolding on_window_update
update-new id u s new = simp new (elim (Bool-cases (is_empty_size u.w u.h)) [
  | inl e ↦ simp e (new, refl)
  | inr e ↦ simp e (spawn-created id u.x u.y u.w u.h [] s)
])

updates-new :
    (id : ℕ) (us : List Update) (s : Front)
    → contains s.live_windows id ≡ false
    → creations id (update_all id us s).posted
      ≡ (if any_size us then suc (creations id s.posted) else creations id s.posted)
unfolding update_all any_size
updates-new id [] s new = refl
updates-new id (u ∷ rest) s new =
    let (live, made) = update-new id u s new in
    let t = on_window_update id u.x u.y u.w u.h s in
    elim (Bool-cases (is_empty_size u.w u.h)) [
      | inl e ↦ ground (arith, updates-new id rest t)
      | inr e ↦ ground (arith, updates-live id rest t)
    ]

-- A window that is not live and is announced with an empty size, and then updated any number of
-- times: it is created exactly once if an update has a size, and never if none has.
pub created_once :
    (id : ℕ) (x y : ℤ) (w h : ℕ) (name : Text) (us : List Update) (s : Front)
    → contains s.live_windows id ≡ false
    → is_empty_size w h ≡ true
    → creations id (update_all id us (on_window_create id x y w h name s)).posted
      ≡ (if any_size us then suc (creations id s.posted) else creations id s.posted)
unfolding on_window_create
created_once id x y w h name us s new empty = simp empty (updates-new id us s new)
