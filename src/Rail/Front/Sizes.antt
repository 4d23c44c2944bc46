-- ===== src/Rail/Front/Sizes.antt =====
-- The size at which src/rail.rs shows a window's pixels.
use wayland_macos.Base.{
  ℕ, ◌≡◌, refl, ap, sym, ◌∙◌, Option, none, some, List, [], ◌∷◌, arith, if◌then◌else◌, ◌==◌,
  or_else, contains, Bool-cases, inl, inr,
}
use wayland_macos.Base.Int.{ℤ, pos, ◌≤ℤ◌}
use wayland_macos.Base.Map.{lookup, lookup-insert, lookup-remove}
use wayland_macos.Mac.{Text, WinCmd}
use wayland_macos.Rail.Front.{
  Front, post, to_points, logical, spawn_window, on_window_create, resize_window, on_window_update,
  on_window_title, on_window_icon, on_window_delete, destination, on_window_surface,
  on_window_move_start, on_cursor, on_cursor_hidden, on_cursor_default, destroy_each,
  on_disconnected, Callback, window_create, window_update, window_title, window_icon, window_delete,
  window_surface, window_move_start, cursor, cursor_hidden, cursor_default, disconnected, call,
  call_all, is_empty_size, with_pixels,
}

-- What a callback says of a window's size.
unfoldable pub announced : ℕ → Callback → Option (ℕ × ℕ) → Option (ℕ × ℕ)
announced j (window_create id x y w h name) before =
    if id == j then if is_empty_size w h then before else some (w, h) else before
announced j (window_update id x y w h) before =
    if id == j then if is_empty_size w h then before else some (w, h) else before
announced j (window_delete id) before = if id == j then none else before
announced j _ before = before

-- The last size that a list of callbacks gave a window since it was last deleted.
unfoldable pub last_size : ℕ → List Callback → Option (ℕ × ℕ) → Option (ℕ × ℕ)
unfolding announced
last_size j [] before = before
last_size j (c ∷ rest) before = last_size j rest (announced j c before)

-- The kept size is that of the last announcement, in points.
abbrev pub in_points : Front → Option (ℕ × ℕ) → Option (ℤ × ℤ)
in_points s none = none
in_points s (some (w, h)) = some (logical s w h)

same_scale :
    (s t : Front) (o : Option (ℕ × ℕ)) → t.rail_scale ≡ s.rail_scale → in_points t o ≡ in_points s o
unfolding logical to_points
same_scale s t none e = refl
same_scale s t (some (w, h)) e = rw e refl

spawn-size :
    (j id : ℕ) (x y : ℤ) (w h : ℕ) (name : Text) (s : Front)
    → ((spawn_window id x y w h name s).rail_scale ≡ s.rail_scale)
      × (lookup j (spawn_window id x y w h name s).win_logical
          ≡ (if id == j then some (logical s w h) else lookup j s.win_logical))
unfolding spawn_window post
spawn-size j id x y w h name s = (refl, lookup-insert j id (logical s w h) s.win_logical)

resize-size :
    (j id : ℕ) (x y : ℤ) (w h : ℕ) (s : Front)
    → ((resize_window id x y w h s).rail_scale ≡ s.rail_scale)
      × (lookup j (resize_window id x y w h s).win_logical ≡ (
          if is_empty_size w h
          then lookup j s.win_logical
          else if id == j
          then some (logical s w h)
          else lookup j s.win_logical))
unfolding resize_window post
resize-size j id x y w h s = elim (Bool-cases (is_empty_size w h)) [
  | inl e ↦ simp e (refl, refl)
  | inr e ↦ simp e (refl, lookup-insert j id (logical s w h) s.win_logical)
]

-- A callback keeps the scale, and changes a window's size as it announces.
record Sizes (j : ℕ) (s t : Front) (before after : Option (ℕ × ℕ)) : Type 0 where
  scale : t.rail_scale ≡ s.rail_scale
  kept : lookup j s.win_logical ≡ in_points s before → lookup j t.win_logical ≡ in_points s after

pixels-Sizes :
    (j : ℕ) (memory : Option (List ℕ)) (w h stride : ℕ) (f : List ℕ → Front → Front) (s : Front)
    (before : Option (ℕ × ℕ))
    → ((pixels : List ℕ) → Sizes j s (f pixels s) before before)
    → Sizes j s (with_pixels memory w h stride f s) before before
pixels-Sizes j none w h stride f s before g = record { scale = refl; kept = λ e. e }
pixels-Sizes j (some m) w h stride f s before g = elim (Bool-cases (is_empty_size w h)) [
  | inl e ↦ simp e (record { scale = refl; kept = λ e. e })
  | inr e ↦ simp e (g _)
]

destroy_each-sizes :
    (ids : List ℕ) (s : Front)
    → ((destroy_each ids s).rail_scale ≡ s.rail_scale)
      × ((destroy_each ids s).win_logical ≡ s.win_logical)
unfolding destroy_each post
destroy_each-sizes [] s = (refl, refl)
destroy_each-sizes (id ∷ rest) s = destroy_each-sizes rest (post (WinCmd.destroy id) s)

call-Sizes :
    (j : ℕ) (c : Callback) (s : Front) (before : Option (ℕ × ℕ))
    → Sizes j s (call c s) before (announced j c before)
unfolding call announced on_window_create on_window_update on_window_title on_window_icon
    on_window_surface on_window_move_start on_cursor on_cursor_hidden on_cursor_default post
    on_window_delete on_disconnected
call-Sizes j (window_create id x y w h name) s before = elim (Bool-cases (is_empty_size w h)) [
  | inl e ↦ simp e (record { scale = refl; kept = λ k. ground arith })
  | inr e ↦ simp e (record {
    scale = (spawn-size j id x y w h name s).0;
    kept = λ k. ground (arith, spawn-size j id x y w h name s);
  })
]
call-Sizes j (window_update id x y w h) s before = elim (Bool-cases (contains s.live_windows id)) [
  | inl live ↦ simp live (record {
    scale = (resize-size j id x y w h s).0;
    kept = λ k. ground (arith, resize-size j id x y w h s);
  })
  | inr new ↦ elim (Bool-cases (is_empty_size w h)) [
    | inl e ↦ simp (new, e) (record { scale = refl; kept = λ k. ground arith })
    | inr e ↦
        simp (new, e)
          (record {
            scale = (spawn-size j id x y w h [] s).0;
            kept = λ k. ground (arith, spawn-size j id x y w h [] s);
          })
  ]
]
call-Sizes j (window_title id name) s before = record { scale = refl; kept = λ k. k }
call-Sizes j (window_icon id w h stride memory) s before =
    pixels-Sizes j memory w h stride _ s before (λ pixels. record { scale = refl; kept = λ k. k })
call-Sizes j (window_delete id) s before = record {
  scale = refl;
  kept = λ k. ground (arith, lookup-remove j id s.win_logical);
}
call-Sizes j (window_surface id w h stride memory) s before =
    pixels-Sizes j memory w h stride _ s before (λ pixels. record { scale = refl; kept = λ k. k })
call-Sizes j (window_move_start id) s before = record { scale = refl; kept = λ k. k }
call-Sizes j (cursor w h stride hx hy memory) s before =
    pixels-Sizes j memory w h stride _ s before (λ pixels. record { scale = refl; kept = λ k. k })
call-Sizes j cursor_hidden s before = record { scale = refl; kept = λ k. k }
call-Sizes j cursor_default s before = record { scale = refl; kept = λ k. k }
call-Sizes j disconnected s before =
    let (scale, sizes) = destroy_each-sizes s.live_windows (record s { live_windows = [] }) in
    record { scale = scale; kept = λ k. ap (lookup j) sizes ∙ k }

call_all-Sizes :
    (j : ℕ) (cs : List Callback) (s : Front) (before : Option (ℕ × ℕ))
    → Sizes j s (call_all cs s) before (last_size j cs before)
unfolding call_all last_size
call_all-Sizes j [] s before = record { scale = refl; kept = λ k. k }
call_all-Sizes j (c ∷ rest) s before =
    let first = call-Sizes j c s before in
    let later = call_all-Sizes j rest (call c s) (announced j c before) in
    let after = last_size j rest (announced j c before) in
    record {
      scale = later.scale ∙ first.scale;
      kept = λ k.
          later.kept
            (first.kept k ∙ sym (same_scale s (call c s) (announced j c before) first.scale))
          ∙ same_scale s (call c s) after first.scale;
    }

-- After any sequence of callbacks, from a front end that knows no size of a window, its pixels are
-- shown at the size that the last announcement with a real size gave, since the window was last
-- deleted, and at the buffer's size if there was none; both in points at the session's scale.
pub destination_follows :
    (j : ℕ) (cs : List Callback) (s : Front) (w h : ℕ)
    → lookup j s.win_logical ≡ none
    → destination j w h (call_all cs s)
      ≡ or_else (in_points s (last_size j cs none)) (logical s w h)
unfolding destination
destination_follows j cs s w h unknown =
    let sizes = call_all-Sizes j cs s none in
    let same : logical (call_all cs s) w h ≡ logical s w h =
      some-inj (same_scale s (call_all cs s) (some (w, h)) sizes.scale) in
    rw (sizes.kept unknown, same) refl
  where
    some-inj : {a b : ℤ × ℤ} → some a ≡ some b → a ≡ b
    some-inj e = ground arith

-- A length in points is at least 1.
to_points-positive : (s : Front) (w : ℕ) → pos 1 ≤ℤ to_points s w
unfolding to_points
to_points-positive s w = ground arith

logical-positive :
    (s : Front) (w h : ℕ) → (pos 1 ≤ℤ (logical s w h).0) × (pos 1 ≤ℤ (logical s w h).1)
unfolding logical
logical-positive s w h = (to_points-positive s w, to_points-positive s h)

shown-positive :
    (s : Front) (o : Option (ℕ × ℕ)) (w h : ℕ)
    → (pos 1 ≤ℤ (or_else (in_points s o) (logical s w h)).0)
      × (pos 1 ≤ℤ (or_else (in_points s o) (logical s w h)).1)
shown-positive s none w h = logical-positive s w h
shown-positive s (some (a, b)) w h = logical-positive s a b

-- After any sequence of callbacks, from a front end that knows no size of a window, the size at
-- which its pixels are shown is at least 1 by 1, whatever 32-bit sizes and scale were given.
pub destination_positive :
    (j : ℕ) (cs : List Callback) (s : Front) (w h : ℕ)
    → lookup j s.win_logical ≡ none
    → (pos 1 ≤ℤ (destination j w h (call_all cs s)).0)
      × (pos 1 ≤ℤ (destination j w h (call_all cs s)).1)
destination_positive j cs s w h unknown =
    rw (destination_follows j cs s w h unknown) (shown-positive s (last_size j cs none) w h)
