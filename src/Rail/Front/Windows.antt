-- ===== src/Rail/Front/Windows.antt =====
-- The windows that src/rail.rs has opened and not closed, by what it posted to AppKit.
use wayland_macos.Base.{
  ℕ, ◌≡◌, refl, Bool, true, false, not, Option, none, some, List, [], ◌∷◌, arith, if◌then◌else◌,
  ◌==◌, or_else, contains, contains-append, contains-retain, Bool-cases, inl, inr,
}
use wayland_macos.Base.Int.{ℤ}
use wayland_macos.Mac.{Text, WinCmd}
use wayland_macos.Base.Keep.{keep_if}
use wayland_macos.Rail.Front.{
  Front, post, spawn_window, on_window_create, resize_window, on_window_update, on_window_title,
  on_window_icon, on_window_delete, on_window_surface, on_window_move_start, on_cursor,
  on_cursor_hidden, on_cursor_default, destroy_each, on_disconnected, Callback, window_create,
  window_update, window_title, window_icon, window_delete, window_surface, window_move_start,
  cursor, cursor_hidden, cursor_default, disconnected, call, call_all, is_empty_size, with_pixels,
}

-- What a command says of a window: it is there from now on, or it is not.
unfoldable pub effect : WinCmd → ℕ → Option Bool
effect (WinCmd.create id w h dst_w dst_h decorated title geom) j =
    if id == j then some true else none
effect (WinCmd.destroy id) j = if id == j then some false else none
effect _ j = none

-- Whether AppKit has a window, by a log with the latest command first.
unfoldable pub is_open : List WinCmd → ℕ → Bool
unfolding effect
is_open [] j = false
is_open (c ∷ rest) j = or_else (effect c j) (is_open rest j)

pub record IsTracked (s : Front) : Type 0 where
  pub tracked : (j : ℕ) → is_open s.posted j ≡ contains s.live_windows j

spawn-IsTracked :
    (id : ℕ) (x y : ℤ) (w h : ℕ) (name : Text) (s : Front)
    → IsTracked s
    → IsTracked (spawn_window id x y w h name s)
unfolding spawn_window post is_open effect contains
spawn-IsTracked id x y w h name s t = record {
  tracked = λ j. ground (arith, t.tracked j, contains-append s.live_windows (id ∷ []) j);
}

resize-IsTracked :
    (id : ℕ) (x y : ℤ) (w h : ℕ) (s : Front) → IsTracked s → IsTracked (resize_window id x y w h s)
unfolding resize_window post is_open effect
resize-IsTracked id x y w h s t = elim (Bool-cases (is_empty_size w h)) [
  | inl e ↦ record { tracked = λ j. ground (arith, t.tracked j) }
  | inr e ↦ record { tracked = λ j. ground (arith, t.tracked j) }
]

delete-IsTracked : (id : ℕ) (s : Front) → IsTracked s → IsTracked (on_window_delete id s)
unfolding on_window_delete post is_open effect
delete-IsTracked id s t = record {
  tracked = λ j. ground (arith, t.tracked j, contains-retain (λ w. not (w == id)) s.live_windows j);
}

destroy_each-open :
    (ids : List ℕ) (s : Front) (j : ℕ)
    → is_open (destroy_each ids s).posted j ≡ (if contains ids j then false else is_open s.posted j)
unfolding destroy_each post is_open effect contains
destroy_each-open [] s j = refl
destroy_each-open (id ∷ rest) s j =
    ground (arith, destroy_each-open rest (post (WinCmd.destroy id) s) j)

destroy_each-live : (ids : List ℕ) (s : Front) → (destroy_each ids s).live_windows ≡ s.live_windows
unfolding destroy_each post
destroy_each-live [] s = refl
destroy_each-live (id ∷ rest) s = destroy_each-live rest (post (WinCmd.destroy id) s)

disconnected-IsTracked : (s : Front) → IsTracked s → IsTracked (on_disconnected s)
unfolding on_disconnected contains
disconnected-IsTracked s t = record {
  tracked = λ j. ground (
    arith,
    t.tracked j,
    destroy_each-open s.live_windows (record s { live_windows = [] }) j,
    destroy_each-live s.live_windows (record s { live_windows = [] }),
  );
}

pixels-IsTracked :
    (memory : Option (List ℕ)) (w h stride : ℕ) (f : List ℕ → Front → Front) (s : Front)
    → ((pixels : List ℕ) → IsTracked (f pixels s))
    → IsTracked s
    → IsTracked (with_pixels memory w h stride f s)
pixels-IsTracked none w h stride f s g t = t
pixels-IsTracked (some m) w h stride f s g t = keep_if IsTracked (is_empty_size w h) t (g _)

call-IsTracked : (c : Callback) (s : Front) → IsTracked s → IsTracked (call c s)
unfolding call on_window_create on_window_update on_window_title on_window_icon on_window_surface
    on_window_move_start on_cursor on_cursor_hidden on_cursor_default post is_open effect
call-IsTracked (window_create id x y w h name) s t =
    keep_if IsTracked (is_empty_size w h) t (spawn-IsTracked id x y w h name s t)
call-IsTracked (window_update id x y w h) s t =
    keep_if IsTracked (contains s.live_windows id) (resize-IsTracked id x y w h s t)
      (keep_if IsTracked (is_empty_size w h) t (spawn-IsTracked id x y w h [] s t))
call-IsTracked (window_title id name) s t = record { tracked = t.tracked }
call-IsTracked (window_icon id w h stride memory) s t =
    pixels-IsTracked memory w h stride _ s (λ pixels. record { tracked = t.tracked }) t
call-IsTracked (window_delete id) s t = delete-IsTracked id s t
call-IsTracked (window_surface id w h stride memory) s t =
    pixels-IsTracked memory w h stride _ s (λ pixels. record { tracked = t.tracked }) t
call-IsTracked (window_move_start id) s t = record { tracked = t.tracked }
call-IsTracked (cursor w h stride hx hy memory) s t =
    pixels-IsTracked memory w h stride _ s (λ pixels. record { tracked = t.tracked }) t
call-IsTracked cursor_hidden s t = record { tracked = t.tracked }
call-IsTracked cursor_default s t = record { tracked = t.tracked }
call-IsTracked disconnected s t = disconnected-IsTracked s t

-- After any sequence of callbacks, AppKit has a window open exactly for the ids that the front end
-- keeps as live.
pub call_all-IsTracked : (cs : List Callback) (s : Front) → IsTracked s → IsTracked (call_all cs s)
unfolding call_all
call_all-IsTracked [] s t = t
call_all-IsTracked (c ∷ rest) s t = call_all-IsTracked rest _ (call-IsTracked c s t)

-- When the session ends, whatever came before, no window stays open.
pub disconnected_closes_all :
    (cs : List Callback) (s : Front)
    → IsTracked s
    → (j : ℕ) → is_open (call disconnected (call_all cs s)).posted j ≡ false
unfolding call on_disconnected
disconnected_closes_all cs s t j =
    let before = (call_all-IsTracked cs s t).tracked j in
    ground (
      arith,
      before,
      destroy_each-open (call_all cs s).live_windows (record (call_all cs s) { live_windows = [] })
          j,
    )
