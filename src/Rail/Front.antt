-- ===== src/Rail/Front.antt =====
-- src/rail.rs: what the FreeRDP thread does on a callback of the C bridge. Pixels behind a pointer
-- are the bytes of the memory there, and a null pointer is `none`.
pub mod Pointer
pub mod Windows
pub mod Sizes
pub mod Deferred
use wayland_macos.Base.{
  ℕ, ◌+◌, ◌*◌, Bool, true, false, not, ◌&&◌, ◌||◌, Option, none, some, List, [], ◌∷◌, ◌++◌, map,
  if◌then◌else◌, ltb, ◌==◌, or_else, take, retain, contains, codes,
}
use wayland_macos.Base.Int.{ℤ, pos, max_ℤ, quot_ℤ, u32_as_i32}
use wayland_macos.Base.Map.{Map, lookup, insert, remove}
use wayland_macos.Mac.{
  Text, Geom, PixelFormat, PixelBuf, WinCmd, create, move, title, set_icon, destroy, frame,
  start_move, set_cursor_image, hide_cursor, set_cursor,
}

pub record Front : Type 0 where
  pub live_windows : List ℕ
  pub rail_scale : ℕ
  pub win_logical : Map (ℤ × ℤ)
  -- What was posted to AppKit and asked of the multiplexer, the latest first.
  pub posted : List WinCmd
  pub assigned : List (ℕ × Text)

unfoldable pub post : WinCmd → Front → Front
post c s = record s { posted = c ∷ s.posted }

abbrev pub scale_of : Front → ℕ
scale_of s = if s.rail_scale == 0 then 1 else s.rail_scale

-- A length in pixels, in points.
unfoldable pub to_points : Front → ℕ → ℤ
unfolding quot_ℤ
to_points s w = max_ℤ (quot_ℤ (u32_as_i32 w) (scale_of s)) (pos 1)

unfoldable pub logical : Front → ℕ → ℕ → ℤ × ℤ
unfolding to_points
logical s w h = (to_points s w, to_points s h)

abbrev pub whole_surface : Geom
whole_surface = record { x = pos 0; y = pos 0; width = pos 0; height = pos 0 }

-- The name that the multiplexer gets.
abbrev pub display_name : Text → Text
display_name [] = codes "weston-terminal"
display_name (c ∷ cs) = c ∷ cs

unfoldable pub spawn_window : ℕ → ℤ → ℤ → ℕ → ℕ → Text → Front → Front
unfolding post logical quot_ℤ
spawn_window id x y w h name s =
    let (lw, lh) = logical s w h in
    post (move id (quot_ℤ x (scale_of s)) (quot_ℤ y (scale_of s))) (
      post (create id lw lh lw lh false name whole_surface) (record s {
        live_windows = s.live_windows ++ (id ∷ []);
        win_logical = insert id (lw, lh) s.win_logical;
        assigned = (id, display_name name) ∷ s.assigned;
      }))

abbrev pub is_empty_size : ℕ → ℕ → Bool
is_empty_size w h = w == 0 || h == 0

unfoldable pub on_window_create : ℕ → ℤ → ℤ → ℕ → ℕ → Text → Front → Front
unfolding spawn_window
on_window_create id x y w h name s = if is_empty_size w h then s else spawn_window id x y w h name s

unfoldable pub resize_window : ℕ → ℤ → ℤ → ℕ → ℕ → Front → Front
unfolding post logical quot_ℤ
resize_window id x y w h s = post (move id (quot_ℤ x (scale_of s)) (quot_ℤ y (scale_of s))) (
    if is_empty_size w h
    then s
    else record s { win_logical = insert id (logical s w h) s.win_logical })

unfoldable pub on_window_update : ℕ → ℤ → ℤ → ℕ → ℕ → Front → Front
unfolding spawn_window contains resize_window
on_window_update id x y w h s =
    if contains s.live_windows id
    then resize_window id x y w h s
    else if is_empty_size w h
    then s
    else spawn_window id x y w h [] s

unfoldable pub on_window_title : ℕ → Text → Front → Front
unfolding post
on_window_title id name s = post (title id name) s

-- The memory that a picture takes; without one nothing happens.
abbrev pub with_pixels : Option (List ℕ) → ℕ → ℕ → ℕ → (List ℕ → Front → Front) → Front → Front
with_pixels none w h stride f s = s
with_pixels (some memory) w h stride f s =
    if is_empty_size w h then s else f (take (stride * h) memory) s

unfoldable pub on_window_icon : ℕ → ℕ → ℕ → ℕ → Option (List ℕ) → Front → Front
unfolding post
on_window_icon id w h stride memory s =
    with_pixels memory w h stride
      (λ pixels. post (set_icon id (u32_as_i32 w) (u32_as_i32 h) (u32_as_i32 stride) pixels)) s

unfoldable pub on_window_delete : ℕ → Front → Front
unfolding post retain
on_window_delete id s = post (destroy id) (record s {
  live_windows = retain (λ w. not (w == id)) s.live_windows;
  win_logical = remove id s.win_logical;
})

-- Where a surface's pixels go: to the window's logical size, or to the buffer's.
unfoldable pub destination : ℕ → ℕ → ℕ → Front → ℤ × ℤ
unfolding logical
destination id w h s = or_else (lookup id s.win_logical) (logical s w h)

unfoldable pub on_window_surface : ℕ → ℕ → ℕ → ℕ → Option (List ℕ) → Front → Front
unfolding post destination
on_window_surface id w h stride memory s =
    with_pixels memory w h stride
      (λ pixels. post (
        frame id
          (record {
            width = u32_as_i32 w;
            height = u32_as_i32 h;
            stride = u32_as_i32 stride;
            format = PixelFormat.bgra8888;
            bytes = pixels;
          })
          (destination id w h s).0 (destination id w h s).1 none whole_surface))
      s

unfoldable pub on_window_move_start : ℕ → Front → Front
unfolding post
on_window_move_start id s = post (start_move id) s

unfoldable pub on_cursor : ℕ → ℕ → ℕ → ℕ → ℕ → Option (List ℕ) → Front → Front
unfolding post
on_cursor w h stride hotspot_x hotspot_y memory s =
    with_pixels memory w h stride
      (λ pixels. post (
        set_cursor_image (u32_as_i32 w) (u32_as_i32 h) (u32_as_i32 stride) (u32_as_i32 hotspot_x)
          (u32_as_i32 hotspot_y) (pos 1) pixels))
      s

unfoldable pub on_cursor_hidden : Front → Front
unfolding post
on_cursor_hidden s = post hide_cursor s

unfoldable pub on_cursor_default : Front → Front
unfolding post
on_cursor_default s = post (set_cursor 1) s

-- `for id in live`.
unfoldable pub destroy_each : List ℕ → Front → Front
unfolding post
destroy_each [] s = s
destroy_each (id ∷ rest) s = destroy_each rest (post (destroy id) s)

unfoldable pub on_disconnected : Front → Front
unfolding destroy_each
on_disconnected s = destroy_each s.live_windows (record s { live_windows = [] })

-- The callbacks.
pub data Callback : Type 0 where
  window_create : (id : ℕ) (x y : ℤ) (w h : ℕ) (name : Text) → Callback
  window_update : (id : ℕ) (x y : ℤ) (w h : ℕ) → Callback
  window_title : (id : ℕ) (name : Text) → Callback
  window_icon : (id w h stride : ℕ) (memory : Option (List ℕ)) → Callback
  window_delete : (id : ℕ) → Callback
  window_surface : (id w h stride : ℕ) (memory : Option (List ℕ)) → Callback
  window_move_start : (id : ℕ) → Callback
  cursor : (w h stride hotspot_x hotspot_y : ℕ) (memory : Option (List ℕ)) → Callback
  cursor_hidden : Callback
  cursor_default : Callback
  disconnected : Callback

unfoldable pub call : Callback → Front → Front
call (window_create id x y w h name) s = on_window_create id x y w h name s
call (window_update id x y w h) s = on_window_update id x y w h s
call (window_title id name) s = on_window_title id name s
call (window_icon id w h stride memory) s = on_window_icon id w h stride memory s
call (window_delete id) s = on_window_delete id s
call (window_surface id w h stride memory) s = on_window_surface id w h stride memory s
call (window_move_start id) s = on_window_move_start id s
call (cursor w h stride hotspot_x hotspot_y memory) s =
    on_cursor w h stride hotspot_x hotspot_y memory s
call cursor_hidden s = on_cursor_hidden s
call cursor_default s = on_cursor_default s
call disconnected s = on_disconnected s

unfoldable pub call_all : List Callback → Front → Front
call_all [] s = s
call_all (c ∷ rest) s = call_all rest (call c s)
