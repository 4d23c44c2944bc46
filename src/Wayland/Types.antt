-- ===== src/Wayland/Types.antt =====
-- src/wayland/mod.rs: the compositor's state, what it reads of the Wayland server library, and what
-- it sends. A protocol object is its id. `State` leaves out the clock's start, the keymap, the
-- primary selection, the icon objects and the image descriptions, which other parts keep.
use wayland_macos.Base.{ℕ, Bool, false, Option, none, List, []}
use wayland_macos.Base.Int.{ℤ, pos}
use wayland_macos.Base.Map.{Map}
use wayland_macos.Mac.{WinCmd, ColorDesc, Text}

-- `PoolMem`'s mapping is behind the pool's id, since the client writes to it at any time.
pub data BufferKind : Type 0 where
  shm : (pool : ℕ) (offset width height stride : ℤ) (format : ℕ) → BufferKind
  single_pixel : (bgra : List ℕ) → BufferKind

-- What a request or an input event reads of the server library, the shared globals of
-- src/input.rs, the clock and the client's shared memory, while it is handled.
pub record Env : Type 0 where
  pub is_alive : ℕ → Bool
  pub client : ℕ → Option ℕ
  pub version : ℕ → ℕ
  -- The user data of a `wl_buffer` and of an `xdg_surface`.
  pub buffer_data : ℕ → Option BufferKind
  pub xdg_surface_data : ℕ → Option ℕ
  -- The bytes that a pool's mapping shows, if it is mapped.
  pub mapping : ℕ → Option (List ℕ)
  -- Whether a zeroed allocation of that many bytes succeeds; a failure aborts the process.
  pub can_alloc : ℕ → Bool
  -- The `wl_shm` codes of the three formats that are told apart.
  pub xrgb2101010 : ℕ
  pub argb2101010 : ℕ
  pub abgr16161616f : ℕ
  -- `input::scale`, which is at least 1, and `input::output_size`.
  pub scale : ℕ
  pub output_w : ℤ
  pub output_h : ℤ
  pub time : ℕ
  -- The size of the keymap's file, if there is one.
  pub keymap_size : Option ℕ
  -- CLOCK_MONOTONIC, in seconds and nanoseconds.
  pub monotonic : ℕ × ℕ
  -- `create_resource` for a data offer to a device's client.
  pub create_offer : ℕ → Option ℕ
  -- `char::to_uppercase` and `char::is_whitespace`.
  pub to_uppercase : ℕ → List ℕ
  pub is_whitespace : ℕ → Bool

-- The states that a toplevel is configured with.
pub data ToplevelState : Type 0 where
  maximized fullscreen activated : ToplevelState

-- What goes to clients.
pub data Event : Type 0 where
  wm_capabilities : (toplevel : ℕ) → Event
  toplevel_configure : (toplevel : ℕ) (width height : ℤ) (states : List ToplevelState) → Event
  xdg_surface_configure : (xdg_surface serial : ℕ) → Event
  popup_configure : (popup : ℕ) (x y width height : ℤ) → Event
  popup_done : (popup : ℕ) → Event
  layer_configure : (layer_surface serial : ℕ) (width height : ℤ) → Event
  pointer_enter : (pointer serial surface x y : ℕ) → Event
  pointer_leave : (pointer serial surface : ℕ) → Event
  pointer_motion : (pointer time x y : ℕ) → Event
  pointer_button : (pointer serial time button : ℕ) (pressed : Bool) → Event
  pointer_axis : (pointer time : ℕ) (vertical : Bool) (value : ℕ) → Event
  pointer_frame : (pointer : ℕ) → Event
  keyboard_enter : (keyboard serial surface : ℕ) → Event
  keyboard_leave : (keyboard serial surface : ℕ) → Event
  keyboard_key : (keyboard serial time key : ℕ) (pressed : Bool) → Event
  keyboard_modifiers : (keyboard serial depressed latched locked group : ℕ) → Event
  callback_done : (callback time : ℕ) → Event
  presented : (feedback sec_hi sec_lo nsec refresh : ℕ) → Event
  buffer_release : (buffer : ℕ) → Event
  preferred_buffer_scale : (surface : ℕ) (factor : ℤ) → Event
  post_error : (resource : ℕ) → Event
  data_offer : (device offer : ℕ) → Event
  offer_mime : (offer : ℕ) (mime : Text) → Event
  selection : (device : ℕ) (offer : Option ℕ) → Event
  cancelled : (source : ℕ) → Event
  keymap : (keyboard size : ℕ) → Event
  repeat_info : (keyboard : ℕ) (rate delay : ℤ) → Event
  token_done : (token serial : ℕ) → Event
  decoration_server_side : (decoration : ℕ) → Event
  send_source : (source : ℕ) (mime : Text) → Event

-- What goes to the AppKit side: `mac::post`, `mac::assign_window`, and the insets that
-- `recompute_reserved` publishes.
pub data MacCall : Type 0 where
  post : WinCmd → MacCall
  assign_window : (window app_key : ℕ) (name : Text) (regular : Bool) → MacCall
  set_reserved_insets : (top right bottom left : ℤ) → MacCall
  broadcast_insets : (top right bottom left : ℤ) → MacCall

pub record SurfaceRec : Type 0 where
  pub pending_buffer : Option ℕ
  pub pending_attach : Bool
  pub frame_callbacks : List ℕ
  pub window_id : Option ℕ
  pub geometry_offset : ℤ × ℤ
  pub geometry_size : ℤ × ℤ
  pub viewport_dst : Option (ℤ × ℤ)
  pub pending_color : Option (Option ColorDesc)
  pub color : Option ColorDesc

-- `SurfaceRec::default()`.
unfoldable pub surface_rec_default : SurfaceRec
surface_rec_default = record {
  pending_buffer = none;
  pending_attach = false;
  frame_callbacks = [];
  window_id = none;
  geometry_offset = (pos 0, pos 0);
  geometry_size = (pos 0, pos 0);
  viewport_dst = none;
  pending_color = none;
  color = none;
}

pub record Icon : Type 0 where
  pub width : ℤ
  pub height : ℤ
  pub stride : ℤ
  pub pixels : List ℕ

pub record ToplevelRec : Type 0 where
  pub toplevel : ℕ
  pub xdg_surface : ℕ
  pub wl_surface : ℕ
  pub title : Text
  pub app_id : Text
  pub window_id : ℕ
  pub configured : Bool
  pub created_window : Bool
  pub maximized : Bool
  pub fullscreen : Bool
  pub wants_ssd : Bool
  pub pending_icon : Option Icon

pub record PositionerState : Type 0 where
  pub size : ℤ × ℤ
  pub anchor_rect : ℤ × ℤ × ℤ × ℤ
  pub offset : ℤ × ℤ
  pub anchor : ℕ
  pub gravity : ℕ
  pub constraint_adjustment : ℕ

pub record PopupRec : Type 0 where
  pub popup : ℕ
  pub xdg_surface : ℕ
  pub wl_surface : ℕ
  pub parent_window : ℕ
  pub window_id : ℕ
  pub x : ℤ
  pub y : ℤ
  pub x_flip : ℤ
  pub y_flip : ℤ
  pub constraint : ℕ
  pub w : ℤ
  pub h : ℤ
  pub configured : Bool
  pub created_window : Bool
  pub dismissed : Bool

pub record LayerSurfaceRec : Type 0 where
  pub layer_surface : ℕ
  pub wl_surface : ℕ
  pub window_id : ℕ
  pub anchor : ℕ
  pub size : ℕ × ℕ
  pub margin : ℤ × ℤ × ℤ × ℤ
  pub exclusive : ℤ
  pub keyboard_interactivity : ℕ
  pub configured : Bool
  pub created_window : Bool

pub record SubsurfaceRec : Type 0 where
  pub surface : ℕ
  pub parent : ℕ
  pub x : ℤ
  pub y : ℤ
  pub sub_id : ℕ

-- The part of `clipboard::Clipboard` that offers the macOS pasteboard to clients.
pub record Clipboard : Type 0 where
  pub devices : List ℕ
  pub source_mimes : Map (List Text)
  pub mac_offer : Option Text
  pub active_source : Option ℕ
  pub pending_close : ℕ

pub record State : Type 0 where
  pub next_window_id : ℕ
  pub next_serial : ℕ
  pub client_app_ids : Map ℕ
  pub surfaces : Map SurfaceRec
  pub toplevels : Map ToplevelRec
  pub surface_toplevel : Map ℕ
  pub window_surface : Map ℕ
  pub positioners : Map PositionerState
  pub popups : Map PopupRec
  pub surface_popup : Map ℕ
  pub pointers : List ℕ
  pub keyboards : List ℕ
  pub pointer_focus : Option ℕ
  pub focus_window : Option ℕ
  pub presentation_feedback : Map (List ℕ)
  pub cursor_surface : Option ℕ
  pub cursor_hotspot : ℤ × ℤ
  pub subsurfaces : Map SubsurfaceRec
  pub surface_subsurface : Map ℕ
  pub layer_surfaces : Map LayerSurfaceRec
  pub surface_layer : Map ℕ
  pub clipboard : Clipboard
  -- What was sent to clients and to AppKit so far, the latest first.
  pub sent : List Event
  pub calls : List MacCall
