-- ===== src/Mac.antt =====
-- src/mac.rs: the commands that the Wayland thread sends to AppKit, and their data. Pixels are
-- lists of bytes, text is a list of code points, and a number is `i32` where it is a ℤ.
pub mod Color
pub mod Keys
pub mod Geometry
pub mod Shell
pub mod Placement
pub mod Constrain
pub mod Image
pub mod Tests
use wayland_macos.Base.{ℕ, Bool, true, false, Option, List}
use wayland_macos.Base.Int.{ℤ}

pub data TransferFn : Type 0 where
  srgb pq hlg : TransferFn

pub data Primaries : Type 0 where
  srgb display_p3 bt2020 : Primaries

-- A luminance is an `f32`, kept as its 32-bit pattern.
pub record ColorDesc : Type 0 where
  pub tf : TransferFn
  pub primaries : Primaries
  pub max_luminance : Option ℕ
  pub ref_luminance : Option ℕ

unfoldable pub is_hdr : ColorDesc → Bool
is_hdr c = elim c.tf [ TransferFn.srgb ↦ false | TransferFn.pq ↦ true | TransferFn.hlg ↦ true ]

pub data PixelFormat : Type 0 where
  bgra8888 rgb2101010 rgba16f : PixelFormat

abbrev pub Text : Type 0
Text = List ℕ

-- (x, y, width, height).
pub record Geom : Type 0 where
  pub x : ℤ
  pub y : ℤ
  pub width : ℤ
  pub height : ℤ

-- Raw pixels with their layout: `PixelBuf` of src/wayland/mod.rs.
pub record PixelBuf : Type 0 where
  pub width : ℤ
  pub height : ℤ
  pub stride : ℤ
  pub format : PixelFormat
  pub bytes : List ℕ

-- `frame` and `sub_frame` carry their width, height, stride, pixels and format as one `PixelBuf`;
-- `set_icon` has width, height and stride.
pub data WinCmd : Type 0 where
  create :
      (id : ℕ) (width height dst_w dst_h : ℤ) (decorated : Bool) (title : Text) (geom : Geom)
      → WinCmd
  frame :
      (id : ℕ) (buf : PixelBuf) (dst_w dst_h : ℤ) (color : Option ColorDesc) (geom : Geom) → WinCmd
  title : (id : ℕ) (text : Text) → WinCmd
  start_move : (id : ℕ) → WinCmd
  move : (id : ℕ) (x y : ℤ) → WinCmd
  start_resize : (id edges : ℕ) → WinCmd
  create_popup :
      (id parent_id : ℕ) (x y x_flip y_flip : ℤ) (constraint : ℕ) (width height : ℤ) → WinCmd
  set_grab : (window : Option ℕ) → WinCmd
  set_cursor : (shape : ℕ) → WinCmd
  set_cursor_image : (width height stride hotspot_x hotspot_y scale : ℤ) (pixels : List ℕ) → WinCmd
  hide_cursor : WinCmd
  sub_frame :
      (window_id sub_id : ℕ) (x y : ℤ) (buf : PixelBuf) (dst_w dst_h : ℤ) (color : Option ColorDesc)
      → WinCmd
  sub_destroy : (window_id sub_id : ℕ) → WinCmd
  maximize : (id : ℕ) (on : Bool) → WinCmd
  fullscreen : (id : ℕ) (on : Bool) → WinCmd
  minimize : (id : ℕ) → WinCmd
  set_min_size : (id : ℕ) (width height : ℤ) → WinCmd
  set_max_size : (id : ℕ) (width height : ℤ) → WinCmd
  activate : (id : ℕ) → WinCmd
  set_modal : (id : ℕ) (modal : Bool) → WinCmd
  set_icon : (id : ℕ) (width height stride : ℤ) (pixels : List ℕ) → WinCmd
  destroy : (id : ℕ) → WinCmd
  create_layer :
      (id : ℕ) (width height : ℤ) (anchor : ℕ)
      (margin_top margin_right margin_bottom margin_left : ℤ) (keyboard : Bool)
      → WinCmd
