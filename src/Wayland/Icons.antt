-- ===== src/Wayland/Icons.antt =====
-- src/wayland/xdg_toplevel_icon.rs, and the requests of src/wayland/cursor_shape.rs, xdg_dialog.rs,
-- fractional_scale.rs and xdg_output.rs. The icon objects are kept beside the other state.
use wayland_macos.Base.{
  ℕ, ◌*◌, Bool, true, false, Option, none, some, List, [], ◌∷◌, ◌++◌, if◌then◌else◌, ltb, leb, ◌==◌,
  Checked, returns, and_then, codes,
}
use wayland_macos.Base.Int.{ℤ, pos, pos_part, max_ℤ, quot_ℤ}
use wayland_macos.Base.Map.{Map, lookup, insert, remove, modify}
use wayland_macos.Mac.{Text, bgra8888, rgb2101010, rgba16f, PixelBuf, WinCmd}
use wayland_macos.Wayland.Types.{Env, Icon, ToplevelRec, State, post}
use wayland_macos.Wayland.Core.{call}
use wayland_macos.Wayland.Shm.{buffer_to_pixels}

pub record IconRec : Type 0 where
  pub name : Option Text
  pub buffers : List (ℕ × ℤ)

abbrev pub icon_default : IconRec
icon_default = record { name = none; buffers = [] }

unfoldable pub create_icon : ℕ → Map IconRec → Map IconRec
create_icon icon m = insert icon icon_default m

unfoldable pub set_name : ℕ → Text → Map IconRec → Map IconRec
set_name icon name m = modify icon (λ r. record r { name = some name }) m

unfoldable pub add_buffer : ℕ → ℕ → ℤ → Map IconRec → Map IconRec
add_buffer icon buffer scale m =
    modify icon (λ r. record r { buffers = r.buffers ++ ((buffer, scale) ∷ []) }) m

unfoldable pub destroy_icon : ℕ → Map IconRec → Map IconRec
destroy_icon icon m = remove icon m

-- `filter_map(buffer_to_pixels)`.
unfoldable pub read_buffers : Env → List (ℕ × ℤ) → Checked (List PixelBuf)
read_buffers env [] = returns []
read_buffers env ((buffer, scale) ∷ rest) = and_then (buffer_to_pixels env buffer) (λ read.
    and_then (read_buffers env rest)
      (λ more. returns (elim read [ none ↦ more | some pb ↦ pb ∷ more ])))

unfoldable pub is_bgra : PixelBuf → Bool
is_bgra pb = elim pb.format [ bgra8888 ↦ true | rgb2101010 ↦ false | rgba16f ↦ false ]

-- `width * height`; the sizes that `buffer_to_pixels` gives are not negative.
abbrev pub pixel_area : PixelBuf → ℕ
pixel_area pb = pos_part pb.width * pos_part pb.height

-- `filter(..).max_by_key(..)`: the last one of the largest.
unfoldable pub largest : List PixelBuf → Option PixelBuf
unfolding is_bgra
largest [] = none
largest (pb ∷ rest) =
    let best = largest rest in
    if is_bgra pb
    then elim best [
      | none ↦ some pb
      | some other ↦ if leb (pixel_area pb) (pixel_area other) then some other else some pb
    ]
    else best

abbrev pub with_icon : Option Icon → ToplevelRec → ToplevelRec
with_icon icon t = record t { pending_icon = icon }

abbrev pub icon_of : PixelBuf → Icon
icon_of pb = record { width = pb.width; height = pb.height; stride = pb.stride; pixels = pb.bytes }

unfoldable pub apply_icon : ℕ → ToplevelRec → Option PixelBuf → State → State
apply_icon toplevel t picked s = elim picked [
  | none ↦ s
  | some pb ↦
      if t.created_window
      then call (post (WinCmd.set_icon t.window_id pb.width pb.height pb.stride pb.bytes)) s
      else record s { toplevels = modify toplevel (with_icon (some (icon_of pb))) s.toplevels }
]

unfoldable pub set_icon : Env → ℕ → Option ℕ → Map IconRec → State → Checked State
unfolding read_buffers largest apply_icon
set_icon env toplevel icon icons s = elim (lookup toplevel s.toplevels) [
  | none ↦ returns s
  | some t ↦ elim icon [
    | none ↦ returns (record s { toplevels = modify toplevel (with_icon none) s.toplevels })
    | some i ↦ elim (lookup i icons) [
      | none ↦ returns s
      | some rec ↦
          and_then (read_buffers env rec.buffers)
            (λ read. returns (apply_icon toplevel t (largest read) s))
    ]
  ]
]

-- `wp_cursor_shape_device_v1.set_shape`: known or not, the number goes to AppKit.
unfoldable pub set_shape : ℕ → State → State
set_shape shape s = call (post (WinCmd.set_cursor shape)) s

-- `xdg_dialog_v1.set_modal` and `unset_modal`.
unfoldable pub set_modal : ℕ → Bool → State → State
set_modal toplevel modal s = elim (lookup toplevel s.toplevels) [
  | none ↦ s
  | some t ↦ call (post (WinCmd.set_modal t.window_id modal)) s
]

-- The scale that `wp_fractional_scale_v1` is told, in 120ths.
unfoldable pub preferred_scale : ℕ → ℕ
preferred_scale scale = (if scale == 0 then 1 else scale) * 120

-- What a new `zxdg_output_v1` is told, and its `wl_output`.
pub data OutputEvent : Type 0 where
  logical_position : (x y : ℤ) → OutputEvent
  logical_size : (width height : ℤ) → OutputEvent
  output_name : Text → OutputEvent
  description : Text → OutputEvent
  xdg_done : OutputEvent
  output_done : OutputEvent

unfoldable pub get_xdg_output :
    (width height : ℤ) (scale xdg_version output_version : ℕ) → List OutputEvent
unfolding quot_ℤ
get_xdg_output width height scale xdg_version output_version =
    let d = if scale == 0 then 1 else scale in
    (logical_position (pos 0) (pos 0)
      ∷ logical_size (max_ℤ (quot_ℤ width d) (pos 1)) (max_ℤ (quot_ℤ height d) (pos 1))
      ∷ [])
    ++ ((if leb 2 xdg_version
          then output_name (codes "WL-1") ∷ description (codes "wayland-macos virtual output") ∷ []
          else [])
        ++ (if ltb xdg_version 3
            then xdg_done ∷ []
            else if leb 2 output_version
            then output_done ∷ []
            else []))
