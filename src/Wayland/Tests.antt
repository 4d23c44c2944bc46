-- ===== src/Wayland/Tests.antt =====
-- Runs of the compositor's model at concrete inputs.
pub mod Windows
pub mod Color
pub mod Loop
pub mod Selection
use mathlib.Core.List.{Permᴰ, reverse_aux}
use wayland_macos.Base.{
  ◌+◌, ℕ, suc, ◌≡◌, refl, ◌↔◌, ◌≤◌, Bool, true, false, Option, none, some, List, [], ◌∷◌, map,
  length, arith, crashes, returns, codes, contains, if◌then◌else◌, ◌==◌,
}
use wayland_macos.Base.Int.{ℤ, pos, IsI32, ◌+i32◌}
use wayland_macos.Base.Map.{size}
use wayland_macos.Mac.{PixelBuf, bgra8888}
use wayland_macos.Wayland.Types.{
  ToplevelRec, BufferKind, shm, single_pixel, Env, callback_done, surface_rec_default,
  SubsurfaceRec, LayerSurfaceRec, PositionerState, State,
}
use wayland_macos.Wayland.Core.{is_empty, app_display_name, all_callbacks, vblank_tick}
use wayland_macos.Wayland.Core.Names.{IsClean, app_display_name_safe}
use wayland_macos.Wayland.Core.Tick.{tick_answers}
use wayland_macos.Mac.Image.{accepts_image}
use wayland_macos.Wayland.Shm.{
  shm_pixel_format, buffer_to_pixels, checked_range, copy_range, copy_out, slice, checked_mul,
  checked_add,
}
use wayland_macos.Wayland.Shm.Drawn.{buffer_to_pixels-accepts_image}
use wayland_macos.Wayland.Shm.Bounds.{
  IsSane, Readable, buffer_to_pixels_exact, unallocatable_crashes,
}
use wayland_macos.Wayland.Positioner.{positioner_default, origin_x, origin_y}
use wayland_macos.Wayland.Positioner.Flip.{mirror_x, mirror_y, mirrored, flip_mirrors}
use wayland_macos.Wayland.Windows.{dismiss_popup, window_for_surface}
use wayland_macos.Wayland.Windows.Dismiss.{IsDistinct, dismiss_once}
use wayland_macos.Wayland.Subsurface.Complete.{resolve_none}
use wayland_macos.Wayland.Subsurface.{out_of_fuel, subsurface_of, resolve_walk, resolve_subsurface}
use wayland_macos.Wayland.Subsurface.Root.{climb, resolve_ends, resolve_root}
use wayland_macos.Wayland.Layer.{reserve_all}
use wayland_macos.Wayland.Layer.Insets.{reserve_all_order}
use wayland_macos.Wayland.Commit.{present_toplevel}
use wayland_macos.Wayland.Commit.Create.{creations, present_creates}
use wayland_macos.Wayland.Input.{focus_event}
use wayland_macos.Wayland.Input.Focus.{focus_twice}
use wayland_macos.Wayland.Requests.{new_toplevel, new_popup, new_layer}
use wayland_macos.Wayland.Steps.{Action}

-- A compositor that has just started.
abbrev pub empty : State
empty = record {
  next_window_id = 1;
  next_serial = 1;
  client_app_ids = [];
  surfaces = [];
  toplevels = [];
  surface_toplevel = [];
  window_surface = [];
  positioners = [];
  popups = [];
  surface_popup = [];
  pointers = [];
  keyboards = [];
  pointer_focus = none;
  focus_window = none;
  presentation_feedback = [];
  cursor_surface = none;
  cursor_hotspot = (pos 0, pos 0);
  subsurfaces = [];
  surface_subsurface = [];
  layer_surfaces = [];
  surface_layer = [];
  clipboard = record {
    devices = [];
    source_mimes = [];
    mac_offer = none;
    active_source = none;
    pending_close = 0;
  };
  sent = [];
  calls = [];
}

-- One client with live objects: buffer 9 is a single pixel, buffer 10 two rows of one in pool 1.
abbrev buffers : ℕ → Option BufferKind
buffers b =
    if b == 9
    then some (single_pixel (1 ∷ 2 ∷ 3 ∷ 4 ∷ []))
    else if b == 10
    then some (shm 1 (pos 0) (pos 1) (pos 2) (pos 4) 0)
    else none

abbrev pub env_with : (ℕ → Bool) → Env
env_with can_alloc = record {
  is_alive = λ d. true;
  client = λ d. some 1;
  version = λ d. 6;
  buffer_data = buffers;
  xdg_surface_data = λ x. none;
  mapping = λ p. some (1 ∷ 2 ∷ 3 ∷ 4 ∷ 5 ∷ 6 ∷ 7 ∷ 8 ∷ []);
  can_alloc = can_alloc;
  xrgb2101010 = 808669784;
  argb2101010 = 808669761;
  abgr16161616f = 1211384385;
  scale = 2;
  output_w = pos 1920;
  output_h = pos 1080;
  time = 16;
  keymap_size = none;
  monotonic = (1, 5);
  create_offer = λ d. none;
  to_uppercase = λ c. c ∷ [];
  is_whitespace = λ c. false;
}

abbrev pub env : Env
env = env_with (λ n. true)

-- A popup on surface 7, which commits a buffer.
abbrev popup_steps : List (Env × Action)
popup_steps =
    (env, Action.get_popup 2 7 3 none 4)
    ∷ (env, Action.create_surface 7)
    ∷ (env, Action.attach 7 (some 9))
    ∷ (env, Action.commit 7)
    ∷ []

-- The two rows of buffer 10.
abbrev pub two_rows : PixelBuf
two_rows = record {
  width = pos 1;
  height = pos 2;
  stride = pos 4;
  format = bgra8888;
  bytes = 1 ∷ 2 ∷ 3 ∷ 4 ∷ 5 ∷ 6 ∷ 7 ∷ 8 ∷ [];
}

i32_0 : IsI32 (pos 0)
i32_0 = (omega arith, omega arith)

i32_2 : IsI32 (pos 2)
i32_2 = (omega arith, omega arith)

i32_4 : IsI32 (pos 4)
i32_4 = (omega arith, omega arith)

rows-IsSane : IsSane (env_with (λ n. false)) (pos 0) (pos 1) (pos 2) (pos 4) 0
unfolding shm_pixel_format
rows-IsSane = record {
  wide = omega arith;
  high = omega arith;
  offset_nonneg = refl;
  stride_nonneg = refl;
  rows = omega arith;
}

buffer_to_pixels_exact_example : (buffer_to_pixels env 10 ≡ returns (some two_rows)) ↔ (
    IsSane env (pos 0) (pos 1) (pos 2) (pos 4) 0
    × Readable env 10 1
        (pos 0)
        (pos 1)
        (pos 2)
        (pos 4)
        0
        refl
        i32_0
        i32_2
        i32_4
        (λ n. refl)
        two_rows)
buffer_to_pixels_exact_example =
    buffer_to_pixels_exact env 10 1 (pos 0) (pos 1) (pos 2) (pos 4) 0 refl i32_0 i32_2 i32_4
      (λ n. refl) two_rows

unallocatable_crashes_example : buffer_to_pixels (env_with (λ n. false)) 10 ≡ crashes
unallocatable_crashes_example =
    unallocatable_crashes (env_with (λ n. false)) 10 1 (pos 0) (pos 1) (pos 2) (pos 4) 0 refl i32_0
      i32_2 i32_4 rows-IsSane refl

buffer_to_pixels-accepts_image_example : accepts_image two_rows ≡ true
unfolding buffer_to_pixels checked_range copy_range copy_out slice checked_mul checked_add
    shm_pixel_format
buffer_to_pixels-accepts_image_example =
    buffer_to_pixels-accepts_image env 10 1 (pos 0) (pos 1) (pos 2) (pos 4) 0 refl i32_0 i32_2 i32_4
      (λ n. refl) two_rows refl
