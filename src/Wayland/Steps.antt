-- ===== src/Wayland/Steps.antt =====
-- The Wayland thread as a machine: what its loop in src/wayland/mod.rs hands to the state, one
-- request, destruction, input event or tick at a time. The library decides the order.
use wayland_macos.Base.{
  ℕ, true, ◌&&◌, Option, none, some, List, [], ◌∷◌, ◌++◌, if◌then◌else◌, Checked, returns, and_then,
}
use wayland_macos.Base.Int.{ℤ, pos, ltb_ℤ}
use wayland_macos.Base.Map.{insert, modify}
use wayland_macos.Wayland.Types.{Env, SurfaceRec, SubsurfaceRec, State}
use wayland_macos.Wayland.Core.{vblank_tick}
use wayland_macos.Wayland.Positioner
use wayland_macos.Wayland.Positioner.{positioner_default}
use wayland_macos.Wayland.Windows.{reap_toplevel, reap_popup}
use wayland_macos.Wayland.Subsurface.{reap_subsurface}
use wayland_macos.Wayland.Layer.{reap_layer_surface}
use wayland_macos.Wayland.Commit.{handle_commit}
use wayland_macos.Wayland.Input.{InputEvent, process_input}
use wayland_macos.Wayland.Requests
use wayland_macos.Wayland.Requests.{
  set_surface, ToplevelRequest, toplevel_request, LayerRequest, layer_request, positioner_request,
  add_feedback,
}

pub data Action : Type 0 where
  create_surface : (id : ℕ) → Action
  attach : (surface : ℕ) (buffer : Option ℕ) → Action
  frame : (surface callback : ℕ) → Action
  commit : (surface : ℕ) → Action
  destroy_surface : (surface : ℕ) → Action
  get_subsurface : (subcompositor id surface parent : ℕ) → Action
  set_position : (subsurface : ℕ) (x y : ℤ) → Action
  destroy_subsurface : (subsurface : ℕ) → Action
  create_positioner : (id : ℕ) → Action
  on_positioner : (id : ℕ) (request : Positioner.Request) → Action
  set_window_geometry : (surface : ℕ) (x y width height : ℤ) → Action
  get_toplevel : (xdg_surface surface id : ℕ) → Action
  get_popup : (xdg_surface surface id : ℕ) (parent : Option ℕ) (positioner : ℕ) → Action
  on_toplevel : (id : ℕ) (request : ToplevelRequest) → Action
  toplevel_destroyed : (id : ℕ) → Action
  popup_grab : (id : ℕ) → Action
  -- The request, and the object's end with its client.
  popup_destroyed : (id : ℕ) → Action
  get_layer_surface : (surface id : ℕ) → Action
  on_layer : (id : ℕ) (request : LayerRequest) → Action
  layer_destroyed : (id : ℕ) → Action
  get_pointer : (id : ℕ) → Action
  get_keyboard : (id : ℕ) → Action
  set_cursor : (surface : Option ℕ) (hotspot_x hotspot_y : ℤ) → Action
  set_destination : (surface : ℕ) (width height : ℤ) → Action
  decorate : (decoration toplevel : ℕ) → Action
  feedback : (surface callback : ℕ) → Action
  activate : (surface : ℕ) → Action
  input : InputEvent → Action
  tick : Action

-- The requests on a surface that only write its record.
abbrev attach_buffer : Option ℕ → SurfaceRec → SurfaceRec
attach_buffer buffer r = record r { pending_buffer = buffer; pending_attach = true }

abbrev add_callback : ℕ → SurfaceRec → SurfaceRec
add_callback callback r = record r { frame_callbacks = r.frame_callbacks ++ (callback ∷ []) }

abbrev set_geometry : ℤ → ℤ → ℤ → ℤ → SurfaceRec → SurfaceRec
set_geometry x y width height r = record r {
  geometry_offset = (x, y);
  geometry_size = (width, height);
}

abbrev set_viewport : ℤ → ℤ → SurfaceRec → SurfaceRec
set_viewport width height r = record r {
  viewport_dst = if ltb_ℤ (pos 0) width && ltb_ℤ (pos 0) height then some (width, height) else none;
}

abbrev set_place : ℤ → ℤ → SubsurfaceRec → SubsurfaceRec
set_place x y r = record r { x = x; y = y }

-- Only a commit and a cursor show buffers, so only they can crash.
unfoldable pub quiet_step : Env → Action → State → State
quiet_step env (create_surface id) s = Requests.create_surface env id s
quiet_step env (attach surface buffer) s = set_surface surface (attach_buffer buffer) s
quiet_step env (frame surface callback) s = set_surface surface (add_callback callback) s
quiet_step env (commit surface) s = s
quiet_step env (destroy_surface surface) s = Requests.destroy_surface surface s
quiet_step env (get_subsurface subcompositor id surface parent) s =
    Requests.get_subsurface subcompositor id surface parent s
quiet_step env (set_position subsurface x y) s = record s {
  subsurfaces = modify subsurface (set_place x y) s.subsurfaces;
}
quiet_step env (destroy_subsurface subsurface) s = reap_subsurface subsurface s
quiet_step env (create_positioner id) s = record s {
  positioners = insert id positioner_default s.positioners;
}
quiet_step env (on_positioner id request) s = positioner_request id request s
quiet_step env (set_window_geometry surface x y width height) s =
    set_surface surface (set_geometry x y width height) s
quiet_step env (get_toplevel xdg_surface surface id) s =
    Requests.get_toplevel xdg_surface surface id s
quiet_step env (get_popup xdg_surface surface id parent positioner) s =
    Requests.get_popup env xdg_surface surface id parent positioner s
quiet_step env (on_toplevel id request) s = toplevel_request id request s
quiet_step env (toplevel_destroyed id) s = reap_toplevel id s
quiet_step env (popup_grab id) s = Requests.popup_grab id s
quiet_step env (popup_destroyed id) s = reap_popup id s
quiet_step env (get_layer_surface surface id) s = Requests.get_layer_surface surface id s
quiet_step env (on_layer id request) s = layer_request id request s
quiet_step env (layer_destroyed id) s = reap_layer_surface id s
quiet_step env (get_pointer id) s = record s { pointers = s.pointers ++ (id ∷ []) }
quiet_step env (get_keyboard id) s = Requests.get_keyboard env id s
quiet_step env (set_cursor surface hotspot_x hotspot_y) s = s
quiet_step env (set_destination surface width height) s =
    set_surface surface (set_viewport width height) s
quiet_step env (decorate decoration toplevel) s = Requests.decorate decoration toplevel s
quiet_step env (feedback surface callback) s = add_feedback surface callback s
quiet_step env (activate surface) s = Requests.activate surface s
quiet_step env (input event) s = process_input env event s
quiet_step env tick s = vblank_tick env s

unfoldable pub step : Env → Action → State → Checked State
step env (commit surface) s = handle_commit env surface s
step env (set_cursor surface hotspot_x hotspot_y) s =
    Requests.set_cursor env surface hotspot_x hotspot_y s
step env action s = returns (quiet_step env action s)

-- The environment changes between the steps.
unfoldable pub run : List (Env × Action) → State → Checked State
unfolding step
run [] s = returns s
run ((env, action) ∷ rest) s = and_then (step env action s) (run rest)
