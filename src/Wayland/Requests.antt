-- ===== src/Wayland/Requests.antt =====
-- The requests of clients that change the state: src/wayland/xdg_shell.rs, compositor.rs,
-- layer_shell.rs, seat.rs, viewporter.rs, decoration.rs, presentation.rs, xdg_activation.rs. A
-- request that makes an object carries the new object's id.
use wayland_macos.Base.{
  ℕ, Bool, true, false, ◌&&◌, Option, none, some, [], ◌∷◌, ◌++◌, if◌then◌else◌, ◌==◌, leb, holds,
  or_else, Checked, returns,
}
use wayland_macos.Base.Int.{ℤ, pos, pos_part, neg_part}
use wayland_macos.Base.Map.{lookup, insert, remove, modify}
use wayland_macos.Mac.{WinCmd, Text}
use wayland_macos.Wayland.Types.{
  Env, preferred_buffer_scale, post_error, keymap, repeat_info, decoration_server_side, post,
  SurfaceRec, surface_rec_default, ToplevelRec, PositionerState, PopupRec, LayerSurfaceRec, State,
}
use wayland_macos.Wayland.Core.{send, call, alloc_window_id, wayland_window}
use wayland_macos.Wayland.Positioner
use wayland_macos.Wayland.Positioner.{positioner_default, origin_x, origin_y, popup_origin}
use wayland_macos.Wayland.Windows.{post_if, reap_toplevel, window_for_surface}
use wayland_macos.Wayland.Subsurface.{reap_subsurface}
use wayland_macos.Wayland.Layer.{recompute_reserved, reap_layer_surface}
use wayland_macos.Wayland.Commit.{apply_cursor_surface}

abbrev pub new_toplevel : ℕ → ℕ → ℕ → ℕ → ToplevelRec
new_toplevel id xdg_surface surface window_id = record {
  toplevel = id;
  xdg_surface = xdg_surface;
  wl_surface = surface;
  title = wayland_window;
  app_id = [];
  window_id = window_id;
  configured = false;
  created_window = false;
  maximized = false;
  fullscreen = false;
  wants_ssd = false;
  pending_icon = none;
}

unfoldable pub get_toplevel : ℕ → ℕ → ℕ → State → State
get_toplevel xdg_surface surface id s =
    let window_id = s.next_window_id in
    alloc_window_id (record s {
      toplevels = insert id (new_toplevel id xdg_surface surface window_id) s.toplevels;
      surface_toplevel = insert surface id s.surface_toplevel;
      window_surface = insert window_id surface s.window_surface;
    })

-- A positioner without a size makes a popup of 200 by 200.
abbrev is_zero : ℤ → Bool
is_zero z = pos_part z == 0 && neg_part z == 0

abbrev pub sized : PositionerState → PositionerState
sized p = if is_zero p.size.0 && is_zero p.size.1 then record p { size = (pos 200, pos 200) } else p

abbrev pub new_popup : ℕ → ℕ → ℕ → ℕ → ℕ → PositionerState → PopupRec
new_popup id xdg_surface surface parent_window window_id p = record {
  popup = id;
  xdg_surface = xdg_surface;
  wl_surface = surface;
  parent_window = parent_window;
  window_id = window_id;
  x = (popup_origin p).0;
  y = (popup_origin p).1;
  x_flip = origin_x p true;
  y_flip = origin_y p true;
  constraint = p.constraint_adjustment;
  w = p.size.0;
  h = p.size.1;
  configured = false;
  created_window = false;
  dismissed = false;
}

-- The window of a popup's parent, 0 if there is none.
unfoldable pub parent_window_of : Env → Option ℕ → State → ℕ
parent_window_of env parent s = elim parent [
  | none ↦ 0
  | some ps ↦ elim (env.xdg_surface_data ps) [
    | none ↦ 0
    | some surface ↦ or_else (window_for_surface s surface) 0
  ]
]

unfoldable pub get_popup : Env → ℕ → ℕ → ℕ → Option ℕ → ℕ → State → State
unfolding parent_window_of
get_popup env xdg_surface surface id parent positioner s =
    let place = sized (or_else (lookup positioner s.positioners) positioner_default) in
    let window_id = s.next_window_id in
    alloc_window_id (record s {
      popups =
          insert id
            (new_popup id xdg_surface surface (parent_window_of env parent s) window_id place)
            s.popups;
      surface_popup = insert surface id s.surface_popup;
      window_surface = insert window_id surface s.window_surface;
    })

abbrev pub new_layer : ℕ → ℕ → ℕ → LayerSurfaceRec
new_layer id surface window_id = record {
  layer_surface = id;
  wl_surface = surface;
  window_id = window_id;
  anchor = 0;
  size = (0, 0);
  margin = (pos 0, pos 0, pos 0, pos 0);
  exclusive = pos 0;
  keyboard_interactivity = 0;
  configured = false;
  created_window = false;
}

unfoldable pub get_layer_surface : ℕ → ℕ → State → State
get_layer_surface surface id s =
    let window_id = s.next_window_id in
    alloc_window_id (record s {
      layer_surfaces = insert id (new_layer id surface window_id) s.layer_surfaces;
      surface_layer = insert surface id s.surface_layer;
      window_surface = insert window_id surface s.window_surface;
    })

-- A surface that is its own parent is refused.
unfoldable pub get_subsurface : ℕ → ℕ → ℕ → ℕ → State → State
get_subsurface subcompositor id surface parent s =
    if surface == parent
    then send (post_error subcompositor) s
    else alloc_window_id (record s {
      subsurfaces =
          insert id
            (record {
              surface = surface;
              parent = parent;
              x = pos 0;
              y = pos 0;
              sub_id = s.next_window_id;
            })
            s.subsurfaces;
      surface_subsurface = insert surface id s.surface_subsurface;
    })

-- What a toplevel's record and the commands to its window become.
unfoldable pub set_toplevel : ℕ → (ToplevelRec → ToplevelRec) → State → State
set_toplevel id f s = record s { toplevels = modify id f s.toplevels }

unfoldable pub tell_toplevel : ℕ → (ToplevelRec → Bool) → (ℕ → WinCmd) → State → State
tell_toplevel id p cmd s = elim (lookup id s.toplevels) [
  | none ↦ s
  | some t ↦ post_if (p t) (cmd t.window_id) s
]

-- The requests of an `xdg_toplevel`.
pub data ToplevelRequest : Type 0 where
  set_title set_app_id : Text → ToplevelRequest
  move : ToplevelRequest
  resize : (edges : ℕ) → ToplevelRequest
  set_maximized unset_maximized set_fullscreen unset_fullscreen set_minimized : ToplevelRequest
  set_min_size set_max_size : (width height : ℤ) → ToplevelRequest
  destroy other : ToplevelRequest

abbrev always : ToplevelRec → Bool
always t = true

unfoldable pub toplevel_request : ℕ → ToplevelRequest → State → State
toplevel_request id (set_title title) s =
    tell_toplevel id (λ t. t.created_window) (λ w. WinCmd.title w title)
      (set_toplevel id (λ t. record t { title = title }) s)
toplevel_request id (set_app_id app_id) s = set_toplevel id (λ t. record t { app_id = app_id }) s
toplevel_request id move s = tell_toplevel id (λ t. t.created_window) WinCmd.start_move s
toplevel_request id (resize edges) s =
    tell_toplevel id (λ t. t.created_window) (λ w. WinCmd.start_resize w edges) s
toplevel_request id set_maximized s =
    tell_toplevel id always (λ w. WinCmd.maximize w true)
      (set_toplevel id (λ t. record t { maximized = true }) s)
toplevel_request id unset_maximized s =
    tell_toplevel id always (λ w. WinCmd.maximize w false)
      (set_toplevel id (λ t. record t { maximized = false }) s)
toplevel_request id set_fullscreen s =
    tell_toplevel id always (λ w. WinCmd.fullscreen w true)
      (set_toplevel id (λ t. record t { fullscreen = true }) s)
toplevel_request id unset_fullscreen s =
    tell_toplevel id always (λ w. WinCmd.fullscreen w false)
      (set_toplevel id (λ t. record t { fullscreen = false }) s)
toplevel_request id set_minimized s = tell_toplevel id always WinCmd.minimize s
toplevel_request id (set_min_size width height) s =
    tell_toplevel id always (λ w. WinCmd.set_min_size w width height) s
toplevel_request id (set_max_size width height) s =
    tell_toplevel id always (λ w. WinCmd.set_max_size w width height) s
toplevel_request id destroy s = reap_toplevel id s
toplevel_request id other s = s

unfoldable pub popup_grab : ℕ → State → State
popup_grab id s = elim (lookup id s.popups) [
  | none ↦ s
  | some p ↦ call (post (WinCmd.set_grab (some p.window_id))) s
]

-- The requests of a `zwlr_layer_surface_v1`.
pub data LayerRequest : Type 0 where
  set_size : (width height : ℕ) → LayerRequest
  set_anchor : (anchor : ℕ) → LayerRequest
  set_margin : (top right bottom left : ℤ) → LayerRequest
  set_exclusive_zone : (zone : ℤ) → LayerRequest
  set_keyboard_interactivity : (mode : ℕ) → LayerRequest
  destroy other : LayerRequest

abbrev pub set_layer : ℕ → (LayerSurfaceRec → LayerSurfaceRec) → State → State
set_layer id f s = record s { layer_surfaces = modify id f s.layer_surfaces }

unfoldable pub known_layer_request : ℕ → LayerRequest → State → State
known_layer_request id (set_size width height) s =
    set_layer id (λ l. record l { size = (width, height) }) s
known_layer_request id (set_anchor anchor) s =
    recompute_reserved (set_layer id (λ l. record l { anchor = anchor }) s)
known_layer_request id (set_margin top right bottom left) s =
    set_layer id (λ l. record l { margin = (top, right, bottom, left) }) s
known_layer_request id (set_exclusive_zone zone) s =
    recompute_reserved (set_layer id (λ l. record l { exclusive = zone }) s)
known_layer_request id (set_keyboard_interactivity mode) s =
    set_layer id (λ l. record l { keyboard_interactivity = mode }) s
known_layer_request id destroy s = reap_layer_surface id s
known_layer_request id other s = s

-- An unknown object's requests are ignored.
unfoldable pub layer_request : ℕ → LayerRequest → State → State
layer_request id r s = elim (lookup id s.layer_surfaces) [
  | none ↦ s
  | some _ ↦ known_layer_request id r s
]

-- `wl_surface.destroy`: each part in the order of the source.
unfoldable pub drop_toplevel : ℕ → State → State
drop_toplevel sid s = elim (lookup sid s.surface_toplevel) [
  | none ↦ s
  | some tl_id ↦
      let forgot = record s { surface_toplevel = remove sid s.surface_toplevel } in
      elim (lookup tl_id s.toplevels) [
        | none ↦ forgot
        | some t ↦
            post_if t.created_window (WinCmd.destroy t.window_id)
              (record forgot { toplevels = remove tl_id s.toplevels })
      ]
]

unfoldable pub drop_subsurface : ℕ → State → State
drop_subsurface sid s = elim (lookup sid s.surface_subsurface) [
  | none ↦ s
  | some sub_obj ↦ reap_subsurface sub_obj s
]

unfoldable pub drop_layer : ℕ → State → State
drop_layer sid s = elim (lookup sid s.surface_layer) [
  | none ↦ s
  | some ls_obj ↦ reap_layer_surface ls_obj s
]

unfoldable pub forget_surface : ℕ → State → State
forget_surface sid s = record s {
  cursor_surface = if holds s.cursor_surface sid then none else s.cursor_surface;
  surfaces = remove sid s.surfaces;
}

unfoldable pub destroy_surface : ℕ → State → State
destroy_surface sid s =
    forget_surface sid (drop_layer sid (drop_subsurface sid (drop_toplevel sid s)))

unfoldable pub create_surface : Env → ℕ → State → State
create_surface env id s =
    let told =
      if leb 6 (env.version id) then send (preferred_buffer_scale id (pos env.scale)) s else s in
    record told { surfaces = insert id surface_rec_default s.surfaces }

abbrev pub set_surface : ℕ → (SurfaceRec → SurfaceRec) → State → State
set_surface sid f s = record s { surfaces = modify sid f s.surfaces }

abbrev send_keymap : Env → ℕ → State → State
send_keymap env id s = elim env.keymap_size [ none ↦ s | some n ↦ send (keymap id n) s ]

unfoldable pub get_keyboard : Env → ℕ → State → State
get_keyboard env id s =
    let mapped = send_keymap env id s in
    let told =
      if leb 4 (env.version id) then send (repeat_info id (pos 25) (pos 600)) mapped else mapped in
    record told { keyboards = s.keyboards ++ (id ∷ []) }

-- A positioner's entry is made if it is missing.
unfoldable pub positioner_request : ℕ → Positioner.Request → State → State
positioner_request id r s = record s {
  positioners =
      insert id (Positioner.request (or_else (lookup id s.positioners) positioner_default) r)
        s.positioners;
}

unfoldable pub set_cursor : Env → Option ℕ → ℤ → ℤ → State → Checked State
set_cursor env (some surface) x y s =
    apply_cursor_surface env surface
      (record s { cursor_surface = some surface; cursor_hotspot = (x, y) })
set_cursor env none x y s =
    returns (call (post WinCmd.hide_cursor) (record s { cursor_surface = none }))

unfoldable pub activate : ℕ → State → State
activate surface s = elim (window_for_surface s surface) [
  | none ↦ s
  | some window_id ↦ call (post (WinCmd.activate window_id)) s
]

unfoldable pub decorate : ℕ → ℕ → State → State
decorate id toplevel s =
    send (decoration_server_side id) (set_toplevel toplevel (λ t. record t { wants_ssd = true }) s)

unfoldable pub add_feedback : ℕ → ℕ → State → State
add_feedback surface callback s = record s {
  presentation_feedback =
      insert surface (or_else (lookup surface s.presentation_feedback) [] ++ (callback ∷ []))
        s.presentation_feedback;
}
