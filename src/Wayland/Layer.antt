-- ===== src/Wayland/Layer.antt =====
-- src/wayland/mod.rs: docked bars, and the space that they reserve.
pub mod Insets
use wayland_macos.Base.{
  ℕ, ◌≡◌, ◌/◌, ◌%◌, Bool, true, false, not, ◌&&◌, ◌||◌, Option, none, some, List, [], ◌∷◌,
  if◌then◌else◌, ◌==◌, holds, Checked, crashes, returns, and_then, codes,
}
use wayland_macos.Base.Int.{ℤ, pos, max_ℤ, leb_ℤ}
use wayland_macos.Base.Map.{Map, lookup, insert, remove, modify}
use wayland_macos.Mac.{WinCmd, PixelBuf, Geom}
use wayland_macos.Wayland.Types.{
  Env, Event, keyboard_enter, MacCall, post, assign_window, set_reserved_insets, broadcast_insets,
  SurfaceRec, LayerSurfaceRec, State,
}
use wayland_macos.Wayland.Core.{send, call, next, devices_for, for_each, app_key_for}
use wayland_macos.Wayland.Shm.{buffer_to_pixels}
use wayland_macos.Wayland.Windows.{post_if}
use wayland_macos.Wayland.Subsurface.{surface_color}

-- Top, right, bottom and left.
abbrev pub Insets : Type 0
Insets = ℤ × ℤ × ℤ × ℤ

-- Whether an anchor has the bit of that weight.
abbrev pub has_edge : ℕ → ℕ → Bool
has_edge anchor weight = anchor / weight % 2 == 1

-- One turn of the loop of `recompute_reserved`.
unfoldable pub reserve : LayerSurfaceRec → Insets → Insets
reserve rec (top, right, bottom, left) =
    let z = rec.exclusive in
    let t = has_edge rec.anchor 1 in
    let b = has_edge rec.anchor 2 in
    let l = has_edge rec.anchor 4 in
    let r = has_edge rec.anchor 8 in
    if leb_ℤ z (pos 0) then (top, right, bottom, left) else (
      if t && not b then max_ℤ top z else top,
      if l && not r then right else if r && not l then max_ℤ right z else right,
      if t && not b then bottom else if b && not t then max_ℤ bottom z else bottom,
      if l && not r then max_ℤ left z else left,
    )

unfoldable pub reserve_all : Map LayerSurfaceRec → Insets → Insets
unfolding reserve
reserve_all [] insets = insets
reserve_all ((_, rec) ∷ m) insets = reserve_all m (reserve rec insets)

unfoldable pub recompute_reserved : State → State
unfolding reserve_all
recompute_reserved s =
    let (top, right, bottom, left) = reserve_all s.layer_surfaces (pos 0, pos 0, pos 0, pos 0) in
    call (broadcast_insets top right bottom left)
      (call (set_reserved_insets top right bottom left) s)

unfoldable pub reap_layer_surface : ℕ → State → State
reap_layer_surface ls_obj s = recompute_reserved (elim (lookup ls_obj s.layer_surfaces) [
  | none ↦ s
  | some rec ↦ post_if rec.created_window (WinCmd.destroy rec.window_id) (record s {
    layer_surfaces = remove ls_obj s.layer_surfaces;
    surface_layer = remove rec.wl_surface s.surface_layer;
    window_surface = remove rec.window_id s.window_surface;
    focus_window = if holds s.focus_window rec.window_id then none else s.focus_window;
  })
])

abbrev pub no_geom : Geom
no_geom = record { x = pos 0; y = pos 0; width = pos 0; height = pos 0 }

abbrev pub mark_layer : LayerSurfaceRec → LayerSurfaceRec
mark_layer l = record l { created_window = true }

abbrev pub set_window : ℕ → SurfaceRec → SurfaceRec
set_window id r = record r { window_id = some id }

-- A bar that wants the keyboard gets it when its window is created.
unfoldable pub focus_layer : Env → LayerSurfaceRec → State → State
unfolding devices_for
focus_layer env l s =
    if not (l.keyboard_interactivity == 0) && not (holds s.focus_window l.window_id)
    then for_each (λ k. send (keyboard_enter k s.next_serial l.wl_surface))
        (devices_for env s.keyboards l.wl_surface)
        (next (record s { focus_window = some l.window_id }))
    else s

-- The commands that create a bar's window.
unfoldable pub create_layer_window : Env → ℕ → ℕ → LayerSurfaceRec → PixelBuf → State → State
unfolding app_key_for
create_layer_window env sid ls_id l buf s =
    let (keys, app_key) = app_key_for s.client_app_ids (env.client l.wl_surface) in
    focus_layer env l (
      call
        (post (
          WinCmd.create_layer l.window_id buf.width buf.height l.anchor l.margin.0 l.margin.1
            l.margin.2 l.margin.3 (not (l.keyboard_interactivity == 0))))
        (call (assign_window l.window_id app_key (codes "bar") false) (record s {
          client_app_ids = keys;
          layer_surfaces = modify ls_id mark_layer s.layer_surfaces;
          surfaces = modify sid (set_window l.window_id) s.surfaces;
        })))

-- `layer_surfaces[&ls_id]` panics if there is no such entry.
unfoldable pub present_layer : Env → ℕ → ℕ → State → Checked State
present_layer env sid buffer s = elim (lookup sid s.surface_layer) [
  | none ↦ returns s
  | some ls_id ↦ and_then (buffer_to_pixels env buffer) (λ pb. elim pb [
    | none ↦ returns s
    | some buf ↦ elim (lookup ls_id s.layer_surfaces) [
      | none ↦ crashes
      | some l ↦
          let created = if l.created_window then s else create_layer_window env sid ls_id l buf s in
          returns (
            call (post (WinCmd.frame l.window_id buf (pos 0) (pos 0) (surface_color s sid) no_geom))
              created)
    ]
  ])
]
