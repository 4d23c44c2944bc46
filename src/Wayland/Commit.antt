-- ===== src/Wayland/Commit.antt =====
-- src/wayland/mod.rs: what a commit does, and how a buffer comes to a window. The handlers
-- release a buffer after they have copied it.
pub mod Create
use wayland_macos.Base.{
  ℕ, Bool, true, false, Option, none, some, [], if◌then◌else◌, ltb, leb, holds, is_some, or_else,
  Checked, crashes, returns, and_then,
}
use wayland_macos.Base.Int.{ℤ, pos, ◌+i32◌, ◌-i32◌, quot_ℤ, max_ℤ, u32_as_i32}
use wayland_macos.Base.Map.{lookup, modify}
use wayland_macos.Mac.{WinCmd, PixelBuf, Geom}
use wayland_macos.Wayland.Types.{
  Env, wm_capabilities, toplevel_configure, xdg_surface_configure, popup_configure, layer_configure,
  buffer_release, post, assign_window, SurfaceRec, ToplevelRec, PopupRec, LayerSurfaceRec, State,
}
use wayland_macos.Wayland.Core.{send, call, next, app_key_for, app_display_name}
use wayland_macos.Wayland.Shm.{buffer_to_pixels}
use wayland_macos.Wayland.Windows.{unmap_surface}
use wayland_macos.Wayland.Subsurface.{surface_color, surface_dst, present_subsurface}
use wayland_macos.Wayland.Layer.{no_geom, set_window, present_layer}

-- The offset of a surface's content within its buffer, and its bounds.
unfoldable pub geometry_offset : State → ℕ → ℤ × ℤ
geometry_offset s sid = elim (lookup sid s.surfaces) [
  | none ↦ (pos 0, pos 0)
  | some r ↦ r.geometry_offset
]

unfoldable pub surface_geom : State → ℕ → Geom
surface_geom s sid = elim (lookup sid s.surfaces) [
  | none ↦ no_geom
  | some r ↦ record {
    x = r.geometry_offset.0;
    y = r.geometry_offset.1;
    width = r.geometry_size.0;
    height = r.geometry_size.1;
  }
]

unfoldable pub frame_of : State → ℕ → ℕ → PixelBuf → Geom → WinCmd
unfolding surface_color surface_dst
frame_of s sid window_id buf geom =
    let dst = surface_dst s sid in WinCmd.frame window_id buf dst.0 dst.1 (surface_color s sid) geom

abbrev pub flush_icon : ToplevelRec → State → State
flush_icon t s = elim t.pending_icon [
  | none ↦ s
  | some i ↦ call (post (WinCmd.set_icon t.window_id i.width i.height i.stride i.pixels)) s
]

abbrev pub mark_toplevel : ToplevelRec → ToplevelRec
mark_toplevel t = record t { created_window = true; pending_icon = none }

-- The commands that create a toplevel's window.
unfoldable pub create_toplevel_window : Env → ℕ → ℕ → ToplevelRec → PixelBuf → State → State
unfolding app_key_for surface_geom surface_dst
create_toplevel_window env sid tl_id t buf s =
    let (keys, app_key) = app_key_for s.client_app_ids (env.client t.wl_surface) in
    let dst = surface_dst s sid in
    flush_icon t (
      call
        (post (
          WinCmd.create t.window_id buf.width buf.height dst.0 dst.1 t.wants_ssd t.title
            (surface_geom s sid)))
        (call (assign_window t.window_id app_key (app_display_name env t.app_id t.title) true)
          (record s {
            client_app_ids = keys;
            toplevels = modify tl_id mark_toplevel s.toplevels;
            surfaces = modify sid (set_window t.window_id) s.surfaces;
          })))

abbrev pub mark_popup : PopupRec → PopupRec
mark_popup p = record p { created_window = true }

-- A popup's place is moved by the content offsets of its parent and of itself.
abbrev pub adjust : ℤ → ℤ → ℤ → ℤ
adjust parent own place = parent +i32 place -i32 own

abbrev pub parent_offset : State → PopupRec → ℤ × ℤ
parent_offset s p = elim (lookup p.parent_window s.window_surface) [
  | none ↦ (pos 0, pos 0)
  | some parent ↦ geometry_offset s parent
]

-- The command that creates a popup's window.
unfoldable pub create_popup_window : ℕ → ℕ → PopupRec → PixelBuf → State → State
unfolding geometry_offset ◌+i32◌ ◌-i32◌
create_popup_window sid pp_id p buf s =
    let own = geometry_offset s sid in
    let parent = parent_offset s p in
    call
      (post (
        WinCmd.create_popup p.window_id p.parent_window (adjust parent.0 own.0 p.x)
          (adjust parent.1 own.1 p.y) (adjust parent.0 own.0 p.x_flip)
          (adjust parent.1 own.1 p.y_flip) p.constraint buf.width buf.height))
      (record s { popups = modify pp_id mark_popup s.popups })

unfoldable pub present_toplevel : Env → ℕ → ℕ → PixelBuf → State → State
unfolding surface_geom
present_toplevel env sid tl_id buf s = elim (lookup tl_id s.toplevels) [
  | none ↦ s
  | some t ↦
      call (post (frame_of s sid t.window_id buf (surface_geom s sid)))
        (if t.created_window then s else create_toplevel_window env sid tl_id t buf s)
]

-- `popups[&pp_id]` panics if there is no such entry.
unfoldable pub present_popup : ℕ → ℕ → PixelBuf → State → Checked State
present_popup sid pp_id buf s = elim (lookup pp_id s.popups) [
  | none ↦ crashes
  | some p ↦ returns (
      call (post (frame_of s sid p.window_id buf no_geom))
        (if p.created_window then s else create_popup_window sid pp_id p buf s))
]

unfoldable pub present_pixels : Env → ℕ → PixelBuf → State → Checked State
present_pixels env sid buf s = elim (lookup sid s.surface_toplevel) [
  | some tl_id ↦ returns (present_toplevel env sid tl_id buf s)
  | none ↦ elim (lookup sid s.surface_popup) [
    | some pp_id ↦ present_popup sid pp_id buf s
    | none ↦ returns s
  ]
]

unfoldable pub present : Env → ℕ → ℕ → State → Checked State
present env sid buffer s =
    and_then (buffer_to_pixels env buffer)
      (λ pb. elim pb [ none ↦ returns s | some buf ↦ present_pixels env sid buf s ])

-- The image of the cursor is set from a buffer, if it is readable.
unfoldable pub set_cursor_image : Env → ℕ → State → Checked State
set_cursor_image env buffer s = and_then (buffer_to_pixels env buffer) (λ pb. elim pb [
  | none ↦ returns s
  | some buf ↦ returns (
      call
        (post (
          WinCmd.set_cursor_image buf.width buf.height buf.stride s.cursor_hotspot.0
            s.cursor_hotspot.1 (pos env.scale) buf.bytes))
        s)
])

-- `pending_buffer.take()`, and the buffer.
abbrev pub take_buffer : SurfaceRec → SurfaceRec
take_buffer r = record r { pending_buffer = none }

unfoldable pub pending_buffer_of : State → ℕ → Option ℕ
pending_buffer_of s sid = elim (lookup sid s.surfaces) [ none ↦ none | some r ↦ r.pending_buffer ]

abbrev pub release : ℕ → State → Checked State
release buffer s = returns (send (buffer_release buffer) s)

unfoldable pub apply_cursor_surface : Env → ℕ → State → Checked State
unfolding pending_buffer_of
apply_cursor_surface env sid s =
    let taken = record s { surfaces = modify sid take_buffer s.surfaces } in
    elim (pending_buffer_of s sid) [
      | none ↦ returns taken
      | some buffer ↦ and_then (set_cursor_image env buffer taken) (release buffer)
    ]

-- The three handshakes: the first commit is answered with a configure.
unfoldable pub configure_toplevel : Env → ℕ → State → State
configure_toplevel env sid s = elim (lookup sid s.surface_toplevel) [
  | none ↦ s
  | some tl_id ↦ elim (lookup tl_id s.toplevels) [
    | none ↦ s
    | some t ↦
        if t.configured
        then s
        else let asked = next (record s {
          toplevels =
              modify tl_id (λ (t : ToplevelRec). record t { configured = true }) s.toplevels;
        }) in
          send (xdg_surface_configure t.xdg_surface s.next_serial) (
            send (toplevel_configure t.toplevel (pos 0) (pos 0) []) (
              if leb 5 (env.version t.toplevel)
              then send (wm_capabilities t.toplevel) asked
              else asked))
  ]
]

unfoldable pub configure_popup : ℕ → State → State
configure_popup sid s = elim (lookup sid s.surface_popup) [
  | none ↦ s
  | some pp_id ↦ elim (lookup pp_id s.popups) [
    | none ↦ s
    | some p ↦
        if p.configured
        then s
        else send (xdg_surface_configure p.xdg_surface s.next_serial) (
            send (popup_configure p.popup p.x p.y p.w p.h) (
              next (record s {
                popups = modify pp_id (λ (p : PopupRec). record p { configured = true }) s.popups;
              })))
  ]
]

-- A dimension of 0 spans the output. `input::scale` is at least 1.
abbrev pub layer_extent : ℕ → ℤ → ℕ → ℤ
layer_extent asked output scale =
    max_ℤ (if ltb 0 asked then u32_as_i32 asked else quot_ℤ output scale) (pos 1)

unfoldable pub configure_layer : Env → ℕ → State → State
unfolding quot_ℤ
configure_layer env sid s = elim (lookup sid s.surface_layer) [
  | none ↦ s
  | some ls_id ↦ elim (lookup ls_id s.layer_surfaces) [
    | none ↦ s
    | some l ↦
        if l.configured
        then s
        else send
            (layer_configure l.layer_surface s.next_serial
              (layer_extent l.size.0 env.output_w env.scale)
              (layer_extent l.size.1 env.output_h env.scale))
            (next (record s {
              layer_surfaces =
                  modify ls_id (λ (l : LayerSurfaceRec). record l { configured = true })
                    s.layer_surfaces;
            }))
  ]
]

-- What a commit takes over from the pending state.
abbrev pub take_pending : SurfaceRec → SurfaceRec
take_pending r = record r {
  pending_buffer = none;
  pending_attach = false;
  pending_color = none;
  color = or_else r.pending_color r.color;
}

unfoldable pub did_attach : State → ℕ → Bool
did_attach s sid = elim (lookup sid s.surfaces) [ none ↦ false | some r ↦ r.pending_attach ]

abbrev pub handshakes : Env → ℕ → State → State
handshakes env sid s = configure_layer env sid (configure_popup sid (configure_toplevel env sid s))

-- Where a committed buffer goes.
unfoldable pub present_pending : Env → ℕ → ℕ → State → Checked State
present_pending env sid buffer s =
    if holds s.cursor_surface sid
    then set_cursor_image env buffer s
    else if is_some (lookup sid s.surface_subsurface)
    then present_subsurface env sid buffer s
    else if is_some (lookup sid s.surface_layer)
    then present_layer env sid buffer s
    else present env sid buffer s

unfoldable pub handle_commit : Env → ℕ → State → Checked State
unfolding pending_buffer_of did_attach
handle_commit env sid s =
    let asked = handshakes env sid (record s { surfaces = modify sid take_pending s.surfaces }) in
    elim (pending_buffer_of s sid) [
      | some buffer ↦ and_then (present_pending env sid buffer asked) (release buffer)
      | none ↦ returns (if did_attach s sid then unmap_surface sid asked else asked)
    ]
