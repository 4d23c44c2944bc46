-- ===== src/Wayland/Windows.antt =====
-- src/wayland/mod.rs: tearing windows down, and the window behind a surface.
pub mod Dismiss
use wayland_macos.Base.{ℕ, Bool, true, false, not, ◌&&◌, Option, none, some, if◌then◌else◌, ◌==◌}
use wayland_macos.Base.Map.{lookup, remove, modify, find_entry}
use wayland_macos.Mac.{WinCmd}
use wayland_macos.Wayland.Types.{popup_done, post, PopupRec, State}
use wayland_macos.Wayland.Core.{send, call}

-- `mac::post` of a command if a condition holds.
abbrev pub post_if : Bool → WinCmd → State → State
post_if c cmd s = if c then call (post cmd) s else s

unfoldable pub reap_toplevel : ℕ → State → State
reap_toplevel toplevel_id s = elim (lookup toplevel_id s.toplevels) [
  | none ↦ s
  | some t ↦ post_if t.created_window (WinCmd.destroy t.window_id) (record s {
    toplevels = remove toplevel_id s.toplevels;
    surface_toplevel = remove t.wl_surface s.surface_toplevel;
    window_surface = remove t.window_id s.window_surface;
  })
]

abbrev pub dismissable : ℕ → PopupRec → Bool
dismissable window_id p = p.window_id == window_id && not p.dismissed

abbrev pub mark_dismissed : PopupRec → PopupRec
mark_dismissed p = record p { dismissed = true }

unfoldable pub dismiss_popup : ℕ → State → State
dismiss_popup window_id s =
    call (post (WinCmd.set_grab none)) (elim (find_entry (dismissable window_id) s.popups) [
      | none ↦ s
      | some (key, p) ↦
          send (popup_done p.popup) (record s { popups = modify key mark_dismissed s.popups })
    ])

abbrev pub forget_window : PopupRec → PopupRec
forget_window p = record p { created_window = false }

unfoldable pub unmap_surface : ℕ → State → State
unmap_surface sid s = elim (lookup sid s.surface_popup) [
  | none ↦ s
  | some pp_id ↦ elim (lookup pp_id s.popups) [
    | none ↦ s
    | some p ↦
        if p.created_window
        then call (post (WinCmd.destroy p.window_id))
            (record s { popups = modify pp_id forget_window s.popups })
        else s
  ]
]

unfoldable pub reap_popup : ℕ → State → State
reap_popup popup_id s = elim (lookup popup_id s.popups) [
  | none ↦ s
  | some p ↦ call (post (WinCmd.destroy p.window_id)) (record s {
    popups = remove popup_id s.popups;
    surface_popup = remove p.wl_surface s.surface_popup;
    window_surface = remove p.window_id s.window_surface;
  })
]

unfoldable pub window_for_surface : State → ℕ → Option ℕ
window_for_surface s sid = elim (lookup sid s.surface_toplevel) [
  | some tl ↦ elim (lookup tl s.toplevels) [ none ↦ none | some t ↦ some t.window_id ]
  | none ↦ elim (lookup sid s.surface_popup) [
    | none ↦ none
    | some pp ↦ elim (lookup pp s.popups) [ none ↦ none | some p ↦ some p.window_id ]
  ]
]
