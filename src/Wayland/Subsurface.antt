-- ===== src/Wayland/Subsurface.antt =====
-- src/wayland/mod.rs: subsurfaces, which are shown as layers of the window of their root.
pub mod Root
pub mod Complete
use wayland_macos.Base.{
  ℕ, zero, suc, ◌≡◌, Bool, true, false, Option, none, some, List, [], ◌∷◌, if◌then◌else◌, ◌==◌,
  contains, Checked, crashes, returns, and_then, or_else,
}
use wayland_macos.Base.Int.{ℤ, pos, ◌+i32◌}
use wayland_macos.Base.Map.{Map, lookup, insert, remove, size}
use wayland_macos.Mac.{WinCmd, PixelBuf, ColorDesc}
use wayland_macos.Wayland.Types.{Env, MacCall, post, SurfaceRec, SubsurfaceRec, State}
use wayland_macos.Wayland.Core.{call}
use wayland_macos.Wayland.Shm.{buffer_to_pixels}
use wayland_macos.Wayland.Windows.{window_for_surface}

-- What a walk ends with: its steps ran out, or a result.
pub data Walk : Type 0 where
  out_of_fuel : Walk
  done : Option (ℕ × ℤ × ℤ × ℕ) → Walk

-- The record of the subsurface that a surface is.
unfoldable pub subsurface_of : State → ℕ → Option SubsurfaceRec
subsurface_of s surface = elim (lookup surface s.surface_subsurface) [
  | none ↦ none
  | some sub_obj ↦ lookup sub_obj s.subsurfaces
]

-- The loop of `resolve_subsurface`, with the surfaces seen and the offset so far.
unfoldable pub walk : State → ℕ → ℕ → List ℕ → ℕ → ℤ → ℤ → Walk
unfolding contains
walk s zero sub_id seen cur ox oy = out_of_fuel
walk s (suc fuel) sub_id seen cur ox oy =
    if contains seen cur then done none else elim (subsurface_of s cur) [
      | none ↦ done none
      | some rec ↦
          let rest = walk s fuel sub_id (cur ∷ seen) rec.parent (ox +i32 rec.x) (oy +i32 rec.y) in
          elim (window_for_surface s rec.parent) [
            | some wid ↦ done (some (wid, ox +i32 rec.x, oy +i32 rec.y, sub_id))
            | none ↦ rest
          ]
    ]

-- One step for each surface that is a subsurface, and one to see that the walk ends.
unfoldable pub resolve_walk : State → ℕ → Walk
unfolding walk
resolve_walk s surface = elim (subsurface_of s surface) [
  | none ↦ done none
  | some leaf ↦ walk s (suc (size s.surface_subsurface)) leaf.sub_id [] surface (pos 0) (pos 0)
]

unfoldable pub resolve_subsurface : State → ℕ → Option (ℕ × ℤ × ℤ × ℕ)
unfolding resolve_walk
resolve_subsurface s surface = elim (resolve_walk s surface) [ out_of_fuel ↦ none | done r ↦ r ]

unfoldable pub reap_subsurface : ℕ → State → State
reap_subsurface sub_obj s = elim (lookup sub_obj s.subsurfaces) [
  | none ↦ s
  | some rec ↦
      let after = record s {
        subsurfaces = remove sub_obj s.subsurfaces;
        surface_subsurface = remove rec.surface s.surface_subsurface;
      } in
      elim (resolve_subsurface s rec.surface) [
        | none ↦ after
        | some (window_id, _, _, _) ↦ call (post (WinCmd.sub_destroy window_id rec.sub_id)) after
      ]
]

-- The negotiated color of a surface, and its logical size, (0, 0) if it has none.
unfoldable pub surface_color : State → ℕ → Option ColorDesc
surface_color s sid = elim (lookup sid s.surfaces) [ none ↦ none | some r ↦ r.color ]

unfoldable pub surface_dst : State → ℕ → ℤ × ℤ
surface_dst s sid = elim (lookup sid s.surfaces) [
  | none ↦ (pos 0, pos 0)
  | some r ↦ or_else r.viewport_dst (pos 0, pos 0)
]

unfoldable pub present_subsurface : Env → ℕ → ℕ → State → Checked State
unfolding surface_color surface_dst
present_subsurface env sid buffer s = elim (resolve_subsurface s sid) [
  | none ↦ returns s
  | some (window_id, ox, oy, sub_id) ↦ and_then (buffer_to_pixels env buffer) (λ pb. elim pb [
    | none ↦ returns s
    | some buf ↦
        let dst = surface_dst s sid in
        returns (
          call
            (post (WinCmd.sub_frame window_id sub_id ox oy buf dst.0 dst.1 (surface_color s sid)))
            s)
  ])
]
