-- ===== src/Wayland/Commit/Create.antt =====
-- The creation of a toplevel's window in `present` of src/wayland/mod.rs.
use wayland_macos.Base.{
  ℕ, suc, ◌+◌, ◌≡◌, refl, Bool, true, false, some, List, [], ◌∷◌, arith, if◌then◌else◌, ◌==◌,
  ==_refl, Bool-cases, Option-cases, inl, inr,
}
use wayland_macos.Base.Map.{lookup, modify, lookup-modify}
use wayland_macos.Mac.{WinCmd, PixelBuf}
use wayland_macos.Wayland.Types.{Env, MacCall, post, ToplevelRec, State}
use wayland_macos.Wayland.Commit.{mark_toplevel, create_toplevel_window, frame_of, present_toplevel}

-- Whether a call creates the toplevel window, and how often a log does.
abbrev pub creates : ℕ → MacCall → Bool
creates w (post (WinCmd.create id width height dst_w dst_h decorated title geom)) = id == w
creates w _ = false

unfoldable pub creations : ℕ → List MacCall → ℕ
creations w [] = 0
creations w (c ∷ cs) = if creates w c then suc (creations w cs) else creations w cs

create-creations :
    (env : Env) (sid tl : ℕ) (t : ToplevelRec) (buf : PixelBuf) (s : State)
    → creations t.window_id (create_toplevel_window env sid tl t buf s).calls
      ≡ suc (creations t.window_id s.calls)
unfolding create_toplevel_window creations
create-creations env sid tl t buf s = elim (Option-cases t.pending_icon) [
  | inl gone ↦ ground (arith, ==_refl t.window_id)
  | inr (i, there) ↦ ground (arith, ==_refl t.window_id)
]

create-toplevels :
    (env : Env) (sid tl : ℕ) (t : ToplevelRec) (buf : PixelBuf) (s : State)
    → (create_toplevel_window env sid tl t buf s).toplevels ≡ modify tl mark_toplevel s.toplevels
unfolding create_toplevel_window
create-toplevels env sid tl t buf s = ground arith

-- A buffer shown on a toplevel creates the toplevel's window if that was not done, and never twice;
-- then the window is known to be created, and it is the same window.
pub present_creates :
    (env : Env) (sid tl : ℕ) (t : ToplevelRec) (buf : PixelBuf) (s : State)
    → lookup tl s.toplevels ≡ some t
    → (creations t.window_id (present_toplevel env sid tl buf s).calls
        ≡ (if t.created_window then 0 else 1) + creations t.window_id s.calls)
      × ((t' : ToplevelRec) × (lookup tl (present_toplevel env sid tl buf s).toplevels ≡ some t')
          × (t'.created_window ≡ true)
          × (t'.window_id ≡ t.window_id))
unfolding present_toplevel creations frame_of
present_creates env sid tl t buf s found = elim (Bool-cases t.created_window) [
  | inl old ↦ (ground arith, (t, ground arith, old, refl))
  | inr fresh ↦ (
    ground (arith, create-creations env sid tl t buf s),
    (
      mark_toplevel t,
      ground (
        arith,
        create-toplevels env sid tl t buf s,
        lookup-modify tl tl mark_toplevel s.toplevels,
      ),
      refl,
      refl,
    ),
  )
]
