-- ===== src/Wayland/Tests/Windows.antt =====
-- Windows, layers, focus, names and the tick of the compositor's model at concrete inputs.
use mathlib.Core.List.{Permᴰ, reverse_aux}
use wayland_macos.Base.{
  ◌+◌, suc, ◌≡◌, refl, ◌≢◌, ◌≤◌, true, false, none, some, [], ◌∷◌, map, length, arith, codes,
  contains,
}
use wayland_macos.Base.Int.{ℤ, pos, ◌+i32◌}
use wayland_macos.Base.Map.{lookup, size}
use wayland_macos.Wayland.Types.{
  ToplevelRec, callback_done, surface_rec_default, SubsurfaceRec, LayerSurfaceRec, PositionerState,
  State,
}
use wayland_macos.Wayland.Core.{is_empty, app_display_name, all_callbacks, vblank_tick}
use wayland_macos.Wayland.Core.Names.{IsClean, app_display_name_safe}
use wayland_macos.Wayland.Core.Tick.{tick_answers}
use wayland_macos.Wayland.Positioner.{positioner_default, origin_x, origin_y}
use wayland_macos.Wayland.Positioner.Flip.{mirror_x, mirror_y, mirrored, flip_mirrors}
use wayland_macos.Wayland.Windows.{dismiss_popup, window_for_surface}
use wayland_macos.Wayland.Windows.Dismiss.{IsDistinct, dismiss_once}
use wayland_macos.Wayland.Subsurface.Complete.{resolve_none}
use wayland_macos.Wayland.Subsurface.{out_of_fuel, subsurface_of, resolve_walk, resolve_subsurface}
use wayland_macos.Wayland.Subsurface.Root.{climb, resolve_ends, resolve_root}
use wayland_macos.Wayland.Layer.{reserve_all}
use wayland_macos.Wayland.Layer.Insets.{reserve_all_order}
use wayland_macos.Wayland.Commit.{present_toplevel}
use wayland_macos.Wayland.Commit.Create.{creations, present_creates}
use wayland_macos.Wayland.Input.{focus_event}
use wayland_macos.Wayland.Input.Focus.{focus_twice}
use wayland_macos.Wayland.Requests.{new_toplevel, new_popup, new_layer}
use wayland_macos.Wayland.Tests.{empty, env, two_rows}

-- Surface 2 is a subsurface of 3, and 3 of 4, which has a toplevel with window 5.
abbrev nested : State
nested = record empty {
  toplevels = (20, new_toplevel 20 21 4 5) ∷ [];
  surface_toplevel = (4, 20) ∷ [];
  window_surface = (5, 4) ∷ [];
  subsurfaces =
      (30, record { surface = 2; parent = 3; x = pos 1; y = pos 2; sub_id = 6 })
      ∷ (31, record { surface = 3; parent = 4; x = pos 10; y = pos 20; sub_id = 7 })
      ∷ [];
  surface_subsurface = (2, 30) ∷ (3, 31) ∷ [];
}

resolve_ends_example : resolve_walk nested 2 ≢ out_of_fuel
resolve_ends_example = resolve_ends nested 2

resolve_root_example :
    (leaf : SubsurfaceRec) × (subsurface_of nested 2 ≡ some leaf)
    × (6 ≡ leaf.sub_id)
    × (climb nested (suc (size nested.surface_subsurface)) 2 (pos 0) (pos 0)
        ≡ some (5, pos 11, pos 22))
unfolding resolve_subsurface window_for_surface lookup subsurface_of size ◌+i32◌ contains
resolve_root_example = resolve_root nested 2 5 (pos 11) (pos 22) 6 refl

-- Two bars at the top.
abbrev bar : ℤ → LayerSurfaceRec
bar zone = record (new_layer 1 2 3) { anchor = 13; exclusive = zone }

reserve_all_order_example :
    reserve_all ((1, bar (pos 20)) ∷ (2, bar (pos 30)) ∷ []) (pos 0, pos 0, pos 0, pos 0)
    ≡ reserve_all ((2, bar (pos 30)) ∷ (1, bar (pos 20)) ∷ []) (pos 0, pos 0, pos 0, pos 0)
reserve_all_order_example =
    reserve_all_order ((1, bar (pos 20)) ∷ (2, bar (pos 30)) ∷ [])
      ((2, bar (pos 30)) ∷ (1, bar (pos 20)) ∷ []) (pos 0, pos 0, pos 0, pos 0)
      (Permᴰ.swap refl refl)

-- A keyboard of the client is there to be told.
abbrev with_keyboard : State
with_keyboard = record nested { keyboards = 40 ∷ [] }

focus_twice_example :
    focus_event env 5 true (focus_event env 5 true with_keyboard)
    ≡ focus_event env 5 true with_keyboard
focus_twice_example = focus_twice env env 5 true with_keyboard

app_display_name_safe_example :
    (is_empty (app_display_name env (codes "org.a/b") []) ≡ false)
    × (length (app_display_name env (codes "org.a/b") []) ≤ 64)
    × IsClean (app_display_name env (codes "org.a/b") [])
app_display_name_safe_example = app_display_name_safe env (codes "org.a/b") []

-- Two callbacks wait.
abbrev waiting : State
waiting = record empty {
  surfaces = (7, record surface_rec_default { frame_callbacks = 50 ∷ 51 ∷ [] }) ∷ [];
}

tick_answers_example :
    (all_callbacks (vblank_tick env waiting).surfaces ≡ [])
    × ((vblank_tick env waiting).sent
        ≡ reverse_aux (map (λ cb. callback_done cb env.time) (all_callbacks waiting.surfaces)) [])
tick_answers_example = tick_answers env waiting refl

-- A positioner at the right edge of a rectangle.
abbrev at_right : PositionerState
at_right = record positioner_default {
  size = (pos 200, pos 100);
  anchor_rect = (pos 5, pos 6, pos 40, pos 20);
  anchor = 4;
  gravity = 4;
}

flip_mirrors_example :
    (origin_x at_right true ≡ origin_x (mirrored mirror_x at_right) false)
    × (origin_y at_right true ≡ origin_y (mirrored mirror_y at_right) false)
    × (origin_y (mirrored mirror_x at_right) false ≡ origin_y at_right false)
    × (origin_x (mirrored mirror_y at_right) false ≡ origin_x at_right false)
flip_mirrors_example = flip_mirrors at_right

-- Surfaces 2 and 3 are subsurfaces of each other.
abbrev cycle : State
cycle = record empty {
  subsurfaces =
      (30, record { surface = 2; parent = 3; x = pos 1; y = pos 2; sub_id = 6 })
      ∷ (31, record { surface = 3; parent = 2; x = pos 10; y = pos 20; sub_id = 7 })
      ∷ [];
  surface_subsurface = (2, 30) ∷ (3, 31) ∷ [];
}

resolve_none_example : climb cycle 9 2 (pos 0) (pos 0) ≡ none
unfolding resolve_subsurface window_for_surface lookup subsurface_of size ◌+i32◌ contains
resolve_none_example = resolve_none cycle 2 9 refl

-- A popup with window 8.
abbrev menu : State
menu = record empty {
  popups = (30, new_popup 30 31 7 5 8 positioner_default) ∷ [];
  surface_popup = (7, 30) ∷ [];
}

menu-IsDistinct : IsDistinct menu.popups
unfolding lookup
menu-IsDistinct i j p q e f h = ground arith

dismiss_once_example :
    ((dismiss_popup 8 (dismiss_popup 8 menu)).sent ≡ (dismiss_popup 8 menu).sent)
    × ((dismiss_popup 8 (dismiss_popup 8 menu)).popups ≡ (dismiss_popup 8 menu).popups)
unfolding lookup
dismiss_once_example = dismiss_once 8 menu (refl, tt) menu-IsDistinct

present_creates_example :
    (creations 5 (present_toplevel env 4 20 two_rows nested).calls ≡ 1 + creations 5 nested.calls)
    × ((t' : ToplevelRec) × (lookup 20 (present_toplevel env 4 20 two_rows nested).toplevels
          ≡ some t')
        × (t'.created_window ≡ true)
        × (t'.window_id ≡ 5))
unfolding lookup
present_creates_example = present_creates env 4 20 (new_toplevel 20 21 4 5) two_rows nested refl
