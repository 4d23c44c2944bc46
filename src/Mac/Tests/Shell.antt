-- ===== src/Mac/Tests/Shell.antt =====
-- Runs of the window state of src/mac.rs.
use wayland_macos.Base.{ℕ, ◌≡◌, refl, true, false, none, some, List, [], ◌∷◌, contains}
use wayland_macos.Base.Map.{lookup}
use wayland_macos.Wayland.Input.{pointer_button}
use wayland_macos.Base.Int.{ℤ, pos, ◌+i32◌, ◌+ℤ◌, wrap_i32}
use wayland_macos.Mac.Placement.{Frame, apply_reserved_insets}
use wayland_macos.Mac.Constrain.{Screen, Desk, granted, constrain_frame_rect, no_insets, clamp}
use wayland_macos.Mac.Tests.Placement.{whole}
use wayland_macos.Mac.Shell.{Shell, Mouse, grabbed, handle_press, handle_release, set_window_fill}
use wayland_macos.Mac.Shell.Release.{
  Between, grabs, destroys, apply_all, buttons, press_release_once, second_release_lost,
}
use wayland_macos.Mac.Shell.Fill.{fill_all, fill_round_trip}

abbrev small_frame : Frame
small_frame = record { x = 1; y = 2; width = 30; height = 20 }

abbrev shell : Shell
shell = record {
  windows = (1, small_frame) ∷ [];
  grab = none;
  implicit_grab = none;
  implicit_grab_origin = none;
  saved_frames = [];
  fullscreen = [];
  layer_windows = [];
  popup_windows = [];
  events = [];
  refocused = 0;
}

abbrev still : Mouse
still = record { location = (5, 5); within = λ f. (0, 0, true); travelled = λ p. false }

-- A popup grabs, and another window closes, before the release.
abbrev meanwhile : List Between
meanwhile = grabs (some 2) ∷ destroys 3 ∷ []

press_release_once_example :
    (target : ℕ) × ((handle_release still 0x110
        (apply_all meanwhile (handle_press still 1 0x110 shell))).implicit_grab
      ≡ none)
    × (buttons
          (handle_release still 0x110
            (apply_all meanwhile (handle_press still 1 0x110 shell))).events
        ≡ pointer_button target 0x110 false ∷ buttons (handle_press still 1 0x110 shell).events)
unfolding handle_press grabbed
press_release_once_example = press_release_once still still 1 0x110 1 meanwhile shell refl

second_release_lost_example :
    buttons
      (handle_release still 0x111 (
        handle_release still 0x110
          (handle_press still 1 0x111 (handle_press still 1 0x110 shell)))).events
    ≡ pointer_button 1 0x110 false
      ∷ pointer_button 1 0x111 true
      ∷ pointer_button 1 0x110 true
      ∷ buttons shell.events
second_release_lost_example = second_release_lost still 1 0x110 0x111 shell refl (λ p. refl)

abbrev screen : Screen
screen = record {
  frame = record { x = 0; y = 0; width = 900; height = 600 };
  visible = record { x = 0; y = 0; width = 900; height = 550 };
}

-- A desk with a bar of 40 points at the bottom, and none.
abbrev desk : ℤ → Desk
desk bottom = record {
  floats = whole;
  top = pos 0;
  right = pos 0;
  bottom = bottom;
  left = pos 0;
  rail_mode = false;
  consults = true;
  default_constraint = λ f. f;
  named = λ f. some screen;
  screen = some screen;
}

-- A bar appears while the window is fullscreen, so it is restored above it.
restored_above_bar :
    granted (desk (pos 40)) false small_frame ≡ record { x = 1; y = 40; width = 30; height = 20 }
unfolding granted constrain_frame_rect no_insets clamp apply_reserved_insets ◌+i32◌ ◌+ℤ◌ wrap_i32
restored_above_bar = refl

fill_round_trip_example :
    lookup 1
      (set_window_fill
        (desk (pos 0))
        1
        false
        false
        (fill_all 1 ((desk (pos 0), false) ∷ (desk (pos 40), true) ∷ []) shell)).windows
    ≡ some (granted (desk (pos 0)) false small_frame)
unfolding contains lookup
fill_round_trip_example =
    (fill_round_trip 1 (desk (pos 0), false) ((desk (pos 40), true) ∷ []) (desk (pos 0)) false
      small_frame shell refl refl).0
