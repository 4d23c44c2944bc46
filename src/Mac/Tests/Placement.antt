-- ===== src/Mac/Tests/Placement.antt =====
-- Popups of src/mac.rs on a screen, with whole numbers for its floats.
use wayland_macos.Base.{◌≡◌, refl, ◌+◌, ◌-◌, ◌/◌, false, none, some, ltb, leb, if◌then◌else◌}
use wayland_macos.Base.Int.{pos, pos_part, quot_ℤ}
use wayland_macos.Mac.Placement.{
  Frame, Axis, off_screen, Parent, PopupRequest, points, start, prefer, slide, constrain_axis,
  constrain, create_popup_origin,
}
use wayland_macos.Mac.Placement.Visible.{create_popup_origin_visible}

abbrev pub whole : Axis
whole = record {
  of_int = pos_part;
  add = λ a b. a + b;
  sub = λ a b. a - b;
  max = λ a b. if ltb a b then b else a;
  half = λ a. a / 2;
  lt = ltb;
  le = leb;
}

abbrev desktop : Frame
desktop = record { x = 0; y = 0; width = 1000; height = 800 }

-- A window at the right edge, and a menu that would leave the screen there.
abbrev at_edge : Parent
at_edge = record {
  content = record { x = 700; y = 100; width = 300; height = 600 };
  screen = some desktop;
}

abbrev menu : PopupRequest
menu = record {
  x = pos 200;
  y = pos 10;
  x_flip = pos 0;
  y_flip = pos 10;
  constraint = 4;
  width = pos 600;
  height = pos 400;
}

menu_flipped : create_popup_origin whole (some at_edge) none menu 2 ≡ (700, 490)
unfolding create_popup_origin constrain constrain_axis prefer slide start points quot_ℤ
menu_flipped = refl

create_popup_origin_visible_example :
    off_screen whole
      (points whole (pos 600) 2)
      0
      1000
      (create_popup_origin whole (some at_edge) none menu 2).0
    ≡ false
unfolding points quot_ℤ
create_popup_origin_visible_example =
    (create_popup_origin_visible whole (some at_edge) none menu 2 desktop refl
      (record { not_below = refl; back = refl; fits = refl })
      (record { not_below = refl; back = refl; fits = refl })).0
