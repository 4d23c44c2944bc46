-- ===== src/Mac/Constrain.antt =====
-- src/mac.rs: `constrainFrameRect:toScreen:`, through which a window's frame goes when it is set. The
-- constraint that AppKit makes itself, and the screens, are parameters.
use wayland_macos.Base.{ℕ, Bool, ◌&&◌, ◌||◌, Option, none, some, if◌then◌else◌, ◌==◌}
use wayland_macos.Base.Int.{ℤ, pos_part, neg_part}
use wayland_macos.Mac.Placement.{Frame, Axis, apply_reserved_insets}

-- A screen: its frame, and its visible frame.
pub record Screen : Type 0 where
  pub frame : Frame
  pub visible : Frame

-- What setting a frame depends on: whether AppKit asks the window for its constraint, what AppKit's
-- own constraint answers, the screen that it names for a frame, and the screen of the window.
pub record Desk : Type 0 where
  pub floats : Axis
  pub top : ℤ
  pub right : ℤ
  pub bottom : ℤ
  pub left : ℤ
  pub rail_mode : Bool
  pub consults : Bool
  pub default_constraint : Frame → Frame
  pub named : Frame → Option Screen
  pub screen : Option Screen

abbrev pub work_area : Desk → Frame → Frame
work_area d visible = apply_reserved_insets d.floats d.top d.right d.bottom d.left visible

abbrev is_zero : ℤ → Bool
is_zero a = (pos_part a == 0) && (neg_part a == 0)

unfoldable pub no_insets : Desk → Bool
no_insets d = is_zero d.top && is_zero d.right && is_zero d.bottom && is_zero d.left

-- One axis: the far edge first, and the near one only where the window fits.
unfoldable pub clamp : Axis → (p size low extent : ℕ) → ℕ
clamp f p size low extent =
    let high = f.add low extent in
    let far = if f.lt high (f.add p size) then f.sub high size else p in
    if f.lt far low && f.le size extent then low else far

abbrev pub clamp_into : Axis → Frame → Frame → Frame
clamp_into f work r = record r {
  x = clamp f r.x r.width work.x work.width;
  y = clamp f r.y r.height work.y work.height;
}

abbrev visible_of : Desk → Frame → Option Screen
visible_of d frame = elim (d.named frame) [ some s ↦ some s | none ↦ d.screen ]

abbrev clamp_to : Desk → Option Screen → Frame → Frame
clamp_to d none r = r
clamp_to d (some s) r = clamp_into d.floats (work_area d s.visible) r

unfoldable pub constrain_frame_rect : Desk → (exempt : Bool) → Frame → Frame
constrain_frame_rect d exempt frame =
    let r = d.default_constraint frame in
    if d.rail_mode || exempt
    then frame
    else if no_insets d
    then r
    else clamp_to d (visible_of d frame) r

-- The frame that a window gets which is set to one.
unfoldable pub granted : Desk → (exempt : Bool) → Frame → Frame
granted d exempt frame = if d.consults then constrain_frame_rect d exempt frame else frame
