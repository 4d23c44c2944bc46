-- ===== src/Wayland/Positioner.antt =====
-- src/wayland/mod.rs, `PositionerState`, and the `xdg_positioner` requests of
-- src/wayland/xdg_shell.rs: where a popup goes, relative to its parent. `i32` arithmetic wraps, as
-- in a release build.
pub mod Flip
use wayland_macos.Base.{ℕ, ◌≡◌, Bool, true, false, ◌||◌, Option, none, some, if◌then◌else◌, ◌==◌}
use wayland_macos.Base.Int.{ℤ, pos, ◌+i32◌, ◌-i32◌, quot_ℤ}
use wayland_macos.Wayland.Types.{PositionerState}

-- `PositionerState::default()`.
unfoldable pub positioner_default : PositionerState
positioner_default = record {
  size = (pos 0, pos 0);
  anchor_rect = (pos 0, pos 0, pos 0, pos 0);
  offset = (pos 0, pos 0);
  anchor = 0;
  gravity = 0;
  constraint_adjustment = 0;
}

-- `matches!(v, a | b | c)`.
abbrev one_of : ℕ → ℕ → ℕ → ℕ → Bool
one_of a b c v = v == a || v == b || v == c

-- The anchor point on an axis, from the rectangle's start and extent.
unfoldable pub anchor_point : Bool → Bool → ℤ → ℤ → ℤ
unfolding quot_ℤ ◌+i32◌
anchor_point low high start extent =
    if low then start else if high then start +i32 extent else start +i32 quot_ℤ extent 2

-- The popup's start on an axis: it extends up from the anchor, down from it, or around it.
unfoldable pub popup_start : Bool → Bool → ℤ → ℤ → ℤ
unfolding quot_ℤ ◌-i32◌
popup_start low high point size =
    if high then point else if low then point -i32 size else point -i32 quot_ℤ size 2

unfoldable pub origin_x : PositionerState → Bool → ℤ
unfolding anchor_point popup_start
origin_x p flip =
    let left = one_of 3 5 6 p.anchor in
    let right = one_of 4 7 8 p.anchor in
    let gleft = one_of 3 5 6 p.gravity in
    let gright = one_of 4 7 8 p.gravity in
    let point =
      anchor_point (if flip then right else left) (if flip then left else right) p.anchor_rect.0
        p.anchor_rect.2 in
    popup_start (if flip then gright else gleft) (if flip then gleft else gright) point p.size.0
    +i32 p.offset.0

unfoldable pub origin_y : PositionerState → Bool → ℤ
unfolding anchor_point popup_start
origin_y p flip =
    let top = one_of 1 5 7 p.anchor in
    let bottom = one_of 2 6 8 p.anchor in
    let gtop = one_of 1 5 7 p.gravity in
    let gbottom = one_of 2 6 8 p.gravity in
    let point =
      anchor_point (if flip then bottom else top) (if flip then top else bottom) p.anchor_rect.1
        p.anchor_rect.3 in
    popup_start (if flip then gbottom else gtop) (if flip then gtop else gbottom) point p.size.1
    +i32 p.offset.1

unfoldable pub popup_origin : PositionerState → ℤ × ℤ
unfolding origin_x origin_y
popup_origin p = (origin_x p false, origin_y p false)

-- The requests of an `xdg_positioner`; an enum's known values and its unknown ones are the same
-- numbers.
pub data Request : Type 0 where
  set_size : (width height : ℤ) → Request
  set_anchor_rect : (x y width height : ℤ) → Request
  set_offset : (x y : ℤ) → Request
  set_anchor : ℕ → Request
  set_gravity : ℕ → Request
  set_constraint_adjustment : ℕ → Request
  other : Request

unfoldable pub request : PositionerState → Request → PositionerState
request p (set_size width height) = record p { size = (width, height) }
request p (set_anchor_rect x y width height) = record p { anchor_rect = (x, y, width, height) }
request p (set_offset x y) = record p { offset = (x, y) }
request p (set_anchor anchor) = record p { anchor = anchor }
request p (set_gravity gravity) = record p { gravity = gravity }
request p (set_constraint_adjustment bits) = record p { constraint_adjustment = bits }
request p other = p
