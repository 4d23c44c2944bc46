-- ===== src/Mac/Placement.antt =====
-- src/mac.rs: where a new window or popup is put on its screen. The operations on `f64` are a
-- parameter, and so is what AppKit tells of screens and parents; y grows upwards.
pub mod Visible
use wayland_macos.Base.{
  ℕ, Bool, true, false, not, ◌&&◌, ◌||◌, Option, none, some, if◌then◌else◌, ◌==◌, bit_and,
}
use wayland_macos.Base.Int.{ℤ, pos, quot_ℤ, max_ℤ, ◌+i32◌}

pub record Frame : Type 0 where
  pub x : ℕ
  pub y : ℕ
  pub width : ℕ
  pub height : ℕ

pub record Axis : Type 0 where
  pub of_int : ℤ → ℕ
  pub add : ℕ → ℕ → ℕ
  pub sub : ℕ → ℕ → ℕ
  pub max : ℕ → ℕ → ℕ
  pub half : ℕ → ℕ
  pub lt : ℕ → ℕ → Bool
  pub le : ℕ → ℕ → Bool

abbrev pub off_screen : Axis → (size low high p : ℕ) → Bool
off_screen f size low high p = f.lt p low || f.lt high (f.add p size)

-- Of the two starts, the one to use: the flipped one only where it helps.
unfoldable pub prefer : Axis → (p flipped size low high : ℕ) (flip : Bool) → ℕ
prefer f p flipped size low high flip =
    if flip && off_screen f size low high p && not (off_screen f size low high flipped)
    then flipped
    else p

unfoldable pub slide : Axis → (p size low high : ℕ) → ℕ
slide f p size low high =
    let far = if f.lt high (f.add p size) then f.sub high size else p in
    if f.lt far low then low else far

unfoldable pub constrain_axis : Axis → (p flipped size low high : ℕ) (flip : Bool) → ℕ
constrain_axis f p flipped size low high flip =
    slide f (prefer f p flipped size low high flip) size low high

-- The content rectangle of a parent, and the visible frame of its screen.
pub record Parent : Type 0 where
  pub content : Frame
  pub screen : Option Frame

-- What a popup asks for: its place, its flipped place, which flips it allows, and its size.
pub record PopupRequest : Type 0 where
  pub x : ℤ
  pub y : ℤ
  pub x_flip : ℤ
  pub y_flip : ℤ
  pub constraint : ℕ
  pub width : ℤ
  pub height : ℤ

unfoldable pub points : Axis → ℤ → ℕ → ℕ
points f pixels scale = f.of_int (max_ℤ (quot_ℤ pixels scale) (pos 1))

-- The start that a place relative to the parent's content gives; 200 is used without a parent.
unfoldable pub start : Axis → Option Parent → (x y : ℤ) → ℕ → ℕ × ℕ
start f none x y lh = (f.of_int (pos 200), f.of_int (pos 200))
start f (some p) x y lh =
    let c = p.content in
    (f.add c.x (f.of_int x), f.sub (f.sub (f.add c.y c.height) (f.of_int y)) lh)

abbrev pub screen_of : Option Parent → Option Frame → Option Frame
screen_of none main = main
screen_of (some p) main = elim p.screen [ none ↦ main | some v ↦ some v ]

abbrev pub allows : ℕ → ℕ → Bool
allows constraint flag = not (bit_and constraint flag == 0)

unfoldable pub constrain :
    Axis → PopupRequest → (origin flipped : ℕ × ℕ) (lw lh : ℕ) → Frame → ℕ × ℕ
constrain f r origin flipped lw lh v = (
  constrain_axis f origin.0 flipped.0 lw v.x (f.add v.x v.width) (allows r.constraint 4),
  constrain_axis f origin.1 flipped.1 lh v.y (f.add v.y v.height) (allows r.constraint 8),
)

abbrev pub place_on :
    Axis → PopupRequest → (origin flipped : ℕ × ℕ) (lw lh : ℕ) → Option Frame → ℕ × ℕ
place_on f r origin flipped lw lh none = origin
place_on f r origin flipped lw lh (some v) = constrain f r origin flipped lw lh v

unfoldable pub create_popup_origin : Axis → Option Parent → Option Frame → PopupRequest → ℕ → ℕ × ℕ
create_popup_origin f parent main r scale =
    let lw = points f r.width scale in
    let lh = points f r.height scale in
    let origin = start f parent r.x r.y lh in
    place_on f r origin (start f parent r.x_flip r.y_flip lh) lw lh (screen_of parent main)

-- The insets that docked bars reserve, from the top clockwise.
unfoldable pub apply_reserved_insets : Axis → (top right bottom left : ℤ) → Frame → Frame
apply_reserved_insets f top right bottom left rect = record {
  x = f.add rect.x (f.of_int left);
  y = f.add rect.y (f.of_int bottom);
  width = f.max (f.sub rect.width (f.of_int (left +i32 right))) (f.of_int (pos 1));
  height = f.max (f.sub rect.height (f.of_int (top +i32 bottom))) (f.of_int (pos 1));
}

-- `none` where AppKit centres the window itself.
unfoldable pub place_in_work_area :
    Axis → Option Frame → (top right bottom left : ℤ) (lw lh : ℕ) → Option (ℕ × ℕ)
place_in_work_area f none top right bottom left lw lh = none
place_in_work_area f (some v) top right bottom left lw lh =
    let work = apply_reserved_insets f top right bottom left v in
    let x = f.add work.x (f.half (f.max (f.sub work.width lw) (f.of_int (pos 0)))) in
    let y = f.add work.y (f.half (f.max (f.sub work.height lh) (f.of_int (pos 0)))) in
    let work_top = f.add work.y work.height in
    some (x, if f.lt work_top (f.add y lh) then f.sub work_top lh else y)
