-- ===== src/Rail/Front/Pointer.antt =====
-- The input loop of src/rail.rs: events from AppKit as pointer and key messages of RDP.
pub mod Flags
pub mod Position
use Prim.Native.Nat.{bit_or}
use wayland_macos.Base.{
  ℕ, zero, suc, ◌+◌, ◌*◌, ◌%◌, ◌/◌, ◌≤◌, ◌<◌, ◌≡◌, refl, Bool, true, false, not, ◌&&◌, Option, none,
  some, List, [], ◌∷◌, ◌++◌, arith, if◌then◌else◌, ltb, leb, ◌==◌, bit_and, ==_iff, Bool-cases, inl,
  inr,
}
use wayland_macos.Base.Int.{ℤ, pos, max_ℤ, quot_ℤ, u32_as_i32}
use wayland_macos.Wayland.Input.{
  InputEvent, pointer_enter, pointer_motion, pointer_button, pointer_axis, key,
}

-- `PTR_FLAGS_*` and `BTN_*`.
abbrev pub ptr_flags_move : ℕ
ptr_flags_move = 0x0800

abbrev pub ptr_flags_down : ℕ
ptr_flags_down = 0x8000

abbrev pub ptr_flags_button1 : ℕ
ptr_flags_button1 = 0x1000

abbrev pub ptr_flags_button2 : ℕ
ptr_flags_button2 = 0x2000

abbrev pub ptr_flags_button3 : ℕ
ptr_flags_button3 = 0x4000

abbrev pub ptr_flags_wheel : ℕ
ptr_flags_wheel = 0x0200

abbrev pub ptr_flags_wheel_negative : ℕ
ptr_flags_wheel_negative = 0x0100

abbrev pub btn_left : ℕ
btn_left = 0x110

abbrev pub btn_right : ℕ
btn_right = 0x111

abbrev pub btn_middle : ℕ
btn_middle = 0x112

unfoldable pub button_flag : ℕ → ℕ
button_flag button =
    if button == btn_left
    then ptr_flags_button1
    else if button == btn_right
    then ptr_flags_button2
    else if button == btn_middle
    then ptr_flags_button3
    else 0

-- The operations of the floating-point unit that the loop uses, on 64-bit patterns.
pub record Floats : Type 0 where
  -- `as i32`.
  pub as_i32 : ℕ → ℤ
  -- `a.abs() >= b.abs()`.
  pub abs_ge : ℕ → ℕ → Bool
  -- `!= 0.0`, `> 0.0`.
  pub nonzero : ℕ → Bool
  pub positive : ℕ → Bool
  -- `(a.abs() * 10.0) as u16`.
  pub tenfold : ℕ → ℕ

-- The messages to the server.
pub data Sent : Type 0 where
  send_pointer : (window_id : ℕ) (x y : ℤ) (flags : ℕ) → Sent
  send_key : (scancode : ℕ) (down : Bool) → Sent

pub record Loop : Type 0 where
  pub last_x : ℤ
  pub last_y : ℤ
  pub sent : List Sent

unfoldable pub say : Sent → Loop → Loop
say m l = record l { sent = l.sent ++ (m ∷ []) }

-- `120u16.min(..).max(1)`.
unfoldable pub magnitude : ℕ → ℕ
magnitude n = if n == 0 then 1 else if ltb 120 n then 120 else n

unfoldable pub wheel_flags : ℕ → Bool → ℕ
unfolding magnitude
wheel_flags n down =
    let flags = bit_or ptr_flags_wheel (bit_and (magnitude n) 0xff) in
    if down then bit_or flags ptr_flags_wheel_negative else flags

-- The rotation: vertical only.
abbrev step_of : Floats → ℕ → ℕ → ℕ
step_of f dx dy = if f.abs_ge dy dx then dy else 0

unfoldable pub moved : Floats → ℕ → ℕ → ℕ → Loop → Loop
unfolding say
moved f window_id x y l =
    say (send_pointer window_id (f.as_i32 x) (f.as_i32 y) ptr_flags_move)
      (record l { last_x = f.as_i32 x; last_y = f.as_i32 y })

unfoldable pub forward_event : Floats → InputEvent → Loop → Loop
unfolding moved say button_flag wheel_flags
forward_event f (pointer_enter window_id x y) l = moved f window_id x y l
forward_event f (pointer_motion window_id x y) l = moved f window_id x y l
forward_event f (pointer_button window_id button pressed) l =
    say
      (send_pointer window_id l.last_x l.last_y
        (bit_or (button_flag button) (if pressed then ptr_flags_down else 0)))
      l
forward_event f (pointer_axis dx dy) l =
    if f.nonzero (step_of f dx dy)
    then say
        (send_pointer 0 l.last_x l.last_y
          (wheel_flags (f.tenfold (step_of f dx dy)) (f.positive (step_of f dx dy))))
        l
    else l
forward_event f (key keycode pressed) l = say (send_key (keycode % 65536) pressed) l
forward_event f _ l = l

unfoldable pub forward_all : Floats → List InputEvent → Loop → Loop
unfolding forward_event
forward_all f [] l = l
forward_all f (e ∷ rest) l = forward_all f rest (forward_event f e l)

-- `MonitorInfo` of src/input.rs, and `RailMonitor`.
pub record MonitorInfo : Type 0 where
  pub x : ℤ
  pub y : ℤ
  pub width : ℤ
  pub height : ℤ
  pub scale : ℤ
  pub primary : Bool

pub record RailMonitor : Type 0 where
  pub x : ℤ
  pub y : ℤ
  pub width : ℤ
  pub height : ℤ
  pub scale : ℕ
  pub is_primary : ℕ

unfoldable pub rail_monitor : MonitorInfo → RailMonitor
rail_monitor m = record {
  x = m.x;
  y = m.y;
  width = max_ℤ m.width (pos 1);
  height = max_ℤ m.height (pos 1);
  scale = 1;
  is_primary = if m.primary then 1 else 0;
}
