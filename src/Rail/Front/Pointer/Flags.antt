-- ===== src/Rail/Front/Pointer/Flags.antt =====
-- The flags of the pointer messages of src/rail.rs, as the server takes them apart.
use Prim.Native.Nat.{bit_or}
use wayland_macos.Base.{
  ℕ, zero, suc, ◌%◌, ◌/◌, ◌≤◌, ◌<◌, ◌≡◌, refl, ap, Bool, true, false, ◌&&◌, arith, if◌then◌else◌,
  ◌==◌, bit_and,
}
use wayland_macos.Rail.Front.Pointer.{
  button_flag, ptr_flags_down, ptr_flags_wheel, ptr_flags_wheel_negative, magnitude, wheel_flags,
}

-- Whether a check passes for every rotation up to a given one.
every_rotation : (ℕ → Bool) → ℕ → Bool
every_rotation check zero = check 0
every_rotation check (suc m) = if check (suc m) then every_rotation check m else false

checked_rotation :
    (check : ℕ → Bool) (top m : ℕ) → m ≤ top → every_rotation check top ≡ true → check m ≡ true
unfolding every_rotation
checked_rotation check zero m small passed = ground arith
checked_rotation check (suc top) m small passed =
    ground (arith, checked_rotation check top m, λ (e : m ≡ suc top). ap check e)

-- The rotation in the low byte, the direction in the bit above it, and the wheel's own bit.
abbrev decode_wheel : ℕ → Bool → ℕ → Bool
decode_wheel m down flags =
    (flags % 256 == m) && ((flags / 256 % 2 == (if down then 1 else 0)) && (flags / 512 == 1))

abbrev wheel_bits : ℕ → Bool → ℕ
wheel_bits m down =
    let flags = bit_or ptr_flags_wheel (bit_and m 0xff) in
    if down then bit_or flags ptr_flags_wheel_negative else flags

both_ways : ℕ → Bool
both_ways m = decode_wheel m true (wheel_bits m true) && decode_wheel m false (wheel_bits m false)

wheel_table : every_rotation both_ways 120 ≡ true
unfolding every_rotation both_ways
wheel_table = refl

magnitude_range : (n : ℕ) → (0 < magnitude n) × (magnitude n ≤ 120)
unfolding magnitude
magnitude_range n = ground arith

-- What the server reads off the flags of any wheel step: the rotation, which is between 1 and 120,
-- the direction, and that it is the wheel.
pub wheel_flags_decode :
    (n : ℕ) (down : Bool)
    → (0 < magnitude n)
      × (magnitude n ≤ 120)
      × (wheel_flags n down % 256 ≡ magnitude n)
      × (wheel_flags n down / 256 % 2 ≡ (if down then 1 else 0))
      × (wheel_flags n down / 512 ≡ 1)
unfolding wheel_flags both_ways
wheel_flags_decode n true = ground (
  arith,
  magnitude_range n,
  checked_rotation both_ways 120 (magnitude n) (magnitude_range n).1 wheel_table,
)
wheel_flags_decode n false = ground (
  arith,
  magnitude_range n,
  checked_rotation both_ways 120 (magnitude n) (magnitude_range n).1 wheel_table,
)

abbrev pub button_bits : ℕ → Bool → ℕ
button_bits button pressed = bit_or (button_flag button) (if pressed then ptr_flags_down else 0)

-- Where one of two button events is of a known button, they have the same flags only if they are of
-- the same button, and both pressed or both released.
pub button_flags_decode :
    (a b : ℕ) (p q : Bool)
    → (button_flag a == 0) ≡ false
    → button_bits a p ≡ button_bits b q
    → (a ≡ b) × (p ≡ q)
unfolding button_flag
button_flags_decode a b p q known same = ground arith
