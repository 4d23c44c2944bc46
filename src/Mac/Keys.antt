-- ===== src/Mac/Keys.antt =====
-- src/mac.rs: macOS key codes, modifier flags and mouse buttons in Wayland's terms.
use Prim.Native.Nat.{bit_or}
use wayland_macos.Base.{
  ℕ, ◌+◌, ◌-◌, ◌%◌, ◌≡◌, refl, Bool, true, false, Option, none, some, [], ◌∷◌, arith, if◌then◌else◌,
  ◌==◌, ◌&&◌,
}
use wayland_macos.Base.Int.{ℤ, pos, negsuc}
use wayland_macos.Base.Map.{Map, lookup}

-- The arms of `macos_to_evdev`, in the source's order.
abbrev pub keys : Map ℕ
keys =
    (0x00, 30)
    ∷ (0x01, 31)
    ∷ (0x02, 32)
    ∷ (0x03, 33)
    ∷ (0x04, 35)
    ∷ (0x05, 34)
    ∷ (0x06, 44)
    ∷ (0x07, 45)
    ∷ (0x08, 46)
    ∷ (0x09, 47)
    ∷ (0x0b, 48)
    ∷ (0x0c, 16)
    ∷ (0x0d, 17)
    ∷ (0x0e, 18)
    ∷ (0x0f, 19)
    ∷ (0x10, 21)
    ∷ (0x11, 20)
    ∷ (0x12, 2)
    ∷ (0x13, 3)
    ∷ (0x14, 4)
    ∷ (0x15, 5)
    ∷ (0x16, 7)
    ∷ (0x17, 6)
    ∷ (0x18, 13)
    ∷ (0x19, 10)
    ∷ (0x1a, 8)
    ∷ (0x1b, 12)
    ∷ (0x1c, 9)
    ∷ (0x1d, 11)
    ∷ (0x1e, 27)
    ∷ (0x1f, 24)
    ∷ (0x20, 22)
    ∷ (0x21, 26)
    ∷ (0x22, 23)
    ∷ (0x23, 25)
    ∷ (0x24, 28)
    ∷ (0x25, 38)
    ∷ (0x26, 36)
    ∷ (0x27, 40)
    ∷ (0x28, 37)
    ∷ (0x29, 39)
    ∷ (0x2a, 43)
    ∷ (0x2b, 51)
    ∷ (0x2c, 53)
    ∷ (0x2d, 49)
    ∷ (0x2e, 50)
    ∷ (0x2f, 52)
    ∷ (0x30, 15)
    ∷ (0x31, 57)
    ∷ (0x32, 41)
    ∷ (0x33, 14)
    ∷ (0x35, 1)
    ∷ (0x37, 125)
    ∷ (0x38, 42)
    ∷ (0x39, 58)
    ∷ (0x3a, 56)
    ∷ (0x3b, 29)
    ∷ (0x3c, 54)
    ∷ (0x3d, 100)
    ∷ (0x3e, 97)
    ∷ (0x36, 126)
    ∷ (0x7b, 105)
    ∷ (0x7c, 106)
    ∷ (0x7d, 108)
    ∷ (0x7e, 103)
    ∷ []

unfoldable pub macos_to_evdev : ℕ → Option ℕ
unfolding lookup
macos_to_evdev kc = lookup kc keys

-- The modifier flags of an `NSEvent`.
pub record Flags : Type 0 where
  pub shift : Bool
  pub control : Bool
  pub option : Bool
  pub command : Bool
  pub caps_lock : Bool

-- (depressed, locked).
unfoldable pub modifier_masks : Flags → ℕ × ℕ
modifier_masks f =
    let a = if f.shift then bit_or 0 1 else 0 in
    let b = if f.control then bit_or a 4 else a in
    let c = if f.option then bit_or b 8 else b in
    let d = if f.command then bit_or c 64 else c in (d, if f.caps_lock then bit_or 0 2 else 0)

-- `0x110 + other as u32`, with the cast of an `isize` and `u32`'s wrap-around.
unfoldable pub btn_code : ℤ → ℕ
btn_code (pos n) = (0x110 + n) % 4294967296
btn_code (negsuc n) = (0x110 + (4294967295 - n % 4294967296)) % 4294967296

-- The other way round, from evdev's codes.
abbrev inverse : Map ℕ → Map ℕ
inverse [] = []
inverse ((k, v) ∷ m) = (v, k) ∷ inverse m

-- Whether each entry is found from its value again.
abbrev inverts : Map ℕ → Map ℕ → Bool
inverts back [] = true
inverts back ((k, v) ∷ m) =
    (elim (lookup v back) [ none ↦ false | some j ↦ j == k ]) && inverts back m

inverts-lookup :
    (back m : Map ℕ) (k v : ℕ)
    → inverts back m ≡ true
    → lookup k m ≡ some v
    → lookup v back ≡ some k
unfolding lookup
inverts-lookup back [] k v h e = ground arith
inverts-lookup back ((j, w) ∷ m) k v h e = ground (arith, inverts-lookup back m k v)

-- Two keys of a Mac's keyboard never give a client the same key.
pub macos_to_evdev_injective :
    (k j v : ℕ) → macos_to_evdev k ≡ some v → macos_to_evdev j ≡ some v → k ≡ j
unfolding macos_to_evdev lookup
macos_to_evdev_injective k j v h e =
    let checked : inverts (inverse keys) keys ≡ true = refl in
    let a = inverts-lookup (inverse keys) keys k v checked h in
    let b = inverts-lookup (inverse keys) keys j v checked e in ground arith
