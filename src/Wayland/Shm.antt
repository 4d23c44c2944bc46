-- ===== src/Wayland/Shm.antt =====
-- src/wayland/mod.rs, src/wayland/shm.rs and single_pixel.rs: reading a client's buffer.
pub mod Bounds
pub mod Drawn
use wayland_macos.Base.{
  ℕ, ◌+◌, ◌*◌, ◌/◌, ◌%◌, ◌^◌, ◌-◌, ◌≡◌, Bool, true, false, ◌||◌, Option, none, some, List, [], ◌∷◌,
  if◌then◌else◌, ◌==◌, ltb, length, take, drop, Checked, crashes, returns,
}
use wayland_macos.Base.Int.{ℤ, pos, pos_part, leb_ℤ, ltb_ℤ}
use wayland_macos.Mac.{PixelFormat, bgra8888, rgb2101010, rgba16f, PixelBuf}
use wayland_macos.Wayland.Types.{BufferKind, shm, single_pixel, Env}

unfoldable pub shm_pixel_format : Env → ℕ → PixelFormat × ℕ
shm_pixel_format env format =
    if format == env.xrgb2101010 || format == env.argb2101010
    then (rgb2101010, 4)
    else if format == env.abgr16161616f
    then (rgba16f, 8)
    else (bgra8888, 4)

-- `usize` has 64 bits on the platforms that the program is for.
abbrev pub usize_mod : ℕ
usize_mod = 18446744073709551616

unfoldable pub checked_mul : ℕ → ℕ → Option ℕ
checked_mul a b = if ltb (a * b) usize_mod then some (a * b) else none

unfoldable pub checked_add : ℕ → ℕ → Option ℕ
checked_add a b = if ltb (a + b) usize_mod then some (a + b) else none

infixl 5 ◌>>=◌
abbrev ◌>>=◌ {ℓ κ} : {A : Type ℓ} {B : Type κ} → Option A → (A → Option B) → Option B
none >>= f = none
some a >>= f = f a

-- `map[off..end]`, which panics unless `off ≤ end` and `end ≤ map.len()`.
unfoldable pub slice : List ℕ → ℕ → ℕ → Option (List ℕ)
slice bytes off end =
    if ltb end off || ltb (length bytes) end then none else some (take (end - off) (drop off bytes))

-- `copy_from_slice`, which panics too unless the lengths agree.
unfoldable pub copy_out : PixelFormat → ℤ → ℤ → ℤ → ℕ → Option (List ℕ) → Checked (Option PixelBuf)
copy_out pf width height stride len none = crashes
copy_out pf width height stride len (some bytes) =
    if length bytes == len
    then returns (
        some
          (record { width = width; height = height; stride = stride; format = pf; bytes = bytes }))
    else crashes

-- The checked arithmetic: the pixel format, the length, and the range in the pool.
unfoldable pub checked_range : Env → ℤ → ℤ → ℤ → ℤ → ℕ → Option (PixelFormat × ℕ × ℕ × ℕ)
unfolding checked_mul checked_add
checked_range env offset width height stride format =
    if leb_ℤ width (pos 0) || leb_ℤ height (pos 0) || ltb_ℤ offset (pos 0) || ltb_ℤ stride (pos 0)
    then none
    else do
      row ← checked_mul (pos_part width) (shm_pixel_format env format).1
      if ltb (pos_part stride) row then none else do
        len ← checked_mul (pos_part stride) (pos_part height)
        end ← checked_add (pos_part offset) len
        some ((shm_pixel_format env format).0, len, pos_part offset, end)

-- From the allocation on: the mapping, its bound, and the copy.
unfoldable pub copy_range :
    Env → ℕ → ℤ → ℤ → ℤ → PixelFormat × ℕ × ℕ × ℕ → Checked (Option PixelBuf)
unfolding slice copy_out
copy_range env pool width height stride (pf, len, off, end) =
    if env.can_alloc len
    then elim (env.mapping pool) [
      | none ↦ returns none
      | some bytes ↦
          if ltb (length bytes) end
          then returns none
          else copy_out pf width height stride len (slice bytes off end)
    ]
    else crashes

unfoldable pub buffer_to_pixels : Env → ℕ → Checked (Option PixelBuf)
unfolding checked_range copy_range
buffer_to_pixels env buffer = elim (env.buffer_data buffer) [
  | none ↦ returns none
  | some (shm pool offset width height stride format) ↦
      elim (checked_range env offset width height stride format) [
        | none ↦ returns none
        | some range ↦ copy_range env pool width height stride range
      ]
  | some (single_pixel bgra) ↦ returns (
      some
        (record { width = pos 1; height = pos 1; stride = pos 4; format = bgra8888; bytes = bgra }))
]

-- The high byte of a channel, and the pixel that `create_u32_rgba_buffer` keeps.
unfoldable pub to8 : ℕ → ℕ
to8 v = v / 2 ^ 24 % 256

unfoldable pub create_u32_rgba_buffer : ℕ → ℕ → ℕ → ℕ → BufferKind
unfolding to8
create_u32_rgba_buffer r g b a = single_pixel (to8 b ∷ to8 g ∷ to8 r ∷ to8 a ∷ [])

-- `PoolMem::resize`: `mapped` is what mapping the pool's file at the new size gives, if it does.
unfoldable pub resize : (ℕ → Option (List ℕ)) → Option (List ℕ) → ℤ → Option (List ℕ)
resize mapped current size =
    if leb_ℤ size (pos 0)
    then current
    else elim (mapped (pos_part size)) [ none ↦ current | some bytes ↦ some bytes ]
