-- ===== src/Wayland/Shm/Drawn.antt =====
-- The frames that src/wayland/mod.rs reads from buffers, at the checks of src/mac.rs.
use wayland_macos.Base.{
  ℕ, ◌+◌, ◌*◌, ◌<◌, ◌≤◌, ◌≡◌, refl, ap, sym, subst, ◌∙◌, true, some, List, arith, length, take,
  drop, length-take, length-drop, returns,
}
use wayland_macos.Base.Int.{ℤ, pos, negsuc, pos_part, neg_part, wrap_i32, wrap_i32_id, IsI32}
use wayland_macos.Mac.{PixelBuf}
use wayland_macos.Mac.Color.{bytes_per_pixel}
use wayland_macos.Mac.Image.{as_usize, rows_hold, accepts_image}
use wayland_macos.Wayland.Types.{shm, Env}
use wayland_macos.Wayland.Shm.{shm_pixel_format, buffer_to_pixels}
use wayland_macos.Wayland.Shm.Bounds.{IsSane, pixels_in, buffer_to_pixels_exact}

-- Both sides give a pixel the same number of bytes.
pixel_sizes :
    (env : Env) (format : ℕ)
    → bytes_per_pixel (shm_pixel_format env format).0 ≡ (shm_pixel_format env format).1
unfolding bytes_per_pixel shm_pixel_format
pixel_sizes env format = ground arith

area_bound : (a b : ℕ) → a < 2147483648 → b < 2147483648 → a * b < 18446744073709551616
area_bound a b h k = grind arith

as_usize_pos : (a : ℤ) → neg_part a ≡ 0 → as_usize a ≡ pos_part a
as_usize_pos (pos n) h = refl
as_usize_pos (negsuc n) h = absurd (omega arith)

positive : (a : ℤ) → 0 < pos_part a → neg_part a ≡ 0
positive (pos n) h = refl
positive (negsuc n) h = absurd (omega arith)

row_wraps_not : (n s : ℕ) → n ≤ s → s < 2147483648 → wrap_i32 (pos n) ≡ pos n
row_wraps_not n s h k = wrap_i32_id (pos n) (omega arith, omega arith)

whole_length :
    (bytes : List ℕ) (off len : ℕ)
    → off + len ≤ length bytes
    → length (take len (drop off bytes)) ≡ len
whole_length bytes off len h =
    ground (arith, length-take len (drop off bytes), length-drop off bytes)

-- The checks pass if the rows hold the pixels and the bytes are all there.
accepts :
    (pb : PixelBuf)
    → 0 < pos_part pb.width
    → 0 < pos_part pb.height
    → neg_part pb.stride ≡ 0
    → IsI32 pb.stride
    → IsI32 pb.height
    → pos_part pb.width * bytes_per_pixel pb.format ≤ pos_part pb.stride
    → length pb.bytes ≡ pos_part pb.stride * pos_part pb.height
    → accepts_image pb ≡ true
unfolding accepts_image rows_hold
accepts pb w h nonneg s32 h32 rows bytes =
    let row : ℕ = pos_part pb.width * bytes_per_pixel pb.format in
    rw
      (
        row_wraps_not row (pos_part pb.stride) rows s32.0,
        as_usize_pos pb.stride nonneg,
        as_usize_pos pb.height (positive pb.height h),
        bytes,
      )
      (ground (
        arith,
        positive pb.width w,
        positive pb.height h,
        nonneg,
        area_bound (pos_part pb.stride) (pos_part pb.height) s32.0 h32.0,
      ))

-- Every frame that is read from a shm buffer passes the checks of the image that is made of it:
-- its rows hold its pixels in the size that the AppKit side gives a pixel of its format, and its
-- bytes are all there. For numbers in the range of `i32`, and while allocations succeed.
pub buffer_to_pixels-accepts_image :
    (env : Env) (buffer pool : ℕ) (offset width height stride : ℤ) (format : ℕ)
    (declared : env.buffer_data buffer ≡ some (shm pool offset width height stride format))
    → IsI32 offset
    → IsI32 height
    → IsI32 stride
    → ((n : ℕ) → env.can_alloc n ≡ true)
    → (pb : PixelBuf) → buffer_to_pixels env buffer ≡ returns (some pb)
    → accepts_image pb ≡ true
buffer_to_pixels-accepts_image env buffer pool offset width height stride format declared o32 h32
      s32 ok pb e =
    let both =
      (buffer_to_pixels_exact env buffer pool offset width height stride format declared o32 h32 s32
          ok pb).0
        e in
    let s : IsSane env offset width height stride format = both.0 in
    let bytes : List ℕ = both.1.0 in
    ap accepts_image both.1.3
    ∙ accepts
        (pixels_in env buffer pool offset width height stride format declared o32 h32 s32 ok bytes)
        s.wide s.high s.stride_nonneg s32 h32
        (subst (λ (n : ℕ). pos_part width * n ≤ pos_part stride) (sym (pixel_sizes env format))
          s.rows)
        (whole_length bytes (pos_part offset) (pos_part stride * pos_part height) both.1.2)
