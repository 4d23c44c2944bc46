-- ===== src/Mac/Image.antt =====
-- src/mac.rs: what `make_cgimage` checks of a frame before Core Graphics is given its bytes.
use wayland_macos.Base.{ℕ, ◌*◌, ◌-◌, ◌%◌, Bool, not, ◌||◌, ◌&&◌, ltb, length}
use wayland_macos.Base.Int.{ℤ, pos, negsuc, pos_part, leb_ℤ, ltb_ℤ, wrap_i32}
use wayland_macos.Mac.{PixelBuf}
use wayland_macos.Mac.Color.{bytes_per_pixel}

abbrev usize_mod : ℕ
usize_mod = 18446744073709551616

-- `as usize` on an `i32`.
abbrev pub as_usize : ℤ → ℕ
as_usize (pos n) = n
as_usize (negsuc n) = usize_mod - 1 - n

-- The product is only asked for once the width is known to be positive.
unfoldable pub rows_hold : PixelBuf → Bool
unfolding bytes_per_pixel
rows_hold pb = not (
    leb_ℤ pb.width (pos 0)
    || leb_ℤ pb.height (pos 0)
    || ltb_ℤ pb.stride (wrap_i32 (pos (pos_part pb.width * bytes_per_pixel pb.format))))

unfoldable pub accepts_image : PixelBuf → Bool
unfolding rows_hold
accepts_image pb =
    rows_hold pb
    && not (ltb (length pb.bytes) (as_usize pb.stride * as_usize pb.height % usize_mod))
