-- ===== src/Mac/Geometry.antt =====
-- src/mac.rs: the logical size of a window and the margin of its client-side shadow.
use wayland_macos.Base.{ℕ, ◌&&◌, ◌||◌, if◌then◌else◌}
use wayland_macos.Base.Int.{ℤ, pos, quot_ℤ, max_ℤ, leb_ℤ, ltb_ℤ, ◌-i32◌}
use wayland_macos.Mac.{Geom}

-- The conversion to `f64` is exact on `i32`, so the size is given before it. `scale` is at least 1.
unfoldable pub logical_size : ℤ → ℤ → ℤ → ℤ → ℕ → ℤ × ℤ
unfolding quot_ℤ
logical_size width height dst_w dst_h scale =
    if ltb_ℤ (pos 0) dst_w && ltb_ℤ (pos 0) dst_h
    then (dst_w, dst_h)
    else (max_ℤ (quot_ℤ width scale) (pos 1), max_ℤ (quot_ℤ height scale) (pos 1))

unfoldable pub csd_margin : ℤ → ℤ → ℤ → ℤ → Geom → ℕ → ℤ × ℤ
unfolding quot_ℤ ◌-i32◌
csd_margin width height dst_w dst_h geom scale =
    if ltb_ℤ (pos 0) dst_w
      || ltb_ℤ (pos 0) dst_h
      || leb_ℤ geom.width (pos 0)
      || leb_ℤ geom.height (pos 0)
    then (pos 0, pos 0)
    else (
      max_ℤ (max_ℤ (quot_ℤ width scale) (pos 1) -i32 geom.width) (pos 0),
      max_ℤ (max_ℤ (quot_ℤ height scale) (pos 1) -i32 geom.height) (pos 0),
    )
