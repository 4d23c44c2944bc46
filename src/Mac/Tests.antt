-- ===== src/Mac/Tests.antt =====
-- The key table and the colour spaces at concrete inputs.
pub mod Shell
pub mod Placement
use wayland_macos.Base.{ℕ, ◌≡◌, refl, none, some}
use wayland_macos.Mac.{TransferFn, Primaries, ColorDesc, PixelFormat, is_hdr}
use wayland_macos.Mac.Color.{cg_space_for, is_hdr_space, cg_space_for_hdr}
use wayland_macos.Mac.Keys.{macos_to_evdev, macos_to_evdev_injective}

equal_keys : ◌≡◌ {A = ℕ} 0 0
unfolding macos_to_evdev
equal_keys = macos_to_evdev_injective 0 0 30 refl refl

abbrev pq_film : ColorDesc
pq_film = record {
  tf = TransferFn.pq;
  primaries = Primaries.bt2020;
  max_luminance = none;
  ref_luminance = none;
}

pq_tagged : is_hdr_space (cg_space_for PixelFormat.bgra8888 (some pq_film)) ≡ is_hdr pq_film
pq_tagged = cg_space_for_hdr PixelFormat.bgra8888 (some pq_film)
