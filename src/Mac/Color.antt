-- ===== src/Mac/Color.antt =====
-- src/mac.rs: the colour space that a frame is tagged with, and the size of its pixels.
use wayland_macos.Base.{ℕ, ◌≡◌, refl, Bool, true, false, Option, none, some, arith}
use wayland_macos.Mac.{TransferFn, Primaries, ColorDesc, PixelFormat, is_hdr}

pub data CgSpace : Type 0 where
  device_rgb display_p3 pq2100 hlg2100 ext_linear_p3 ext_linear2020 : CgSpace

float_space : Option ColorDesc → CgSpace
float_space none = CgSpace.ext_linear_p3
float_space (some c) = elim c.primaries [
  | Primaries.bt2020 ↦ CgSpace.ext_linear2020
  | _ ↦ CgSpace.ext_linear_p3
]

integer_space : Option ColorDesc → CgSpace
integer_space none = CgSpace.device_rgb
integer_space (some c) = elim c.tf [
  | TransferFn.pq ↦ CgSpace.pq2100
  | TransferFn.hlg ↦ CgSpace.hlg2100
  | TransferFn.srgb ↦ elim c.primaries [
    | Primaries.srgb ↦ CgSpace.device_rgb
    | _ ↦ CgSpace.display_p3
  ]
]

unfoldable pub cg_space_for : PixelFormat → Option ColorDesc → CgSpace
unfolding float_space integer_space
cg_space_for PixelFormat.rgba16f color = float_space color
cg_space_for PixelFormat.bgra8888 color = integer_space color
cg_space_for PixelFormat.rgb2101010 color = integer_space color

unfoldable pub bytes_per_pixel : PixelFormat → ℕ
bytes_per_pixel PixelFormat.bgra8888 = 4
bytes_per_pixel PixelFormat.rgb2101010 = 4
bytes_per_pixel PixelFormat.rgba16f = 8

-- The HDR colour spaces of integer frames.
abbrev pub is_hdr_space : CgSpace → Bool
is_hdr_space CgSpace.pq2100 = true
is_hdr_space CgSpace.hlg2100 = true
is_hdr_space _ = false

-- A frame in an integer format is tagged with an HDR colour space exactly if its description asks
-- for an HDR transfer function, and a frame in floats never is: its extended space is linear.
pub cg_space_for_hdr :
    (format : PixelFormat) (color : Option ColorDesc)
    → is_hdr_space (cg_space_for format color) ≡ elim format [
      | PixelFormat.rgba16f ↦ false
      | _ ↦ elim color [ none ↦ false | some c ↦ is_hdr c ]
    ]
unfolding cg_space_for float_space integer_space is_hdr
cg_space_for_hdr PixelFormat.rgba16f none = refl
cg_space_for_hdr PixelFormat.rgba16f (some c) = ground arith
cg_space_for_hdr PixelFormat.bgra8888 none = refl
cg_space_for_hdr PixelFormat.bgra8888 (some c) = ground arith
cg_space_for_hdr PixelFormat.rgb2101010 none = refl
cg_space_for_hdr PixelFormat.rgb2101010 (some c) = ground arith
