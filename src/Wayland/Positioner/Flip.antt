-- ===== src/Wayland/Positioner/Flip.antt =====
-- What a flip does to a popup's place.
use wayland_macos.Base.{ℕ, ◌≡◌, true, false, arith, if◌then◌else◌, ◌==◌}
use wayland_macos.Wayland.Types.{PositionerState}
use wayland_macos.Wayland.Positioner.{origin_x, origin_y, one_of}

-- The enum values of an edge or corner, mirrored left to right and top to bottom.
unfoldable pub mirror_x : ℕ → ℕ
mirror_x v =
    if v == 3
    then 4
    else if v == 4
    then 3
    else if v == 5
    then 7
    else if v == 7
    then 5
    else if v == 6
    then 8
    else if v == 8
    then 6
    else v

unfoldable pub mirror_y : ℕ → ℕ
mirror_y v =
    if v == 1
    then 2
    else if v == 2
    then 1
    else if v == 5
    then 6
    else if v == 6
    then 5
    else if v == 7
    then 8
    else if v == 8
    then 7
    else v

abbrev pub mirrored : (ℕ → ℕ) → PositionerState → PositionerState
mirrored m p = record p { anchor = m p.anchor; gravity = m p.gravity }

mirror_x-tests :
    (v : ℕ)
    → (one_of 3 5 6 (mirror_x v) ≡ one_of 4 7 8 v)
      × (one_of 4 7 8 (mirror_x v) ≡ one_of 3 5 6 v)
      × (one_of 1 5 7 (mirror_x v) ≡ one_of 1 5 7 v)
      × (one_of 2 6 8 (mirror_x v) ≡ one_of 2 6 8 v)
unfolding mirror_x
mirror_x-tests v = (ground arith, ground arith, ground arith, ground arith)

mirror_y-tests :
    (v : ℕ)
    → (one_of 1 5 7 (mirror_y v) ≡ one_of 2 6 8 v)
      × (one_of 2 6 8 (mirror_y v) ≡ one_of 1 5 7 v)
      × (one_of 3 5 6 (mirror_y v) ≡ one_of 3 5 6 v)
      × (one_of 4 7 8 (mirror_y v) ≡ one_of 4 7 8 v)
unfolding mirror_y
mirror_y-tests v = (ground arith, ground arith, ground arith, ground arith)

-- A flip on an axis places the popup as the positioner with its anchor and its gravity mirrored on
-- that axis does unflipped, for all enum values and all numbers, and leaves the other axis alone.
pub flip_mirrors :
    (p : PositionerState)
    → (origin_x p true ≡ origin_x (mirrored mirror_x p) false)
      × (origin_y p true ≡ origin_y (mirrored mirror_y p) false)
      × (origin_y (mirrored mirror_x p) false ≡ origin_y p false)
      × (origin_x (mirrored mirror_y p) false ≡ origin_x p false)
unfolding origin_x origin_y
flip_mirrors p =
    let (a0, a1, a2, a3) = mirror_x-tests p.anchor in
    let (g0, g1, g2, g3) = mirror_x-tests p.gravity in
    let (b0, b1, b2, b3) = mirror_y-tests p.anchor in
    let (h0, h1, h2, h3) = mirror_y-tests p.gravity in
    (cc (a0, a1, g0, g1), cc (b0, b1, h0, h1), cc (a2, a3, g2, g3), cc (b2, b3, h2, h3))
