-- ===== src/Mac/Placement/Visible.antt =====
-- Popups of src/mac.rs and the visible frame of their screen.
use wayland_macos.Base.{ℕ, ◌≡◌, sym, subst, Bool, false, Option, some, arith}
use wayland_macos.Mac.Placement.{
  Frame, Axis, off_screen, prefer, slide, constrain_axis, Parent, PopupRequest, points, screen_of,
  create_popup_origin, constrain, place_on, start, allows,
}

-- What the comparison and the difference of `f64` do at a size and an interval: a number is not
-- below itself, and the difference with the size is no farther than the far end. Both hold for
-- numbers whose sums are exact.
pub record IsExact (f : Axis) (size low high : ℕ) : Type 0 where
  pub not_below : f.lt low low ≡ false
  pub back : f.lt high (f.add (f.sub high size) size) ≡ false
  -- The size fits between the ends.
  pub fits : f.lt high (f.add low size) ≡ false

slide-visible :
    (f : Axis) (p size low high : ℕ)
    → IsExact f size low high
    → off_screen f size low high (slide f p size low high) ≡ false
unfolding slide
slide-visible f p size low high h = ground (arith, h.not_below, h.back, h.fits)

-- A start that is on the screen is kept, whatever the flipped one is.
constrain_axis-kept :
    (f : Axis) (p flipped size low high : ℕ) (flip : Bool)
    → off_screen f size low high p ≡ false
    → constrain_axis f p flipped size low high flip ≡ p
unfolding constrain_axis prefer slide
constrain_axis-kept f p flipped size low high flip e = ground (arith, e)

-- A popup whose size fits into the visible frame of its screen is placed inside of it on both axes,
-- with or without a parent and whatever place it asks for, where the sums of its numbers are exact.
pub create_popup_origin_visible :
    (f : Axis) (parent : Option Parent) (main : Option Frame) (r : PopupRequest) (scale : ℕ)
    (v : Frame)
    → screen_of parent main ≡ some v
    → IsExact f (points f r.width scale) v.x (f.add v.x v.width)
    → IsExact f (points f r.height scale) v.y (f.add v.y v.height)
    → (off_screen f
          (points f r.width scale)
          v.x
          (f.add v.x v.width)
          (create_popup_origin f parent main r scale).0
        ≡ false)
      × (off_screen f
            (points f r.height scale)
            v.y
            (f.add v.y v.height)
            (create_popup_origin f parent main r scale).1
          ≡ false)
unfolding create_popup_origin constrain constrain_axis
create_popup_origin_visible f parent main r scale v e hx hy =
    let lw : ℕ = points f r.width scale in
    let lh : ℕ = points f r.height scale in
    let origin : ℕ × ℕ = start f parent r.x r.y lh in
    let flipped : ℕ × ℕ = start f parent r.x_flip r.y_flip lh in
    let x : ℕ = prefer f origin.0 flipped.0 lw v.x (f.add v.x v.width) (allows r.constraint 4) in
    let y : ℕ = prefer f origin.1 flipped.1 lh v.y (f.add v.y v.height) (allows r.constraint 8) in
    subst
      (λ (s : Option Frame).
        (off_screen f lw v.x (f.add v.x v.width) (place_on f r origin flipped lw lh s).0 ≡ false)
        × (off_screen f lh v.y (f.add v.y v.height) (place_on f r origin flipped lw lh s).1
            ≡ false))
      (sym e)
      (
        slide-visible f x lw v.x (f.add v.x v.width) hx,
        slide-visible f y lh v.y (f.add v.y v.height) hy,
      )
