-- ===== src/Wayland/Layer/Insets.antt =====
-- `recompute_reserved` of src/wayland/mod.rs and the order of its hash map.
use wayland_macos.Base.{ℕ, ◌≡◌, refl, Bool, true, false, not, ◌&&◌, ◌∷◌, arith, if◌then◌else◌}
use mathlib.Core.Path.{◌∙◌, ap}
use mathlib.Core.List.{Permᴰ}
use wayland_macos.Base.Int.{ℤ, pos, max_ℤ, leb_ℤ}
use wayland_macos.Base.Map.{Map}
use wayland_macos.Wayland.Types.{LayerSurfaceRec}
use wayland_macos.Wayland.Layer.{Insets, has_edge, reserve, reserve_all}

max_swap : (i a b : ℤ) → max_ℤ (max_ℤ i a) b ≡ max_ℤ (max_ℤ i b) a
max_swap i a b = ground arith

-- One inset after one bar.
abbrev grow : Bool → ℤ → ℤ → ℤ
grow c z i = if c then max_ℤ i z else i

grow_comm : (c d : Bool) (a b i : ℤ) → grow c a (grow d b i) ≡ grow d b (grow c a i)
grow_comm true true a b i = max_swap i b a
grow_comm true false a b i = refl
grow_comm false d a b i = refl

-- Whether a bar with that anchor and zone reserves space at an edge and not at the opposite one.
abbrev at_edge : LayerSurfaceRec → ℕ → ℕ → Bool
at_edge rec near far =
    not (leb_ℤ rec.exclusive (pos 0)) && has_edge rec.anchor near && not (has_edge rec.anchor far)

choose :
    (skip t b l r : Bool) (top right bottom left mt mr mb ml : ℤ)
    → Path Insets
        (if skip then (top, right, bottom, left) else (
          if t && not b then mt else top,
          if l && not r then right else if r && not l then mr else right,
          if t && not b then bottom else if b && not t then mb else bottom,
          if l && not r then ml else left,
        ))
        (
          if not skip && t && not b then mt else top,
          if not skip && r && not l then mr else right,
          if not skip && b && not t then mb else bottom,
          if not skip && l && not r then ml else left,
        )
choose true t b l r top right bottom left mt mr mb ml = refl
choose false t b l r top right bottom left mt mr mb ml = ground arith

reserve_lem :
    (rec : LayerSurfaceRec) (top right bottom left : ℤ)
    → reserve rec (top, right, bottom, left) ≡ (
      grow (at_edge rec 1 2) rec.exclusive top,
      grow (at_edge rec 8 4) rec.exclusive right,
      grow (at_edge rec 2 1) rec.exclusive bottom,
      grow (at_edge rec 4 8) rec.exclusive left,
    )
unfolding reserve
reserve_lem rec top right bottom left =
    choose (leb_ℤ rec.exclusive (pos 0)) (has_edge rec.anchor 1) (has_edge rec.anchor 2)
      (has_edge rec.anchor 4) (has_edge rec.anchor 8) top right bottom left _ _ _ _

reserve_comm :
    (a b : LayerSurfaceRec) (i : Insets) → reserve a (reserve b i) ≡ reserve b (reserve a i)
reserve_comm a b (top, right, bottom, left) =
    rw
      (
        reserve_lem b top right bottom left,
        reserve_lem a top right bottom left,
        reserve_lem a (grow (at_edge b 1 2) b.exclusive top)
            (grow (at_edge b 8 4) b.exclusive right) (grow (at_edge b 2 1) b.exclusive bottom)
            (grow (at_edge b 4 8) b.exclusive left),
        reserve_lem b (grow (at_edge a 1 2) a.exclusive top)
            (grow (at_edge a 8 4) a.exclusive right) (grow (at_edge a 2 1) a.exclusive bottom)
            (grow (at_edge a 4 8) a.exclusive left),
        grow_comm (at_edge a 1 2) (at_edge b 1 2) a.exclusive b.exclusive top,
        grow_comm (at_edge a 8 4) (at_edge b 8 4) a.exclusive b.exclusive right,
        grow_comm (at_edge a 2 1) (at_edge b 2 1) a.exclusive b.exclusive bottom,
        grow_comm (at_edge a 4 8) (at_edge b 4 8) a.exclusive b.exclusive left,
      )
      refl

-- The insets that `recompute_reserved` publishes are the same whatever the order in which the map
-- of the layer surfaces lists them.
pub reserve_all_order :
    (m m' : Map LayerSurfaceRec) (insets : Insets)
    → Permᴰ m m'
    → reserve_all m insets ≡ reserve_all m' insets
unfolding reserve_all
reserve_all_order m m' insets Permᴰ.nil = refl
reserve_all_order ((i, a) ∷ m) ((j, b) ∷ m') insets (Permᴰ.cons e p) =
    rw (ap (λ x. x.1) e) (reserve_all_order m m' (reserve b insets) p)
reserve_all_order ((i, a) ∷ (j, b) ∷ m) ((i', a') ∷ (j', b') ∷ _) insets (Permᴰ.swap e f) =
    rw (ap (λ x. x.1) e, ap (λ x. x.1) f) (ap (reserve_all m) (reserve_comm a' b' insets))
reserve_all_order m m' insets (Permᴰ.trans {l₂ = l} p q) =
    reserve_all_order m l insets p ∙ reserve_all_order l m' insets q
