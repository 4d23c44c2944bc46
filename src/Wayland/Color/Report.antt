-- ===== src/Wayland/Color/Report.antt =====
-- What src/wayland/color_management.rs tells a client of a description, and what a surface gets.
use mathlib.Core.Option
use wayland_macos.Base.{ℕ, ◌≡◌, refl, Option, some, List, [], ◌∷◌, ◌++◌, arith}
use wayland_macos.Base.Map.{lookup, modify, lookup-modify}
use wayland_macos.Mac.{TransferFn, Primaries, ColorDesc}
use wayland_macos.Wayland.Types.{SurfaceRec}
use wayland_macos.Wayland.Commit.{take_pending}
use wayland_macos.Wayland.Color.{
  WpTf, WpPrimaries, map_tf, map_primaries, to_wp_tf, to_wp_primaries, ColorEvent, tf_named,
  primaries_named, luminances, done, ColorEnv, Colors, tell, stage, get_information,
  set_image_description, destroy_description,
}

to_wp_tf-map_tf : (t : TransferFn) → map_tf (to_wp_tf t) ≡ some t
unfolding map_tf to_wp_tf
to_wp_tf-map_tf TransferFn.srgb = refl
to_wp_tf-map_tf TransferFn.pq = refl
to_wp_tf-map_tf TransferFn.hlg = refl

to_wp_primaries-map_primaries : (p : Primaries) → map_primaries (to_wp_primaries p) ≡ some p
unfolding map_primaries to_wp_primaries
to_wp_primaries-map_primaries Primaries.srgb = refl
to_wp_primaries-map_primaries Primaries.display_p3 = refl
to_wp_primaries-map_primaries Primaries.bt2020 = refl

-- The luminances are reported if both are known.
abbrev pub luminance_events : ColorEnv → ℕ → Option ℕ → Option ℕ → List ColorEvent
luminance_events env info (some m) (some r) = luminances info 0 (env.as_u32 m) (env.as_u32 r) ∷ []
luminance_events env info _ _ = []

information-events :
    (env : ColorEnv) (image info : ℕ) (d : ColorDesc) (s : Colors)
    → lookup image s.image_descs ≡ some d
    → (get_information env image info s).events
      ≡ done info ∷ luminance_events env info d.max_luminance d.ref_luminance
        ++ (tf_named info (to_wp_tf d.tf)
            ∷ primaries_named info (to_wp_primaries d.primaries)
            ∷ s.events)
unfolding get_information tell
information-events env image info d s known = ground arith

-- The information on a description ends with `done`, and names a transfer function and primaries
-- that a client can build the same description from: read back, they are the description's own.
pub information_round_trip :
    (env : ColorEnv) (image info : ℕ) (d : ColorDesc) (s : Colors)
    → lookup image s.image_descs ≡ some d
    → (tf : WpTf) × (primaries : WpPrimaries) × (map_tf tf ≡ some d.tf)
      × (map_primaries primaries ≡ some d.primaries)
      × ((get_information env image info s).events
          ≡ done info ∷ luminance_events env info d.max_luminance d.ref_luminance
            ++ (tf_named info tf ∷ primaries_named info primaries ∷ s.events))
information_round_trip env image info d s known = (
  to_wp_tf d.tf,
  to_wp_primaries d.primaries,
  to_wp_tf-map_tf d.tf,
  to_wp_primaries-map_primaries d.primaries,
  information-events env image info d s known,
)

-- A description that was staged for a surface becomes the surface's with the next commit, even if
-- the client destroys the description before it.
pub staged_applies :
    (surface image : ℕ) (r : SurfaceRec) (s : Colors)
    → lookup surface s.surfaces ≡ some r
    → Option.map
        (λ (q : SurfaceRec). q.color)
        (lookup surface (
          modify surface take_pending
            (destroy_description image (set_image_description surface image s)).surfaces))
      ≡ some (lookup image s.image_descs)
unfolding destroy_description set_image_description
staged_applies surface image r s known = ground (
  arith,
  lookup-modify surface surface take_pending (set_image_description surface image s).surfaces,
  lookup-modify surface surface (stage (lookup image s.image_descs)) s.surfaces,
)
