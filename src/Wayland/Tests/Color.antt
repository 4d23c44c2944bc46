-- ===== src/Wayland/Tests/Color.antt =====
-- Runs of src/wayland/color_management.rs.
use mathlib.Core.Option
use wayland_macos.Base.{ℕ, ◌≡◌, refl, none, some, List, [], ◌∷◌}
use wayland_macos.Base.Map.{lookup}
use wayland_macos.Mac.{TransferFn, Primaries, ColorDesc}
use wayland_macos.Wayland.Types.{surface_rec_default}
use wayland_macos.Wayland.Color.{
  WpTf, WpPrimaries, ColorEnv, Colors, Setting, set_tf_named, set_primaries_named,
  create_parametric_creator, create_description,
}
use wayland_macos.Wayland.Color.Describe.{
  curves, both, answer, last_tf, last_primaries, settings_of, set_all, create_outcome,
}

abbrev env : ColorEnv
env = record { protocol_id = λ n. n; as_f32 = λ n. n; as_u32 = λ n. n }

abbrev hdr : ColorDesc
hdr = record {
  tf = TransferFn.pq;
  primaries = Primaries.bt2020;
  max_luminance = some 1000;
  ref_luminance = none;
}

abbrev colors : Colors
colors = record {
  image_descs = (3, hdr) ∷ [];
  param_creators = [];
  surfaces = (1, surface_rec_default) ∷ [];
  events = [];
}

-- A second creator, and a transfer function that is not supported.
abbrev settings : List (ℕ × Setting)
settings =
    (5, set_tf_named WpTf.hlg)
    ∷ (6, set_primaries_named WpPrimaries.srgb)
    ∷ (5, set_tf_named (WpTf.other_tf 4))
    ∷ (5, set_primaries_named WpPrimaries.display_p3)
    ∷ []

create_outcome_example :
    (Option.map curves (
        lookup 9
          (create_description env 5 9
            (set_all env settings (create_parametric_creator 5 colors))).image_descs)
      ≡ both (last_tf (settings_of 5 settings) none) (last_primaries (settings_of 5 settings) none))
    × ((create_description env 5 9
          (set_all env settings (create_parametric_creator 5 colors))).events
        ≡ answer env 9 (
            both
              (last_tf (settings_of 5 settings) none)
              (last_primaries (settings_of 5 settings) none))
          ∷ colors.events)
unfolding lookup
create_outcome_example = create_outcome env 5 9 settings colors refl
