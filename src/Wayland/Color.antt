-- ===== src/Wayland/Color.antt =====
-- src/wayland/color_management.rs: the colours that a client declares for its content. An object of
-- the protocol is its id.
pub mod Describe
pub mod Report
use wayland_macos.Base.{
  ℕ, Bool, true, false, Option, none, some, List, [], ◌∷◌, if◌then◌else◌, or_else,
}
use wayland_macos.Base.Map.{Map, lookup, insert, remove, modify}
use wayland_macos.Mac.{TransferFn, Primaries, ColorDesc}
use wayland_macos.Wayland.Types.{SurfaceRec}

-- The named values of the protocol that the code tells apart, and the others.
pub data WpTf : Type 0 where
  st2084_pq hlg srgb ext_srgb : WpTf
  other_tf : ℕ → WpTf

pub data WpPrimaries : Type 0 where
  srgb display_p3 bt2020 : WpPrimaries
  other_primaries : ℕ → WpPrimaries

pub record ParamAccum : Type 0 where
  pub tf : Option TransferFn
  pub primaries : Option Primaries
  pub max_luminance : Option ℕ
  pub ref_luminance : Option ℕ

abbrev pub accum_default : ParamAccum
accum_default = record { tf = none; primaries = none; max_luminance = none; ref_luminance = none }

unfoldable pub map_tf : WpTf → Option TransferFn
map_tf WpTf.st2084_pq = some TransferFn.pq
map_tf WpTf.hlg = some TransferFn.hlg
map_tf WpTf.srgb = some TransferFn.srgb
map_tf WpTf.ext_srgb = some TransferFn.srgb
map_tf (WpTf.other_tf n) = none

unfoldable pub map_primaries : WpPrimaries → Option Primaries
map_primaries WpPrimaries.srgb = some Primaries.srgb
map_primaries WpPrimaries.display_p3 = some Primaries.display_p3
map_primaries WpPrimaries.bt2020 = some Primaries.bt2020
map_primaries (WpPrimaries.other_primaries n) = none

unfoldable pub to_wp_tf : TransferFn → WpTf
to_wp_tf TransferFn.pq = WpTf.st2084_pq
to_wp_tf TransferFn.hlg = WpTf.hlg
to_wp_tf TransferFn.srgb = WpTf.srgb

unfoldable pub to_wp_primaries : Primaries → WpPrimaries
to_wp_primaries Primaries.srgb = WpPrimaries.srgb
to_wp_primaries Primaries.display_p3 = WpPrimaries.display_p3
to_wp_primaries Primaries.bt2020 = WpPrimaries.bt2020

unfoldable pub display_preferred_desc : ColorDesc
display_preferred_desc = record {
  tf = TransferFn.srgb;
  primaries = Primaries.srgb;
  max_luminance = none;
  ref_luminance = none;
}

-- What a client is told.
pub data ColorEvent : Type 0 where
  ready : (image identity : ℕ) → ColorEvent
  failed : (image : ℕ) → ColorEvent
  primaries_named : (info : ℕ) (primaries : WpPrimaries) → ColorEvent
  tf_named : (info : ℕ) (tf : WpTf) → ColorEvent
  luminances : (info min_lum max_lum reference_lum : ℕ) → ColorEvent
  done : (info : ℕ) → ColorEvent
  unsupported_feature : ColorEvent

-- The number of an object on the wire, and `as f32` on `u32` and back.
pub record ColorEnv : Type 0 where
  pub protocol_id : ℕ → ℕ
  pub as_f32 : ℕ → ℕ
  pub as_u32 : ℕ → ℕ

-- The part of `State` that the requests change, and the events, the latest first.
pub record Colors : Type 0 where
  pub image_descs : Map ColorDesc
  pub param_creators : Map ParamAccum
  pub surfaces : Map SurfaceRec
  pub events : List ColorEvent

unfoldable pub tell : ColorEvent → Colors → Colors
tell e s = record s { events = e ∷ s.events }

unfoldable pub ready_image_description : ColorEnv → ℕ → ColorDesc → Colors → Colors
unfolding tell
ready_image_description env image desc s =
    tell (ready image (env.protocol_id image))
      (record s { image_descs = insert image desc s.image_descs })

-- The requests that fill in a creator.
pub data Setting : Type 0 where
  set_tf_named : (tf : WpTf) → Setting
  set_primaries_named : (primaries : WpPrimaries) → Setting
  set_luminances : (max_lum reference_lum : ℕ) → Setting
  set_mastering_luminance : (max_lum : ℕ) → Setting

unfoldable pub fill : ColorEnv → Setting → ParamAccum → ParamAccum
unfolding map_tf map_primaries
fill env (set_tf_named tf) a = elim (map_tf tf) [ none ↦ a | some m ↦ record a { tf = some m } ]
fill env (set_primaries_named p) a = elim (map_primaries p) [
  | none ↦ a
  | some m ↦ record a { primaries = some m }
]
fill env (set_luminances max_lum reference_lum) a = record a {
  max_luminance = some (env.as_f32 max_lum);
  ref_luminance = some (env.as_f32 reference_lum);
}
fill env (set_mastering_luminance max_lum) a = record a {
  max_luminance = some (env.as_f32 max_lum);
}

unfoldable pub set_parameter : ColorEnv → ℕ → Setting → Colors → Colors
unfolding fill
set_parameter env creator x s = record s {
  param_creators = modify creator (fill env x) s.param_creators;
}

unfoldable pub create_parametric_creator : ℕ → Colors → Colors
create_parametric_creator creator s = record s {
  param_creators = insert creator accum_default s.param_creators;
}

-- The description that a creator amounts to.
unfoldable pub described : ParamAccum → Option ColorDesc
described a = elim a.tf [
  | none ↦ none
  | some tf ↦ elim a.primaries [
    | none ↦ none
    | some primaries ↦ some (record {
      tf = tf;
      primaries = primaries;
      max_luminance = a.max_luminance;
      ref_luminance = a.ref_luminance;
    })
  ]
]

unfoldable pub create_description : ColorEnv → ℕ → ℕ → Colors → Colors
unfolding described ready_image_description tell
create_description env creator image s =
    let left = record s { param_creators = remove creator s.param_creators } in
    elim (described (or_else (lookup creator s.param_creators) accum_default)) [
      | none ↦ tell (failed image) left
      | some desc ↦ ready_image_description env image desc left
    ]

abbrev pub tell_luminances : ColorEnv → ℕ → ColorDesc → Colors → Colors
tell_luminances env info d s = elim d.max_luminance [
  | none ↦ s
  | some maxl ↦ elim d.ref_luminance [
    | none ↦ s
    | some refl_lum ↦ tell (luminances info 0 (env.as_u32 maxl) (env.as_u32 refl_lum)) s
  ]
]

unfoldable pub get_information : ColorEnv → ℕ → ℕ → Colors → Colors
unfolding tell to_wp_tf to_wp_primaries
get_information env image info s = tell (done info) (elim (lookup image s.image_descs) [
  | none ↦ s
  | some d ↦ tell_luminances env info d (
      tell (tf_named info (to_wp_tf d.tf))
        (tell (primaries_named info (to_wp_primaries d.primaries)) s))
])

unfoldable pub destroy_description : ℕ → Colors → Colors
destroy_description image s = record s { image_descs = remove image s.image_descs }

abbrev pub stage : Option ColorDesc → SurfaceRec → SurfaceRec
stage desc r = record r { pending_color = some desc }

unfoldable pub set_image_description : ℕ → ℕ → Colors → Colors
set_image_description surface image s = record s {
  surfaces = modify surface (stage (lookup image s.image_descs)) s.surfaces;
}

unfoldable pub unset_image_description : ℕ → Colors → Colors
unset_image_description surface s = record s { surfaces = modify surface (stage none) s.surfaces }

-- The display's description, which surfaces and outputs are told to prefer.
unfoldable pub get_preferred : ColorEnv → ℕ → Colors → Colors
unfolding ready_image_description display_preferred_desc
get_preferred env image s = ready_image_description env image display_preferred_desc s

unfoldable pub create_other : Colors → Colors
unfolding tell
create_other s = tell unsupported_feature s
