-- ===== src/Wayland/Color/Describe.antt =====
-- The description that a client's parameters amount to in src/wayland/color_management.rs.
use mathlib.Core.Option
use wayland_macos.Base.{
  ℕ, ◌≡◌, refl, ap, sym, ◌∙◌, Option, none, some, List, [], ◌∷◌, arith, if◌then◌else◌, ◌==◌,
  Option-cases, inl, inr,
}
use wayland_macos.Base.Map.{lookup, insert, lookup-insert_self, lookup-modify}
use wayland_macos.Mac.{TransferFn, Primaries, ColorDesc}
use wayland_macos.Wayland.Color.{
  ParamAccum, accum_default, map_tf, map_primaries, ColorEvent, ready, failed, ColorEnv, Colors,
  tell, ready_image_description, Setting, set_tf_named, set_primaries_named, set_luminances,
  set_mastering_luminance, fill, set_parameter, create_parametric_creator, described,
  create_description,
}

-- The last value of each kind that a list of settings names, where the protocol's value is supported.
unfoldable pub last_tf : List Setting → Option TransferFn → Option TransferFn
last_tf [] t = t
last_tf (set_tf_named tf ∷ rest) t = last_tf rest (elim (map_tf tf) [ none ↦ t | some m ↦ some m ])
last_tf (_ ∷ rest) t = last_tf rest t

unfoldable pub last_primaries : List Setting → Option Primaries → Option Primaries
last_primaries [] t = t
last_primaries (set_primaries_named p ∷ rest) t =
    last_primaries rest (elim (map_primaries p) [ none ↦ t | some m ↦ some m ])
last_primaries (_ ∷ rest) t = last_primaries rest t

-- The settings of one creator, out of those of all.
unfoldable pub settings_of : ℕ → List (ℕ × Setting) → List Setting
settings_of c [] = []
settings_of c ((d, x) ∷ rest) = if d == c then x ∷ settings_of c rest else settings_of c rest

unfoldable pub set_all : ColorEnv → List (ℕ × Setting) → Colors → Colors
set_all env [] s = s
set_all env ((c, x) ∷ rest) s = set_all env rest (set_parameter env c x s)

unfoldable fill_all : ColorEnv → List Setting → ParamAccum → ParamAccum
fill_all env [] a = a
fill_all env (x ∷ rest) a = fill_all env rest (fill env x a)

fill-values :
    (env : ColorEnv) (x : Setting) (a : ParamAccum)
    → ((fill env x a).tf ≡ last_tf (x ∷ []) a.tf)
      × ((fill env x a).primaries ≡ last_primaries (x ∷ []) a.primaries)
unfolding last_tf last_primaries fill
fill-values env (set_tf_named tf) a = ground arith
fill-values env (set_primaries_named p) a = ground arith
fill-values env (set_luminances m r) a = (refl, refl)
fill-values env (set_mastering_luminance m) a = (refl, refl)

last-nil :
    (t : Option TransferFn) (p : Option Primaries) → (t ≡ last_tf [] t) × (p ≡ last_primaries [] p)
unfolding last_tf last_primaries
last-nil t p = (refl, refl)

last-cons :
    (x : Setting) (xs : List Setting) (t : Option TransferFn) (p : Option Primaries)
    → (last_tf xs (last_tf (x ∷ []) t) ≡ last_tf (x ∷ xs) t)
      × (last_primaries xs (last_primaries (x ∷ []) p) ≡ last_primaries (x ∷ xs) p)
unfolding last_tf last_primaries
last-cons (set_tf_named tf) xs t p = (refl, refl)
last-cons (set_primaries_named q) xs t p = (refl, refl)
last-cons (set_luminances m r) xs t p = (refl, refl)
last-cons (set_mastering_luminance m) xs t p = (refl, refl)

fill_all-values :
    (env : ColorEnv) (xs : List Setting) (a : ParamAccum)
    → ((fill_all env xs a).tf ≡ last_tf xs a.tf)
      × ((fill_all env xs a).primaries ≡ last_primaries xs a.primaries)
unfolding fill_all
fill_all-values env [] a = last-nil a.tf a.primaries
fill_all-values env (x ∷ rest) a =
    let (tf, primaries) = fill_all-values env rest (fill env x a) in
    let (tf_one, primaries_one) = fill-values env x a in
    let (tf_cons, primaries_cons) = last-cons x rest a.tf a.primaries in
    (
      tf ∙ ap (last_tf rest) tf_one ∙ tf_cons,
      primaries ∙ ap (last_primaries rest) primaries_one ∙ primaries_cons,
    )

-- Other creators do not matter.
set_all-creator :
    (env : ColorEnv) (xs : List (ℕ × Setting)) (c : ℕ) (a : ParamAccum) (s : Colors)
    → lookup c s.param_creators ≡ some a
    → (lookup c (set_all env xs s).param_creators ≡ some (fill_all env (settings_of c xs) a))
      × ((set_all env xs s).image_descs ≡ s.image_descs)
unfolding set_all settings_of fill_all set_parameter
set_all-creator env [] c a s e = (e, refl)
set_all-creator env ((d, x) ∷ rest) c a s e = ground (
  arith,
  lookup-modify c d (fill env x) s.param_creators,
  set_all-creator env rest c a (set_parameter env d x s),
  set_all-creator env rest c (fill env x a) (set_parameter env d x s),
)

abbrev pub both : Option TransferFn → Option Primaries → Option (TransferFn × Primaries)
both none p = none
both (some t) none = none
both (some t) (some p) = some (t, p)

abbrev pub curves : ColorDesc → TransferFn × Primaries
curves d = (d.tf, d.primaries)

described-curves : (a : ParamAccum) → Option.map curves (described a) ≡ both a.tf a.primaries
unfolding described
described-curves a = ground arith

-- The answer to a creator with given parameters.
abbrev pub answer : ColorEnv → ℕ → Option (TransferFn × Primaries) → ColorEvent
answer env image none = failed image
answer env image (some c) = ready image (env.protocol_id image)

-- The two outcomes.
create-none :
    (env : ColorEnv) (c image : ℕ) (a : ParamAccum) (s : Colors)
    → lookup c s.param_creators ≡ some a
    → described a ≡ none
    → ((create_description env c image s).image_descs ≡ s.image_descs)
      × ((create_description env c image s).events ≡ failed image ∷ s.events)
unfolding create_description tell
create-none env c image a s found e = ground arith

create-some :
    (env : ColorEnv) (c image : ℕ) (a : ParamAccum) (d : ColorDesc) (s : Colors)
    → lookup c s.param_creators ≡ some a
    → described a ≡ some d
    → ((create_description env c image s).image_descs ≡ insert image d s.image_descs)
      × ((create_description env c image s).events ≡ ready image (env.protocol_id image) ∷ s.events)
unfolding create_description ready_image_description tell
create-some env c image a d s found e = ground arith

create-described :
    (env : ColorEnv) (c image : ℕ) (a : ParamAccum) (s : Colors)
    → lookup c s.param_creators ≡ some a
    → lookup image s.image_descs ≡ none
    → (Option.map curves (lookup image (create_description env c image s).image_descs)
        ≡ both a.tf a.primaries)
      × ((create_description env c image s).events
          ≡ answer env image (both a.tf a.primaries) ∷ s.events)
create-described env c image a s found new = elim (Option-cases (described a)) [
  | inl e ↦
      let nothing : none ≡ both a.tf a.primaries =
        sym (ap (Option.map curves) e) ∙ described-curves a in
      let (descs, told) = create-none env c image a s found e in
      (
        ap (λ m. Option.map curves (lookup image m)) descs ∙ ap (Option.map curves) new ∙ nothing,
        told ∙ ap (λ b. answer env image b ∷ s.events) nothing,
      )
  | inr (d, e) ↦
      let it : some (curves d) ≡ both a.tf a.primaries =
        sym (ap (Option.map curves) e) ∙ described-curves a in
      let (descs, told) = create-some env c image a d s found e in
      (
        ap (λ m. Option.map curves (lookup image m)) descs
            ∙ ap (Option.map curves) (lookup-insert_self image d s.image_descs)
            ∙ it,
        told ∙ ap (λ b. answer env image b ∷ s.events) it,
      )
]

set_all-events :
    (env : ColorEnv) (xs : List (ℕ × Setting)) (s : Colors) → (set_all env xs s).events ≡ s.events
unfolding set_all set_parameter
set_all-events env [] s = refl
set_all-events env ((c, x) ∷ rest) s = set_all-events env rest (set_parameter env c x s)

creator-fresh :
    (c : ℕ) (s : Colors)
    → (lookup c (create_parametric_creator c s).param_creators ≡ some accum_default)
      × ((create_parametric_creator c s).image_descs ≡ s.image_descs)
      × ((create_parametric_creator c s).events ≡ s.events)
unfolding create_parametric_creator
creator-fresh c s = (lookup-insert_self c accum_default s.param_creators, refl, refl)

-- A client creates a creator, fills it and any other creators with any settings, and then creates
-- a new image description of it: the description has the last transfer function and the last
-- primaries that were named for this creator and are supported, and the client is told it is ready;
-- if one of the two was never named, there is no description and it is told of the failure.
pub create_outcome :
    (env : ColorEnv) (c image : ℕ) (xs : List (ℕ × Setting)) (s : Colors)
    → lookup image s.image_descs ≡ none
    → (Option.map curves (
          lookup image
            (create_description env c image
              (set_all env xs (create_parametric_creator c s))).image_descs)
        ≡ both (last_tf (settings_of c xs) none) (last_primaries (settings_of c xs) none))
      × ((create_description env c image (set_all env xs (create_parametric_creator c s))).events
          ≡ answer env image
              (both (last_tf (settings_of c xs) none) (last_primaries (settings_of c xs) none))
            ∷ s.events)
create_outcome env c image xs s new =
    let fresh = create_parametric_creator c s in
    let (held, kept) = set_all-creator env xs c accum_default fresh (creator-fresh c s).0 in
    let (tf_last, primaries_last) = fill_all-values env (settings_of c xs) accum_default in
    let (descs, told) =
      create-described env c image (fill_all env (settings_of c xs) accum_default)
        (set_all env xs fresh) held (ap (lookup image) (kept ∙ (creator-fresh c s).1) ∙ new) in
    let same =
      ap (λ t. both t (fill_all env (settings_of c xs) accum_default).primaries) tf_last
      ∙ ap (both (last_tf (settings_of c xs) none)) primaries_last in
    (
      descs ∙ same,
      told
          ∙ ap (λ b. answer env image b ∷ (set_all env xs fresh).events) same
          ∙ ap
              (λ l.
                answer env image
                  (both (last_tf (settings_of c xs) none) (last_primaries (settings_of c xs) none))
                ∷ l)
              (set_all-events env xs fresh ∙ (creator-fresh c s).2),
    )
