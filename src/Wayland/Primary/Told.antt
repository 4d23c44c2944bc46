-- ===== src/Wayland/Primary/Told.antt =====
-- What the clients are told of the selection of src/wayland/primary_selection.rs.
use wayland_macos.Base.{
  ℕ, ◌≡◌, refl, ap, sym, ◌∙◌, true, false, ◌&&◌, Option, none, some, List, [], ◌∷◌, arith,
  if◌then◌else◌, ◌==◌, holds, is_some, or_else, retain, contains, contains-retain, Bool-cases,
  Option-cases, inl, inr,
}
use wayland_macos.Base.Map.{lookup, remove, remove-remove}
use wayland_macos.Mac.{Text}
use wayland_macos.Wayland.Primary.{
  PrimaryEnv, PrimarySelection, PrimaryEvent, Offer, tell, selection, tell_mimes, offered,
  introduce, advertise_to, advertise_all, cancel_previous, set_selection, clear_all, forget_source,
}
use wayland_macos.Wayland.Primary.Owner.{advertise_to-owner, clear_all-owner}

-- The source of the selection that a device was told last; `none` if it was told of none yet.
unfoldable pub told : List PrimaryEvent → ℕ → Option (Option ℕ)
told [] d = none
told (selection e none ∷ rest) d = if e == d then some none else told rest d
told (selection e (some o) ∷ rest) d = if e == d then some (some o.source) else told rest d
told (_ ∷ rest) d = told rest d

tell_mimes-told :
    (offer : Offer) (ms : List Text) (p : PrimarySelection) (d : ℕ)
    → told (tell_mimes offer ms p).events d ≡ told p.events d
unfolding tell_mimes tell told
tell_mimes-told offer [] p d = refl
tell_mimes-told offer (m ∷ ms) p d = tell_mimes-told offer ms _ d

introduce-told :
    (e : ℕ) (offer : Offer) (p : PrimarySelection) (d : ℕ)
    → told (introduce e offer p).events d
      ≡ (if e == d then some (some offer.source) else told p.events d)
unfolding introduce tell told
introduce-told e offer p d =
    ap (λ t. if e == d then some (some offer.source) else t)
      (tell_mimes-told offer (or_else (lookup offer.source p.source_mimes) []) _ d)

-- Every live device can be given an offer.
pub record CanOffer (env : PrimaryEnv) : Type 0 where
  pub clients : (d : ℕ) → env.is_alive d ≡ true → env.has_client d ≡ true
  pub offers : (d : ℕ) → env.is_alive d ≡ true → is_some (env.create_offer d) ≡ true

offered-same :
    (env : PrimaryEnv) (p q : PrimarySelection)
    → q.active_source ≡ p.active_source
    → offered env q ≡ offered env p
unfolding offered
offered-same env p q e = rw e refl

advertise_to-told :
    (env : PrimaryEnv) (e : ℕ) (p : PrimarySelection) (d : ℕ)
    → CanOffer env
    → told (advertise_to env e p).events d
      ≡ (if e == d && env.is_alive e then some (offered env p) else told p.events d)
unfolding advertise_to tell told
advertise_to-told env e p d c = elim (Bool-cases (env.is_alive e)) [
  | inr dead ↦ ground arith
  | inl alive ↦ elim (Option-cases (offered env p)) [
    | inl nothing ↦ ground arith
    | inr (source, it) ↦ elim (Option-cases (env.create_offer e)) [
      | inl failed ↦ ground (arith, c.offers e alive)
      | inr (id, made) ↦
          ground
            (arith, c.clients e alive, introduce-told e (record { id = id; source = source }) p d)
    ]
  ]
]

advertise_all-told :
    (env : PrimaryEnv) (ds : List ℕ) (p : PrimarySelection) (d : ℕ)
    → CanOffer env
    → env.is_alive d ≡ true
    → told (advertise_all env ds p).events d
      ≡ (if contains ds d then some (offered env p) else told p.events d)
unfolding advertise_all contains
advertise_all-told env [] p d c alive = refl
advertise_all-told env (e ∷ ds) p d c alive =
    let same = offered-same env p (advertise_to env e p) (advertise_to-owner env e p) in
    ground (
      arith,
      advertise_all-told env ds (advertise_to env e p) d c alive,
      advertise_to-told env e p d c,
      λ (s : e ≡ d). ap env.is_alive s,
    )

clear_all-told :
    (ds : List ℕ) (p : PrimarySelection) (d : ℕ)
    → told (clear_all ds p).events d ≡ (if contains ds d then some none else told p.events d)
unfolding clear_all tell told contains
clear_all-told [] p d = refl
clear_all-told (e ∷ ds) p d = ground (arith, clear_all-told ds (tell (selection e none) p) d)

live_device :
    (env : PrimaryEnv) (ds : List ℕ) (d : ℕ)
    → contains ds d ≡ true
    → env.is_alive d ≡ true
    → contains (retain env.is_alive ds) d ≡ true
live_device env ds d known alive = ground (arith, contains-retain env.is_alive ds d)

-- When a client selects a source, or none, and offers can be made, the last that every live device
-- of any client was told is that selection: the source while it is alive, and otherwise nothing.
pub set_selection-told :
    (env : PrimaryEnv) (source : Option ℕ) (p : PrimarySelection) (d : ℕ)
    → CanOffer env
    → contains p.devices d ≡ true
    → env.is_alive d ≡ true
    → told (set_selection env source p).events d
      ≡ some (offered env (record p { active_source = source }))
unfolding set_selection offered
set_selection-told env source p d c known alive =
    let live = retain env.is_alive p.devices in
    ground (
      arith,
      live_device env p.devices d known alive,
      advertise_all-told env live
          (record (cancel_previous env source p) { active_source = source; devices = live }) d c
          alive,
    )

clear_all-mimes :
    (ds : List ℕ) (p : PrimarySelection) → (clear_all ds p).source_mimes ≡ p.source_mimes
unfolding clear_all tell
clear_all-mimes [] p = refl
clear_all-mimes (d ∷ ds) p = clear_all-mimes ds _

abbrev emptied : PrimaryEnv → ℕ → PrimarySelection → PrimarySelection
emptied env source p = record p {
  source_mimes = remove source p.source_mimes;
  active_source = none;
  devices = retain env.is_alive p.devices;
}

forget-owned :
    (env : PrimaryEnv) (source : ℕ) (p : PrimarySelection)
    → p.active_source ≡ some source
    → forget_source env source p ≡ clear_all (retain env.is_alive p.devices) (emptied env source p)
unfolding forget_source
forget-owned env source p owns =
    let same : holds p.active_source source ≡ true = ground arith in simp same refl

forget-other :
    (env : PrimaryEnv) (source : ℕ) (p : PrimarySelection)
    → p.active_source ≡ none
    → remove source p.source_mimes ≡ p.source_mimes
    → forget_source env source p ≡ p
unfolding forget_source
forget-other env source p nobody gone =
    let other : holds p.active_source source ≡ false = ground arith in
    simp other (ap (λ m. record p { source_mimes = m }) gone)

-- When the owner of the selection goes away, the last that every live device was told is that there
-- is no selection; and to forget a source again changes nothing and tells nobody.
pub forget_source-told :
    (env : PrimaryEnv) (source : ℕ) (p : PrimarySelection) (d : ℕ)
    → p.active_source ≡ some source
    → contains p.devices d ≡ true
    → env.is_alive d ≡ true
    → (told (forget_source env source p).events d ≡ some none)
      × (forget_source env source (forget_source env source p) ≡ forget_source env source p)
forget_source-told env source p d owns known alive =
    let live = retain env.is_alive p.devices in
    let same = forget-owned env source p owns in
    let mimes = clear_all-mimes live (emptied env source p) in
    (
      ap (λ q. told q.events d) same
          ∙ ground (
            arith,
            live_device env p.devices d known alive,
            clear_all-told live (emptied env source p) d,
          ),
      ap (forget_source env source) same
          ∙ forget-other env source (clear_all live (emptied env source p))
              (clear_all-owner live (emptied env source p))
              (ap (remove source) mimes ∙ remove-remove source p.source_mimes ∙ sym mimes)
          ∙ sym same,
    )
