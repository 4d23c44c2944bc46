-- ===== src/Wayland/Primary/Owner.antt =====
-- Who owns the selection of src/wayland/primary_selection.rs, and that sources are forgotten once.
use wayland_macos.Base.{
  ℕ, ◌≡◌, refl, ap, ◌∙◌, Option, none, List, [], ◌∷◌, arith, if◌then◌else◌, holds, or_else, retain,
  Bool-cases, Option-cases, inl, inr,
}
use wayland_macos.Base.Map.{lookup}
use wayland_macos.Mac.{Text}
use wayland_macos.Wayland.Primary.{
  PrimaryEnv, PrimarySelection, Offer, tell, tell_mimes, offered, introduce, advertise_to,
  advertise_all, add_device, set_selection, clear_all, forget_source, flush_done, create_source,
  add_mime, receive, Request, get_device, new_source, offer_type, select, source_gone, paste, flush,
  request,
}

-- The owner, by the requests alone: the source that was selected last, until it is gone.
unfoldable pub owner : List (PrimaryEnv × Request) → Option ℕ → Option ℕ
owner [] o = o
owner ((env, select source) ∷ rest) o = owner rest source
owner ((env, source_gone source) ∷ rest) o = owner rest (if holds o source then none else o)
owner ((env, _) ∷ rest) o = owner rest o

unfoldable pub serve : List (PrimaryEnv × Request) → PrimarySelection → PrimarySelection
serve [] p = p
serve ((env, r) ∷ rest) p = serve rest (request env r p)

tell_mimes-owner :
    (offer : Offer) (ms : List Text) (p : PrimarySelection)
    → (tell_mimes offer ms p).active_source ≡ p.active_source
unfolding tell_mimes tell
tell_mimes-owner offer [] p = refl
tell_mimes-owner offer (m ∷ ms) p = tell_mimes-owner offer ms _

introduce-owner :
    (device : ℕ) (offer : Offer) (p : PrimarySelection)
    → (introduce device offer p).active_source ≡ p.active_source
unfolding introduce tell
introduce-owner device offer p =
    tell_mimes-owner offer (or_else (lookup offer.source p.source_mimes) []) _

pub advertise_to-owner :
    (env : PrimaryEnv) (d : ℕ) (p : PrimarySelection)
    → (advertise_to env d p).active_source ≡ p.active_source
unfolding advertise_to tell
advertise_to-owner env d p = elim (Option-cases (offered env p)) [
  | inl e ↦ ground arith
  | inr (source, e) ↦ elim (Option-cases (env.create_offer d)) [
    | inl f ↦ ground arith
    | inr (id, f) ↦ ground (arith, introduce-owner d (record { id = id; source = source }) p)
  ]
]

advertise_all-owner :
    (env : PrimaryEnv) (ds : List ℕ) (p : PrimarySelection)
    → (advertise_all env ds p).active_source ≡ p.active_source
unfolding advertise_all
advertise_all-owner env [] p = refl
advertise_all-owner env (d ∷ ds) p =
    advertise_all-owner env ds (advertise_to env d p) ∙ advertise_to-owner env d p

pub clear_all-owner :
    (ds : List ℕ) (p : PrimarySelection) → (clear_all ds p).active_source ≡ p.active_source
unfolding clear_all tell
clear_all-owner [] p = refl
clear_all-owner (d ∷ ds) p = clear_all-owner ds _

set_selection-owner :
    (env : PrimaryEnv) (source : Option ℕ) (p : PrimarySelection)
    → (set_selection env source p).active_source ≡ source
unfolding set_selection
set_selection-owner env source p = advertise_all-owner env (retain env.is_alive p.devices) _

pub forget_source-owner :
    (env : PrimaryEnv) (source : ℕ) (p : PrimarySelection)
    → (forget_source env source p).active_source
      ≡ (if holds p.active_source source then none else p.active_source)
unfolding forget_source
forget_source-owner env source p = elim (Bool-cases (holds p.active_source source)) [
  | inl e ↦ simp (e, e) (clear_all-owner (retain env.is_alive p.devices) _)
  | inr e ↦ simp (e, e) refl
]

add_device-owner :
    (env : PrimaryEnv) (d : ℕ) (p : PrimarySelection)
    → (add_device env d p).active_source ≡ p.active_source
unfolding add_device
add_device-owner env d p = ground (arith, advertise_to-owner env d p)

receive-owner :
    (env : PrimaryEnv) (offer : Offer) (mime : Text) (p : PrimarySelection)
    → (receive env offer mime p).active_source ≡ p.active_source
unfolding receive tell
receive-owner env offer mime p = ground arith

-- After any sequence of requests, of any clients and whatever objects die meanwhile, the source
-- that is kept as the owner of the selection is the one that was selected last, unless it has gone
-- since.
pub serve-owner :
    (rs : List (PrimaryEnv × Request)) (p : PrimarySelection)
    → (serve rs p).active_source ≡ owner rs p.active_source
unfolding serve owner request create_source add_mime flush_done
serve-owner [] p = refl
serve-owner ((env, select source) ∷ rest) p =
    serve-owner rest _ ∙ ap (owner rest) (set_selection-owner env source p)
serve-owner ((env, source_gone source) ∷ rest) p =
    serve-owner rest _ ∙ ap (owner rest) (forget_source-owner env source p)
serve-owner ((env, get_device d) ∷ rest) p =
    serve-owner rest _ ∙ ap (owner rest) (add_device-owner env d p)
serve-owner ((env, paste offer mime) ∷ rest) p =
    serve-owner rest _ ∙ ap (owner rest) (receive-owner env offer mime p)
serve-owner ((env, new_source source) ∷ rest) p = serve-owner rest _
serve-owner ((env, offer_type source mime) ∷ rest) p = serve-owner rest _
serve-owner ((env, flush) ∷ rest) p = serve-owner rest _
