-- ===== src/Wayland/Primary.antt =====
-- src/wayland/primary_selection.rs: the selection that a middle click pastes. An object of the
-- protocol is its id; an offer carries the source it was made for.
pub mod Told
pub mod Owner
use wayland_macos.Base.{
  ℕ, suc, Bool, true, false, not, Option, none, some, List, [], ◌∷◌, ◌++◌, if◌then◌else◌, ◌==◌,
  holds, is_some, or_else, retain,
}
use wayland_macos.Base.Map.{Map, lookup, insert, remove, modify}
use wayland_macos.Mac.{Text}

pub record Offer : Type 0 where
  pub id : ℕ
  pub source : ℕ

pub data PrimaryEvent : Type 0 where
  data_offer : (device : ℕ) (offer : Offer) → PrimaryEvent
  offer_mime : (offer : Offer) (mime : Text) → PrimaryEvent
  selection : (device : ℕ) (offer : Option Offer) → PrimaryEvent
  cancelled : (source : ℕ) → PrimaryEvent
  send_source : (source : ℕ) (mime : Text) → PrimaryEvent

-- What the handlers ask the server library: whether an object is alive, whether a device has a
-- client, and the id of a new offer for it, if one can be made.
pub record PrimaryEnv : Type 0 where
  pub is_alive : ℕ → Bool
  pub has_client : ℕ → Bool
  pub create_offer : ℕ → Option ℕ

-- The pipe ends that wait for the next flush are counted. The events are the latest first.
pub record PrimarySelection : Type 0 where
  pub devices : List ℕ
  pub source_mimes : Map (List Text)
  pub active_source : Option ℕ
  pub pending_close : ℕ
  pub events : List PrimaryEvent

unfoldable pub tell : PrimaryEvent → PrimarySelection → PrimarySelection
tell e p = record p { events = e ∷ p.events }

unfoldable pub tell_mimes : Offer → List Text → PrimarySelection → PrimarySelection
unfolding tell
tell_mimes offer [] p = p
tell_mimes offer (m ∷ ms) p = tell_mimes offer ms (tell (offer_mime offer m) p)

-- The source that is offered: the active one, while it is alive.
unfoldable pub offered : PrimaryEnv → PrimarySelection → Option ℕ
offered env p = elim p.active_source [
  | none ↦ none
  | some source ↦ if env.is_alive source then some source else none
]

unfoldable pub introduce : ℕ → Offer → PrimarySelection → PrimarySelection
unfolding tell tell_mimes
introduce device offer p = tell (selection device (some offer)) (
    tell_mimes offer (or_else (lookup offer.source p.source_mimes) [])
      (tell (data_offer device offer) p))

unfoldable pub advertise_to : PrimaryEnv → ℕ → PrimarySelection → PrimarySelection
unfolding tell offered introduce
advertise_to env device p = if not (env.is_alive device) then p else elim (offered env p) [
  | none ↦ tell (selection device none) p
  | some source ↦ if not (env.has_client device) then p else elim (env.create_offer device) [
    | none ↦ p
    | some id ↦ introduce device (record { id = id; source = source }) p
  ]
]

unfoldable pub advertise_all : PrimaryEnv → List ℕ → PrimarySelection → PrimarySelection
unfolding advertise_to
advertise_all env [] p = p
advertise_all env (d ∷ ds) p = advertise_all env ds (advertise_to env d p)

unfoldable pub add_device : PrimaryEnv → ℕ → PrimarySelection → PrimarySelection
unfolding advertise_to
add_device env device p =
    let told = if is_some p.active_source then advertise_to env device p else p in
    record told { devices = told.devices ++ (device ∷ []) }

-- The previous owner is told that it was replaced.
unfoldable pub cancel_previous : PrimaryEnv → Option ℕ → PrimarySelection → PrimarySelection
unfolding tell
cancel_previous env source p = elim p.active_source [
  | none ↦ p
  | some prev ↦
      if not (env.is_alive prev)
      then p
      else if holds source prev
      then p
      else tell (cancelled prev) p
]

unfoldable pub set_selection : PrimaryEnv → Option ℕ → PrimarySelection → PrimarySelection
unfolding cancel_previous advertise_all retain
set_selection env source p =
    let live = retain env.is_alive p.devices in
    advertise_all env live
      (record (cancel_previous env source p) { active_source = source; devices = live })

-- `selection(None)` to each.
unfoldable pub clear_all : List ℕ → PrimarySelection → PrimarySelection
unfolding tell
clear_all [] p = p
clear_all (d ∷ ds) p = clear_all ds (tell (selection d none) p)

unfoldable pub forget_source : PrimaryEnv → ℕ → PrimarySelection → PrimarySelection
unfolding clear_all retain
forget_source env source p =
    let left = record p { source_mimes = remove source p.source_mimes } in
    let live = retain env.is_alive p.devices in
    if holds p.active_source source
    then clear_all live (record left { active_source = none; devices = live })
    else left

unfoldable pub flush_done : PrimarySelection → PrimarySelection
flush_done p = record p { pending_close = 0 }

unfoldable pub create_source : ℕ → PrimarySelection → PrimarySelection
create_source source p = record p { source_mimes = insert source [] p.source_mimes }

-- `entry(..).or_default().push(..)`.
unfoldable pub add_mime : ℕ → Text → PrimarySelection → PrimarySelection
add_mime source mime p = record p {
  source_mimes =
      insert source (or_else (lookup source p.source_mimes) [] ++ (mime ∷ [])) p.source_mimes;
}

unfoldable pub receive : PrimaryEnv → Offer → Text → PrimarySelection → PrimarySelection
unfolding tell
receive env offer mime p =
    if env.is_alive offer.source
    then record (tell (send_source offer.source mime) p) { pending_close = suc p.pending_close }
    else p

pub data Request : Type 0 where
  get_device : (device : ℕ) → Request
  new_source : (source : ℕ) → Request
  offer_type : (source : ℕ) (mime : Text) → Request
  select : (source : Option ℕ) → Request
  -- The `Destroy` request, and the end of a source with its client.
  source_gone : (source : ℕ) → Request
  paste : (offer : Offer) (mime : Text) → Request
  flush : Request

unfoldable pub request : PrimaryEnv → Request → PrimarySelection → PrimarySelection
request env (get_device device) p = add_device env device p
request env (new_source source) p = create_source source p
request env (offer_type source mime) p = add_mime source mime p
request env (select source) p = set_selection env source p
request env (source_gone source) p = forget_source env source p
request env (paste offer mime) p = receive env offer mime p
request env flush p = flush_done p
