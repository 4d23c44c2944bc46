-- ===== src/Wayland/Clipboard/Owner.antt =====
-- The source that owns the selection of src/wayland/clipboard.rs, and its cancellation.
use wayland_macos.Base.{
  ℕ, suc, ◌+◌, ◌≡◌, refl, ap, ◌∙◌, Bool, ◌&&◌, Option, none, some, List, [], ◌∷◌, arith,
  if◌then◌else◌, ◌==◌, holds, retain, Option-cases, Bool-cases, inl, inr,
}
use wayland_macos.Mac.{Text}
use wayland_macos.Wayland.Types.{Env, Event, cancelled, selection, data_offer, offer_mime, State}
use wayland_macos.Wayland.Core.{send, for_each}
use wayland_macos.Wayland.Input.{text_mimes, offer_mimes, advertise_to}
use wayland_macos.Wayland.Clipboard.{
  set_clipboard_of, release_source, set_mac_selection, pull_text, cancel_other, set_selection,
}

-- How often a source was told that it is replaced.
unfoldable pub cancellations : ℕ → List Event → ℕ
cancellations a [] = 0
cancellations a (cancelled b ∷ rest) =
    if b == a then suc (cancellations a rest) else cancellations a rest
cancellations a (_ ∷ rest) = cancellations a rest

-- What does not change the owner, nor cancel anything.
record Keeps (s t : State) : Type 0 where
  owner : t.clipboard.active_source ≡ s.clipboard.active_source
  told : (a : ℕ) → cancellations a t.sent ≡ cancellations a s.sent

Keeps-trans : {s t u : State} → Keeps s t → Keeps t u → Keeps s u
Keeps-trans h k = record { owner = k.owner ∙ h.owner; told = λ a. k.told a ∙ h.told a }

Keeps-self : (s : State) → Keeps s s
Keeps-self s = record { owner = refl; told = λ a. refl }

offer_mimes-Keeps : (o : ℕ) (ms : List Text) (s : State) → Keeps s (offer_mimes o ms s)
unfolding offer_mimes cancellations
offer_mimes-Keeps o [] s = Keeps-self s
offer_mimes-Keeps o (m ∷ ms) s =
    Keeps-trans {t = send (offer_mime o m) s} (record { owner = refl; told = λ a. refl })
      (offer_mimes-Keeps o ms (send (offer_mime o m) s))

introduce-Keeps :
    (d o : ℕ) (s : State)
    → Keeps s (send (selection d (some o)) (offer_mimes o text_mimes (send (data_offer d o) s)))
unfolding cancellations
introduce-Keeps d o s =
    let k = offer_mimes-Keeps o text_mimes (send (data_offer d o) s) in
    record { owner = k.owner; told = k.told }

nothing-Keeps : (d : ℕ) (s : State) → Keeps s (send (selection d none) s)
unfolding cancellations
nothing-Keeps d s = record { owner = refl; told = λ a. refl }

advertise_to-Keeps : (env : Env) (d : ℕ) (s : State) → Keeps s (advertise_to env d s)
unfolding advertise_to
advertise_to-Keeps env d s = elim (Bool-cases (env.is_alive d)) [
  | inr dead ↦ simp dead (Keeps-self s)
  | inl alive ↦ elim (Option-cases s.clipboard.mac_offer) [
    | inl e ↦ simp (alive, e) (nothing-Keeps d s)
    | inr (text, e) ↦ elim (Option-cases (env.client d)) [
      | inl f ↦ simp (alive, e, f) (Keeps-self s)
      | inr (client, f) ↦ elim (Option-cases (env.create_offer d)) [
        | inl g ↦ simp (alive, e, f, g) (Keeps-self s)
        | inr (o, g) ↦ simp (alive, e, f, g) (introduce-Keeps d o s)
      ]
    ]
  ]
]

for_each-Keeps : (env : Env) (ds : List ℕ) (s : State) → Keeps s (for_each (advertise_to env) ds s)
unfolding for_each
for_each-Keeps env [] s = Keeps-self s
for_each-Keeps env (d ∷ ds) s =
    Keeps-trans (advertise_to-Keeps env d s) (for_each-Keeps env ds (advertise_to env d s))

-- One cancellation more, if the owner is alive.
abbrev pub ended : Env → Option ℕ → ℕ → ℕ
ended env owner a = if holds owner a && env.is_alive a then 1 else 0

release_source-lem :
    (env : Env) (s : State) (a : ℕ)
    → ((release_source env s).clipboard.active_source ≡ none)
      × (cancellations a (release_source env s).sent
          ≡ ended env s.clipboard.active_source a + cancellations a s.sent)
unfolding release_source cancellations
release_source-lem env s a = elim (Option-cases s.clipboard.active_source) [
  | inl e ↦ ground arith
  | inr (src, e) ↦ elim (Bool-cases (env.is_alive src)) [
    | inl alive ↦ ground (arith, λ (x : src ≡ a). ap env.is_alive x)
    | inr dead ↦ ground (arith, λ (x : src ≡ a). ap env.is_alive x)
  ]
]

cancel_other-lem :
    (env : Env) (source : ℕ) (s : State) (a : ℕ)
    → cancellations a (cancel_other env source s).sent
      ≡ (if a == source then 0 else ended env s.clipboard.active_source a) + cancellations a s.sent
unfolding cancel_other cancellations
cancel_other-lem env source s a = elim (Option-cases s.clipboard.active_source) [
  | inl e ↦ ground arith
  | inr (src, e) ↦ elim (Bool-cases (env.is_alive src)) [
    | inl alive ↦ ground (arith, λ (x : src ≡ a). ap env.is_alive x)
    | inr dead ↦ ground (arith, λ (x : src ≡ a). ap env.is_alive x)
  ]
]

pull_text-told :
    (pipe : Bool) (source : ℕ) (s : State) (a : ℕ)
    → cancellations a (pull_text pipe source s).sent ≡ cancellations a s.sent
unfolding pull_text cancellations
pull_text-told pipe source s a = ground arith

mac_selection-lem :
    (env : Env) (text : Option Text) (s : State) (a : ℕ)
    → ((set_mac_selection env text s).clipboard.active_source ≡ none)
      × (cancellations a (set_mac_selection env text s).sent
          ≡ ended env s.clipboard.active_source a + cancellations a s.sent)
unfolding set_mac_selection
mac_selection-lem env text s a =
    let offering = set_clipboard_of (λ c. record c { mac_offer = text }) s in
    let released = release_source env offering in
    let live = retain env.is_alive released.clipboard.devices in
    let before = set_clipboard_of (λ c. record c { devices = live }) released in
    let k = for_each-Keeps env live before in
    let (gone, told) = release_source-lem env offering a in (k.owner ∙ gone, k.told a ∙ told)

set_selection-lem :
    (env : Env) (pipe : Bool) (source : ℕ) (s : State) (a : ℕ)
    → ((set_selection env pipe (some source) s).clipboard.active_source ≡ some source)
      × (cancellations a (set_selection env pipe (some source) s).sent
          ≡ (if a == source then 0 else ended env s.clipboard.active_source a)
            + cancellations a s.sent)
unfolding set_selection
set_selection-lem env pipe source s a =
    (refl, pull_text-told pipe source _ a ∙ cancel_other-lem env source s a)

-- When the pasteboard takes the selection over, or another source does, the source that owned it
-- is cancelled exactly once if it is alive, and no other source is cancelled; a source that is
-- selected again stays the owner and is not cancelled.
pub owner_replaced :
    (env : Env) (text : Option Text) (pipe : Bool) (source : ℕ) (s : State) (a : ℕ)
    → ((set_mac_selection env text s).clipboard.active_source ≡ none)
      × (cancellations a (set_mac_selection env text s).sent
          ≡ ended env s.clipboard.active_source a + cancellations a s.sent)
      × ((set_selection env pipe (some source) s).clipboard.active_source ≡ some source)
      × (cancellations a (set_selection env pipe (some source) s).sent
          ≡ (if a == source then 0 else ended env s.clipboard.active_source a)
            + cancellations a s.sent)
owner_replaced env text pipe source s a =
    let (mac_owner, mac_told) = mac_selection-lem env text s a in
    let (owner, told) = set_selection-lem env pipe source s a in (mac_owner, mac_told, owner, told)
