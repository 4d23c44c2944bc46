-- ===== src/Wayland/Tests/Selection.antt =====
-- Runs of src/wayland/primary_selection.rs and src/wayland/clipboard.rs.
use wayland_macos.Base.{
  ℕ, suc, ◌+◌, ◌≤◌, ◌≡◌, refl, true, none, some, List, [], ◌∷◌, if◌then◌else◌, ◌==◌, codes, length,
  contains,
}
use wayland_macos.Wayland.Primary.{
  PrimaryEnv, PrimarySelection, Request, new_source, offer_type, select, source_gone, offered,
  set_selection, forget_source,
}
use wayland_macos.Wayland.Primary.Owner.{owner, serve, serve-owner}
use wayland_macos.Wayland.Primary.Told.{told, CanOffer, set_selection-told, forget_source-told}
use wayland_macos.Wayland.Types.{State}
use wayland_macos.Wayland.Input.{text_mimes}
use wayland_macos.Wayland.Clipboard.{set_mac_selection, pick_text_mime}
use wayland_macos.Wayland.Clipboard
use wayland_macos.Wayland.Clipboard.Mimes.{IsOffered, rank, NoneBefore, pick_text_mime_best}
use wayland_macos.Wayland.Clipboard.Owner.{cancellations, ended, owner_replaced}
use wayland_macos.Wayland.Tests.{env, empty}

-- Every object is alive.
abbrev all_alive : PrimaryEnv
all_alive = record { is_alive = λ o. true; has_client = λ d. true; create_offer = λ d. some 90 }

abbrev no_selection : PrimarySelection
no_selection = record {
  devices = 1 ∷ 2 ∷ [];
  source_mimes = [];
  active_source = none;
  pending_close = 0;
  events = [];
}

abbrev requests : List (PrimaryEnv × Request)
requests =
    (all_alive, new_source 7)
    ∷ (all_alive, offer_type 7 (codes "text/plain"))
    ∷ (all_alive, select (some 7))
    ∷ (all_alive, source_gone 8)
    ∷ []

serve-owner_example : (serve requests no_selection).active_source ≡ owner requests none
serve-owner_example = serve-owner requests no_selection

all_alive-CanOffer : CanOffer all_alive
all_alive-CanOffer = record { clients = λ d a. refl; offers = λ d a. refl }

set_selection-told_example :
    told (set_selection all_alive (some 7) no_selection).events 2
    ≡ some (offered all_alive (record no_selection { active_source = some 7 }))
unfolding contains
set_selection-told_example =
    set_selection-told all_alive (some 7) no_selection 2 all_alive-CanOffer refl refl

abbrev owned : PrimarySelection
owned = record no_selection { active_source = some 7 }

owner_gone :
    (told (forget_source all_alive 7 owned).events 1 ≡ some none)
    × (forget_source all_alive 7 (forget_source all_alive 7 owned)
        ≡ forget_source all_alive 7 owned)
unfolding contains
owner_gone = forget_source-told all_alive 7 owned 1 refl refl refl

pick_text_mime_best_example :
    ((m : List ℕ)
      → pick_text_mime (codes "text/html" ∷ codes "Text/Plain" ∷ []) ≡ some m
      → IsOffered m (codes "text/html" ∷ codes "Text/Plain" ∷ [])
        × (rank text_mimes m ≤ length text_mimes)
        × NoneBefore (rank text_mimes m) text_mimes (codes "text/html" ∷ codes "Text/Plain" ∷ []))
    × (pick_text_mime (codes "text/html" ∷ codes "Text/Plain" ∷ []) ≡ none
        → NoneBefore
            (suc (length text_mimes))
            text_mimes
            (codes "text/html" ∷ codes "Text/Plain" ∷ []))
pick_text_mime_best_example = pick_text_mime_best (codes "text/html" ∷ codes "Text/Plain" ∷ [])

abbrev copied : State
copied = record empty {
  clipboard = record empty.clipboard {
    source_mimes = (4, codes "text/plain" ∷ []) ∷ [];
    active_source = some 3;
  };
}

owner_replaced_example :
    ((set_mac_selection env none copied).clipboard.active_source ≡ none)
    × (cancellations 3 (set_mac_selection env none copied).sent ≡ ended env (some 3) 3 + 0)
    × ((Clipboard.set_selection env true (some 4) copied).clipboard.active_source ≡ some 4)
    × (cancellations 3 (Clipboard.set_selection env true (some 4) copied).sent
        ≡ (if 3 == 4 then 0 else ended env (some 3) 3) + 0)
unfolding cancellations
owner_replaced_example = owner_replaced env none true 4 copied 3
