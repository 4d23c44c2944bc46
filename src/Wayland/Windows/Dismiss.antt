-- ===== src/Wayland/Windows/Dismiss.antt =====
-- `dismiss_popup` of src/wayland/mod.rs is called from several paths for one click.
use wayland_macos.Base.{ℕ, ◌≡◌, none, some, arith, Option-cases, inl, inr}
use mathlib.Core.Path.{◌∙◌, ap}
use wayland_macos.Base.Map.{
  Map, lookup, modify, find_entry, IsMap, lookup-modify, modify-IsMap, find_entry-lookup,
}
use wayland_macos.Wayland.Types.{PopupRec, State}
use wayland_macos.Wayland.Windows.{dismissable, mark_dismissed, dismiss_popup}

-- Different popups have different windows.
abbrev pub IsDistinct : Map PopupRec → Type 0
IsDistinct popups =
    (i j : ℕ) (p q : PopupRec)
    → lookup i popups ≡ some p
    → lookup j popups ≡ some q
    → p.window_id ≡ q.window_id
    → i ≡ j

-- After the dismissal of a window's popup no popup of that window is left to dismiss.
none_left :
    (w : ℕ) (popups : Map PopupRec) (k : ℕ) (p : PopupRec)
    → IsMap popups
    → IsDistinct popups
    → find_entry (dismissable w) popups ≡ some (k, p)
    → find_entry (dismissable w) (modify k mark_dismissed popups) ≡ none
none_left w popups k p m distinct found =
    let (here, passes) = find_entry-lookup (dismissable w) popups {k = k} {v = p} m found in
    elim (Option-cases (find_entry (dismissable w) (modify k mark_dismissed popups))) [
      | inl gone ↦ gone
      | inr ((j, q), other) ↦
          let (there, passes_too) =
            find_entry-lookup (dismissable w) (modify k mark_dismissed popups) {k = j} {v = q}
              (modify-IsMap k mark_dismissed popups m) other in
          ground (arith, lookup-modify j k mark_dismissed popups, distinct j k q p)
    ]

-- The popups and the events after a dismissal that finds nothing, and one that finds a popup.
dismiss-none :
    (w : ℕ) (s : State)
    → find_entry (dismissable w) s.popups ≡ none
    → ((dismiss_popup w s).sent ≡ s.sent) × ((dismiss_popup w s).popups ≡ s.popups)
unfolding dismiss_popup
dismiss-none w s gone = (ground arith, ground arith)

dismiss-popups :
    (w : ℕ) (s : State) (k : ℕ) (p : PopupRec)
    → find_entry (dismissable w) s.popups ≡ some (k, p)
    → (dismiss_popup w s).popups ≡ modify k mark_dismissed s.popups
unfolding dismiss_popup
dismiss-popups w s k p found = ground arith

-- Where different popups have different windows, a popup is told `popup_done` once: a second
-- dismissal of the same window sends nothing to any client and marks nothing.
pub dismiss_once :
    (w : ℕ) (s : State)
    → IsMap s.popups
    → IsDistinct s.popups
    → ((dismiss_popup w (dismiss_popup w s)).sent ≡ (dismiss_popup w s).sent)
      × ((dismiss_popup w (dismiss_popup w s)).popups ≡ (dismiss_popup w s).popups)
dismiss_once w s m distinct = elim (Option-cases (find_entry (dismissable w) s.popups)) [
  | inl gone ↦
      dismiss-none w (dismiss_popup w s)
        (ap (find_entry (dismissable w)) (dismiss-none w s gone).1 ∙ gone)
  | inr ((k, p), found) ↦ dismiss-none w (dismiss_popup w s) (
      ap (find_entry (dismissable w)) (dismiss-popups w s k p found)
      ∙ none_left w s.popups k p m distinct found)
]
