-- ===== src/Wayland/Clipboard.antt =====
-- src/wayland/clipboard.rs: the selection that is the macOS pasteboard, in both directions. The
-- threads that move the bytes are not modelled; what they move is (`serve_offer` writes the offer's
-- bytes, and the text that a source sends goes to AppKit).
pub mod Mimes
pub mod Owner
use wayland_macos.Base.{
  ℕ, suc, ◌+◌, Bool, true, false, not, ◌&&◌, Option, none, some, List, [], ◌∷◌, ◌++◌, if◌then◌else◌,
  ltb, leb, ◌==◌, holds, or_else, retain, codes,
}
use wayland_macos.Base.Map.{Map, lookup, insert, remove}
use wayland_macos.Mac.{Text}
use wayland_macos.Wayland.Types.{Env, Event, cancelled, send_source, Clipboard, State}
use wayland_macos.Wayland.Core.{send, for_each}
use wayland_macos.Wayland.Input.{text_mimes, advertise_to}

-- `eq_ignore_ascii_case` and `starts_with`.
abbrev pub fold_case : ℕ → ℕ
fold_case c = if leb 65 c && leb c 90 then c + 32 else c

unfoldable pub eq_ignore_ascii_case : Text → Text → Bool
eq_ignore_ascii_case [] [] = true
eq_ignore_ascii_case [] (d ∷ ds) = false
eq_ignore_ascii_case (c ∷ cs) [] = false
eq_ignore_ascii_case (c ∷ cs) (d ∷ ds) = (fold_case c == fold_case d) && eq_ignore_ascii_case cs ds

unfoldable pub starts_with : Text → Text → Bool
starts_with t [] = true
starts_with [] (d ∷ ds) = false
starts_with (c ∷ cs) (d ∷ ds) = (c == d) && starts_with cs ds

-- `iter().find`.
unfoldable pub find_text : (Text → Bool) → List Text → Option Text
find_text p [] = none
find_text p (t ∷ ts) = if p t then some t else find_text p ts

abbrev pub matches : Text → Text → Bool
matches pref o = eq_ignore_ascii_case o pref

abbrev pub is_text : Text → Bool
is_text o = starts_with o (codes "text/")

unfoldable pub pick_preferred : List Text → List Text → Option Text
unfolding find_text
pick_preferred [] offered = find_text is_text offered
pick_preferred (pref ∷ prefs) offered =
    let rest = pick_preferred prefs offered in
    elim (find_text (matches pref) offered) [ some m ↦ some m | none ↦ rest ]

unfoldable pub pick_text_mime : List Text → Option Text
unfolding pick_preferred
pick_text_mime offered = pick_preferred text_mimes offered

abbrev pub set_clipboard_of : (Clipboard → Clipboard) → State → State
set_clipboard_of f s = record s { clipboard = f s.clipboard }

unfoldable pub add_device : ℕ → State → State
add_device device s = set_clipboard_of (λ c. record c { devices = c.devices ++ (device ∷ []) }) s

-- The owner that is replaced is told so.
unfoldable pub release_source : Env → State → State
release_source env s = elim s.clipboard.active_source [
  | none ↦ s
  | some src ↦
      let left = set_clipboard_of (λ c. record c { active_source = none }) s in
      if env.is_alive src then send (cancelled src) left else left
]

unfoldable pub set_mac_selection : Env → Option Text → State → State
unfolding release_source retain
set_mac_selection env text s =
    let released = release_source env (set_clipboard_of (λ c. record c { mac_offer = text }) s) in
    let live = retain env.is_alive released.clipboard.devices in
    for_each (advertise_to env) live (set_clipboard_of (λ c. record c { devices = live }) released)

-- `source.send` of the best text type, where the source offers one and a pipe can be made.
unfoldable pub pull_text : Bool → ℕ → State → State
unfolding pick_text_mime
pull_text pipe source s =
    elim (pick_text_mime (or_else (lookup source s.clipboard.source_mimes) [])) [
      | none ↦ s
      | some mime ↦
          if pipe
          then set_clipboard_of (λ c. record c { pending_close = suc c.pending_close })
              (send (send_source source mime) s)
          else s
    ]

unfoldable pub cancel_other : Env → ℕ → State → State
cancel_other env source s = elim s.clipboard.active_source [
  | none ↦ s
  | some prev ↦ if env.is_alive prev && not (prev == source) then send (cancelled prev) s else s
]

unfoldable pub set_selection : Env → Bool → Option ℕ → State → State
unfolding cancel_other pull_text
set_selection env pipe none s = set_clipboard_of (λ c. record c { active_source = none }) s
set_selection env pipe (some source) s =
    set_clipboard_of (λ c. record c { active_source = some source })
      (pull_text pipe source
        (set_clipboard_of (λ c. record c { active_source = none }) (cancel_other env source s)))

unfoldable pub flush_done : State → State
flush_done s = set_clipboard_of (λ c. record c { pending_close = 0 }) s

unfoldable pub create_data_source : ℕ → State → State
create_data_source source s =
    set_clipboard_of (λ c. record c { source_mimes = insert source [] c.source_mimes }) s

unfoldable pub offer_type : ℕ → Text → State → State
offer_type source mime s =
    set_clipboard_of
      (λ c. record c {
        source_mimes =
            insert source (or_else (lookup source c.source_mimes) [] ++ (mime ∷ [])) c.source_mimes;
      })
      s

unfoldable pub destroy_source : ℕ → State → State
destroy_source source s =
    set_clipboard_of
      (λ c. record c {
        source_mimes = remove source c.source_mimes;
        active_source = if holds c.active_source source then none else c.active_source;
      })
      s
