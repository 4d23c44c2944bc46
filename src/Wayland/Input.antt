-- ===== src/Wayland/Input.antt =====
-- src/wayland/mod.rs and src/wayland/clipboard.rs: pointer and keyboard focus, and what an input
-- event from AppKit makes the compositor send.
pub mod Focus
use wayland_macos.Base.{
  ℕ, ◌≡◌, Bool, true, false, not, ◌&&◌, ◌||◌, Option, none, some, List, [], ◌∷◌, ◌++◌, map,
  if◌then◌else◌, ◌==◌, holds, codes,
}
use wayland_macos.Base.Int.{ℤ, pos, max_ℤ}
use wayland_macos.Base.Map.{Map, lookup, modify, find_entry, any_entry}
use wayland_macos.Mac.{Text}
use wayland_macos.Wayland.Types.{
  Env, ToplevelState, maximized, fullscreen, activated, Event, toplevel_configure,
  xdg_surface_configure, keyboard_enter, keyboard_leave, keyboard_key, keyboard_modifiers,
  data_offer, offer_mime, selection, ToplevelRec, PopupRec, Clipboard, State,
}
use wayland_macos.Wayland.Core.{send, next, same_client, devices_for, for_each, frame_pointer}
use wayland_macos.Wayland.Windows.{dismiss_popup}

-- `InputEvent` of src/input.rs. A coordinate is the 64-bit pattern of an `f64`.
pub data InputEvent : Type 0 where
  pointer_enter : (window_id x y : ℕ) → InputEvent
  pointer_motion : (window_id x y : ℕ) → InputEvent
  pointer_button : (window_id button : ℕ) (pressed : Bool) → InputEvent
  pointer_axis : (dx dy : ℕ) → InputEvent
  pointer_leave : (window_id : ℕ) → InputEvent
  key : (keycode : ℕ) (pressed : Bool) → InputEvent
  modifiers : (depressed locked : ℕ) → InputEvent
  focus : (window_id : ℕ) (focused : Bool) → InputEvent
  app_deactivated : (window_id : ℕ) → InputEvent
  resize : (window_id : ℕ) (width height : ℤ) → InputEvent
  popup_dismiss : (window_id : ℕ) → InputEvent
  mac_clipboard : (text : Option Text) → InputEvent

-- An event to each device of a list, and the end of its frame to a pointer.
unfoldable pub to_keyboards : (ℕ → Event) → List ℕ → State → State
to_keyboards e ks s = for_each (λ k. send (e k)) ks s

unfoldable pub to_pointers : Env → (ℕ → Event) → List ℕ → State → State
to_pointers env e ps s = for_each (λ p s. frame_pointer env p (send (e p) s)) ps s

-- The leave that the surface of the previous focus gets.
unfoldable pub leave_previous : Env → State → State
unfolding devices_for
leave_previous env s = elim s.pointer_focus [
  | none ↦ s
  | some prev ↦
      let released = record s { pointer_focus = none } in
      elim (lookup prev s.window_surface) [
        | none ↦ released
        | some surface ↦
            to_pointers env (λ p. Event.pointer_leave p s.next_serial surface)
              (devices_for env s.pointers surface) (next released)
      ]
]

abbrev pub enter_surface : Env → ℕ → ℕ → ℕ → ℕ → State → State
enter_surface env window_id surface x y s =
    to_pointers env (λ p. Event.pointer_enter p s.next_serial surface x y)
      (devices_for env s.pointers surface) (next (record s { pointer_focus = some window_id }))

-- The state after it; its result is the surface of the window, which stays.
unfoldable pub ensure_pointer_focus : Env → ℕ → ℕ → ℕ → State → State
unfolding devices_for
ensure_pointer_focus env window_id x y s = elim (lookup window_id s.window_surface) [
  | none ↦ s
  | some surface ↦
      if holds s.pointer_focus window_id
      then s
      else enter_surface env window_id surface x y (leave_previous env s)
]

abbrev pub text_mimes : List Text
text_mimes =
    codes "text/plain;charset=utf-8"
    ∷ codes "text/plain"
    ∷ codes "UTF8_STRING"
    ∷ codes "STRING"
    ∷ codes "TEXT"
    ∷ []

unfoldable pub offer_mimes : ℕ → List Text → State → State
offer_mimes offer [] s = s
offer_mimes offer (m ∷ ms) s = offer_mimes offer ms (send (offer_mime offer m) s)

unfoldable pub advertise_to : Env → ℕ → State → State
advertise_to env device s = if not (env.is_alive device) then s else elim s.clipboard.mac_offer [
  | none ↦ send (selection device none) s
  | some text ↦ elim (env.client device) [
    | none ↦ s
    | some client ↦ elim (env.create_offer device) [
      | none ↦ s
      | some offer ↦
          send (selection device (some offer))
            (offer_mimes offer text_mimes (send (data_offer device offer) s))
    ]
  ]
]

unfoldable pub advertise_to_client : Env → ℕ → State → State
advertise_to_client env client s =
    for_each
      (λ device s.
        if env.is_alive device && holds (env.client device) client
        then advertise_to env device s
        else s)
      s.clipboard.devices s

-- The states of a toplevel, which is active or not.
abbrev pub states_of : Bool → ToplevelRec → List ToplevelState
states_of active t =
    (if active then activated ∷ [] else [])
    ++ ((if t.maximized then maximized ∷ [] else [])
        ++ (if t.fullscreen then fullscreen ∷ [] else []))

abbrev pub is_window : ℕ → ToplevelRec → Bool
is_window window_id t = t.window_id == window_id

-- A configure of the toplevel with that window, if there is one.
unfoldable pub configure_window : ℕ → ℤ → ℤ → Bool → State → State
configure_window window_id width height active s =
    elim (find_entry (is_window window_id) s.toplevels) [
      | none ↦ s
      | some (_, t) ↦
          send (xdg_surface_configure t.xdg_surface s.next_serial)
            (send (toplevel_configure t.toplevel width height (states_of active t)) (next s))
    ]

unfoldable pub focus_event : Env → ℕ → Bool → State → State
unfolding devices_for
focus_event env window_id focused s =
    if focused && holds s.focus_window window_id
    then s
    else if not focused && not (holds s.focus_window window_id)
    then s
    else elim (lookup window_id s.window_surface) [
      | none ↦ s
      | some surface ↦
          let told =
            to_keyboards
              (λ k.
                if focused
                then Event.keyboard_enter k s.next_serial surface
                else Event.keyboard_leave k s.next_serial surface)
              (devices_for env s.keyboards surface)
              (next (record s { focus_window = if focused then some window_id else none })) in
          let active = configure_window window_id (pos 0) (pos 0) focused told in
          if focused
          then elim (env.client surface) [
            | none ↦ active
            | some client ↦ advertise_to_client env client active
          ]
          else active
    ]

-- An event to the keyboards of the focused window's surface, with the serial.
unfoldable pub to_focused : Env → (ℕ → ℕ → Event) → State → State
unfolding devices_for
to_focused env e s = elim s.focus_window [
  | none ↦ s
  | some w ↦ elim (lookup w s.window_surface) [
    | none ↦ s
    | some surface ↦
        to_keyboards (λ k. e k s.next_serial) (devices_for env s.keyboards surface) (next s)
  ]
]

unfoldable pub motion_event : Env → ℕ → ℕ → ℕ → State → State
unfolding devices_for
motion_event env window_id x y s = elim (lookup window_id s.window_surface) [
  | none ↦ s
  | some surface ↦
      to_pointers env (λ p. Event.pointer_motion p env.time x y)
        (devices_for env s.pointers surface) (ensure_pointer_focus env window_id x y s)
]

unfoldable pub button_event : Env → ℕ → ℕ → Bool → State → State
unfolding devices_for
button_event env window_id button pressed s = elim (lookup window_id s.window_surface) [
  | none ↦ s
  | some surface ↦
      let focused = ensure_pointer_focus env window_id 0 0 s in
      to_pointers env (λ p. Event.pointer_button p focused.next_serial env.time button pressed)
        (devices_for env s.pointers surface) (next focused)
]

-- `v != 0.0`: both zeros are 0.
abbrev pub is_nonzero : ℕ → Bool
is_nonzero v = not (v == 0) && not (v == 9223372036854775808)

abbrev pub axis_at : ℕ → ℕ → Bool → ℕ → State → State
axis_at p v vertical time s =
    if is_nonzero v then send (Event.pointer_axis p time vertical v) s else s

unfoldable pub axis_event : Env → ℕ → ℕ → State → State
axis_event env dx dy s =
    for_each
      (λ p s.
        if env.is_alive p
        then frame_pointer env p (axis_at p dx false env.time (axis_at p dy true env.time s))
        else s)
      s.pointers s

unfoldable pub leave_event : Env → ℕ → State → State
unfolding devices_for
leave_event env window_id s =
    if not (holds s.pointer_focus window_id) then s else elim (lookup window_id s.window_surface) [
      | none ↦ s
      | some surface ↦
          to_pointers env (λ p. Event.pointer_leave p s.next_serial surface)
            (devices_for env s.pointers surface) (next (record s { pointer_focus = none }))
    ]

unfoldable pub deactivate : State → State
unfolding dismiss_popup any_entry
deactivate s = elim s.focus_window [
  | none ↦ s
  | some fw ↦
      if any_entry (λ _ (p : PopupRec). p.window_id == fw) s.popups then dismiss_popup fw s else s
]

unfoldable pub process_input : Env → InputEvent → State → State
process_input env (InputEvent.pointer_enter window_id x y) s =
    ensure_pointer_focus env window_id x y s
process_input env (InputEvent.pointer_motion window_id x y) s = motion_event env window_id x y s
process_input env (InputEvent.pointer_button window_id button pressed) s =
    button_event env window_id button pressed s
process_input env (InputEvent.pointer_axis dx dy) s = axis_event env dx dy s
process_input env (InputEvent.pointer_leave window_id) s = leave_event env window_id s
process_input env (key keycode pressed) s =
    to_focused env (λ k serial. keyboard_key k serial env.time keycode pressed) s
process_input env (modifiers depressed locked) s =
    to_focused env (λ k serial. keyboard_modifiers k serial depressed 0 locked 0) s
process_input env (focus window_id focused) s = focus_event env window_id focused s
process_input env (app_deactivated _) s = deactivate s
process_input env (resize window_id width height) s =
    configure_window window_id (max_ℤ width (pos 1)) (max_ℤ height (pos 1)) true s
process_input env (popup_dismiss window_id) s = dismiss_popup window_id s
process_input env (mac_clipboard _) s = s
