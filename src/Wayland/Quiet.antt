-- ===== src/Wayland/Quiet.antt =====
-- What only talks to clients: the operations of src/wayland/mod.rs that leave the windows, their
-- owners and the commands to AppKit as they are.
use wayland_macos.Base.{
  ℕ, ◌≡◌, refl, Bool, true, false, Option, none, some, List, [], ◌∷◌, leb, if◌then◌else◌, not, ◌&&◌,
  holds,
}
use mathlib.Core.Path.{◌∙◌}
use wayland_macos.Base.Int.{ℤ, pos}
use wayland_macos.Base.Map.{lookup, find_entry}
use wayland_macos.Mac.{Text}
use wayland_macos.Wayland.Types.{Env, Event, State}
use wayland_macos.Wayland.Core.{
  send, for_each, frame_pointer, fire_presentation_feedback, vblank_tick, all_callbacks, keys,
}
use wayland_macos.Wayland.Input.{
  InputEvent, pointer_enter, pointer_motion, pointer_button, pointer_axis, pointer_leave, key,
  modifiers, focus, app_deactivated, resize, popup_dismiss, mac_clipboard, to_keyboards,
  to_pointers, leave_previous, ensure_pointer_focus, offer_mimes, advertise_to, advertise_to_client,
  configure_window, focus_event, to_focused, motion_event, button_event, axis_event, leave_event,
  process_input, is_window, is_nonzero, text_mimes,
}

-- The state without what is sent to clients, the focus, and the surfaces' own records.
abbrev pub core : State → State
core s = record s {
  next_serial = 0;
  client_app_ids = [];
  surfaces = [];
  positioners = [];
  pointers = [];
  keyboards = [];
  pointer_focus = none;
  focus_window = none;
  presentation_feedback = [];
  cursor_surface = none;
  cursor_hotspot = (pos 0, pos 0);
  sent = [];
}

pub data Quiet (s' s : State) : Type 0 where
  quiet : core s' ≡ core s → Quiet s' s

pub then-Quiet : {a b c : State} → Quiet b a → Quiet c b → Quiet c a
then-Quiet (quiet e) (quiet f) = quiet (f ∙ e)

-- Each lemma goes on from an operation before it.
pub send-Quiet : {e : Event} {s o : State} → Quiet s o → Quiet (send e s) o
send-Quiet (quiet e) = quiet e

pub for_each-Quiet :
    {f : ℕ → State → State} {o : State}
    → ((d : ℕ) (s : State) → Quiet s o → Quiet (f d s) o)
    → (ds : List ℕ) {s : State} → Quiet s o
    → Quiet (for_each f ds s) o
unfolding for_each
for_each-Quiet h [] q = q
for_each-Quiet h (d ∷ ds) {s} q = for_each-Quiet h ds (h d s q)

pub if-Quiet : (c : Bool) {a b s : State} → Quiet a s → Quiet b s → Quiet (if c then a else b) s
if-Quiet true h k = h
if-Quiet false h k = k

pub option-Quiet :
    {A : Type 0} (o : Option A) {n : State} {f : A → State} {s : State}
    → Quiet n s
    → ((a : A) → Quiet (f a) s)
    → Quiet (elim o [ none ↦ n | some a ↦ f a ]) s
option-Quiet none h k = h
option-Quiet (some a) h k = k a

frame_pointer-Quiet :
    (env : Env) (p : ℕ) {s o : State} → Quiet s o → Quiet (frame_pointer env p s) o
unfolding frame_pointer
frame_pointer-Quiet env p q = if-Quiet (leb 5 (env.version p)) (send-Quiet q) q

pub to_pointers-Quiet :
    (env : Env) (e : ℕ → Event) (ps : List ℕ) {s o : State}
    → Quiet s o
    → Quiet (to_pointers env e ps s) o
unfolding to_pointers
to_pointers-Quiet env e ps q =
    for_each-Quiet (λ p s r. frame_pointer-Quiet env p (send-Quiet r)) ps q

pub to_keyboards-Quiet :
    (e : ℕ → Event) (ks : List ℕ) {s o : State} → Quiet s o → Quiet (to_keyboards e ks s) o
unfolding to_keyboards
to_keyboards-Quiet e ks q = for_each-Quiet (λ k s r. send-Quiet r) ks q

-- A change of the fields that `core` leaves out.
unchanged : {s o : State} → Quiet s o → (s' : State) → core s' ≡ core s → Quiet s' o
unchanged q s' e = then-Quiet q (quiet e)

leave_previous-Quiet : (env : Env) (s : State) → Quiet (leave_previous env s) s
unfolding leave_previous
leave_previous-Quiet env s = option-Quiet s.pointer_focus (quiet refl) (λ w.
    option-Quiet (lookup w s.window_surface) (quiet refl)
      (λ surface. to_pointers-Quiet env _ _ (quiet refl)))

ensure_pointer_focus-Quiet :
    (env : Env) (w x y : ℕ) (s : State) → Quiet (ensure_pointer_focus env w x y s) s
unfolding ensure_pointer_focus
ensure_pointer_focus-Quiet env w x y s =
    option-Quiet (lookup w s.window_surface) (quiet refl) (λ surface.
      if-Quiet (holds s.pointer_focus w) (quiet refl)
        (to_pointers-Quiet env _ _ (unchanged (leave_previous-Quiet env s) _ refl)))

offer_mimes-Quiet :
    (offer : ℕ) (ms : List Text) {s o : State} → Quiet s o → Quiet (offer_mimes offer ms s) o
unfolding offer_mimes
offer_mimes-Quiet offer [] q = q
offer_mimes-Quiet offer (m ∷ ms) q = offer_mimes-Quiet offer ms (send-Quiet q)

pub advertise_to-Quiet :
    (env : Env) (d : ℕ) (s : State) {o : State} → Quiet s o → Quiet (advertise_to env d s) o
unfolding advertise_to
advertise_to-Quiet env d s q = if-Quiet (not (env.is_alive d)) q (
    option-Quiet s.clipboard.mac_offer (send-Quiet q) (λ text.
      option-Quiet (env.client d) q (λ client.
        option-Quiet (env.create_offer d) q
          (λ offer. send-Quiet (offer_mimes-Quiet offer text_mimes (send-Quiet q))))))

advertise_to_client-Quiet :
    (env : Env) (client : ℕ) {s o : State} → Quiet s o → Quiet (advertise_to_client env client s) o
unfolding advertise_to_client
advertise_to_client-Quiet env client {s} q =
    for_each-Quiet
      (λ d s r.
        if-Quiet (env.is_alive d && holds (env.client d) client) (advertise_to-Quiet env d s r) r)
      s.clipboard.devices q

configure_window-Quiet :
    (w : ℕ) (width height : ℤ) (active : Bool) (s : State) {o : State}
    → Quiet s o
    → Quiet (configure_window w width height active s) o
unfolding configure_window
configure_window-Quiet w width height active s q =
    option-Quiet (find_entry (is_window w) s.toplevels) q
      (λ t. send-Quiet (send-Quiet (unchanged q _ refl)))

focus_event-Quiet :
    (env : Env) (w : ℕ) (focused : Bool) (s : State) → Quiet (focus_event env w focused s) s
unfolding focus_event
focus_event-Quiet env w focused s = if-Quiet (focused && holds s.focus_window w) (quiet refl) (
    if-Quiet (not focused && not (holds s.focus_window w)) (quiet refl) (
      option-Quiet (lookup w s.window_surface) (quiet refl) (λ surface.
        let told =
          configure_window-Quiet w (pos 0) (pos 0) focused _ {o = s}
            (to_keyboards-Quiet _ _ (quiet refl)) in
        if-Quiet focused
          (option-Quiet (env.client surface) told
            (λ client. advertise_to_client-Quiet env client told))
          told)))

to_focused-Quiet : (env : Env) (e : ℕ → ℕ → Event) (s : State) → Quiet (to_focused env e s) s
unfolding to_focused
to_focused-Quiet env e s = option-Quiet s.focus_window (quiet refl) (λ w.
    option-Quiet (lookup w s.window_surface) (quiet refl)
      (λ surface. to_keyboards-Quiet _ _ (quiet refl)))

motion_event-Quiet : (env : Env) (w x y : ℕ) (s : State) → Quiet (motion_event env w x y s) s
unfolding motion_event
motion_event-Quiet env w x y s =
    option-Quiet (lookup w s.window_surface) (quiet refl)
      (λ surface. to_pointers-Quiet env _ _ (ensure_pointer_focus-Quiet env w x y s))

button_event-Quiet :
    (env : Env) (w button : ℕ) (pressed : Bool) (s : State)
    → Quiet (button_event env w button pressed s) s
unfolding button_event
button_event-Quiet env w button pressed s =
    option-Quiet (lookup w s.window_surface) (quiet refl) (λ surface.
      to_pointers-Quiet env _ _ (unchanged (ensure_pointer_focus-Quiet env w 0 0 s) _ refl))

axis_event-Quiet : (env : Env) (dx dy : ℕ) (s : State) → Quiet (axis_event env dx dy s) s
unfolding axis_event
axis_event-Quiet env dx dy s =
    for_each-Quiet
      (λ p s r.
        if-Quiet (env.is_alive p)
          (frame_pointer-Quiet env p (
            if-Quiet (is_nonzero dx) (send-Quiet (if-Quiet (is_nonzero dy) (send-Quiet r) r))
              (if-Quiet (is_nonzero dy) (send-Quiet r) r)))
          r)
      s.pointers (quiet refl)

leave_event-Quiet : (env : Env) (w : ℕ) (s : State) → Quiet (leave_event env w s) s
unfolding leave_event
leave_event-Quiet env w s = if-Quiet (not (holds s.pointer_focus w)) (quiet refl) (
    option-Quiet (lookup w s.window_surface) (quiet refl)
      (λ surface. to_pointers-Quiet env _ _ (quiet refl)))

fire_presentation_feedback-Quiet :
    (env : Env) (sid : ℕ) {s o : State} → Quiet s o → Quiet (fire_presentation_feedback env sid s) o
unfolding fire_presentation_feedback
fire_presentation_feedback-Quiet env sid q =
    for_each-Quiet (λ fb s r. send-Quiet r) _ (unchanged q _ refl)

pub vblank_tick-Quiet : (env : Env) (s : State) → Quiet (vblank_tick env s) s
unfolding vblank_tick
vblank_tick-Quiet env s =
    for_each-Quiet (λ sid s r. fire_presentation_feedback-Quiet env sid r)
      (keys s.presentation_feedback)
      (for_each-Quiet (λ cb s r. send-Quiet r) (all_callbacks s.surfaces) (quiet refl))

-- Whether an input event only talks to clients.
abbrev pub talks : InputEvent → Bool
talks (app_deactivated _) = false
talks (popup_dismiss _) = false
talks _ = true

pub process_input-Quiet :
    (env : Env) (e : InputEvent) (s : State) → talks e ≡ true → Quiet (process_input env e s) s
unfolding process_input
process_input-Quiet env (pointer_enter w x y) s h = ensure_pointer_focus-Quiet env w x y s
process_input-Quiet env (pointer_motion w x y) s h = motion_event-Quiet env w x y s
process_input-Quiet env (pointer_button w button pressed) s h =
    button_event-Quiet env w button pressed s
process_input-Quiet env (pointer_axis dx dy) s h = axis_event-Quiet env dx dy s
process_input-Quiet env (pointer_leave w) s h = leave_event-Quiet env w s
process_input-Quiet env (key keycode pressed) s h = to_focused-Quiet env _ s
process_input-Quiet env (modifiers depressed locked) s h = to_focused-Quiet env _ s
process_input-Quiet env (focus w focused) s h = focus_event-Quiet env w focused s
process_input-Quiet env (app_deactivated w) s h = cc
process_input-Quiet env (resize w width height) s h =
    configure_window-Quiet w _ _ true s (quiet refl)
process_input-Quiet env (popup_dismiss w) s h = cc
process_input-Quiet env (mac_clipboard _) s h = quiet refl

-- What keeps a predicate of the state.
module _ (P : State → Type 0) where
  -- A predicate of what is left alone holds on.
  pub keep-Quiet :
      {s o : State} → ((x y : State) → core x ≡ core y → P y → P x) → Quiet s o → P o → P s
  keep-Quiet {s} {o} stable (quiet e) h = stable s o e h

  pub keep_for_each :
      (f : ℕ → State → State)
      → ((d : ℕ) (s : State) → P s → P (f d s))
      → (ds : List ℕ) (s : State) → P s
      → P (for_each f ds s)
  unfolding for_each
  keep_for_each f h [] s p = p
  keep_for_each f h (d ∷ ds) s p = keep_for_each f h ds (f d s) (h d s p)
