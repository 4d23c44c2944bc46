-- ===== src/Wayland/Input/Focus.antt =====
-- What a focus event leaves behind, and what a second one like it does.
use wayland_macos.Base.{
  ℕ, ◌≡◌, refl, Bool, true, false, not, ◌&&◌, Option, none, some, List, [], ◌∷◌, if◌then◌else◌,
  ==_refl, holds, Bool-cases, Option-cases, inl, inr,
}
use wayland_macos.Base.Int.{pos}
use wayland_macos.Base.Map.{lookup, find_entry}
use wayland_macos.Mac.{Text}
use wayland_macos.Wayland.Types.{Env, Event, State}
use wayland_macos.Wayland.Core.{send, for_each}
use wayland_macos.Wayland.Input.{
  to_keyboards, offer_mimes, advertise_to, advertise_to_client, configure_window, focus_event,
  is_window, text_mimes,
}

-- The focused window stays.
data Stays (f : Option ℕ) (s : State) : Type 0 where
  stays : s.focus_window ≡ f → Stays f s

send-Stays : {f : Option ℕ} {e : Event} {s : State} → Stays f s → Stays f (send e s)
send-Stays (stays e) = stays e

for_each-Stays :
    {f : Option ℕ} {g : ℕ → State → State}
    → ((d : ℕ) (s : State) → Stays f s → Stays f (g d s))
    → (ds : List ℕ) {s : State} → Stays f s
    → Stays f (for_each g ds s)
unfolding for_each
for_each-Stays h [] q = q
for_each-Stays h (d ∷ ds) {s} q = for_each-Stays h ds (h d s q)

if-Stays :
    {f : Option ℕ} (c : Bool) {a b : State} → Stays f a → Stays f b → Stays f (if c then a else b)
if-Stays true h k = h
if-Stays false h k = k

option-Stays :
    {f : Option ℕ} {A : Type 0} (o : Option A) {n : State} {g : A → State}
    → Stays f n
    → ((a : A) → Stays f (g a))
    → Stays f (elim o [ none ↦ n | some a ↦ g a ])
option-Stays none h k = h
option-Stays (some a) h k = k a

to_keyboards-Stays :
    (e : ℕ → Event) (ks : List ℕ) {f : Option ℕ} {s : State}
    → Stays f s
    → Stays f (to_keyboards e ks s)
unfolding to_keyboards
to_keyboards-Stays e ks q = for_each-Stays (λ k s r. send-Stays r) ks q

offer_mimes-Stays :
    (offer : ℕ) (ms : List Text) {f : Option ℕ} {s : State}
    → Stays f s
    → Stays f (offer_mimes offer ms s)
unfolding offer_mimes
offer_mimes-Stays offer [] q = q
offer_mimes-Stays offer (m ∷ ms) q = offer_mimes-Stays offer ms (send-Stays q)

advertise_to-Stays :
    (env : Env) (d : ℕ) (s : State) {f : Option ℕ} → Stays f s → Stays f (advertise_to env d s)
unfolding advertise_to
advertise_to-Stays env d s q = if-Stays (not (env.is_alive d)) q (
    option-Stays s.clipboard.mac_offer (send-Stays q) (λ text.
      option-Stays (env.client d) q (λ client.
        option-Stays (env.create_offer d) q
          (λ offer. send-Stays (offer_mimes-Stays offer text_mimes (send-Stays q))))))

advertise_to_client-Stays :
    (env : Env) (client : ℕ) (s : State) {f : Option ℕ}
    → Stays f s
    → Stays f (advertise_to_client env client s)
unfolding advertise_to_client
advertise_to_client-Stays env client s q =
    for_each-Stays
      (λ d s r.
        if-Stays (env.is_alive d && holds (env.client d) client) (advertise_to-Stays env d s r) r)
      s.clipboard.devices q

configure_window-Stays :
    (w : ℕ) (active : Bool) (s : State) {f : Option ℕ}
    → Stays f s
    → Stays f (configure_window w (pos 0) (pos 0) active s)
unfolding configure_window
configure_window-Stays w active s (stays e) =
    option-Stays (find_entry (is_window w) s.toplevels) (stays e)
      (λ t. send-Stays (send-Stays (stays e)))

-- The focus after a focus event that changes it.
focus_event-Stays :
    (env : Env) (w surface : ℕ) (focused : Bool) (s : State)
    → lookup w s.window_surface ≡ some surface
    → (focused && holds s.focus_window w) ≡ false
    → (not focused && not (holds s.focus_window w)) ≡ false
    → Stays (if focused then some w else none) (focus_event env w focused s)
unfolding focus_event
focus_event-Stays env w surface focused s known fresh held =
    simp (focus_event, known, fresh, held)
      (let told =
          configure_window-Stays w focused _ {f = if focused then some w else none}
            (to_keyboards-Stays _ _ (stays refl)) in
        if-Stays focused
          (option-Stays (env.client surface) told
            (λ client. advertise_to_client-Stays env client _ told))
          told)

-- Nothing is sent where the window has the focus asked for already.
settled :
    (env : Env) (w : ℕ) (focused : Bool) (s : State)
    → Stays (if focused then some w else none) s
    → focus_event env w focused s ≡ s
unfolding focus_event
settled env w true s (stays e) = simp (focus_event, e, ==_refl w) refl
settled env w false s (stays e) = simp (focus_event, e) refl

-- A focus event that repeats the one right before it, for the same window and direction, changes
-- nothing and sends nothing. Between the two no other event is handled.
pub focus_twice :
    (env env' : Env) (w : ℕ) (focused : Bool) (s : State)
    → focus_event env' w focused (focus_event env w focused s) ≡ focus_event env w focused s
unfolding focus_event
focus_twice env env' w focused s = elim (Bool-cases (focused && holds s.focus_window w)) [
  | inl e ↦ simp (focus_event, e) refl
  | inr e ↦ elim (Bool-cases (not focused && not (holds s.focus_window w))) [
    | inl f ↦ simp (focus_event, e, f) refl
    | inr f ↦ elim (Option-cases (lookup w s.window_surface)) [
      | inl gone ↦ simp (focus_event, e, f, gone) refl
      | inr (surface, known) ↦
          settled env' w focused (focus_event env w focused s)
            (focus_event-Stays env w surface focused s known e f)
    ]
  ]
]
