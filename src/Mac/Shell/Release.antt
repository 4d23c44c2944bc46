-- ===== src/Mac/Shell/Release.antt =====
-- The releases of mouse buttons in src/mac.rs.
use wayland_macos.Base.{
  ℕ, ◌≡◌, refl, ap, ◌∙◌, Bool, true, false, Option, none, some, List, [], ◌∷◌, arith, Bool-cases,
  Option-cases, inl, inr,
}
use wayland_macos.Wayland.Input.{InputEvent, pointer_motion, pointer_button}
use wayland_macos.Mac.Constrain.{Desk}
use wayland_macos.Mac.Shell.{
  Shell, push, restore_focus_under_cursor, set_grab, grabbed, Mouse, global_in_window, dragged,
  release_implicit, release_into, handle_release, handle_press, set_window_frame, fill_on, fill_off,
  set_window_fill, forget_window, destroy_window,
}

-- What may happen between a press and its release.
pub data Between : Type 0 where
  grabs : (window : Option ℕ) → Between
  fills : (desk : Desk) (id : ℕ) (on full : Bool) → Between
  destroys : (id : ℕ) → Between

unfoldable pub apply_between : Between → Shell → Shell
apply_between (grabs window) s = set_grab window s
apply_between (fills desk id on full) s = set_window_fill desk id on full s
apply_between (destroys id) s = destroy_window id s

unfoldable pub apply_all : List Between → Shell → Shell
apply_all [] s = s
apply_all (b ∷ rest) s = apply_all rest (apply_between b s)

fill-kept :
    (desk : Desk) (id : ℕ) (on full : Bool) (s : Shell)
    → ((set_window_fill desk id on full s).implicit_grab ≡ s.implicit_grab)
      × ((set_window_fill desk id on full s).events ≡ s.events)
unfolding set_window_fill fill_on fill_off set_window_frame
fill-kept desk id on full s = ground arith

between-kept :
    (b : Between) (s : Shell)
    → ((apply_between b s).implicit_grab ≡ s.implicit_grab)
      × ((apply_between b s).events ≡ s.events)
unfolding apply_between set_grab restore_focus_under_cursor destroy_window forget_window
between-kept (grabs window) s = ground arith
between-kept (fills desk id on full) s = fill-kept desk id on full s
between-kept (destroys id) s = ground arith

all-kept :
    (bs : List Between) (s : Shell)
    → ((apply_all bs s).implicit_grab ≡ s.implicit_grab) × ((apply_all bs s).events ≡ s.events)
unfolding apply_all
all-kept [] s = (refl, refl)
all-kept (b ∷ rest) s =
    let (g, e) = all-kept rest (apply_between b s) in
    let (g1, e1) = between-kept b s in (g ∙ g1, e ∙ e1)

-- The buttons among the events.
unfoldable pub buttons : List InputEvent → List InputEvent
buttons [] = []
buttons (pointer_button w b p ∷ rest) = pointer_button w b p ∷ buttons rest
buttons (_ ∷ rest) = buttons rest

implicit-lem :
    (button w : ℕ) (s : Shell)
    → s.implicit_grab ≡ some w
    → ((release_implicit button s).implicit_grab ≡ none)
      × (buttons (release_implicit button s).events
          ≡ pointer_button w button false ∷ buttons s.events)
unfolding release_implicit push buttons
implicit-lem button w s e = ground arith

grabbed-kept :
    (s : Shell)
    → ((grabbed s).0.implicit_grab ≡ s.implicit_grab) × ((grabbed s).0.events ≡ s.events)
unfolding grabbed
grabbed-kept s = ground arith

-- A release ends the press: it is sent once, to one window.
record IsReleased (button : ℕ) (before : List InputEvent) (t : Shell) : Type 0 where
  target : ℕ
  ended : t.implicit_grab ≡ none
  sent : buttons t.events ≡ pointer_button target button false ∷ buttons before

implicit-IsReleased :
    (button w : ℕ) (before : List InputEvent) (s : Shell)
    → s.implicit_grab ≡ some w
    → s.events ≡ before
    → IsReleased button before (release_implicit button s)
implicit-IsReleased button w before s e same =
    let (ended, sent) = implicit-lem button w s e in
    record {
      target = w;
      ended = ended;
      sent = sent ∙ ap (λ l. pointer_button w button false ∷ buttons l) same;
    }

popup-sent :
    (g button x y : ℕ) (l : List InputEvent)
    → buttons (pointer_button g button false ∷ pointer_motion g x y ∷ l)
      ≡ pointer_button g button false ∷ buttons l
unfolding buttons
popup-sent g button x y l = refl

into-IsReleased :
    (m : Mouse) (g button w : ℕ) (before : List InputEvent) (s : Shell)
    → s.implicit_grab ≡ some w
    → s.events ≡ before
    → IsReleased button before (release_into m g button s)
unfolding push release_into
into-IsReleased m g button w before s e same = elim (Option-cases (global_in_window m g s)) [
  | inl gone ↦ simp (release_into, gone) (implicit-IsReleased button w before s e same)
  | inr ((x, y, inside), it) ↦ elim (Bool-cases inside) [
    | inl yes_in ↦
        simp (release_into, it, yes_in)
          (record {
            target = g;
            ended = refl;
            sent =
                popup-sent g button x y s.events
                ∙ ap (λ l. pointer_button g button false ∷ buttons l) same;
          })
    | inr out ↦ simp (release_into, it, out) (implicit-IsReleased button w before s e same)
  ]
]

release-IsReleased :
    (m : Mouse) (button w : ℕ) (s : Shell)
    → s.implicit_grab ≡ some w
    → IsReleased button s.events (handle_release m button s)
unfolding handle_release
release-IsReleased m button w s e = elim (Bool-cases (dragged m s)) [
  | inr still ↦
      simp still
        (implicit-IsReleased button w s.events (record s { implicit_grab_origin = none }) e refl)
  | inl far ↦
      let left = record s { implicit_grab_origin = none } in
      let (kept, same) = grabbed-kept left in
      elim (Option-cases (grabbed left).1) [
        | inl free ↦
            simp (far, free)
              (implicit-IsReleased button w s.events (grabbed left).0 (kept ∙ e) same)
        | inr (g, it) ↦
            simp (far, it) (into-IsReleased m g button w s.events (grabbed left).0 (kept ∙ e) same)
      ]
]

-- A press that gave the mouse to a window, then any grabs, fills and closing windows, then the
-- release: exactly one release is sent, to one window, and the mouse is free again.
pub press_release_once :
    (m m2 : Mouse) (window_id button w : ℕ) (bs : List Between) (s : Shell)
    → (handle_press m window_id button s).implicit_grab ≡ some w
    → (target : ℕ) × ((handle_release m2 button
          (apply_all bs (handle_press m window_id button s))).implicit_grab
        ≡ none)
      × (buttons
            (handle_release m2 button (apply_all bs (handle_press m window_id button s))).events
          ≡ pointer_button target button false ∷ buttons (handle_press m window_id button s).events)
press_release_once m m2 window_id button w bs s e =
    let pressed = handle_press m window_id button s in
    let (kept, same) = all-kept bs pressed in
    let r = release-IsReleased m2 button w (apply_all bs pressed) (kept ∙ e) in
    (r.target, r.ended, r.sent ∙ ap (λ l. pointer_button r.target button false ∷ buttons l) same)

free_press :
    (m : Mouse) (w a : ℕ) (s : Shell)
    → s.grab ≡ none
    → ((handle_press m w a s).grab ≡ none)
      × ((handle_press m w a s).implicit_grab ≡ some w)
      × (buttons (handle_press m w a s).events ≡ pointer_button w a true ∷ buttons s.events)
unfolding handle_press grabbed push buttons
free_press m w a s e = ground arith

undragged : (m : Mouse) (s : Shell) → ((p : ℕ × ℕ) → m.travelled p ≡ false) → dragged m s ≡ false
undragged m s still = elim (Option-cases s.implicit_grab_origin) [
  | inl e ↦ ground arith
  | inr (p, e) ↦ ground (arith, still p)
]

still_release :
    (m : Mouse) (a : ℕ) (s : Shell)
    → ((p : ℕ × ℕ) → m.travelled p ≡ false)
    → handle_release m a s ≡ release_implicit a (record s { implicit_grab_origin = none })
unfolding handle_release
still_release m a s still = let h = undragged m s still in simp (handle_release, h) refl

no_implicit :
    (a : ℕ) (s : Shell)
    → s.implicit_grab ≡ none
    → buttons (release_implicit a s).events ≡ buttons s.events
unfolding release_implicit
no_implicit a s e = ground arith

-- Two buttons held at once, and then both released without moving, while no popup grabs: two
-- presses are sent but only one release, so the client takes the second button as held from then on.
pub second_release_lost :
    (m : Mouse) (w a b : ℕ) (s : Shell)
    → s.grab ≡ none
    → ((p : ℕ × ℕ) → m.travelled p ≡ false)
    → buttons
        (handle_release m b (handle_release m a (handle_press m w b (handle_press m w a s)))).events
      ≡ pointer_button w a false
        ∷ pointer_button w b true
        ∷ pointer_button w a true
        ∷ buttons s.events
second_release_lost m w a b s free still =
    let one = handle_press m w a s in
    let two = handle_press m w b one in
    let first = free_press m w a s free in
    let second = free_press m w b one first.0 in
    let gone = implicit-lem a w (record two { implicit_grab_origin = none }) second.1 in
    let released = handle_release m a two in
    let same = still_release m a two still in
    ap (λ t. buttons t.events) (still_release m b released still)
    ∙ no_implicit b (record released { implicit_grab_origin = none })
        (ap (λ t. t.implicit_grab) same ∙ gone.0)
    ∙ ap (λ t. buttons t.events) same
    ∙ gone.1
    ∙ ap (λ l. pointer_button w a false ∷ l)
        (second.2 ∙ ap (λ l. pointer_button w b true ∷ l) first.2)
