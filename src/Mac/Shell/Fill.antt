-- ===== src/Mac/Shell/Fill.antt =====
-- Maximized and fullscreen windows in src/mac.rs.
use wayland_macos.Base.{
  ℕ, ◌≡◌, refl, ap, ◌∙◌, Bool, true, false, not, none, some, List, [], ◌∷◌, arith, if◌then◌else◌,
  ◌==◌, contains, contains-retain, Option-cases, inl, inr,
}
use wayland_macos.Base.Map.{Map, lookup, remove, lookup-insert, lookup-remove, lookup-modify}
use wayland_macos.Mac.Placement.{Frame}
use wayland_macos.Mac.Constrain.{Desk, work_area, granted}
use wayland_macos.Mac.Shell.{
  Shell, keep_first, set_frame, exempt, set_window_frame, fill_on, fill_off, set_window_fill,
  take_out, put_in,
}

unfoldable pub fill_all : ℕ → List (Desk × Bool) → Shell → Shell
fill_all id [] s = s
fill_all id ((d, full) ∷ rest) s = fill_all id rest (set_window_fill d id true full s)

-- A filled window is open, and keeps a frame; it is a docked bar or not as before.
record IsFilled (id : ℕ) (f : Frame) (bar : Bool) (s : Shell) : Type 0 where
  frame : Frame
  open_now : lookup id s.windows ≡ some frame
  saved : lookup id s.saved_frames ≡ some f
  kind : contains s.layer_windows id ≡ bar

keep-lookup :
    (id : ℕ) (f : Frame) (m : Map Frame)
    → lookup id (keep_first id f m) ≡ elim (lookup id m) [ some g ↦ some g | none ↦ some f ]
keep-lookup id f m = elim (Option-cases (lookup id m)) [
  | inl e ↦ ground (arith, lookup-insert id id f m)
  | inr (g, e) ↦ ground arith
]

set-lookup :
    (d : Desk) (id : ℕ) (f g : Frame) (s : Shell)
    → lookup id s.windows ≡ some g
    → lookup id (set_window_frame d id f s).windows ≡ some (granted d (exempt id s) f)
unfolding set_window_frame
set-lookup d id f g s e =
    ground (arith, e, lookup-modify id id (set_frame (granted d (exempt id s) f)) s.windows)

-- The frame that is kept after a fill.
fill_on-IsFilled :
    (d : Desk) (id : ℕ) (full : Bool) (f g : Frame) (s : Shell)
    → lookup id s.windows ≡ some g
    → elim (lookup id s.saved_frames) [ some h ↦ some h | none ↦ some g ] ≡ some f
    → IsFilled id f (contains s.layer_windows id) (fill_on d id full g s)
unfolding fill_on set_window_frame
fill_on-IsFilled d id full f g s e o =
    let kept : lookup id (keep_first id g s.saved_frames) ≡ some f =
      keep-lookup id g s.saved_frames ∙ o in
    elim (Option-cases d.screen) [
      | inl away ↦
          simp (fill_on, away) (record { frame = g; open_now = e; saved = kept; kind = refl })
      | inr (r, on) ↦
          let noted : Shell = record s {
            saved_frames = keep_first id g s.saved_frames;
            fullscreen = if full then put_in id s.fullscreen else take_out id s.fullscreen;
          } in
          let target : Frame = if full then r.frame else work_area d r.visible in
          simp (fill_on, on)
            (record {
              frame = granted d (exempt id noted) target;
              open_now = set-lookup d id target g noted e;
              saved = kept;
              kind = refl;
            })
    ]

-- The first fill of a window keeps the frame that it has.
first-IsFilled :
    (d : Desk) (id : ℕ) (full : Bool) (f : Frame) (s : Shell)
    → lookup id s.windows ≡ some f
    → lookup id s.saved_frames ≡ none
    → IsFilled id f (contains s.layer_windows id) (set_window_fill d id true full s)
unfolding set_window_fill
first-IsFilled d id full f s e fresh =
    simp (set_window_fill, e) (fill_on-IsFilled d id full f f s e (ground (arith, fresh)))

set-IsFilled :
    (d : Desk) (id : ℕ) (full : Bool) (f : Frame) (bar : Bool) (s : Shell)
    → IsFilled id f bar s
    → IsFilled id f bar (set_window_fill d id true full s)
unfolding set_window_fill
set-IsFilled d id full f bar s k =
    let e = k.open_now in
    let kept : elim (lookup id s.saved_frames) [ some h ↦ some h | none ↦ some k.frame ] ≡ some f =
      ground (arith, k.saved) in
    let filled = fill_on-IsFilled d id full f k.frame s e kept in
    simp (set_window_fill, e)
      (record {
        frame = filled.frame;
        open_now = filled.open_now;
        saved = filled.saved;
        kind = filled.kind ∙ k.kind;
      })

all-IsFilled :
    (id : ℕ) (xs : List (Desk × Bool)) (f : Frame) (bar : Bool) (s : Shell)
    → IsFilled id f bar s
    → IsFilled id f bar (fill_all id xs s)
unfolding fill_all
all-IsFilled id [] f bar s k = k
all-IsFilled id ((d, full) ∷ rest) f bar s k =
    all-IsFilled id rest f bar _ (set-IsFilled d id full f bar s k)

off-restores :
    (d : Desk) (id : ℕ) (f : Frame) (bar : Bool) (s : Shell)
    → IsFilled id f bar s
    → (lookup id (fill_off d id s).windows ≡ some (granted d bar f))
      × (lookup id (fill_off d id s).saved_frames ≡ none)
      × (contains (fill_off d id s).fullscreen id ≡ false)
unfolding fill_off
off-restores d id f bar s k =
    let gone : contains (take_out id s.fullscreen) id ≡ false =
      ground (arith, contains-retain (λ j. not (j == id)) s.fullscreen id) in
    let left : Shell = record s {
      fullscreen = take_out id s.fullscreen;
      saved_frames = remove id s.saved_frames;
    } in
    let how : exempt id left ≡ bar = ground (arith, gone, k.kind) in
    let kept = k.saved in
    simp (fill_off, kept)
      (
        set-lookup d id f k.frame left k.open_now ∙ ap (λ b. some (granted d b f)) how,
        ground (arith, lookup-remove id id s.saved_frames),
        gone,
      )

off-eq :
    (d : Desk) (id : ℕ) (full : Bool) (s : Shell) (g : Frame)
    → lookup id s.windows ≡ some g
    → set_window_fill d id false full s ≡ fill_off d id s
unfolding set_window_fill
off-eq d id full s g e = simp (set_window_fill, e) refl

-- A window that is not filled is maximized or made fullscreen one or more times, in any order and on
-- any screens, and then restored: it is set to the frame that it had before the first time, so it
-- gets that frame as far as the constraint at the time of the restore grants it, now that it does
-- not count as fullscreen; no frame is kept for it any longer.
pub fill_round_trip :
    (id : ℕ) (first : Desk × Bool) (xs : List (Desk × Bool)) (d : Desk) (full : Bool) (f : Frame)
    (s : Shell)
    → lookup id s.windows ≡ some f
    → lookup id s.saved_frames ≡ none
    → let t : Shell = set_window_fill d id false full (fill_all id (first ∷ xs) s) in
      (lookup id t.windows ≡ some (granted d (contains s.layer_windows id) f))
      × (lookup id t.saved_frames ≡ none)
      × (contains t.fullscreen id ≡ false)
unfolding fill_all
fill_round_trip id (d0, full0) xs d full f s e fresh =
    let k =
      all-IsFilled id xs f (contains s.layer_windows id) _
        (first-IsFilled d0 id full0 f s e fresh) in
    let filled : Shell = fill_all id ((d0, full0) ∷ xs) s in
    let same = off-eq d id full filled k.frame k.open_now in
    rw same (off-restores d id f (contains s.layer_windows id) filled k)
