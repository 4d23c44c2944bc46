-- ===== src/Wayland/Safety/Commits.antt =====
-- Commits and cursor surfaces of src/wayland/mod.rs, and the invariant of Wayland/Safety.antt.
use wayland_macos.Base.{
  ℕ, ◌≡◌, refl, ◌≢◌, Bool, true, false, not, ◌&&◌, Option, none, some, arith, if◌then◌else◌, ◌==◌,
  leb, holds, is_some, Checked, crashes, returns, and_then,
}
use wayland_macos.Base.Map.{Map, lookup, modify}
use wayland_macos.Mac.{PixelBuf}
use wayland_macos.Wayland.Types.{Env, ToplevelRec, PopupRec, LayerSurfaceRec, State}
use wayland_macos.Wayland.Shm.{buffer_to_pixels}
use wayland_macos.Wayland.Shm.Bounds.{buffer_to_pixels_safe}
use wayland_macos.Wayland.Subsurface.{resolve_subsurface, present_subsurface}
use wayland_macos.Wayland.Layer.{mark_layer, focus_layer, create_layer_window, present_layer}
use wayland_macos.Wayland.Commit.{
  mark_popup, take_buffer, take_pending, create_toplevel_window, create_popup_window,
  present_toplevel, present_popup, present_pixels, present, set_cursor_image, pending_buffer_of,
  release, apply_cursor_surface, configure_toplevel, configure_popup, configure_layer, did_attach,
  present_pending, handle_commit,
}
use wayland_macos.Wayland.Links.{Links, modify-Links}
use wayland_macos.Base.Keep.{keep_if, keep_option}
use wayland_macos.Wayland.Quiet.{Quiet, quiet, for_each-Quiet, send-Quiet, if-Quiet}
use wayland_macos.Wayland.Safety.{
  IsLinked, same-IsLinked, Quiet-IsLinked, popup_owner, layer_owner, unmap_surface-IsLinked,
}

-- The outcome is a state of the invariant.
pub data Runs : Checked State → Type 0 where
  runs : {s : State} → IsLinked s → Runs (returns s)

pub and_then-Runs :
    {r : Checked State} {f : State → Checked State}
    → Runs r
    → ((s : State) → IsLinked s → Runs (f s))
    → Runs (and_then r f)
and_then-Runs (runs {s} h) k = k s h

pixels-Runs :
    (r : Checked (Option PixelBuf)) {f : Option PixelBuf → Checked State}
    → r ≢ crashes
    → ((pb : Option PixelBuf) → Runs (f pb))
    → Runs (and_then r f)
pixels-Runs crashes safe k = absurd (safe refl)
pixels-Runs (returns pb) safe k = k pb

pub option-Runs :
    {A : Type 0} (o : Option A) {n : Checked State} {f : A → Checked State}
    → Runs n
    → ((a : A) → o ≡ some a → Runs (f a))
    → Runs (elim o [ none ↦ n | some a ↦ f a ])
option-Runs none h k = h
option-Runs (some a) h k = k a refl

-- An index that is linked never misses.
found-Runs :
    {A : Type 0} (o : Option A) (n : Checked State) {f : A → Checked State}
    → o ≢ none
    → ((a : A) → o ≡ some a → Runs (f a))
    → Runs (elim o [ none ↦ n | some a ↦ f a ])
found-Runs none n h k = absurd (h refl)
found-Runs (some a) n h k = k a refl

if-Runs : (c : Bool) {a b : Checked State} → Runs a → Runs b → Runs (if c then a else b)
if-Runs true h k = h
if-Runs false h k = k

create_toplevel_window-IsLinked :
    (env : Env) (sid tl : ℕ) (t : ToplevelRec) (buf : PixelBuf) (s : State)
    → IsLinked s
    → IsLinked (create_toplevel_window env sid tl t buf s)
unfolding create_toplevel_window
create_toplevel_window-IsLinked env sid tl t buf s h =
    keep_option IsLinked t.pending_icon (same-IsLinked h _ refl refl refl refl)
      (λ i e. same-IsLinked h _ refl refl refl refl)

create_popup_window-IsLinked :
    (sid pp : ℕ) (p : PopupRec) (buf : PixelBuf) (s : State)
    → IsLinked s
    → IsLinked (create_popup_window sid pp p buf s)
unfolding create_popup_window
create_popup_window-IsLinked sid pp p buf s h = record {
  popups = modify-Links popup_owner s.surface_popup s.popups pp mark_popup h.popups (λ p. refl);
  layers = h.layers;
}

focus_layer-Quiet : (env : Env) (l : LayerSurfaceRec) (s : State) → Quiet (focus_layer env l s) s
unfolding focus_layer
focus_layer-Quiet env l s =
    if-Quiet (not (l.keyboard_interactivity == 0) && not (holds s.focus_window l.window_id))
      (for_each-Quiet (λ k s r. send-Quiet r) _ (quiet refl)) (quiet refl)

create_layer_window-IsLinked :
    (env : Env) (sid ls : ℕ) (l : LayerSurfaceRec) (buf : PixelBuf) (s : State)
    → IsLinked s
    → IsLinked (create_layer_window env sid ls l buf s)
unfolding create_layer_window
create_layer_window-IsLinked env sid ls l buf s h =
    Quiet-IsLinked (focus_layer-Quiet env l _) (record {
      popups = h.popups;
      layers =
          modify-Links layer_owner s.surface_layer s.layer_surfaces ls mark_layer h.layers
            (λ l. refl);
    })

-- The owner of an index's object is in its map.
Links-found :
    {V : Type 0} (owner : V → ℕ) (index : Map ℕ) (recs : Map V) (surface object : ℕ)
    → Links owner index recs
    → lookup surface index ≡ some object
    → lookup object recs ≢ none
Links-found owner index recs surface object h e gone =
    let (v, found, own) = h surface object e in ground arith

module _ (env : Env) (allocates : (n : ℕ) → env.can_alloc n ≡ true) where
  present_toplevel-IsLinked :
      (sid tl : ℕ) (buf : PixelBuf) (s : State)
      → IsLinked s
      → IsLinked (present_toplevel env sid tl buf s)
  unfolding present_toplevel
  present_toplevel-IsLinked sid tl buf s h = keep_option IsLinked (lookup tl s.toplevels) h (λ t e.
      same-IsLinked
        (keep_if IsLinked t.created_window h (create_toplevel_window-IsLinked env sid tl t buf s h))
        _ refl refl refl refl)

  present_popup-Runs :
      (sid pp : ℕ) (buf : PixelBuf) (s : State)
      → IsLinked s
      → lookup sid s.surface_popup ≡ some pp
      → Runs (present_popup sid pp buf s)
  unfolding present_popup
  present_popup-Runs sid pp buf s h e =
      found-Runs (lookup pp s.popups) crashes
        (Links-found popup_owner s.surface_popup s.popups sid pp h.popups e)
        (λ p f. runs (
          same-IsLinked
            (keep_if IsLinked p.created_window h (create_popup_window-IsLinked sid pp p buf s h)) _
            refl refl refl refl))

  present_pixels-Runs :
      (sid : ℕ) (buf : PixelBuf) (s : State) → IsLinked s → Runs (present_pixels env sid buf s)
  unfolding present_pixels
  present_pixels-Runs sid buf s h =
      option-Runs (lookup sid s.surface_toplevel)
        (option-Runs (lookup sid s.surface_popup) (runs h)
          (λ pp e. present_popup-Runs sid pp buf s h e))
        (λ tl e. runs (present_toplevel-IsLinked sid tl buf s h))

  -- A buffer's reading returns, and what it gives is shown.
  shown-Runs :
      (buffer : ℕ) (s : State) {f : PixelBuf → Checked State}
      → IsLinked s
      → ((buf : PixelBuf) → Runs (f buf))
      → Runs (
          and_then
            (buffer_to_pixels env buffer)
            (λ pb. elim pb [ none ↦ returns s | some buf ↦ f buf ]))
  shown-Runs buffer s h k =
      pixels-Runs (buffer_to_pixels env buffer) (buffer_to_pixels_safe env buffer allocates)
        (λ pb. option-Runs pb (runs h) (λ buf e. k buf))

  present-Runs : (sid buffer : ℕ) (s : State) → IsLinked s → Runs (present env sid buffer s)
  unfolding present
  present-Runs sid buffer s h = shown-Runs buffer s h (λ buf. present_pixels-Runs sid buf s h)

  present_layer-Runs :
      (sid buffer : ℕ) (s : State) → IsLinked s → Runs (present_layer env sid buffer s)
  unfolding present_layer
  present_layer-Runs sid buffer s h = option-Runs (lookup sid s.surface_layer) (runs h) (λ ls e.
      shown-Runs buffer s h (λ buf.
        found-Runs (lookup ls s.layer_surfaces) crashes
          (Links-found layer_owner s.surface_layer s.layer_surfaces sid ls h.layers e)
          (λ l f. runs (
            same-IsLinked
              (keep_if IsLinked l.created_window h
                (create_layer_window-IsLinked env sid ls l buf s h))
              _ refl refl refl refl))))

  present_subsurface-Runs :
      (sid buffer : ℕ) (s : State) → IsLinked s → Runs (present_subsurface env sid buffer s)
  unfolding present_subsurface
  present_subsurface-Runs sid buffer s h =
      option-Runs (resolve_subsurface s sid) (runs h)
        (λ r e. shown-Runs buffer s h (λ buf. runs (same-IsLinked h _ refl refl refl refl)))

  set_cursor_image-Runs :
      (buffer : ℕ) (s : State) → IsLinked s → Runs (set_cursor_image env buffer s)
  unfolding set_cursor_image
  set_cursor_image-Runs buffer s h =
      shown-Runs buffer s h (λ buf. runs (same-IsLinked h _ refl refl refl refl))

  release-Runs : (buffer : ℕ) (s : State) → IsLinked s → Runs (release buffer s)
  release-Runs buffer s h = runs (same-IsLinked h _ refl refl refl refl)

  pub apply_cursor_surface-Runs :
      (sid : ℕ) (s : State) → IsLinked s → Runs (apply_cursor_surface env sid s)
  unfolding apply_cursor_surface
  apply_cursor_surface-Runs sid s h =
      let taken : IsLinked (record s { surfaces = modify sid take_buffer s.surfaces }) =
        same-IsLinked h _ refl refl refl refl in
      option-Runs (pending_buffer_of s sid) (runs taken)
        (λ buffer e. and_then-Runs (set_cursor_image-Runs buffer _ taken) (release-Runs buffer))

  present_pending-Runs :
      (sid buffer : ℕ) (s : State) → IsLinked s → Runs (present_pending env sid buffer s)
  unfolding present_pending
  present_pending-Runs sid buffer s h =
      if-Runs (holds s.cursor_surface sid) (set_cursor_image-Runs buffer s h) (
        if-Runs (is_some (lookup sid s.surface_subsurface)) (present_subsurface-Runs sid buffer s h)
          (if-Runs (is_some (lookup sid s.surface_layer)) (present_layer-Runs sid buffer s h)
            (present-Runs sid buffer s h)))

  configure_toplevel-IsLinked :
      (sid : ℕ) (s : State) → IsLinked s → IsLinked (configure_toplevel env sid s)
  unfolding configure_toplevel
  configure_toplevel-IsLinked sid s h =
      keep_option IsLinked (lookup sid s.surface_toplevel) h (λ tl e.
        keep_option IsLinked (lookup tl s.toplevels) h (λ t f. keep_if IsLinked t.configured h (
          same-IsLinked
            (keep_if IsLinked (leb 5 (env.version t.toplevel))
              (same-IsLinked h _ refl refl refl refl) (same-IsLinked h _ refl refl refl refl))
            _ refl refl refl refl)))

  configure_popup-IsLinked : (sid : ℕ) (s : State) → IsLinked s → IsLinked (configure_popup sid s)
  unfolding configure_popup
  configure_popup-IsLinked sid s h = keep_option IsLinked (lookup sid s.surface_popup) h (λ pp e.
      keep_option IsLinked (lookup pp s.popups) h (λ p f. keep_if IsLinked p.configured h (record {
        popups = modify-Links popup_owner s.surface_popup s.popups pp _ h.popups (λ p. refl);
        layers = h.layers;
      })))

  configure_layer-IsLinked :
      (sid : ℕ) (s : State) → IsLinked s → IsLinked (configure_layer env sid s)
  unfolding configure_layer
  configure_layer-IsLinked sid s h = keep_option IsLinked (lookup sid s.surface_layer) h (λ ls e.
      keep_option IsLinked (lookup ls s.layer_surfaces) h (λ l f.
        keep_if IsLinked l.configured h (record {
          popups = h.popups;
          layers =
              modify-Links layer_owner s.surface_layer s.layer_surfaces ls _ h.layers (λ l. refl);
        })))

  pub handle_commit-Runs : (sid : ℕ) (s : State) → IsLinked s → Runs (handle_commit env sid s)
  unfolding handle_commit
  handle_commit-Runs sid s h =
      let asked = configure_layer-IsLinked sid _ (
        configure_popup-IsLinked sid _ (
          configure_toplevel-IsLinked sid
            (record s { surfaces = modify sid take_pending s.surfaces })
            (same-IsLinked h _ refl refl refl refl))) in
      option-Runs (pending_buffer_of s sid)
        (runs (keep_if IsLinked (did_attach s sid) (unmap_surface-IsLinked sid _ asked) asked))
        (λ buffer e. and_then-Runs (present_pending-Runs sid buffer _ asked) (release-Runs buffer))
