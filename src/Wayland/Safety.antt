-- ===== src/Wayland/Safety.antt =====
-- The indices behind `popups[&pp_id]` and `layer_surfaces[&ls_id]` of src/wayland/mod.rs: an
-- invariant, and the operations that remove and mark.
pub mod Commits
pub mod Run
-- miss its key: an invariant of the machine of Wayland/Steps.antt.
use wayland_macos.Base.{
  ℕ, ◌≡◌, refl, ◌≢◌, Bool, true, false, not, Option, none, some, List, [], ◌∷◌, arith,
  if◌then◌else◌, ◌==◌, ◌&&◌, leb, ltb, holds, is_some, Bool-cases, Option-cases, inl, inr, Checked,
  crashes, returns, and_then,
}
use wayland_macos.Base.Int.{ℤ, pos}
use wayland_macos.Base.Map.{Map, lookup, insert, remove, modify, find_entry, any_entry}
use mathlib.Core.Path.{ap}
use wayland_macos.Mac.{WinCmd, PixelBuf}
use wayland_macos.Wayland.Types.{Env, MacCall, ToplevelRec, PopupRec, LayerSurfaceRec, State}
use wayland_macos.Wayland.Core.{call, send, vblank_tick}
use wayland_macos.Wayland.Windows.{
  post_if, reap_toplevel, dismiss_popup, dismissable, mark_dismissed, forget_window, unmap_surface,
  reap_popup,
}
use wayland_macos.Wayland.Subsurface.{resolve_subsurface, reap_subsurface}
use wayland_macos.Wayland.Layer.{recompute_reserved, reap_layer_surface}
use wayland_macos.Wayland.Input.{
  InputEvent, app_deactivated, popup_dismiss, deactivate, process_input,
}
use wayland_macos.Wayland.Links.{Links, insert-Links, remove-Links, modify-Links}
use wayland_macos.Base.Keep.{keep_if, keep_option}
use wayland_macos.Wayland.Quiet.{
  core, Quiet, quiet, talks, process_input-Quiet, vblank_tick-Quiet, keep-Quiet,
}

-- The surface that a popup, and a layer surface, was made for.
abbrev pub popup_owner : PopupRec → ℕ
popup_owner p = p.wl_surface

abbrev pub layer_owner : LayerSurfaceRec → ℕ
layer_owner l = l.wl_surface

-- What the surfaces' indices name is there, and is theirs.
pub record IsLinked (s : State) : Type 0 where
  pub popups : Links popup_owner s.surface_popup s.popups
  pub layers : Links layer_owner s.surface_layer s.layer_surfaces

-- Only the popups, the layer surfaces and their indices matter.
pub same-IsLinked :
    {s : State}
    → IsLinked s
    → (s' : State) → s'.surface_popup ≡ s.surface_popup
    → s'.popups ≡ s.popups
    → s'.surface_layer ≡ s.surface_layer
    → s'.layer_surfaces ≡ s.layer_surfaces
    → IsLinked s'
same-IsLinked h s' a b c d = record { popups = rw (a, b) h.popups; layers = rw (c, d) h.layers }

stable : (x y : State) → core x ≡ core y → IsLinked y → IsLinked x
stable x y e h =
    same-IsLinked h x (ap (λ c. c.surface_popup) e) (ap (λ c. c.popups) e)
      (ap (λ c. c.surface_layer) e) (ap (λ c. c.layer_surfaces) e)

pub Quiet-IsLinked : {s o : State} → Quiet s o → IsLinked o → IsLinked s
Quiet-IsLinked q h = keep-Quiet IsLinked stable q h

pub reap_toplevel-IsLinked : (id : ℕ) (s : State) → IsLinked s → IsLinked (reap_toplevel id s)
unfolding reap_toplevel
reap_toplevel-IsLinked id s h = keep_option IsLinked (lookup id s.toplevels) h (λ t e.
    keep_if IsLinked t.created_window (same-IsLinked h _ refl refl refl refl)
      (same-IsLinked h _ refl refl refl refl))

pub reap_subsurface-IsLinked : (id : ℕ) (s : State) → IsLinked s → IsLinked (reap_subsurface id s)
unfolding reap_subsurface
reap_subsurface-IsLinked id s h = keep_option IsLinked (lookup id s.subsurfaces) h (λ rec e.
    keep_option IsLinked (resolve_subsurface s rec.surface) (same-IsLinked h _ refl refl refl refl)
      (λ r f. same-IsLinked h _ refl refl refl refl))

pub dismiss_popup-IsLinked : (w : ℕ) (s : State) → IsLinked s → IsLinked (dismiss_popup w s)
unfolding dismiss_popup
dismiss_popup-IsLinked w s h =
    let after = keep_option IsLinked (find_entry (dismissable w) s.popups) h (λ found e. record {
      popups =
          modify-Links popup_owner s.surface_popup s.popups found.0 mark_dismissed h.popups
            (λ p. refl);
      layers = h.layers;
    }) in
    same-IsLinked after _ refl refl refl refl

pub unmap_surface-IsLinked : (sid : ℕ) (s : State) → IsLinked s → IsLinked (unmap_surface sid s)
unfolding unmap_surface
unmap_surface-IsLinked sid s h = keep_option IsLinked (lookup sid s.surface_popup) h (λ pp e.
    keep_option IsLinked (lookup pp s.popups) h (λ p f.
      keep_if IsLinked p.created_window
        (record {
          popups =
              modify-Links popup_owner s.surface_popup s.popups pp forget_window h.popups
                (λ p. refl);
          layers = h.layers;
        })
        h))

pub reap_popup-IsLinked : (id : ℕ) (s : State) → IsLinked s → IsLinked (reap_popup id s)
unfolding reap_popup
reap_popup-IsLinked id s h = keep_option IsLinked (lookup id s.popups) h (λ p e. record {
  popups = remove-Links popup_owner s.surface_popup s.popups id p h.popups e;
  layers = h.layers;
})

recompute_reserved-IsLinked : (s : State) → IsLinked s → IsLinked (recompute_reserved s)
unfolding recompute_reserved
recompute_reserved-IsLinked s h = same-IsLinked h _ refl refl refl refl

pub reap_layer_surface-IsLinked :
    (id : ℕ) (s : State) → IsLinked s → IsLinked (reap_layer_surface id s)
unfolding reap_layer_surface
reap_layer_surface-IsLinked id s h = recompute_reserved-IsLinked _ (
    keep_option IsLinked (lookup id s.layer_surfaces) h (λ l e.
      let layers = remove-Links layer_owner s.surface_layer s.layer_surfaces id l h.layers e in
      keep_if IsLinked l.created_window (record { popups = h.popups; layers = layers })
        (record { popups = h.popups; layers = layers })))
