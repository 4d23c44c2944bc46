-- ===== src/Wayland/Safety/Run.antt =====
-- The machine of Wayland/Steps.antt and the two indexed maps of src/wayland/mod.rs: whole runs.
use wayland_macos.Base.{ℕ, ◌≡◌, refl, Bool, true, none, some, List, [], ◌∷◌, ◌==◌, leb, returns}
use wayland_macos.Base.Map.{lookup, any_entry}
use wayland_macos.Mac.{WinCmd}
use wayland_macos.Wayland.Types.{Env, ToplevelRec, LayerSurfaceRec, State}
use wayland_macos.Wayland.Windows.{window_for_surface}
use wayland_macos.Wayland.Input.{
  InputEvent, pointer_enter, pointer_motion, pointer_button, pointer_axis, pointer_leave, key,
  modifiers, focus, app_deactivated, resize, popup_dismiss, mac_clipboard, deactivate,
  process_input,
}
use wayland_macos.Wayland.Requests
use wayland_macos.Wayland.Requests.{
  ToplevelRequest, tell_toplevel, set_toplevel, toplevel_request, LayerRequest, set_layer,
  known_layer_request, layer_request, drop_toplevel, drop_subsurface, drop_layer, forget_surface,
  positioner_request, add_feedback, new_popup, new_layer, sized, parent_window_of,
}
use wayland_macos.Wayland.Steps.{Action, quiet_step, step}
use wayland_macos.Wayland.Links.{insert-Links, modify-Links}
use wayland_macos.Base.Keep.{keep_if, keep_option}
use wayland_macos.Wayland.Quiet.{process_input-Quiet, vblank_tick-Quiet}
use wayland_macos.Wayland.Safety.{
  IsLinked, same-IsLinked, Quiet-IsLinked, popup_owner, layer_owner, reap_toplevel-IsLinked,
  reap_subsurface-IsLinked, dismiss_popup-IsLinked, reap_popup-IsLinked,
  recompute_reserved-IsLinked, reap_layer_surface-IsLinked,
}
use wayland_macos.Wayland.Safety.Commits.{Runs, runs, apply_cursor_surface-Runs, handle_commit-Runs}

-- The library never gives a new object the id of one that is there.
abbrev pub IsFresh : Action → State → Type 0
IsFresh (Action.get_popup _ _ id _ _) s = lookup id s.popups ≡ none
IsFresh (Action.get_layer_surface _ id) s = lookup id s.layer_surfaces ≡ none
IsFresh _ s = Unit

tell_toplevel-IsLinked :
    (id : ℕ) (p : ToplevelRec → Bool) (cmd : ℕ → WinCmd) (s : State)
    → IsLinked s
    → IsLinked (tell_toplevel id p cmd s)
unfolding tell_toplevel
tell_toplevel-IsLinked id p cmd s h =
    keep_option IsLinked (lookup id s.toplevels) h
      (λ t e. keep_if IsLinked (p t) (same-IsLinked h _ refl refl refl refl) h)

set_toplevel-IsLinked :
    (id : ℕ) (f : ToplevelRec → ToplevelRec) (s : State)
    → IsLinked s
    → IsLinked (set_toplevel id f s)
unfolding set_toplevel
set_toplevel-IsLinked id f s h = same-IsLinked h _ refl refl refl refl

toplevel_request-IsLinked :
    (id : ℕ) (r : ToplevelRequest) (s : State) → IsLinked s → IsLinked (toplevel_request id r s)
unfolding toplevel_request
toplevel_request-IsLinked id (ToplevelRequest.set_title _) s h =
    tell_toplevel-IsLinked id _ _ _ (set_toplevel-IsLinked id _ s h)
toplevel_request-IsLinked id (ToplevelRequest.set_app_id _) s h = set_toplevel-IsLinked id _ s h
toplevel_request-IsLinked id ToplevelRequest.move s h = tell_toplevel-IsLinked id _ _ s h
toplevel_request-IsLinked id (ToplevelRequest.resize _) s h = tell_toplevel-IsLinked id _ _ s h
toplevel_request-IsLinked id ToplevelRequest.set_maximized s h =
    tell_toplevel-IsLinked id _ _ _ (set_toplevel-IsLinked id _ s h)
toplevel_request-IsLinked id ToplevelRequest.unset_maximized s h =
    tell_toplevel-IsLinked id _ _ _ (set_toplevel-IsLinked id _ s h)
toplevel_request-IsLinked id ToplevelRequest.set_fullscreen s h =
    tell_toplevel-IsLinked id _ _ _ (set_toplevel-IsLinked id _ s h)
toplevel_request-IsLinked id ToplevelRequest.unset_fullscreen s h =
    tell_toplevel-IsLinked id _ _ _ (set_toplevel-IsLinked id _ s h)
toplevel_request-IsLinked id ToplevelRequest.set_minimized s h = tell_toplevel-IsLinked id _ _ s h
toplevel_request-IsLinked id (ToplevelRequest.set_min_size _ _) s h =
    tell_toplevel-IsLinked id _ _ s h
toplevel_request-IsLinked id (ToplevelRequest.set_max_size _ _) s h =
    tell_toplevel-IsLinked id _ _ s h
toplevel_request-IsLinked id ToplevelRequest.destroy s h = reap_toplevel-IsLinked id s h
toplevel_request-IsLinked id ToplevelRequest.other s h = h

set_layer-IsLinked :
    (id : ℕ) (f : LayerSurfaceRec → LayerSurfaceRec) (s : State)
    → ((l : LayerSurfaceRec) → layer_owner (f l) ≡ layer_owner l)
    → IsLinked s
    → IsLinked (set_layer id f s)
set_layer-IsLinked id f s same h = record {
  popups = h.popups;
  layers = modify-Links layer_owner s.surface_layer s.layer_surfaces id f h.layers same;
}

known_layer_request-IsLinked :
    (id : ℕ) (r : LayerRequest) (s : State) → IsLinked s → IsLinked (known_layer_request id r s)
unfolding known_layer_request
known_layer_request-IsLinked id (LayerRequest.set_size _ _) s h =
    set_layer-IsLinked id _ s (λ l. refl) h
known_layer_request-IsLinked id (LayerRequest.set_anchor _) s h =
    recompute_reserved-IsLinked _ (set_layer-IsLinked id _ s (λ l. refl) h)
known_layer_request-IsLinked id (LayerRequest.set_margin _ _ _ _) s h =
    set_layer-IsLinked id _ s (λ l. refl) h
known_layer_request-IsLinked id (LayerRequest.set_exclusive_zone _) s h =
    recompute_reserved-IsLinked _ (set_layer-IsLinked id _ s (λ l. refl) h)
known_layer_request-IsLinked id (LayerRequest.set_keyboard_interactivity _) s h =
    set_layer-IsLinked id _ s (λ l. refl) h
known_layer_request-IsLinked id LayerRequest.destroy s h = reap_layer_surface-IsLinked id s h
known_layer_request-IsLinked id LayerRequest.other s h = h

destroy_surface-IsLinked :
    (sid : ℕ) (s : State) → IsLinked s → IsLinked (Requests.destroy_surface sid s)
unfolding Requests.destroy_surface drop_toplevel drop_subsurface drop_layer forget_surface
destroy_surface-IsLinked sid s h =
    let no_toplevel = keep_option IsLinked (lookup sid s.surface_toplevel) h (λ tl e.
      keep_option IsLinked (lookup tl s.toplevels) (same-IsLinked h _ refl refl refl refl) (λ t f.
        keep_if IsLinked t.created_window (same-IsLinked h _ refl refl refl refl)
          (same-IsLinked h _ refl refl refl refl))) in
    let no_subsurface =
      keep_option IsLinked (lookup sid (drop_toplevel sid s).surface_subsurface) no_toplevel
        (λ sub e. reap_subsurface-IsLinked sub _ no_toplevel) in
    let no_layer =
      keep_option IsLinked (lookup sid (drop_subsurface sid (drop_toplevel sid s)).surface_layer)
        no_subsurface (λ ls e. reap_layer_surface-IsLinked ls _ no_subsurface) in
    same-IsLinked no_layer _ refl refl refl refl

process_input-IsLinked :
    (env : Env) (e : InputEvent) (s : State) → IsLinked s → IsLinked (process_input env e s)
unfolding process_input deactivate
process_input-IsLinked env (app_deactivated w) s h =
    keep_option IsLinked s.focus_window h
      (λ fw e. keep_if IsLinked (any_entry _ s.popups) (dismiss_popup-IsLinked fw s h) h)
process_input-IsLinked env (popup_dismiss w) s h = dismiss_popup-IsLinked w s h
process_input-IsLinked env (pointer_enter w x y) s h =
    Quiet-IsLinked (process_input-Quiet env (pointer_enter w x y) s refl) h
process_input-IsLinked env (pointer_motion w x y) s h =
    Quiet-IsLinked (process_input-Quiet env (pointer_motion w x y) s refl) h
process_input-IsLinked env (pointer_button w b p) s h =
    Quiet-IsLinked (process_input-Quiet env (pointer_button w b p) s refl) h
process_input-IsLinked env (pointer_axis x y) s h =
    Quiet-IsLinked (process_input-Quiet env (pointer_axis x y) s refl) h
process_input-IsLinked env (pointer_leave w) s h =
    Quiet-IsLinked (process_input-Quiet env (pointer_leave w) s refl) h
process_input-IsLinked env (key c p) s h =
    Quiet-IsLinked (process_input-Quiet env (key c p) s refl) h
process_input-IsLinked env (modifiers d l) s h =
    Quiet-IsLinked (process_input-Quiet env (modifiers d l) s refl) h
process_input-IsLinked env (focus w f) s h =
    Quiet-IsLinked (process_input-Quiet env (focus w f) s refl) h
process_input-IsLinked env (resize w x y) s h =
    Quiet-IsLinked (process_input-Quiet env (resize w x y) s refl) h
process_input-IsLinked env (mac_clipboard t) s h = h

get_keyboard-IsLinked :
    (env : Env) (id : ℕ) (s : State) → IsLinked s → IsLinked (Requests.get_keyboard env id s)
unfolding Requests.get_keyboard
get_keyboard-IsLinked env id s h =
    let mapped =
      keep_option IsLinked env.keymap_size h (λ n e. same-IsLinked h _ refl refl refl refl) in
    same-IsLinked
      (keep_if IsLinked (leb 4 (env.version id)) (same-IsLinked mapped _ refl refl refl refl)
        mapped)
      _ refl refl refl refl

-- What each quiet action keeps.
pub quiet_step-IsLinked :
    (env : Env) (a : Action) (s : State) → IsFresh a s → IsLinked s → IsLinked (quiet_step env a s)
unfolding quiet_step Requests.create_surface Requests.get_subsurface Requests.get_toplevel
    Requests.get_popup Requests.get_layer_surface Requests.get_keyboard Requests.decorate
    Requests.activate Requests.popup_grab layer_request positioner_request add_feedback
quiet_step-IsLinked env (Action.create_surface id) s f h =
    same-IsLinked
      (keep_if IsLinked (leb 6 (env.version id)) (same-IsLinked h _ refl refl refl refl) h) _ refl
      refl refl refl
quiet_step-IsLinked env (Action.attach sid b) s f h = same-IsLinked h _ refl refl refl refl
quiet_step-IsLinked env (Action.frame sid cb) s f h = same-IsLinked h _ refl refl refl refl
quiet_step-IsLinked env (Action.commit sid) s f h = h
quiet_step-IsLinked env (Action.destroy_surface sid) s f h = destroy_surface-IsLinked sid s h
quiet_step-IsLinked env (Action.get_subsurface sc id sid parent) s f h =
    keep_if IsLinked (sid == parent) (same-IsLinked h _ refl refl refl refl)
      (same-IsLinked h _ refl refl refl refl)
quiet_step-IsLinked env (Action.set_position sub x y) s f h = same-IsLinked h _ refl refl refl refl
quiet_step-IsLinked env (Action.destroy_subsurface sub) s f h = reap_subsurface-IsLinked sub s h
quiet_step-IsLinked env (Action.create_positioner id) s f h = same-IsLinked h _ refl refl refl refl
quiet_step-IsLinked env (Action.on_positioner id r) s f h = same-IsLinked h _ refl refl refl refl
quiet_step-IsLinked env (Action.set_window_geometry sid x y w height) s f h =
    same-IsLinked h _ refl refl refl refl
quiet_step-IsLinked env (Action.get_toplevel xs sid id) s f h =
    same-IsLinked h _ refl refl refl refl
quiet_step-IsLinked env (Action.get_popup xs sid id parent place) s f h = record {
  popups = insert-Links popup_owner s.surface_popup s.popups sid id _ h.popups f refl;
  layers = h.layers;
}
quiet_step-IsLinked env (Action.on_toplevel id r) s f h = toplevel_request-IsLinked id r s h
quiet_step-IsLinked env (Action.toplevel_destroyed id) s f h = reap_toplevel-IsLinked id s h
quiet_step-IsLinked env (Action.popup_grab id) s f h =
    keep_option IsLinked (lookup id s.popups) h (λ p e. same-IsLinked h _ refl refl refl refl)
quiet_step-IsLinked env (Action.popup_destroyed id) s f h = reap_popup-IsLinked id s h
quiet_step-IsLinked env (Action.get_layer_surface sid id) s f h = record {
  popups = h.popups;
  layers = insert-Links layer_owner s.surface_layer s.layer_surfaces sid id _ h.layers f refl;
}
quiet_step-IsLinked env (Action.on_layer id r) s f h =
    keep_option IsLinked (lookup id s.layer_surfaces) h
      (λ l e. known_layer_request-IsLinked id r s h)
quiet_step-IsLinked env (Action.layer_destroyed id) s f h = reap_layer_surface-IsLinked id s h
quiet_step-IsLinked env (Action.get_pointer id) s f h = same-IsLinked h _ refl refl refl refl
quiet_step-IsLinked env (Action.get_keyboard id) s f h = get_keyboard-IsLinked env id s h
quiet_step-IsLinked env (Action.set_cursor sid x y) s f h = h
quiet_step-IsLinked env (Action.set_destination sid w height) s f h =
    same-IsLinked h _ refl refl refl refl
quiet_step-IsLinked env (Action.decorate deco tl) s f h =
    same-IsLinked (set_toplevel-IsLinked tl _ s h) _ refl refl refl refl
quiet_step-IsLinked env (Action.feedback sid cb) s f h = same-IsLinked h _ refl refl refl refl
quiet_step-IsLinked env (Action.activate sid) s f h =
    keep_option IsLinked (window_for_surface s sid) h (λ w e. same-IsLinked h _ refl refl refl refl)
quiet_step-IsLinked env (Action.input e) s f h = process_input-IsLinked env e s h
quiet_step-IsLinked env Action.tick s f h = Quiet-IsLinked (vblank_tick-Quiet env s) h

-- Every step of a run has a fresh id where it makes an object, and memory for a frame.
abbrev pub IsAdmissible : List (Env × Action) → State → Type 0
IsAdmissible [] s = Unit
IsAdmissible ((env, action) ∷ rest) s =
    ((n : ℕ) → env.can_alloc n ≡ true)
    × IsFresh action s
    × ((s' : State) → step env action s ≡ returns s' → IsAdmissible rest s')

pub step-Runs :
    (env : Env) (a : Action) (s : State)
    → ((n : ℕ) → env.can_alloc n ≡ true)
    → IsFresh a s
    → IsLinked s
    → Runs (step env a s)
unfolding step Requests.set_cursor
step-Runs env (Action.commit sid) s ok f h = handle_commit-Runs env ok sid s h
step-Runs env (Action.set_cursor (some sid) x y) s ok f h =
    apply_cursor_surface-Runs env ok sid _ (same-IsLinked h _ refl refl refl refl)
step-Runs env (Action.set_cursor none x y) s ok f h = runs (same-IsLinked h _ refl refl refl refl)
step-Runs env (Action.create_surface id) s ok f h =
    runs (quiet_step-IsLinked env (Action.create_surface id) s f h)
step-Runs env (Action.attach sid b) s ok f h =
    runs (quiet_step-IsLinked env (Action.attach sid b) s f h)
step-Runs env (Action.frame sid cb) s ok f h =
    runs (quiet_step-IsLinked env (Action.frame sid cb) s f h)
step-Runs env (Action.destroy_surface sid) s ok f h =
    runs (quiet_step-IsLinked env (Action.destroy_surface sid) s f h)
step-Runs env (Action.get_subsurface sc id sid parent) s ok f h =
    runs (quiet_step-IsLinked env (Action.get_subsurface sc id sid parent) s f h)
step-Runs env (Action.set_position sub x y) s ok f h =
    runs (quiet_step-IsLinked env (Action.set_position sub x y) s f h)
step-Runs env (Action.destroy_subsurface sub) s ok f h =
    runs (quiet_step-IsLinked env (Action.destroy_subsurface sub) s f h)
step-Runs env (Action.create_positioner id) s ok f h =
    runs (quiet_step-IsLinked env (Action.create_positioner id) s f h)
step-Runs env (Action.on_positioner id r) s ok f h =
    runs (quiet_step-IsLinked env (Action.on_positioner id r) s f h)
step-Runs env (Action.set_window_geometry sid x y w height) s ok f h =
    runs (quiet_step-IsLinked env (Action.set_window_geometry sid x y w height) s f h)
step-Runs env (Action.get_toplevel xs sid id) s ok f h =
    runs (quiet_step-IsLinked env (Action.get_toplevel xs sid id) s f h)
step-Runs env (Action.get_popup xs sid id parent place) s ok f h =
    runs (quiet_step-IsLinked env (Action.get_popup xs sid id parent place) s f h)
step-Runs env (Action.on_toplevel id r) s ok f h =
    runs (quiet_step-IsLinked env (Action.on_toplevel id r) s f h)
step-Runs env (Action.toplevel_destroyed id) s ok f h =
    runs (quiet_step-IsLinked env (Action.toplevel_destroyed id) s f h)
step-Runs env (Action.popup_grab id) s ok f h =
    runs (quiet_step-IsLinked env (Action.popup_grab id) s f h)
step-Runs env (Action.popup_destroyed id) s ok f h =
    runs (quiet_step-IsLinked env (Action.popup_destroyed id) s f h)
step-Runs env (Action.get_layer_surface sid id) s ok f h =
    runs (quiet_step-IsLinked env (Action.get_layer_surface sid id) s f h)
step-Runs env (Action.on_layer id r) s ok f h =
    runs (quiet_step-IsLinked env (Action.on_layer id r) s f h)
step-Runs env (Action.layer_destroyed id) s ok f h =
    runs (quiet_step-IsLinked env (Action.layer_destroyed id) s f h)
step-Runs env (Action.get_pointer id) s ok f h =
    runs (quiet_step-IsLinked env (Action.get_pointer id) s f h)
step-Runs env (Action.get_keyboard id) s ok f h =
    runs (quiet_step-IsLinked env (Action.get_keyboard id) s f h)
step-Runs env (Action.set_destination sid w height) s ok f h =
    runs (quiet_step-IsLinked env (Action.set_destination sid w height) s f h)
step-Runs env (Action.decorate deco tl) s ok f h =
    runs (quiet_step-IsLinked env (Action.decorate deco tl) s f h)
step-Runs env (Action.feedback sid cb) s ok f h =
    runs (quiet_step-IsLinked env (Action.feedback sid cb) s f h)
step-Runs env (Action.activate sid) s ok f h =
    runs (quiet_step-IsLinked env (Action.activate sid) s f h)
step-Runs env (Action.input e) s ok f h = runs (quiet_step-IsLinked env (Action.input e) s f h)
step-Runs env Action.tick s ok f h = runs (quiet_step-IsLinked env Action.tick s f h)
