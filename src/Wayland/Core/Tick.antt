-- ===== src/Wayland/Core/Tick.antt =====
-- `vblank_tick` of src/wayland/mod.rs and the frame callbacks that wait for it.
use wayland_macos.Base.{ℕ, ◌≡◌, refl, List, [], ◌∷◌, map}
use mathlib.Core.List.{reverse_aux}
use mathlib.Core.Path.{◌∙◌, ap}
use wayland_macos.Base.Map.{Map}
use wayland_macos.Wayland.Types.{Env, Event, callback_done, SurfaceRec, State}
use wayland_macos.Wayland.Core.{
  send, for_each, drain_callbacks, all_callbacks, fire_presentation_feedback, vblank_tick, keys,
}

drain-all : (m : Map SurfaceRec) → all_callbacks (drain_callbacks m) ≡ []
unfolding drain_callbacks all_callbacks
drain-all [] = refl
drain-all ((sid, rec) ∷ m) = drain-all m

for_each-surfaces :
    (f : ℕ → State → State)
    → ((d : ℕ) (s : State) → (f d s).surfaces ≡ s.surfaces)
    → (ds : List ℕ) (s : State) → (for_each f ds s).surfaces ≡ s.surfaces
unfolding for_each
for_each-surfaces f h [] s = refl
for_each-surfaces f h (d ∷ ds) s = for_each-surfaces f h ds (f d s) ∙ h d s

-- The events of a loop that only sends come out in the loop's order.
for_each-sent :
    (e : ℕ → Event) (ds : List ℕ) (s : State)
    → (for_each (λ d. send (e d)) ds s).sent ≡ reverse_aux (map e ds) s.sent
unfolding for_each
for_each-sent e [] s = refl
for_each-sent e (d ∷ ds) s = for_each-sent e ds (send (e d) s)

fire-surfaces :
    (env : Env) (sid : ℕ) (s : State) → (fire_presentation_feedback env sid s).surfaces ≡ s.surfaces
unfolding fire_presentation_feedback
fire-surfaces env sid s = for_each-surfaces _ (λ fb s. refl) _ _

tick-callbacks : (env : Env) (s : State) → all_callbacks (vblank_tick env s).surfaces ≡ []
unfolding vblank_tick
tick-callbacks env s =
    ap all_callbacks (
      for_each-surfaces (fire_presentation_feedback env) (fire-surfaces env)
        (keys s.presentation_feedback) _
      ∙ for_each-surfaces (λ cb. send (callback_done cb env.time)) (λ cb s. refl)
          (all_callbacks s.surfaces) _)
    ∙ drain-all s.surfaces

-- A tick at which no presentation feedback waits leaves no frame callback waiting, and what it
-- sends, on top of what was sent before, is one `done` with the tick's time for each callback that
-- waited, in their order.
pub tick_answers :
    (env : Env) (s : State)
    → s.presentation_feedback ≡ []
    → (all_callbacks (vblank_tick env s).surfaces ≡ [])
      × ((vblank_tick env s).sent
          ≡ reverse_aux (map (λ cb. callback_done cb env.time) (all_callbacks s.surfaces)) s.sent)
unfolding vblank_tick for_each
tick_answers env s h = (
  tick-callbacks env s,
  ap
        (λ (fb : Map (List ℕ)).
          (for_each (fire_presentation_feedback env) (keys fb) (
            for_each (λ cb. send (callback_done cb env.time)) (all_callbacks s.surfaces)
              (record s { surfaces = drain_callbacks s.surfaces }))).sent)
        h
      ∙ for_each-sent (λ cb. callback_done cb env.time) (all_callbacks s.surfaces)
          (record s { surfaces = drain_callbacks s.surfaces }),
)
