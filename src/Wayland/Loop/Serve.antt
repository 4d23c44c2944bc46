-- ===== src/Wayland/Loop/Serve.antt =====
-- The requests of clients that src/wayland/mod.rs dispatches, and the parts of the state that each
-- changes.
use wayland_macos.Base.{
  ℕ, ◌≡◌, ◌≢◌, refl, Bool, true, not, ◌&&◌, Option, none, some, List, [], ◌∷◌, arith, Checked,
  crashes, returns, and_then, Bool-cases, inl, inr, ◌==◌, or_else,
}
use wayland_macos.Base.Int.{ℤ}
use wayland_macos.Base.Map.{Map, lookup}
use wayland_macos.Base.Keep.{keep_if, keep_option}
use wayland_macos.Mac.{PixelBuf}
use wayland_macos.Wayland.Types.{Env, State}
use wayland_macos.Wayland.Clipboard
use wayland_macos.Wayland.Clipboard.{cancel_other, pull_text, pick_text_mime}
use wayland_macos.Wayland.Icons
use wayland_macos.Wayland.Icons.{IconRec, read_buffers, largest, apply_icon}
use wayland_macos.Wayland.Shm.{buffer_to_pixels}
use wayland_macos.Wayland.Shm.Bounds.{buffer_to_pixels_safe}
use wayland_macos.Wayland.Safety.{IsLinked, same-IsLinked}
use wayland_macos.Wayland.Safety.Commits.{Runs, runs, option-Runs}
use wayland_macos.Wayland.Safety.Run.{IsFresh, step-Runs}
use wayland_macos.Wayland.Loop.{World, Request, serve, dispatch_clients, put_state, starts_reader}

-- The outcome is a state of the invariant.
pub data Ends : Checked World → Type 0 where
  ends : {w : World} → IsLinked w.state → Ends (returns w)

put-Ends :
    {r : Checked State} (w : World) → Runs r → Ends (and_then r (λ s. returns (put_state s w)))
put-Ends w (runs h) = ends h

cancel_other-IsLinked :
    (env : Env) (source : ℕ) (s : State) → IsLinked s → IsLinked (cancel_other env source s)
unfolding cancel_other
cancel_other-IsLinked env source s h = keep_option IsLinked s.clipboard.active_source h (λ prev e.
    keep_if IsLinked (env.is_alive prev && not (prev == source))
      (same-IsLinked h _ refl refl refl refl) h)

pull_text-IsLinked :
    (pipe : Bool) (source : ℕ) (s : State) → IsLinked s → IsLinked (pull_text pipe source s)
unfolding pull_text
pull_text-IsLinked pipe source s h =
    let mimes = or_else (lookup source s.clipboard.source_mimes) [] in
    keep_option IsLinked (pick_text_mime mimes) h
      (λ mime e. keep_if IsLinked pipe (same-IsLinked h _ refl refl refl refl) h)

select-IsLinked :
    (env : Env) (pipe : Bool) (source : Option ℕ) (s : State)
    → IsLinked s
    → IsLinked (Clipboard.set_selection env pipe source s)
unfolding Clipboard.set_selection
select-IsLinked env pipe none s h = same-IsLinked h _ refl refl refl refl
select-IsLinked env pipe (some source) s h =
    let cancelled = cancel_other-IsLinked env source s h in
    let pulled = pull_text-IsLinked pipe source _ (same-IsLinked cancelled _ refl refl refl refl) in
    same-IsLinked pulled _ refl refl refl refl

and_then-returns :
    {A B : Type 0} (r : Checked A) {f : A → Checked B}
    → r ≢ crashes
    → ((a : A) → f a ≢ crashes)
    → and_then r f ≢ crashes
and_then-returns crashes safe k = absurd (safe refl)
and_then-returns (returns a) safe k = k a

returns-ne-crashes : {A : Type 0} {a : A} → returns a ≢ crashes
returns-ne-crashes e = ground arith

-- Reading the buffers of an icon never ends the process while memory can be had.
read_buffers_safe :
    (env : Env) (bs : List (ℕ × ℤ))
    → ((n : ℕ) → env.can_alloc n ≡ true)
    → read_buffers env bs ≢ crashes
unfolding read_buffers
read_buffers_safe env [] ok = returns-ne-crashes
read_buffers_safe env ((buffer, scale) ∷ rest) ok =
    and_then-returns (buffer_to_pixels env buffer) (buffer_to_pixels_safe env buffer ok) (λ read.
      and_then-returns (read_buffers env rest) (read_buffers_safe env rest ok)
        (λ more. returns-ne-crashes))

apply_icon-IsLinked :
    (toplevel : ℕ) (t : _) (picked : Option PixelBuf) (s : State)
    → IsLinked s
    → IsLinked (apply_icon toplevel t picked s)
unfolding apply_icon
apply_icon-IsLinked toplevel t none s h = h
apply_icon-IsLinked toplevel t (some pb) s h =
    keep_if IsLinked t.created_window (same-IsLinked h _ refl refl refl refl)
      (same-IsLinked h _ refl refl refl refl)

read-Runs :
    {A : Type 0} (r : Checked A) {f : A → State}
    → r ≢ crashes
    → ((a : A) → IsLinked (f a))
    → Runs (and_then r (λ a. returns (f a)))
read-Runs crashes safe k = absurd (safe refl)
read-Runs (returns a) safe k = runs (k a)

set_icon-Runs :
    (env : Env) (toplevel : ℕ) (icon : Option ℕ) (icons : Map IconRec) (s : State)
    → ((n : ℕ) → env.can_alloc n ≡ true)
    → IsLinked s
    → Runs (Icons.set_icon env toplevel icon icons s)
unfolding Icons.set_icon
set_icon-Runs env toplevel icon icons s ok h =
    option-Runs (lookup toplevel s.toplevels) (runs h) (λ t e.
      option-Runs icon (runs (same-IsLinked h _ refl refl refl refl)) (λ i f.
        option-Runs (lookup i icons) (runs h) (λ rec g.
          read-Runs (read_buffers env rec.buffers) (read_buffers_safe env rec.buffers ok)
            (λ read. apply_icon-IsLinked toplevel t (largest read) s h))))

set_modal-IsLinked :
    (toplevel : ℕ) (modal : Bool) (s : State)
    → IsLinked s
    → IsLinked (Icons.set_modal toplevel modal s)
unfolding Icons.set_modal
set_modal-IsLinked toplevel modal s h =
    keep_option IsLinked (lookup toplevel s.toplevels) h
      (λ t e. same-IsLinked h _ refl refl refl refl)

-- What a request needs: memory and fresh ids as in a run, and a thread where one is started.
abbrev pub IsAllowed : Request → State → Type 0
IsAllowed (Request.core env a) s = ((n : ℕ) → env.can_alloc n ≡ true) × IsFresh a s
IsAllowed (Request.select _ _ spawned _) s = spawned ≡ true
IsAllowed (Request.receive spawned) s = spawned ≡ true
IsAllowed (Request.set_icon env _ _) s = (n : ℕ) → env.can_alloc n ≡ true
IsAllowed _ s = Unit

select-Ends :
    (env : Env) (pipe spawned : Bool) (source : Option ℕ) (w : World)
    → spawned ≡ true
    → IsLinked w.state
    → Ends (serve (Request.select env pipe spawned source) w)
unfolding serve
select-Ends env pipe spawned source w ok h = elim (Bool-cases (starts_reader pipe source w.state)) [
  | inl starts ↦ simp (serve, starts, ok) (ends (select-IsLinked env pipe source w.state h))
  | inr none_to ↦ simp (serve, none_to) (ends (select-IsLinked env pipe source w.state h))
]

serve-Ends : (r : Request) (w : World) → IsAllowed r w.state → IsLinked w.state → Ends (serve r w)
unfolding serve Clipboard.add_device Clipboard.create_data_source Clipboard.offer_type
    Clipboard.destroy_source Icons.set_shape
serve-Ends (Request.core env a) w (ok, fresh) h = put-Ends w (step-Runs env a w.state ok fresh h)
serve-Ends (Request.add_device device) w ok h = ends (same-IsLinked h _ refl refl refl refl)
serve-Ends (Request.new_source source) w ok h = ends (same-IsLinked h _ refl refl refl refl)
serve-Ends (Request.offer_type source mime) w ok h = ends (same-IsLinked h _ refl refl refl refl)
serve-Ends (Request.source_gone source) w ok h = ends (same-IsLinked h _ refl refl refl refl)
serve-Ends (Request.select env pipe spawned source) w ok h =
    select-Ends env pipe spawned source w ok h
serve-Ends (Request.receive spawned) w ok h = rw ok (ends h)
serve-Ends (Request.primary env r) w ok h = ends h
serve-Ends (Request.color env r) w ok h = ends (same-IsLinked h _ refl refl refl refl)
serve-Ends (Request.icon r) w ok h = ends h
serve-Ends (Request.set_icon env toplevel i) w ok h =
    put-Ends w (set_icon-Runs env toplevel i w.icons w.state ok h)
serve-Ends (Request.set_shape shape) w ok h = ends (same-IsLinked h _ refl refl refl refl)
serve-Ends (Request.set_modal toplevel modal) w ok h =
    ends (set_modal-IsLinked toplevel modal w.state h)

-- Every request of a list has what it needs when it is served.
abbrev pub IsServable : List Request → World → Type 0
IsServable [] w = Unit
IsServable (r ∷ rest) w =
    IsAllowed r w.state × ((w' : World) → serve r w ≡ returns w' → IsServable rest w')

dispatch-step :
    {r : Checked World} (rest : List Request)
    → Ends r
    → ((w : World) → r ≡ returns w → IsServable rest w)
    → ((w : World) → IsServable rest w → IsLinked w.state → Ends (dispatch_clients rest w))
    → Ends (and_then r (dispatch_clients rest))
dispatch-step rest (ends {w} h) ok k = k w (ok w refl) h

pub dispatch_clients-Ends :
    (rs : List Request) (w : World)
    → IsServable rs w
    → IsLinked w.state
    → Ends (dispatch_clients rs w)
unfolding dispatch_clients
dispatch_clients-Ends [] w ok h = ends h
dispatch_clients-Ends (r ∷ rest) w (allowed, later) h =
    dispatch-step rest (serve-Ends r w allowed h) later (dispatch_clients-Ends rest)
