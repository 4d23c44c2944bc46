-- ===== src/Rail/Route/Bridge/Agreement.antt =====
-- The windows that csrc/rail_bridge.c announces beside the mirrored windows of src/rail_route.rs.
use wayland_macos.Base.{
  ℕ, ◌⊎◌, ap, sym, ◌∙◌, ◌≡◌, refl, ◌≢◌, Bool, Option, none, some, List, [], ◌∷◌, arith,
  if◌then◌else◌, ◌==◌, inl, inr, Option-cases,
}
use wayland_macos.Base.Int.{ℤ}
use wayland_macos.Base.Float.{F64}
use wayland_macos.Base.Map.{lookup, lookup-insert, lookup-modify, lookup-remove, lookup-nil}
use wayland_macos.Rail.Route.{
  Kind, Rect, Win, Router, Style, kind_of, is_some_mirror, order_owner, demote_owner, outcome,
  classified, insert_window, order_kind, set_kind, window_deleted, ffi_style, order_code,
  rail_route_window_order, new, style_owner, normalize_owner,
}
use wayland_macos.Rail.Route.Bridge.{
  Bridge, emit, drain, route_window_order, window_delete, Message, order, delete, step, run, start,
}

-- Nothing is queued, owners are never 0, and a window is announced exactly if it is mirrored.
record Agrees (b : Bridge) : Type 0 where
  drained : b.router.demoted ≡ []
  owned : (j : ℕ) (w : Win) → lookup j b.router.windows ≡ some w → w.owner ≢ some 0
  same : (j : ℕ) → b.announced j ≡ is_some_mirror (kind_of b.router.windows j)

normalize_owner-ne-zero : (o : ℕ) → normalize_owner o ≢ some 0
unfolding normalize_owner
normalize_owner-ne-zero o e = ground arith

style_owner-ne-zero : (style : Style) → style_owner style ≢ some 0
unfolding style_owner
style_owner-ne-zero none e = cc
style_owner-ne-zero (some (exstyle, o)) e = normalize_owner-ne-zero o e

order_owner-ne-zero :
    (b : Bridge) (id : ℕ) (style : Style)
    → Agrees b
    → order_owner b.router.windows id style ≢ some 0
unfolding order_owner
order_owner-ne-zero b id style a e = elim (Option-cases (lookup id b.router.windows)) [
  | inl gone ↦ ground (arith, style_owner-ne-zero style)
  | inr (w, found) ↦ ground (arith, style_owner-ne-zero style, a.owned id w)
]

module _ (f : F64) (r : Router) (id : ℕ) (style : Style) (rect : Rect) where
  lookup-classified :
      (j : ℕ)
      → lookup j (classified f r id style rect).windows ≡ (
          if id == j
          then some (record {
            kind = order_kind f r id style rect;
            owner = order_owner r.windows id style;
            rect = rect;
          })
          else lookup j r.windows)
  unfolding set_kind insert_window classified
  lookup-classified j = simp (lookup-modify, lookup-insert) (ground arith)

  kind-classified :
      (j : ℕ)
      → kind_of (classified f r id style rect).windows j
        ≡ (if id == j then some (order_kind f r id style rect) else kind_of r.windows j)
  kind-classified j = ground (arith, lookup-classified j)

  owner-classified :
      (j : ℕ) (w : Win)
      → lookup j (classified f r id style rect).windows ≡ some w
      → (w.owner ≡ order_owner r.windows id style) ⊎ (lookup j r.windows ≡ some w)
  owner-classified j w e = ground (arith, lookup-classified j)

emit_lem :
    (prev : Option Kind) (k : Kind) (announced : ℕ → Bool) (id j : ℕ)
    → announced id ≡ is_some_mirror prev
    → emit (order_code (outcome prev k)) id announced j
      ≡ (if id == j then is_some_mirror (some k) else announced j)
unfolding order_code outcome
emit_lem prev k announced id j h = ground (arith, λ (e : id ≡ j). ap announced e)

-- One demotion and the drain that follows it, from an empty queue.
demote_owner-drain :
    (f : F64) (owner : Option ℕ) (r : Router) (announced : ℕ → Bool)
    → r.demoted ≡ []
    → owner ≢ some 0
    → ((j : ℕ) → announced j ≡ is_some_mirror (kind_of r.windows j))
    → (j : ℕ)
    → ((drain (demote_owner f owner r).demoted announced).0 ≡ [])
      × ((drain (demote_owner f owner r).demoted announced).1 j
          ≡ is_some_mirror (kind_of (demote_owner f owner r).windows j))
unfolding demote_owner drain
demote_owner-drain f none r announced d nz same j = ground (arith, same j)
demote_owner-drain f (some p) r announced d nz same j =
    ground (arith, same j, nz, lookup-modify j p (λ w. record w { kind = Kind.filtered }) r.windows)

demote_owner-owner :
    (f : F64) (owner : Option ℕ) (r : Router) (j : ℕ) (w : Win)
    → lookup j (demote_owner f owner r).windows ≡ some w
    → (v : Win) × (lookup j r.windows ≡ some v) × (w.owner ≡ v.owner)
unfolding demote_owner
demote_owner-owner f none r j w e = (w, e, refl)
demote_owner-owner f (some p) r j w e = elim (Option-cases (lookup j r.windows)) [
  | inl gone ↦ ground (arith, lookup-modify j p (λ w. record w { kind = Kind.filtered }) r.windows)
  | inr (v, found) ↦ (
    v,
    found,
    ground (arith, lookup-modify j p (λ w. record w { kind = Kind.filtered }) r.windows),
  )
]

classified_demoted :
    (f : F64) (r : Router) (id : ℕ) (style : Style) (rect : Rect)
    → (classified f r id style rect).demoted ≡ r.demoted
unfolding classified
classified_demoted f r id style rect = refl

module _ (f : F64) (b : Bridge) (id : ℕ) (h : Bool) (ex o : ℕ) (rect : Rect) (a : Agrees b) where
  abbrev after : Router
  after = classified f b.router id (ffi_style h ex o) rect

  abbrev verdict : ℤ
  verdict =
      order_code
        (outcome (kind_of b.router.windows id) (order_kind f b.router id (ffi_style h ex o) rect))

  emitted : (j : ℕ) → emit verdict id b.announced j ≡ is_some_mirror (kind_of after.windows j)
  emitted j = ground (
    arith,
    a.same j,
    kind-classified f b.router id (ffi_style h ex o) rect j,
    emit_lem (kind_of b.router.windows id) (order_kind f b.router id (ffi_style h ex o) rect)
        b.announced id j (a.same id),
  )

  drained_after :
      (j : ℕ)
      → let c = route_window_order f b id h ex o rect in
        (c.router.demoted ≡ []) × (c.announced j ≡ is_some_mirror (kind_of c.router.windows j))
  unfolding route_window_order rail_route_window_order
  drained_after j =
      demote_owner-drain f (order_owner b.router.windows id (ffi_style h ex o)) after
        (emit verdict id b.announced)
        (classified_demoted f b.router id (ffi_style h ex o) rect ∙ a.drained)
        (order_owner-ne-zero b id (ffi_style h ex o) a) emitted j

  owned_after :
      (j : ℕ) (w : Win)
      → lookup j (route_window_order f b id h ex o rect).router.windows ≡ some w
      → w.owner ≢ some 0
  unfolding route_window_order rail_route_window_order
  owned_after j w e =
      let (v, found, same_owner) = demote_owner-owner f _ after j w e in
      elim (owner-classified f b.router id (ffi_style h ex o) rect j v found) [
        | inl learned ↦
            λ z. order_owner-ne-zero b id (ffi_style h ex o) a (sym learned ∙ sym same_owner ∙ z)
        | inr old ↦ λ z. a.owned j v old (sym same_owner ∙ z)
      ]

window_delete-Agrees : (b : Bridge) (id : ℕ) → Agrees b → Agrees (window_delete b id)
unfolding window_delete window_deleted
window_delete-Agrees b id a = record {
  drained = rw a.drained;
  owned = λ j w e. a.owned j w (ground (arith, lookup-remove j id b.router.windows));
  same = λ j. ground (
    arith,
    a.same j,
    a.same id,
    lookup-remove j id b.router.windows,
    λ (e : id ≡ j). ap b.announced e,
  );
}

step-Agrees : (f : F64) (b : Bridge) (m : Message) → Agrees b → Agrees (step f b m)
unfolding step
step-Agrees f b (order id h ex o rect) a = record {
  drained = (drained_after f b id h ex o rect a 0).0;
  owned = owned_after f b id h ex o rect a;
  same = λ j. (drained_after f b id h ex o rect a j).1;
}
step-Agrees f b (delete id) a = window_delete-Agrees b id a

run-Agrees : (f : F64) (b : Bridge) (ms : List Message) → Agrees b → Agrees (run f b ms)
unfolding run
run-Agrees f b [] a = a
run-Agrees f b (m ∷ ms) a = run-Agrees f (step f b m) ms (step-Agrees f b m a)

start-Agrees : Agrees start
unfolding start new
start-Agrees = record {
  drained = refl;
  owned = λ j w e. cc (lookup-nil {V = Win} j);
  same = λ j. ground (arith, lookup-nil {V = Win} j);
}

-- After any sequence of window orders and deletions, whatever the float comparison answers, the ids
-- that the front end was told to create, and not since to delete, are exactly those that the router
-- holds as mirrored, and no demotion is left waiting.
pub run_announced :
    (f : F64) (ms : List Message) (j : ℕ)
    → ((run f start ms).announced j ≡ is_some_mirror (kind_of (run f start ms).router.windows j))
      × ((run f start ms).router.demoted ≡ [])
run_announced f ms j = let a = run-Agrees f start ms start-Agrees in (a.same j, a.drained)
