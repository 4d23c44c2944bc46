-- ===== src/Rail/Route/Bridge.antt =====
-- csrc/rail_bridge.c, `route_window_order` and the window handlers around it: the caller of
-- src/rail_route.rs, which calls the front end back to create and delete windows on the router's verdicts. Whether the
-- front end opens a native window at once is up to Rail/Front.antt.
pub mod Agreement
use wayland_macos.Base.{
  ℕ, zero, ◌⊎◌, ap, sym, ◌∙◌, ◌≡◌, refl, ◌≢◌, Bool, true, false, not, ◌&&◌, Option, none, some,
  List, [], ◌∷◌, arith, if◌then◌else◌, ◌==◌, inl, inr, Bool-cases, Option-cases, or_else,
}
use wayland_macos.Base.Int.{ℤ, pos, negsuc}
use wayland_macos.Base.Float.{F64}
use wayland_macos.Base.Map.{
  Map, lookup, insert, remove, modify, lookup-insert, lookup-modify, lookup-remove, lookup-nil,
}
use wayland_macos.Rail.Route.{
  Kind, mirror, Rect, Win, Order, Router, Style, kind_of, is_some_mirror, has_covering_child,
  order_owner, demote_owner, outcome, classified, insert_window, order_kind, set_kind, window_order,
  window_deleted, ffi_style, order_code, rail_route_window_order, new, style_owner, normalize_owner,
}

-- The router that the bridge calls, and the ids that the front end was told to create by
-- `window_create`, and not since to delete by `window_delete`.
pub record Bridge : Type 0 where
  pub router : Router
  pub announced : ℕ → Bool

abbrev pub put : ℕ → Bool → (ℕ → Bool) → ℕ → Bool
put id b announced j = if id == j then b else announced j

-- The `switch` on the verdict: create, delete, or nothing.
abbrev pub emit : ℤ → ℕ → (ℕ → Bool) → ℕ → Bool
emit (pos (zero)) id announced = announced
emit (pos (ℕ.suc n)) id announced = put id true announced
emit (negsuc zero) id announced = put id false announced
emit (negsuc (ℕ.suc n)) id announced = announced

-- `for (dead; (dead = pop()) != 0;) window_delete(dead)`: what is left queued, and announced.
unfoldable pub drain : List ℕ → (ℕ → Bool) → List ℕ × (ℕ → Bool)
drain [] announced = ([], announced)
drain (dead ∷ rest) announced =
    if dead == 0 then (rest, announced) else drain rest (put dead false announced)

unfoldable pub route_window_order : F64 → Bridge → ℕ → Bool → ℕ → ℕ → Rect → Bridge
unfolding rail_route_window_order drain
route_window_order f b id has_style exstyle owner rect =
    let (r, verdict) = rail_route_window_order f b.router id has_style exstyle owner rect in
    let (queue, announced) = drain r.demoted (emit verdict id b.announced) in
    record { router = record r { demoted = queue }; announced = announced }

unfoldable pub window_delete : Bridge → ℕ → Bridge
unfolding window_deleted
window_delete b id =
    let (r, was) = window_deleted b.router id in
    record { router = r; announced = if was then put id false b.announced else b.announced }

pub data Message : Type 0 where
  order : ℕ → Bool → ℕ → ℕ → Rect → Message
  delete : ℕ → Message

unfoldable pub step : F64 → Bridge → Message → Bridge
unfolding route_window_order window_delete
step f b (order id has_style exstyle owner rect) =
    route_window_order f b id has_style exstyle owner rect
step f b (delete id) = window_delete b id

unfoldable pub run : F64 → Bridge → List Message → Bridge
unfolding step
run f b [] = b
run f b (m ∷ ms) = run f (step f b m) ms

-- `rail_route_reset`, at the start of a session.
unfoldable pub start : Bridge
start = record { router = new; announced = λ j. false }
