-- ===== src/Rail/Route/Pixels.antt =====
-- Where src/rail_route.rs sends a surface's pixels.
use wayland_macos.Base.{ℕ, ◌≡◌, ◌≢◌, ◌⊎◌, ◌↔◌, true, none, some, [], ◌∷◌, arith}
use wayland_macos.Base.Map.{Map, lookup, size, lookup-remove}
use wayland_macos.Rail.Route.{
  Win, Router, kind_of, is_some_mirror, sole_window, resolve, window_deleted,
}

-- What the window is that a surface names: its mapping, else its own window, else the only one.
abbrev pub Names : Router → ℕ → ℕ → ℕ → Type 0
Names r surface own id =
    (lookup surface r.surf_map ≡ some id)
    ⊎ ((lookup surface r.surf_map ≡ none) × (own ≢ 0) × (own ≡ id))
    ⊎ ((lookup surface r.surf_map ≡ none) × (own ≡ 0) × (size r.windows ≡ 1))

sole_window-some :
    (m : Map Win) (id : ℕ)
    → (sole_window m ≡ some id) ↔ ((size m ≡ 1) × (is_some_mirror (kind_of m id) ≡ true))
unfolding sole_window size lookup
sole_window-some [] id = ground arith
sole_window-some ((i, w) ∷ []) id = ground arith
sole_window-some ((i, w) ∷ e ∷ m) id = ground arith

-- A surface's pixels go to a window exactly if the surface names it and it is mirrored: by the
-- surface's mapping whatever else holds; without a mapping by the surface's own window id unless
-- that is 0; and without either only when the session has one window.
pub resolve_exact :
    (r : Router) (surface own id : ℕ)
    → (resolve r surface own ≡ some id)
      ↔ (Names r surface own id × (is_some_mirror (kind_of r.windows id) ≡ true))
unfolding resolve
resolve_exact r surface own id = ground (arith, sole_window-some r.windows id)

-- Once a window is deleted, no surface resolves to it, until a later order brings it back.
pub resolve-window_deleted :
    (r : Router) (id surface own : ℕ) → resolve (window_deleted r id).0 surface own ≢ some id
unfolding window_deleted
resolve-window_deleted r id surface own e = ground (
  arith,
  (resolve_exact (window_deleted r id).0 surface own id).0 e,
  lookup-remove id id r.windows,
)
