-- ===== src/Wayland/Subsurface/Root.antt =====
-- The walk of `resolve_subsurface` in src/wayland/mod.rs: its end and its result.
use wayland_macos.Base.{
  ℕ, zero, suc, ◌≤◌, ◌<◌, ◌≡◌, ◌≢◌, false, Option, none, some, List, [], ◌∷◌, arith, if◌then◌else◌,
  contains, Bool-cases, Option-cases, inl, inr,
}
use wayland_macos.Base.Int.{ℤ, pos, ◌+i32◌}
use wayland_macos.Base.Map.{Map, lookup, size}
use wayland_macos.Wayland.Types.{SubsurfaceRec, State}
use wayland_macos.Wayland.Windows.{window_for_surface}
use wayland_macos.Wayland.Subsurface.{
  out_of_fuel, done, subsurface_of, walk, resolve_walk, resolve_subsurface,
}

-- How many entries of the index stand at a surface that was not seen.
unfoldable unseen : List ℕ → Map ℕ → ℕ
unfolding contains
unseen seen [] = 0
unseen seen ((j, v) ∷ m) = if contains seen j then unseen seen m else suc (unseen seen m)

unseen-size : (m : Map ℕ) → unseen [] m ≤ size m
unfolding unseen size contains
unseen-size [] = omega arith
unseen-size ((j, v) ∷ m) = ground (arith, unseen-size m)

unseen-cons : (seen : List ℕ) (k : ℕ) (m : Map ℕ) → unseen (k ∷ seen) m ≤ unseen seen m
unfolding unseen contains
unseen-cons seen k [] = ground arith
unseen-cons seen k ((j, v) ∷ m) = ground (arith, unseen-cons seen k m)

-- Seeing a surface of the index uses one up.
unseen_drop :
    (seen : List ℕ) (k : ℕ) (m : Map ℕ) {v : ℕ}
    → contains seen k ≡ false
    → lookup k m ≡ some v
    → unseen (k ∷ seen) m < unseen seen m
unfolding unseen contains lookup
unseen_drop seen k [] fresh e = ground arith
unseen_drop seen k ((j, w) ∷ m) {v} fresh e =
    ground (arith, unseen-cons seen k m, unseen_drop seen k m {v = v} fresh)

indexed :
    (s : State) (cur : ℕ) {rec : SubsurfaceRec}
    → subsurface_of s cur ≡ some rec
    → (sub : ℕ) × (lookup cur s.surface_subsurface ≡ some sub)
unfolding subsurface_of
indexed s cur e = elim (Option-cases (lookup cur s.surface_subsurface)) [
  | inl gone ↦ ground arith
  | inr (sub, found) ↦ (sub, found)
]

walk_ends :
    (s : State) (fuel sub_id : ℕ) (seen : List ℕ) (cur : ℕ) (ox oy : ℤ)
    → unseen seen s.surface_subsurface < fuel
    → walk s fuel sub_id seen cur ox oy ≢ out_of_fuel
unfolding walk
walk_ends s zero sub_id seen cur ox oy h = ground arith
walk_ends s (suc fuel) sub_id seen cur ox oy h = elim (Option-cases (subsurface_of s cur)) [
  | inl gone ↦ ground arith
  | inr (rec, found) ↦
      let (sub, there) = indexed s cur found in
      elim (Bool-cases (contains seen cur)) [
        | inl old ↦ ground arith
        | inr new ↦
            let drop = unseen_drop seen cur s.surface_subsurface new there in
            let rest =
              walk_ends s fuel sub_id (cur ∷ seen) rec.parent (ox +i32 rec.x) (oy +i32 rec.y)
                (omega arith) in
            elim (Option-cases (window_for_surface s rec.parent)) [
              | inl above ↦ ground arith
              | inr (w, root) ↦ ground arith
            ]
      ]
]

-- The walk of `resolve_subsurface` always ends, for every parent relation that clients set up:
-- the steps given, one for each subsurface and one more, are enough.
pub resolve_ends : (s : State) (surface : ℕ) → resolve_walk s surface ≢ out_of_fuel
unfolding resolve_walk
resolve_ends s surface = elim (Option-cases (subsurface_of s surface)) [
  | inl gone ↦ ground arith
  | inr (leaf, found) ↦
      let few = unseen-size s.surface_subsurface in
      ground (
        arith,
        walk_ends s (suc (size s.surface_subsurface)) leaf.sub_id [] surface (pos 0) (pos 0)
            (omega arith),
      )
]

-- The parents, n at most, up to a surface with a window, and the positions added up.
unfoldable pub climb : State → ℕ → ℕ → ℤ → ℤ → Option (ℕ × ℤ × ℤ)
climb s zero cur ox oy = none
climb s (suc n) cur ox oy = elim (subsurface_of s cur) [
  | none ↦ none
  | some rec ↦
      let above = climb s n rec.parent (ox +i32 rec.x) (oy +i32 rec.y) in
      elim (window_for_surface s rec.parent) [
        | some w ↦ some (w, ox +i32 rec.x, oy +i32 rec.y)
        | none ↦ above
      ]
]

walk-climb :
    (s : State) (fuel sub_id : ℕ) (seen : List ℕ) (cur : ℕ) (ox oy : ℤ) {w : ℕ} {x y : ℤ} {id : ℕ}
    → walk s fuel sub_id seen cur ox oy ≡ done (some (w, x, y, id))
    → (climb s fuel cur ox oy ≡ some (w, x, y)) × (id ≡ sub_id)
unfolding walk climb
walk-climb s zero sub_id seen cur ox oy e = ground arith
walk-climb s (suc fuel) sub_id seen cur ox oy {w} {x} {y} {id} e =
    elim (Option-cases (subsurface_of s cur)) [
      | inl gone ↦ ground arith
      | inr (rec, found) ↦ ground (
        arith,
        walk-climb s fuel sub_id (cur ∷ seen) rec.parent (ox +i32 rec.x) (oy +i32 rec.y) {w = w}
            {x = x} {y = y} {id = id},
      )
    ]

-- What `resolve_subsurface` gives is the nearest window up the parents, with the positions of the
-- subsurfaces on the way added up, and the id of the subsurface asked for.
pub resolve_root :
    (s : State) (surface : ℕ) (w : ℕ) (x y : ℤ) (id : ℕ)
    → resolve_subsurface s surface ≡ some (w, x, y, id)
    → (leaf : SubsurfaceRec) × (subsurface_of s surface ≡ some leaf)
      × (id ≡ leaf.sub_id)
      × (climb s (suc (size s.surface_subsurface)) surface (pos 0) (pos 0) ≡ some (w, x, y))
unfolding resolve_subsurface resolve_walk
resolve_root s surface w x y id e = elim (Option-cases (subsurface_of s surface)) [
  | inl gone ↦ ground arith
  | inr (leaf, found) ↦
      let (up, same) =
        walk-climb s (suc (size s.surface_subsurface)) leaf.sub_id [] surface (pos 0) (pos 0)
          {w = w} {x = x} {y = y} {id = id} (ground arith) in
      (leaf, found, same, up)
]
