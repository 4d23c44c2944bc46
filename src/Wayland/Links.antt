-- ===== src/Wayland/Links.antt =====
-- An index from surfaces to shell objects, beside the map of those objects' records: what keeps
-- `popups[&pp_id]` and `layer_surfaces[&ls_id]` of src/wayland/mod.rs from a missing key.
use wayland_macos.Base.{ℕ, ◌≡◌, none, some, arith}
use wayland_macos.Base.Map.{
  Map, lookup, insert, remove, modify, lookup-insert, lookup-remove, lookup-modify,
}

module _ {V : Type 0} (owner : V → ℕ) where
  -- What the index names is there, and is the surface's.
  abbrev pub Links : Map ℕ → Map V → Type 0
  Links index recs =
      (surface object : ℕ)
      → lookup surface index ≡ some object
      → (v : V) × (lookup object recs ≡ some v) × (owner v ≡ surface)

  pub insert-Links :
      (index : Map ℕ) (recs : Map V) (surface object : ℕ) (v : V)
      → Links index recs
      → lookup object recs ≡ none
      → owner v ≡ surface
      → Links (insert surface object index) (insert object v recs)
  insert-Links index recs surface object v h fresh own sid obj e =
      ground
        (arith, h sid obj, lookup-insert sid surface object index, lookup-insert obj object v recs)

  pub remove-Links :
      (index : Map ℕ) (recs : Map V) (object : ℕ) (v : V)
      → Links index recs
      → lookup object recs ≡ some v
      → Links (remove (owner v) index) (remove object recs)
  remove-Links index recs object v h found sid obj e =
      ground (arith, h sid obj, lookup-remove sid (owner v) index, lookup-remove obj object recs)

  pub modify-Links :
      (index : Map ℕ) (recs : Map V) (object : ℕ) (f : V → V)
      → Links index recs
      → ((v : V) → owner (f v) ≡ owner v)
      → Links index (modify object f recs)
  modify-Links index recs object f h same sid obj e =
      let (v, found, own) = h sid obj e in ground (arith, same v, lookup-modify obj object f recs)
