-- ===== src/Base/Map.antt =====
-- Maps from numbers, for `HashMap` and `BTreeMap`, as association lists.
use Prim.Native.Nat.{ℕ, suc}
use mathlib.Core.Path.{◌≡◌, refl, ap}
use mathlib.Core.Logic.{inl, inr}
use mathlib.Core.Bool.{Bool, true, false, ◌||◌}
use mathlib.Core.Option
use mathlib.Core.Option.{Option, none, some}
use mathlib.Core.List.{List, [], ◌∷◌}
use native.Mathlib.Omega.{arith}
use wayland_macos.Base.Tests.{if◌then◌else◌, ◌==◌, Bool-cases}

abbrev pub Map {ℓ} : Type ℓ → Type ℓ
Map V = List (ℕ × V)

module _ {ℓ} {V : Type ℓ} where
  -- `get`.
  unfoldable pub lookup : ℕ → Map V → Option V
  lookup k [] = none
  lookup k ((j, v) ∷ m) = if j == k then some v else lookup k m

  unfoldable pub insert : ℕ → V → Map V → Map V
  insert k v [] = (k, v) ∷ []
  insert k v ((j, w) ∷ m) = if j == k then (j, v) ∷ m else (j, w) ∷ insert k v m

  unfoldable pub remove : ℕ → Map V → Map V
  remove k [] = []
  remove k ((j, v) ∷ m) = if j == k then remove k m else (j, v) ∷ remove k m

  -- `get_mut`, and an assignment through the reference.
  unfoldable pub modify : ℕ → (V → V) → Map V → Map V
  modify k f [] = []
  modify k f ((j, v) ∷ m) = if j == k then (j, f v) ∷ m else (j, v) ∷ modify k f m

  -- `retain` on the values.
  unfoldable pub retain_values : (V → Bool) → Map V → Map V
  retain_values p [] = []
  retain_values p ((j, v) ∷ m) = if p v then (j, v) ∷ retain_values p m else retain_values p m

  -- `iter().any`.
  unfoldable pub any_entry : (ℕ → V → Bool) → Map V → Bool
  any_entry p [] = false
  any_entry p ((j, v) ∷ m) = p j v || any_entry p m

  -- `values().find`, with the key.
  unfoldable pub find_entry : (V → Bool) → Map V → Option (ℕ × V)
  find_entry p [] = none
  find_entry p ((j, v) ∷ m) = if p v then some (j, v) else find_entry p m

  unfoldable pub size : Map V → ℕ
  size [] = 0
  size (e ∷ m) = suc (size m)

  -- No key stands twice.
  abbrev pub IsMap : Map V → Type ℓ
  IsMap [] = Unit
  IsMap ((j, v) ∷ m) = (lookup j m ≡ none) × IsMap m

  pub lookup-nil : (k : ℕ) → lookup k [] ≡ none
  unfolding lookup
  lookup-nil k = refl

  pub lookup-insert :
      (j k : ℕ) (v : V) (m : Map V)
      → lookup j (insert k v m) ≡ (if k == j then some v else lookup j m)
  unfolding lookup insert
  lookup-insert j k v [] = refl
  lookup-insert j k v ((i, w) ∷ m) = ground (arith, lookup-insert j k v m)

  pub lookup-remove :
      (j k : ℕ) (m : Map V) → lookup j (remove k m) ≡ (if k == j then none else lookup j m)
  unfolding lookup remove
  lookup-remove j k [] = ground arith
  lookup-remove j k ((i, w) ∷ m) = ground (arith, lookup-remove j k m)

  pub remove-remove : (k : ℕ) (m : Map V) → remove k (remove k m) ≡ remove k m
  unfolding remove
  remove-remove k [] = refl
  remove-remove k ((j, v) ∷ m) = ground (arith, remove-remove k m)

  pub lookup-modify :
      (j k : ℕ) (f : V → V) (m : Map V)
      → lookup j (modify k f m) ≡ (if k == j then Option.map f (lookup j m) else lookup j m)
  unfolding lookup modify
  lookup-modify j k f [] = ground arith
  lookup-modify j k f ((i, w) ∷ m) = ground (arith, lookup-modify j k f m)

  pub lookup-insert_self : (k : ℕ) (v : V) (m : Map V) → lookup k (insert k v m) ≡ some v
  lookup-insert_self k v m = ground (arith, lookup-insert k k v m)

  pub insert-IsMap : (k : ℕ) (v : V) (m : Map V) → IsMap m → IsMap (insert k v m)
  unfolding insert lookup
  insert-IsMap k v [] h = (refl, tt)
  insert-IsMap k v ((j, w) ∷ m) h = ground (arith, insert-IsMap k v m h.1, lookup-insert j k v m)

  pub remove-IsMap : (k : ℕ) (m : Map V) → IsMap m → IsMap (remove k m)
  unfolding remove lookup
  remove-IsMap k [] h = tt
  remove-IsMap k ((j, w) ∷ m) h = ground (arith, remove-IsMap k m h.1, lookup-remove j k m)

  pub modify-IsMap : (k : ℕ) (f : V → V) (m : Map V) → IsMap m → IsMap (modify k f m)
  unfolding modify lookup
  modify-IsMap k f [] h = tt
  modify-IsMap k f ((j, w) ∷ m) h = ground (arith, modify-IsMap k f m h.1, lookup-modify j k f m)

  -- What a key-free filter keeps: an entry exactly if it was there and passes.
  pub lookup-retain_values :
      (j : ℕ) (p : V → Bool) (m : Map V)
      → IsMap m
      → lookup j (retain_values p m)
        ≡ elim (lookup j m) [ none ↦ none | some v ↦ if p v then some v else none ]
  unfolding retain_values lookup
  lookup-retain_values j p [] h = refl
  lookup-retain_values j p ((i, w) ∷ m) h = ground (arith, lookup-retain_values j p m h.1)

  -- A search by value ends at an entry of the map that passes, if there is one.
  pub find_entry-lookup :
      (p : V → Bool) (m : Map V) {k : ℕ} {v : V}
      → IsMap m
      → find_entry p m ≡ some (k, v)
      → (lookup k m ≡ some v) × (p v ≡ true)
  unfolding find_entry lookup
  find_entry-lookup p [] h e = cc
  find_entry-lookup p ((i, w) ∷ m) {k} {v} h e =
      ground (arith, find_entry-lookup p m {k = k} {v = v} h.1)

  pub find_entry-none :
      (p : V → Bool) (m : Map V) (k : ℕ) {v : V}
      → find_entry p m ≡ none
      → lookup k m ≡ some v
      → p v ≡ false
  unfolding find_entry lookup
  find_entry-none p [] k h e = cc
  find_entry-none p ((i, w) ∷ m) k {v} h e =
      ground (arith, find_entry-none p m k {v = v}, λ (e : i ≡ k). e)

  pub any_entry-lookup :
      (p : ℕ → V → Bool) (m : Map V) (k : ℕ) (v : V)
      → lookup k m ≡ some v
      → p k v ≡ true
      → any_entry p m ≡ true
  unfolding any_entry lookup
  any_entry-lookup p [] k v h e = cc
  any_entry-lookup p ((i, w) ∷ m) k v h e =
      ground (arith, any_entry-lookup p m k v, λ (e : i ≡ k). ap p e)

  pub any_entry-witness :
      (p : ℕ → V → Bool) (m : Map V)
      → IsMap m
      → any_entry p m ≡ true
      → (k : ℕ) × (v : V) × (lookup k m ≡ some v) × (p k v ≡ true)
  unfolding any_entry lookup
  any_entry-witness p [] h e = cc
  any_entry-witness p ((i, w) ∷ m) h e = elim (Bool-cases (p i w)) [
    | inl here ↦ (i, w, ground arith, here)
    | inr later ↦
        let (k, v, found, passes) = any_entry-witness p m h.1 (ground arith) in
        (k, v, ground arith, passes)
  ]
