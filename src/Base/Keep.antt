-- ===== src/Base/Keep.antt =====
-- A predicate holds of what a test or an option chooses, if it holds of each choice.
use mathlib.Core.Path.{◌≡◌, refl}
use mathlib.Core.Bool.{Bool, true, false}
use mathlib.Core.Option.{Option, none, some}
use wayland_macos.Base.Tests.{if◌then◌else◌}

module _ {S : Type 0} (P : S → Type 0) where
  pub keep_if : (c : Bool) {a b : S} → P a → P b → P (if c then a else b)
  keep_if true h k = h
  keep_if false h k = k

  pub keep_option :
      {A : Type 0} (o : Option A) {n : S} {f : A → S}
      → P n
      → ((a : A) → o ≡ some a → P (f a))
      → P (elim o [ none ↦ n | some a ↦ f a ])
  keep_option none h k = h
  keep_option (some a) h k = k a refl
