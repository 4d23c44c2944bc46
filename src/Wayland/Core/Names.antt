-- ===== src/Wayland/Core/Names.antt =====
-- `app_display_name` of src/wayland/mod.rs, as the name of a file of an app bundle.
use mathlib.Core.List.{reverse, reverse_aux}
use wayland_macos.Base.{
  ℕ, zero, suc, ◌≤◌, ◌≡◌, refl, ◌≢◌, false, [], ◌∷◌, ◌++◌, map, arith, length, take, Bool-cases,
  inl, inr,
}
use wayland_macos.Mac.{Text}
use wayland_macos.Wayland.Types.{Env}
use wayland_macos.Wayland.Core.{
  trim_start, trim, raw_name, clean_char, is_empty, app_display_name, wayland_macos_name,
}

-- None of the characters that a bundle's name must not have.
abbrev pub IsClean : Text → Type 0
IsClean [] = Unit
IsClean (c ∷ cs) = (c ≢ b'/') × (c ≢ 0) × (c ≢ b':') × IsClean cs

map-IsClean : (t : Text) → IsClean (map clean_char t)
unfolding clean_char
map-IsClean [] = tt
map-IsClean (c ∷ cs) = ground (arith, map-IsClean cs)

take-IsClean : (n : ℕ) (t : Text) → IsClean t → IsClean (take n t)
take-IsClean zero t h = tt
take-IsClean (suc n) [] h = tt
take-IsClean (suc n) (c ∷ cs) h = ground (arith, take-IsClean n cs)

append-IsClean : (t u : Text) → IsClean t → IsClean u → IsClean (t ++ u)
append-IsClean [] u h k = k
append-IsClean (c ∷ cs) u h k = ground (arith, append-IsClean cs u h.3 k)

trim_start-IsClean : (env : Env) (t : Text) → IsClean t → IsClean (trim_start env t)
unfolding trim_start
trim_start-IsClean env [] h = tt
trim_start-IsClean env (c ∷ cs) h = ground (arith, trim_start-IsClean env cs h.3)

reverse_aux-IsClean : (t r : Text) → IsClean t → IsClean r → IsClean (reverse_aux t r)
reverse_aux-IsClean [] r h k = k
reverse_aux-IsClean (c ∷ cs) r h k = reverse_aux-IsClean cs (c ∷ r) h.3 (h.0, h.1, h.2, k)

trim-IsClean : (env : Env) (t : Text) → IsClean t → IsClean (trim env t)
unfolding trim
trim-IsClean env t h =
    reverse_aux-IsClean (trim_start env (reverse (trim_start env t))) []
      (trim_start-IsClean env (reverse (trim_start env t))
        (reverse_aux-IsClean (trim_start env t) [] (trim_start-IsClean env t h) tt))
      tt

take-nonempty : (n : ℕ) (t : Text) → is_empty t ≡ false → is_empty (take (suc n) t) ≡ false
unfolding is_empty
take-nonempty n [] h = h
take-nonempty n (c ∷ cs) h = refl

take-short : (n : ℕ) (t : Text) → length (take n t) ≤ n
take-short zero t = omega arith
take-short (suc n) [] = omega arith
take-short (suc n) (c ∷ cs) = ground (arith, take-short n cs)

-- Whatever a client calls itself, the name is not empty, has at most 64 characters, and none of
-- them is a slash, a NUL or a colon.
pub app_display_name_safe :
    (env : Env) (app_id title : Text)
    → (is_empty (app_display_name env app_id title) ≡ false)
      × (length (app_display_name env app_id title) ≤ 64)
      × IsClean (app_display_name env app_id title)
unfolding app_display_name
app_display_name_safe env app_id title =
    let cleaned = trim env (map clean_char (raw_name env app_id title)) in
    elim (Bool-cases (is_empty cleaned)) [
      | inl e ↦ rw e (refl, omega arith, by_code)
      | inr e ↦ rw e (
        take-nonempty 63 cleaned e,
        take-short 64 cleaned,
        take-IsClean 64 cleaned (trim-IsClean env _ (map-IsClean (raw_name env app_id title))),
      )
    ]
  where
    by_code : IsClean wayland_macos_name
    by_code = ground arith
