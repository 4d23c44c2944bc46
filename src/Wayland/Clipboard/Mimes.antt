-- ===== src/Wayland/Clipboard/Mimes.antt =====
-- The type of text that src/wayland/clipboard.rs asks a client for.
use wayland_macos.Base.{
  ℕ, suc, ◌≤◌, ◌≡◌, refl, sym, subst, ◌∙◌, Bool, true, false, none, some, List, [], ◌∷◌, arith,
  if◌then◌else◌, length, Option-cases, Bool-cases, inl, inr,
}
use wayland_macos.Mac.{Text}
use wayland_macos.Wayland.Input.{text_mimes}
use wayland_macos.Wayland.Clipboard.{find_text, matches, is_text, pick_preferred, pick_text_mime}

-- The place of a type in a list of preferences: behind them is any other text, and behind that
-- what is no text.
unfoldable pub rank : List Text → Text → ℕ
rank [] o = if is_text o then 0 else 1
rank (pref ∷ prefs) o = if matches pref o then 0 else suc (rank prefs o)

pub data IsOffered (m : Text) : List Text → Type 0 where
  first : {rest : List Text} → IsOffered m (m ∷ rest)
  later : {o : Text} {rest : List Text} → IsOffered m rest → IsOffered m (o ∷ rest)

-- No offered type has a place before the given one.
abbrev pub NoneBefore : ℕ → List Text → List Text → Type 0
NoneBefore n prefs [] = Unit
NoneBefore n prefs (o ∷ rest) = (n ≤ rank prefs o) × NoneBefore n prefs rest

abbrev AllFail : (Text → Bool) → List Text → Type 0
AllFail p [] = Unit
AllFail p (o ∷ rest) = (p o ≡ false) × AllFail p rest

find_text-some :
    (p : Text → Bool) (offered : List Text) (m : Text)
    → find_text p offered ≡ some m
    → IsOffered m offered × (p m ≡ true)
unfolding find_text
find_text-some p [] m e = ground arith
find_text-some p (o ∷ rest) m e = elim (Bool-cases (p o)) [
  | inl here ↦
      let same : o ≡ m = ground arith in
      (subst (λ a. IsOffered m (a ∷ rest)) (sym same) first, subst (λ a. p a ≡ true) same here)
  | inr there ↦
      let (found, holds_it) = find_text-some p rest m (ground arith) in (later found, holds_it)
]

find_text-none :
    (p : Text → Bool) (offered : List Text) → find_text p offered ≡ none → AllFail p offered
unfolding find_text
find_text-none p [] e = tt
find_text-none p (o ∷ rest) e = ground (arith, find_text-none p rest)

AllFail-offered :
    (p : Text → Bool) (offered : List Text) (m : Text)
    → AllFail p offered
    → IsOffered m offered
    → p m ≡ false
AllFail-offered p [] m f i = elim i [ ]
AllFail-offered p (o ∷ rest) m f first = f.0
AllFail-offered p (o ∷ rest) m f (later i) = AllFail-offered p rest m f.1 i

NoneBefore-zero : (prefs offered : List Text) → NoneBefore 0 prefs offered
NoneBefore-zero prefs [] = tt
NoneBefore-zero prefs (o ∷ rest) = (omega arith, NoneBefore-zero prefs rest)

NoneBefore-suc :
    (n : ℕ) (pref : Text) (prefs offered : List Text)
    → AllFail (matches pref) offered
    → NoneBefore n prefs offered
    → NoneBefore (suc n) (pref ∷ prefs) offered
unfolding rank
NoneBefore-suc n pref prefs [] f b = tt
NoneBefore-suc n pref prefs (o ∷ rest) f b =
    (simp (f.0) (omega arith), NoneBefore-suc n pref prefs rest f.1 b.1)

pick-last : (offered : List Text) → pick_preferred [] offered ≡ find_text is_text offered
unfolding pick_preferred
pick-last offered = refl

pick-rest :
    (pref : Text) (prefs offered : List Text)
    → find_text (matches pref) offered ≡ none
    → pick_preferred (pref ∷ prefs) offered ≡ pick_preferred prefs offered
unfolding pick_preferred
pick-rest pref prefs offered e = ground arith

pick-first :
    (pref : Text) (prefs offered : List Text) (m : Text)
    → find_text (matches pref) offered ≡ some m
    → pick_preferred (pref ∷ prefs) offered ≡ some m
unfolding pick_preferred
pick-first pref prefs offered m e = ground arith

some-injective : {a b : Text} → some a ≡ some b → a ≡ b
some-injective e = ground arith

pick_preferred-some :
    (prefs offered : List Text) (m : Text)
    → pick_preferred prefs offered ≡ some m
    → IsOffered m offered × (rank prefs m ≤ length prefs) × NoneBefore (rank prefs m) prefs offered
unfolding rank
pick_preferred-some [] offered m e =
    let (found, text) = find_text-some is_text offered m (sym (pick-last offered) ∙ e) in
    (found, ground arith, simp text (NoneBefore-zero [] offered))
pick_preferred-some (pref ∷ prefs) offered m e =
    elim (Option-cases (find_text (matches pref) offered)) [
      | inl nobody ↦
          let (found, bounded, best) =
            pick_preferred-some prefs offered m (sym (pick-rest pref prefs offered nobody) ∙ e) in
          let all_fail = find_text-none (matches pref) offered nobody in
          let fails = AllFail-offered (matches pref) offered m all_fail found in
          (
            found,
            simp fails (omega arith),
            simp fails (NoneBefore-suc (rank prefs m) pref prefs offered all_fail best),
          )
      | inr (m2, it) ↦
          let same : m2 ≡ m = some-injective (sym (pick-first pref prefs offered m2 it) ∙ e) in
          let (found, hit) = find_text-some (matches pref) offered m2 it in
          let hits = subst (λ a. matches pref a ≡ true) same hit in
          (
            subst (λ a. IsOffered a offered) same found,
            simp hits (omega arith),
            simp hits (NoneBefore-zero (pref ∷ prefs) offered),
          )
    ]

pick_preferred-none :
    (prefs offered : List Text)
    → pick_preferred prefs offered ≡ none
    → NoneBefore (suc (length prefs)) prefs offered
unfolding rank
pick_preferred-none [] offered e =
    no_text offered (find_text-none is_text offered (sym (pick-last offered) ∙ e))
  where
    no_text : (l : List Text) → AllFail is_text l → NoneBefore 1 [] l
    no_text [] f = tt
    no_text (o ∷ rest) f = (simp (f.0) (omega arith), no_text rest f.1)
pick_preferred-none (pref ∷ prefs) offered e =
    elim (Option-cases (find_text (matches pref) offered)) [
      | inl nobody ↦
          NoneBefore-suc (suc (length prefs)) pref prefs offered
            (find_text-none (matches pref) offered nobody)
            (pick_preferred-none prefs offered (sym (pick-rest pref prefs offered nobody) ∙ e))
      | inr (m, it) ↦ absurd (ground (arith, pick-first pref prefs offered m it))
    ]

-- The type that a client is asked for is one that it offers, and a text, and no type that it offers
-- has an earlier place among the preferred ones, ignoring case; if none is asked for, none that it
-- offers is a text.
pub pick_text_mime_best :
    (offered : List Text)
    → ((m : Text)
        → pick_text_mime offered ≡ some m
        → IsOffered m offered
          × (rank text_mimes m ≤ length text_mimes)
          × NoneBefore (rank text_mimes m) text_mimes offered)
      × (pick_text_mime offered ≡ none → NoneBefore (suc (length text_mimes)) text_mimes offered)
unfolding pick_text_mime
pick_text_mime_best offered =
    (pick_preferred-some text_mimes offered, pick_preferred-none text_mimes offered)
