-- ===== src/Wayland/Subsurface/Complete.antt =====
-- The walk of `resolve_subsurface` in src/wayland/mod.rs: its check for cycles, and the window that
-- it looks for.
use wayland_macos.Base.{
  ℕ, zero, suc, ◌≡◌, refl, ◌≢◌, Bool, true, false, none, some, List, [], ◌∷◌, arith, ◌==◌, ==_iff,
  contains, Bool-cases, Option-cases, inl, inr,
}
use mathlib.Core.Path.{subst}
use wayland_macos.Base.Int.{ℤ, pos, ◌+i32◌}
use wayland_macos.Base.Map.{size}
use wayland_macos.Wayland.Types.{State}
use wayland_macos.Wayland.Windows.{window_for_surface}
use wayland_macos.Wayland.Subsurface.{done, subsurface_of, walk, resolve_walk, resolve_subsurface}
use wayland_macos.Wayland.Subsurface.Root.{climb, resolve_ends}

-- Whether the window of a toplevel or popup is met within n parents.
unfoldable reaches : State → ℕ → ℕ → Bool
reaches s zero cur = false
reaches s (suc n) cur = elim (subsurface_of s cur) [
  | none ↦ false
  | some rec ↦
      let above = reaches s n rec.parent in
      elim (window_for_surface s rec.parent) [ some w ↦ true | none ↦ above ]
]

climb-reaches :
    (s : State) (n cur : ℕ) (ox oy : ℤ) {r : ℕ × ℤ × ℤ}
    → climb s n cur ox oy ≡ some r
    → reaches s n cur ≡ true
unfolding climb reaches
climb-reaches s zero cur ox oy e = ground arith
climb-reaches s (suc n) cur ox oy {r} e = elim (Option-cases (subsurface_of s cur)) [
  | inl gone ↦ ground arith
  | inr (rec, found) ↦
      ground (arith, climb-reaches s n rec.parent (ox +i32 rec.x) (oy +i32 rec.y) {r = r})
]

reaches_more : (s : State) (n cur : ℕ) → reaches s (suc n) cur ≡ false → reaches s n cur ≡ false
unfolding reaches
reaches_more s zero cur h = refl
reaches_more s (suc n) cur h = elim (Option-cases (subsurface_of s cur)) [
  | inl gone ↦ ground arith
  | inr (rec, found) ↦ ground (arith, reaches_more s n rec.parent)
]

-- The least number of parents.
least :
    (s : State) (n cur : ℕ)
    → reaches s n cur ≡ true
    → (m : ℕ) × (reaches s (suc m) cur ≡ true) × (reaches s m cur ≡ false)
unfolding reaches
least s zero cur h = cc
least s (suc n) cur h = elim (Bool-cases (reaches s n cur)) [
  | inl less ↦ least s n cur less
  | inr exact ↦ (n, h, exact)
]

walk_arrives :
    (s : State) (fuel sub_id : ℕ) (seen : List ℕ) (cur : ℕ) (ox oy : ℤ) (n : ℕ)
    → reaches s (suc n) cur ≡ true
    → reaches s n cur ≡ false
    → ((k : ℕ) → contains seen k ≡ true → reaches s (suc n) k ≡ false)
    → walk s fuel sub_id seen cur ox oy ≢ done none
unfolding walk reaches contains
walk_arrives s zero sub_id seen cur ox oy n h e far = ground arith
walk_arrives s (suc fuel) sub_id seen cur ox oy zero h e far =
    elim (Option-cases (subsurface_of s cur)) [
      | inl gone ↦ ground arith
      | inr (rec, found) ↦ ground (arith, far cur)
    ]
walk_arrives s (suc fuel) sub_id seen cur ox oy (suc n) h e far =
    elim (Option-cases (subsurface_of s cur)) [
      | inl gone ↦ ground arith
      | inr (rec, found) ↦ elim (Option-cases (window_for_surface s rec.parent)) [
        | inr (w, root) ↦ ground (arith, far cur)
        | inl above ↦
            let up : reaches s (suc n) rec.parent ≡ true = ground arith in
            let near : reaches s n rec.parent ≡ false = ground arith in
            let farther : (k : ℕ) → contains (cur ∷ seen) k ≡ true → reaches s (suc n) k ≡ false =
              λ k c. elim (Bool-cases (cur == k)) [
                | inl here ↦ subst (λ x. reaches s (suc n) x ≡ false) ((==_iff cur k).0 here) e
                | inr later ↦ reaches_more s (suc n) k (far k (ground arith))
              ] in
            ground (
              arith,
              far cur,
              walk_arrives s fuel sub_id (cur ∷ seen) rec.parent (ox +i32 rec.x) (oy +i32 rec.y) n
                  up near farther,
            )
      ]
    ]

reaches-none : (s : State) (n cur : ℕ) → subsurface_of s cur ≡ none → reaches s n cur ≡ false
unfolding reaches
reaches-none s zero cur e = refl
reaches-none s (suc n) cur e = ground arith

walk_none :
    (s : State) (surface n : ℕ) → resolve_walk s surface ≡ done none → reaches s n surface ≡ false
unfolding resolve_walk contains
walk_none s surface n e = elim (Bool-cases (reaches s n surface)) [
  | inr never ↦ never
  | inl some_day ↦ elim (Option-cases (subsurface_of s surface)) [
    | inl gone ↦ reaches-none s n surface gone
    | inr (leaf, found) ↦
        let (m, arrives, before) = least s n surface some_day in
        absurd (
          walk_arrives s (suc (size s.surface_subsurface)) leaf.sub_id [] surface (pos 0) (pos 0) m
            arrives before (λ k c. ground arith) (ground arith))
  ]
]

-- Where `resolve_subsurface` finds no window, there is none: however many parents one follows from
-- the surface, the check for cycles aside, no surface is met whose toplevel or popup has a window.
-- The windows of layer surfaces are not looked for.
pub resolve_none :
    (s : State) (surface n : ℕ)
    → resolve_subsurface s surface ≡ none
    → climb s n surface (pos 0) (pos 0) ≡ none
unfolding resolve_subsurface
resolve_none s surface n e = elim (Option-cases (climb s n surface (pos 0) (pos 0))) [
  | inl never ↦ never
  | inr (r, met) ↦ ground (
    arith,
    resolve_ends s surface,
    walk_none s surface n,
    climb-reaches s n surface (pos 0) (pos 0) {r = r} met,
  )
]
