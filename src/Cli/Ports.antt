-- ===== src/Cli/Ports.antt =====
-- The ports that src/cli.rs reads off the paths of its files.
use wayland_macos.Base.{
  ◌≡◌, refl, ap, sym, ◌∙◌, true, none, some, [], ◌∷◌, ◌++◌, arith, codes, Option-cases, inl, inr,
}
use wayland_macos.Mac.{Text}
use wayland_macos.Cli.{
  text_eq, backwards, strip_prefix, strip_suffix, instance_path, pidfile, client_sock, port_of,
}
use mathlib.Core.List.{reverse, reverse-append, reverse-reverse}

pub text_eq_refl : (t : Text) → text_eq t t ≡ true
unfolding text_eq
text_eq_refl [] = refl
text_eq_refl (c ∷ cs) = ground (arith, text_eq_refl cs)

pub text_eq_sound : (t u : Text) → text_eq t u ≡ true → t ≡ u
unfolding text_eq
text_eq_sound [] [] e = refl
text_eq_sound [] (d ∷ ds) e = ground arith
text_eq_sound (c ∷ cs) [] e = ground arith
text_eq_sound (c ∷ cs) (d ∷ ds) e = ground (arith, text_eq_sound cs ds)

pub strip_prefix-append : (s t : Text) → strip_prefix (s ++ t) s ≡ some t
unfolding strip_prefix
strip_prefix-append [] t = refl
strip_prefix-append (c ∷ cs) t = ground (arith, strip_prefix-append cs t)

pub strip_prefix_sound : (t s r : Text) → strip_prefix t s ≡ some r → t ≡ s ++ r
unfolding strip_prefix
strip_prefix_sound t [] r e = ground arith
strip_prefix_sound [] (d ∷ ds) r e = ground arith
strip_prefix_sound (c ∷ cs) (d ∷ ds) r e = ground (arith, strip_prefix_sound cs ds r)

-- A name that ends in `s` loses a suffix as `s` does, read backwards.
strip_suffix-reverse :
    (p s u : Text)
    → strip_suffix (p ++ s) u ≡ backwards (strip_prefix (reverse s ++ reverse p) (reverse u))
unfolding strip_suffix
strip_suffix-reverse p s u =
    ap (λ (t : Text). backwards (strip_prefix t (reverse u))) (reverse-append p s)

pub strip_suffix-append : (p s : Text) → strip_suffix (p ++ s) s ≡ some p
strip_suffix-append p s =
    strip_suffix-reverse p s s
    ∙ ap backwards (strip_prefix-append (reverse s) (reverse p))
    ∙ ap some (reverse-reverse p)

pub strip_suffix_sound : (t s r : Text) → strip_suffix t s ≡ some r → t ≡ r ++ s
unfolding strip_suffix
strip_suffix_sound t s r e = elim (Option-cases (strip_prefix (reverse t) (reverse s))) [
  | inl h ↦ absurd (ground (arith, h))
  | inr (u, h) ↦
      (let back : r ≡ reverse u = ground (arith, h) in
        sym (reverse-reverse t)
        ∙ ap reverse (strip_prefix_sound (reverse t) (reverse s) u h)
        ∙ reverse-append (reverse s) u
        ∙ ap (λ (v : Text). reverse u ++ v) (reverse-reverse s)
        ∙ ap (λ (v : Text). v ++ s) (sym back))
]

-- The path of an instance's file loses what comes before the port.
port_of-instance_path :
    (port rest : Text)
    → port_of (instance_path port rest) ≡ strip_suffix (port ++ rest) (codes "-compositor.pid")
unfolding port_of instance_path
port_of-instance_path port rest = ground (
  arith,
  strip_prefix-append (codes "/tmp/") (codes "wlmac-" ++ (port ++ rest)),
  strip_prefix-append (codes "wlmac-") (port ++ rest),
)

-- The path of a compositor's pidfile gives back the port that it was made from, whatever characters
-- the port has.
pub port_of-compositor : (port : Text) → port_of (pidfile port (codes "compositor")) ≡ some port
unfolding pidfile
port_of-compositor port =
    port_of-instance_path port (codes "-compositor.pid")
    ∙ strip_suffix-append port (codes "-compositor.pid")

-- The paths of the other files of an instance give no port.
pub port_of-waypipe : (port : Text) → port_of (pidfile port (codes "waypipe")) ≡ none
unfolding pidfile strip_prefix
port_of-waypipe port =
    port_of-instance_path port (codes "-waypipe.pid")
    ∙ strip_suffix-reverse port (codes "-waypipe.pid") (codes "-compositor.pid")

pub port_of-socat : (port : Text) → port_of (pidfile port (codes "socat")) ≡ none
unfolding pidfile strip_prefix
port_of-socat port =
    port_of-instance_path port (codes "-socat.pid")
    ∙ strip_suffix-reverse port (codes "-socat.pid") (codes "-compositor.pid")

pub port_of-client_sock : (port : Text) → port_of (client_sock port) ≡ none
unfolding client_sock strip_prefix
port_of-client_sock port =
    port_of-instance_path port (codes "-waypipe-client.sock")
    ∙ strip_suffix-reverse port (codes "-waypipe-client.sock") (codes "-compositor.pid")

-- Only the path of its own pidfile gives a port.
pub port_of_sound :
    (path port : Text) → port_of path ≡ some port → path ≡ pidfile port (codes "compositor")
unfolding port_of pidfile instance_path
port_of_sound path port e = elim (Option-cases (strip_prefix path (codes "/tmp/"))) [
  | inl h ↦ absurd (ground (arith, h))
  | inr (name, h) ↦ elim (Option-cases (strip_prefix name (codes "wlmac-"))) [
    | inl k ↦ absurd (ground (arith, h, k))
    | inr (r, k) ↦
        strip_prefix_sound path (codes "/tmp/") name h
        ∙ ap (λ (t : Text). codes "/tmp/" ++ t) (strip_prefix_sound name (codes "wlmac-") r k)
        ∙ ap (λ (t : Text). codes "/tmp/" ++ (codes "wlmac-" ++ t))
            (strip_suffix_sound r (codes "-compositor.pid") port (ground (arith, h, k)))
  ]
]
