-- ===== src/Router/Hosts.antt =====
-- The windows that src/router.rs knows, and the life of the hosts.
use wayland_macos.Base.{
  ℕ, ◌≡◌, refl, Bool, true, some, List, [], ◌∷◌, arith, if◌then◌else◌, ◌==◌, is_some, Bool-cases,
  Option-cases, inl, inr,
}
use mathlib.Core.Path.{◌∙◌}
use wayland_macos.Base.Keep.{keep_if, keep_option}
use wayland_macos.Base.Int.{ℤ}
use wayland_macos.Base.Map.{
  Map, lookup, remove, modify, any_entry, lookup-insert, lookup-remove, lookup-modify,
  any_entry-lookup,
}
use wayland_macos.Ipc.{Downlink, cmd}
use wayland_macos.Mac.{Text, WinCmd}
use wayland_macos.Router.{
  greeting, Router, Wire, assign_window, Target, window, broadcast, target, tell_all, tell,
  register_popup, is_destroy, owns, end_window, route_to, route, broadcast_insets,
}

-- Whether an app has a host.
abbrev pub has_host : Map (List Downlink) → ℕ → Bool
has_host hosts app = is_some (lookup app hosts)

abbrev pub Routed : Map ℕ → Map (List Downlink) → Type 0
Routed wins hosts = (w app : ℕ) → lookup w wins ≡ some app → has_host hosts app ≡ true

tell_all-host :
    (d : Downlink) (hosts : Map (List Downlink)) (app : ℕ)
    → has_host (tell_all d hosts) app ≡ has_host hosts app
unfolding tell_all lookup
tell_all-host d [] app = refl
tell_all-host d ((a, told) ∷ m) app = ground (arith, tell_all-host d m app)

modify-host :
    (a : ℕ) (d : Downlink) (hosts : Map (List Downlink)) (app : ℕ)
    → has_host (modify a (tell d) hosts) app ≡ has_host hosts app
modify-host a d hosts app = ground (arith, lookup-modify app a (tell d) hosts)

pub assign-Routed :
    (wire : Wire) (win app : ℕ) (name : Text) (regular : Bool) (r : Router)
    → Routed r.win_to_app r.helpers
    → Routed
        (assign_window wire win app name regular r).win_to_app
        (assign_window wire win app name regular r).helpers
unfolding assign_window
assign-Routed wire win app name regular r h w a e = ground (
  arith,
  h w a,
  lookup-insert w win app r.win_to_app,
  lookup-insert a app (greeting name regular r ∷ []) r.helpers,
)

register-Routed :
    (c : WinCmd) (wins : Map ℕ) (hosts : Map (List Downlink))
    → Routed wins hosts
    → Routed (register_popup c wins) hosts
unfolding register_popup
register-Routed (WinCmd.create_popup id parent x y x_flip y_flip constraint width height) wins hosts
      h w a e =
    elim (Option-cases (lookup parent wins)) [
      | inl gone ↦ ground (arith, h w a)
      | inr (app, found) ↦ ground (arith, h w a, h parent app, lookup-insert w id app wins)
    ]
register-Routed c wins hosts h w a e = h w a e

-- What is left after a window's end: the app's host is there exactly if another window of it is.
end_window-Routed :
    (id app : ℕ) (r : Router)
    → Routed r.win_to_app r.helpers
    → Routed (end_window id app r).win_to_app (end_window id app r).helpers
unfolding end_window
end_window-Routed id app r h w a e =
    elim (Bool-cases (any_entry (owns app) (remove id r.win_to_app))) [
      | inl some_left ↦ ground (arith, h w a, lookup-remove w id r.win_to_app)
      | inr last ↦ ground (
        arith,
        h w a,
        lookup-remove w id r.win_to_app,
        lookup-remove a app r.helpers,
        any_entry-lookup (owns app) (remove id r.win_to_app) w a,
      )
    ]

-- Each window that the router knows has a host.
pub record IsRouted (r : Router) : Type 0 where
  pub hosts : Routed r.win_to_app r.helpers

route_to-IsRouted :
    (wire : Wire) (id : ℕ) (c : WinCmd) (r : Router) → IsRouted r → IsRouted (route_to wire id c r)
unfolding route_to
route_to-IsRouted wire id c r h =
    let registered = register-Routed c r.win_to_app r.helpers h.hosts in
    keep_if IsRouted (wire.encodes (cmd c))
      (keep_option IsRouted (lookup id (register_popup c r.win_to_app))
        (record { hosts = registered })
        (λ app e.
          let told : Routed (register_popup c r.win_to_app) (modify app (tell (cmd c)) r.helpers) =
            λ w a f. modify-host app (cmd c) r.helpers a ∙ registered w a f in
          keep_if IsRouted (is_destroy c) (record { hosts = end_window-Routed id app _ told })
            (record { hosts = told })))
      (record { hosts = registered })

tell_all-IsRouted :
    (wire : Wire) (d : Downlink) (r : Router)
    → IsRouted r
    → IsRouted (record r { helpers = tell_all d r.helpers })
tell_all-IsRouted wire d r h = record {
  hosts = λ w a e. tell_all-host d r.helpers a ∙ h.hosts w a e;
}

pub route-IsRouted :
    (wire : Wire) (c : WinCmd) (r : Router) → IsRouted r → IsRouted (route wire c r)
unfolding route
route-IsRouted wire c r h = go (target c)
  where
    go :
        (t : Target)
        → IsRouted (elim t [
          | broadcast ↦
              if wire.encodes (cmd c) then record r { helpers = tell_all (cmd c) r.helpers } else r
          | window id ↦ route_to wire id c r
        ])
    go broadcast = keep_if IsRouted (wire.encodes (cmd c)) (tell_all-IsRouted wire (cmd c) r h) h
    go (window id) = route_to-IsRouted wire id c r h

-- What the compositor asks of the router: its three entry points.
pub data Call : Type 0 where
  assign : (win app : ℕ) (name : Text) (regular : Bool) → Call
  send : WinCmd → Call
  push_insets : (top right bottom left : ℤ) → Call

unfoldable pub serve : Wire → Call → Router → Router
serve wire (assign win app name regular) r = assign_window wire win app name regular r
serve wire (send c) r = route wire c r
serve wire (push_insets top right bottom left) r = broadcast_insets wire top right bottom left r

unfoldable pub serve_all : List (Wire × Call) → Router → Router
unfolding serve
serve_all [] r = r
serve_all ((wire, c) ∷ rest) r = serve_all rest (serve wire c r)

serve-IsRouted : (wire : Wire) (c : Call) (r : Router) → IsRouted r → IsRouted (serve wire c r)
unfolding serve broadcast_insets
serve-IsRouted wire (assign win app name regular) r h = record {
  hosts = assign-Routed wire win app name regular r h.hosts;
}
serve-IsRouted wire (send c) r h = route-IsRouted wire c r h
serve-IsRouted wire (push_insets top right bottom left) r h =
    keep_if IsRouted (wire.encodes (Downlink.insets top right bottom left))
      (tell_all-IsRouted wire _ (record r { insets = (top, right, bottom, left) })
        (record { hosts = h.hosts }))
      (record { hosts = h.hosts })

-- Whatever the compositor asks of the router, in whatever order, and whether frames can be encoded
-- and hosts spawned or not: each window that is registered with an app has that app's host to go
-- to.
pub serve_all-IsRouted :
    (calls : List (Wire × Call)) (r : Router) → IsRouted r → IsRouted (serve_all calls r)
unfolding serve_all
serve_all-IsRouted [] r h = h
serve_all-IsRouted ((wire, c) ∷ rest) r h = serve_all-IsRouted rest _ (serve-IsRouted wire c r h)

-- A `Destroy` that can be sent, for a window of an app that has a host, ends that host exactly if
-- no other window is the app's, and no other app's host.
pub destroy_last :
    (wire : Wire) (id app : ℕ) (r : Router)
    → wire.encodes (cmd (WinCmd.destroy id)) ≡ true
    → lookup id r.win_to_app ≡ some app
    → has_host r.helpers app ≡ true
    → (a : ℕ)
    → has_host (route wire (WinCmd.destroy id) r).helpers a
      ≡ (if a == app then any_entry (owns app) (remove id r.win_to_app) else has_host r.helpers a)
unfolding route route_to end_window target register_popup is_destroy
destroy_last wire id app r ok known hosted a =
    elim (Bool-cases (any_entry (owns app) (remove id r.win_to_app))) [
      | inl others ↦ ground (arith, modify-host app (cmd (WinCmd.destroy id)) r.helpers a)
      | inr last ↦ ground (
        arith,
        modify-host app (cmd (WinCmd.destroy id)) r.helpers a,
        lookup-remove a app (modify app (tell (cmd (WinCmd.destroy id))) r.helpers),
      )
    ]
