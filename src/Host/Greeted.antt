-- ===== src/Host/Greeted.antt =====
-- What each host of src/router.rs is sent first.
use wayland_macos.Base.{
  ℕ, ◌≡◌, refl, Bool, true, false, ◌&&◌, some, List, [], ◌∷◌, arith, if◌then◌else◌, Option-cases,
  inl, inr,
}
use wayland_macos.Base.Keep.{keep_if, keep_option}
use wayland_macos.Base.Map.{
  Map, lookup, remove, modify, any_entry, lookup-insert, lookup-remove, lookup-modify,
}
use wayland_macos.Base.Int.{ℤ}
use mathlib.Core.Option
use wayland_macos.Ipc.{Downlink, hello, cmd, insets}
use wayland_macos.Mac.{Text, WinCmd}
use wayland_macos.Router.{
  greeting, Router, Wire, assign_window, Target, window, broadcast, target, tell_all, tell,
  register_popup, is_destroy, owns, end_window, route_to, route, broadcast_insets,
}
use wayland_macos.Router.Hosts.{Call, assign, send, push_insets, serve, serve_all}

-- A Hello, and what may follow it.
unfoldable pub is_hello : Downlink → Bool
is_hello (hello scale out_w out_h edges regular name rail) = true
is_hello _ = false

unfoldable pub is_order : Downlink → Bool
is_order (cmd c) = true
is_order (insets top right bottom left) = true
is_order _ = false

-- A log, the latest first, that begins with a Hello and goes on with commands and insets.
unfoldable pub greeted : List Downlink → Bool
unfolding is_hello is_order
greeted [] = false
greeted (d ∷ []) = is_hello d
greeted (d ∷ e ∷ rest) = is_order d && greeted (e ∷ rest)

pub record IsGreeted (r : Router) : Type 0 where
  pub logs :
      (app : ℕ) (told : List Downlink) → lookup app r.helpers ≡ some told → greeted told ≡ true

tell-greeted :
    (d : Downlink) (told : List Downlink)
    → is_order d ≡ true
    → greeted told ≡ true
    → greeted (tell d told) ≡ true
unfolding greeted
tell-greeted d [] o h = ground arith
tell-greeted d (e ∷ rest) o h = ground arith

tell_all-lookup :
    (d : Downlink) (hosts : Map (List Downlink)) (app : ℕ)
    → lookup app (tell_all d hosts) ≡ Option.map (tell d) (lookup app hosts)
unfolding tell_all lookup
tell_all-lookup d [] app = refl
tell_all-lookup d ((a, told) ∷ m) app = ground (arith, tell_all-lookup d m app)

abbrev Greets : Map (List Downlink) → Type 0
Greets hosts = (app : ℕ) (told : List Downlink) → lookup app hosts ≡ some told → greeted told ≡ true

tell_all-Greets :
    (d : Downlink) (hosts : Map (List Downlink))
    → is_order d ≡ true
    → Greets hosts
    → Greets (tell_all d hosts)
tell_all-Greets d hosts o h app told e = elim (Option-cases (lookup app hosts)) [
  | inl gone ↦ ground (arith, tell_all-lookup d hosts app)
  | inr (before, found) ↦
      ground (arith, tell_all-lookup d hosts app, tell-greeted d before o (h app before found))
]

modify-Greets :
    (a : ℕ) (d : Downlink) (hosts : Map (List Downlink))
    → is_order d ≡ true
    → Greets hosts
    → Greets (modify a (tell d) hosts)
modify-Greets a d hosts o h app told e = elim (Option-cases (lookup app hosts)) [
  | inl gone ↦ ground (arith, lookup-modify app a (tell d) hosts)
  | inr (before, found) ↦ ground (
    arith,
    lookup-modify app a (tell d) hosts,
    h app before,
    tell-greeted d before o (h app before found),
  )
]

remove-Greets : (a : ℕ) (hosts : Map (List Downlink)) → Greets hosts → Greets (remove a hosts)
remove-Greets a hosts h app told e = ground (arith, h app told, lookup-remove app a hosts)

end_window-IsGreeted : (id app : ℕ) (r : Router) → IsGreeted r → IsGreeted (end_window id app r)
unfolding end_window
end_window-IsGreeted id app r h =
    keep_if IsGreeted (any_entry (owns app) (remove id r.win_to_app)) (record { logs = h.logs })
      (record { logs = remove-Greets app r.helpers h.logs })

cmd-is_order : (c : WinCmd) → is_order (cmd c) ≡ true
unfolding is_order
cmd-is_order c = refl

insets-is_order : (top right bottom left : ℤ) → is_order (insets top right bottom left) ≡ true
unfolding is_order
insets-is_order top right bottom left = refl

route_to-IsGreeted :
    (wire : Wire) (id : ℕ) (c : WinCmd) (r : Router)
    → IsGreeted r
    → IsGreeted (route_to wire id c r)
unfolding route_to
route_to-IsGreeted wire id c r h =
    keep_if IsGreeted (wire.encodes (cmd c))
      (keep_option IsGreeted (lookup id (register_popup c r.win_to_app)) (record { logs = h.logs })
        (λ app e.
          let told = modify-Greets app (cmd c) r.helpers (cmd-is_order c) h.logs in
          keep_if IsGreeted (is_destroy c) (end_window-IsGreeted id app _ (record { logs = told }))
            (record { logs = told })))
      (record { logs = h.logs })

assign-Greets :
    (wire : Wire) (win app : ℕ) (name : Text) (regular : Bool) (r : Router)
    → Greets r.helpers
    → Greets (assign_window wire win app name regular r).helpers
unfolding assign_window greeted greeting is_hello
assign-Greets wire win app name regular r h a told e =
    ground (arith, h a told, lookup-insert a app (greeting name regular r ∷ []) r.helpers)

route-IsGreeted : (wire : Wire) (c : WinCmd) (r : Router) → IsGreeted r → IsGreeted (route wire c r)
unfolding route
route-IsGreeted wire c r h = go (target c)
  where
    go :
        (t : Target)
        → IsGreeted (elim t [
          | broadcast ↦
              if wire.encodes (cmd c) then record r { helpers = tell_all (cmd c) r.helpers } else r
          | window id ↦ route_to wire id c r
        ])
    go broadcast =
        keep_if IsGreeted (wire.encodes (cmd c))
          (record { logs = tell_all-Greets (cmd c) r.helpers (cmd-is_order c) h.logs }) h
    go (window id) = route_to-IsGreeted wire id c r h

serve-IsGreeted : (wire : Wire) (c : Call) (r : Router) → IsGreeted r → IsGreeted (serve wire c r)
unfolding serve broadcast_insets
serve-IsGreeted wire (assign win app name regular) r h = record {
  logs = assign-Greets wire win app name regular r h.logs;
}
serve-IsGreeted wire (send c) r h = route-IsGreeted wire c r h
serve-IsGreeted wire (push_insets top right bottom left) r h =
    keep_if IsGreeted (wire.encodes (insets top right bottom left))
      (record { logs = tell_all-Greets _ r.helpers (insets-is_order top right bottom left) h.logs })
      (record { logs = h.logs })

-- Whatever the compositor asks of the router: each host was sent one Hello, before all else, and
-- after it only commands and insets.
pub serve_all-IsGreeted :
    (calls : List (Wire × Call)) (r : Router) → IsGreeted r → IsGreeted (serve_all calls r)
unfolding serve_all
serve_all-IsGreeted [] r h = h
serve_all-IsGreeted ((wire, c) ∷ rest) r h = serve_all-IsGreeted rest _ (serve-IsGreeted wire c r h)
