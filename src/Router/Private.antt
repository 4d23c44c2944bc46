-- ===== src/Router/Private.antt =====
-- The host that a command for one window goes to in src/router.rs.
use wayland_macos.Base.{ℕ, ◌≡◌, ◌≢◌, some, arith, Bool-cases, Option-cases, inl, inr}
use wayland_macos.Base.Map.{lookup, remove, modify, any_entry, lookup-remove, lookup-modify}
use wayland_macos.Ipc.{cmd}
use wayland_macos.Mac.{WinCmd}
use wayland_macos.Router.{
  Router, Wire, window, target, tell, register_popup, owns, end_window, route_to, route,
}

end_window-lookup :
    (id app a : ℕ) (r : Router)
    → app ≢ a
    → lookup a (end_window id app r).helpers ≡ lookup a r.helpers
unfolding end_window
end_window-lookup id app a r other =
    elim (Bool-cases (any_entry (owns app) (remove id r.win_to_app))) [
      | inl e ↦ ground arith
      | inr e ↦ ground (arith, lookup-remove a app r.helpers)
    ]

route_to-lookup :
    (wire : Wire) (id a : ℕ) (c : WinCmd) (r : Router)
    → lookup id (register_popup c r.win_to_app) ≢ some a
    → lookup a (route_to wire id c r).helpers ≡ lookup a r.helpers
unfolding route_to
route_to-lookup wire id a c r other =
    elim (Option-cases (lookup id (register_popup c r.win_to_app))) [
      | inl gone ↦ ground arith
      | inr (app, owned) ↦
          let differs : app ≢ a = λ e. other (ground arith) in
          ground (
            arith,
            lookup-modify a app (tell (cmd c)) r.helpers,
            end_window-lookup id app a
                (record r {
                  win_to_app = register_popup c r.win_to_app;
                  helpers = modify app (tell (cmd c)) r.helpers;
                })
                differs,
          )
    ]

-- A command that is for a window is written to no host but that of the window's app, and ends no
-- other host: any other one has been sent what it had been sent before, and lives as it did.
pub route_private :
    (wire : Wire) (c : WinCmd) (r : Router) (id a : ℕ)
    → target c ≡ window id
    → lookup id (register_popup c r.win_to_app) ≢ some a
    → lookup a (route wire c r).helpers ≡ lookup a r.helpers
unfolding route
route_private wire c r id a for_window other =
    rw (route, for_window) (route_to-lookup wire id a c r other)
