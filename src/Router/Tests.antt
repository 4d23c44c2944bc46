-- ===== src/Router/Tests.antt =====
-- Runs of the multiplexer at concrete inputs.
use wayland_macos.Base.{arith, ◌≡◌, refl, true, false, List, [], ◌∷◌, if◌then◌else◌, ◌==◌}
use wayland_macos.Base.Int.{pos}
use wayland_macos.Base.Map.{lookup, remove, any_entry}
use wayland_macos.Mac.{WinCmd}
use wayland_macos.Router.Private.{route_private}
use wayland_macos.Router.{target, register_popup, Router, Wire, owns, route}
use wayland_macos.Router.Hosts.{
  has_host, IsRouted, Call, assign, send, serve_all, serve_all-IsRouted, destroy_last,
}

-- Everything is encoded and every host starts.
abbrev pub wire : Wire
wire = record { encodes = λ d. true; spawns = λ app. true }

abbrev pub idle : Router
idle = record {
  scale = pos 2;
  out_w = pos 800;
  out_h = pos 600;
  rail = false;
  insets = (pos 0, pos 0, pos 0, pos 0);
  helpers = [];
  win_to_app = [];
  ended = [];
}

idle-IsRouted : IsRouted idle
unfolding lookup
idle-IsRouted = record { hosts = λ w a e. cc }

abbrev pub calls : List (Wire × Call)
calls =
    (wire, assign 1 0 [] true)
    ∷ (wire, send (WinCmd.activate 1))
    ∷ (wire, send (WinCmd.destroy 1))
    ∷ []

serve_all-IsRouted_example : IsRouted (serve_all calls idle)
serve_all-IsRouted_example = serve_all-IsRouted calls idle idle-IsRouted

-- One app with one window.
abbrev busy : Router
busy = record idle { helpers = (0, []) ∷ []; win_to_app = (1, 0) ∷ [] }

destroy_last_example :
    has_host (route wire (WinCmd.destroy 1) busy).helpers 0
    ≡ (if 0 == 0 then any_entry (owns 0) (remove 1 busy.win_to_app) else has_host busy.helpers 0)
unfolding lookup
destroy_last_example = destroy_last wire 1 0 busy refl refl refl 0

-- Two apps with one window each.
abbrev two_apps : Router
two_apps = record idle { helpers = (0, []) ∷ (1, []) ∷ []; win_to_app = (1, 0) ∷ (2, 1) ∷ [] }

route_private_example :
    lookup 1 (route wire (WinCmd.activate 1) two_apps).helpers ≡ lookup 1 two_apps.helpers
unfolding lookup target register_popup
route_private_example = route_private wire (WinCmd.activate 1) two_apps 1 1 refl (λ e. ground arith)
