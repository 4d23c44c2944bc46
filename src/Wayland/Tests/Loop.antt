-- ===== src/Wayland/Tests/Loop.antt =====
-- Runs of the event loop of src/wayland/mod.rs.
use wayland_macos.Base.{◌≡◌, refl, true, some, [], ◌∷◌, crashes, none, false, codes}
use wayland_macos.Wayland.Input.{mac_clipboard, focus}
use wayland_macos.Base.Map.{lookup, insert}
use wayland_macos.Wayland.Clipboard
use wayland_macos.Wayland.Clipboard.{
  pick_text_mime, pick_preferred, find_text, eq_ignore_ascii_case,
}
use wayland_macos.Wayland.Steps.{Action}
use wayland_macos.Wayland.Loop.{World, Round, Request, dispatch_clients, serve, starts_reader}
use wayland_macos.Wayland.Tests.{empty, env}

abbrev world : World
world = record {
  state = empty;
  primary = record {
    devices = [];
    source_mimes = [];
    active_source = none;
    pending_close = 0;
    events = [];
  };
  icons = [];
  image_descs = [];
  param_creators = [];
  color_events = [];
}

-- A copied text, a focus, a tick, a new surface, and a selection whose text is read by a thread.
abbrev round : Round
round = record {
  woken = some (mac_clipboard (some (codes "text")) ∷ focus 1 true ∷ []);
  is_due = true;
  requests =
      Request.core env (Action.create_surface 4)
      ∷ Request.new_source 7
      ∷ Request.offer_type 7 (codes "text/plain")
      ∷ Request.select env true true (some 7)
      ∷ [];
}

-- Without a thread the process ends at such a selection.
unspawned_crashes :
    dispatch_clients
      (Request.offer_type 7 (codes "text/plain") ∷ Request.select env true false (some 7) ∷ [])
      world
    ≡ crashes
unfolding dispatch_clients serve Clipboard.offer_type starts_reader pick_text_mime pick_preferred
    find_text eq_ignore_ascii_case lookup insert
unspawned_crashes = refl
