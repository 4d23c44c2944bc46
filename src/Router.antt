-- ===== src/Router.antt =====
-- src/router.rs: the multiplexer that routes each command to the host process of the app that owns
-- the window. A host is what its socket was sent, the latest first: a write that fails is ignored
-- there too.
pub mod Hosts
pub mod Private
pub mod Tests
use wayland_macos.Base.{
  ℕ, ◌≡◌, Bool, true, false, not, Option, none, some, List, [], ◌∷◌, if◌then◌else◌, ◌==◌, is_some,
  holds,
}
use wayland_macos.Base.Int.{ℤ, pos}
use wayland_macos.Base.Map.{Map, lookup, insert, remove, modify, any_entry}
use wayland_macos.Ipc.{Downlink, hello, cmd}
use wayland_macos.Mac.{Text, WinCmd}

pub record Router : Type 0 where
  -- What a new host is told of the display.
  pub scale : ℤ
  pub out_w : ℤ
  pub out_h : ℤ
  pub rail : Bool
  pub insets : ℤ × ℤ × ℤ × ℤ
  pub helpers : Map (List Downlink)
  -- The window's app.
  pub win_to_app : Map ℕ
  -- The apps whose host was shut down, the latest first.
  pub ended : List ℕ

-- What the router relies on: `encode_frame` gives a frame, and `spawn_helper` a host that its
-- greeting reached.
pub record Wire : Type 0 where
  pub encodes : Downlink → Bool
  pub spawns : (app_key : ℕ) → Bool

-- The first frame of a new host, which `spawn_helper` writes.
unfoldable pub greeting : Text → Bool → Router → Downlink
greeting name regular r = hello r.scale r.out_w r.out_h r.insets regular name r.rail

unfoldable pub assign_window : Wire → ℕ → ℕ → Text → Bool → Router → Router
unfolding greeting
assign_window wire win_id app_key name regular r =
    if is_some (lookup app_key r.helpers)
    then record r { win_to_app = insert win_id app_key r.win_to_app }
    else if wire.spawns app_key
    then record r {
      helpers = insert app_key (greeting name regular r ∷ []) r.helpers;
      win_to_app = insert win_id app_key r.win_to_app;
    }
    else r

pub data Target : Type 0 where
  window : ℕ → Target
  broadcast : Target

unfoldable pub target : WinCmd → Target
target (WinCmd.set_cursor shape) = broadcast
target (WinCmd.set_cursor_image width height stride x y scale pixels) = broadcast
target WinCmd.hide_cursor = broadcast
target (WinCmd.set_grab none) = broadcast
target (WinCmd.set_grab (some w)) = window w
target (WinCmd.create id width height dst_w dst_h decorated title geom) = window id
target (WinCmd.frame id buf dst_w dst_h color geom) = window id
target (WinCmd.title id text) = window id
target (WinCmd.start_move id) = window id
target (WinCmd.move id x y) = window id
target (WinCmd.start_resize id edges) = window id
target (WinCmd.maximize id on) = window id
target (WinCmd.fullscreen id on) = window id
target (WinCmd.minimize id) = window id
target (WinCmd.set_min_size id width height) = window id
target (WinCmd.set_max_size id width height) = window id
target (WinCmd.activate id) = window id
target (WinCmd.set_modal id modal) = window id
target (WinCmd.set_icon id width height stride pixels) = window id
target (WinCmd.destroy id) = window id
target (WinCmd.create_layer id width height anchor top right bottom left keyboard) = window id
target (WinCmd.create_popup id parent x y x_flip y_flip constraint width height) = window parent
target (WinCmd.sub_frame win sub x y buf dst_w dst_h color) = window win
target (WinCmd.sub_destroy win sub) = window win

-- `write_all` to every host, and to one.
unfoldable pub tell_all : Downlink → Map (List Downlink) → Map (List Downlink)
tell_all d [] = []
tell_all d ((app, told) ∷ m) = (app, d ∷ told) ∷ tell_all d m

abbrev pub tell : Downlink → List Downlink → List Downlink
tell d told = d ∷ told

-- A popup's window belongs to the host of its parent.
abbrev adopt : ℕ → Option ℕ → Map ℕ → Map ℕ
adopt popup none m = m
adopt popup (some app) m = insert popup app m

unfoldable pub register_popup : WinCmd → Map ℕ → Map ℕ
register_popup (WinCmd.create_popup id parent x y x_flip y_flip constraint width height) m =
    adopt id (lookup parent m) m
register_popup _ m = m

unfoldable pub is_destroy : WinCmd → Bool
is_destroy (WinCmd.destroy id) = true
is_destroy _ = false

abbrev pub owns : ℕ → ℕ → ℕ → Bool
owns app win a = a == app

-- The window is gone, and so is its host if it was the last one.
unfoldable pub end_window : ℕ → ℕ → Router → Router
unfolding any_entry
end_window id app r =
    let left = remove id r.win_to_app in
    if any_entry (owns app) left then record r { win_to_app = left } else record r {
      win_to_app = left;
      helpers = remove app r.helpers;
      ended = if is_some (lookup app r.helpers) then app ∷ r.ended else r.ended;
    }

unfoldable pub route_to : Wire → ℕ → WinCmd → Router → Router
unfolding register_popup is_destroy end_window
route_to wire id c r =
    let registered = record r { win_to_app = register_popup c r.win_to_app } in
    if wire.encodes (cmd c)
    then elim (lookup id registered.win_to_app) [
      | none ↦ registered
      | some app ↦
          let told = record registered { helpers = modify app (tell (cmd c)) r.helpers } in
          if is_destroy c then end_window id app told else told
    ]
    else registered

unfoldable pub route : Wire → WinCmd → Router → Router
unfolding target tell_all route_to
route wire c r = elim (target c) [
  | broadcast ↦
      if wire.encodes (cmd c) then record r { helpers = tell_all (cmd c) r.helpers } else r
  | window id ↦ route_to wire id c r
]

unfoldable pub broadcast_insets : Wire → ℤ → ℤ → ℤ → ℤ → Router → Router
unfolding tell_all
broadcast_insets wire top right bottom left r =
    let stored = record r { insets = (top, right, bottom, left) } in
    if wire.encodes (Downlink.insets top right bottom left)
    then record stored { helpers = tell_all (Downlink.insets top right bottom left) r.helpers }
    else stored
