-- ===== src/Wayland/Loop.antt =====
-- `run` of src/wayland/mod.rs: a turn of the event loop, after the wait for the sockets. The input
-- that AppKit queued comes first, then the tick if it is due, then the requests of the clients, in
-- the order of the library, and last the flush. A request that changes nothing is left out.
pub mod Safety
pub mod Serve
use wayland_macos.Base.{
  ℕ, Bool, true, false, not, ◌&&◌, Option, none, some, List, [], ◌∷◌, if◌then◌else◌, Checked,
  crashes, returns, and_then, is_some, or_else,
}
use wayland_macos.Base.Int.{ℤ}
use wayland_macos.Base.Map.{Map, lookup}
use wayland_macos.Mac.{Text, ColorDesc}
use wayland_macos.Wayland.Types.{Env, State}
use wayland_macos.Wayland.Core.{vblank_tick}
use wayland_macos.Wayland.Input.{InputEvent, mac_clipboard, process_input}
use wayland_macos.Wayland.Clipboard
use wayland_macos.Wayland.Clipboard.{set_mac_selection, pick_text_mime}
use wayland_macos.Wayland.Primary
use wayland_macos.Wayland.Primary.{PrimaryEnv, PrimarySelection}
use wayland_macos.Wayland.Icons
use wayland_macos.Wayland.Icons.{IconRec}
use wayland_macos.Wayland.Color
use wayland_macos.Wayland.Color.{ParamAccum, ColorEvent, ColorEnv, Setting, Colors}
use wayland_macos.Wayland.Steps.{Action, step}

-- The whole `State`: what most handlers change, and the fields that a protocol keeps to itself.
pub record World : Type 0 where
  pub state : State
  pub primary : PrimarySelection
  pub icons : Map IconRec
  pub image_descs : Map ColorDesc
  pub param_creators : Map ParamAccum
  pub color_events : List ColorEvent

pub data ColorRequest : Type 0 where
  new_creator : (creator : ℕ) → ColorRequest
  set_parameter : (creator : ℕ) (setting : Setting) → ColorRequest
  create : (creator image : ℕ) → ColorRequest
  get_information : (image info : ℕ) → ColorRequest
  image_gone : (image : ℕ) → ColorRequest
  set_image : (surface image : ℕ) → ColorRequest
  unset_image : (surface : ℕ) → ColorRequest
  get_preferred : (image : ℕ) → ColorRequest
  get_other : ColorRequest

pub data IconRequest : Type 0 where
  create_icon : (icon : ℕ) → IconRequest
  set_name : (icon : ℕ) (name : Text) → IconRequest
  add_buffer : (icon buffer : ℕ) (scale : ℤ) → IconRequest
  icon_gone : (icon : ℕ) → IconRequest

-- `pipe` and `spawned` say whether a pipe can be made and a thread started.
pub data Request : Type 0 where
  core : Env → Action → Request
  add_device : (device : ℕ) → Request
  new_source : (source : ℕ) → Request
  offer_type : (source : ℕ) (mime : Text) → Request
  source_gone : (source : ℕ) → Request
  select : Env → (pipe spawned : Bool) (source : Option ℕ) → Request
  receive : (spawned : Bool) → Request
  primary : PrimaryEnv → Primary.Request → Request
  color : ColorEnv → ColorRequest → Request
  icon : IconRequest → Request
  set_icon : Env → (toplevel : ℕ) (icon : Option ℕ) → Request
  set_shape : (shape : ℕ) → Request
  set_modal : (toplevel : ℕ) (modal : Bool) → Request

abbrev pub put_state : State → World → World
put_state s w = record w { state = s }

abbrev pub colors_of : World → Colors
colors_of w = record {
  image_descs = w.image_descs;
  param_creators = w.param_creators;
  surfaces = w.state.surfaces;
  events = w.color_events;
}

abbrev pub put_colors : Colors → World → World
put_colors c w = record w {
  image_descs = c.image_descs;
  param_creators = c.param_creators;
  color_events = c.events;
  state = record w.state { surfaces = c.surfaces };
}

unfoldable pub color_request : ColorEnv → ColorRequest → Colors → Colors
color_request env (new_creator creator) c = Color.create_parametric_creator creator c
color_request env (set_parameter creator setting) c = Color.set_parameter env creator setting c
color_request env (create creator image) c = Color.create_description env creator image c
color_request env (get_information image info) c = Color.get_information env image info c
color_request env (image_gone image) c = Color.destroy_description image c
color_request env (set_image surface image) c = Color.set_image_description surface image c
color_request env (unset_image surface) c = Color.unset_image_description surface c
color_request env (get_preferred image) c = Color.get_preferred env image c
color_request env get_other c = Color.create_other c

unfoldable pub icon_request : IconRequest → Map IconRec → Map IconRec
icon_request (create_icon i) m = Icons.create_icon i m
icon_request (set_name i name) m = Icons.set_name i name m
icon_request (add_buffer i buffer scale) m = Icons.add_buffer i buffer scale m
icon_request (icon_gone i) m = Icons.destroy_icon i m

-- Whether `pull_text` comes to start its thread.
unfoldable pub starts_reader : (pipe : Bool) → Option ℕ → State → Bool
starts_reader pipe none s = false
starts_reader pipe (some source) s =
    pipe && is_some (pick_text_mime (or_else (lookup source s.clipboard.source_mimes) []))

unfoldable pub serve : Request → World → Checked World
serve (core env a) w = and_then (step env a w.state) (λ s. returns (put_state s w))
serve (add_device device) w = returns (put_state (Clipboard.add_device device w.state) w)
serve (new_source source) w = returns (put_state (Clipboard.create_data_source source w.state) w)
serve (offer_type source mime) w = returns (put_state (Clipboard.offer_type source mime w.state) w)
serve (source_gone source) w = returns (put_state (Clipboard.destroy_source source w.state) w)
serve (select env pipe spawned source) w =
    if starts_reader pipe source w.state && not spawned
    then crashes
    else returns (put_state (Clipboard.set_selection env pipe source w.state) w)
serve (receive spawned) w = if spawned then returns w else crashes
serve (primary env r) w = returns (record w { primary = Primary.request env r w.primary })
serve (color env r) w = returns (put_colors (color_request env r (colors_of w)) w)
serve (icon r) w = returns (record w { icons = icon_request r w.icons })
serve (set_icon env toplevel i) w =
    and_then (Icons.set_icon env toplevel i w.icons w.state) (λ s. returns (put_state s w))
serve (set_shape shape) w = returns (put_state (Icons.set_shape shape w.state) w)
serve (set_modal toplevel modal) w = returns (put_state (Icons.set_modal toplevel modal w.state) w)

unfoldable pub dispatch_clients : List Request → World → Checked World
dispatch_clients [] w = returns w
dispatch_clients (r ∷ rest) w = and_then (serve r w) (dispatch_clients rest)

-- The events that were drained if the pipe woke the loop, and what else a turn finds.
pub record Round : Type 0 where
  pub woken : Option (List InputEvent)
  pub is_due : Bool
  pub requests : List Request

-- The clipboard takes what AppKit says of the pasteboard.
unfoldable pub take_event : Env → InputEvent → State → State
take_event env (mac_clipboard text) s = set_mac_selection env text s
take_event env e s = process_input env e s

unfoldable pub take_events : Env → List InputEvent → State → State
unfolding take_event
take_events env [] s = s
take_events env (e ∷ rest) s = take_events env rest (take_event env e s)

unfoldable pub before_requests : Env → Round → State → State
unfolding take_events
before_requests env r s =
    let s2 : State = elim r.woken [ none ↦ s | some events ↦ take_events env events s ] in
    if r.is_due then vblank_tick env s2 else s2

-- Both selections drop the ends of the pipes that the flush has sent.
unfoldable pub flush_done : World → World
flush_done w = record w {
  state = Clipboard.flush_done w.state;
  primary = Primary.flush_done w.primary;
}

unfoldable pub turn : Env → Round → World → Checked World
unfolding before_requests dispatch_clients flush_done
turn env r w =
    and_then (dispatch_clients r.requests (put_state (before_requests env r w.state) w))
      (λ t. returns (flush_done t))
