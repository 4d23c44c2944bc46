-- ===== src/Host.antt =====
-- src/host.rs: the process that hosts the windows of one app, and the thread of src/router.rs that
-- reads what it sends back. AppKit's loop and the threads are not modelled: a command is posted by
-- adding it to a list.
pub mod Greeted
pub mod Follow
pub mod Tests
use wayland_macos.Base.{
  ℕ, Bool, true, false, Option, none, some, List, [], ◌∷◌, ◌++◌, map, if◌then◌else◌, Checked,
  crashes, returns, and_then,
}
use wayland_macos.Base.Int.{ℤ}
use wayland_macos.Mac.{Text, WinCmd}
use wayland_macos.Wayland.Input.{InputEvent}
use wayland_macos.Bus.{set_scale, set_output_size, set_reserved_insets}
use wayland_macos.Ipc.{
  Codec, Downlink, hello, cmd, insets, shutdown, Uplink, ready, input, IoResult, ok, err, Writer,
  Reader, write_frame, write_frames, read_frame, Turn, again, stop, serve_frames,
}

pub record Host : Type 0 where
  pub scale : ℤ
  pub output : ℤ × ℤ
  pub reserved : ℤ × ℤ × ℤ × ℤ
  pub rail : Bool
  pub regular : Bool
  pub name : Text
  -- The commands that were posted to AppKit's thread, in order.
  pub posted : List WinCmd
  pub exited : Bool

-- The first frame must be a Hello.
unfoldable pub greet : Downlink → Checked Host
unfolding set_scale set_output_size set_reserved_insets
greet (hello scale out_w out_h (top, right, bottom, left) regular name rail) = returns (record {
  scale = set_scale scale;
  output = set_output_size out_w out_h;
  reserved = set_reserved_insets top right bottom left;
  rail = rail;
  regular = regular;
  name = name;
  posted = [];
  exited = false;
})
greet _ = crashes

unfoldable pub exit : Host → Host
exit h = record h { exited = true }

-- One turn of the reader thread, and its end.
unfoldable pub host_turn : Downlink → Host → Turn Host
unfolding exit set_reserved_insets
host_turn (cmd c) h = again (record h { posted = h.posted ++ (c ∷ []) })
host_turn (insets top right bottom left) h =
    again (record h { reserved = set_reserved_insets top right bottom left })
host_turn shutdown h = stop (exit h)
host_turn (hello scale out_w out_h edges regular name rail) h = again h

unfoldable pub run_window_host : Codec Downlink → ℕ → Reader → Checked Host
unfolding read_frame serve_frames greet host_turn exit
run_window_host c fuel r =
    let (rest, got) = read_frame c r in
    elim got [
      | err e ↦ crashes
      | ok none ↦ crashes
      | ok (some first) ↦
          and_then (greet first) (λ h. returns (serve_frames c host_turn exit fuel rest h))
    ]

-- The forwarder thread: the batches that it drains from the bus, up to the first error. The result
-- of the first write is ignored.
unfoldable pub forward_batches : Codec Uplink → Writer → List (List InputEvent) → Writer
unfolding write_frames
forward_batches c w [] = w
forward_batches c w (batch ∷ rest) =
    let (w2, done) = write_frames c w (map input batch) in
    elim done [ err e ↦ w2 | ok _ ↦ forward_batches c w2 rest ]

unfoldable pub forward : Codec Uplink → Writer → List (List InputEvent) → Writer
unfolding write_frame forward_batches
forward c w batches = forward_batches c (write_frame c w ready).0 batches

-- One turn of the thread `router-uplink`: an event goes to the compositor's bus.
unfoldable pub uplink_turn : Uplink → List InputEvent → Turn (List InputEvent)
uplink_turn (input e) queue = again (queue ++ (e ∷ []))
uplink_turn ready queue = again queue

unfoldable pub uplink_reader : Codec Uplink → ℕ → Reader → List InputEvent → List InputEvent
unfolding serve_frames uplink_turn
uplink_reader c fuel r queue = serve_frames c uplink_turn (λ q. q) fuel r queue
