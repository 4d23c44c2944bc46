-- ===== src/Host/Tests.antt =====
-- Runs of src/host.rs, and of what src/router.rs sends to it.
use wayland_macos.Base.{
  ℕ, zero, ◌≡◌, refl, ◌≤◌, true, false, Option, none, some, List, [], ◌∷◌, arith, length, returns,
}
use wayland_macos.Base.Int.{pos}
use wayland_macos.Base.Map.{lookup}
use wayland_macos.Mac.{WinCmd}
use wayland_macos.Ipc.{Codec, Downlink, hello, cmd, encode_frame, to_le_bytes, closes}
use wayland_macos.Ipc.RoundTrip.{Decodes}
use wayland_macos.Ipc.Cut.{IsFrames, no_frames, one_more}
use wayland_macos.Router.{Router}
use wayland_macos.Router.Tests.{idle}
use wayland_macos.Host.{Host, run_window_host}
use wayland_macos.Host.Greeted.{greeted, is_hello, is_order, IsGreeted}
use wayland_macos.Host.Follow.{oldest_first, commands, host_follows}

idle-IsGreeted : IsGreeted idle
unfolding lookup
idle-IsGreeted = record { logs = λ app told e. cc }

-- An encoding of two kinds of messages.
abbrev short : Codec Downlink
short = record { serialize = write; deserialize = read }
  where
    write : Downlink → Option (List ℕ)
    write
          (hello
            (pos s)
            (pos w)
            (pos h)
            (pos (zero), pos (zero), pos (zero), pos (zero))
            true
            []
            false) =
        some (s ∷ w ∷ h ∷ [])
    write (cmd WinCmd.hide_cursor) = some []
    write _ = none

    read : List ℕ → Option Downlink
    read (s ∷ w ∷ h ∷ []) =
        some (hello (pos s) (pos w) (pos h) (pos 0, pos 0, pos 0, pos 0) true [] false)
    read [] = some (cmd WinCmd.hide_cursor)
    read _ = none

short-Decodes : Decodes short
short-Decodes
      (hello (pos s) (pos w) (pos h) (pos (zero), pos (zero), pos (zero), pos (zero)) true [] false)
      bytes e =
    ground arith
short-Decodes (cmd WinCmd.hide_cursor) bytes e = ground arith
short-Decodes _ bytes e = ground arith

abbrev told : List Downlink
told =
    cmd WinCmd.hide_cursor
    ∷ hello (pos 2) (pos 3) (pos 4) (pos 0, pos 0, pos 0, pos 0) true [] false
    ∷ []

abbrev one_host : Router
one_host = record idle { helpers = (0, told) ∷ [] }

one_host-IsGreeted : IsGreeted one_host
unfolding lookup greeted is_hello is_order
one_host-IsGreeted = record { logs = λ app t e. ground arith }

told-IsFrames : IsFrames short (oldest_first told) (3 ∷ 0 ∷ 0 ∷ 0 ∷ 2 ∷ 3 ∷ 4 ∷ 0 ∷ 0 ∷ 0 ∷ 0 ∷ [])
unfolding encode_frame to_le_bytes oldest_first
told-IsFrames =
    one_more {frame = 3 ∷ 0 ∷ 0 ∷ 0 ∷ 2 ∷ 3 ∷ 4 ∷ []} refl
      (one_more {frame = 0 ∷ 0 ∷ 0 ∷ 0 ∷ []} refl no_frames)

two_told : length (oldest_first told) ≤ 2
unfolding oldest_first
two_told = omega arith

host_follows_example :
    (h : Host) × (run_window_host short 2
        (record { bytes = 3 ∷ 0 ∷ 0 ∷ 0 ∷ 2 ∷ 3 ∷ 4 ∷ 0 ∷ 0 ∷ 0 ∷ 0 ∷ []; ending = closes })
      ≡ returns h)
    × (h.posted ≡ commands (oldest_first told))
unfolding lookup
host_follows_example =
    host_follows short one_host 0 told _ closes 2 short-Decodes one_host-IsGreeted refl
      told-IsFrames two_told
