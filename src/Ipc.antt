-- ===== src/Ipc.antt =====
-- src/ipc.rs: messages between the compositor and a window host, as frames on a socket: a length
-- of four bytes, the lowest first, and the message as `bincode` encodes it.
pub mod RoundTrip
pub mod Cut
pub mod Sent
pub mod Tests
use wayland_macos.Base.{
  ℕ, zero, suc, ◌+◌, ◌-◌, ◌*◌, ◌/◌, ◌%◌, Option, none, some, List, [], ◌∷◌, ◌++◌, if◌then◌else◌,
  ltb, leb, length, take, drop, Bool,
}
use wayland_macos.Base.Int.{ℤ}
use wayland_macos.Mac.{Text, WinCmd}
use wayland_macos.Wayland.Input.{InputEvent}

-- `Downlink`: from the compositor to a window host.
pub data Downlink : Type 0 where
  hello :
      (scale out_w out_h : ℤ) (insets : ℤ × ℤ × ℤ × ℤ) (regular : Bool) (name : Text) (rail : Bool)
      → Downlink
  cmd : WinCmd → Downlink
  insets : (top right bottom left : ℤ) → Downlink
  shutdown : Downlink

-- `Uplink`: from a window host to the compositor.
pub data Uplink : Type 0 where
  ready : Uplink
  input : InputEvent → Uplink

-- `bincode::serialize` and `bincode::deserialize` at one type of messages.
pub record Codec {ℓ} (T : Type ℓ) : Type ℓ where
  pub serialize : T → Option (List ℕ)
  pub deserialize : List ℕ → Option T

-- The kinds of `io::Error` that the code tells apart; `broken` stands for what the socket gives.
pub data IoError : Type 0 where
  invalid_data unexpected_eof broken : IoError

pub data IoResult {ℓ} (A : Type ℓ) : Type ℓ where
  ok : A → IoResult A
  err : IoError → IoResult A

abbrev pub u32_mod : ℕ
u32_mod = 4294967296

unfoldable pub to_le_bytes : ℕ → List ℕ
to_le_bytes n = (n % 256) ∷ (n / 256 % 256) ∷ (n / 65536 % 256) ∷ (n / 16777216 % 256) ∷ []

unfoldable pub from_le_bytes : List ℕ → ℕ
from_le_bytes [] = 0
from_le_bytes (b ∷ bs) = b + 256 * from_le_bytes bs

module _ {ℓ} {T : Type ℓ} (c : Codec T) where
  unfoldable pub encode_frame : T → IoResult (List ℕ)
  unfolding to_le_bytes
  encode_frame msg = elim (c.serialize msg) [
    | none ↦ err invalid_data
    | some bytes ↦
        if ltb (length bytes) u32_mod
        then ok (to_le_bytes (length bytes) ++ bytes)
        else err invalid_data
  ]

-- The writing end of a socket: what was sent, and, if the peer is going to vanish, the number of
-- bytes that it still takes.
pub record Writer : Type 0 where
  pub sent : List ℕ
  pub room : Option ℕ

-- `write_all`; `flush` of a socket does nothing.
unfoldable pub write_all : List ℕ → Writer → Writer × IoResult (Unit {0})
write_all bytes w = elim w.room [
  | none ↦ (record w { sent = w.sent ++ bytes }, ok tt)
  | some n ↦
      if leb (length bytes) n
      then (record { sent = w.sent ++ bytes; room = some (n - length bytes) }, ok tt)
      else (record { sent = w.sent ++ take n bytes; room = some 0 }, err broken)
]

-- The reading end: the bytes to come, and whether the stream then ends or breaks.
pub data Ending : Type 0 where
  closes breaks : Ending

pub record Reader : Type 0 where
  pub bytes : List ℕ
  pub ending : Ending

unfoldable pub ending_error : Ending → IoError
ending_error closes = unexpected_eof
ending_error breaks = broken

-- `read_exact`: a short stream is used up.
unfoldable pub read_exact : ℕ → Reader → Reader × IoResult (List ℕ)
unfolding ending_error
read_exact n r =
    if leb n (length r.bytes)
    then (record r { bytes = drop n r.bytes }, ok (take n r.bytes))
    else (record r { bytes = [] }, err (ending_error r.ending))

module _ {ℓ} {T : Type ℓ} (c : Codec T) where
  unfoldable pub write_frame : Writer → T → Writer × IoResult (Unit {0})
  unfolding encode_frame write_all
  write_frame w msg = elim (encode_frame c msg) [
    | err e ↦ (w, err e)
    | ok frame ↦ write_all frame w
  ]

  -- The payload behind a length.
  unfoldable pub read_payload : ℕ → Reader → Reader × IoResult (Option T)
  unfolding read_exact
  read_payload len r =
      let (rest, got) = read_exact len r in
      elim got [
        | err e ↦ (rest, err e)
        | ok buf ↦ elim (c.deserialize buf) [
          | none ↦ (rest, err invalid_data)
          | some msg ↦ (rest, ok (some msg))
        ]
      ]

  unfoldable pub read_frame : Reader → Reader × IoResult (Option T)
  unfolding read_exact read_payload from_le_bytes
  read_frame r =
      let (rest, got) = read_exact 4 r in
      elim got [
        | err unexpected_eof ↦ (rest, ok none)
        | err e ↦ (rest, err e)
        | ok len_buf ↦ read_payload (from_le_bytes len_buf) rest
      ]

  -- `for msg in ...`, up to the first error.
  unfoldable pub write_frames : Writer → List T → Writer × IoResult (Unit {0})
  unfolding write_frame
  write_frames w [] = (w, ok tt)
  write_frames w (msg ∷ rest) =
      let (w2, done) = write_frame w msg in
      elim done [ err e ↦ (w2, err e) | ok _ ↦ write_frames w2 rest ]

-- What a reader's loop does after a message.
pub data Turn {ℓ} (S : Type ℓ) : Type ℓ where
  again : S → Turn S
  stop : S → Turn S

-- A reader's loop, on fuel: `at_end` is what follows the end of the stream, or an error.
module _ {ℓ κ} {T : Type ℓ} {S : Type κ} (c : Codec T) (handle : T → S → Turn S)
    (at_end : S → S) where
  unfoldable pub serve_frames : ℕ → Reader → S → S
  unfolding read_frame
  serve_frames zero r s = s
  serve_frames (suc fuel) r s =
      let (rest, got) = read_frame c r in
      elim got [
        | err e ↦ at_end s
        | ok none ↦ at_end s
        | ok (some msg) ↦ elim (handle msg s) [ again t ↦ serve_frames fuel rest t | stop t ↦ t ]
      ]
