-- ===== src/Ipc/Tests.antt =====
-- Runs of src/ipc.rs.
use wayland_macos.Base.{ℕ, ◌≡◌, refl, Option, none, some, List, [], ◌∷◌, arith, take}
use wayland_macos.Ipc.{
  Codec, ok, to_le_bytes, from_le_bytes, encode_frame, closes, write_frames, write_all, write_frame,
  Turn, again, serve_frames, read_frame, read_exact, read_payload, ending_error,
}
use wayland_macos.Ipc.RoundTrip.{Decodes}
use wayland_macos.Ipc.Cut.{IsFrames, no_frames, one_more, handle_all}
use wayland_macos.Ipc.Sent.{frames_arrive}

-- A message of one byte.
abbrev byte : Codec ℕ
byte = record { serialize = λ n. some (n ∷ []); deserialize = one }
  where
    one : List ℕ → Option ℕ
    one (n ∷ []) = some n
    one _ = none

byte-Decodes : Decodes byte
byte-Decodes n bytes e = ground arith

abbrev collect : ℕ → List ℕ → Turn (List ℕ)
collect n l = again (n ∷ l)

two-IsFrames : IsFrames byte (7 ∷ 8 ∷ []) (1 ∷ 0 ∷ 0 ∷ 0 ∷ 7 ∷ 1 ∷ 0 ∷ 0 ∷ 0 ∷ 8 ∷ [])
unfolding encode_frame to_le_bytes
two-IsFrames =
    one_more {frame = 1 ∷ 0 ∷ 0 ∷ 0 ∷ 7 ∷ []} refl
      (one_more {frame = 1 ∷ 0 ∷ 0 ∷ 0 ∷ 8 ∷ []} refl no_frames)

-- The peer takes six bytes: the second message is lost.
frames_arrive_example :
    (k : ℕ) × ((write_frames byte (record { sent = []; room = some 6 }) (7 ∷ 8 ∷ [])).1 ≡ ok tt
      → k ≡ 2)
    × ((s : List ℕ)
        → serve_frames byte collect
            (λ l. l)
            3
            (record {
              bytes = (write_frames byte (record { sent = []; room = some 6 }) (7 ∷ 8 ∷ [])).0.sent;
              ending = closes;
            })
            s
          ≡ handle_all collect (λ l. l) (take k (7 ∷ 8 ∷ [])) s)
frames_arrive_example =
    frames_arrive byte collect (λ l. l) byte-Decodes (7 ∷ 8 ∷ []) _ (some 6) closes 3 two-IsFrames
      (omega arith)

cut_run :
    serve_frames byte collect
      (λ l. l)
      3
      (record {
        bytes = (write_frames byte (record { sent = []; room = some 6 }) (7 ∷ 8 ∷ [])).0.sent;
        ending = closes;
      })
      []
    ≡ 7 ∷ []
unfolding serve_frames write_frames write_frame write_all encode_frame to_le_bytes from_le_bytes
    read_frame read_exact read_payload ending_error
cut_run = refl
