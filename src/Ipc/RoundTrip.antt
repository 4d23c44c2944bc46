-- ===== src/Ipc/RoundTrip.antt =====
-- The order of frames on a socket of src/ipc.rs.
use wayland_macos.Base.{
  ℕ, ◌<◌, ◌≡◌, ap, ◌∙◌, some, List, ◌++◌, ltb, length, arith, Bool-cases, Option-cases, inl, inr,
  ltb→lt, take-append, drop-append, append_assoc, length-append,
}
use wayland_macos.Ipc.{
  Codec, ok, u32_mod, to_le_bytes, from_le_bytes, encode_frame, Ending, read_exact, read_payload,
  read_frame,
}

-- The law of the encoding: what was encoded is decoded again.
abbrev pub Decodes {ℓ} : {T : Type ℓ} → Codec T → Type ℓ
Decodes {T = T} c =
    (msg : T) (bytes : List ℕ) → c.serialize msg ≡ some bytes → c.deserialize bytes ≡ some msg

pub from-to_le_bytes : (n : ℕ) → n < u32_mod → from_le_bytes (to_le_bytes n) ≡ n
unfolding from_le_bytes to_le_bytes
from-to_le_bytes n h = omega arith

module _ {ℓ} {T : Type ℓ} (c : Codec T) where
  -- The parts of a frame.
  pub encode_frame-parts :
      (msg : T) (frame : List ℕ)
      → encode_frame c msg ≡ ok frame
      → (bytes : List ℕ) × (c.serialize msg ≡ some bytes)
        × (length bytes < u32_mod)
        × (frame ≡ to_le_bytes (length bytes) ++ bytes)
  unfolding encode_frame
  encode_frame-parts msg frame e = elim (Option-cases (c.serialize msg)) [
    | inl failed ↦ ground arith
    | inr (bytes, s) ↦ elim (Bool-cases (ltb (length bytes) u32_mod)) [
      | inl small ↦ (bytes, s, ltb→lt _ _ small, ground arith)
      | inr large ↦ ground arith
    ]
  ]

  read_payload-bytes :
      (msg : T) (bytes rest : List ℕ) (ending : Ending)
      → c.deserialize bytes ≡ some msg
      → read_payload c (length bytes) (record { bytes = bytes ++ rest; ending = ending })
        ≡ (record { bytes = rest; ending = ending }, ok (some msg))
  unfolding read_payload read_exact
  read_payload-bytes msg bytes rest ending d =
      ground (arith, take-append bytes rest, drop-append bytes rest, length-append bytes rest)

  pub read_frame-header :
      (n : ℕ) (tail : List ℕ) (ending : Ending)
      → n < u32_mod
      → read_frame c (record { bytes = to_le_bytes n ++ tail; ending = ending })
        ≡ read_payload c n (record { bytes = tail; ending = ending })
  unfolding read_frame read_exact to_le_bytes
  read_frame-header n tail ending h = ground (arith, from-to_le_bytes n h)

  -- The message of a frame is read off the stream, and no byte more.
  pub read_frame-frame :
      Decodes c
      → (msg : T) (frame rest : List ℕ) (ending : Ending) → encode_frame c msg ≡ ok frame
      → read_frame c (record { bytes = frame ++ rest; ending = ending })
        ≡ (record { bytes = rest; ending = ending }, ok (some msg))
  read_frame-frame law msg frame rest ending e =
      let (bytes, s, small, parts) = encode_frame-parts msg frame e in
      ap (λ f. read_frame c (record { bytes = f ++ rest; ending = ending })) parts
      ∙ ap (λ f. read_frame c (record { bytes = f; ending = ending }))
          (append_assoc (to_le_bytes (length bytes)) bytes rest)
      ∙ read_frame-header (length bytes) (bytes ++ rest) ending small
      ∙ read_payload-bytes msg bytes rest ending (law msg bytes s)
