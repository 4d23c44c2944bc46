-- ===== src/Ipc/Cut.antt =====
-- A socket of src/ipc.rs that ends early.
use wayland_macos.Base.{
  ℕ, zero, suc, ◌+◌, ◌-◌, ◌≤◌, ◌<◌, ◌≡◌, refl, ap, sym, ◌∙◌, ◌⊎◌, Option, none, some, List, [], ◌∷◌,
  ◌++◌, ltb, leb, length, take, arith, Bool-cases, inl, inr, subst, length-append, length-take,
  take-append_short, take-append_long,
}
use wayland_macos.Ipc.{
  Codec, IoError, broken, IoResult, ok, err, u32_mod, to_le_bytes, encode_frame, Ending, closes,
  breaks, ending_error, Reader, read_exact, read_payload, read_frame, Turn, again, stop,
  serve_frames,
}
use wayland_macos.Ipc.RoundTrip.{Decodes, encode_frame-parts, read_frame-header, read_frame-frame}

module _ {ℓ} {T : Type ℓ} (c : Codec T) where
  -- A result that is no message.
  abbrev pub IsNone : IoResult (Option T) → Type ℓ
  IsNone got = (got ≡ ok none) ⊎ ((e : IoError) × (got ≡ err e))

  read_payload-short :
      (n : ℕ) (bytes : List ℕ) (ending : Ending)
      → length bytes < n
      → IsNone (read_payload c n (record { bytes = bytes; ending = ending })).1
  unfolding read_payload read_exact
  read_payload-short n bytes ending h = inr (ending_error ending, ground arith)

  read_header-short :
      (bytes : List ℕ) (ending : Ending)
      → length bytes < 4
      → IsNone (read_frame c (record { bytes = bytes; ending = ending })).1
  unfolding read_frame read_exact ending_error
  read_header-short bytes closes h = inl (ground arith)
  read_header-short bytes breaks h = inr (broken, ground arith)

  length-to_le_bytes : (n : ℕ) → length (to_le_bytes n) ≡ 4
  unfolding to_le_bytes
  length-to_le_bytes n = refl

  cut_frame :
      (bytes : List ℕ) (n : ℕ) (ending : Ending)
      → length bytes < u32_mod
      → n < 4 + length bytes
      → IsNone
          (read_frame c
            (record { bytes = take n (to_le_bytes (length bytes) ++ bytes); ending = ending })).1
  cut_frame bytes n ending small h =
      let head = to_le_bytes (length bytes) in
      let four = length-to_le_bytes (length bytes) in
      elim (Bool-cases (ltb n 4)) [
        | inl in_head ↦
            read_header-short (take n (head ++ bytes)) ending
              (ground (arith, length-take n (head ++ bytes)))
        | inr behind ↦
            let cut = take-append_long n head bytes (ground arith) in
            subst (λ l. IsNone (read_frame c (record { bytes = l; ending = ending })).1) (sym cut)
              (subst (λ r. IsNone r.1)
                (sym
                  (read_frame-header c (length bytes) (take (n - length head) bytes) ending small))
                (read_payload-short (length bytes) (take (n - length head) bytes) ending
                  (ground (arith, length-take (n - length head) bytes))))
      ]

  -- Less than a frame is never read as a message.
  pub read_frame-short :
      (msg : T) (frame : List ℕ) (n : ℕ) (ending : Ending)
      → encode_frame c msg ≡ ok frame
      → n < length frame
      → IsNone (read_frame c (record { bytes = take n frame; ending = ending })).1
  read_frame-short msg frame n ending e h =
      let (bytes, s, small, parts) = encode_frame-parts c msg frame e in
      subst (λ f. IsNone (read_frame c (record { bytes = take n f; ending = ending })).1)
        (sym parts)
        (cut_frame bytes n ending small (
          ground (
            arith,
            parts,
            length-append (to_le_bytes (length bytes)) bytes,
            length-to_le_bytes (length bytes),
          )))

-- The bytes of the frames of a list of messages.
pub data IsFrames {ℓ} {T : Type ℓ} (c : Codec T) : List T → List ℕ → Type ℓ where
  no_frames : IsFrames c [] []
  one_more :
      {msg : T} {rest : List T} {frame bytes : List ℕ}
      → encode_frame c msg ≡ ok frame
      → IsFrames c rest bytes
      → IsFrames c (msg ∷ rest) (frame ++ bytes)

-- What a reader's loop makes of a list of messages, without the frames.
unfoldable pub handle_all {ℓ κ} :
    {T : Type ℓ} {S : Type κ} → (T → S → Turn S) → (S → S) → List T → S → S
handle_all handle at_end [] s = at_end s
handle_all handle at_end (msg ∷ rest) s = elim (handle msg s) [
  | again t ↦ handle_all handle at_end rest t
  | stop t ↦ t
]

module _ {ℓ κ} {T : Type ℓ} {S : Type κ} (c : Codec T) (handle : T → S → Turn S)
    (at_end : S → S) where
  serve_none :
      (fuel : ℕ) (r : Reader) (s : S)
      → IsNone c (read_frame c r).1
      → serve_frames c handle at_end (suc fuel) r s ≡ at_end s
  unfolding serve_frames
  serve_none fuel r s h = ground arith

  serve_one :
      (fuel : ℕ) (r rest : Reader) (msg : T) (s : S)
      → read_frame c r ≡ (rest, ok (some msg))
      → serve_frames c handle at_end (suc fuel) r s
        ≡ elim (handle msg s) [ again t ↦ serve_frames c handle at_end fuel rest t | stop t ↦ t ]
  unfolding serve_frames
  serve_one fuel r rest msg s h = ground arith

  -- A loop on a stream that was cut after `n` bytes handles a first part of the messages, and all
  -- if the stream was not cut.
  pub serve_cut :
      Decodes c
      → (msgs : List T) (bytes : List ℕ) (n fuel : ℕ) (ending : Ending) → IsFrames c msgs bytes
      → length msgs < fuel
      → (k : ℕ) × (length bytes ≤ n → k ≡ length msgs)
        × ((s : S)
            → serve_frames c handle at_end fuel (record { bytes = take n bytes; ending = ending }) s
              ≡ handle_all handle at_end (take k msgs) s)
  unfolding handle_all
  serve_cut law msgs bytes n zero ending f h = absurd (omega arith)
  serve_cut law [] bytes n (suc fuel) ending no_frames h = (
    0,
    (λ _. refl),
    λ s.
        serve_none fuel _ s
          (read_header-short c (take n []) ending (ground (arith, length-take {A = ℕ} n []))),
  )
  serve_cut law (msg ∷ rest) bytes n (suc fuel) ending (one_more {frame = frame} {bytes = tail} e f)
        h =
      elim (Bool-cases (leb (length frame) n)) [
        | inl whole ↦
            let (k, all, same) =
              serve_cut law rest tail (n - length frame) fuel ending f (omega arith) in
            (
              suc k,
              (λ long. ground (arith, all, length-append frame tail)),
              λ s.
                  ap
                    (λ l.
                      serve_frames c handle at_end (suc fuel)
                        (record { bytes = l; ending = ending }) s)
                    (take-append_long n frame tail (ground arith))
                  ∙ serve_one fuel _
                      (record { bytes = take (n - length frame) tail; ending = ending }) msg s
                      (read_frame-frame c law msg frame (take (n - length frame) tail) ending e)
                  ∙ step_on k same s,
            )
        | inr short ↦ (
          0,
          (λ long. ground (arith, length-append frame tail)),
          λ s.
              ap
                (λ l.
                  serve_frames c handle at_end (suc fuel) (record { bytes = l; ending = ending }) s)
                (take-append_short n frame tail (ground arith))
              ∙ serve_none fuel _ s (read_frame-short c msg frame n ending e (ground arith)),
        )
      ]
    where
      step_on :
          (k : ℕ)
          → ((s : S)
              → serve_frames c handle at_end fuel
                  (record { bytes = take (n - length frame) tail; ending = ending })
                  s
                ≡ handle_all handle at_end (take k rest) s)
          → (s : S)
          → elim (handle msg s) [
            | again t ↦
                serve_frames c handle at_end fuel
                  (record { bytes = take (n - length frame) tail; ending = ending })
                  t
            | stop t ↦ t
          ]
            ≡ handle_all handle at_end (msg ∷ take k rest) s
      step_on k same s = go (handle msg s)
        where
          go :
              (turn : Turn S)
              → elim turn [
                | again t ↦
                    serve_frames c handle at_end fuel
                      (record { bytes = take (n - length frame) tail; ending = ending })
                      t
                | stop t ↦ t
              ]
                ≡ elim turn [ again t ↦ handle_all handle at_end (take k rest) t | stop t ↦ t ]
          go (again t) = same t
          go (stop t) = refl
