-- ===== src/Ipc/Sent.antt =====
-- The bytes that src/ipc.rs puts on a socket whose peer may vanish, and what a loop at the other
-- end reads of them.
use wayland_macos.Base.{
  ℕ, ◌+◌, ◌≤◌, ◌<◌, ◌≡◌, refl, ap, sym, ◌∙◌, ◌⊎◌, Option, List, [], ◌∷◌, ◌++◌, leb, length, take,
  arith, Bool-cases, Option-cases, inl, inr, append_assoc, append_nil, length-append,
  take-append_short, take-append_beyond,
}
use wayland_macos.Ipc.{
  Codec, ok, err, broken, encode_frame, Writer, write_all, Ending, write_frame, write_frames, Turn,
  serve_frames,
}
use wayland_macos.Ipc.RoundTrip.{Decodes}
use wayland_macos.Ipc.Cut.{IsFrames, no_frames, one_more, handle_all, serve_cut}

write_all-sent :
    (frame : List ℕ) (w : Writer)
    → ((write_all frame w).1 ≡ ok tt) × ((write_all frame w).0.sent ≡ w.sent ++ frame)
      ⊎ ((m : ℕ) × (m < length frame)
          × ((write_all frame w).1 ≡ err broken)
          × ((write_all frame w).0.sent ≡ w.sent ++ take m frame))
unfolding write_all
write_all-sent frame w = elim (Option-cases w.room) [
  | inl e ↦ inl (ground arith)
  | inr (m, e) ↦ elim (Bool-cases (leb (length frame) m)) [
    | inl fits ↦ inl (ground arith)
    | inr short ↦ inr (m, ground arith, ground arith, ground arith)
  ]
]

module _ {ℓ} {T : Type ℓ} (c : Codec T) where
  write_frame-eq :
      (w : Writer) (msg : T) (frame : List ℕ)
      → encode_frame c msg ≡ ok frame
      → write_frame c w msg ≡ write_all frame w
  unfolding write_frame
  write_frame-eq w msg frame e = ground arith

  write_frames-nil : (w : Writer) → write_frames c w [] ≡ (w, ok tt)
  unfolding write_frames
  write_frames-nil w = refl

  write_frames-ok :
      (w : Writer) (msg : T) (rest : List T)
      → (write_frame c w msg).1 ≡ ok tt
      → write_frames c w (msg ∷ rest) ≡ write_frames c (write_frame c w msg).0 rest
  unfolding write_frames
  write_frames-ok w msg rest e = ground arith

  write_frames-err :
      (w : Writer) (msg : T) (rest : List T)
      → (write_frame c w msg).1 ≡ err broken
      → write_frames c w (msg ∷ rest) ≡ ((write_frame c w msg).0, err broken)
  unfolding write_frames
  write_frames-err w msg rest e = ground arith

  -- What was sent is a first part of the frames, and all of them if no write failed.
  pub write_frames-sent :
      (msgs : List T) (bytes : List ℕ)
      → IsFrames c msgs bytes
      → (w : Writer)
      → (n : ℕ) × ((write_frames c w msgs).0.sent ≡ w.sent ++ take n bytes)
        × ((write_frames c w msgs).1 ≡ ok tt → length bytes ≤ n)
  write_frames-sent [] bytes no_frames w =
      (0, ap (λ p. p.0.sent) (write_frames-nil w) ∙ sym (append_nil w.sent), λ _. omega arith)
  write_frames-sent (msg ∷ rest) bytes (one_more {frame = frame} {bytes = tail} e f) w =
      elim (write_all-sent frame w) [
        | inl (done, sent) ↦
            let same = write_frame-eq w msg frame e in
            let next = write_frames-ok w msg rest (ap (λ p. p.1) same ∙ done) in
            let (n, rest_sent, all) = write_frames-sent rest tail f (write_frame c w msg).0 in
            (
              length frame + n,
              ap (λ p. p.0.sent) next
                  ∙ rest_sent
                  ∙ ap (λ l. l ++ take n tail) (ap (λ p. p.0.sent) same ∙ sent)
                  ∙ append_assoc w.sent frame (take n tail)
                  ∙ ap (λ l. w.sent ++ l) (sym (take-append_beyond n frame tail)),
              λ d. ground (arith, all (sym (ap (λ p. p.1) next) ∙ d), length-append frame tail),
            )
        | inr (m, short, failed, sent) ↦
            let same = write_frame-eq w msg frame e in
            let next = write_frames-err w msg rest (ap (λ p. p.1) same ∙ failed) in
            (
              m,
              ap (λ p. p.0.sent) next
                  ∙ ap (λ p. p.0.sent) same
                  ∙ sent
                  ∙ ap (λ l. w.sent ++ l) (sym (take-append_short m frame tail (omega arith))),
              λ d. absurd (ground (arith, next, d)),
            )
      ]

  -- Messages that were written to a fresh socket, for as long as its peer takes bytes, and then the
  -- end of the stream: a loop at the other end handles a first part of the messages, each whole and
  -- in order, and all of them if every write succeeded. Here the encoding is undone by the
  -- decoding, each message can be encoded, and the fuel is more than the number of messages.
  pub frames_arrive {κ} :
      {S : Type κ} (handle : T → S → Turn S) (at_end : S → S)
      → Decodes c
      → (msgs : List T) (bytes : List ℕ) (room : Option ℕ) (ending : Ending) (fuel : ℕ)
      → IsFrames c msgs bytes
      → length msgs < fuel
      → (k : ℕ) × ((write_frames c (record { sent = []; room = room }) msgs).1 ≡ ok tt
          → k ≡ length msgs)
        × ((s : S)
            → serve_frames c handle at_end fuel
                (record {
                  bytes = (write_frames c (record { sent = []; room = room }) msgs).0.sent;
                  ending = ending;
                })
                s
              ≡ handle_all handle at_end (take k msgs) s)
  frames_arrive handle at_end law msgs bytes room ending fuel f enough =
      let (n, sent, whole) = write_frames-sent msgs bytes f (record { sent = []; room = room }) in
      let (k, all, same) = serve_cut c handle at_end law msgs bytes n fuel ending f enough in
      (
        k,
        (λ done. all (whole done)),
        λ s.
            ap (λ l. serve_frames c handle at_end fuel (record { bytes = l; ending = ending }) s)
              sent
            ∙ same s,
      )
