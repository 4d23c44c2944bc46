-- ===== src/Bus/Delivery.antt =====
-- What the reader of the bus of src/input.rs gets, in every interleaving with the pushes.
use wayland_macos.Base.{
  ℕ, zero, suc, ◌+◌, ◌-◌, ◌<◌, ◌≡◌, refl, ap, sym, ◌∙◌, ◌⊎◌, inl, inr, true, not, some, List, [],
  ◌∷◌, ◌++◌, if◌then◌else◌, ltb, ◌==◌, replicate, arith, Bool-cases, append_assoc, append_nil,
}
use wayland_macos.Bus.{
  InputBus, System, Action, push_event, push_byte, read_pipe, read_until_empty, drain_queue,
  read_wakes, step, run, start, enqueue, wake, drain, new, set_waker,
}

-- The order of events, and that none is lost or doubled.
pub record IsInOrder {ℓ} {E : Type ℓ} (s : System E) : Type ℓ where
  pub order : s.delivered ++ s.bus.queue ≡ s.pushed

-- With an event in the queue, a byte waits in the pipe, or is about to, or the reader is awake.
pub record IsNoticed {ℓ} {E : Type ℓ} (s : System E) : Type ℓ where
  pub bytes : ℕ
  pub waiting : s.bus.waker ≡ some bytes
  pub noticed : (0 < s.unsent + bytes) ⊎ (s.awake ≡ true) ⊎ (s.bus.queue ≡ [])

module _ {ℓ} {E : Type ℓ} (capacity : ℕ) where
  step-IsInOrder : (a : Action E) (s : System E) → IsInOrder s → IsInOrder (step capacity a s)
  unfolding step enqueue drain read_wakes wake
  step-IsInOrder (push_event e) s h = record {
    order = sym (append_assoc s.delivered s.bus.queue (e ∷ [])) ∙ ap (λ l. l ++ (e ∷ [])) h.order;
  }
  step-IsInOrder push_byte s h = ground arith
  step-IsInOrder read_pipe s h = ground arith
  step-IsInOrder read_until_empty s h = ground arith
  step-IsInOrder drain_queue s h = elim (Bool-cases s.awake) [
    | inl on ↦ simp on (record { order = append_nil (s.delivered ++ s.bus.queue) ∙ h.order })
    | inr off ↦ simp off h
  ]

  wake-waker :
      (b : InputBus E) (n : ℕ)
      → b.waker ≡ some n
      → (wake capacity b).waker ≡ some (if ltb n capacity then suc n else n)
  unfolding wake
  wake-waker b n e = ground arith

  read_wakes-IsNoticed : (left : ℕ → ℕ) (s : System E) → IsNoticed s → IsNoticed (read_wakes left s)
  unfolding read_wakes
  read_wakes-IsNoticed left s h = elim (Bool-cases s.awake) [
    | inl on ↦ simp on h
    | inr off ↦ elim (Bool-cases (h.bytes == 0)) [
      | inl empty ↦ simp (off, h.waiting, empty) h
      | inr byte ↦
          simp (off, h.waiting, byte)
            (record { bytes = left h.bytes; waiting = refl; noticed = inr (inl refl) })
    ]
  ]

  step-IsNoticed :
      0 < capacity → (a : Action E) (s : System E) → IsNoticed s → IsNoticed (step capacity a s)
  unfolding step enqueue drain
  step-IsNoticed c (push_event e) s h = record {
    bytes = h.bytes;
    waiting = h.waiting;
    noticed = inl (omega arith);
  }
  step-IsNoticed c push_byte s h = elim (Bool-cases (s.unsent == 0)) [
    | inl idle ↦ simp idle h
    | inr busy ↦ simp busy (record {
      bytes = if ltb h.bytes capacity then suc h.bytes else h.bytes;
      waiting = wake-waker s.bus h.bytes h.waiting;
      noticed = inl (ground arith);
    })
  ]
  step-IsNoticed c read_pipe s h = read_wakes-IsNoticed _ s h
  step-IsNoticed c read_until_empty s h = read_wakes-IsNoticed _ s h
  step-IsNoticed c drain_queue s h = elim (Bool-cases s.awake) [
    | inl on ↦ simp on (record { bytes = h.bytes; waiting = h.waiting; noticed = inr (inr refl) })
    | inr off ↦ simp off h
  ]

  run-IsInOrder :
      (actions : List (Action E)) (s : System E) → IsInOrder s → IsInOrder (run capacity actions s)
  unfolding run
  run-IsInOrder [] s h = h
  run-IsInOrder (a ∷ rest) s h = run-IsInOrder rest _ (step-IsInOrder a s h)

  run-IsNoticed :
      0 < capacity
      → (actions : List (Action E)) (s : System E) → IsNoticed s
      → IsNoticed (run capacity actions s)
  unfolding run
  run-IsNoticed c [] s h = h
  run-IsNoticed c (a ∷ rest) s h = run-IsNoticed c rest _ (step-IsNoticed c a s h)

  -- The bytes of `n` pushes that are in progress.
  unfoldable pub finish : ℕ → System E → System E
  finish n s = run capacity (replicate n push_byte) s

  -- A turn of the reader.
  unfoldable pub turn : (ℕ → ℕ) → System E → System E
  turn left s = step capacity drain_queue (read_wakes left s)

  -- In every interleaving of pushes with the reader's turns, what was delivered is a first part of
  -- what was pushed, in order, and the queue is the rest.
  pub delivered_in_order :
      (actions : List (Action E))
      → (run capacity actions start).delivered ++ (run capacity actions start).bus.queue
        ≡ (run capacity actions start).pushed
  unfolding start new set_waker
  delivered_in_order actions = (run-IsInOrder actions start (record { order = refl })).order

  drain-awake :
      (s : System E)
      → (step capacity drain_queue s).delivered
        ≡ (if s.awake then s.delivered ++ s.bus.queue else s.delivered)
  unfolding step drain
  drain-awake s = ground arith

  -- A read leaves the events alone, and wakes the reader if there is a byte.
  read_wakes-lem :
      (left : ℕ → ℕ) (s : System E) (n : ℕ)
      → s.bus.waker ≡ some n
      → ((read_wakes left s).awake ≡ (if s.awake then true else not (n == 0)))
        × ((read_wakes left s).delivered ≡ s.delivered)
        × ((read_wakes left s).bus.queue ≡ s.bus.queue)
  unfolding read_wakes
  read_wakes-lem left s n e = ground arith

  turn-delivers :
      (left : ℕ → ℕ) (s : System E)
      → IsInOrder s
      → IsNoticed s
      → s.unsent ≡ 0
      → (turn left s).delivered ≡ s.pushed
  unfolding turn
  turn-delivers left s o n idle = ground (
    arith,
    o.order,
    n.noticed,
    drain-awake (read_wakes left s),
    read_wakes-lem left s n.bytes n.waiting,
    append_nil s.delivered,
  )

  finish-lem :
      (n : ℕ) (s : System E)
      → ((finish n s).pushed ≡ s.pushed) × ((finish n s).unsent ≡ s.unsent - n)
  unfolding finish run step
  finish-lem zero s = ground arith
  finish-lem (suc n) s = ground (arith, finish-lem n (step capacity push_byte s))

  -- After any interleaving of pushes with the reader's turns, once the pushes in progress have
  -- written their byte, one more turn of the reader has delivered everything that was pushed, in
  -- order: no event stays behind a byte that was taken early, or that found the pipe full.
  pub all_delivered :
      0 < capacity
      → (actions : List (Action E)) (left : ℕ → ℕ)
      → (turn left
          (finish (run capacity actions start).unsent (run capacity actions start))).delivered
        ≡ (run capacity actions start).pushed
  unfolding start new set_waker finish
  all_delivered c actions left =
      let s = run capacity actions start in
      let o : IsInOrder s = run-IsInOrder actions start (record { order = refl }) in
      let n : IsNoticed s =
        run-IsNoticed c actions start
          (record { bytes = 0; waiting = refl; noticed = inr (inr refl) }) in
      let (kept, none_left) = finish-lem s.unsent s in
      turn-delivers left (finish s.unsent s) (run-IsInOrder (replicate s.unsent push_byte) s o)
        (run-IsNoticed c (replicate s.unsent push_byte) s n) (ground arith)
      ∙ kept
