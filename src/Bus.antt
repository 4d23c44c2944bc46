-- ===== src/Bus.antt =====
-- `InputBus` of src/input.rs, the queue from the AppKit thread to a thread that sleeps on a pipe,
-- and the shared numbers of that file. The two threads take turns in any order: a push is two
-- steps, since the queue and the waker have a lock each, and so is a turn of the reader (the loops
-- of src/host.rs and src/rail.rs, which read at most 64 bytes, and that of src/wayland/mod.rs, which
-- reads all), which reads the pipe and then drains the queue.
pub mod Delivery
pub mod Tests
use wayland_macos.Base.{
  ℕ, zero, suc, ◌+◌, ◌-◌, Bool, true, false, Option, none, some, List, [], ◌∷◌, ◌++◌, if◌then◌else◌,
  ltb, ◌==◌,
}
use wayland_macos.Base.Int.{ℤ, pos, max_ℤ}

-- The waker is the number of bytes that wait in its pipe.
pub record InputBus {ℓ} (E : Type ℓ) : Type ℓ where
  pub queue : List E
  pub waker : Option ℕ

unfoldable pub new {ℓ} : {E : Type ℓ} → InputBus E
new = record { queue = []; waker = none }

unfoldable pub set_waker {ℓ} : {E : Type ℓ} → InputBus E → InputBus E
set_waker b = record b { waker = some 0 }

-- The first half of `push`.
unfoldable pub enqueue {ℓ} : {E : Type ℓ} → E → InputBus E → InputBus E
enqueue e b = record b { queue = b.queue ++ (e ∷ []) }

-- The second half: a byte into the pipe, unless it is full, and the result is ignored.
unfoldable pub wake {ℓ} : {E : Type ℓ} → ℕ → InputBus E → InputBus E
wake capacity b = elim b.waker [
  | none ↦ b
  | some n ↦ record b { waker = some (if ltb n capacity then suc n else n) }
]

unfoldable pub drain {ℓ} : {E : Type ℓ} → InputBus E → InputBus E × List E
drain b = (record b { queue = [] }, b.queue)

-- The two threads: the pushes that have queued their event and not written their byte yet, and
-- whether the reader is between its read and its drain. All that was pushed, and all that was
-- delivered, is kept for reference.
pub record System {ℓ} (E : Type ℓ) : Type ℓ where
  pub bus : InputBus E
  pub unsent : ℕ
  pub awake : Bool
  pub pushed : List E
  pub delivered : List E

pub data Action {ℓ} (E : Type ℓ) : Type ℓ where
  push_event : E → Action E
  push_byte : Action E
  read_pipe : Action E
  read_until_empty : Action E
  drain_queue : Action E

-- A read waits for a byte.
unfoldable pub read_wakes {ℓ} : {E : Type ℓ} → (ℕ → ℕ) → System E → System E
read_wakes left s = if s.awake then s else elim s.bus.waker [
  | none ↦ s
  | some n ↦
      if n == 0 then s else record s { bus = record s.bus { waker = some (left n) }; awake = true }
]

module _ {ℓ} {E : Type ℓ} (capacity : ℕ) where
  unfoldable pub step : Action E → System E → System E
  unfolding enqueue wake drain read_wakes
  step (push_event e) s = record s {
    bus = enqueue e s.bus;
    unsent = suc s.unsent;
    pushed = s.pushed ++ (e ∷ []);
  }
  step push_byte s =
      if s.unsent == 0 then s else record s { bus = wake capacity s.bus; unsent = s.unsent - 1 }
  step read_pipe s = read_wakes (λ n. n - 64) s
  step read_until_empty s = read_wakes (λ n. 0) s
  step drain_queue s =
      if s.awake
      then record s {
        bus = (drain s.bus).0;
        awake = false;
        delivered = s.delivered ++ (drain s.bus).1;
      }
      else s

  unfoldable pub run : List (Action E) → System E → System E
  unfolding step
  run [] s = s
  run (a ∷ rest) s = run rest (step a s)

-- The reader registers its pipe before anything was pushed.
unfoldable pub start {ℓ} : {E : Type ℓ} → System E
unfolding new set_waker
start = record { bus = set_waker new; unsent = 0; awake = false; pushed = []; delivered = [] }

-- The numbers that the threads share, as the setters leave them: `set_scale`, `set_output_size`,
-- `set_reserved_insets`.
unfoldable pub set_scale : ℤ → ℤ
set_scale s = max_ℤ s (pos 1)

unfoldable pub set_output_size : ℤ → ℤ → ℤ × ℤ
set_output_size w h = (max_ℤ w (pos 1), max_ℤ h (pos 1))

unfoldable pub set_reserved_insets : ℤ → ℤ → ℤ → ℤ → ℤ × ℤ × ℤ × ℤ
set_reserved_insets top right bottom left =
    (max_ℤ top (pos 0), max_ℤ right (pos 0), max_ℤ bottom (pos 0), max_ℤ left (pos 0))
