-- ===== src/Bus/Tests.antt =====
-- Runs of src/input.rs.
use wayland_macos.Base.{ℕ, ◌≡◌, List, [], ◌∷◌, arith}
use wayland_macos.Bus.{Action, push_event, push_byte, read_pipe, drain_queue, run, start}
use wayland_macos.Bus.Delivery.{all_delivered, finish, turn}

-- The reader drains between the two halves of the second push.
abbrev actions : List (Action ℕ)
actions = push_event 1 ∷ push_byte ∷ read_pipe ∷ push_event 2 ∷ drain_queue ∷ push_event 3 ∷ []

abbrev rest_of_pipe : ℕ → ℕ
rest_of_pipe n = 0

all_delivered_example :
    (turn 1 rest_of_pipe (finish 1 (run 1 actions start).unsent (run 1 actions start))).delivered
    ≡ (run 1 actions start).pushed
all_delivered_example = all_delivered 1 (omega arith) actions rest_of_pipe
