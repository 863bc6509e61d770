-- ===== src/Reference/Tests.antt =====
-- Runs and instances for the reference counter.
use fabric_peer_ext.Prelude.{◌≡◌, ◌+◌, refl, List, [], ◌∷◌, arith}
use fabric_peer_ext.Reference.{ready, closed, new_counter, increment, decrement, close}
use fabric_peer_ext.Reference.Protocol.{
  Call, acquire, release, shut, call, run, Implements, run-Implements, lease_run, no_lease,
}
use fabric_peer_ext.Reference.Interleaving.{System, Reach, idle, late_increment}
use fabric_peer_ext.Reference.Closing.{ClosedOnce, Reach-ClosedOnce}

abbrev calls : List Call
calls = acquire ∷ acquire ∷ shut ∷ acquire ∷ release ∷ release ∷ release ∷ []

-- The closer runs when the second of two references is released.
run-calls : run new_counter calls ≡ record { count = 0; status = closed; close_calls = 1 }
unfolding run call new_counter increment decrement close
run-calls = refl

run-Implements_example : Implements (run new_counter calls) (lease_run no_lease calls)
run-Implements_example = run-Implements calls (omega arith)

abbrev quiet : System
quiet = record { shared = record { count = 0; status = ready; close_calls = 0 }; place = λ t. idle }

quiet-ClosedOnce : ClosedOnce quiet
quiet-ClosedOnce = record { while_open = λ e. (refl, λ u p. cc); once_closed = λ e. cc }

late_increment_example :
    (u : System) × Reach quiet u
    × (u.shared.status ≡ closed)
    × (u.shared.count ≡ 1)
    × (u.shared.close_calls ≡ quiet.shared.close_calls + 1)
late_increment_example = late_increment quiet 0 1 (omega arith) refl refl refl refl

Reach-ClosedOnce_example : ClosedOnce late_increment_example.0
Reach-ClosedOnce_example = Reach-ClosedOnce late_increment_example.1 quiet-ClosedOnce
