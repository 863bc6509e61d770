-- ===== src/Reference.antt =====
-- pkg/common/reference/counter.go: a reference counter that calls a closer once the last
-- reference to a closed resource is released. Each method is a function from the state before to
-- the state after and its result. An `int32` count is its bit pattern, a number below 2 ^ 32.
use fabric_peer_ext.Prelude.{ℕ, ◌+◌, ◌-◌, ◌%◌, ◌^◌, ◌==◌, if◌then◌else◌, Option, none, some}
mod Protocol
pub mod Interleaving
mod Closing
mod Tests

-- the constants statusReady, statusClosePending and statusClosed
pub data Status : Type 0 where
  ready close_pending closed : Status

pub data Error : Type 0 where
  increment_on_closed decrement_at_zero : Error

-- `close_calls` counts the calls of the closer.
pub record Counter : Type 0 where
  pub count : ℕ
  pub status : Status
  pub close_calls : ℕ

unfoldable pub new_counter : Counter
new_counter = record { count = 0; status = ready; close_calls = 0 }

abbrev pub int32 : ℕ → ℕ
int32 n = n % 2 ^ 32

-- atomic.AddInt32 by 1 and by -1
abbrev pub succ32 : ℕ → ℕ
succ32 n = int32 (n + 1)

abbrev pub pred32 : ℕ → ℕ
pred32 n = int32 (n + (2 ^ 32 - 1))

-- The returned pair is `(int32, error)`.
unfoldable pub increment : Counter → Counter × ℕ × Option Error
increment r = elim r.status [
  | ready ↦ (record r { count = succ32 r.count }, succ32 r.count, none)
  | close_pending ↦ (r, 0, some increment_on_closed)
  | closed ↦ (r, 0, some increment_on_closed)
]

unfoldable pub notify_closed : Counter → Counter
notify_closed r = elim r.status [
  | ready ↦ r
  | close_pending ↦ record r { status = closed; close_calls = r.close_calls + 1 }
  | closed ↦ r
]

unfoldable pub decrement : Counter → Counter × ℕ × Option Error
unfolding notify_closed
decrement r =
    if r.count == 0
    then (r, 0, some decrement_at_zero)
    else let new_count = pred32 r.count in
      let r' = record r { count = new_count } in
      ((if new_count == 0 then notify_closed r' else r'), new_count, none)

unfoldable pub close : Counter → Counter
unfolding notify_closed
close r = elim r.status [
  | ready ↦
      let r' = record r { status = close_pending } in if r'.count == 0 then notify_closed r' else r'
  | close_pending ↦ r
  | closed ↦ r
]
