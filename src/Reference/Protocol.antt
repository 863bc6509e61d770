-- ===== src/Reference/Protocol.antt =====
-- pkg/common/reference/counter.go used by one caller at a time: what any sequence of calls of
-- `Increment`, `Decrement` and `Close` leads to.
use fabric_peer_ext.Prelude.{
  ℕ, ◌+◌, ◌-◌, ◌^◌, ◌<◌, ◌≤◌, ◌≡◌, ◌==◌, Bool, true, false, ◌&&◌, if◌then◌else◌, List, [], ◌∷◌,
  length, arith,
}
use fabric_peer_ext.Reference.{
  Counter, ready, close_pending, closed, new_counter, increment, decrement, close,
}

-- The calls of a client.
pub data Call : Type 0 where
  acquire release shut : Call

unfoldable pub call : Counter → Call → Counter
unfolding increment decrement close
call r acquire = (increment r).0
call r release = (decrement r).0
call r shut = close r

unfoldable pub run : Counter → List Call → Counter
run r [] = r
run r (c ∷ cs) = run (call r c) cs

pub record IsSettled (r : Counter) : Type 0 where
  pub in_range : r.count < 2 ^ 32
  pub ready_uncalled : r.status ≡ ready → r.close_calls ≡ 0
  pub pending_busy : r.status ≡ close_pending → (r.close_calls ≡ 0) × (0 < r.count)
  pub closed_once : r.status ≡ closed → (r.close_calls ≡ 1) × (r.count ≡ 0)

call-IsSettled : (r : Counter) (c : Call) → IsSettled r → IsSettled (call r c)
unfolding call
call-IsSettled r acquire h = ground arith
call-IsSettled r release h = ground arith
call-IsSettled r shut h = ground arith

run-IsSettled_from : (r : Counter) (cs : List Call) → IsSettled r → IsSettled (run r cs)
unfolding run
run-IsSettled_from r [] h = h
run-IsSettled_from r (c ∷ cs) h = run-IsSettled_from (call r c) cs (call-IsSettled r c h)

-- After any sequence of calls on a new counter: before `Close` the closer has not been called;
-- while a close is pending it has not been called and a reference is outstanding; once closed it
-- has been called exactly once and no reference is outstanding.
pub run-IsSettled : (cs : List Call) → IsSettled (run new_counter cs)
unfolding new_counter
run-IsSettled cs = run-IsSettled_from new_counter cs (ground arith)

-- The contract: references that are out, and whether the resource has been shut.
pub record Lease : Type 0 where
  pub outstanding : ℕ
  pub is_shut : Bool

abbrev pub lease_call : Lease → Call → Lease
lease_call l acquire = if l.is_shut then l else record l { outstanding = l.outstanding + 1 }
lease_call l release = record l { outstanding = l.outstanding - 1 }
lease_call l shut = record l { is_shut = true }

abbrev pub lease_run : Lease → List Call → Lease
lease_run l [] = l
lease_run l (c ∷ cs) = lease_run (lease_call l c) cs

-- The closer's calls, as the contract has them.
abbrev pub lease_closings : Lease → ℕ
lease_closings l = if l.is_shut && l.outstanding == 0 then 1 else 0

pub record Implements (r : Counter) (l : Lease) : Type 0 where
  pub counted : r.count ≡ l.outstanding
  pub called : r.close_calls ≡ lease_closings l
  pub status :
      r.status
      ≡ (if l.is_shut then (if l.outstanding == 0 then closed else close_pending) else ready)

call-Implements :
    (r : Counter) (l : Lease) (c : Call)
    → l.outstanding + 1 < 2 ^ 32
    → Implements r l
    → Implements (call r c) (lease_call l c)
unfolding call
call-Implements r l acquire b h = ground arith
call-Implements r l release b h = ground arith
call-Implements r l shut b h = ground arith

outstanding-lease_call : (l : Lease) (c : Call) → (lease_call l c).outstanding ≤ l.outstanding + 1
outstanding-lease_call l acquire = ground arith
outstanding-lease_call l release = ground arith
outstanding-lease_call l shut = ground arith

run-Implements_from :
    (r : Counter) (l : Lease) (cs : List Call)
    → l.outstanding + length cs < 2 ^ 32
    → Implements r l
    → Implements (run r cs) (lease_run l cs)
unfolding run
run-Implements_from r l [] b h = h
run-Implements_from r l (c ∷ cs) b h =
    run-Implements_from (call r c) (lease_call l c) cs (omega (arith, outstanding-lease_call l c))
      (call-Implements r l c (omega arith) h)

abbrev pub no_lease : Lease
no_lease = record { outstanding = 0; is_shut = false }

-- For fewer than 2 ^ 32 calls on a new counter, its count, its status and the number of calls of
-- the closer are those of the contract: the closer runs once, at the moment when the resource has
-- been shut and the last reference is released.
pub run-Implements :
    (cs : List Call) → length cs < 2 ^ 32 → Implements (run new_counter cs) (lease_run no_lease cs)
unfolding new_counter
run-Implements cs b = run-Implements_from new_counter no_lease cs (omega arith) (ground arith)
