-- ===== src/Reference/Interleaving.antt =====
-- pkg/common/reference/counter.go used by goroutines at the same time: every atomic load, add and
-- compare-and-swap is a step of its own, and any goroutine may take the next step.
use fabric_peer_ext.Prelude.{ℕ, ◌+◌, ◌≡◌, ◌≢◌, ◌==◌, refl, if◌then◌else◌, arith}
use fabric_peer_ext.Reference.{Counter, ready, close_pending, closed, succ32, pred32}

-- Where a goroutine stands in a method.
pub data Place : Type 0 where
  idle : Place
  -- Increment has loaded `statusReady`
  increment_checked : Place
  -- Decrement has loaded a count that is not 0
  decrement_checked : Place
  -- Decrement has brought the count to 0
  decrement_zero : Place
  -- Close has set `statusClosePending`
  close_marked : Place
  -- notifyClosed has been entered
  notifying : Place
  -- notifyClosed has set `statusClosed` and is about to call the closer
  closing : Place

pub record System : Type 0 where
  pub shared : Counter
  pub place : ℕ → Place

abbrev pub move : (ℕ → Place) → ℕ → Place → ℕ → Place
move f t p u = if t == u then p else f u

pub data Step (s : System) : System → Type 0 where
  increment_load :
      (t : ℕ)
      → s.place t ≡ idle
      → s.shared.status ≡ ready
      → Step s (record s { place = move s.place t increment_checked })
  increment_add :
      (t : ℕ)
      → s.place t ≡ increment_checked
      → Step s (record {
        shared = record (s.shared) { count = succ32 s.shared.count };
        place = move s.place t idle;
      })
  decrement_load :
      (t : ℕ)
      → s.place t ≡ idle
      → s.shared.count ≢ 0
      → Step s (record s { place = move s.place t decrement_checked })
  decrement_add :
      (t : ℕ)
      → s.place t ≡ decrement_checked
      → Step s (record {
        shared = record (s.shared) { count = pred32 s.shared.count };
        place = move s.place t (if pred32 s.shared.count == 0 then decrement_zero else idle);
      })
  decrement_pending :
      (t : ℕ)
      → s.place t ≡ decrement_zero
      → s.shared.status ≡ close_pending
      → Step s (record s { place = move s.place t notifying })
  decrement_done :
      (t : ℕ)
      → s.place t ≡ decrement_zero
      → s.shared.status ≢ close_pending
      → Step s (record s { place = move s.place t idle })
  close_swap :
      (t : ℕ)
      → s.place t ≡ idle
      → s.shared.status ≡ ready
      → Step s (record {
        shared = record (s.shared) { status = close_pending };
        place = move s.place t close_marked;
      })
  close_load :
      (t : ℕ)
      → s.place t ≡ close_marked
      → Step s
          (record s { place = move s.place t (if s.shared.count == 0 then notifying else idle) })
  notify_swap :
      (t : ℕ)
      → s.place t ≡ notifying
      → s.shared.status ≡ close_pending
      → Step s (record {
        shared = record (s.shared) { status = closed };
        place = move s.place t closing;
      })
  notify_done :
      (t : ℕ)
      → s.place t ≡ notifying
      → s.shared.status ≢ close_pending
      → Step s (record s { place = move s.place t idle })
  closer_call :
      (t : ℕ)
      → s.place t ≡ closing
      → Step s (record {
        shared = record (s.shared) { close_calls = s.shared.close_calls + 1 };
        place = move s.place t idle;
      })

pub data Reach (s : System) : System → Type 0 where
  here : Reach s s
  next : {t u : System} → Reach s t → Step t u → Reach s u

-- If one goroutine has loaded `statusReady` in `Increment` before another runs `Close`, the
-- closer runs and the increment still succeeds: from any ready counter with count 0 and two idle
-- goroutines, a state is reached that is closed, with one more call of the closer, and count 1.
pub late_increment :
    (s : System) (a b : ℕ)
    → a ≢ b
    → s.shared.status ≡ ready
    → s.shared.count ≡ 0
    → s.place a ≡ idle
    → s.place b ≡ idle
    → (u : System) × Reach s u
      × (u.shared.status ≡ closed)
      × (u.shared.count ≡ 1)
      × (u.shared.close_calls ≡ s.shared.close_calls + 1)
late_increment s a b ne st c pa pb =
    let s1 : System = record s { place = move s.place a increment_checked } in
    let s2 : System = record {
      shared = record (s.shared) { status = close_pending };
      place = move s1.place b close_marked;
    } in
    let s3 : System = record s2 {
      place = move s2.place b (if s2.shared.count == 0 then notifying else idle);
    } in
    let s4 : System = record {
      shared = record (s3.shared) { status = closed };
      place = move s3.place b closing;
    } in
    let s5 : System = record {
      shared = record (s4.shared) { close_calls = s4.shared.close_calls + 1 };
      place = move s4.place b idle;
    } in
    let s6 : System = record {
      shared = record (s5.shared) { count = succ32 s5.shared.count };
      place = move s5.place a idle;
    } in
    let r1 : Reach s s1 = next here (increment_load a pa st) in
    let r2 : Reach s s2 = next r1 (close_swap b (ground arith) st) in
    let r3 : Reach s s3 = next r2 (close_load b (ground arith)) in
    let r4 : Reach s s4 = next r3 (notify_swap b (ground arith) refl) in
    let r5 : Reach s s5 = next r4 (closer_call b (ground arith)) in
    (s6, next r5 (increment_add a (ground arith)), refl, ground arith, refl)
