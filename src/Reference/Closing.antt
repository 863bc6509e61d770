-- ===== src/Reference/Closing.antt =====
-- pkg/common/reference/counter.go used by goroutines at the same time: how often the closer is
-- called.
use fabric_peer_ext.Prelude.{
  ℕ, ◌+◌, ◌≡◌, ◌≢◌, ◌⊎◌, inl, inr, Bool, true, false, Bool-cases, ◌==◌, ==_iff, refl, sym, ap, ◌∙◌,
  subst, if◌then◌else◌, arith,
}
use fabric_peer_ext.Reference.{Status, close_pending, closed, pred32}
use fabric_peer_ext.Reference.Interleaving.{
  Place, idle, close_marked, closing, System, move, Step, increment_load, increment_add,
  decrement_load, decrement_add, decrement_pending, decrement_done, close_swap, close_load,
  notify_swap, notify_done, closer_call, Reach, here, next,
}

abbrev NoneCloses : (ℕ → Place) → Type 0
NoneCloses place = (u : ℕ) → place u ≢ closing

abbrev OneCloses : (ℕ → Place) → Type 0
OneCloses place = (t : ℕ) × (place t ≡ closing) × ((u : ℕ) → place u ≡ closing → u ≡ t)

-- Before the status is closed the closer has not been called, and nobody is about to call it; once
-- it is closed, either one goroutine is about to make the first call and no other is, or the
-- closer has been called once and nobody is about to call it.
pub record IsClosedOnce (status : Status) (close_calls : ℕ) (place : ℕ → Place) : Type 0 where
  pub while_open : status ≢ closed → (close_calls ≡ 0) × NoneCloses place
  pub once_closed :
      status ≡ closed
      → ((close_calls ≡ 0) × OneCloses place) ⊎ ((close_calls ≡ 1) × NoneCloses place)

abbrev pub ClosedOnce : System → Type 0
ClosedOnce s = IsClosedOnce s.shared.status s.shared.close_calls s.place

move_other : (f : ℕ → Place) (t : ℕ) (p : Place) (u : ℕ) → t ≢ u → move f t p u ≡ f u
move_other f t p u ne = ground arith

move_same : (f : ℕ → Place) (t : ℕ) (p : Place) → move f t p t ≡ p
move_same f t p = ground arith

move-closing :
    (f : ℕ → Place) (t : ℕ) (p : Place) (u : ℕ)
    → p ≢ closing
    → move f t p u ≡ closing
    → (t ≢ u) × (f u ≡ closing)
move-closing f t p u np h = elim (Bool-cases (t == u)) [
  | inl e ↦ absurd (ground arith)
  | inr ne ↦ ground arith
]

move-NoneCloses :
    (f : ℕ → Place) (t : ℕ) (p : Place) → p ≢ closing → NoneCloses f → NoneCloses (move f t p)
move-NoneCloses f t p np none u h = none u (move-closing f t p u np h).1

module _ (f : ℕ → Place) (t : ℕ) (p q : Place) (at : f t ≡ p) (np : p ≢ closing)
    (nq : q ≢ closing) where
  move-OneCloses : OneCloses f → OneCloses (move f t q)
  move-OneCloses (u, h, only) =
      let ne : t ≢ u = λ e. np (sym at ∙ ap f e ∙ h) in
      (u, move_other f t q u ne ∙ h, λ v k. only v (move-closing f t q v nq k).1)

  -- A step that leaves the status and the calls, from and to places before the call.
  keeps-IsClosedOnce :
      (status : Status) (calls : ℕ)
      → IsClosedOnce status calls f
      → IsClosedOnce status calls (move f t q)
  keeps-IsClosedOnce status calls h = record {
    while_open = λ e. let (n, none) = h.while_open e in (n, move-NoneCloses f t q nq none);
    once_closed = λ e. elim (h.once_closed e) [
      | inl (n, one) ↦ inl (n, move-OneCloses one)
      | inr (n, none) ↦ inr (n, move-NoneCloses f t q nq none)
    ];
  }

-- The swap makes the goroutine that is about to call, and the call leaves none.
swap-IsClosedOnce :
    (f : ℕ → Place) (t calls : ℕ)
    → IsClosedOnce close_pending calls f
    → IsClosedOnce closed calls (move f t closing)
swap-IsClosedOnce f t calls h =
    let (n, none) = h.while_open (λ e. cc) in
    record {
      while_open = λ e. absurd (e refl);
      once_closed = λ e. inl (
        n,
        (
          t,
          move_same f t closing,
          λ u k. elim (Bool-cases (t == u)) [
            | inl same ↦ sym ((==_iff t u).0 same)
            | inr ne ↦ absurd (none u (ground arith))
          ],
        ),
      );
    }

call-IsClosedOnce :
    (status : Status) (f : ℕ → Place) (t calls : ℕ)
    → f t ≡ closing
    → IsClosedOnce status calls f
    → IsClosedOnce status (calls + 1) (move f t idle)
call-IsClosedOnce status f t calls at h = record {
  while_open = λ e. absurd ((h.while_open e).1 t at);
  once_closed = λ e. elim (h.once_closed e) [
    | inl (n, (u, hu, only)) ↦ inr (
      omega (arith, n),
      λ v k. let (ne, hv) = move-closing f t idle v (λ e. cc) k in ne (only t at ∙ sym (only v hv)),
    )
    | inr (n, none) ↦ absurd (none t at)
  ];
}

-- a place that is chosen by a test
either-ne : (b : Bool) (p q : Place) → p ≢ closing → q ≢ closing → (if b then p else q) ≢ closing
either-ne true p q np nq = np
either-ne false p q np nq = nq

Step-ClosedOnce : {s u : System} → Step s u → ClosedOnce s → ClosedOnce u
Step-ClosedOnce {s} (increment_load t p q) h =
    keeps-IsClosedOnce s.place t _ _ p (λ e. cc) (λ e. cc) _ _ h
Step-ClosedOnce {s} (increment_add t p) h =
    keeps-IsClosedOnce s.place t _ _ p (λ e. cc) (λ e. cc) _ _ h
Step-ClosedOnce {s} (decrement_load t p q) h =
    keeps-IsClosedOnce s.place t _ _ p (λ e. cc) (λ e. cc) _ _ h
Step-ClosedOnce {s} (decrement_add t p) h =
    keeps-IsClosedOnce s.place t _ _ p (λ e. cc)
      (either-ne (pred32 s.shared.count == 0) _ _ (λ e. cc) (λ e. cc)) _ _ h
Step-ClosedOnce {s} (decrement_pending t p q) h =
    keeps-IsClosedOnce s.place t _ _ p (λ e. cc) (λ e. cc) _ _ h
Step-ClosedOnce {s} (decrement_done t p q) h =
    keeps-IsClosedOnce s.place t _ _ p (λ e. cc) (λ e. cc) _ _ h
Step-ClosedOnce {s} (close_swap t p q) h =
    let (n, none) = h.while_open (λ e. cc) in
    record {
      while_open = λ e. (n, move-NoneCloses s.place t close_marked (λ e. cc) none);
      once_closed = λ e. cc;
    }
Step-ClosedOnce {s} (close_load t p) h =
    keeps-IsClosedOnce s.place t _ _ p (λ e. cc)
      (either-ne (s.shared.count == 0) _ _ (λ e. cc) (λ e. cc)) _ _ h
Step-ClosedOnce {s} (notify_swap t p q) h =
    swap-IsClosedOnce s.place t s.shared.close_calls
      (subst (λ x. IsClosedOnce x s.shared.close_calls s.place) q h)
Step-ClosedOnce {s} (notify_done t p q) h =
    keeps-IsClosedOnce s.place t _ _ p (λ e. cc) (λ e. cc) _ _ h
Step-ClosedOnce {s} (closer_call t p) h =
    call-IsClosedOnce s.shared.status s.place t s.shared.close_calls p h

-- However the atomic steps of the goroutines interleave, the closer is called at most once, and
-- only when the status is closed, and the call is not lost: from a state in which it has not been
-- called and nobody is about to call it before the status is closed, and afterwards either one
-- goroutine alone is about to make the first call, or it has been called once and nobody is about
-- to call it, this stays so.
pub Reach-ClosedOnce : {s u : System} → Reach s u → ClosedOnce s → ClosedOnce u
Reach-ClosedOnce here h = h
Reach-ClosedOnce (next r st) h = Step-ClosedOnce st (Reach-ClosedOnce r h)
