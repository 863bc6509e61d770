-- ===== src/Validation/Validator/Wait.antt =====
-- The committer's side of pkg/validation/validator/validator.go: where the codes of a validated
-- block come from.
use fabric_peer_ext.Prelude.{
  ℕ, ltb, ◌==◌, ◌≡◌, ◌⊎◌, refl, sym, ap, ◌∙◌, append_assoc, subst, Bool, true, false, String,
  str_eq, Option, none, some, List, [], ◌∷◌, ◌++◌, length, get_elem?, arith, Bool-cases,
  Option-cases, inl, inr,
}
use fabric_peer_ext.Prelude.Outcome.{Outcome, ok, err, panic}
use fabric_peer_ext.Validation.TxFlags.{Codes, Error, uint8}
use fabric_peer_ext.Validation.TxResults.{TxResults, merge, all_validated}
use fabric_peer_ext.Validation.TxResults.Aligned.{merge_code}
use fabric_peer_ext.Validation.TxResults.Merged.{
  IsAligned, merge-IsAligned, merge-eq-ok, length-merge, merge_source,
}
use fabric_peer_ext.Validation.ResultsCache.{Results, segment_of, get, hash, add}
use fabric_peer_ext.Validation.Evaluator.{PolicyLibrary, validate_results}
use fabric_peer_ext.Validation.Validator.{
  Event, got, timeout, Ended, completed, State, handle_results, after_results, Waited, wait_loop,
}

module _ (c : Codes) (lib : PolicyLibrary) (self_msp_id : String) (block_number : ℕ)
    (size : ℕ) where
  open c use {not_validated, duplicate_txid}

  -- A code is not set, is DUPLICATE_TXID, or is that of results with `P` at the same index.
  abbrev pub Source : (Results → Type 0) → ℕ → ℕ → Type 0
  Source P j x =
      (x ≡ not_validated)
      ⊎ (x ≡ uint8 duplicate_txid)
      ⊎ ((r : Results) × P r × (f : ℕ) × (get_elem? r.tx_flags j ≡ some f) × (x ≡ uint8 f))

  pub record IsSourced (P : Results → Type 0) (tr : TxResults) : Type 0 where
    pub aligned : IsAligned tr
    pub sized : length tr.flags ≡ size
    pub source : (j x : ℕ) → get_elem? tr.flags j ≡ some x → Source P j x

  merged-Source :
      (P : Results → Type 0) (r : Results) (j f x y : ℕ)
      → P r
      → get_elem? r.tx_flags j ≡ some f
      → Source P j x
      → (y ≡ uint8 duplicate_txid) ⊎ (y ≡ merge_code c f x)
      → Source P j y
  merged-Source P r j f x y p hf old (inl e) = inr (inl e)
  merged-Source P r j f x y p hf old (inr e) = elim (Bool-cases (f == not_validated)) [
    | inl skip ↦ subst (Source P j) (sym (kept skip)) old
    | inr take ↦ elim (Bool-cases (x == not_validated)) [
      | inl new ↦ inr (inr (r, p, f, hf, ground (arith, e, take, new)))
      | inr set ↦ subst (Source P j) (sym (still take set)) old
    ]
  ]
    where
      kept : (f == not_validated) ≡ true → y ≡ x
      kept skip = ground (arith, e, skip)

      still : (f == not_validated) ≡ false → (x == not_validated) ≡ false → y ≡ x
      still take set = ground (arith, e, take, set)

  merge-IsSourced :
      (P : Results → Type 0) (tr : TxResults) (r : Results) {tr' : TxResults} {done : Bool}
      → IsSourced P tr
      → P r
      → merge c tr r.tx_flags r.tx_ids ≡ ok (tr', done)
      → IsSourced P tr'
  merge-IsSourced P tr r {tr'} s p h = record {
    aligned = merge-IsAligned c tr r.tx_flags r.tx_ids s.aligned h;
    sized = length-merge c tr r.tx_flags r.tx_ids s.aligned h ∙ s.sized;
    source = λ j y hy.
        let (f, x, hf, hx, from) = merge_source c tr r.tx_flags r.tx_ids j s.aligned h hy in
        merged-Source P r j f x y p hf (s.source j x hx) from;
  }

  -- The results are for the block and without error, and with the state `held` the policy accepts
  -- the set that they make with those of the cache that agree with them.
  pub record Accepts (held : State c lib self_msp_id) (r : Results) : Type 0 where
    pub for_block : r.block_number ≡ block_number
    pub no_error : str_eq r.error "" ≡ true
    pub satisfied : (validate_results lib self_msp_id (add held.0 r).1 held.1).1 ≡ none

  handle_results-eq-ok :
      (r : Results) (st : State c lib self_msp_id) (tr : TxResults) {tr' : TxResults} {done : Bool}
      → (handle_results c lib self_msp_id block_number r st tr).1 ≡ ok (tr', done)
      → ((tr' ≡ tr) × (done ≡ false))
        ⊎ (Accepts st r × (merge c tr r.tx_flags r.tx_ids ≡ ok (tr', done)))
  unfolding handle_results add
  handle_results-eq-ok r (cache, policy) tr h =
      elim (Bool-cases (ltb r.block_number block_number)) [
        | inl past ↦ inl (ground (arith, h, past))
        | inr not_past ↦ elim (Bool-cases (ltb block_number r.block_number)) [
          | inl future ↦ inl (ground (arith, h, future))
          | inr not_future ↦ elim (Bool-cases (str_eq r.error "")) [
            | inr failed ↦ inl (ground (arith, h, failed))
            | inl fine ↦
                let old = segment_of (get cache r.block_number) (hash r.tx_flags) in
                elim (Option-cases (validate_results lib self_msp_id (old ++ r ∷ []) policy).1) [
                  | inr (e, refused) ↦ inl (ground (arith, h, not_past, not_future, fine, refused))
                  | inl accepted ↦ inr (
                    record {
                      for_block = ground (arith, not_past, not_future);
                      no_error = fine;
                      satisfied = accepted;
                    },
                    ground (arith, h, not_past, not_future, fine, accepted),
                  )
                ]
          ]
        ]
      ]

  -- The results arrive in a wait that starts with `st` and `tr`; the events before them leave the
  -- wait open, with a state in which they are accepted.
  pub record IsAccepted (events : List Event) (st : State c lib self_msp_id) (tr : TxResults)
      (r : Results) : Type 0 where
    pub before : List Event
    pub after : List Event
    pub held : State c lib self_msp_id
    pub seen : TxResults
    pub arrival : events ≡ before ++ got r ∷ after
    pub waited : wait_loop c lib self_msp_id block_number before st tr ≡ (held, seen, none)
    pub accepts : Accepts held r

  -- What an end of the wait means.
  abbrev pub EndsDone : Option (Outcome Error Ended) → TxResults → Type 0
  EndsDone (some (ok completed)) tr = all_validated c tr.flags ≡ true
  EndsDone _ tr = Unit

  handle_results-IsSourced :
      (P : Results → Type 0) (r : Results) (st : State c lib self_msp_id) (tr : TxResults)
      {tr' : TxResults} {done : Bool}
      → IsSourced P tr
      → (Accepts st r → P r)
      → (handle_results c lib self_msp_id block_number r st tr).1 ≡ ok (tr', done)
      → IsSourced P tr' × (done ≡ true → all_validated c tr'.flags ≡ true)
  handle_results-IsSourced P r st tr s p h = elim (handle_results-eq-ok r st tr h) [
    | inl (same, open_still) ↦ (subst (IsSourced P) (sym same) s, λ d. cc)
    | inr (accepted, m) ↦ (
      merge-IsSourced P tr r s (p accepted) m,
      λ d. sym (merge-eq-ok c tr r.tx_flags r.tx_ids s.aligned m).3 ∙ d,
    )
  ]

  -- A wait that is open after `xs` goes on with `ys` from where it stands.
  wait_loop-append :
      (xs ys : List Event) (st held : State c lib self_msp_id) (tr seen : TxResults)
      → wait_loop c lib self_msp_id block_number xs st tr ≡ (held, seen, none)
      → wait_loop c lib self_msp_id block_number (xs ++ ys) st tr
        ≡ wait_loop c lib self_msp_id block_number ys held seen
  unfolding wait_loop
  wait_loop-append [] ys st held tr seen h = cc
  wait_loop-append (timeout ∷ xs) ys st held tr seen h = cc
  wait_loop-append (got r ∷ xs) ys st held tr seen h =
      step (handle_results c lib self_msp_id block_number r st tr)
        (λ st' tr'. wait_loop-append xs ys st' held tr' seen) h
    where
      GoesOn : State c lib self_msp_id → TxResults → Type 0
      GoesOn st' tr' =
          wait_loop c lib self_msp_id block_number xs st' tr' ≡ (held, seen, none)
          → wait_loop c lib self_msp_id block_number (xs ++ ys) st' tr'
            ≡ wait_loop c lib self_msp_id block_number ys held seen

      step :
          (o : State c lib self_msp_id × Outcome Error (TxResults × Bool))
          → ((st' : State c lib self_msp_id) (tr' : TxResults) → GoesOn st' tr')
          → after_results c lib self_msp_id o tr
              (λ st' tr'. wait_loop c lib self_msp_id block_number xs st' tr')
            ≡ (held, seen, none)
          → after_results c lib self_msp_id o tr
              (λ st' tr'. wait_loop c lib self_msp_id block_number (xs ++ ys) st' tr')
            ≡ wait_loop c lib self_msp_id block_number ys held seen
      step (st', err e) ih k = cc
      step (st', panic) ih k = cc
      step (st', ok (tr', true)) ih k = cc
      step (st', ok (tr', false)) ih k = ih st' tr' k

  module _ (all_events : List Event) (st0 : State c lib self_msp_id) (tr0 : TxResults)
      (P : Results → Type 0) (sound : (r : Results) → IsAccepted all_events st0 tr0 r → P r) where
    pub wait_loop-IsSourced :
        (before events : List Event) (st : State c lib self_msp_id) (tr : TxResults)
        → all_events ≡ before ++ events
        → wait_loop c lib self_msp_id block_number before st0 tr0 ≡ (st, tr, none)
        → IsSourced P tr
        → IsSourced P (wait_loop c lib self_msp_id block_number events st tr).1
          × EndsDone
              (wait_loop c lib self_msp_id block_number events st tr).2
              (wait_loop c lib self_msp_id block_number events st tr).1
    unfolding wait_loop
    wait_loop-IsSourced before [] st tr split w s = (s, tt)
    wait_loop-IsSourced before (timeout ∷ events) st tr split w s = (s, tt)
    wait_loop-IsSourced before (got r ∷ events) st tr split w s =
        step (handle_results c lib self_msp_id block_number r st tr) refl (λ st' tr'.
          wait_loop-IsSourced (before ++ got r ∷ []) events st' tr'
            (split ∙ sym (append_assoc before (got r ∷ []) events)))
      where
        Q : Waited c lib self_msp_id → Type 0
        Q v = IsSourced P (v.1) × EndsDone (v.2) (v.1)

        good : Accepts st r → P r
        good a = sound r (record {
          before = before;
          after = events;
          held = st;
          seen = tr;
          arrival = split;
          waited = w;
          accepts = a;
        })

        step :
            (o : State c lib self_msp_id × Outcome Error (TxResults × Bool))
            → handle_results c lib self_msp_id block_number r st tr ≡ o
            → ((st' : State c lib self_msp_id) (tr' : TxResults)
                → wait_loop c lib self_msp_id block_number (before ++ got r ∷ []) st0 tr0
                  ≡ (st', tr', none)
                → IsSourced P tr'
                → Q (wait_loop c lib self_msp_id block_number events st' tr'))
            → Q (
                after_results c lib self_msp_id o tr
                  (λ st' tr'. wait_loop c lib self_msp_id block_number events st' tr'))
        step (st', err e) h ih = (s, tt)
        step (st', panic) h ih = (s, tt)
        step (st', ok (tr', true)) h ih =
            let (s', done) = handle_results-IsSourced P r st tr s good (ap (λ o. o.1) h) in
            (s', done refl)
        step (st', ok (tr', false)) h ih =
            ih st' tr'
              (wait_loop-append before (got r ∷ []) st0 st tr0 tr w
                ∙ ap (λ o. after_results c lib self_msp_id o tr (λ st' tr'. (st', tr', none))) h)
              (handle_results-IsSourced P r st tr s good (ap (λ o. o.1) h)).0
