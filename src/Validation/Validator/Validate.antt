-- ===== src/Validation/Validator/Validate.antt =====
-- `Validate` of pkg/validation/validator/validator.go: what it stores in the block's metadata.
use native.Mathlib.Nat.{mod-eq_of_lt}
use fabric_peer_ext.Prelude.{
  ℕ, zero, suc, ◌+◌, ◌≤◌, ◌<◌, ◌≡◌, ◌≢◌, ◌⊎◌, refl, ap, ◌∙◌, subst, String, Option, none, some,
  List, [], length, length-replicate, replicate, get_elem?, All, arith, Bool-cases, inl, inr,
}
use fabric_peer_ext.Prelude.Outcome.{Outcome, ok, err, panic, index, assign}
use fabric_peer_ext.Validation.TxFlags.{Codes, Error, ValidationFlags, uint8, new}
use fabric_peer_ext.Validation.TxResults.{
  TxResults, copy_flags, new_tx_results, all_validated, unvalidated_map,
}
use fabric_peer_ext.Validation.TxResults.Merged.{all_validated-iff-All}
use fabric_peer_ext.Validation.ResultsCache.{Results, remove_block}
use fabric_peer_ext.Validation.Evaluator.{PolicyLibrary}
use fabric_peer_ext.Validation.Validator.{
  Event, State, Waited, wait_loop, wait_for_validation_results, is_empty, checked, after_second,
  second_wait, after_first, validate,
}
use fabric_peer_ext.Validation.Validator.Wait.{IsAccepted, Source, IsSourced, wait_loop-IsSourced}

index-replicate : {E : Type 0} (n i v : ℕ) → i < n → index {E = E} (replicate n v) i ≡ ok v
index-replicate zero i v h = absurd (omega arith)
index-replicate (suc n) zero v h = refl
index-replicate (suc n) (suc i) v h = index-replicate n i v (omega arith)

assign-replicate :
    {E : Type 0} (n i v w : ℕ)
    → i < n
    → w ≡ v
    → assign {E = E} (replicate n v) i w ≡ ok (replicate n v)
assign-replicate zero i v w h e = absurd (omega arith)
assign-replicate (suc n) zero v w h e = rw e
assign-replicate {E} (suc n) (suc i) v w h e = rw (assign-replicate {E = E} n i v w (omega arith) e)

get_elem?-replicate : (n i v : ℕ) {x : ℕ} → get_elem? (replicate n v) i ≡ some x → x ≡ v
get_elem?-replicate zero i v h = cc
get_elem?-replicate (suc n) zero v h = cc
get_elem?-replicate (suc n) (suc i) v h = get_elem?-replicate n i v h

module _ (c : Codes) where
  open c use {not_validated, duplicate_txid}

  copy_flags-new :
      (n i size : ℕ) → i + n ≤ size → copy_flags c n i (new c size) (new c size) ≡ ok (new c size)
  unfolding copy_flags
  copy_flags-new zero i size h = refl
  copy_flags-new (suc n) i size h =
      rw
        (
          index-replicate {E = Error} size i (uint8 not_validated) (omega arith),
          assign-replicate {E = Error} size i (uint8 not_validated) (uint8 (uint8 not_validated))
              (omega arith) (omega arith),
        )
        (copy_flags-new n (i + 1) size (omega arith))

  abbrev fresh : ℕ → ℕ → TxResults
  fresh block_number size = record {
    flags = new c size;
    tx_ids = replicate (length (new c size)) "";
    block_number = block_number;
  }

  new_tx_results-fresh :
      (block_number size : ℕ)
      → new_tx_results c (record { number = block_number; size = size; filter = new c size })
        ≡ ok (fresh block_number size)
  unfolding new_tx_results
  new_tx_results-fresh block_number size = rw (copy_flags-new size 0 size (omega arith))

  module _ (lib : PolicyLibrary) (self_msp_id : String) (block_number : ℕ) (size : ℕ) where
    fresh-IsSourced :
        (P : Results → Type 0)
        → IsSourced c lib self_msp_id block_number size P (fresh block_number size)
    fresh-IsSourced P = record {
      aligned = length-replicate (length (new c size)) "";
      sized = length-replicate size (uint8 not_validated);
      source = λ j x h.
          inl (
            get_elem?-replicate size j (uint8 not_validated) h ∙ mod-eq_of_lt c.not_validated_byte);
    }

    -- One code for each transaction; all are set; a code that is not DUPLICATE_TXID is, at its
    -- index, that of results with `P`.
    pub record IsValidated (P : Results → Type 0) (flags : ValidationFlags) : Type 0 where
      pub sized : length flags ≡ size
      pub all_set : All (λ f. f ≢ not_validated) flags
      pub sourced :
          (j x : ℕ) → get_elem? flags j ≡ some x → Source c lib self_msp_id block_number size P j x

    -- Results that `wait_for_validation_results` accepts when it starts with `st` and `tr`: the
    -- cached results of the block have left the cache.
    abbrev pub IsAcceptedFrom : List Event → State c lib self_msp_id → TxResults → Results → Type 0
    IsAcceptedFrom events st tr r =
        IsAccepted c lib self_msp_id block_number size events
          ((remove_block (st.0) block_number).0, st.1) tr r

    module _ (first second : List Event) (st0 : State c lib self_msp_id) where
      -- the first wait, from the results with which `Validate` starts
      abbrev pub first_wait : Waited c lib self_msp_id
      first_wait =
          wait_for_validation_results c lib self_msp_id block_number first st0
            (fresh block_number size)

      -- Results that one of the two waits accepts.
      abbrev pub IsFrom : Results → Type 0
      IsFrom r =
          IsAcceptedFrom first st0 (fresh block_number size) r
          ⊎ IsAcceptedFrom second first_wait.0 first_wait.1 r

      abbrev Sourced : TxResults → Type 0
      Sourced = IsSourced c lib self_msp_id block_number size IsFrom

      wait-Sourced :
          (events : List Event) (st : State c lib self_msp_id) (tr : TxResults)
          → ((r : Results) → IsAcceptedFrom events st tr r → IsFrom r)
          → Sourced tr
          → Sourced (wait_for_validation_results c lib self_msp_id block_number events st tr).1
      unfolding wait_for_validation_results wait_loop
      wait-Sourced events (cache, policy) tr sound s =
          (wait_loop-IsSourced c lib self_msp_id block_number size events
            ((remove_block cache block_number).0, policy) tr IsFrom sound [] events
            ((remove_block cache block_number).0, policy) tr refl refl s).0

      abbrev Good : Option (Outcome Error ValidationFlags) → Type 0
      Good (some (ok flags)) = IsValidated IsFrom flags
      Good _ = Unit

      checked-Good :
          (tr : TxResults) → Sourced tr → Good (some (checked c lib self_msp_id block_number tr))
      checked-Good tr s = elim (Bool-cases (all_validated c tr.flags)) [
        | inl all_set ↦ rw all_set (record {
          sized = s.sized;
          all_set = (all_validated-iff-All c tr.flags).0 all_set;
          sourced = s.source;
        })
        | inr missing ↦ rw missing tt
      ]

      after_second-Good :
          (w : Waited c lib self_msp_id)
          → Sourced (w.1)
          → Good (after_second c lib self_msp_id block_number w).1
      after_second-Good (st, tr, none) s = tt
      after_second-Good (st, tr, some (ok e)) s = checked-Good tr s
      after_second-Good (st, tr, some (err e)) s = tt
      after_second-Good (st, tr, some panic) s = tt

      second_wait-Good :
          (st : State c lib self_msp_id) (tr : TxResults)
          → ((r : Results) → IsAcceptedFrom second st tr r → IsFrom r)
          → Sourced tr
          → Good (second_wait c lib self_msp_id block_number second st tr).1
      second_wait-Good st tr sound s =
          elim (Bool-cases (is_empty c lib self_msp_id (unvalidated_map c tr))) [
            | inl done ↦ rw done (checked-Good tr s)
            | inr more ↦ rw more (
                after_second-Good
                  (wait_for_validation_results c lib self_msp_id block_number second st tr)
                  (wait-Sourced second st tr sound s))
          ]

      after_first-Good :
          (w : Waited c lib self_msp_id)
          → ((r : Results) → IsAcceptedFrom second w.0 w.1 r → IsFrom r)
          → Sourced (w.1)
          → Good (after_first c lib self_msp_id block_number second w).1
      after_first-Good (st, tr, none) sound s = tt
      after_first-Good (st, tr, some (ok e)) sound s = second_wait-Good st tr sound s
      after_first-Good (st, tr, some (err e)) sound s = second_wait-Good st tr sound s
      after_first-Good (st, tr, some panic) sound s = tt

      -- The codes that `Validate` stores: one for each transaction of the block, none of them
      -- NOT_VALIDATED, and each is DUPLICATE_TXID or, at its index, the code in results that were
      -- received in one of the two waits, are for this block and without an error, and with the
      -- cache and the policy validator that the events before them have left, from the start of
      -- that wait, end a set of results that the policy accepts.
      pub validate_sourced :
          {st' : State c lib self_msp_id} {flags : ValidationFlags}
          → validate c lib self_msp_id block_number size first second st0 ≡ (st', some (ok flags))
          → IsValidated IsFrom flags
      unfolding validate
      validate_sourced h = subst Good (ap (λ w. w.1) h) (
          rw new_tx_results-fresh (
            after_first-Good first_wait (λ r a. inr a)
              (wait-Sourced first st0 (fresh block_number size) (λ r a. inl a)
                (fresh-IsSourced IsFrom))))
