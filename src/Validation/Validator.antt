-- ===== src/Validation/Validator.antt =====
-- pkg/validation/validator/validator.go: the committer validates a block from the results of
-- several peers, its own among them. What arrives on the results channel, and when a timer fires,
-- is a list of events; the validation of one transaction is code outside the repository, and its
-- results arrive in any order.
pub mod Collect
pub mod Wait
pub mod Validate
use fabric_peer_ext.Prelude.{
  ℕ, zero, suc, ◌+◌, ltb, ◌==◌, Bool, true, false, not, ◌&&◌, if◌then◌else◌, String, str_eq, Option,
  none, some, List, [], ◌∷◌, ◌++◌, length, replicate,
}
use fabric_peer_ext.Prelude.Outcome.{Outcome, ok, err, panic, ◌>>=◌, assign}
use fabric_peer_ext.Validation.TxFlags.{
  Codes, Error, text, not_all_validated, ValidationFlags, new, set_flag, flag,
}
use fabric_peer_ext.Validation.TxResults.{
  TxResults, Block, new_tx_results, merge, all_validated, unvalidated_map,
}
use fabric_peer_ext.Validation.ResultsCache.{Results, Cache, add, remove_block}
use fabric_peer_ext.Validation.Evaluator.{PolicyLibrary, Error as PolicyError, validate_results}

-- the validation library's result for one transaction
pub record BlockValidationResult : Type 0 where
  pub t_idx : ℕ
  pub error : Option String
  pub validation_code : ℕ
  pub txid : String

-- The variables of `validateBlock`: the error of the smallest index so far with that index, the
-- codes and the IDs.
pub record Collected : Type 0 where
  pub first_error : Option (String × ℕ)
  pub flags : ValidationFlags
  pub ids : List String

-- `err == nil || res.TIdx < errPos`
abbrev pub earlier : Option (String × ℕ) → ℕ → Bool
earlier none i = true
earlier (some (_, pos)) i = ltb i pos

module _ (c : Codes) where
  open c use {valid, not_validated}

  -- one round of the loop of `validateBlock`
  unfoldable pub collect_one : BlockValidationResult → Collected → Outcome Error Collected
  collect_one res s = elim res.error [
    | some e ↦ ok (
        if earlier s.first_error res.t_idx
        then record s { first_error = some (e, res.t_idx) }
        else s)
    | none ↦ do
      flags ← set_flag s.flags res.t_idx res.validation_code
      if res.validation_code == valid
          then (do
            ids ← assign s.ids res.t_idx res.txid
            ok (record s { flags = flags; ids = ids }))
          else ok (record s { flags = flags })
  ]

  unfoldable pub collect : List BlockValidationResult → Collected → Outcome Error Collected
  collect [] s = ok s
  collect (res ∷ results) s = do s' ← collect_one res s; collect results s'

  -- `validateBlock` for a block of `size` transactions and the results in the order of arrival
  unfoldable pub validate_block : ℕ → List BlockValidationResult → Outcome Error Collected
  unfolding collect collect_one
  validate_block size results =
      collect results (record { first_error = none; flags = new c size; ids = replicate size "" })

  -- the loop of `getTransactionsToValidate`: `n` rounds from index `i`
  unfoldable pub transactions_from : ℕ → ℕ → ValidationFlags → (ℕ → Bool) → Outcome Error (List ℕ)
  transactions_from zero i filter should_validate = ok []
  transactions_from (suc n) i filter should_validate =
      let rest = transactions_from n (i + 1) filter should_validate in
      if not (should_validate i) then rest else do
        tx_status ← flag filter i
        if not (tx_status == not_validated) then rest else (do txs ← rest; ok (i ∷ txs))

  unfoldable pub get_transactions_to_validate : Block → (ℕ → Bool) → Outcome Error (List ℕ)
  unfolding transactions_from
  get_transactions_to_validate block should_validate =
      transactions_from block.size 0 block.filter should_validate

-- What a wait sees: results on the channel, or its timer.
pub data Event : Type 0 where
  got : Results → Event
  timeout : Event

pub data Ended : Type 0 where
  completed timed_out : Ended

-- `context.Canceled.Error()`
abbrev pub canceled : String
canceled = "context canceled"

module _ (c : Codes) (lib : PolicyLibrary) (self_msp_id : String) where
  -- The committer's state: the cache of results and the policy validator.
  abbrev pub State : Type 0
  State = Cache × Option lib.Policy

  -- the end of `handleResults`, once the policy has been evaluated
  abbrev pub merge_if : Option PolicyError → TxResults → Results → Outcome Error (TxResults × Bool)
  merge_if (some e) tr result = ok (tr, false)
  merge_if none tr result = merge c tr result.tx_flags result.tx_ids

  unfoldable pub handle_results :
      ℕ → Results → State → TxResults → State × Outcome Error (TxResults × Bool)
  unfolding add validate_results
  handle_results block_number result (cache, policy) tr =
      if ltb result.block_number block_number
      then ((cache, policy), ok (tr, false))
      else if ltb block_number result.block_number
      then (((add cache result).0, policy), ok (tr, false))
      else if not (str_eq result.error "")
      then (if str_eq result.error canceled
          then ((cache, policy), ok (tr, false))
          else ((cache, policy), err (text result.error)))
      else let (cache', results) = add cache result in
        let (policy', e) = validate_results lib self_msp_id results policy in
        ((cache', policy'), merge_if e tr result)

  -- Where a wait stands: the state, the accumulated results, and how it ended if it did.
  abbrev pub Waited : Type 0
  Waited = State × TxResults × Option (Outcome Error Ended)

  abbrev pub after_results :
      State × Outcome Error (TxResults × Bool) → TxResults → (State → TxResults → Waited) → Waited
  after_results (st, err e) tr next = (st, tr, some (err e))
  after_results (st, panic) tr next = (st, tr, some panic)
  after_results (st, ok (tr', true)) tr next = (st, tr', some (ok completed))
  after_results (st, ok (tr', false)) tr next = next st tr'

  -- the loop of `waitForValidationResults`; without events left it still waits
  unfoldable pub wait_loop : ℕ → List Event → State → TxResults → Waited
  wait_loop block_number [] st tr = (st, tr, none)
  wait_loop block_number (timeout ∷ events) st tr = (st, tr, some (ok timed_out))
  wait_loop block_number (got result ∷ events) st tr =
      after_results (handle_results block_number result st tr) tr
        (λ st' tr'. wait_loop block_number events st' tr')

  -- The cached results of the block leave the cache and are put on the channel again: they come
  -- back among the events.
  unfoldable pub wait_for_validation_results : ℕ → List Event → State → TxResults → Waited
  unfolding wait_loop
  wait_for_validation_results block_number events (cache, policy) tr =
      wait_loop block_number events ((remove_block cache block_number).0, policy) tr

  -- `make sure no transaction has skipped validation`
  abbrev pub checked : ℕ → TxResults → Outcome Error ValidationFlags
  checked block_number tr =
      if all_validated c tr.flags then ok tr.flags else err (not_all_validated block_number)

  abbrev pub after_second : ℕ → Waited → State × Option (Outcome Error ValidationFlags)
  after_second block_number (st, tr, none) = (st, none)
  after_second block_number (st, tr, some (ok e)) = (st, some (checked block_number tr))
  after_second block_number (st, tr, some (err e)) = (st, some (err e))
  after_second block_number (st, tr, some panic) = (st, some panic)

  abbrev pub is_empty : List ℕ → Bool
  is_empty [] = true
  is_empty (_ ∷ _) = false

  abbrev pub second_wait :
      ℕ → List Event → State → TxResults → State × Option (Outcome Error ValidationFlags)
  second_wait block_number events st tr =
      if is_empty (unvalidated_map c tr)
      then (st, some (checked block_number tr))
      else after_second block_number (wait_for_validation_results block_number events st tr)

  -- An error of the first wait is only logged.
  abbrev pub after_first : ℕ → List Event → Waited → State × Option (Outcome Error ValidationFlags)
  after_first block_number events (st, tr, none) = (st, none)
  after_first block_number events (st, tr, some (ok e)) = second_wait block_number events st tr
  after_first block_number events (st, tr, some (err e)) = second_wait block_number events st tr
  after_first block_number events (st, tr, some panic) = (st, some panic)

  abbrev pub with_results :
      ℕ
      → List Event
      → List Event
      → State
      → Outcome Error TxResults
      → State × Option (Outcome Error ValidationFlags)
  with_results block_number first second st (ok tr) =
      after_first block_number second (wait_for_validation_results block_number first st tr)
  with_results block_number first second st (err e) = (st, some (err e))
  with_results block_number first second st panic = (st, some panic)

  -- `Validate` for a block of `size` transactions, with the events of its two waits. The answer is
  -- what is stored in the block's metadata, an error, or none while it waits.
  unfoldable pub validate :
      ℕ → ℕ → List Event → List Event → State → State × Option (Outcome Error ValidationFlags)
  unfolding wait_for_validation_results
  validate block_number size first second st =
      with_results block_number first second st
        (new_tx_results c (record { number = block_number; size = size; filter = new c size }))
