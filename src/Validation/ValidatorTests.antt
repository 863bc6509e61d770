-- ===== src/Validation/ValidatorTests.antt =====
-- Runs of the committer's validation and instances of its theorems.
use mathlib.Core.List.{Permᴰ}
use fabric_peer_ext.Prelude.{
  ℕ, ◌≡◌, refl, Bool, true, false, String, Option, none, some, List, [], ◌∷◌, ◌++◌, arith,
}
use fabric_peer_ext.Prelude.Outcome.{ok}
use fabric_peer_ext.Prelude.Assoc.{lookup, put, remove, nat_eq}
use fabric_peer_ext.Validation.TxResults.{
  merge_at, merge_loop, mark_at, mark_loop, merge, all_validated, unvalidated_from, copy_flags,
  new_tx_results,
}
use fabric_peer_ext.Validation.ResultsCache.{Results, hash, add, remove_block}
use fabric_peer_ext.Validation.Evaluator.{PolicyLibrary, validate_results}
use fabric_peer_ext.Validation.Evaluator.Laws.{
  AllForeign, IsReliable, validate_results-IsReliable, with_ids, validate_results-with_ids,
}
use fabric_peer_ext.Validation.Validator.{
  BlockValidationResult, Collected, validate_block, Event, got, timeout, State, validate,
  handle_results, wait_loop, wait_for_validation_results,
}
use fabric_peer_ext.Validation.Validator.Collect.{validate_block-perm}
use fabric_peer_ext.Validation.Validator.Validate.{IsValidated, IsFrom, validate_sourced}
use fabric_peer_ext.Validation.Tests.{codes}

-- A policy that asks for a signature.
abbrev signed_once : PolicyLibrary
signed_once = record {
  Policy = Unit;
  signed_by_msp_member = λ msp. some [];
  new_policy = λ bytes. some tt;
  evaluate_signed_data = λ policy signed. elim signed [ [] ↦ some "no signature" | d ∷ _ ↦ none ];
}

abbrev from_peer : List ℕ → List String → Bool → String → Results
from_peer flags ids local msp = record {
  block_number = 7;
  tx_flags = flags;
  tx_ids = ids;
  error = "";
  endpoint = "peer";
  local = local;
  msp_id = msp;
  signature = 1 ∷ [];
  identity = [];
}

abbrev mine : Results
mine = from_peer (0 ∷ 254 ∷ []) ("a" ∷ "" ∷ []) true "Org1MSP"

abbrev theirs : Results
theirs = from_peer (254 ∷ 0 ∷ []) ("" ∷ "b" ∷ []) false "Org1MSP"

abbrev foreign : Results
foreign = from_peer (254 ∷ 9 ∷ []) ("" ∷ "c" ∷ []) false "Org2MSP"

program : Unit {0}
unfolding merge_at merge_loop mark_at mark_loop merge all_validated unvalidated_from copy_flags
    new_tx_results hash add remove_block validate_results handle_results wait_loop
    wait_for_validation_results validate validate_block lookup put remove
program = tt

accepted : (validate_results signed_once "Org1MSP" (foreign ∷ theirs ∷ []) none).1 ≡ none
unfolding program
accepted = refl

validate_results-IsReliable_example :
    (before : List Results) × (r : Results) × (after : List Results) × (foreign ∷ theirs ∷ []
      ≡ before ++ r ∷ after)
    × AllForeign signed_once "Org1MSP" before
    × IsReliable signed_once "Org1MSP" none r
validate_results-IsReliable_example =
    validate_results-IsReliable signed_once "Org1MSP" (foreign ∷ theirs ∷ []) none accepted

validate_results-with_ids_example :
    validate_results signed_once "Org1MSP"
      (with_ids signed_once "Org1MSP" (λ r. "x" ∷ []) (foreign ∷ theirs ∷ []))
      none
    ≡ validate_results signed_once "Org1MSP" (foreign ∷ theirs ∷ []) none
validate_results-with_ids_example =
    validate_results-with_ids signed_once "Org1MSP" (λ r. "x" ∷ []) (foreign ∷ theirs ∷ []) none

abbrev tx : ℕ → Option String → BlockValidationResult
tx i e = record { t_idx = i; error = e; validation_code = 0; txid = "id" }

validate_block-perm_example :
    (s : Collected) × (validate_block codes 2 (tx 0 none ∷ tx 1 (some "failed") ∷ []) ≡ ok s)
    × (validate_block codes 2 (tx 1 (some "failed") ∷ tx 0 none ∷ []) ≡ ok s)
validate_block-perm_example =
    validate_block-perm codes 2 (tx 0 none ∷ tx 1 (some "failed") ∷ [])
      (tx 1 (some "failed") ∷ tx 0 none ∷ []) (Permᴰ.swap refl refl) (omega arith) (omega arith)

-- The own results arrive in the first wait, those of another peer after its timer.
abbrev first : List Event
first = got foreign ∷ got mine ∷ timeout ∷ []

abbrev second : List Event
second = got theirs ∷ []

abbrev after : State codes signed_once "Org1MSP"
after = (validate codes signed_once "Org1MSP" 7 2 first second ([], none)).0

validated :
    validate codes signed_once "Org1MSP" 7 2 first second ([], none)
    ≡ (after, some (ok (0 ∷ 0 ∷ [])))
unfolding program
validated = refl

validate_sourced_example :
    IsValidated codes signed_once "Org1MSP" 7 2
      (IsFrom codes signed_once "Org1MSP" 7 2 first second ([], none))
      (0 ∷ 0 ∷ [])
validate_sourced_example =
    validate_sourced codes signed_once "Org1MSP" 7 2 first second ([], none) validated
