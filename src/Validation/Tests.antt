-- ===== src/Validation/Tests.antt =====
-- Runs of the validation model and instances of its theorems.
use fabric_peer_ext.Prelude.{
  ℕ, ◌≡◌, ◌≢◌, ◌<◌, refl, Bool, true, some, [], ◌∷◌, get_elem?, take, arith, if◌then◌else◌,
}
use fabric_peer_ext.Prelude.Outcome.{ok}
use fabric_peer_ext.Validation.TxFlags.{Codes}
use fabric_peer_ext.Validation.TxResults.{
  TxResults, merge_at, merge_loop, mark_at, mark_loop, merge, all_validated, copy_flags,
  new_tx_results, contains,
}
use fabric_peer_ext.Validation.TxResults.Merged.{merge-at_index}

pub codes-duplicate : ◌≢◌ {A = ℕ} 9 254
codes-duplicate = omega arith

pub codes-valid : ◌≢◌ {A = ℕ} 0 254
codes-valid = omega arith

pub codes-byte : 9 < 256
codes-byte = omega arith

pub codes-byte' : 254 < 256
codes-byte' = omega arith

abbrev pub codes : Codes
codes = record {
  valid = 0;
  duplicate_txid = 9;
  not_validated = 254;
  duplicate_byte = codes-byte;
  not_validated_byte = codes-byte';
  duplicate_ne_not_validated = codes-duplicate;
  valid_ne_not_validated = codes-valid;
}

program : Unit {0}
unfolding merge_at merge_loop mark_at mark_loop merge all_validated copy_flags new_tx_results
program = tt

-- Three transactions, the first of which is valid.
abbrev partial : TxResults
partial = record { flags = 0 ∷ 254 ∷ 254 ∷ []; tx_ids = "a" ∷ "" ∷ "" ∷ []; block_number = 7 }

abbrev complete : TxResults
complete = record { flags = 0 ∷ 9 ∷ 11 ∷ []; tx_ids = "a" ∷ "a" ∷ "" ∷ []; block_number = 7 }

partial-merge : merge codes partial (254 ∷ 0 ∷ 11 ∷ []) ("" ∷ "a" ∷ "" ∷ []) ≡ ok (complete, true)
unfolding program
partial-merge = refl

merge-at_index_example :
    (r' : TxResults) × (done : Bool) × (merge codes partial (254 ∷ 0 ∷ 11 ∷ []) ("" ∷ "a" ∷ "" ∷ [])
      ≡ ok (r', done))
    × (get_elem? r'.tx_ids 1 ≡ some "a")
    × (get_elem? r'.flags 1 ≡ some (if contains (take 1 r'.tx_ids) "a" then 9 else 0))
merge-at_index_example =
    merge-at_index codes partial (254 ∷ 0 ∷ 11 ∷ []) ("" ∷ "a" ∷ "" ∷ []) 1 refl refl refl refl refl
      refl refl
