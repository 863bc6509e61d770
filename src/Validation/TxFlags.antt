-- ===== src/Validation/TxFlags.antt =====
-- pkg/common/txflags/validation_flags.go: one validation code, a byte, for each transaction of a
-- block. The numbers of the codes are those of the protocol's `peer.TxValidationCode`, which is
-- generated code outside the repository: `Codes` is a parameter.
use fabric_peer_ext.Prelude.{ℕ, ◌%◌, ◌<◌, ◌≢◌, String, List, replicate}
use fabric_peer_ext.Prelude.Outcome.{Outcome, index, assign}

pub record Codes : Type 0 where
  pub valid : ℕ
  pub duplicate_txid : ℕ
  pub not_validated : ℕ
  pub duplicate_byte : duplicate_txid < 256
  pub not_validated_byte : not_validated < 256
  pub duplicate_ne_not_validated : duplicate_txid ≢ not_validated
  pub valid_ne_not_validated : valid ≢ not_validated

-- The errors of pkg/validation.
pub data Error : Type 0 where
  flags_length : ℕ → ℕ → Error
  tx_ids_length : ℕ → ℕ → Error
  -- an error with a text, as a peer sends it
  text : String → Error
  no_local_results : ℕ → Error
  not_all_validated : ℕ → Error

abbrev pub ValidationFlags : Type 0
ValidationFlags = List ℕ

abbrev pub uint8 : ℕ → ℕ
uint8 n = n % 256

abbrev pub new_with_values : ℕ → ℕ → ValidationFlags
new_with_values size value = replicate size (uint8 value)

abbrev pub new : Codes → ℕ → ValidationFlags
new c size = new_with_values size c.not_validated

abbrev pub set_flag : ValidationFlags → ℕ → ℕ → Outcome Error ValidationFlags
set_flag obj tx_index flag = assign obj tx_index (uint8 flag)

abbrev pub flag : ValidationFlags → ℕ → Outcome Error ℕ
flag obj tx_index = index obj tx_index
