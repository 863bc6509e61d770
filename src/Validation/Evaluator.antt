-- ===== src/Validation/Evaluator.antt =====
-- `ValidateResults` and `GetDataToSign` of pkg/validation/validationpolicy/policyevaluator.go:
-- whether a set of validation results comes from a reliable source.
pub mod Laws
use fabric_peer_ext.Prelude.{
  ℕ, zero, suc, ◌+◌, ◌/◌, ◌%◌, ltb, Bool, not, if◌then◌else◌, String, str_eq, Option, none, some,
  List, [], ◌∷◌, ◌++◌, replicate,
}
use fabric_peer_ext.Validation.ResultsCache.{Results}

-- The policy library of the peer and the marshalling of the policy that asks for a signature by
-- a member of an MSP: code outside the repository.
pub record SignedData : Type 0 where
  pub payload : List ℕ
  pub signature : List ℕ
  pub identity : List ℕ

pub record PolicyLibrary : Type 1 where
  pub Policy : Type 0
  -- the marshalled policy, unless marshalling fails
  pub signed_by_msp_member : String → Option (List ℕ)
  pub new_policy : List ℕ → Option Policy
  -- the text of an error, if the policy is not satisfied
  pub evaluate_signed_data : Policy → List SignedData → Option String

pub data Error : Type 0 where
  no_policy_validator : Error
  not_satisfied : String → Error
  no_local_org_results : ℕ → Error
  index_out_of_range : Error

-- `binary.PutUvarint` of Go's encoding/binary; `n` is the room that is left in the buffer, and
-- the bytes behind the last one written stay 0
unfoldable pub put_uvarint : ℕ → ℕ → List ℕ
put_uvarint zero x = []
put_uvarint (suc n) x =
    let rest = put_uvarint n (x / 128) in
    if ltb x 128 then x ∷ replicate n 0 else (x % 128 + 128) ∷ rest

-- `binary.MaxVarintLen64`
abbrev pub max_varint_len64 : ℕ
max_varint_len64 = 10

unfoldable pub get_data_to_sign : ℕ → List ℕ → List ℕ → List ℕ
unfolding put_uvarint
get_data_to_sign block_num tx_flags identity =
    put_uvarint max_varint_len64 block_num ++ (tx_flags ++ identity)

unfoldable pub get_signature_set : List Results → List SignedData
get_signature_set [] = []
get_signature_set (vr ∷ rest) =
    record {
      payload = get_data_to_sign vr.block_number vr.tx_flags vr.identity;
      signature = vr.signature;
      identity = vr.identity;
    }
    ∷ get_signature_set rest

module _ (lib : PolicyLibrary) (self_msp_id : String) where
  open lib use {Policy, signed_by_msp_member, new_policy, evaluate_signed_data}

  abbrev new_validator : Option (List ℕ) → Option Policy
  new_validator none = none
  new_validator (some bytes) = new_policy bytes

  -- The state is the field `policyValidator`; a new policy is stored, a failure leaves it.
  unfoldable pub get_policy_validator : Option Policy → Option Policy × Option Policy
  get_policy_validator (some policy) = (some policy, some policy)
  get_policy_validator none =
      let created = new_validator (signed_by_msp_member self_msp_id) in (created, created)

  abbrev verdict : Option Policy → Results → Option Error
  verdict none result = some no_policy_validator
  verdict (some policy) result =
      elim (evaluate_signed_data policy (get_signature_set (result ∷ []))) [
        | none ↦ none
        | some text ↦ some (not_satisfied text)
      ]

  -- `results[0].BlockNumber` in the error at the end
  abbrev no_results : List Results → Error
  no_results [] = index_out_of_range
  no_results (first ∷ _) = no_local_org_results first.block_number

  -- The loop over the results; the answer is the error, or none. `everything` is the whole slice.
  unfoldable pub validate_from :
      List Results → List Results → Option Policy → Option Policy × Option Error
  unfolding get_policy_validator get_signature_set
  validate_from everything [] state = (state, some (no_results everything))
  validate_from everything (result ∷ rest) state =
      let next = validate_from everything rest state in
      if result.local
      then (state, none)
      else if not (str_eq result.msp_id self_msp_id)
      then next
      else let (state', policy) = get_policy_validator state in (state', verdict policy result)

  unfoldable pub validate_results : List Results → Option Policy → Option Policy × Option Error
  unfolding validate_from
  validate_results results state = validate_from results results state
