-- ===== src/PropResp/Policies.antt =====
-- The endorsement policies in pkg/txn/proprespvalidator/validator.go, and `Validate`.
use fabric_peer_ext.Prelude.{
  ℕ, Bool, false, not, ◌&&◌, ◌||◌, if◌then◌else◌, ltb, length, Option, none, some, List, [], ◌∷◌,
  String,
}
use fabric_peer_ext.Prelude.Outcome.{Outcome, ok, err, panic, ◌>>=◌, push_front}
use fabric_peer_ext.Prelude.Bytes.{Bytes, bytes_beq}
use fabric_peer_ext.Prelude.LoadingCache.{GCache}
use fabric_peer_ext.PropResp.{
  Error, text, with_message, policy_error, Code, invalid_other_reason, expired_chaincode,
  endorsement_policy_failure, bad_rwset, illegal_writeset, CodedError, Verdict, Endorsement,
  ProposalResponse, ChaincodeId, ChaincodeAction, CollHashedRwSet, NsRwSet, SignedData,
  ChaincodeDefinition, Fabric,
}
use fabric_peer_ext.PropResp.Definitions.{wrapped, is_empty, lscc, get_cc_definition}
use fabric_peer_ext.PropResp.Responses.{validate_responses, deduplicate_identity}

-- An error with its code.
abbrev pub coded {ℓ} : {A : Type ℓ} → Code → Outcome Error A → Outcome CodedError A
coded code (ok a) = ok a
coded code (err e) = err (code, e)
coded code panic = panic

abbrev pub refuse {ℓ} : {A : Type ℓ} → Code → String → List Bytes → Outcome CodedError A
refuse code message args = err (code, text message args)

-- a list that is there and not empty
abbrev pub has_some {ℓ} : {A : Type ℓ} → Option (List A) → Bool
has_some none = false
has_some (some as') = not (is_empty as')

unfoldable pub has_hashed_write : List CollHashedRwSet → Bool
has_hashed_write [] = false
has_hashed_write (c ∷ cs) = has_some c.hashed_writes || has_hashed_write cs

-- `txWritesToNamespace`
unfoldable pub tx_writes_to_namespace : NsRwSet → Bool
unfolding has_hashed_write
tx_writes_to_namespace ns = has_some ns.kv_writes || has_hashed_write ns.coll_hashed_rw_sets

-- the loop of `getNamespacesFromWriteSets`; `own` is the chaincode of the action
unfoldable pub written_namespaces : Bytes → List NsRwSet → Outcome CodedError (List Bytes)
unfolding tx_writes_to_namespace
written_namespaces own [] = ok []
written_namespaces own (s ∷ ss) =
    let rest = written_namespaces own ss in
    if not (tx_writes_to_namespace s)
    then rest
    else if bytes_beq s.name_space lscc
    then refuse illegal_writeset "chaincode %s attempted to write to the namespace of LSCC"
        (own ∷ [])
    else if bytes_beq s.name_space own
    then rest
    else push_front s.name_space rest

abbrev pub not_nil : Option ChaincodeId → Outcome CodedError ChaincodeId
not_nil none = panic
not_nil (some own) = ok own

-- `endorsements[i] = pr.Endorsement`; a nil response panics
abbrev pub endorsements_of :
    List (Option ProposalResponse) → Outcome CodedError (List (Option Endorsement))
endorsements_of [] = ok []
endorsements_of (none ∷ rs) = panic
endorsements_of (some r ∷ rs) = push_front r.endorsement (endorsements_of rs)

-- `proposalResponses[0].Payload`
abbrev pub first_payload : List (Option ProposalResponse) → Outcome CodedError Bytes
first_payload (some r ∷ rs) = ok r.payload
first_payload rs = panic

module _ (f : Fabric) where
  -- `getChaincodeAction`
  unfoldable pub get_chaincode_action : Bytes → Outcome Error ChaincodeAction
  get_chaincode_action presp_bytes = do
    extension ←
        wrapped "failed to unmarshal proposal response payload"
          (f.unmarshal_response_payload presp_bytes)
    f.unmarshal_action extension

  -- `getChaincodeInvocationSpec`
  unfoldable pub get_chaincode_invocation_spec : Bytes → Outcome Error (Option (Option ChaincodeId))
  get_chaincode_invocation_spec payload = do
    input ← wrapped "failed GetChaincodeInvocationSpec" (f.unmarshal_cc_proposal_payload payload)
    wrapped "failed GetChaincodeInvocationSpec" (f.unmarshal_invocation_spec input)

  abbrev pub spec_or_nil : Option (Option ChaincodeId) → Outcome Error (Option ChaincodeId)
  spec_or_nil none = err (text "chaincode spec is nil" [])
  spec_or_nil (some spec) = ok spec

  -- `getCCSpec`: the chaincode ID of the spec
  unfoldable pub get_cc_spec : Bytes → Outcome Error (Option ChaincodeId)
  unfolding get_chaincode_invocation_spec
  get_cc_spec proposal_bytes = do
    payload ←
        wrapped "failed to extract proposal from proposal bytes"
          (f.unmarshal_proposal proposal_bytes)
    cis ← wrapped "failed to get chaincode invocation spec" (get_chaincode_invocation_spec payload)
    spec_or_nil cis

  abbrev pub same_event : Bytes → Bytes → Verdict
  same_event cc_id event_id =
      if not (bytes_beq event_id cc_id)
      then refuse invalid_other_reason
          "chaincode event chaincode id does not match chaincode action chaincode id" []
      else ok tt

  abbrev pub validate_event : Bytes → Option Bytes → Verdict
  validate_event cc_id none = ok tt
  validate_event cc_id (some events) = do
    event_id ←
        coded invalid_other_reason (wrapped "invalid chaincode event" (f.unmarshal_event events))
    same_event cc_id event_id

  abbrev pub validate_ids : ChaincodeAction → Option ChaincodeId → Option ChaincodeId → Verdict
  validate_ids action none own =
      refuse invalid_other_reason "nil ChaincodeId in header extension" []
  validate_ids action (some asked) none =
      refuse invalid_other_reason "nil ChaincodeId in ChaincodeAction" []
  validate_ids action (some asked) (some own) =
      if is_empty asked.name
      then refuse invalid_other_reason "invalid chaincode ID in proposal" []
      else if not (bytes_beq asked.name own.name)
      then refuse invalid_other_reason "inconsistent chaincode ID info (%s/%s)"
          (asked.name ∷ own.name ∷ [])
      else if is_empty own.version
      then refuse invalid_other_reason "invalid chaincode version in ChaincodeAction" []
      else validate_event asked.name action.events

  -- `validateChaincodeAction`
  unfoldable pub validate_chaincode_action : Bytes → ChaincodeAction → Verdict
  unfolding get_cc_spec
  validate_chaincode_action proposal_bytes action = do
    asked ← coded invalid_other_reason (get_cc_spec proposal_bytes)
    validate_ids action asked action.chaincode_id

  -- `getNamespacesFromWriteSets`
  unfoldable pub get_namespaces_from_write_sets :
      ChaincodeId → ChaincodeAction → Outcome CodedError (List Bytes)
  unfolding written_namespaces
  get_namespaces_from_write_sets own action = do
    sets ←
        coded bad_rwset
          (wrapped "txRWSet.FromProtoBytes failed" (f.from_proto_bytes action.results))
    written_namespaces own.name sets

  abbrev pub evaluated : Option Error → ℕ → ℕ → Outcome Error (Unit {0})
  evaluated none in_set all = ok tt
  evaluated (some e) in_set all =
      if ltb in_set all
      then err (
          policy_error (
            text "Endorsement policy evaluation failure might be caused by duplicated identities"
              []))
      else err (policy_error (with_message "VSCC error: endorsement policy failure" e))

  abbrev pub as_policy_error : Outcome Error (List SignedData) → Outcome Error (List SignedData)
  as_policy_error (ok set) = ok set
  as_policy_error (err e) = err (policy_error e)
  as_policy_error panic = panic

  -- `validatePolicyForCC`
  unfoldable pub validate_policy_for_cc :
      Bytes → List (Option Endorsement) → Bytes → Outcome Error (Unit {0})
  unfolding deduplicate_identity
  validate_policy_for_cc presp_bytes endorsements policy = do
    set ← as_policy_error (deduplicate_identity f presp_bytes endorsements)
    evaluated (f.evaluate policy set) (length set) (length endorsements)

  -- the code that the type of the error stands for
  abbrev pub code_of : Error → Code
  code_of (policy_error e) = endorsement_policy_failure
  code_of e = invalid_other_reason

  abbrev pub coded_by_type : Outcome Error (Unit {0}) → Verdict
  coded_by_type (ok u) = ok u
  coded_by_type (err e) = err (code_of e, e)
  coded_by_type panic = panic

  -- `validateEndorsementPolicy`, once the definition is there
  unfoldable pub check_definition :
      Bytes → ChaincodeId → Bytes → List (Option Endorsement) → ChaincodeDefinition → Verdict
  unfolding validate_policy_for_cc
  check_definition cc_id own presp_bytes endorsements d =
      if bytes_beq cc_id own.name && not (bytes_beq d.version own.version)
      then refuse expired_chaincode "chaincode %s:%s didn't match %s in lscc"
          (cc_id ∷ own.version ∷ d.version ∷ [])
      else coded_by_type (validate_policy_for_cc presp_bytes endorsements d.policy)

  module _ (cache : GCache Bytes ChaincodeDefinition) where
    -- What a call does to the cache, and what it returns.
    abbrev pub Checking {ℓ} : Type ℓ → Type ℓ
    Checking A = cache.State × Outcome CodedError A

    abbrev pub and_then :
        Checking (Unit {0}) → (cache.State → Checking (Unit {0})) → Checking (Unit {0})
    and_then (c, ok u) next = next c
    and_then (c, err e) next = (c, err e)
    and_then (c, panic) next = (c, panic)

    abbrev pub checked_by :
        (ChaincodeDefinition → Verdict)
        → cache.State × Outcome Error ChaincodeDefinition
        → Checking (Unit {0})
    checked_by check (c, d) = (c, coded invalid_other_reason d >>= check)

    -- `validateEndorsementPolicy`
    unfoldable pub validate_endorsement_policy :
        cache.State → Bytes → ChaincodeId → Bytes → List (Option Endorsement) → Checking (Unit {0})
    unfolding get_cc_definition check_definition
    validate_endorsement_policy c cc_id own presp_bytes endorsements =
        checked_by (check_definition cc_id own presp_bytes endorsements)
          (get_cc_definition f cache c cc_id)

    -- the loop of `validateEndorsements`
    unfoldable pub validate_namespaces :
        List Bytes
        → ChaincodeId
        → Bytes
        → List (Option Endorsement)
        → cache.State
        → Checking (Unit {0})
    unfolding validate_endorsement_policy
    validate_namespaces [] own presp_bytes endorsements c = (c, ok tt)
    validate_namespaces (ns ∷ nss) own presp_bytes endorsements c =
        and_then (validate_endorsement_policy c ns own presp_bytes endorsements)
          (validate_namespaces nss own presp_bytes endorsements)

    -- a part that neither reads nor changes the cache
    abbrev pub with_part {ℓ} :
        {A : Type ℓ}
        → cache.State
        → Outcome CodedError A
        → (A → Checking (Unit {0}))
        → Checking (Unit {0})
    with_part c (ok a) next = next a
    with_part c (err e) next = (c, err e)
    with_part c panic next = (c, panic)

    -- `validateEndorsements`: the invoked chaincode, then those that are written to
    unfoldable pub validate_endorsements :
        cache.State → Bytes → Bytes → List (Option Endorsement) → Checking (Unit {0})
    unfolding get_chaincode_action validate_chaincode_action get_namespaces_from_write_sets
        validate_namespaces
    validate_endorsements c proposal_bytes presp_bytes endorsements =
        with_part c (coded invalid_other_reason (get_chaincode_action presp_bytes)) λ action.
          with_part c (validate_chaincode_action proposal_bytes action) λ valid.
            with_part c (not_nil action.chaincode_id) λ own.
              with_part c (get_namespaces_from_write_sets own action)
                λ nss. validate_namespaces (own.name ∷ nss) own presp_bytes endorsements c

    -- `Validate`
    unfoldable pub validate :
        cache.State → Bytes → List (Option ProposalResponse) → Checking (Unit {0})
    unfolding validate_responses validate_endorsements
    validate c proposal_bytes responses =
        with_part c (coded invalid_other_reason (validate_responses f responses)) λ valid.
          with_part c (endorsements_of responses) λ endorsements.
            with_part c (first_payload responses)
              λ payload. validate_endorsements c proposal_bytes payload endorsements
