-- ===== src/PropResp/Responses.antt =====
-- The checks of the responses in pkg/txn/proprespvalidator/validator.go, and the signature set.
use fabric_peer_ext.Prelude.{
  ℕ, Bool, false, ◌&&◌, ◌||◌, if◌then◌else◌, ltb, leb, ◌==◌, Option, none, some, List, [], ◌∷◌,
  ◌++◌,
}
use fabric_peer_ext.Prelude.Outcome.{Outcome, ok, err, panic, ◌>>=◌, push_front}
use fabric_peer_ext.Prelude.Bytes.{Bytes, bytes_beq}
use fabric_peer_ext.PropResp.{
  Error, text, with_message, policy_error, ChaincodeResponse, Endorsement, ProposalResponse,
  SerializedIdentity, SignedData, Fabric,
}
use fabric_peer_ext.PropResp.Definitions.{wrapped}

-- An error that may be nil.
abbrev pub checked : Option Error → Outcome Error (Unit {0})
checked none = ok tt
checked (some e) = err e

-- `cb.Status_SUCCESS` and `cb.Status_BAD_REQUEST`
abbrev pub status_success : ℕ
status_success = 200

abbrev pub status_bad_request : ℕ
status_bad_request = 400

module _ (f : Fabric) where
  abbrev pub signature_of : Bytes → Option Endorsement → Outcome Error (Unit {0})
  signature_of payload none = err (text "missing endorsement in proposal response" [])
  signature_of payload (some e) = do
    identity ← wrapped "unable to deserialize identity" (f.deserialize_identity e.endorser)
    valid ← wrapped "the creator certificate is not valid" (checked identity.validate)
    wrapped "the creator's signature over the proposal response is not valid"
        (checked (identity.verify (payload ++ e.endorser) e.signature))

  -- `validateSignature`
  unfoldable pub validate_signature : ProposalResponse → Outcome Error (Unit {0})
  validate_signature r = signature_of r.payload r.endorsement

  abbrev pub response_of : ProposalResponse → Option ChaincodeResponse → Outcome Error (Unit {0})
  response_of r none = err (text "nil chaincode response" [])
  response_of r (some c) =
      if ltb c.status status_success || leb status_bad_request c.status
      then err (text "failed chaincode response status" [])
      else validate_signature r

  -- `validateResponse`; a nil response panics
  unfoldable pub validate_response : Option ProposalResponse → Outcome Error ProposalResponse
  unfolding validate_signature
  validate_response none = panic
  validate_response (some r) = do valid ← response_of r r.response; ok r

abbrev pub same_response :
    Option ChaincodeResponse → Option ChaincodeResponse → Bool → Outcome Error Bool
same_response (some c) (some d) same_payload =
    ok (c.status == d.status && same_payload && bytes_beq c.payload d.payload)
same_response c d same_payload = panic

-- `matches`
unfoldable pub matches : ProposalResponse → ProposalResponse → Outcome Error Bool
matches r s = same_response r.response s.response (bytes_beq r.payload s.payload)

module _ (f : Fabric) where
  -- `r1`, the first of the responses, once there is one
  abbrev pub match_first :
      Option ProposalResponse → ProposalResponse → Outcome Error ProposalResponse
  match_first none r = ok r
  match_first (some r1) r = do
    same ← matches r1 r
    if same then ok r1 else err (text "one or more proposal responses do not match" [])

  -- the loop of `validateResponses`
  unfoldable pub validate_all :
      Option ProposalResponse → List (Option ProposalResponse) → Outcome Error (Unit {0})
  unfolding validate_response matches
  validate_all r1 [] = ok tt
  validate_all r1 (o ∷ os) = do
    r ← validate_response f o
    first ← match_first r1 r
    validate_all (some first) os

  -- `validateResponses`
  unfoldable pub validate_responses : List (Option ProposalResponse) → Outcome Error (Unit {0})
  unfolding validate_all
  validate_responses [] = err (text "no proposal responses" [])
  validate_responses (o ∷ os) = validate_all none (o ∷ os)

-- The key under which an identity is noted: the two parts with nothing between them.
abbrev pub identity_key : SerializedIdentity → Bytes
identity_key s = s.mspid ++ s.id_bytes

abbrev pub signed_data : Bytes → Endorsement → SignedData
signed_data presp_bytes e = record {
  signed = presp_bytes ++ e.endorser;
  identity = e.endorser;
  signature = e.signature;
}

unfoldable pub is_noted : List Bytes → Bytes → Bool
is_noted [] key = false
is_noted (k ∷ ks) key = bytes_beq k key || is_noted ks key

abbrev pub endorser_error {ℓ} : {A : Type ℓ} → Outcome Error A → Outcome Error A
endorser_error (ok a) = ok a
endorser_error (err e) = err (policy_error (with_message "Unmarshal endorser error" e))
endorser_error panic = panic

module _ (f : Fabric) where
  -- the loop of `deduplicateIdentity`, with the keys of `signatureMap`
  unfoldable pub dedup_from :
      List Bytes → Bytes → List (Option Endorsement) → Outcome Error (List SignedData)
  unfolding is_noted
  dedup_from seen presp_bytes [] = ok []
  dedup_from seen presp_bytes (none ∷ es) = panic
  dedup_from seen presp_bytes (some e ∷ es) = do
    s ← endorser_error (f.unmarshal_identity e.endorser)
    let key = identity_key s
    let added = push_front (signed_data presp_bytes e) (dedup_from (key ∷ seen) presp_bytes es)
    let ignored = dedup_from seen presp_bytes es
    if is_noted seen key then ignored else added

  -- `deduplicateIdentity`
  unfoldable pub deduplicate_identity :
      Bytes → List (Option Endorsement) → Outcome Error (List SignedData)
  unfolding dedup_from
  deduplicate_identity presp_bytes endorsements = dedup_from [] presp_bytes endorsements
