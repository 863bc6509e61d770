-- ===== src/PropResp/Endorsed/Policy.antt =====
-- The endorsement policies that hold in pkg/txn/proprespvalidator/validator.go.
use fabric_peer_ext.Prelude.{
  ℕ, Option, none, some, List, [], ◌∷◌, ◌≡◌, refl, All, Bool, false, not, ◌&&◌, Bool-cases, inl,
  inr, ltb, length,
}
use fabric_peer_ext.Prelude.Outcome.{Outcome, ok, err, panic}
use fabric_peer_ext.Prelude.Bytes.{Bytes, bytes_beq, bytes_beq_iff}
use fabric_peer_ext.PropResp.{
  Error, invalid_other_reason, Endorsement, ChaincodeId, SignedData, ChaincodeDefinition, Fabric,
}
use fabric_peer_ext.PropResp.Definitions.{create_cc_definition}
use fabric_peer_ext.PropResp.Responses.{deduplicate_identity}
use fabric_peer_ext.PropResp.Policies.{
  coded, evaluated, as_policy_error, validate_policy_for_cc, coded_by_type, check_definition,
}
use fabric_peer_ext.PropResp.Cached.{policy_verdict, verdict_on_all}
use fabric_peer_ext.PropResp.Inversion.{bind_iff, coded_iff}

module _ (f : Fabric) where
  evaluated_only : (o : Option Error) (n m : ℕ) → evaluated f o n m ≡ ok tt → o ≡ none
  evaluated_only none n m h = refl
  evaluated_only (some e) n m h = elim (Bool-cases (ltb n m)) [
    | inl q ↦ cc (rw q at h)
    | inr q ↦ cc (rw q at h)
  ]

  by_type_only : (m : Outcome Error (Unit {0})) → coded_by_type f m ≡ ok tt → m ≡ ok tt
  by_type_only (ok tt) h = refl
  by_type_only (err e) h = cc
  by_type_only panic h = cc

  as_policy_only :
      (m : Outcome Error (List SignedData)) (set : List SignedData)
      → as_policy_error f m ≡ ok set
      → m ≡ ok set
  as_policy_only (ok s) set h = h
  as_policy_only (err e) set h = cc
  as_policy_only panic set h = cc

  module _ (own : ChaincodeId) (presp_bytes : Bytes)
      (endorsements : List (Option Endorsement)) where
    -- The policy of a chaincode holds of the signature set, and the invoked one has the version of the
    -- action.
    abbrev pub IsSatisfied : Bytes → Type 0
    IsSatisfied ns =
        (d : ChaincodeDefinition) × (create_cc_definition f ns ≡ ok d)
        × (ns ≡ own.name → d.version ≡ own.version)
        × (set : List SignedData) × (deduplicate_identity f presp_bytes endorsements ≡ ok set)
        × (f.evaluate d.policy set ≡ none)

    abbrev version_differs : Bytes → ChaincodeDefinition → Bool
    version_differs ns d = bytes_beq ns own.name && not (bytes_beq d.version own.version)

    current :
        (ns : Bytes) (d : ChaincodeDefinition)
        → version_differs ns d ≡ false
        → ns ≡ own.name
        → d.version ≡ own.version
    current ns d h is = elim (Bool-cases (bytes_beq d.version own.version)) [
      | inl q ↦ (bytes_beq_iff d.version own.version).0 q
      | inr q ↦ cc (rw ((bytes_beq_iff ns own.name).1 is, q) at h)
    ]

    not_expired :
        (ns : Bytes) (d : ChaincodeDefinition)
        → (ns ≡ own.name → d.version ≡ own.version)
        → version_differs ns d ≡ false
    not_expired ns d h = elim (Bool-cases (bytes_beq ns own.name)) [
      | inl q ↦
          rw (q, (bytes_beq_iff d.version own.version).1 (h ((bytes_beq_iff ns own.name).0 q))) refl
      | inr q ↦ rw q refl
    ]

    policy_only :
        (ns : Bytes) → policy_verdict f own presp_bytes endorsements ns ≡ ok tt → IsSatisfied ns
    unfolding check_definition validate_policy_for_cc
    policy_only ns h =
        let m = create_cc_definition f ns in
        let (d, got, checks) = (bind_iff (coded invalid_other_reason m) _ tt).0 h in
        elim (Bool-cases (version_differs ns d)) [
          | inl old ↦ cc (rw old at checks)
          | inr q ↦
              let holds =
                by_type_only (validate_policy_for_cc f presp_bytes endorsements d.policy)
                  (rw q at checks) in
              let (set, deduped, accepts) =
                (bind_iff (as_policy_error f (deduplicate_identity f presp_bytes endorsements)) _
                    tt).0
                  holds in
              (
                d,
                (coded_iff invalid_other_reason m d).0 got,
                current ns d q,
                set,
                as_policy_only (deduplicate_identity f presp_bytes endorsements) set deduped,
                evaluated_only (f.evaluate d.policy set) (length set) (length endorsements) accepts,
              )
        ]

    policy_of :
        (ns : Bytes) → IsSatisfied ns → policy_verdict f own presp_bytes endorsements ns ≡ ok tt
    unfolding check_definition validate_policy_for_cc
    policy_of ns (d, at, same_version, set, deduped, accepts) =
        rw (at, not_expired ns d same_version, deduped, accepts) refl

    pub all_only :
        (nss : List Bytes)
        → verdict_on_all f own presp_bytes endorsements nss ≡ ok tt
        → All IsSatisfied nss
    unfolding verdict_on_all
    all_only [] h = tt
    all_only (ns ∷ nss) h =
        let (u, holds, rest) =
          (bind_iff (policy_verdict f own presp_bytes endorsements ns) _ tt).0 h in
        (policy_only ns holds, all_only nss rest)

    pub all_of :
        (nss : List Bytes)
        → All IsSatisfied nss
        → verdict_on_all f own presp_bytes endorsements nss ≡ ok tt
    unfolding verdict_on_all
    all_of [] h = refl
    all_of (ns ∷ nss) (h, hs) =
        (bind_iff (policy_verdict f own presp_bytes endorsements ns) _ tt).1
          (tt, policy_of ns h, all_of nss hs)
