-- ===== src/PropResp/Cached.antt =====
-- `Validate` of pkg/txn/proprespvalidator/validator.go answers as if it had no cache.
use fabric_peer_ext.Prelude.{Option, List, [], ◌∷◌, ◌≡◌, refl, sym, ap, subst}
use fabric_peer_ext.Prelude.Outcome.{Outcome, ok, err, panic, ◌>>=◌}
use fabric_peer_ext.Prelude.Bytes.{Bytes}
use fabric_peer_ext.Prelude.LoadingCache.{
  GCache, IsCoherent, get_or_load-IsCoherent, get_or_load-load, empty-IsCoherent, purge-IsCoherent,
}
use fabric_peer_ext.PropResp.{
  invalid_other_reason, CodedError, Verdict, Endorsement, ProposalResponse, ChaincodeId,
  ChaincodeDefinition, Fabric,
}
use fabric_peer_ext.PropResp.Definitions.{create_cc_definition, get_cc_definition, on_cc_upgrade}
use fabric_peer_ext.PropResp.Responses.{validate_responses}
use fabric_peer_ext.PropResp.Policies.{
  coded, get_chaincode_action, validate_chaincode_action, get_namespaces_from_write_sets,
  check_definition, and_then, validate_endorsement_policy, validate_namespaces, with_part, not_nil,
  validate_endorsements, endorsements_of, first_payload, validate,
}

module _ (f : Fabric) where
  -- The verdict on a namespace by the definition that the ledger has now.
  abbrev pub policy_verdict : ChaincodeId → Bytes → List (Option Endorsement) → Bytes → Verdict
  policy_verdict own presp_bytes endorsements ns =
      coded invalid_other_reason (create_cc_definition f ns)
      >>= check_definition f ns own presp_bytes endorsements

  unfoldable pub verdict_on_all :
      ChaincodeId → Bytes → List (Option Endorsement) → List Bytes → Verdict
  verdict_on_all own presp_bytes endorsements [] = ok tt
  verdict_on_all own presp_bytes endorsements (ns ∷ nss) =
      policy_verdict own presp_bytes endorsements ns >>= λ valid.
      verdict_on_all own presp_bytes endorsements nss

  unfoldable pub verdict_on_endorsements : Bytes → Bytes → List (Option Endorsement) → Verdict
  verdict_on_endorsements proposal_bytes presp_bytes endorsements = do
    action ← coded invalid_other_reason (get_chaincode_action f presp_bytes)
    valid ← validate_chaincode_action f proposal_bytes action
    own ← not_nil action.chaincode_id
    nss ← get_namespaces_from_write_sets f own action
    verdict_on_all own presp_bytes endorsements (own.name ∷ nss)

  unfoldable pub verdict : Bytes → List (Option ProposalResponse) → Verdict
  verdict proposal_bytes responses = do
    valid ← coded invalid_other_reason (validate_responses f responses)
    endorsements ← endorsements_of responses
    payload ← first_payload responses
    verdict_on_endorsements proposal_bytes payload endorsements

  module _ (cache : GCache Bytes ChaincodeDefinition) where
    -- A call that leaves a cache that agrees with the ledger, and a verdict.
    abbrev pub Leaves : cache.State × Verdict → Verdict → Type 0
    Leaves r v = IsCoherent cache (create_cc_definition f) r.0 × (r.1 ≡ v)

    and_then-Leaves :
        (r : cache.State × Verdict) (next : cache.State → cache.State × Verdict) (v w : Verdict)
        → Leaves r v
        → ((c : cache.State) → IsCoherent cache (create_cc_definition f) c → Leaves (next c) w)
        → Leaves (and_then f cache r next) (v >>= λ valid. w)
    and_then-Leaves (c, ok u) next v w (h, e) others = rw (← e) (others c h)
    and_then-Leaves (c, err x) next v w (h, e) others = (h, rw (← e))
    and_then-Leaves (c, panic) next v w (h, e) others = (h, rw (← e))

    with_part-Leaves :
        {A : Type 0} (c : cache.State) (m : Outcome CodedError A) (next : A → cache.State × Verdict)
        (spec : A → Verdict)
        → IsCoherent cache (create_cc_definition f) c
        → ((a : A) → Leaves (next a) (spec a))
        → Leaves (with_part f cache c m next) (m >>= spec)
    with_part-Leaves c (ok a) next spec h others = others a
    with_part-Leaves c (err x) next spec h others = (h, refl)
    with_part-Leaves c panic next spec h others = (h, refl)

    policy-Leaves :
        (c : cache.State) (ns : Bytes) (own : ChaincodeId) (presp_bytes : Bytes)
        (endorsements : List (Option Endorsement))
        → IsCoherent cache (create_cc_definition f) c
        → Leaves
            (validate_endorsement_policy f cache c ns own presp_bytes endorsements)
            (policy_verdict own presp_bytes endorsements ns)
    unfolding validate_endorsement_policy get_cc_definition
    policy-Leaves c ns own presp_bytes endorsements h = (
      get_or_load-IsCoherent cache (create_cc_definition f) c ns h,
      ap (λ d. coded invalid_other_reason d >>= check_definition f ns own presp_bytes endorsements)
          (get_or_load-load cache (create_cc_definition f) c ns h),
    )

    namespaces-Leaves :
        (nss : List Bytes) (own : ChaincodeId) (presp_bytes : Bytes)
        (endorsements : List (Option Endorsement)) (c : cache.State)
        → IsCoherent cache (create_cc_definition f) c
        → Leaves
            (validate_namespaces f cache nss own presp_bytes endorsements c)
            (verdict_on_all own presp_bytes endorsements nss)
    unfolding validate_namespaces verdict_on_all
    namespaces-Leaves [] own presp_bytes endorsements c h = (h, refl)
    namespaces-Leaves (ns ∷ nss) own presp_bytes endorsements c h =
        and_then-Leaves (validate_endorsement_policy f cache c ns own presp_bytes endorsements)
          (validate_namespaces f cache nss own presp_bytes endorsements)
          (policy_verdict own presp_bytes endorsements ns)
          (verdict_on_all own presp_bytes endorsements nss)
          (policy-Leaves c ns own presp_bytes endorsements h)
          (λ d hd. namespaces-Leaves nss own presp_bytes endorsements d hd)

    endorsements-Leaves :
        (c : cache.State) (proposal_bytes presp_bytes : Bytes)
        (endorsements : List (Option Endorsement))
        → IsCoherent cache (create_cc_definition f) c
        → Leaves
            (validate_endorsements f cache c proposal_bytes presp_bytes endorsements)
            (verdict_on_endorsements proposal_bytes presp_bytes endorsements)
    unfolding validate_endorsements verdict_on_endorsements
    endorsements-Leaves c proposal_bytes presp_bytes endorsements h =
        with_part-Leaves c (coded invalid_other_reason (get_chaincode_action f presp_bytes)) _ _ h
          λ action.
            with_part-Leaves c (validate_chaincode_action f proposal_bytes action) _ _ h λ valid.
              with_part-Leaves c (not_nil action.chaincode_id) _ _ h λ own.
                with_part-Leaves c (get_namespaces_from_write_sets f own action) _ _ h
                  λ nss. namespaces-Leaves (own.name ∷ nss) own presp_bytes endorsements c h

    pub validate-Leaves :
        (c : cache.State) (proposal_bytes : Bytes) (responses : List (Option ProposalResponse))
        → IsCoherent cache (create_cc_definition f) c
        → Leaves (validate f cache c proposal_bytes responses) (verdict proposal_bytes responses)
    unfolding validate verdict
    validate-Leaves c proposal_bytes responses h =
        with_part-Leaves c (coded invalid_other_reason (validate_responses f responses)) _ _ h
          λ valid. with_part-Leaves c (endorsements_of responses) _ _ h λ endorsements.
            with_part-Leaves c (first_payload responses) _ _ h
              λ payload. endorsements-Leaves c proposal_bytes payload endorsements h

module _ (cache : GCache Bytes ChaincodeDefinition) where
  -- A step of the validator and the ledger below it: a call of `Validate`, a block that leaves the
  -- definitions of the chaincodes as they are, or a block of which the validator is told that it
  -- upgrades a chaincode.
  pub data Step : Fabric → cache.State → Fabric → cache.State → Type 1 where
    validated :
        {c : cache.State} {f : Fabric} (proposal_bytes : Bytes)
        (responses : List (Option ProposalResponse))
        → Step f c f (validate f cache c proposal_bytes responses).0
    committed :
        {c : cache.State} {f g : Fabric}
        → create_cc_definition g ≡ create_cc_definition f
        → Step f c g c
    upgraded :
        {c : cache.State} {f g : Fabric} (cc_name : Bytes)
        → Step f c g (on_cc_upgrade g cache c cc_name).0

  pub data Reach : cache.State → Fabric → Type 1 where
    start : {f : Fabric} → Reach cache.empty f
    step : {f g : Fabric} {c d : cache.State} → Reach c f → Step f c g d → Reach d g

  Step-IsCoherent :
      {f : Fabric} {c : cache.State} {g : Fabric} {d : cache.State}
      → Step f c g d
      → IsCoherent cache (create_cc_definition f) c
      → IsCoherent cache (create_cc_definition g) d
  unfolding on_cc_upgrade
  Step-IsCoherent {f = f} {c = c} (validated proposal_bytes responses) h =
      (validate-Leaves f cache c proposal_bytes responses h).0
  Step-IsCoherent {c = c} (committed same) h = subst (λ load. IsCoherent cache load c) (sym same) h
  Step-IsCoherent {c = c} {g = g} (upgraded cc_name) h =
      purge-IsCoherent cache (create_cc_definition g) c

  pub Reach-IsCoherent :
      {c : cache.State} {f : Fabric} → Reach c f → IsCoherent cache (create_cc_definition f) c
  Reach-IsCoherent {f = f} start = empty-IsCoherent cache (create_cc_definition f)
  Reach-IsCoherent (step r s) = Step-IsCoherent s (Reach-IsCoherent r)
