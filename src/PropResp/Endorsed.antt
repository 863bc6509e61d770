-- ===== src/PropResp/Endorsed.antt =====
-- What the verdict VALID of pkg/txn/proprespvalidator/validator.go says of the responses.
mod Responses
mod Action
mod Policy
pub use Responses.{IsGood, IsSame, IsLike, validate_responses_iff}
pub use Action.{
  IsConsistent, LeavesLscc, OfWritten, chaincode_action_only, consistent_passes, written_only,
  written_of,
}
pub use Policy.{IsSatisfied, all_only, all_of}
use fabric_peer_ext.Prelude.{
  Option, none, some, List, [], ◌∷◌, ◌≡◌, refl, sym, ap, ◌∙◌, ◌↔◌, All, subst,
}
use fabric_peer_ext.Prelude.Outcome.{Outcome, ok, err, panic, ◌>>=◌}
use fabric_peer_ext.Prelude.Bytes.{Bytes}
use fabric_peer_ext.Prelude.LoadingCache.{GCache}
use fabric_peer_ext.PropResp.{
  invalid_other_reason, bad_rwset, Endorsement, ProposalResponse, ChaincodeId, ChaincodeAction,
  NsRwSet, ChaincodeDefinition, Fabric,
}
use fabric_peer_ext.PropResp.Definitions.{wrapped}
use fabric_peer_ext.PropResp.Responses.{validate_responses}
use fabric_peer_ext.PropResp.Policies.{
  coded, get_chaincode_action, validate_chaincode_action, get_namespaces_from_write_sets,
  written_namespaces, not_nil, endorsements_of, first_payload, validate,
}
use fabric_peer_ext.PropResp.Cached.{
  verdict, verdict_on_endorsements, verdict_on_all, Reach, Reach-IsCoherent, validate-Leaves,
}
use fabric_peer_ext.PropResp.Inversion.{bind_iff, coded_iff, wrapped_iff}

module _ (f : Fabric) where
  -- The endorsements are of one action of the chaincode that the proposal asks for, it does not write
  -- to LSCC, and the policies of that chaincode and of all that are written to hold.
  pub record IsEndorsedBy (proposal_bytes presp_bytes : Bytes)
      (endorsements : List (Option Endorsement)) : Type 0 where
    pub action : ChaincodeAction
    pub decoded : get_chaincode_action f presp_bytes ≡ ok action
    pub own : ChaincodeId
    pub consistent : IsConsistent f proposal_bytes action own
    pub sets : List NsRwSet
    pub read : f.from_proto_bytes action.results ≡ ok sets
    pub leaves_lscc : All LeavesLscc sets
    pub invoked : IsSatisfied f own presp_bytes endorsements own.name
    pub written : All (OfWritten (IsSatisfied f own presp_bytes endorsements)) sets

  pub record IsEndorsed (proposal_bytes : Bytes) (responses : List (Option ProposalResponse))
      : Type 0 where
    pub first : ProposalResponse
    pub others : List (Option ProposalResponse)
    pub are : responses ≡ some first ∷ others
    pub good : IsGood f first
    pub like : All (IsLike f first) others
    pub endorsements : List (Option Endorsement)
    pub taken : endorsements_of responses ≡ ok endorsements
    pub endorsed : IsEndorsedBy proposal_bytes first.payload endorsements

  sets_only :
      (own : ChaincodeId) (action : ChaincodeAction) (nss : List Bytes)
      → get_namespaces_from_write_sets f own action ≡ ok nss
      → (sets : List NsRwSet) × (f.from_proto_bytes action.results ≡ ok sets)
        × (written_namespaces own.name sets ≡ ok nss)
  unfolding get_namespaces_from_write_sets
  sets_only own action nss h =
      let m = wrapped "txRWSet.FromProtoBytes failed" (f.from_proto_bytes action.results) in
      let (sets, got, rest) = (bind_iff (coded bad_rwset m) _ nss).0 h in
      (
        sets,
        (wrapped_iff "txRWSet.FromProtoBytes failed" (f.from_proto_bytes action.results) sets).0
            ((coded_iff bad_rwset m sets).0 got),
        rest,
      )

  action_only :
      (proposal_bytes presp_bytes : Bytes) (endorsements : List (Option Endorsement))
      (action : ChaincodeAction) (own : ChaincodeId)
      → get_chaincode_action f presp_bytes ≡ ok action
      → IsConsistent f proposal_bytes action own
      → (not_nil action.chaincode_id >>= λ o. get_namespaces_from_write_sets f o action >>= λ nss.
          verdict_on_all f o presp_bytes endorsements (o.name ∷ nss))
        ≡ ok tt
      → IsEndorsedBy proposal_bytes presp_bytes endorsements
  action_only proposal_bytes presp_bytes endorsements action own decoded consistent h =
      let (nss, got, holds) = (bind_iff (get_namespaces_from_write_sets f own action) _ tt).0 (
        subst
          (λ asked.
            (not_nil asked >>= λ o. get_namespaces_from_write_sets f o action >>= λ nss.
            verdict_on_all f o presp_bytes endorsements (o.name ∷ nss))
            ≡ ok tt)
          consistent.of_own h) in
      let (sets, read, written) = sets_only own action nss got in
      let all = all_only f own presp_bytes endorsements (own.name ∷ nss) holds in
      let (clean, satisfied) =
        written_only (IsSatisfied f own presp_bytes endorsements) own.name sets nss written all.0
          all.1 in
      record {
        action = action;
        decoded = decoded;
        own = own;
        consistent = consistent;
        sets = sets;
        read = read;
        leaves_lscc = clean;
        invoked = all.0;
        written = satisfied;
      }

  endorsements_only :
      (proposal_bytes presp_bytes : Bytes) (endorsements : List (Option Endorsement))
      → verdict_on_endorsements f proposal_bytes presp_bytes endorsements ≡ ok tt
      → IsEndorsedBy proposal_bytes presp_bytes endorsements
  unfolding verdict_on_endorsements
  endorsements_only proposal_bytes presp_bytes endorsements h =
      let (action, decoded, h1) =
        (bind_iff (coded invalid_other_reason (get_chaincode_action f presp_bytes)) _ tt).0 h in
      let (u, valid, h2) =
        (bind_iff (validate_chaincode_action f proposal_bytes action) _ tt).0 h1 in
      let (own, consistent) = chaincode_action_only f proposal_bytes action valid in
      action_only proposal_bytes presp_bytes endorsements action own
        ((coded_iff invalid_other_reason (get_chaincode_action f presp_bytes) action).0 decoded)
        consistent h2

  endorsements_of_lem :
      (proposal_bytes presp_bytes : Bytes) (endorsements : List (Option Endorsement))
      → IsEndorsedBy proposal_bytes presp_bytes endorsements
      → verdict_on_endorsements f proposal_bytes presp_bytes endorsements ≡ ok tt
  unfolding verdict_on_endorsements get_namespaces_from_write_sets
  endorsements_of_lem proposal_bytes presp_bytes endorsements e =
      let (nss, got, holds) =
        written_of (IsSatisfied f e.own presp_bytes endorsements) e.own.name e.sets e.leaves_lscc
          e.written in
      rw
        (
          e.decoded,
          consistent_passes f proposal_bytes e.action e.own e.consistent,
          e.consistent.of_own,
          e.read,
          got,
        )
        (all_of f e.own presp_bytes endorsements (e.own.name ∷ nss) (e.invoked, holds))

  verdict_only :
      (proposal_bytes : Bytes) (responses : List (Option ProposalResponse))
      → verdict f proposal_bytes responses ≡ ok tt
      → IsEndorsed proposal_bytes responses
  unfolding verdict
  verdict_only proposal_bytes responses h =
      let (u, valid, h1) =
        (bind_iff (coded invalid_other_reason (validate_responses f responses)) _ tt).0 h in
      let (endorsements, taken, h2) = (bind_iff (endorsements_of responses) _ tt).0 h1 in
      let (first, others, are, good, like) =
        (validate_responses_iff f responses).0
          ((coded_iff invalid_other_reason (validate_responses f responses) u).0 valid) in
      record {
        first = first;
        others = others;
        are = are;
        good = good;
        like = like;
        endorsements = endorsements;
        taken = taken;
        endorsed = endorsements_only proposal_bytes first.payload endorsements (rw are at h2);
      }

  verdict_of :
      (proposal_bytes : Bytes) (responses : List (Option ProposalResponse))
      → IsEndorsed proposal_bytes responses
      → verdict f proposal_bytes responses ≡ ok tt
  unfolding verdict
  verdict_of proposal_bytes responses e =
      rw
        (
          (validate_responses_iff f responses).1 (e.first, e.others, e.are, e.good, e.like),
          e.taken,
          e.are,
        )
        (endorsements_of_lem proposal_bytes e.first.payload e.endorsements e.endorsed)

module _ (cache : GCache Bytes ChaincodeDefinition) where
  -- In every state that calls, blocks and upgrades lead to, where the definition of a chaincode changes
  -- only with an upgrade that the validator is told of, the responses are VALID exactly when they are
  -- endorsed as the ledger has it now: there is one, each has a status from 200 up to but not 400 and
  -- is signed by a known and valid identity, all are the same, their action is of the chaincode that
  -- the proposal asks for, with a version and with an event, if any, of the chaincode, it does not
  -- write to LSCC, and the policies of that chaincode, in that version, and of each chaincode that is
  -- written to hold of the signature set.
  pub validate_valid_iff :
      {c : cache.State} {f : Fabric} (proposal_bytes : Bytes)
      (responses : List (Option ProposalResponse))
      → Reach cache c f
      → ((validate f cache c proposal_bytes responses).1 ≡ ok tt)
        ↔ IsEndorsed f proposal_bytes responses
  validate_valid_iff {c = c} {f = f} proposal_bytes responses r =
      let same =
        (validate-Leaves f cache c proposal_bytes responses (Reach-IsCoherent cache r)).1 in
      (
        (λ h. verdict_only f proposal_bytes responses (sym same ∙ h)),
        (λ e. same ∙ verdict_of f proposal_bytes responses e),
      )
