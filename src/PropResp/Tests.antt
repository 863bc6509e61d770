-- ===== src/PropResp/Tests.antt =====
-- Tests of pkg/txn/proprespvalidator/validator.go with two endorsers and a policy that wants both.
use fabric_peer_ext.Prelude.{
  Bool, true, false, Option, none, some, List, [], ◌∷◌, ◌++◌, ◌≡◌, refl, ◌↔◌, inl,
}
use fabric_peer_ext.Prelude.Outcome.{ok, err}
use fabric_peer_ext.Prelude.Bytes.{Bytes, bytes_beq, bytes_eq}
use fabric_peer_ext.Prelude.LoadingCache.{GCache, unbounded}
use fabric_peer_ext.Prelude.Assoc.{lookup, put}
use fabric_peer_ext.PropResp.{
  Error, text, Endorsement, ProposalResponse, ChaincodeId, ChaincodeAction, NsRwSet, SignedData,
  ChaincodeDefinition, Fabric, codes, policy_error, endorsement_policy_failure, illegal_writeset,
}
use fabric_peer_ext.PropResp.Responses.{deduplicate_identity, signed_data}
use fabric_peer_ext.PropResp.Policies.{validate}
use fabric_peer_ext.PropResp.Dedup.{Chosen, deduplicate_identity_lem}
use fabric_peer_ext.PropResp.Cached.{start}
use fabric_peer_ext.PropResp.Endorsed.{IsEndorsed, validate_valid_iff}

abbrev unless : Bool → Option Error
unless true = none
unless false = some (text "refused" [])

abbrev at_least_two : List SignedData → Bool
at_least_two (a ∷ b ∷ ds) = true
at_least_two ds = false

abbrev written : Bytes → NsRwSet
written ns = record { name_space = ns; kv_writes = some ([] ∷ []); coll_hashed_rw_sets = [] }

abbrev invoked : ChaincodeId
invoked = record { name = 5 ∷ []; version = 1 ∷ [] }

-- The results of an action are the namespace that it writes to beside its own.
abbrev action_on : Bytes → ChaincodeAction
action_on results = record { chaincode_id = some invoked; events = none; results = results }

-- A signature is the digest; an endorser is its own MSP ID.
abbrev two_of_two : Fabric
two_of_two = record {
  deserialize_identity =
      λ b. ok (record { validate = none; verify = λ digest sig. unless (bytes_beq digest sig) });
  unmarshal_identity = λ b. ok (record { mspid = b; id_bytes = [] });
  unmarshal_proposal = ok;
  unmarshal_cc_proposal_payload = ok;
  unmarshal_invocation_spec = λ b. ok (some (some (record { name = b; version = [] })));
  unmarshal_response_payload = ok;
  unmarshal_action = λ b. ok (action_on b);
  unmarshal_event = ok;
  from_proto_bytes = λ b. ok (written (5 ∷ []) ∷ written b ∷ []);
  evaluate = λ policy set. unless (at_least_two set);
  chaincode_info = λ b. inl (codes "unknown chaincode: b");
  signature_policy = ok;
  marshal_policy = ok;
  get_state = λ ns k. ok k;
  unmarshal_chaincode_data = λ b. ok (record { version = 1 ∷ []; policy = b });
}

abbrev by_endorser : Bytes → Bytes → Option ProposalResponse
by_endorser endorser payload = some (record {
  response = some (record { status = 200; payload = [] });
  payload = payload;
  endorsement = some (record { endorser = endorser; signature = payload ++ endorser });
})

abbrev definitions : GCache Bytes ChaincodeDefinition
definitions = unbounded

both_endorse :
    (validate two_of_two definitions []
      (5 ∷ [])
      (by_endorser (7 ∷ []) (6 ∷ []) ∷ by_endorser (8 ∷ []) (6 ∷ []) ∷ [])).1
    ≡ ok tt
unfolding validate lookup put
both_endorse = refl

-- the same endorser twice
one_endorses :
    (validate two_of_two definitions []
      (5 ∷ [])
      (by_endorser (7 ∷ []) (6 ∷ []) ∷ by_endorser (7 ∷ []) (6 ∷ []) ∷ [])).1
    ≡ err (
      endorsement_policy_failure,
      policy_error (
          text "Endorsement policy evaluation failure might be caused by duplicated identities" []),
    )
unfolding validate lookup put
one_endorses = refl

lscc_written :
    (validate two_of_two definitions [] (5 ∷ []) (by_endorser (7 ∷ []) (codes "lscc") ∷ [])).1
    ≡ err (
      illegal_writeset,
      text "chaincode %s attempted to write to the namespace of LSCC" ((5 ∷ []) ∷ []),
    )
unfolding validate lookup put
lscc_written = refl

validate_valid_iff_example :
    ((validate two_of_two definitions []
        (5 ∷ [])
        (by_endorser (7 ∷ []) (6 ∷ []) ∷ by_endorser (8 ∷ []) (6 ∷ []) ∷ [])).1
      ≡ ok tt)
    ↔ IsEndorsed two_of_two
        (5 ∷ [])
        (by_endorser (7 ∷ []) (6 ∷ []) ∷ by_endorser (8 ∷ []) (6 ∷ []) ∷ [])
validate_valid_iff_example =
    validate_valid_iff definitions (5 ∷ [])
      (by_endorser (7 ∷ []) (6 ∷ []) ∷ by_endorser (8 ∷ []) (6 ∷ []) ∷ []) start

abbrev seven : Endorsement
seven = record { endorser = 7 ∷ []; signature = 1 ∷ [] }

abbrev eight : Endorsement
eight = record { endorser = 8 ∷ []; signature = 2 ∷ [] }

abbrev three_endorsements : List (Option Endorsement)
three_endorsements = some seven ∷ some eight ∷ some seven ∷ []

abbrev signature_set : List SignedData
signature_set = signed_data (6 ∷ []) seven ∷ signed_data (6 ∷ []) eight ∷ []

deduped : deduplicate_identity two_of_two (6 ∷ []) three_endorsements ≡ ok signature_set
unfolding deduplicate_identity
deduped = refl

deduplicate_identity_lem_example : Chosen two_of_two [] (6 ∷ []) three_endorsements signature_set
deduplicate_identity_lem_example =
    deduplicate_identity_lem two_of_two (6 ∷ []) three_endorsements signature_set deduped
