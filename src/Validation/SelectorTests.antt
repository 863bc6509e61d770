-- ===== src/Validation/SelectorTests.antt =====
-- Runs of the peer group selection and instances of its theorems.
use fabric_peer_ext.Prelude.{
  ℕ, ◌≡◌, refl, true, false, String, str_eq, none, some, List, [], ◌∷◌, length, All, arith, ◌<◌,
}
use fabric_peer_ext.Prelude.Outcome.{ok}
use fabric_peer_ext.Prelude.Sort.{insertion}
use fabric_peer_ext.Discovery.{Member, contains_peer, contains_local, merge, has_role, group_string}
use fabric_peer_ext.Validation.Selector.{
  PeerGroups, PeerGroupSelector, groups, sort_groups, select_committer, select_validator,
  committer_with_role, get_validating_peers, peer_map, tx_filter,
}
use fabric_peer_ext.Validation.Selector.Groups.{IsSolo, groups_total}
use fabric_peer_ext.Validation.Selector.Filter.{viewed_groups, one_validator}

-- the role names are in lower case already
abbrev keep : String → String
keep s = s

abbrev peer : String → List String → Member
peer endpoint roles = record {
  endpoint = endpoint;
  pki_id = endpoint;
  roles = some roles;
  channel_id = "";
  msp_id = "Org1MSP";
  local = false;
}

abbrev peer0 : Member
peer0 = peer "peer0" ("committer" ∷ [])

abbrev peer1 : Member
peer1 = peer "peer1" ("validator" ∷ [])

abbrev peer2 : Member
peer2 = peer "peer2" ("validator" ∷ [])

-- Example 1 of the comment on `groups`, with a block of `size` transactions.
abbrev example1 : ℕ → PeerGroupSelector
example1 size = record {
  policy = record { committer_transaction_threshold = 5; single_peer_transaction_threshold = 20 };
  block = record { number = 3; size = size; filter = [] };
  committers = peer0 ∷ [];
  validators = peer2 ∷ peer1 ∷ [];
}

abbrev nobody : PeerGroupSelector
nobody = record (example1 4) { committers = []; validators = [] }

program : Unit {0}
unfolding groups sort_groups select_committer select_validator committer_with_role has_role
    group_string get_validating_peers peer_map tx_filter contains_local merge
program = tt

-- Example 1: with 4 transactions Peer0; with 20 both validators.
example1-groups :
    (groups keep insertion (example1 4) ≡ ok ((peer0 ∷ []) ∷ []))
    × (groups keep insertion (example1 20) ≡ ok ((peer1 ∷ []) ∷ (peer2 ∷ []) ∷ []))
unfolding program
example1-groups = (refl, refl)

groups_total_example :
    (gs : PeerGroups) × (groups keep insertion (example1 20) ≡ ok gs)
    × (0 < length gs)
    × All (IsSolo keep insertion (example1 20)) gs
groups_total_example = groups_total keep insertion (example1 20) (omega arith)

no_committing_validator : committer_with_role keep (peer0 ∷ []) ≡ none
unfolding program
no_committing_validator = refl

one_validator_example :
    (gs : PeerGroups) × (ps : List Member) × (m : Member) × (groups keep insertion (example1 20)
      ≡ ok gs)
    × (get_validating_peers keep insertion (example1 20) ≡ ok ps)
    × (contains_peer ps m.endpoint ≡ true)
    × ((e : String) → tx_filter (viewed_groups e gs) 7 ≡ ok (str_eq m.endpoint e))
one_validator_example = one_validator keep insertion (example1 20) 7 (omega arith)
