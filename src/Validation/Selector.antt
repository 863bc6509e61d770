-- ===== src/Validation/Selector.antt =====
-- pkg/validation/validationpolicy/peergroupselector.go and peergroups.go, and the part of
-- policyevaluator.go that assigns the transactions of a block to peers.
pub mod Groups
pub mod Filter
use fabric_peer_ext.Prelude.{
  ℕ, ◌%◌, ltb, ◌==◌, Bool, true, false, not, ◌&&◌, if◌then◌else◌, String, str_eq, str_compare,
  is_lt, Option, none, some, List, [], ◌∷◌, ◌++◌, map, length, any, all,
}
use fabric_peer_ext.Prelude.Outcome.{Outcome, ok, err, panic, ◌>>=◌, index}
use fabric_peer_ext.Prelude.Sort.{Sort}
use fabric_peer_ext.Discovery.{
  Member, PeerGroup, Gossip, less, group_string, contains, contains_any, contains_local,
  from_strings, roles_contains, has_role, get_members,
}
use fabric_peer_ext.Validation.TxResults.{Block}

pub data Error : Type 0 where
  no_validators_or_committers : ℕ → Error

-- The thresholds are Go integers; one below 0 acts as 0 does, since it is compared to a size.
pub record Policy : Type 0 where
  pub committer_transaction_threshold : ℕ
  pub single_peer_transaction_threshold : ℕ

abbrev pub PeerGroups : Type 0
PeerGroups = List PeerGroup

pub record PeerGroupSelector : Type 0 where
  pub policy : Policy
  pub block : Block
  pub committers : PeerGroup
  pub validators : PeerGroup

abbrev pub committer_role : String
committer_role = "committer"

abbrev pub validator_role : String
validator_role = "validator"

-- the filter of `peersWithRole`
abbrev pub accepts : (String → String) → Member → String → Member → Bool
accepts to_lower self role member =
    if not (str_eq member.msp_id self.msp_id) then false else elim member.roles [
      | none ↦ false
      | some rs ↦ roles_contains (from_strings to_lower rs) role
    ]

unfoldable pub peers_with_role : (String → String) → Gossip → Member → String → PeerGroup
peers_with_role to_lower gossip self role = get_members gossip self (accepts to_lower self role)

unfoldable pub new_peer_group_selector :
    (String → String) → Policy → Gossip → Member → Block → PeerGroupSelector
unfolding peers_with_role
new_peer_group_selector to_lower policy gossip self block = record {
  policy = policy;
  block = block;
  committers = peers_with_role to_lower gossip self committer_role;
  validators = peers_with_role to_lower gossip self validator_role;
}

unfoldable pub select_committer : PeerGroupSelector → Option Member
select_committer s = elim s.committers [ [] ↦ none | m ∷ _ ↦ some m ]

-- the loop of `selectValidator` over the committers
unfoldable pub committer_with_role : (String → String) → PeerGroup → Option Member
committer_with_role to_lower [] = none
committer_with_role to_lower (peer ∷ peers) =
    if has_role to_lower peer validator_role then some peer else committer_with_role to_lower peers

unfoldable pub select_validator :
    (String → String) → PeerGroupSelector → Outcome Error (Option Member)
unfolding committer_with_role
select_validator to_lower s = elim (committer_with_role to_lower s.committers) [
  | some peer ↦ ok (some peer)
  | none ↦
      if length s.validators == 0
      then ok none
      else do peer ← index s.validators (s.block.number % length s.validators); ok (some peer)
]

abbrev pub as_peer_groups : List Member → PeerGroups
as_peer_groups = map (λ v. v ∷ [])

abbrev pub is_nil {ℓ} : {A : Type ℓ} → Option A → Bool
is_nil none = true
is_nil (some _) = false

-- `Less` of `peerGroups`, given the groups at the two indexes
abbrev pub less_groups : PeerGroup → PeerGroup → Bool
less_groups g h = is_lt (str_compare (group_string g) (group_string h))

-- `peerGroups.sort`: first each group, then the groups
unfoldable pub sort_groups : Sort → PeerGroups → PeerGroups
sort_groups sorting gs = sorting.sort PeerGroup less_groups (map (sorting.sort Member less) gs)

-- the checks of `groups`, in order: what is selected so far, or a next choice
abbrev pub first_choice : PeerGroupSelector → Option Member
first_choice s =
    if ltb s.block.size s.policy.committer_transaction_threshold then select_committer s else none

abbrev pub second_choice :
    (String → String) → PeerGroupSelector → Option Member → Outcome Error (Option Member)
second_choice to_lower s selected =
    if is_nil selected && ltb s.block.size s.policy.single_peer_transaction_threshold
    then select_validator to_lower s
    else ok selected

abbrev pub or_no_peers : ℕ → Option Member → Outcome Error (Option Member)
or_no_peers number none = err (no_validators_or_committers number)
or_no_peers number (some m) = ok (some m)

abbrev pub third_choice : PeerGroupSelector → Option Member → Outcome Error (Option Member)
third_choice s selected =
    if is_nil selected && length s.validators == 0
    then or_no_peers s.block.number (select_committer s)
    else ok selected

abbrev pub chosen_groups : PeerGroupSelector → Option Member → PeerGroups
chosen_groups s none = as_peer_groups s.validators
chosen_groups s (some m) = as_peer_groups (m ∷ [])

unfoldable pub groups : (String → String) → Sort → PeerGroupSelector → Outcome Error PeerGroups
groups to_lower sorting s = do
  selected ← second_choice to_lower s (first_choice s)
  selected' ← third_choice s selected
  ok (sort_groups sorting (chosen_groups s selected'))

-- peergroups.go
unfoldable pub groups_contains : PeerGroups → Member → Bool
groups_contains g p = any (λ pg. contains pg p) g

unfoldable pub groups_contains_all : PeerGroups → PeerGroup → Bool
unfolding groups_contains
groups_contains_all g peer_group = all (groups_contains g) peer_group

unfoldable pub groups_contains_any : PeerGroups → PeerGroup → Bool
groups_contains_any g peer_group = any (λ pg. contains_any pg peer_group) g

-- `peerMap[p.Endpoint] = p`, the map as a list with one member for each endpoint
unfoldable pub put_peer : Member → List Member → List Member
put_peer p [] = p ∷ []
put_peer p (q ∷ qs) = if str_eq q.endpoint p.endpoint then p ∷ qs else q ∷ put_peer p qs

unfoldable pub put_peers : PeerGroup → List Member → List Member
unfolding put_peer
put_peers [] peers = peers
put_peers (p ∷ pg) peers = put_peers pg (put_peer p peers)

unfoldable pub peer_map : PeerGroups → List Member → List Member
unfolding put_peers
peer_map [] peers = peers
peer_map (pg ∷ gs) peers = peer_map gs (put_peers pg peers)

-- `GetValidatingPeers`. Go walks its map in any order; here the order is that of insertion.
unfoldable pub get_validating_peers :
    (String → String) → Sort → PeerGroupSelector → Outcome Error (List Member)
get_validating_peers to_lower sorting s = do gs ← groups to_lower sorting s; ok (peer_map gs [])

-- the function that `GetTxFilter` returns; a remainder by 0 panics
unfoldable pub tx_filter : PeerGroups → ℕ → Outcome Error Bool
tx_filter gs tx_idx =
    if length gs == 0
    then panic
    else do group ← index gs (tx_idx % length gs); ok (contains_local group)

unfoldable pub get_tx_filter : (String → String) → Sort → PeerGroupSelector → ℕ → Outcome Error Bool
unfolding tx_filter
get_tx_filter to_lower sorting s tx_idx = elim (groups to_lower sorting s) [
  | ok gs ↦ tx_filter gs tx_idx
  | err e ↦ ok true
  | panic ↦ panic
]
