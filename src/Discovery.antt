-- ===== src/Discovery.antt =====
-- pkg/common/discovery: the members of a channel and groups of peers.
pub mod Laws
use fabric_peer_ext.Prelude.{
  Bool, true, false, not, ◌||◌, ◌&&◌, if◌then◌else◌, String, str_eq, str_compare, str_append, is_lt,
  Option, none, some, List, [], ◌∷◌, ◌++◌, map, any, all,
}

-- A member: the fields of the gossip library's `NetworkMember` that the code reads, and its own.
-- `roles` is none where the member has no properties.
pub record Member : Type 0 where
  pub endpoint : String
  pub pki_id : String
  pub roles : Option (List String)
  pub channel_id : String
  pub msp_id : String
  pub local : Bool

abbrev pub PeerGroup : Type 0
PeerGroup = List Member

-- `Member.String`
abbrev pub member_string : Member → String
member_string m = m.endpoint

unfoldable pub contains_local : PeerGroup → Bool
unfolding any
contains_local g = any (λ p. p.local) g

unfoldable pub contains_remote : PeerGroup → Bool
unfolding any
contains_remote g = any (λ p. not p.local) g

-- the loop of `PeerGroup.String`: a separator behind all but the last
unfoldable pub join : List String → String
join [] = ""
join (s ∷ []) = s
join (s ∷ s' ∷ ss) = str_append s (str_append ", " (join (s' ∷ ss)))

unfoldable pub group_string : PeerGroup → String
unfolding join
group_string g = str_append "[" (str_append (join (map member_string g)) "]")

unfoldable pub contains : PeerGroup → Member → Bool
unfolding any
contains g peer = any (λ p. str_eq p.endpoint peer.endpoint) g

unfoldable pub contains_peer : PeerGroup → String → Bool
unfolding any
contains_peer g endpoint = any (λ p. str_eq p.endpoint endpoint) g

unfoldable pub contains_all : PeerGroup → PeerGroup → Bool
unfolding all contains
contains_all g peer_group = all (contains g) peer_group

unfoldable pub contains_any : PeerGroup → PeerGroup → Bool
unfolding any contains
contains_any g peer_group = any (contains g) peer_group

-- `PeerGroup.Less`, given the elements at the two indexes
abbrev pub less : Member → Member → Bool
less p q = is_lt (str_compare p.endpoint q.endpoint)

-- `PeerGroup.Local`
unfoldable pub local_member : PeerGroup → Option Member
local_member [] = none
local_member (p ∷ g) = if p.local then some p else local_member g

unfoldable pub remote : PeerGroup → PeerGroup
remote [] = []
remote (p ∷ g) = let rest = remote g in if p.local then rest else p ∷ rest

unfoldable pub merge : PeerGroup → List Member → PeerGroup
unfolding contains
merge g [] = g
merge g (p ∷ peers) = merge (if contains g p then g else g ++ p ∷ []) peers

-- `Roles.Contains` of pkg/roles/roles.go
unfoldable pub roles_contains : List String → String → Bool
unfolding any
roles_contains [] role = true
roles_contains (r ∷ rs) role = any (λ r'. str_eq r' role) (r ∷ rs)

-- pkg/roles/roles.go: the roles of a member. `strings.ToLower` is a parameter.
module _ (to_lower : String → String) where
  abbrev pub from_strings : List String → List String
  from_strings = map to_lower

  unfoldable pub member_roles : Member → List String
  member_roles m = elim m.roles [ none ↦ [] | some rs ↦ from_strings rs ]

  unfoldable pub has_role : Member → String → Bool
  unfolding member_roles roles_contains
  has_role m role = roles_contains (member_roles m) role

-- What the gossip service of the peer reports, a library outside the repository.
pub record Gossip : Type 0 where
  pub peers_of_channel : List Member
  pub self_info : Member
  -- the organisation of an identity, by its PKI ID
  pub identity_info : String → Option String

-- `getSelf`; `own_roles` is `roles.AsString()`.
unfoldable pub get_self : Gossip → String → List String → Member
get_self gossip channel_id own_roles =
    let self = gossip.self_info in
    record self {
      roles = some own_roles;
      channel_id = "";
      msp_id = elim (gossip.identity_info self.pki_id) [
        | none ↦ ""
        | some organization ↦ organization
      ];
      local = true;
    }

-- the loop of `GetMembers` over the peers of the channel
unfoldable pub accepted : Gossip → (Member → Bool) → List Member → List Member
accepted gossip accept [] = []
accepted gossip accept (m ∷ ms) =
    let rest = accepted gossip accept ms in
    elim (gossip.identity_info m.pki_id) [
      | none ↦ rest
      | some organization ↦
          let member = record m { channel_id = ""; msp_id = organization; local = false } in
          if accept member then member ∷ rest else rest
    ]

unfoldable pub get_members : Gossip → Member → (Member → Bool) → List Member
unfolding accepted
get_members gossip self accept =
    let peers = accepted gossip accept gossip.peers_of_channel in
    if accept self then peers ++ self ∷ [] else peers
