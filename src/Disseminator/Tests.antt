-- ===== src/Disseminator/Tests.antt =====
-- Tests of pkg/collections/transientdata/dissemination/disseminator.go with two organizations.
use fabric_peer_ext.Prelude.{
  ℕ, true, false, String, none, some, List, [], ◌∷◌, ◌≡◌, refl, sym, subst, All, arith,
}
use fabric_peer_ext.Prelude.Outcome.{ok}
use fabric_peer_ext.Prelude.Sort.{insertion}
use fabric_peer_ext.Discovery.{Member, PeerGroup, Gossip, contains}
use fabric_peer_ext.Disseminator.{AccessPolicy, get_hash32, get_endorsers, choose_endorsers}
use fabric_peer_ext.Disseminator.Counting.{Distinct}
use fabric_peer_ext.Disseminator.Chosen.{choose_endorsers_ends, IsResult}
use fabric_peer_ext.Disseminator.Endless.{shared_endpoint_never_ends, HasEndpoint}

abbrev same_text : String → String
same_text t = t

abbrev peer : String → String → Member
peer endpoint org = record {
  endpoint = endpoint;
  pki_id = org;
  roles = some ("endorser" ∷ []);
  channel_id = "";
  msp_id = org;
  local = false;
}

abbrev peers : List Member → Gossip
peers ms = record {
  peers_of_channel = ms;
  self_info = peer "p0" "org0";
  identity_info = λ pki_id. some pki_id;
}

abbrev own : Member
own = record (peer "p0" "org0") { local = true }

abbrev three_peers : Gossip
three_peers = peers (peer "p1" "org1" ∷ peer "p2" "org1" ∷ peer "p3" "org2" ∷ [])

abbrev two_orgs : List String
two_orgs = "org1" ∷ "org2" ∷ []

abbrev up_to : ℕ → AccessPolicy
up_to n = record { member_orgs = two_orgs; maximum_peer_count = n }

abbrev three_found : PeerGroup
three_found = peer "p1" "org1" ∷ peer "p2" "org1" ∷ peer "p3" "org2" ∷ []

hash_test : get_hash32 (b'a' ∷ []) ≡ 0xe40c292c
unfolding get_hash32
hash_test = refl

chosen_test :
    choose_endorsers same_text three_peers own insertion (up_to 2) 4 7 two_orgs
    ≡ some (ok (peer "p2" "org1" ∷ peer "p3" "org2" ∷ []))
unfolding choose_endorsers
chosen_test = refl

all_chosen_test :
    choose_endorsers same_text three_peers own insertion (up_to 5) 4 7 two_orgs
    ≡ some (ok (peer "p2" "org1" ∷ peer "p3" "org2" ∷ peer "p1" "org1" ∷ []))
unfolding choose_endorsers
all_chosen_test = refl

three_are_found : get_endorsers same_text three_peers own two_orgs [] ≡ three_found
unfolding get_endorsers
three_are_found = refl

three-Distinct : Distinct three_found
unfolding contains
three-Distinct = (refl, (refl, (refl, tt)))

choose_endorsers_ends_example :
    (g : PeerGroup) × (choose_endorsers same_text three_peers own insertion (up_to 2) 4 7 two_orgs
      ≡ some (ok g))
    × IsResult same_text three_peers own insertion (up_to 2) two_orgs 7 g
choose_endorsers_ends_example =
    choose_endorsers_ends same_text three_peers own insertion (up_to 2) two_orgs 7
      (subst Distinct (sym three_are_found) three-Distinct) 4 (rw three_are_found refl)
      (rw three_are_found (omega arith))

-- peers of two organizations that report one endpoint
abbrev shared_peers : Gossip
shared_peers = peers (peer "p" "org1" ∷ peer "p" "org2" ∷ [])

abbrev two_found : PeerGroup
two_found = peer "p" "org1" ∷ peer "p" "org2" ∷ []

two_are_found : get_endorsers same_text shared_peers own two_orgs [] ≡ two_found
unfolding get_endorsers
two_are_found = refl

shared_endpoint_never_ends_example :
    choose_endorsers same_text shared_peers own insertion (up_to 2) 100 7 two_orgs ≡ none
shared_endpoint_never_ends_example =
    shared_endpoint_never_ends same_text shared_peers own insertion (up_to 2) two_orgs 7 "p" 100
      (omega arith) (rw two_are_found (omega arith))
      (subst (All (HasEndpoint "p")) (sym two_are_found) (refl, (refl, tt)))
