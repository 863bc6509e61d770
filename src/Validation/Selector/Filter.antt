-- ===== src/Validation/Selector/Filter.antt =====
-- How the transactions of a block are shared out among the selected peers:
-- `GetValidatingPeers` and `GetTxFilter` of pkg/validation/validationpolicy/policyevaluator.go.
use text.Mathlib.TextPositions.{eq_refl}
use fabric_peer_ext.Prelude.{
  ℕ, zero, suc, ◌+◌, ◌%◌, ◌<◌, ◌≡◌, refl, Bool, true, false, ◌||◌, String, str_eq, eq_iff, List, [],
  ◌∷◌, map, length, All, arith,
}
use fabric_peer_ext.Prelude.Outcome.{ok, index}
use fabric_peer_ext.Prelude.Sort.{Sort}
use fabric_peer_ext.Discovery.{Member, PeerGroup, contains_peer, contains_local}
use fabric_peer_ext.Discovery.Laws.{contains_peer-cons, contains_peer-nil}
use fabric_peer_ext.Validation.Selector.{
  Error, PeerGroups, PeerGroupSelector, groups, put_peer, put_peers, peer_map, get_validating_peers,
  tx_filter,
}
use fabric_peer_ext.Validation.Selector.Groups.{groups_total}

contains_peer-put_peer :
    (p : Member) (qs : List Member) (e : String)
    → contains_peer (put_peer p qs) e ≡ (str_eq p.endpoint e || contains_peer qs e)
unfolding put_peer contains_peer
contains_peer-put_peer p [] e = refl
contains_peer-put_peer p (q ∷ qs) e =
    ground (arith, eq_iff q.endpoint p.endpoint, contains_peer-put_peer p qs e)

contains_peer-put_peers :
    (pg : PeerGroup) (qs : List Member) (e : String)
    → contains_peer (put_peers pg qs) e ≡ (contains_peer pg e || contains_peer qs e)
unfolding put_peers
contains_peer-put_peers [] qs e = ground (arith, contains_peer-nil e)
contains_peer-put_peers (p ∷ pg) qs e = ground (
  arith,
  contains_peer-put_peers pg (put_peer p qs) e,
  contains_peer-put_peer p qs e,
  contains_peer-cons p pg e,
)

abbrev pub in_groups : PeerGroups → String → Bool
in_groups [] e = false
in_groups (pg ∷ gs) e = contains_peer pg e || in_groups gs e

-- The validating peers are the peers of the groups, by their endpoints.
pub contains_peer-peer_map :
    (gs : PeerGroups) (qs : List Member) (e : String)
    → contains_peer (peer_map gs qs) e ≡ (in_groups gs e || contains_peer qs e)
unfolding peer_map
contains_peer-peer_map [] qs e = refl
contains_peer-peer_map (pg ∷ gs) qs e =
    ground (arith, contains_peer-peer_map gs (put_peers pg qs) e, contains_peer-put_peers pg qs e)

-- The groups as the peer with the endpoint `e` sees them: it alone is local.
abbrev pub viewed : String → PeerGroup → PeerGroup
viewed e = map {A = Member} (λ m. record m { local = str_eq m.endpoint e })

abbrev pub viewed_groups : String → PeerGroups → PeerGroups
viewed_groups e = map (viewed e)

length-viewed_groups : (e : String) (gs : PeerGroups) → length (viewed_groups e gs) ≡ length gs
length-viewed_groups e [] = refl
length-viewed_groups e (g ∷ gs) = omega (arith, length-viewed_groups e gs)

-- a group of one, at an index, and as each peer sees it
solo_at :
    (P : Member → Type 0) (gs : PeerGroups) (i : ℕ)
    → i < length gs
    → All (λ g. (m : Member) × (g ≡ m ∷ []) × P m) gs
    → (m : Member) × (in_groups gs m.endpoint ≡ true)
      × ((e : String) → index {E = Error} (viewed_groups e gs) i ≡ ok (viewed e (m ∷ [])))
solo_at P [] i h solo = absurd (omega arith)
solo_at P (g ∷ gs) zero h solo =
    let (m, e, p) = solo.0 in
    (m, ground (arith, e, contains_peer-cons m [] m.endpoint, eq_refl m.endpoint), λ e'. rw e)
solo_at P (g ∷ gs) (suc i) h solo =
    let (m, inside, at) = solo_at P gs i (omega arith) solo.1 in (m, ground (arith, inside), at)

tx_filter_at :
    (gs : PeerGroups) (i : ℕ) (m : Member) (e : String)
    → 0 < length gs
    → index {E = Error} (viewed_groups e gs) (i % length gs) ≡ ok (viewed e (m ∷ []))
    → tx_filter (viewed_groups e gs) i ≡ ok (str_eq m.endpoint e)
unfolding tx_filter contains_local
tx_filter_at gs i m e some_group at = rw (length-viewed_groups e gs) (ground (arith, at))

module _ (to_lower : String → String) (sorting : Sort) (s : PeerGroupSelector) where
  -- If there is a committer or a validator, then the groups and the validating peers are
  -- determined without error, and for every transaction there is one validating peer such that,
  -- of the peers that see these groups, exactly the one with its endpoint validates it.
  pub one_validator :
      (i : ℕ)
      → 0 < length s.committers + length s.validators
      → (gs : PeerGroups) × (ps : List Member) × (m : Member) × (groups to_lower sorting s ≡ ok gs)
        × (get_validating_peers to_lower sorting s ≡ ok ps)
        × (contains_peer ps m.endpoint ≡ true)
        × ((e : String) → tx_filter (viewed_groups e gs) i ≡ ok (str_eq m.endpoint e))
  unfolding get_validating_peers
  one_validator i some_peer =
      let (gs, e, some_group, solo) = groups_total to_lower sorting s some_peer in
      let (m, inside, at) = solo_at _ gs (i % length gs) (ground arith) solo in
      (
        gs,
        peer_map gs [],
        m,
        e,
        rw e,
        ground (arith, contains_peer-peer_map gs [] m.endpoint, inside),
        λ e'. tx_filter_at gs i m e' some_group (at e'),
      )
