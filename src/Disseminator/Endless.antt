-- ===== src/Disseminator/Endless.antt =====
-- Endorsers with one endpoint in pkg/collections/transientdata/dissemination/disseminator.go.
use fabric_peer_ext.Prelude.{
  ℕ, zero, suc, ◌+◌, ◌≤◌, ◌<◌, length, ltb, leb, true, false, String, str_eq, eq_iff, none, List,
  [], ◌∷◌, ◌≡◌, refl, sym, ◌∙◌, All, Bool-cases, inl, inr, arith, any,
}
use fabric_peer_ext.Prelude.Sort.{Sort}
use fabric_peer_ext.Discovery.{Member, PeerGroup, Gossip, contains}
use fabric_peer_ext.Disseminator.{AccessPolicy, choose_loop, choose_endorsers, is_nil}
use fabric_peer_ext.Disseminator.Counting.{Distinct}
use fabric_peer_ext.Disseminator.Rounds.{all_endorsers, IsChosen, append_round}
use fabric_peer_ext.Disseminator.Chosen.{each_org, none-IsChosen}

abbrev pub HasEndpoint : String → Member → Type 0
HasEndpoint e m = m.endpoint ≡ e

endpoint_of_contained :
    (e : String) (g : PeerGroup) (m : Member)
    → All (HasEndpoint e) g
    → contains g m ≡ true
    → HasEndpoint e m
unfolding contains any
endpoint_of_contained e [] m all h = cc
endpoint_of_contained e (x ∷ g) m all h = elim (Bool-cases (str_eq x.endpoint m.endpoint)) [
  | inl q ↦ sym ((eq_iff x.endpoint m.endpoint).0 q) ∙ all.0
  | inr q ↦ endpoint_of_contained e g m all.1 (rw q at h)
]

endpoints_of_contained :
    (e : String) (xs g : PeerGroup)
    → All (HasEndpoint e) xs
    → All (λ m. contains xs m ≡ true) g
    → All (HasEndpoint e) g
endpoints_of_contained e xs [] all h = tt
endpoints_of_contained e xs (m ∷ g) all h =
    (endpoint_of_contained e xs m all h.0, endpoints_of_contained e xs g all h.1)

at_most_one : (e : String) (g : PeerGroup) → Distinct g → All (HasEndpoint e) g → length g ≤ 1
unfolding contains any
at_most_one e [] d all = omega arith
at_most_one e (m ∷ []) d all = omega arith
at_most_one e (m ∷ x ∷ g) d all =
    let same : str_eq x.endpoint m.endpoint ≡ true =
      (eq_iff x.endpoint m.endpoint).1 (all.1.0 ∙ sym all.0) in
    cc (rw same at d.0)

not-leb : (n m : ℕ) → m < n → leb n m ≡ false
not-leb n m h = ground arith

lt-ltb : (n m : ℕ) → n < m → ltb n m ≡ true
lt-ltb n m h = ground arith

module _ (to_lower : String → String) (gossip : Gossip) (self : Member) (s : Sort)
    (policy : AccessPolicy) (orgs : List String) (h : ℕ) (e : String) where
  abbrev everyone : PeerGroup
  everyone = all_endorsers to_lower gossip self s policy orgs

  module _ (wanted : 2 ≤ policy.maximum_peer_count) (two : 2 ≤ length everyone)
      (shared : All (HasEndpoint e) everyone) where
    one_chosen : (g : PeerGroup) → IsChosen to_lower gossip self s policy orgs g → length g ≤ 1
    one_chosen g c =
        at_most_one e g c.distinct (endpoints_of_contained e everyone g shared c.within)

    never_ends :
        (fuel i : ℕ) (g : PeerGroup)
        → IsChosen to_lower gossip self s policy orgs g
        → choose_loop to_lower gossip self s policy fuel h orgs (length everyone) i g ≡ none
    unfolding choose_loop
    never_ends zero i g c = refl
    never_ends (suc fuel) i g c =
        let few = one_chosen g c in
        let (g1, got, (c1, keeps, covered)) =
          append_round to_lower gossip self s policy orgs g (h + i) orgs c (each_org orgs) in
        let few1 = one_chosen g1 c1 in
        rw
          (
            lt-ltb (length g) policy.maximum_peer_count (omega arith),
            got,
            not-leb (length everyone) (length g1) (omega arith),
          )
          (never_ends fuel (i + 1) g1 c1)

  -- Where the organizations have two endorsers or more, all with one endpoint, and the policy wants two
  -- or more, no number of rounds is enough.
  pub shared_endpoint_never_ends :
      (fuel : ℕ)
      → 2 ≤ policy.maximum_peer_count
      → 2 ≤ length everyone
      → All (HasEndpoint e) everyone
      → choose_endorsers to_lower gossip self s policy fuel h orgs ≡ none
  unfolding choose_endorsers
  shared_endpoint_never_ends fuel wanted two shared =
      rw (not_nil everyone two) (
        never_ends wanted two shared fuel 0 [] (none-IsChosen to_lower gossip self s policy orgs h))
    where
      not_nil : (g : PeerGroup) → 2 ≤ length g → is_nil to_lower gossip self s policy g ≡ false
      not_nil [] k = absurd (omega arith)
      not_nil (m ∷ g) k = refl
