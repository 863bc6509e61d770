-- ===== src/Disseminator/Chosen.antt =====
-- What `chooseEndorsers` of pkg/collections/transientdata/dissemination/disseminator.go ends with.
use fabric_peer_ext.Prelude.{
  ℕ, zero, suc, ◌+◌, ◌≤◌, ◌<◌, length, ltb, leb, true, false, if◌then◌else◌, String, some, List, [],
  ◌∷◌, ◌≡◌, refl, ◌⊎◌, All, Bool-cases, inl, inr, arith, subst, str_eq, eq_iff, leb→le,
}
use fabric_peer_ext.Prelude.Outcome.{ok, lt_of_get_elem?}
use fabric_peer_ext.Prelude.Sort.{Sort}
use fabric_peer_ext.Discovery.{Member, PeerGroup, Gossip, contains}
use fabric_peer_ext.Disseminator.{
  AccessPolicy, contains_org, choose_loop, choose_endorsers, min, is_nil,
}
use fabric_peer_ext.Disseminator.Counting.{Distinct, Distinct-length-le}
use fabric_peer_ext.Disseminator.Members.{All_of_get_elem?, IsEligible}
use fabric_peer_ext.Disseminator.Rounds.{
  some_round, all_endorsers, by_org, IsChosen, length-by_org-le, All-all_endorsers, Covers, Keeps,
  append_round,
}

not-ltb : (n m : ℕ) → n ≡ m → ltb n m ≡ false
not-ltb n m h = ground arith

All_of_org :
    (P : String → Type 0) (orgs : List String) (org : String)
    → contains_org orgs org ≡ true
    → All P orgs
    → P org
unfolding contains_org
All_of_org P [] org h all = cc
All_of_org P (o ∷ os) org h all = elim (Bool-cases (str_eq o org)) [
  | inl q ↦ subst P ((eq_iff o org).0 q) all.0
  | inr q ↦ All_of_org P os org (rw q at h) all.1
]

All-org-map :
    (P Q : String → Type 0) (orgs : List String)
    → ((org : String) → P org → Q org)
    → All P orgs
    → All Q orgs
All-org-map P Q [] f h = tt
All-org-map P Q (o ∷ os) f h = (f o h.0, All-org-map P Q os f h.1)

pub each_org : (orgs : List String) → All (λ org. contains_org orgs org ≡ true) orgs
unfolding contains_org
each_org [] = tt
each_org (o ∷ os) =
    (rw ((eq_iff o o).1 refl) refl, All-org-map _ _ os (λ org h. ground (arith, h)) (each_org os))

module _ (to_lower : String → String) (gossip : Gossip) (self : Member) (s : Sort)
    (policy : AccessPolicy) (orgs : List String) (h : ℕ) where
  abbrev everyone : PeerGroup
  everyone = all_endorsers to_lower gossip self s policy orgs

  abbrev maximum : ℕ
  maximum = policy.maximum_peer_count

  abbrev of_org : String → PeerGroup
  of_org = by_org to_lower gossip self s policy orgs

  abbrev CoversAll : PeerGroup → ℕ → Type 0
  CoversAll g k =
      (org : String)
      → contains_org orgs org ≡ true
      → Covers to_lower gossip self s policy orgs g (h + k) (of_org org)

  -- After as many rounds as there are endorsers, all are chosen.
  all_covered :
      (g : PeerGroup) (n : ℕ)
      → length everyone ≤ n
      → ((k : ℕ) → k < n → CoversAll g k)
      → All (λ m. contains g m ≡ true) everyone
  all_covered g n enough covers =
      All-all_endorsers to_lower gossip self s policy orgs (λ m. contains g m ≡ true)
        λ org there.
          All_of_get_elem? (λ m. contains g m ≡ true) (of_org org)
            λ j m at.
              let size = length-by_org-le to_lower gossip self s policy orgs org there in
              let (k, below, met) =
                some_round h (length (of_org org)) j (lt_of_get_elem? (of_org org) j at) in
              covers k (omega arith) org there m (rw met at)

  pub none-IsChosen : IsChosen to_lower gossip self s policy orgs []
  none-IsChosen = record { distinct = tt; within = tt; eligible = tt; bounded = omega arith }

  some_length : (g : PeerGroup) → is_nil to_lower gossip self s policy g ≡ false → 0 < length g
  some_length [] k = cc
  some_length (m ∷ g) k = omega arith

  -- The result: distinct endorsers of the organizations, as many as the maximum and their number allow.
  abbrev pub IsResult : PeerGroup → Type 0
  IsResult g =
      Distinct g × All (IsEligible to_lower orgs) g × (length g ≡ min maximum (length everyone))

  IsChosen-IsResult :
      (g : PeerGroup)
      → IsChosen to_lower gossip self s policy orgs g
      → (maximum ≤ length g) ⊎ (length everyone ≤ length g)
      → IsResult g
  IsChosen-IsResult g c enough =
      let most = Distinct-length-le g everyone c.distinct c.within in
      (c.distinct, c.eligible, smallest (length g) maximum (length everyone) c.bounded most enough)
    where
      smallest : (n a b : ℕ) → n ≤ a → n ≤ b → (a ≤ n) ⊎ (b ≤ n) → n ≡ (if ltb a b then a else b)
      smallest n a b p q (inl r) = ground arith
      smallest n a b p q (inr r) = ground arith

  module _ (distinct : Distinct everyone) where
    not_all :
        (g : PeerGroup) (n : ℕ)
        → leb (length everyone) (length g) ≡ false
        → ((k : ℕ) → k < n → CoversAll g k)
        → n < length everyone
    not_all g n less covers = elim (Bool-cases (leb (length everyone) n)) [
      | inl enough ↦
          let le : length everyone ≤ n = ground arith in
          let all = Distinct-length-le everyone g distinct (all_covered g n le covers) in
          absurd (ground arith)
      | inr few ↦ ground arith
    ]

    full_stops :
        (fuel i : ℕ) (g : PeerGroup)
        → 0 < fuel
        → length g ≡ maximum
        → choose_loop to_lower gossip self s policy fuel h orgs (length everyone) i g ≡ some (ok g)
    unfolding choose_loop
    full_stops zero i g some_fuel full = absurd (omega arith)
    full_stops (suc fuel) i g some_fuel full = rw (not-ltb (length g) maximum full) refl

    one_more-CoversAll :
        (g g' : PeerGroup) (i : ℕ)
        → Keeps to_lower gossip self s policy orgs g g'
        → ((k : ℕ) → k < i → CoversAll g k)
        → All (λ org. Covers to_lower gossip self s policy orgs g' (h + i) (of_org org)) orgs
        → (k : ℕ) → k < i + 1
        → CoversAll g' k
    one_more-CoversAll g g' i keeps before now k lt org there = elim (Bool-cases (ltb k i)) [
      | inl earlier ↦ λ m at. keeps m (before k (ground arith) org there m at)
      | inr latest ↦
          let same : i ≡ k = ground arith in
          subst (λ j. Covers to_lower gossip self s policy orgs g' (h + j) (of_org org)) same
            (All_of_org (λ o. Covers to_lower gossip self s policy orgs g' (h + i) (of_org o)) orgs
              org there now)
    ]

    loop_ends :
        (fuel i : ℕ) (g : PeerGroup)
        → IsChosen to_lower gossip self s policy orgs g
        → ((k : ℕ) → k < i → CoversAll g k)
        → i < length everyone
        → length everyone < i + fuel
        → (g' : PeerGroup) × (choose_loop to_lower gossip self s policy fuel h orgs
              (length everyone)
              i
              g
            ≡ some (ok g'))
          × IsResult g'
    unfolding choose_loop
    loop_ends zero i g c covers lt enough = absurd (omega arith)
    loop_ends (suc fuel) i g c covers lt enough = elim (Bool-cases (ltb (length g) maximum)) [
      | inr full ↦ (g, rw full refl, IsChosen-IsResult g c (inl (ground arith)))
      | inl room ↦
          let (g1, got, (c1, keeps, covered)) =
            append_round to_lower gossip self s policy orgs g (h + i) orgs c (each_org orgs) in
          elim (Bool-cases (leb (length everyone) (length g1))) [
            | inl all ↦
                (g1, rw (room, got, all) refl, IsChosen-IsResult g1 c1 (inr (leb→le _ _ all)))
            | inr less ↦ elim covered [
              | inl full ↦ (
                g1,
                rw (room, got, less) (full_stops fuel (i + 1) g1 (omega arith) full),
                IsChosen-IsResult g1 c1 (inl (omega arith)),
              )
              | inr now ↦
                  let covers' = one_more-CoversAll g g1 i keeps covers now in
                  let (g2, ends, result) =
                    loop_ends fuel (i + 1) g1 c1 covers' (not_all g1 (i + 1) less covers')
                      (omega arith) in
                  (g2, rw (room, got, less) ends, result)
            ]
          ]
    ]

    -- Where the endorsers of the organizations have endpoints of their own and there is one, the rounds
    -- end, fuel for one more than there are endorsers is enough, and the result has distinct
    -- endorsers of the organizations, as many as the maximum allows, or all of them.
    pub choose_endorsers_ends :
        (fuel : ℕ)
        → is_nil to_lower gossip self s policy everyone ≡ false
        → length everyone < fuel
        → (g : PeerGroup) × (choose_endorsers to_lower gossip self s policy fuel h orgs
            ≡ some (ok g))
          × IsResult g
    unfolding choose_endorsers
    choose_endorsers_ends fuel some_there enough =
        let (g, ends, result) =
          loop_ends fuel 0 [] none-IsChosen (λ k lt. absurd (omega arith))
            (some_length everyone some_there) (omega arith) in
        (g, rw some_there ends, result)
