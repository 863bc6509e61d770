-- ===== src/Disseminator/Rounds.antt =====
-- The rounds of `chooseEndorsers` in pkg/collections/transientdata/dissemination/disseminator.go.
use fabric_peer_ext.Prelude.{
  ℕ, ◌+◌, ◌-◌, ◌%◌, ◌≤◌, ◌<◌, length, leb, ◌==◌, ==_iff, Bool, true, false, ◌||◌, String, some,
  List, [], ◌∷◌, ◌++◌, ◌≡◌, refl, sym, ap, ◌∙◌, ◌⊎◌, All, Bool-cases, inl, inr, arith, get_elem?,
  subst, length-append, eq_iff,
}
use fabric_peer_ext.Prelude.Outcome.{ok, index, index_of_get_elem?, get_elem?_of_lt}
use fabric_peer_ext.Prelude.Sort.{Sort, length-perm, All-perm}
use native.Mathlib.Nat.{mod-lt, mod-add-mod, add-mod_right, mod-eq_of_lt}
use mathlib.Core.List.{Permᴰ}
use mathlib.Core.List.Permᴰ
use fabric_peer_ext.Discovery.{Member, PeerGroup, Gossip, contains, less}
use fabric_peer_ext.Disseminator.{
  Error, AccessPolicy, contains_org, accepts_endorser, get_endorsers, add_from, endorsers_for_org,
  append_endorsers_from_orgs,
}
use fabric_peer_ext.Disseminator.Counting.{Distinct, same_endpoint, contains-snoc, Distinct-snoc}
use fabric_peer_ext.Disseminator.Members.{
  candidates, get_members-filter, get_elem?-All, IsEligible, of_orgs, All-of_orgs, length-filter-le,
  contains-filter, All-filter, abroad-IsEligible,
}

some-inj : {A : Type 0} {a b : A} → some a ≡ some b → a ≡ b
some-inj h = cc

or_self : (b : Bool) (m : Member) → (b || same_endpoint m m) ≡ true
or_self true m = refl
or_self false m = (eq_iff m.endpoint m.endpoint).1 refl

room_left : (n m : ℕ) → n ≤ m → (n == m) ≡ false → n < m
room_left n m le h = ground arith

All-snoc : (P : Member → Type 0) (g : PeerGroup) (m : Member) → All P g → P m → All P (g ++ m ∷ [])
All-snoc P [] m h p = (p, tt)
All-snoc P (x ∷ g) m h p = (h.0, All-snoc P g m h.1 p)

-- Every index below n is met in n rounds.
pub some_round : (h n j : ℕ) → j < n → (i : ℕ) × (i < n) × ((h + i) % n ≡ j)
some_round h n j lt = elim (Bool-cases (leb (h % n) j)) [
  | inl below ↦
      let r = h % n in
      let le : r ≤ j = ground arith in
      (
        j - r,
        omega arith,
        sym (mod-add-mod h n (j - r)) ∙ ap (λ (k : ℕ). k % n) (omega arith) ∙ mod-eq_of_lt lt,
      )
  | inr above ↦
      let r = h % n in
      let gt : j < r = ground arith in
      let small : r < n = mod-lt h (omega arith) in
      (
        j + n - r,
        omega arith,
        sym (mod-add-mod h n (j + n - r))
            ∙ ap (λ (k : ℕ). k % n) (omega arith)
            ∙ add-mod_right j n
            ∙ mod-eq_of_lt lt,
      )
]

module _ (to_lower : String → String) (gossip : Gossip) (self : Member) (s : Sort)
    (policy : AccessPolicy) (orgs : List String) where
  abbrev pub all_endorsers : PeerGroup
  all_endorsers = get_endorsers to_lower gossip self orgs []

  abbrev pub by_org : String → PeerGroup
  by_org = endorsers_for_org to_lower gossip self s policy

  abbrev pub IsWithin : Member → Type 0
  IsWithin m = contains all_endorsers m ≡ true

  -- Distinct endorsers of the organizations, no more than the policy's maximum.
  pub record IsChosen (g : PeerGroup) : Type 0 where
    pub distinct : Distinct g
    pub within : All IsWithin g
    pub eligible : All (IsEligible to_lower orgs) g
    pub bounded : length g ≤ policy.maximum_peer_count

  abbrev pub HasOrg : String → Type 0
  HasOrg org = contains_org orgs org ≡ true

  of_one :
      (org : String)
      → get_endorsers to_lower gossip self (org ∷ []) []
        ≡ of_orgs to_lower (org ∷ []) (candidates gossip self)
  unfolding get_endorsers
  of_one org = get_members-filter gossip self (accepts_endorser to_lower (org ∷ []) [])

  pub of_all : all_endorsers ≡ of_orgs to_lower orgs (candidates gossip self)
  unfolding get_endorsers
  of_all = get_members-filter gossip self (accepts_endorser to_lower orgs [])

  sorted_perm :
      (org : String) → Permᴰ (get_endorsers to_lower gossip self (org ∷ []) []) (by_org org)
  sorted_perm org =
      Permᴰ.symm (s.sort_perm Member less (get_endorsers to_lower gossip self (org ∷ []) []))

  pub org-IsWithin : (org : String) → HasOrg org → All IsWithin (by_org org)
  org-IsWithin org there =
      let filtered =
        contains-filter (accepts_endorser to_lower (org ∷ []) [])
          (accepts_endorser to_lower orgs []) (λ m h. abroad-IsEligible to_lower orgs org m there h)
          (candidates gossip self) in
      All-perm IsWithin (sorted_perm org) (
        subst (All IsWithin) (sym (of_one org)) (
          subst
            (λ g.
              All (λ m. contains g m ≡ true) (of_orgs to_lower (org ∷ []) (candidates gossip self)))
            (sym of_all) filtered))

  pub org-IsEligible : (org : String) → HasOrg org → All (IsEligible to_lower orgs) (by_org org)
  org-IsEligible org there = All-perm (IsEligible to_lower orgs) (sorted_perm org) (
      rw (of_one org) (
        All-filter (accepts_endorser to_lower (org ∷ []) []) (accepts_endorser to_lower orgs [])
          (λ m h. abroad-IsEligible to_lower orgs org m there h) (candidates gossip self)))

  pub length-by_org-le : (org : String) → HasOrg org → length (by_org org) ≤ length all_endorsers
  length-by_org-le org there = rw (← length-perm (sorted_perm org)) (
      rw (of_all, of_one org)
        (length-filter-le (accepts_endorser to_lower (org ∷ []) [])
          (accepts_endorser to_lower orgs []) (λ m h. abroad-IsEligible to_lower orgs org m there h)
          (candidates gossip self)))

  -- What holds of the endorsers of each organization holds of all.
  pub All-all_endorsers :
      (P : Member → Type 0)
      → ((org : String) → HasOrg org → All P (by_org org))
      → All P all_endorsers
  All-all_endorsers P h = rw of_all (
      All-of_orgs to_lower P orgs (candidates gossip self) (λ org there.
        subst (All P) (of_one org) (All-perm P (Permᴰ.symm (sorted_perm org)) (h org there))))

  -- The endorser that a round takes from a list is in the group.
  abbrev pub Covers : PeerGroup → ℕ → PeerGroup → Type 0
  Covers g k es = (m : Member) → get_elem? es (k % length es) ≡ some m → contains g m ≡ true

  abbrev pub Keeps : PeerGroup → PeerGroup → Type 0
  Keeps g g' = (m : Member) → contains g m ≡ true → contains g' m ≡ true

  add_new :
      (g : PeerGroup) (m : Member)
      → IsChosen g
      → length g < policy.maximum_peer_count
      → contains g m ≡ false
      → IsWithin m
      → IsEligible to_lower orgs m
      → IsChosen (g ++ m ∷ [])
  add_new g m c room fresh within eligible = record {
    distinct = Distinct-snoc g m c.distinct fresh;
    within = All-snoc IsWithin g m c.within within;
    eligible = All-snoc (IsEligible to_lower orgs) g m c.eligible eligible;
    bounded = rw (length-append g (m ∷ [])) (omega arith);
  }

  add_one :
      (g : PeerGroup) (k : ℕ) (es : PeerGroup)
      → IsChosen g
      → length g < policy.maximum_peer_count
      → All IsWithin es
      → All (IsEligible to_lower orgs) es
      → (g' : PeerGroup) × (add_from to_lower gossip self s policy g k es ≡ ok g')
        × IsChosen g'
        × Keeps g g'
        × Covers g' k es
  add_one g k [] c room within eligible = (g, refl, c, (λ m h. h), (λ m at. cc))
  add_one g k (e ∷ es) c room within eligible =
      let i = k % length (e ∷ es) in
      let (m, at) = get_elem?_of_lt (e ∷ es) i (mod-lt k (omega arith)) in
      let found : index {E = Error} (e ∷ es) i ≡ ok m = index_of_get_elem? (e ∷ es) i at in
      elim (Bool-cases (contains g m)) [
        | inl old ↦
            (g, rw (found, old) refl, c, (λ q h. h), (λ q h. rw (some-inj (sym h ∙ at)) old))
        | inr fresh ↦ (
          g ++ m ∷ [],
          rw (found, fresh) refl,
          add_new g m c room fresh (get_elem?-All IsWithin (e ∷ es) i m within at)
              (get_elem?-All (IsEligible to_lower orgs) (e ∷ es) i m eligible at),
          (λ q h. contains-snoc g m q ∙ ap (λ b. b || same_endpoint m q) h),
          (λ q h. rw (some-inj (sym h ∙ at)) (contains-snoc g m m ∙ or_self (contains g m) m)),
        )
      ]

  -- What a round leads to: more are chosen, and the policy's maximum is reached or the endorser that
  -- the round takes from each organization is among them.
  abbrev pub RoundOf : PeerGroup → ℕ → List String → PeerGroup → Type 0
  RoundOf g k os g' =
      IsChosen g'
      × Keeps g g'
      × ((length g' ≡ policy.maximum_peer_count) ⊎ All (λ org. Covers g' k (by_org org)) os)

  pub append_round :
      (g : PeerGroup) (k : ℕ) (os : List String)
      → IsChosen g
      → All HasOrg os
      → (g' : PeerGroup) × (append_endorsers_from_orgs to_lower gossip self s policy g k os ≡ ok g')
        × RoundOf g k os g'
  unfolding append_endorsers_from_orgs
  append_round g k [] c there = (g, refl, (c, (λ m h. h), inr tt))
  append_round g k (org ∷ os) c there = elim (Bool-cases (length g == policy.maximum_peer_count)) [
    | inl full ↦ (
      g,
      rw full refl,
      (c, (λ m h. h), inl ((==_iff (length g) policy.maximum_peer_count).0 full)),
    )
    | inr room ↦
        let lt : length g < policy.maximum_peer_count =
          room_left (length g) policy.maximum_peer_count c.bounded room in
        let (g1, added, c1, keeps1, covers1) =
          add_one g k (by_org org) c lt (org-IsWithin org there.0) (org-IsEligible org there.0) in
        let (g2, rest, (c2, keeps2, covers2)) = append_round g1 k os c1 there.1 in
        (
          g2,
          rw (room, added) rest,
          (
            c2,
            (λ m h. keeps2 m (keeps1 m h)),
            (elim covers2 [
              | inl full ↦ inl full
              | inr covered ↦ inr ((λ m at. keeps2 m (covers1 m at)), covered)
            ]),
          ),
        )
  ]
