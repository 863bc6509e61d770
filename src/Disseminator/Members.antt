-- ===== src/Disseminator/Members.antt =====
-- The endorsers of some organizations in pkg/collections/transientdata/dissemination/disseminator.go
-- against those of each.
use fabric_peer_ext.Prelude.{
  ℕ, ◌+◌, ◌≤◌, length, Bool, true, false, if◌then◌else◌, String, eq_iff, some, List, [], ◌∷◌, ◌++◌,
  ◌≡◌, refl, sym, All, Bool-cases, Option-cases, inl, inr, arith, any, get_elem?, subst,
}
use fabric_peer_ext.Discovery.{Member, PeerGroup, Gossip, contains, has_role, accepted, get_members}
use fabric_peer_ext.Disseminator.{contains_org, accepts_endorser, endorser_role}

abbrev pub filter : (Member → Bool) → PeerGroup → PeerGroup
filter p [] = []
filter p (m ∷ ms) = let rest = filter p ms in if p m then m ∷ rest else rest

filter-append :
    (p : Member → Bool) (g : PeerGroup) (m : Member)
    → filter p (g ++ m ∷ []) ≡ (if p m then filter p g ++ m ∷ [] else filter p g)
filter-append p [] m = ground arith
filter-append p (x ∷ g) m = ground (arith, filter-append p g m)

-- All the peers that discovery reports.
abbrev pub candidates : Gossip → Member → PeerGroup
candidates gossip self = get_members gossip self (λ m. true)

accepted-filter :
    (gossip : Gossip) (p : Member → Bool) (ms : List Member)
    → accepted gossip p ms ≡ filter p (accepted gossip (λ m. true) ms)
unfolding accepted
accepted-filter gossip p [] = refl
accepted-filter gossip p (m ∷ ms) = elim (Option-cases (gossip.identity_info m.pki_id)) [
  | inl q ↦ rw (q, accepted) (accepted-filter gossip p ms)
  | inr (org, q) ↦ rw (q, accepted, accepted-filter gossip p ms) refl
]

pub get_members-filter :
    (gossip : Gossip) (self : Member) (p : Member → Bool)
    → get_members gossip self p ≡ filter p (candidates gossip self)
unfolding get_members
get_members-filter gossip self p =
    rw (accepted-filter gossip p gossip.peers_of_channel)
      (sym (filter-append p (accepted gossip (λ m. true) gossip.peers_of_channel) self))

-- A property of each member at an index.
pub All_of_get_elem? :
    (P : Member → Type 0) (g : PeerGroup)
    → ((j : ℕ) (m : Member) → get_elem? g j ≡ some m → P m)
    → All P g
All_of_get_elem? P [] h = tt
All_of_get_elem? P (m ∷ g) h =
    (h 0 m refl, All_of_get_elem? P g (λ j x at. h (j + 1) x (rw-suc j x at)))
  where
    rw-suc : (j : ℕ) (x : Member) → get_elem? g j ≡ some x → get_elem? (m ∷ g) (j + 1) ≡ some x
    rw-suc j x at = ground arith

pub get_elem?-All :
    (P : Member → Type 0) (g : PeerGroup) (j : ℕ) (m : Member)
    → All P g
    → get_elem? g j ≡ some m
    → P m
get_elem?-All P [] j m h at = cc
get_elem?-All P (x ∷ g) Prim.Native.Nat.zero m h at = subst P (cc) h.0
get_elem?-All P (x ∷ g) (Prim.Native.Nat.suc j) m h at = get_elem?-All P g j m h.1 at

module _ (to_lower : String → String) where
  abbrev pub IsEligible : List String → Member → Type 0
  IsEligible orgs m = accepts_endorser to_lower orgs [] m ≡ true

  abbrev pub of_orgs : List String → PeerGroup → PeerGroup
  of_orgs orgs = filter (accepts_endorser to_lower orgs [])

  eligible_parts :
      (orgs : List String) (m : Member)
      → IsEligible orgs m
      → (contains_org orgs m.msp_id ≡ true) × (has_role to_lower m endorser_role ≡ true)
  unfolding accepts_endorser contains any
  eligible_parts orgs m h = elim (Bool-cases (contains_org orgs m.msp_id)) [
    | inl q ↦ (q, rw q at h)
    | inr q ↦ cc (rw q at h)
  ]

  of_parts-IsEligible :
      (orgs : List String) (m : Member)
      → contains_org orgs m.msp_id ≡ true
      → has_role to_lower m endorser_role ≡ true
      → IsEligible orgs m
  unfolding accepts_endorser contains any
  of_parts-IsEligible orgs m h k = rw h k

  org_self : (org : String) → contains_org (org ∷ []) org ≡ true
  unfolding contains_org
  org_self org = rw ((eq_iff org org).1 refl) refl

  one_org : (org name : String) → contains_org (org ∷ []) name ≡ true → org ≡ name
  unfolding contains_org
  one_org org name h = (eq_iff org name).0 (ground arith)

  -- An endorser of the organizations is one of its own.
  at_home-IsEligible :
      (orgs : List String) (m : Member) → IsEligible orgs m → IsEligible (m.msp_id ∷ []) m
  at_home-IsEligible orgs m h =
      of_parts-IsEligible (m.msp_id ∷ []) m (org_self m.msp_id) (eligible_parts orgs m h).1

  pub abroad-IsEligible :
      (orgs : List String) (org : String) (m : Member)
      → contains_org orgs org ≡ true
      → IsEligible (org ∷ []) m
      → IsEligible orgs m
  abroad-IsEligible orgs org m there h =
      let (at, role) = eligible_parts (org ∷ []) m h in
      of_parts-IsEligible orgs m
        (subst (λ o. contains_org orgs o ≡ true) (one_org org m.msp_id at) there) role

  tail_of :
      (P : Member → Type 0) (p : Member → Bool) (m : Member) (ms : PeerGroup)
      → All P (filter p (m ∷ ms))
      → All P (filter p ms)
  tail_of P p m ms h = elim (Bool-cases (p m)) [ inl q ↦ (rw q at h).1 | inr q ↦ rw q at h ]

  head_of :
      (P : Member → Type 0) (p : Member → Bool) (m : Member) (ms : PeerGroup)
      → p m ≡ true
      → All P (filter p (m ∷ ms))
      → P m
  head_of P p m ms q h = (rw q at h).0

  -- What holds of the endorsers of each of the organizations holds of those of all.
  pub All-of_orgs :
      (P : Member → Type 0) (orgs : List String) (ms : PeerGroup)
      → ((org : String) → contains_org orgs org ≡ true → All P (of_orgs (org ∷ []) ms))
      → All P (of_orgs orgs ms)
  All-of_orgs P orgs [] h = tt
  All-of_orgs P orgs (m ∷ ms) h =
      let rest = All-of_orgs P orgs ms (λ org there. tail_of P _ m ms (h org there)) in
      elim (Bool-cases (accepts_endorser to_lower orgs [] m)) [
        | inl q ↦ rw q (
          head_of P (accepts_endorser to_lower (m.msp_id ∷ []) []) m ms
              (at_home-IsEligible orgs m q) (h m.msp_id (eligible_parts orgs m q).0),
          rest,
        )
        | inr q ↦ rw q rest
      ]

All-map : (P Q : Member → Type 0) (g : PeerGroup) → ((m : Member) → P m → Q m) → All P g → All Q g
All-map P Q [] f h = tt
All-map P Q (m ∷ g) f h = (f m h.0, All-map P Q g f h.1)

-- A filter that lets more through.
module _ (p q : Member → Bool) (weaker : (m : Member) → p m ≡ true → q m ≡ true) where
  pub length-filter-le : (ms : PeerGroup) → length (filter p ms) ≤ length (filter q ms)
  length-filter-le [] = omega arith
  length-filter-le (m ∷ ms) = elim (Bool-cases (p m)) [
    | inl h ↦ rw (h, weaker m h) (omega (arith, length-filter-le ms))
    | inr h ↦ elim (Bool-cases (q m)) [
      | inl k ↦ rw (h, k) (omega (arith, length-filter-le ms))
      | inr k ↦ rw (h, k) (length-filter-le ms)
    ]
  ]

  contains_more : (m x : Member) (g : PeerGroup) → contains g x ≡ true → contains (m ∷ g) x ≡ true
  unfolding contains any
  contains_more m x g h = ground (arith, h)

  contains_first : (m : Member) (g : PeerGroup) → contains (m ∷ g) m ≡ true
  unfolding contains any
  contains_first m g = rw ((eq_iff m.endpoint m.endpoint).1 refl) refl

  kept_or_not :
      (b : Bool) (m : Member) (g xs : PeerGroup)
      → All (λ x. contains g x ≡ true) xs
      → All (λ x. contains (if b then m ∷ g else g) x ≡ true) xs
  kept_or_not true m g xs h = All-map _ _ xs (λ x k. contains_more m x g k) h
  kept_or_not false m g xs h = h

  both_kept :
      (b c : Bool) (m : Member) (g xs : PeerGroup)
      → (b ≡ true → c ≡ true)
      → All (λ x. contains g x ≡ true) xs
      → All (λ x. contains (if c then m ∷ g else g) x ≡ true) (if b then m ∷ xs else xs)
  both_kept true true m g xs w h = (contains_first m g, kept_or_not true m g xs h)
  both_kept true false m g xs w h = cc (w refl)
  both_kept false c m g xs w h = kept_or_not c m g xs h

  pub contains-filter : (ms : PeerGroup) → All (λ m. contains (filter q ms) m ≡ true) (filter p ms)
  contains-filter [] = tt
  contains-filter (m ∷ ms) =
      both_kept (p m) (q m) m (filter q ms) (filter p ms) (weaker m) (contains-filter ms)

  pub All-filter : (ms : PeerGroup) → All (λ m. q m ≡ true) (filter p ms)
  All-filter [] = tt
  All-filter (m ∷ ms) = elim (Bool-cases (p m)) [
    | inl h ↦ rw h (weaker m h, All-filter ms)
    | inr h ↦ rw h (All-filter ms)
  ]
