-- ===== src/Disseminator/Counting.antt =====
-- Groups of peers with distinct endpoints, by which pkg/common/discovery tells peers apart.
use fabric_peer_ext.Prelude.{
  ◌≤◌, ◌<◌, length, Bool, true, false, ◌||◌, if◌then◌else◌, str_eq, eq_iff, [], ◌∷◌, ◌++◌, ◌≡◌,
  refl, sym, ◌∙◌, All, Bool-cases, inl, inr, arith, any,
}
use fabric_peer_ext.Discovery.{Member, PeerGroup, contains}

abbrev pub Distinct : PeerGroup → Type 0
Distinct [] = Unit
Distinct (m ∷ g) = (contains g m ≡ false) × Distinct g

abbrev pub same_endpoint : Member → Member → Bool
same_endpoint p q = str_eq p.endpoint q.endpoint

abbrev without : PeerGroup → Member → PeerGroup
without [] m = []
without (x ∷ xs) m = let rest = without xs m in if same_endpoint x m then rest else x ∷ rest

length-without-le : (xs : PeerGroup) (m : Member) → length (without xs m) ≤ length xs
length-without-le [] m = omega arith
length-without-le (x ∷ xs) m = elim (Bool-cases (same_endpoint x m)) [
  | inl q ↦ rw q (omega (arith, length-without-le xs m))
  | inr q ↦ rw q (omega (arith, length-without-le xs m))
]

length-without-lt :
    (xs : PeerGroup) (m : Member) → contains xs m ≡ true → length (without xs m) < length xs
unfolding contains any
length-without-lt [] m h = cc
length-without-lt (x ∷ xs) m h = elim (Bool-cases (same_endpoint x m)) [
  | inl q ↦ rw q (omega (arith, length-without-le xs m))
  | inr q ↦ rw q (omega (arith, length-without-lt xs m (rw q at h)))
]

differ :
    (x m q : Member)
    → same_endpoint x m ≡ true
    → same_endpoint m q ≡ false
    → same_endpoint x q ≡ false
differ x m q h k = rw ((eq_iff x.endpoint m.endpoint).0 h) k

contains-without :
    (xs : PeerGroup) (m q : Member)
    → same_endpoint m q ≡ false
    → contains xs q ≡ true
    → contains (without xs m) q ≡ true
unfolding contains any
contains-without [] m q h k = k
contains-without (x ∷ xs) m q h k = elim (Bool-cases (same_endpoint x m)) [
  | inl e ↦ rw e (contains-without xs m q h (rw (differ x m q e h) at k))
  | inr e ↦ elim (Bool-cases (same_endpoint x q)) [
    | inl s ↦ rw (e, s) refl
    | inr s ↦ rw (e, s) (contains-without xs m q h (rw s at k))
  ]
]

same_sym : (p q : Member) → same_endpoint p q ≡ false → same_endpoint q p ≡ false
same_sym p q h = elim (Bool-cases (same_endpoint q p)) [
  | inl e ↦ cc (h, (eq_iff p.endpoint q.endpoint).1 (sym ((eq_iff q.endpoint p.endpoint).0 e)))
  | inr e ↦ e
]

others_in :
    (g xs : PeerGroup) (m : Member)
    → contains g m ≡ false
    → All (λ q. contains xs q ≡ true) g
    → All (λ q. contains (without xs m) q ≡ true) g
unfolding contains any
others_in [] xs m h hs = tt
others_in (q ∷ g) xs m h hs = elim (Bool-cases (same_endpoint q m)) [
  | inl e ↦ cc (rw e at h)
  | inr e ↦ (contains-without xs m q (same_sym q m e) hs.0, others_in g xs m (rw e at h) hs.1)
]

-- Distinct peers that are all in another group are no more than it has.
pub Distinct-length-le :
    (g xs : PeerGroup) → Distinct g → All (λ m. contains xs m ≡ true) g → length g ≤ length xs
Distinct-length-le [] xs d hs = omega arith
Distinct-length-le (m ∷ g) xs d hs = omega (
  arith,
  length-without-lt xs m hs.0,
  Distinct-length-le g (without xs m) d.1 (others_in g xs m d.0 hs.1),
)

pub contains-snoc :
    (g : PeerGroup) (m q : Member) → contains (g ++ m ∷ []) q ≡ (contains g q || same_endpoint m q)
unfolding contains any
contains-snoc [] m q = ground arith
contains-snoc (x ∷ g) m q = ground (arith, contains-snoc g m q)

pub Distinct-snoc :
    (g : PeerGroup) (m : Member) → Distinct g → contains g m ≡ false → Distinct (g ++ m ∷ [])
unfolding contains any
Distinct-snoc [] m d h = (refl, tt)
Distinct-snoc (x ∷ g) m d h = elim (Bool-cases (same_endpoint x m)) [
  | inl e ↦ cc (rw e at h)
  | inr e ↦
      (contains-snoc g m x ∙ ground (arith, d.0, same_sym x m e), Distinct-snoc g m d.1 (rw e at h))
]
