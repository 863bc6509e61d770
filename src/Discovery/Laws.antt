-- ===== src/Discovery/Laws.antt =====
-- Membership in groups of peers, pkg/common/discovery/peergroup.go: a peer is its endpoint.
use text.Mathlib.TextPositions.{eq_refl}
use fabric_peer_ext.Prelude.{
  ℕ, zero, suc, ◌<◌, ◌≡◌, refl, true, false, ◌||◌, String, str_eq, eq_iff, [], ◌∷◌, ◌++◌, length,
  arith, if◌then◌else◌,
}
use fabric_peer_ext.Prelude.Outcome.{ok, index}
use fabric_peer_ext.Discovery.{Member, PeerGroup, contains, contains_peer, merge}

pub contains-append :
    (xs ys : PeerGroup) (m : Member) → contains (xs ++ ys) m ≡ (contains xs m || contains ys m)
unfolding contains
contains-append [] ys m = refl
contains-append (x ∷ xs) ys m = ground (arith, contains-append xs ys m)

pub contains-cons :
    (x : Member) (xs : PeerGroup) (m : Member)
    → contains (x ∷ xs) m ≡ (str_eq x.endpoint m.endpoint || contains xs m)
unfolding contains
contains-cons x xs m = refl

pub contains_head : (m : Member) (xs : PeerGroup) → contains (m ∷ xs) m ≡ true
unfolding contains
contains_head m xs = ground (arith, eq_refl m.endpoint)

pub contains-index :
    {E : Type 0} (xs : PeerGroup) (i : ℕ)
    → i < length xs
    → (m : Member) × (index {E = E} xs i ≡ ok m) × (contains xs m ≡ true)
contains-index {E} [] i h = absurd (omega arith)
contains-index {E} (x ∷ xs) zero h = (x, refl, contains_head x xs)
contains-index {E} (x ∷ xs) (suc i) h =
    let (m, e, c) = contains-index {E = E} xs i (omega arith) in
    (m, e, ground (arith, contains-cons x xs m))

pub contains-contains_peer :
    (xs : PeerGroup) (m : Member) → contains xs m ≡ contains_peer xs m.endpoint
unfolding contains contains_peer
contains-contains_peer xs m = refl

contains_peer-append :
    (xs ys : PeerGroup) (e : String)
    → contains_peer (xs ++ ys) e ≡ (contains_peer xs e || contains_peer ys e)
unfolding contains_peer
contains_peer-append [] ys e = refl
contains_peer-append (x ∷ xs) ys e = ground (arith, contains_peer-append xs ys e)

pub contains_peer-cons :
    (p : Member) (g : PeerGroup) (e : String)
    → contains_peer (p ∷ g) e ≡ (str_eq p.endpoint e || contains_peer g e)
unfolding contains_peer
contains_peer-cons p g e = refl

pub contains_peer-nil : (e : String) → contains_peer [] e ≡ false
unfolding contains_peer
contains_peer-nil e = refl

contains_peer-snoc :
    (g : PeerGroup) (p : Member) (e : String)
    → contains_peer (if contains g p then g else g ++ p ∷ []) e
      ≡ (contains_peer g e || str_eq p.endpoint e)
contains_peer-snoc g p e = ground (
  arith,
  contains_peer-append g (p ∷ []) e,
  contains-contains_peer g p,
  eq_iff p.endpoint e,
  contains_peer-cons p [] e,
  contains_peer-nil e,
)

-- `Merge` leaves a group that has the peers of both, by their endpoints, and no others.
pub contains_peer-merge :
    (g peers : PeerGroup) (e : String)
    → contains_peer (merge g peers) e ≡ (contains_peer g e || contains_peer peers e)
unfolding merge
contains_peer-merge g [] e = ground (arith, contains_peer-nil e)
contains_peer-merge g (p ∷ peers) e = ground (
  arith,
  contains_peer-merge (if contains g p then g else g ++ p ∷ []) peers e,
  contains_peer-snoc g p e,
  contains_peer-cons p peers e,
)
