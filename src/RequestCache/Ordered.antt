-- ===== src/RequestCache/Ordered.antt =====
-- The cache of pkg/validation/validationhandler/requestcache.go with requests in the order of their
-- blocks.
use fabric_peer_ext.Prelude.{
  ℕ, zero, suc, ◌==◌, leb, ltb, true, false, Option, none, some, List, [], ◌∷◌, All, if◌then◌else◌,
  ◌+◌, ◌<◌, ◌≤◌, ◌≡◌, refl, sym, ◌∙◌, subst, Bool-cases, inl, inr, arith, ==_iff, lt→ltb,
}
use fabric_peer_ext.PvtData.Varint.{drop}
use fabric_peer_ext.RequestCache.{Request, scan, removed_to, remove_up_to}

equal_le : (a b : ℕ) → (a == b) ≡ true → leb a b ≡ true
equal_le a b q = ground (arith, q)

equal_not_before : (a b : ℕ) → (a == b) ≡ true → ltb b a ≡ false
equal_not_before a b q = ground (arith, q)

le_not_before : (a b : ℕ) → leb a b ≡ true → ltb b a ≡ false
le_not_before a b l = ground (arith, l)

after_not_le : (a b : ℕ) → leb a b ≡ false → b < a
after_not_le a b l = ground (arith, l)

module _ {R : Type 0} where
  -- Each request is of a later block than those before it.
  abbrev pub IsAscending : List (Request R) → Type 0
  IsAscending [] = Unit
  IsAscending (r ∷ rs) = All (λ s. r.block_num < s.block_num) rs × IsAscending rs

  -- the requests of later blocks
  abbrev pub behind : ℕ → List (Request R) → List (Request R)
  behind n [] = []
  behind n (r ∷ rs) = let rest = behind n rs in if ltb n r.block_num then r ∷ rest else rest

  -- the request of a block
  abbrev pub request_of : ℕ → List (Request R) → Option (Request R)
  request_of n [] = none
  request_of n (r ∷ rs) = let rest = request_of n rs in if r.block_num == n then some r else rest

  all_behind : (n : ℕ) (rs : List (Request R)) → All (λ s. n < s.block_num) rs → behind n rs ≡ rs
  all_behind n [] h = refl
  all_behind n (r ∷ rs) h = ground (arith, h.0, all_behind n rs h.1)

  none_of : (n : ℕ) (rs : List (Request R)) → All (λ s. n < s.block_num) rs → request_of n rs ≡ none
  none_of n [] h = refl
  none_of n (r ∷ rs) h = ground (arith, h.0, none_of n rs h.1)

  weaker :
      (m n : ℕ) (rs : List (Request R))
      → n ≤ m
      → All (λ s. m < s.block_num) rs
      → All (λ s. n < s.block_num) rs
  weaker m n [] l h = tt
  weaker m n (r ∷ rs) l h = (omega (arith, l, h.0), weaker m n rs l h.1)

  scan_behind :
      (n i : ℕ) (o : Option ℕ) (rs : List (Request R))
      → All (λ s. n < s.block_num) rs
      → scan n i o rs ≡ (o, none)
  unfolding scan
  scan_behind n i o [] h = refl
  scan_behind n i o (r ∷ rs) h = rw (not_le r.block_num n h.0) (scan_behind n (i + 1) o rs h.1)
    where
      not_le : (a b : ℕ) → b < a → leb a b ≡ false
      not_le a b h = ground (arith, h)

  drop_next :
      (i : ℕ) (r : Request R) (rs all : List (Request R))
      → drop i all ≡ r ∷ rs
      → drop (i + 1) all ≡ rs
  drop_next i r rs all d = rw (one_more i) (drop_suc i r rs all d)
    where
      one_more : (i : ℕ) → i + 1 ≡ suc i
      one_more i = omega arith

      drop_suc :
          (i : ℕ) (r : Request R) (rs all : List (Request R))
          → drop i all ≡ r ∷ rs
          → drop (suc i) all ≡ rs
      drop_suc zero r rs [] d = cc
      drop_suc (suc i) r rs [] d = cc
      drop_suc zero r rs (x ∷ all) d = cc
      drop_suc (suc i) r rs (x ∷ all) d = drop_suc i r rs all d

  -- `all` is what has been looked at before the index `i`, and then `rs`.
  scan_lem :
      (n i : ℕ) (o : Option ℕ) (rs all : List (Request R))
      → IsAscending rs
      → drop i all ≡ rs
      → removed_to all o ≡ rs
      → (removed_to all (scan n i o rs).0 ≡ behind n rs) × ((scan n i o rs).1 ≡ request_of n rs)
  unfolding scan
  scan_lem n i o [] all h d e = (e, refl)
  scan_lem n i o (r ∷ rs) all h d e =
      let next : drop (i + 1) all ≡ rs = drop_next i r rs all d in
      elim (Bool-cases (r.block_num == n)) [
        | inl q ↦
            let same : r.block_num ≡ n = (==_iff r.block_num n).0 q in
            let rest = all_behind n rs (subst (λ k. All (λ s. k < s.block_num) rs) same h.0) in
            rw (q, equal_le r.block_num n q, equal_not_before r.block_num n q)
              (next ∙ sym rest, refl)
        | inr q ↦ elim (Bool-cases (leb r.block_num n)) [
          | inl l ↦
              rw (q, l, le_not_before r.block_num n l)
                (scan_lem n (i + 1) (some i) rs all h.1 next next)
          | inr l ↦
              let more = after_not_le r.block_num n l in
              let rest = weaker r.block_num n rs (omega (arith, more)) h.0 in
              rw
                (
                  q,
                  l,
                  lt→ltb n r.block_num more,
                  scan_behind n (i + 1) o rs rest,
                  all_behind n rs rest,
                  none_of n rs rest,
                )
                (e, refl)
        ]
      ]

  -- With requests in the order of their blocks, `Remove` gives the request of the block, if there is
  -- one, and keeps just the requests of later blocks.
  pub remove_up_to_lem :
      (requests : List (Request R)) (block_num : ℕ)
      → IsAscending requests
      → ((remove_up_to requests block_num).0 ≡ behind block_num requests)
        × ((remove_up_to requests block_num).1 ≡ request_of block_num requests)
  unfolding remove_up_to
  remove_up_to_lem requests n h = scan_lem n 0 none requests requests h refl refl
