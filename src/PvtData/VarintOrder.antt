-- ===== src/PvtData/VarintOrder.antt =====
-- The order of encodeReverseOrderVarUint64, compared as the database compares keys.
use fabric_peer_ext.Prelude.{
  ℕ, zero, suc, ◌==◌, ==_iff, ltb, Bool, true, false, ◌&&◌, ◌||◌, [], ◌∷◌, ◌++◌, append-nil, length,
  All, ◌-◌, ◌/◌, ◌%◌, ◌^◌, ◌<◌, ◌≤◌, ◌≡◌, refl, sym, ap, ◌∙◌, subst, Bool-cases, inl, inr, arith,
}
use fabric_peer_ext.Prelude.Bytes.{Bytes}
use fabric_peer_ext.PvtData.Varint.{
  Varint, max_uint64, put_big_endian, leading_ff, drop, encode_reverse_order,
}
use fabric_peer_ext.Prelude.{ltb→lt}
use fabric_peer_ext.PvtData.VarintLaws.{
  quotient_bound, length-put_big_endian, leading_ff_bound, length-drop,
}

-- `bytes.Compare` below zero
unfoldable pub is_before : Bytes → Bytes → Bool
is_before [] [] = false
is_before [] (c ∷ t) = true
is_before (b ∷ s) [] = false
is_before (b ∷ s) (c ∷ t) = ltb b c || ((b == c) && is_before s t)

before_suc : (m n : ℕ) (s t : Bytes) → is_before (suc m ∷ s) (suc n ∷ t) ≡ is_before (m ∷ s) (n ∷ t)
unfolding is_before
before_suc m n s t = ground arith

before_at_max :
    (b c : ℕ) (s t : Bytes)
    → b ≡ 255
    → c ≤ 255
    → is_before (b ∷ s) (c ∷ t) ≡ true
    → ((c == 255) ≡ true) × (is_before s t ≡ true)
unfolding is_before
before_at_max b c s t e m h = (ground (arith, e, m, h), ground (arith, e, m, h))

-- With more leading 0xff bytes the number is larger, and so is the count.
before_trimmed :
    (s t : Bytes)
    → length s ≡ length t
    → All (λ b. b ≤ 255) t
    → is_before s t ≡ true
    → is_before (leading_ff s ∷ drop (leading_ff s) s) (leading_ff t ∷ drop (leading_ff t) t) ≡ true
unfolding is_before leading_ff
before_trimmed [] [] l bt h = cc
before_trimmed [] (c ∷ t) l bt h = ground arith
before_trimmed (b ∷ s) [] l bt h = cc
before_trimmed (b ∷ s) (c ∷ t) l bt h = elim (Bool-cases (b == 255)) [
  | inl q ↦
      let (r, behind) = before_at_max b c s t ((==_iff b 255).0 q) bt.0 h in
      let both = before_trimmed s t (omega (arith, l)) bt.1 behind in
      rw (q, r)
        (before_suc (leading_ff s) (leading_ff t) (drop (leading_ff s) s) (drop (leading_ff t) t)
          ∙ both)
  | inr q ↦ elim (Bool-cases (c == 255)) [ inl r ↦ rw (q, r) (ground arith) | inr r ↦ rw (q, r) h ]
]

before_front :
    (s t u v : Bytes)
    → length s ≡ length t
    → is_before s t ≡ true
    → is_before (s ++ u) (t ++ v) ≡ true
unfolding is_before
before_front [] [] u v l h = cc
before_front [] (c ∷ t) u v l h = ground (arith, l)
before_front (b ∷ s) [] u v l h = cc
before_front (b ∷ s) (c ∷ t) u v l h = elim (Bool-cases (is_before s t)) [
  | inl q ↦ ground (arith, before_front s t u v (omega (arith, l)) q, h)
  | inr q ↦ ground (arith, q, h)
]

before_back : (s u v : Bytes) → is_before u v ≡ true → is_before (s ++ u) (s ++ v) ≡ true
unfolding is_before
before_back [] u v h = h
before_back (b ∷ s) u v h = ground (arith, before_back s u v h)

not_ltb : (a b : ℕ) → ltb a b ≡ false → b ≤ a
not_ltb a b h = ground arith

before_last : (a b : ℕ) → a < b → is_before (a ∷ []) (b ∷ []) ≡ true
unfolding is_before
before_last a b h = ground (arith, h)

put_before :
    (w x y : ℕ) → x < y → y < 256 ^ w → is_before (put_big_endian w x) (put_big_endian w y) ≡ true
unfolding put_big_endian
put_before zero x y l h = absurd (omega (arith, l, h))
put_before (suc w) x y l h = elim (Bool-cases (ltb (x / 256) (y / 256))) [
  | inl q ↦
      before_front (put_big_endian w (x / 256)) (put_big_endian w (y / 256)) (x % 256 ∷ [])
        (y % 256 ∷ []) (length-put_big_endian w (x / 256) ∙ sym (length-put_big_endian w (y / 256)))
        (put_before w (x / 256) (y / 256) (ltb→lt (x / 256) (y / 256) q) (quotient_bound w y h))
  | inr q ↦
      let le : y / 256 ≤ x / 256 = not_ltb (x / 256) (y / 256) q in
      let same : x / 256 ≡ y / 256 = omega (arith, le, l) in
      let rest : x % 256 < y % 256 = omega (arith, same, l) in
      let last : is_before (x % 256 ∷ []) (y % 256 ∷ []) ≡ true =
        before_last (x % 256) (y % 256) rest in
      subst
        (λ n.
          is_before (put_big_endian w (x / 256) ++ x % 256 ∷ [])
            (put_big_endian w n ++ y % 256 ∷ [])
          ≡ true)
        same (before_back (put_big_endian w (x / 256)) (x % 256 ∷ []) (y % 256 ∷ []) last)
]

All-append : (P : ℕ → Type 0) (s t : Bytes) → All P s → All P t → All P (s ++ t)
All-append P [] t h k = k
All-append P (b ∷ s) t h k = (h.0, All-append P s t h.1 k)

put_bytes : (w x : ℕ) → All (λ b. b ≤ 255) (put_big_endian w x)
unfolding put_big_endian
put_bytes zero x = tt
put_bytes (suc w) x =
    All-append _ (put_big_endian w (x / 256)) (x % 256 ∷ []) (put_bytes w (x / 256))
      (omega arith, tt)

-- Counts that differ decide, and with the same count the rest is as long.
before_behind :
    (s t u v : Bytes)
    → length s ≡ length t
    → is_before (leading_ff s ∷ drop (leading_ff s) s) (leading_ff t ∷ drop (leading_ff t) t) ≡ true
    → is_before
        ((leading_ff s ∷ drop (leading_ff s) s) ++ u)
        ((leading_ff t ∷ drop (leading_ff t) t) ++ v)
      ≡ true
unfolding is_before
before_behind s t u v l h = elim (Bool-cases (leading_ff s == leading_ff t)) [
  | inl q ↦
      let same = (==_iff (leading_ff s) (leading_ff t)).0 q in
      before_front (leading_ff s ∷ drop (leading_ff s) s) (leading_ff t ∷ drop (leading_ff t) t) u v
        (ap (λ n. suc n)
          (length-drop (leading_ff s) s
            ∙ sym (length-drop (leading_ff t) t ∙ omega (arith, same, l))))
        h
  | inr q ↦ ground (arith, q, h)
]

-- The larger of two numbers has the encoding that comes first, whatever follows the two.
pub encode_reverse_order-is_before :
    (varint : Varint) (m n : ℕ) (u v : Bytes)
    → m < n
    → n ≤ max_uint64
    → is_before (encode_reverse_order varint n ++ u) (encode_reverse_order varint m ++ v) ≡ true
unfolding encode_reverse_order
encode_reverse_order-is_before varint m n u v l h =
    let s = put_big_endian 8 (max_uint64 - n) in
    let t = put_big_endian 8 (max_uint64 - m) in
    let ls : length s ≡ 8 = length-put_big_endian 8 (max_uint64 - n) in
    let lt : length t ≡ 8 = length-put_big_endian 8 (max_uint64 - m) in
    rw
      (
        varint.first_small (leading_ff s) (omega (arith, leading_ff_bound s, ls)),
        varint.first_small (leading_ff t) (omega (arith, leading_ff_bound t, lt)),
      )
      (before_behind s t u v (ls ∙ sym lt) (
        before_trimmed s t (ls ∙ sym lt) (put_bytes 8 (max_uint64 - m))
          (put_before 8 (max_uint64 - n) (max_uint64 - m) (omega (arith, l, h)) (omega arith))))

before_asym : (s t : Bytes) → is_before s t ≡ true → is_before t s ≡ false
unfolding is_before
before_asym [] [] h = refl
before_asym [] (c ∷ t) h = refl
before_asym (b ∷ s) [] h = cc
before_asym (b ∷ s) (c ∷ t) h = elim (Bool-cases (is_before s t)) [
  | inl q ↦ ground (arith, h, before_asym s t q)
  | inr q ↦ ground (arith, h, q)
]

before_longer : (s u : Bytes) → is_before (s ++ u) s ≡ false
unfolding is_before
before_longer [] [] = refl
before_longer [] (c ∷ u) = refl
before_longer (b ∷ s) u = ground (arith, before_longer s u)

-- A scan from the encoding of a block number up to, and without, that of block 0 meets just the keys
-- of the blocks up to that number, block 0 left out.
pub encoded_in_range :
    (varint : Varint) (n b : ℕ) (u : Bytes)
    → n ≤ max_uint64
    → b ≤ n
    → 0 < b
    → (is_before (encode_reverse_order varint b ++ u) (encode_reverse_order varint n) ≡ false)
      × (is_before (encode_reverse_order varint b ++ u) (encode_reverse_order varint 0) ≡ true)
encoded_in_range varint n b u h l p =
    let bound : b ≤ max_uint64 = omega (arith, h, l) in
    let to_end =
      subst (λ t. is_before (encode_reverse_order varint b ++ u) t ≡ true)
        (append-nil (encode_reverse_order varint 0))
        (encode_reverse_order-is_before varint 0 b u [] p bound) in
    elim (Bool-cases (b == n)) [
      | inl q ↦ (
        subst
            (λ m.
              is_before (encode_reverse_order varint b ++ u) (encode_reverse_order varint m)
              ≡ false)
            ((==_iff b n).0 q) (before_longer (encode_reverse_order varint b) u),
        to_end,
      )
      | inr q ↦
          let less : b < n = ground (arith, q, l) in
          let from_start =
            subst (λ t. is_before t (encode_reverse_order varint b ++ u) ≡ true)
              (append-nil (encode_reverse_order varint n))
              (encode_reverse_order-is_before varint b n [] u less h) in
          (
            before_asym (encode_reverse_order varint n) (encode_reverse_order varint b ++ u)
                from_start,
            to_end,
          )
    ]
