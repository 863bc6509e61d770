-- ===== src/PvtData/VarintLaws.antt =====
-- The round trip of encodeReverseOrderVarUint64.
use fabric_peer_ext.Prelude.{
  ℕ, zero, suc, ◌==◌, ==_iff, ltb, false, List, [], ◌∷◌, ◌++◌, length, length-append, take,
  replicate, ◌+◌, ◌-◌, ◌*◌, ◌/◌, ◌%◌, ◌^◌, ◌<◌, ◌≤◌, ◌≡◌, refl, sym, ap, ◌∙◌, subst, Bool-cases,
  inl, inr, arith,
}
use fabric_peer_ext.Prelude.Outcome.{ok}
use fabric_peer_ext.Prelude.Bytes.{Bytes}
use fabric_peer_ext.PvtData.Varint.{
  Varint, max_uint64, put_big_endian, big_endian_from, leading_ff, drop, trimmed,
  encode_reverse_order, decode_reverse_order,
}
use native.Mathlib.Nat.{pow-suc}

big_endian_from-append :
    (bs : Bytes) (b acc : ℕ) → big_endian_from acc (bs ++ b ∷ []) ≡ big_endian_from acc bs * 256 + b
unfolding big_endian_from
big_endian_from-append [] b acc = refl
big_endian_from-append (c ∷ bs) b acc = big_endian_from-append bs b (acc * 256 + c)

pub quotient_bound : (w x : ℕ) → x < 256 ^ suc w → x / 256 < 256 ^ w
quotient_bound w x h =
    let h' : x < 256 ^ w * 256 = subst (λ n. x < n) (pow-suc 256 w) h in omega (arith, h')

-- The big-endian bytes of a number that they have room for are read as the number.
pub big_endian_from-put_big_endian :
    (w x : ℕ) → x < 256 ^ w → big_endian_from 0 (put_big_endian w x) ≡ x
unfolding put_big_endian big_endian_from
big_endian_from-put_big_endian zero x h = omega arith
big_endian_from-put_big_endian (suc w) x h =
    big_endian_from-append (put_big_endian w (x / 256)) (x % 256) 0
    ∙ ap (λ n. n * 256 + x % 256)
        (big_endian_from-put_big_endian w (x / 256) (quotient_bound w x h))
    ∙ omega arith

pub length-put_big_endian : (w x : ℕ) → length (put_big_endian w x) ≡ w
unfolding put_big_endian
length-put_big_endian zero x = refl
length-put_big_endian (suc w) x =
    length-append (put_big_endian w (x / 256)) (x % 256 ∷ [])
    ∙ ap (λ n. n + 1) (length-put_big_endian w (x / 256))
    ∙ omega arith

pub leading_ff_bound : (bs : Bytes) → leading_ff bs ≤ length bs
unfolding leading_ff
leading_ff_bound [] = omega arith
leading_ff_bound (b ∷ bs) = ground (arith, leading_ff_bound bs)

trimmed_back : (bs : Bytes) → replicate (leading_ff bs) 255 ++ drop (leading_ff bs) bs ≡ bs
unfolding leading_ff
trimmed_back [] = refl
trimmed_back (b ∷ bs) = elim (Bool-cases (b == 255)) [
  | inl q ↦ rw q (ap (◌∷◌ 255) (trimmed_back bs) ∙ ap (λ c. c ∷ bs) (sym ((==_iff b 255).0 q)))
  | inr q ↦ rw q refl
]

module _ {ℓ} {A : Type ℓ} where
  pub length-drop : (n : ℕ) (xs : List A) → length (drop n xs) ≡ length xs - n
  length-drop zero xs = omega arith
  length-drop (suc n) [] = omega arith
  length-drop (suc n) (x ∷ xs) = length-drop n xs ∙ omega arith

  pub take-append : (xs ys : List A) → take (length xs) (xs ++ ys) ≡ xs
  take-append [] ys = refl
  take-append (x ∷ xs) ys = ap (◌∷◌ x) (take-append xs ys)

module _ (varint : Varint) where
  decode_trimmed :
      (bs rest : Bytes)
      → length bs ≡ 8
      → decode_reverse_order varint (trimmed varint bs ++ rest)
        ≡ ok (max_uint64 - big_endian_from 0 bs, length (trimmed varint bs))
  unfolding decode_reverse_order
  decode_trimmed bs rest eight =
      let k = leading_ff bs in
      let tail = drop k bs in
      let bound : k ≤ 8 = subst (λ n. k ≤ n) eight (leading_ff_bound bs) in
      let byte = varint.first_small k (omega (arith, bound)) in
      let count = varint.decode_small k (tail ++ rest) (omega (arith, bound)) in
      let left : length tail ≡ 8 - k = length-drop k bs ∙ ap (λ n. n - k) eight in
      let taken : take (8 - k) (tail ++ rest) ≡ tail =
        subst (λ n. take n (tail ++ rest) ≡ tail) left (take-append tail rest) in
      let long : ltb (suc (length (tail ++ rest))) (8 - k + 1) ≡ false =
        ground (arith, length-append tail rest, left) in
      let few : ltb 8 k ≡ false = ground (arith, bound) in
      let plus : 8 - k + 1 ≡ suc (8 - k) = omega arith in
      rw (byte, count, few, long, taken, trimmed_back bs, left)
        (ap (λ n. ok (max_uint64 - big_endian_from 0 bs, n)) plus)

  -- What was encoded is decoded, and as many bytes are consumed as it has, whatever follows them.
  pub decode_reverse_order-encode_reverse_order :
      (number : ℕ) (rest : Bytes)
      → number ≤ max_uint64
      → decode_reverse_order varint (encode_reverse_order varint number ++ rest)
        ≡ ok (number, length (encode_reverse_order varint number))
  unfolding encode_reverse_order
  decode_reverse_order-encode_reverse_order number rest h =
      decode_trimmed (put_big_endian 8 (max_uint64 - number)) rest (length-put_big_endian 8 _)
      ∙ ap (λ n. ok (n, length (encode_reverse_order varint number)))
          (ap (λ x. max_uint64 - x)
              (big_endian_from-put_big_endian 8 (max_uint64 - number) (omega arith))
            ∙ omega (arith, h))

  -- An encoded number has nine bytes at most.
  pub length-encode_reverse_order_bound :
      (number : ℕ) → length (encode_reverse_order varint number) ≤ 9
  unfolding encode_reverse_order
  length-encode_reverse_order_bound number =
      let bs = put_big_endian 8 (max_uint64 - number) in
      omega (arith, length-drop (leading_ff bs) bs, length-put_big_endian 8 (max_uint64 - number))
