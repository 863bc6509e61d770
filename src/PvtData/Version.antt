-- ===== src/PvtData/Version.antt =====
-- pkg/common/version/version.go: the height of a transaction.
use fabric_peer_ext.Prelude.{
  ℕ, ◌==◌, ltb, Bool, true, false, not, ◌&&◌, String, Option, none, some, [], ◌∷◌, ◌++◌,
  append_assoc, length, if◌then◌else◌, ◌+◌, ◌-◌, ◌%◌, ◌^◌, ◌<◌, ◌≤◌, ◌≡◌, refl, ap, Bool-cases, inl,
  inr, length-append, arith,
}
use fabric_peer_ext.Prelude.Outcome.{Outcome, ok, panic, ◌>>=◌}
use fabric_peer_ext.Prelude.Bytes.{Bytes}
use fabric_peer_ext.PvtData.Varint.{max_uint64, drop}

pub record Height : Type 0 where
  pub block_num : ℕ
  pub tx_num : ℕ

-- `util.EncodeOrderPreservingVarUint64` and its decoding, code outside the repository: the decoding
-- gives the number and the bytes that it consumes.
pub record OrderPreserving : Type 0 where
  pub encode : ℕ → Bytes
  pub decode : Bytes → Outcome String (ℕ × ℕ)
  pub decode-encode :
      (n : ℕ) (rest : Bytes)
      → n ≤ max_uint64
      → decode (encode n ++ rest) ≡ ok (n, length (encode n))

-- `b[n:]`
abbrev pub slice_from : Bytes → ℕ → Outcome String Bytes
slice_from b n = if ltb (length b) n then panic else ok (drop n b)

module _ (codec : OrderPreserving) where
  -- `NewHeightFromBytes`: the height and the bytes consumed
  unfoldable pub new_height_from_bytes : Bytes → Outcome String (Height × ℕ)
  new_height_from_bytes b = do
    first ← codec.decode b
    rest ← slice_from b first.1
    second ← codec.decode rest
    ok (record { block_num = first.0; tx_num = second.0 }, first.1 + second.1)

  unfoldable pub to_bytes : Height → Bytes
  to_bytes h = codec.encode h.block_num ++ codec.encode h.tx_num

  drop_all : (xs ys : Bytes) → drop (length xs) (xs ++ ys) ≡ ys
  drop_all [] ys = refl
  drop_all (x ∷ xs) ys = drop_all xs ys

  pub slice_behind : (xs ys : Bytes) → slice_from (xs ++ ys) (length xs) ≡ ok ys
  slice_behind xs ys = rw (in_range xs ys) (ap ok (drop_all xs ys))
    where
      in_range : (xs ys : Bytes) → ltb (length (xs ++ ys)) (length xs) ≡ false
      in_range xs ys = ground (arith, length-append xs ys)

  -- A height is read back from its bytes, whatever follows them, and as many bytes are consumed as
  -- it has.
  pub new_height_from_bytes-to_bytes :
      (h : Height) (rest : Bytes)
      → h.block_num ≤ max_uint64
      → h.tx_num ≤ max_uint64
      → new_height_from_bytes (to_bytes h ++ rest) ≡ ok (h, length (to_bytes h))
  unfolding new_height_from_bytes to_bytes
  new_height_from_bytes-to_bytes h rest b t =
      rw
        (
          append_assoc (codec.encode h.block_num) (codec.encode h.tx_num) rest,
          codec.decode-encode h.block_num (codec.encode h.tx_num ++ rest) b,
          slice_behind (codec.encode h.block_num) (codec.encode h.tx_num ++ rest),
          codec.decode-encode h.tx_num rest t,
          length-append (codec.encode h.block_num) (codec.encode h.tx_num),
        )
        refl

-- -1, 0 and 1
pub data Comparison : Type 0 where
  lower same_height higher : Comparison

-- `int(a - b) > 0` for numbers of 64 bits
abbrev pub positive_difference : ℕ → ℕ → Bool
positive_difference a b = let d = (a + 2 ^ 64 - b) % 2 ^ 64 in ltb 0 d && ltb d (2 ^ 63)

abbrev pub sign_of : ℕ → ℕ → Comparison
sign_of a b = if positive_difference a b then higher else lower

-- `Height.Compare`
unfoldable pub compare_heights : Height → Height → Comparison
compare_heights h h1 =
    if not (h.block_num == h1.block_num)
    then sign_of h.block_num h1.block_num
    else if not (h.tx_num == h1.tx_num)
    then sign_of h.tx_num h1.tx_num
    else same_height

abbrev pub is_same : Comparison → Bool
is_same lower = false
is_same same_height = true
is_same higher = false

-- `AreSame`; `none` stands for a nil pointer
unfoldable pub are_same : Option Height → Option Height → Bool
unfolding compare_heights
are_same none none = true
are_same none (some h) = false
are_same (some h) none = false
are_same (some h) (some h1) = is_same (compare_heights h h1)

-- the order of heights
abbrev pub in_order : Height → Height → Comparison
in_order h h1 =
    if ltb h.block_num h1.block_num
    then lower
    else if ltb h1.block_num h.block_num
    then higher
    else if ltb h.tx_num h1.tx_num
    then lower
    else if ltb h1.tx_num h.tx_num
    then higher
    else same_height

sign_in_order :
    (a b : ℕ)
    → a < 2 ^ 63
    → b < 2 ^ 63
    → (a == b) ≡ false
    → sign_of a b ≡ (if ltb a b then lower else higher)
sign_in_order a b ha hb n = ground (arith, ha, hb, n)

-- For numbers below 2^63, `Compare` is the order by blocks, and within a block by transactions.
pub compare_heights-in_order :
    (h h1 : Height)
    → h.block_num < 2 ^ 63
    → h1.block_num < 2 ^ 63
    → h.tx_num < 2 ^ 63
    → h1.tx_num < 2 ^ 63
    → compare_heights h h1 ≡ in_order h h1
unfolding compare_heights
compare_heights-in_order h h1 b b1 t t1 = elim (Bool-cases (h.block_num == h1.block_num)) [
  | inl q ↦ elim (Bool-cases (h.tx_num == h1.tx_num)) [
    | inl r ↦ rw (q, r) (ground (arith, q, r))
    | inr r ↦ rw (q, r, sign_in_order h.tx_num h1.tx_num t t1 r) (ground (arith, q, r))
  ]
  | inr q ↦ rw (q, sign_in_order h.block_num h1.block_num b b1 q) (ground (arith, q))
]
