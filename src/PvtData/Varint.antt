-- ===== src/PvtData/Varint.antt =====
-- encodeReverseOrderVarUint64 and decodeReverseOrderVarUint64 of
-- pkg/pvtdatastorage/common/kv_encoding.go.
use fabric_peer_ext.Prelude.{
  ℕ, zero, suc, ◌==◌, ltb, String, List, [], ◌∷◌, ◌++◌, length, take, replicate, if◌then◌else◌, ◌+◌,
  ◌-◌, ◌*◌, ◌/◌, ◌%◌, ◌<◌, ◌≡◌,
}
use fabric_peer_ext.Prelude.Outcome.{Outcome, ok, panic}
use fabric_peer_ext.Prelude.Bytes.{Bytes}

-- `proto.EncodeVarint` and `proto.DecodeVarint`, code outside the repository: the first byte of the
-- one, the number of the other. A number below 128 is one byte that is the number.
pub record Varint : Type 0 where
  pub first_byte : ℕ → ℕ
  pub decode_varint : Bytes → ℕ
  pub first_small : (n : ℕ) → n < 128 → first_byte n ≡ n
  pub decode_small : (n : ℕ) (rest : Bytes) → n < 128 → decode_varint (n ∷ rest) ≡ n

-- `math.MaxUint64`
abbrev pub max_uint64 : ℕ
max_uint64 = 18446744073709551615

-- `binary.BigEndian.PutUint64`, for a number of bytes
unfoldable pub put_big_endian : ℕ → ℕ → Bytes
put_big_endian zero x = []
put_big_endian (suc w) x = put_big_endian w (x / 256) ++ x % 256 ∷ []

unfoldable pub big_endian_from : ℕ → Bytes → ℕ
big_endian_from acc [] = acc
big_endian_from acc (b ∷ bs) = big_endian_from (acc * 256 + b) bs

-- `numFFBytes`
unfoldable pub leading_ff : Bytes → ℕ
leading_ff [] = 0
leading_ff (b ∷ bs) = let rest = leading_ff bs in if b == 255 then suc rest else 0

module _ {ℓ} {A : Type ℓ} where
  abbrev pub drop : ℕ → List A → List A
  drop zero xs = xs
  drop (suc n) [] = []
  drop (suc n) (x ∷ xs) = drop n xs

module _ (varint : Varint) where
  abbrev pub trimmed : Bytes → Bytes
  trimmed bytes = varint.first_byte (leading_ff bytes) ∷ drop (leading_ff bytes) bytes

  -- `encodeReverseOrderVarUint64`
  unfoldable pub encode_reverse_order : ℕ → Bytes
  unfolding leading_ff
  encode_reverse_order number = trimmed (put_big_endian 8 (max_uint64 - number))

  -- `bytes[1:]`
  abbrev pub behind_count : Bytes → Bytes
  behind_count [] = []
  behind_count (b ∷ bs) = bs

  -- `decodeReverseOrderVarUint64`: the number and the bytes consumed. A count above 8 or too few
  -- bytes are out of range; a slice is taken to have no more capacity than its length.
  unfoldable pub decode_reverse_order : Bytes → Outcome String (ℕ × ℕ)
  unfolding big_endian_from
  decode_reverse_order bytes =
      let count = varint.decode_varint bytes in
      let real_bytes = 8 - count in
      if ltb 8 count
      then panic
      else if ltb (length bytes) (real_bytes + 1)
      then panic
      else ok (
        max_uint64
            - big_endian_from 0 (replicate count 255 ++ take real_bytes (behind_count bytes)),
        real_bytes + 1,
      )
