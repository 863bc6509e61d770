-- ===== src/PvtData/Keys.antt =====
-- pkg/pvtdatastorage/common/kv_encoding.go: the keys of the private data store.
use fabric_peer_ext.Prelude.{
  ℕ, zero, suc, ◌==◌, String, Option, none, some, List, [], ◌∷◌, ◌++◌, if◌then◌else◌,
}
use fabric_peer_ext.Prelude.Outcome.{Outcome, ok, panic, ◌>>=◌}
use fabric_peer_ext.Prelude.Bytes.{Bytes, split}
use fabric_peer_ext.PvtData.Varint.{Varint, max_uint64, encode_reverse_order, decode_reverse_order}
use fabric_peer_ext.PvtData.Version.{
  Height, OrderPreserving, new_height_from_bytes, to_bytes, slice_from,
}

pub record NsCollBlk : Type 0 where
  pub ns : Bytes
  pub coll : Bytes
  pub blk_num : ℕ

pub record DataKey : Type 0 where
  pub ns_coll_blk : NsCollBlk
  pub tx_num : ℕ

pub record MissingDataKey : Type 0 where
  pub ns_coll_blk : NsCollBlk

pub record ExpiryKey : Type 0 where
  pub expiring_blk : ℕ
  pub committing_blk : ℕ

-- The first bytes of the keys, by their kinds.
abbrev pub pvt_data_key_prefix : Bytes
pvt_data_key_prefix = 2 ∷ []

abbrev pub expiry_key_prefix : Bytes
expiry_key_prefix = 3 ∷ []

abbrev pub elg_prioritized_missing_data_group : Bytes
elg_prioritized_missing_data_group = 4 ∷ []

abbrev pub inelg_missing_data_group : Bytes
inelg_missing_data_group = 5 ∷ []

abbrev pub coll_elg_key_prefix : Bytes
coll_elg_key_prefix = 6 ∷ []

abbrev pub elg_deprioritized_missing_data_group : Bytes
elg_deprioritized_missing_data_group = 8 ∷ []

abbrev pub nil_byte : ℕ
nil_byte = 0

-- `append(append(ns, nilByte), coll)`
abbrev pub ns_coll : Bytes → Bytes → Bytes
ns_coll ns coll = ns ++ nil_byte ∷ coll

-- `b[1:]`
abbrev pub behind_prefix : Bytes → Outcome String Bytes
behind_prefix [] = panic
behind_prefix (p ∷ bs) = ok bs

abbrev pub prepended : ℕ → Option (Bytes × Bytes) → Option (Bytes × Bytes)
prepended c none = none
prepended c (some (p, s)) = some (c ∷ p, s)

-- what is before and behind the first such byte
unfoldable pub cut : Bytes → ℕ → Option (Bytes × Bytes)
cut [] sep = none
cut (c ∷ s) sep = let rest = cut s sep in if c == sep then some ([], s) else prepended c rest

-- `bytes.SplitN`
abbrev pub split_n_at : (Bytes → List Bytes) → Bytes → Option (Bytes × Bytes) → List Bytes
split_n_at next s none = s ∷ []
split_n_at next s (some (p, rest)) = p ∷ next rest

abbrev pub split_n : ℕ → ℕ → Bytes → List Bytes
split_n sep zero s = []
split_n sep (suc zero) s = s ∷ []
split_n sep (suc (suc n)) s = split_n_at (split_n sep (suc n)) s (cut s sep)

module _ (codec : OrderPreserving) where
  unfoldable pub encode_data_key : DataKey → Bytes
  unfolding to_bytes
  encode_data_key k =
      pvt_data_key_prefix
      ++ to_bytes codec (record { block_num = k.ns_coll_blk.blk_num; tx_num = k.tx_num })
      ++ ns_coll k.ns_coll_blk.ns k.ns_coll_blk.coll

  -- the rest of `DecodeDatakey`; it panics where there is no nil byte
  abbrev pub data_key_at : Height → Option (Bytes × Bytes) → Outcome String DataKey
  data_key_at v none = panic
  data_key_at v (some (ns, coll)) = ok (record {
    ns_coll_blk = record { ns = ns; coll = coll; blk_num = v.block_num };
    tx_num = v.tx_num;
  })

  unfoldable pub decode_data_key : Bytes → Outcome String DataKey
  unfolding new_height_from_bytes cut
  decode_data_key bytes = do
    rest ← behind_prefix bytes
    height ← new_height_from_bytes codec rest
    remaining ← slice_from bytes (suc height.1)
    data_key_at height.0 (cut remaining nil_byte)

  unfoldable pub encode_expiry_key : ExpiryKey → Bytes
  unfolding to_bytes
  encode_expiry_key k =
      expiry_key_prefix
      ++ to_bytes codec (record { block_num = k.expiring_blk; tx_num = k.committing_blk })

  unfoldable pub decode_expiry_key : Bytes → Outcome String ExpiryKey
  unfolding new_height_from_bytes
  decode_expiry_key bytes = do
    rest ← behind_prefix bytes
    height ← new_height_from_bytes codec rest
    ok (record { expiring_blk = height.0.block_num; committing_blk = height.0.tx_num })

module _ (varint : Varint) where
  abbrev pub encode_elg_key : Bytes → MissingDataKey → Bytes
  encode_elg_key group k =
      group
      ++ encode_reverse_order varint k.ns_coll_blk.blk_num
      ++ ns_coll k.ns_coll_blk.ns k.ns_coll_blk.coll

  unfoldable pub encode_elg_prio_missing_data_key : MissingDataKey → Bytes
  encode_elg_prio_missing_data_key k = encode_elg_key elg_prioritized_missing_data_group k

  unfoldable pub encode_elg_deprio_missing_data_key : MissingDataKey → Bytes
  encode_elg_deprio_missing_data_key k = encode_elg_key elg_deprioritized_missing_data_group k

  abbrev pub elg_key_of : ℕ → List Bytes → Outcome String MissingDataKey
  elg_key_of blk_num [] = panic
  elg_key_of blk_num (ns ∷ []) = panic
  elg_key_of blk_num (ns ∷ coll ∷ rest) =
      ok (record { ns_coll_blk = record { ns = ns; coll = coll; blk_num = blk_num } })

  unfoldable pub decode_elg_missing_data_key : Bytes → Outcome String MissingDataKey
  unfolding decode_reverse_order
  decode_elg_missing_data_key bytes = do
    rest ← behind_prefix bytes
    number ← decode_reverse_order varint rest
    remaining ← slice_from bytes (suc number.1)
    elg_key_of number.0 (split remaining nil_byte)

  unfoldable pub encode_inelg_missing_data_key : MissingDataKey → Bytes
  encode_inelg_missing_data_key k =
      inelg_missing_data_group
      ++ (k.ns_coll_blk.ns
          ++ nil_byte
            ∷ (k.ns_coll_blk.coll ++ nil_byte ∷ encode_reverse_order varint k.ns_coll_blk.blk_num))

  abbrev pub inelg_key_of : List Bytes → Outcome String MissingDataKey
  inelg_key_of [] = panic
  inelg_key_of (ns ∷ []) = panic
  inelg_key_of (ns ∷ coll ∷ []) = panic
  inelg_key_of (ns ∷ coll ∷ blk ∷ rest) = do
    number ← decode_reverse_order varint blk
    ok (record { ns_coll_blk = record { ns = ns; coll = coll; blk_num = number.0 } })

  unfoldable pub decode_inelg_missing_data_key : Bytes → Outcome String MissingDataKey
  unfolding decode_reverse_order cut
  decode_inelg_missing_data_key bytes = do
    rest ← behind_prefix bytes
    inelg_key_of (split_n nil_byte 3 rest)

  unfoldable pub encode_coll_elg_key : ℕ → Bytes
  encode_coll_elg_key blk_num = coll_elg_key_prefix ++ encode_reverse_order varint blk_num

  unfoldable pub decode_coll_elg_key : Bytes → Outcome String ℕ
  unfolding decode_reverse_order
  decode_coll_elg_key bytes = do
    rest ← behind_prefix bytes
    number ← decode_reverse_order varint rest
    ok number.0

  -- `createRangeScanKeysForInelgMissingData`
  unfoldable pub create_range_scan_keys_for_inelg_missing_data : ℕ → Bytes → Bytes → Bytes × Bytes
  unfolding encode_inelg_missing_data_key
  create_range_scan_keys_for_inelg_missing_data max_blk_num ns coll = (
    encode_inelg_missing_data_key
        (record { ns_coll_blk = record { ns = ns; coll = coll; blk_num = max_blk_num } }),
    encode_inelg_missing_data_key
        (record { ns_coll_blk = record { ns = ns; coll = coll; blk_num = 0 } }),
  )

  -- `createRangeScanKeysForElgMissingData`
  unfoldable pub create_range_scan_keys_for_elg_missing_data : ℕ → Bytes → Bytes × Bytes
  create_range_scan_keys_for_elg_missing_data blk_num group =
      (group ++ encode_reverse_order varint blk_num, group ++ encode_reverse_order varint 0)

  -- `createRangeScanKeysForCollElg`
  unfoldable pub create_range_scan_keys_for_coll_elg : Bytes × Bytes
  unfolding encode_coll_elg_key
  create_range_scan_keys_for_coll_elg = (encode_coll_elg_key max_uint64, encode_coll_elg_key 0)
