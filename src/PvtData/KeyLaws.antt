-- ===== src/PvtData/KeyLaws.antt =====
-- The keys of pkg/pvtdatastorage/common/kv_encoding.go are read back, and found in the scans.
use fabric_peer_ext.Prelude.{
  ℕ, true, false, some, [], ◌∷◌, ◌++◌, append-nil, length, ◌≤◌, ◌<◌, ◌≡◌, refl, sym, subst,
}
use fabric_peer_ext.Prelude.Outcome.{ok}
use fabric_peer_ext.Prelude.Bytes.{Bytes, Lacks, split_front, split_last}
use fabric_peer_ext.PvtData.Varint.{Varint, max_uint64, encode_reverse_order, decode_reverse_order}
use fabric_peer_ext.PvtData.VarintLaws.{decode_reverse_order-encode_reverse_order}
use fabric_peer_ext.PvtData.VarintOrder.{is_before, encoded_in_range}
use fabric_peer_ext.PvtData.Version.{
  Height, OrderPreserving, to_bytes, new_height_from_bytes-to_bytes, slice_behind,
}
use fabric_peer_ext.PvtData.Keys.{
  DataKey, MissingDataKey, ExpiryKey, nil_byte, ns_coll, cut, encode_data_key, decode_data_key,
  encode_expiry_key, decode_expiry_key, encode_elg_key, encode_elg_prio_missing_data_key,
  encode_elg_deprio_missing_data_key, decode_elg_missing_data_key, encode_inelg_missing_data_key,
  decode_inelg_missing_data_key, encode_coll_elg_key, decode_coll_elg_key,
  create_range_scan_keys_for_elg_missing_data, elg_prioritized_missing_data_group,
}

cut_front : (p s : Bytes) → Lacks nil_byte p → cut (p ++ nil_byte ∷ s) nil_byte ≡ some (p, s)
unfolding cut
cut_front [] s h = refl
cut_front (c ∷ p) s h = rw (h.0, cut_front p s h.1) refl

module _ (codec : OrderPreserving) where
  -- A data key whose namespace does not hold a null byte is read back.
  pub decode_data_key-encode_data_key :
      (k : DataKey)
      → k.ns_coll_blk.blk_num ≤ max_uint64
      → k.tx_num ≤ max_uint64
      → Lacks nil_byte k.ns_coll_blk.ns
      → decode_data_key codec (encode_data_key codec k) ≡ ok k
  unfolding decode_data_key encode_data_key
  decode_data_key-encode_data_key k b t h =
      let v : Height = record { block_num = k.ns_coll_blk.blk_num; tx_num = k.tx_num } in
      let rest = ns_coll k.ns_coll_blk.ns k.ns_coll_blk.coll in
      rw
        (
          new_height_from_bytes-to_bytes codec v rest b t,
          slice_behind codec (2 ∷ to_bytes codec v) rest,
          cut_front k.ns_coll_blk.ns k.ns_coll_blk.coll h,
        )
        refl

  pub decode_expiry_key-encode_expiry_key :
      (k : ExpiryKey)
      → k.expiring_blk ≤ max_uint64
      → k.committing_blk ≤ max_uint64
      → decode_expiry_key codec (encode_expiry_key codec k) ≡ ok k
  unfolding decode_expiry_key encode_expiry_key
  decode_expiry_key-encode_expiry_key k e c =
      let v : Height = record { block_num = k.expiring_blk; tx_num = k.committing_blk } in
      rw (sym (append-nil (to_bytes codec v)), new_height_from_bytes-to_bytes codec v [] e c) refl

module _ (codec : OrderPreserving) (varint : Varint) where
  decode_elg_key :
      (group : ℕ) (k : MissingDataKey)
      → k.ns_coll_blk.blk_num ≤ max_uint64
      → Lacks nil_byte k.ns_coll_blk.ns
      → Lacks nil_byte k.ns_coll_blk.coll
      → decode_elg_missing_data_key varint (encode_elg_key varint (group ∷ []) k) ≡ ok k
  unfolding decode_elg_missing_data_key
  decode_elg_key group k b hn hc =
      let n = k.ns_coll_blk.blk_num in
      let rest = ns_coll k.ns_coll_blk.ns k.ns_coll_blk.coll in
      rw
        (
          decode_reverse_order-encode_reverse_order varint n rest b,
          slice_behind codec (group ∷ encode_reverse_order varint n) rest,
          split_front k.ns_coll_blk.ns k.ns_coll_blk.coll nil_byte hn,
          split_last k.ns_coll_blk.coll nil_byte hc,
        )
        refl

  -- The key of missing data that the peer is eligible for is read back, whether it is prioritized or
  -- not, if neither the namespace nor the collection holds a null byte.
  pub decode_elg_missing_data_key_lem :
      (k : MissingDataKey)
      → k.ns_coll_blk.blk_num ≤ max_uint64
      → Lacks nil_byte k.ns_coll_blk.ns
      → Lacks nil_byte k.ns_coll_blk.coll
      → (decode_elg_missing_data_key varint (encode_elg_prio_missing_data_key varint k) ≡ ok k)
        × (decode_elg_missing_data_key varint (encode_elg_deprio_missing_data_key varint k) ≡ ok k)
  unfolding encode_elg_prio_missing_data_key encode_elg_deprio_missing_data_key
  decode_elg_missing_data_key_lem k b hn hc =
      (decode_elg_key 4 k b hn hc, decode_elg_key 8 k b hn hc)

module _ (varint : Varint) where
  -- The key of missing data that the peer is not eligible for is read back, although the number of
  -- the block may have null bytes, if neither the namespace nor the collection holds one.
  pub decode_inelg_missing_data_key-encode_inelg_missing_data_key :
      (k : MissingDataKey)
      → k.ns_coll_blk.blk_num ≤ max_uint64
      → Lacks nil_byte k.ns_coll_blk.ns
      → Lacks nil_byte k.ns_coll_blk.coll
      → decode_inelg_missing_data_key varint (encode_inelg_missing_data_key varint k) ≡ ok k
  unfolding decode_inelg_missing_data_key encode_inelg_missing_data_key
  decode_inelg_missing_data_key-encode_inelg_missing_data_key k b hn hc =
      let n = k.ns_coll_blk.blk_num in
      let bytes = encode_reverse_order varint n in
      let back = decode_reverse_order-encode_reverse_order varint n [] b in
      let read =
        subst (λ t. decode_reverse_order varint t ≡ ok (n, length bytes)) (append-nil bytes) back in
      rw
        (
          cut_front k.ns_coll_blk.ns (k.ns_coll_blk.coll ++ nil_byte ∷ bytes) hn,
          cut_front k.ns_coll_blk.coll bytes hc,
          read,
        )
        refl

  pub decode_coll_elg_key-encode_coll_elg_key :
      (n : ℕ) → n ≤ max_uint64 → decode_coll_elg_key varint (encode_coll_elg_key varint n) ≡ ok n
  unfolding decode_coll_elg_key encode_coll_elg_key
  decode_coll_elg_key-encode_coll_elg_key n b =
      let bytes = encode_reverse_order varint n in
      let back = decode_reverse_order-encode_reverse_order varint n [] b in
      let read =
        subst (λ t. decode_reverse_order varint t ≡ ok (n, length bytes)) (append-nil bytes) back in
      rw read refl

  -- The scan for prioritized missing data up to a block meets the keys of all blocks up to it but
  -- block 0: none of them is before its start, and each is before its end.
  pub elg_prio_key_in_scan :
      (n : ℕ) (k : MissingDataKey)
      → n ≤ max_uint64
      → k.ns_coll_blk.blk_num ≤ n
      → 0 < k.ns_coll_blk.blk_num
      → (let (start, end) =
            create_range_scan_keys_for_elg_missing_data varint n
              elg_prioritized_missing_data_group in
          (is_before (encode_elg_prio_missing_data_key varint k) start ≡ false)
          × (is_before (encode_elg_prio_missing_data_key varint k) end ≡ true))
  unfolding encode_elg_prio_missing_data_key create_range_scan_keys_for_elg_missing_data is_before
  elg_prio_key_in_scan n k h l p =
      encoded_in_range varint n k.ns_coll_blk.blk_num (ns_coll k.ns_coll_blk.ns k.ns_coll_blk.coll)
        h l p
