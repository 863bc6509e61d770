-- ===== src/PvtData/Tests.antt =====
-- Tests of the keys of the private data store, with an encoding of numbers in eight bytes.
use fabric_peer_ext.Prelude.{
  ℕ, true, false, String, [], ◌∷◌, ◌++◌, length, take, ◌≤◌, ◌≡◌, refl, subst, arith,
}
use fabric_peer_ext.Prelude.Outcome.{Outcome, ok}
use fabric_peer_ext.Prelude.Bytes.{Bytes}
use fabric_peer_ext.PvtData.Varint.{
  Varint, max_uint64, put_big_endian, big_endian_from, encode_reverse_order, decode_reverse_order,
}
use fabric_peer_ext.PvtData.VarintLaws.{
  big_endian_from-put_big_endian, length-put_big_endian, take-append,
  decode_reverse_order-encode_reverse_order,
}
use fabric_peer_ext.PvtData.VarintOrder.{is_before, encode_reverse_order-is_before}
use fabric_peer_ext.PvtData.Version.{
  OrderPreserving, compare_heights, in_order, compare_heights-in_order,
}
use fabric_peer_ext.PvtData.Keys.{
  NsCollBlk, DataKey, MissingDataKey, encode_elg_prio_missing_data_key,
  create_range_scan_keys_for_elg_missing_data, elg_prioritized_missing_data_group,
}
use fabric_peer_ext.PvtData.Expiry.{
  TxPvtData, ExpiryEntry, BtlPolicy, prepare_data_entries, prepare_expiry_entries, derive_keys,
  each_present, each_missing, prepare_expiry_entries_for_present_data,
  prepare_expiry_entries_for_missing_data, add_present_data, add_missing_data,
  get_or_create_collections, get_or_create_expiry_data,
}
use fabric_peer_ext.PvtData.Derived.{IsDerivedRight, prepare_expiry_entries-IsDerivedRight}
use fabric_peer_ext.PvtData.Complete.{prepare_expiry_entries_complete}
use fabric_peer_ext.Prelude.Assoc.{lookup, put}
use fabric_peer_ext.Prelude.{All, map, ◌+◌, List}
use mathlib.Core.List.{Memᴰ}
use fabric_peer_ext.PvtData.KeyLaws.{elg_prio_key_in_scan}

abbrev head_or_zero : Bytes → ℕ
head_or_zero [] = 0
head_or_zero (b ∷ bs) = b

abbrev one_byte : Varint
one_byte = record {
  first_byte = λ n. n;
  decode_varint = head_or_zero;
  first_small = λ n h. refl;
  decode_small = λ n rest h. refl;
}

abbrev read_eight : Bytes → Outcome String (ℕ × ℕ)
read_eight bs = ok (big_endian_from 0 (take 8 bs), 8)

read_eight_lem :
    (n : ℕ) (rest : Bytes)
    → n ≤ max_uint64
    → read_eight (put_big_endian 8 n ++ rest) ≡ ok (n, length (put_big_endian 8 n))
read_eight_lem n rest h =
    let eight = length-put_big_endian 8 n in
    let taken : take 8 (put_big_endian 8 n ++ rest) ≡ put_big_endian 8 n =
      subst (λ l. take l (put_big_endian 8 n ++ rest) ≡ put_big_endian 8 n) eight
        (take-append (put_big_endian 8 n) rest) in
    rw (taken, big_endian_from-put_big_endian 8 n (omega (arith, h)), eight) refl

abbrev eight_bytes : OrderPreserving
eight_bytes = record {
  encode = put_big_endian 8;
  decode = read_eight;
  decode-encode = read_eight_lem;
}

abbrev place : NsCollBlk
place = record { ns = 110 ∷ []; coll = 99 ∷ 100 ∷ []; blk_num = 70000 }

abbrev data_key : DataKey
data_key = record { ns_coll_blk = place; tx_num = 3 }

abbrev missing_key : MissingDataKey
missing_key = record { ns_coll_blk = place }

decode_reverse_order-encode_reverse_order_example :
    decode_reverse_order one_byte (encode_reverse_order one_byte 70000 ++ 5 ∷ [])
    ≡ ok (70000, length (encode_reverse_order one_byte 70000))
decode_reverse_order-encode_reverse_order_example =
    decode_reverse_order-encode_reverse_order one_byte 70000 (5 ∷ []) (omega arith)

-- five leading bytes are trimmed
encode_test : encode_reverse_order one_byte 70000 ≡ 5 ∷ 254 ∷ 238 ∷ 143 ∷ []
unfolding encode_reverse_order put_big_endian
encode_test = refl

encode_reverse_order-is_before_example :
    is_before
      (encode_reverse_order one_byte 70000 ++ 1 ∷ [])
      (encode_reverse_order one_byte 255 ++ [])
    ≡ true
encode_reverse_order-is_before_example =
    encode_reverse_order-is_before one_byte 255 70000 (1 ∷ []) [] (omega arith) (omega arith)

compare_heights-in_order_example :
    compare_heights (record { block_num = 7; tx_num = 2 }) (record { block_num = 7; tx_num = 5 })
    ≡ in_order (record { block_num = 7; tx_num = 2 }) (record { block_num = 7; tx_num = 5 })
compare_heights-in_order_example =
    compare_heights-in_order (record { block_num = 7; tx_num = 2 })
      (record { block_num = 7; tx_num = 5 }) (omega arith) (omega arith) (omega arith) (omega arith)

elg_prio_key_in_scan_example :
    (let (start, end) =
        create_range_scan_keys_for_elg_missing_data one_byte 80000
          elg_prioritized_missing_data_group in
      (is_before (encode_elg_prio_missing_data_key one_byte missing_key) start ≡ false)
      × (is_before (encode_elg_prio_missing_data_key one_byte missing_key) end ≡ true))
elg_prio_key_in_scan_example =
    elg_prio_key_in_scan one_byte 80000 missing_key (omega arith) (omega arith) (omega arith)

-- Data of any collection expires ten blocks later.
abbrev ten_blocks : BtlPolicy
ten_blocks ns coll blk = ok (blk + 10)

abbrev some_pvt_data : List TxPvtData
some_pvt_data =
    record {
      seq_in_block = 2;
      ns_pvt_rwset =
          record {
            namespace = 110 ∷ [];
            colls = record { collection_name = 99 ∷ []; rwset = 1 ∷ [] } ∷ [];
          }
          ∷ [];
    }
    ∷ []

abbrev some_missing : List MissingDataKey
some_missing = record { ns_coll_blk = record { ns = 110 ∷ []; coll = 100 ∷ []; blk_num = 7 } } ∷ []

abbrev some_entries : List ExpiryEntry
some_entries =
    record {
      key = record { expiring_blk = 17; committing_blk = 7 };
      value =
          (110 ∷ [], record { tx_nums = (99 ∷ [], 2 ∷ []) ∷ []; missing = (100 ∷ [], true) ∷ [] })
          ∷ [];
    }
    ∷ []

abbrev stored_key : DataKey
stored_key = record {
  ns_coll_blk = record { ns = 110 ∷ []; coll = 99 ∷ []; blk_num = 7 };
  tx_num = 2;
}

some_entries_prepared :
    prepare_expiry_entries ten_blocks 7 (prepare_data_entries 7 some_pvt_data) some_missing []
    ≡ ok some_entries
unfolding prepare_expiry_entries prepare_data_entries each_present each_missing
    prepare_expiry_entries_for_present_data prepare_expiry_entries_for_missing_data add_present_data
    add_missing_data get_or_create_collections get_or_create_expiry_data lookup put
some_entries_prepared = refl

stored_key_there : Memᴰ stored_key (map (λ d. d.key) (prepare_data_entries 7 some_pvt_data))
unfolding prepare_data_entries
stored_key_there = Memᴰ.head refl

prepare_expiry_entries-IsDerivedRight_example :
    All
      (IsDerivedRight ten_blocks 7 (map (λ d. d.key) (prepare_data_entries 7 some_pvt_data)))
      some_entries
prepare_expiry_entries-IsDerivedRight_example =
    prepare_expiry_entries-IsDerivedRight ten_blocks 7 some_pvt_data some_missing [] some_entries
      some_entries_prepared

prepare_expiry_entries_complete_example :
    (entry : ExpiryEntry) × Memᴰ entry some_entries
    × (entry.key ≡ record { expiring_blk = 17; committing_blk = 7 })
    × Memᴰ stored_key (derive_keys entry).0
prepare_expiry_entries_complete_example =
    prepare_expiry_entries_complete ten_blocks 7 some_pvt_data some_missing [] some_entries
      stored_key 17 some_entries_prepared stored_key_there refl refl
