-- ===== src/PvtData/BlockTests.antt =====
-- Tests of the entries by block and of the assembler of pkg/pvtdatastorage/common.
use fabric_peer_ext.Prelude.{ℕ, false, List, [], ◌∷◌, map, ◌≡◌, refl}
use fabric_peer_ext.Prelude.Outcome.{ok}
use fabric_peer_ext.Prelude.Bytes.{Bytes}
use fabric_peer_ext.PvtData.Keys.{DataKey, ExpiryKey}
use fabric_peer_ext.PvtData.Expiry.{CollPvtRwSet, ExpiryData, prepare_data_entries}
use fabric_peer_ext.PvtData.Assembler.{
  TxPvtdataAssembler, new_tx_pvtdata_assembler, add_each, get_tx_pvtdata, entry_of,
  prepare_data_entries-get_tx_pvtdata,
}
use fabric_peer_ext.PvtData.ByBlock.{
  data_and_expiry_entries_by_block, all_have_data, succeeds,
  succeeds-data_and_expiry_entries_by_block,
}

abbrev coll_of : ℕ → CollPvtRwSet
coll_of n = record { collection_name = n ∷ []; rwset = [] }

-- two collections of a namespace, one of another, and one of the first again
abbrev four_colls : List (Bytes × CollPvtRwSet)
four_colls =
    (1 ∷ [], coll_of 5) ∷ (1 ∷ [], coll_of 6) ∷ (2 ∷ [], coll_of 7) ∷ (1 ∷ [], coll_of 8) ∷ []

prepare_data_entries-get_tx_pvtdata_example :
    (a : TxPvtdataAssembler) × (add_each (new_tx_pvtdata_assembler 9 3) four_colls ≡ ok a)
    × (prepare_data_entries 9 (get_tx_pvtdata a ∷ []) ≡ map (entry_of 9 3) four_colls)
prepare_data_entries-get_tx_pvtdata_example = prepare_data_entries-get_tx_pvtdata 9 3 four_colls

abbrev data_of_block : ℕ → DataKey × CollPvtRwSet
data_of_block b = (
  record { ns_coll_blk = record { ns = 1 ∷ []; coll = 5 ∷ []; blk_num = b }; tx_num = 0 },
  coll_of 5,
)

abbrev expiry_of_block : ℕ → ExpiryKey × ExpiryData
expiry_of_block b = (record { expiring_blk = 100; committing_blk = b }, [])

succeeds-data_and_expiry_entries_by_block_example :
    succeeds (
      data_and_expiry_entries_by_block
        (data_of_block 4 ∷ [])
        (expiry_of_block 4 ∷ expiry_of_block 6 ∷ []))
    ≡ all_have_data (data_of_block 4 ∷ []) (expiry_of_block 4 ∷ expiry_of_block 6 ∷ [])
succeeds-data_and_expiry_entries_by_block_example =
    succeeds-data_and_expiry_entries_by_block (data_of_block 4 ∷ [])
      (expiry_of_block 4 ∷ expiry_of_block 6 ∷ [])

-- there is no data of block 6
not_all_test :
    all_have_data (data_of_block 4 ∷ []) (expiry_of_block 4 ∷ expiry_of_block 6 ∷ []) ≡ false
not_all_test = refl
