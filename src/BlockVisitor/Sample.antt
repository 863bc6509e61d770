-- ===== src/BlockVisitor/Sample.antt =====
-- A small protocol, a client that logs its events, and a block, for the tests of
-- pkg/common/blockvisitor/blockvisitor.go and of its clients.
use fabric_peer_ext.Prelude.{suc, false, String, Option, none, some, List, [], ◌∷◌, ◌++◌, zero}
use fabric_peer_ext.BlockVisitor.Data.{
  Bytes, NsRwSet, endorser_transaction, config_update_header, ChannelHeader, Block, Decoded, good,
  bad, Protocol,
}
use fabric_peer_ext.BlockVisitor.Action.{Options}

abbrev pub header_of_bytes : Bytes → Decoded ChannelHeader
header_of_bytes [] = bad "no header"
header_of_bytes (zero ∷ bs) = good (record { header_type = config_update_header; tx_id = "" })
header_of_bytes (suc n ∷ bs) = good (record { header_type = endorser_transaction; tx_id = "tx" })

abbrev pub envelope_of_bytes : Bytes → Decoded Bytes
envelope_of_bytes [] = bad "no envelope"
envelope_of_bytes (b ∷ bs) = good (b ∷ bs)

abbrev pub rw_sets : List NsRwSet
rw_sets =
    record {
      name_space = "cc1";
      reads = record { key = "k1" } ∷ [];
      writes = record { key = "k2"; is_delete = false; value = 7 ∷ [] } ∷ [];
      coll_hashed_rw_sets = [];
    }
    ∷ record {
      name_space = "lscc";
      reads = [];
      writes =
          record { key = "cc1"; is_delete = false; value = 8 ∷ [] }
          ∷ record { key = "cc1~collection"; is_delete = false; value = 9 ∷ [] }
          ∷ [];
      coll_hashed_rw_sets = [];
    }
    ∷ []

abbrev pub small_protocol : Protocol
small_protocol = record {
  Envelope = Bytes;
  ChaincodeEvent = Bytes;
  ChaincodeData = Bytes;
  CollectionConfigPackage = Bytes;
  ConfigUpdateMessage = Bytes;
  valid = 0;
  extract_envelope = envelope_of_bytes;
  extract_payload = λ e. good (record { channel_header = some e; payload_data = e });
  unmarshal_channel_header = header_of_bytes;
  get_transaction = λ bs. good (bs ∷ []);
  get_chaincode_action_payload =
      λ bs. good (record { proposal_payload = bs; proposal_response_payload = some bs });
  unmarshal_proposal_payload = λ bs. good tt;
  unmarshal_proposal_response = good;
  unmarshal_chaincode_action =
      λ bs. good (record { chaincode_id = "cc1"; results = bs; events = bs });
  unmarshal_rw_set = λ bs. good rw_sets;
  unmarshal_kv_rw_set = λ bs. bad "no set";
  unmarshal_event = good;
  unmarshal_chaincode_data = good;
  unmarshal_collection_config = good;
  unmarshal_config_envelope = good;
  unmarshal_config_update = λ bs. bad "no update";
}

abbrev pub Log : Type 0
Log = List String

abbrev pub logs : {A : Type 0} → String → A → Log → Log × Option String
logs text a log = (log ++ text ∷ [], none)

-- It logs what is handed to it; `on_error` is what its error handler returns.
abbrev pub logging : {proto : Protocol} → Option String → Options proto Log
logging on_error = record {
  handle_cc_event = logs "event";
  handle_read = logs "read";
  handle_write = λ w log. (log ++ "write" ∷ [], some "refused");
  handle_coll_hash_read = logs "hash read";
  handle_coll_hash_write = logs "hash write";
  handle_lscc_write = logs "lscc";
  handle_config_update = logs "update";
  handle_block = logs "block";
  handle_error = λ e ctx log. (log ++ "error" ∷ [], on_error);
}

-- an entry that is no envelope, a transaction, an invalid one and a config update
abbrev pub four_entries : Block
four_entries = record {
  number = 5;
  entries = [] ∷ (1 ∷ []) ∷ (2 ∷ []) ∷ (0 ∷ []) ∷ [];
  filter = 0 ∷ 0 ∷ 11 ∷ 0 ∷ [];
}
