-- ===== src/BlockVisitor/Data.antt =====
-- pkg/common/blockvisitor/blockvisitor.go and context.go: what is published, the context of an
-- error, and the parts of a block that the visitor reads.
use fabric_peer_ext.Prelude.{ℕ, Bool, String, Option, none, some, List, [], ◌∷◌}

abbrev pub Bytes : Type 0
Bytes = List ℕ

-- The messages of the ledger, with the fields that are read.
pub record KvRead : Type 0 where
  pub key : String

pub record KvWrite : Type 0 where
  pub key : String
  pub is_delete : Bool
  pub value : Bytes

pub record KvReadHash : Type 0 where
  pub key_hash : Bytes

pub record KvWriteHash : Type 0 where
  pub key_hash : Bytes
  pub is_delete : Bool
  pub value_hash : Bytes

pub record CollHashedRwSet : Type 0 where
  pub collection_name : String
  pub hashed_reads : List KvReadHash
  pub hashed_writes : List KvWriteHash

pub record NsRwSet : Type 0 where
  pub name_space : String
  pub reads : List KvRead
  pub writes : List KvWrite
  pub coll_hashed_rw_sets : List CollHashedRwSet

pub record KvRwSet : Type 0 where
  pub reads : List KvRead
  pub writes : List KvWrite

pub record CollectionPvtRwSet : Type 0 where
  pub collection_name : String
  pub rwset : Bytes

pub record NsPvtRwSet : Type 0 where
  pub namespace : String
  pub collections : List CollectionPvtRwSet

pub data HeaderType : Type 0 where
  endorser_transaction config_update_header other_header : HeaderType

pub record ChannelHeader : Type 0 where
  pub header_type : HeaderType
  pub tx_id : String

pub record Payload : Type 0 where
  -- the `ChannelHeader` field of the `Header`; `none` stands for a nil header
  pub channel_header : Option Bytes
  pub payload_data : Bytes

pub record ChaincodeActionPayload : Type 0 where
  pub proposal_payload : Bytes
  -- that of the `Action`; `none` stands for a nil action
  pub proposal_response_payload : Option Bytes

pub record ChaincodeAction : Type 0 where
  -- as it is printed
  pub chaincode_id : String
  pub results : Bytes
  pub events : Bytes

-- `none` stands for a nil write set.
pub record TxPvtData : Type 0 where
  pub write_set : Option (List NsPvtRwSet)

-- The transactions filter is that of the block's metadata.
pub record Block : Type 0 where
  pub number : ℕ
  pub entries : List Bytes
  pub filter : List ℕ

pub data Decoded {ℓ} (A : Type ℓ) : Type ℓ where
  good : A → Decoded A
  -- the text of the error
  bad : String → Decoded A

module _ {ℓ κ} {A : Type ℓ} {B : Type κ} where
  abbrev pub decoded : Decoded A → (A → B) → (String → B) → B
  decoded (good a) next failed = next a
  decoded (bad e) next failed = failed e

-- The protocol buffers and the ledger's decoders, code outside the repository: a parameter. The
-- messages that are only passed on are types of it, and so is the code of a valid transaction.
pub record Protocol : Type 1 where
  pub Envelope : Type 0
  pub ChaincodeEvent : Type 0
  pub ChaincodeData : Type 0
  pub CollectionConfigPackage : Type 0
  pub ConfigUpdateMessage : Type 0
  pub valid : ℕ
  pub extract_envelope : Bytes → Decoded Envelope
  pub extract_payload : Envelope → Decoded Payload
  pub unmarshal_channel_header : Bytes → Decoded ChannelHeader
  -- the payloads of the actions of a transaction
  pub get_transaction : Bytes → Decoded (List Bytes)
  pub get_chaincode_action_payload : Bytes → Decoded ChaincodeActionPayload
  pub unmarshal_proposal_payload : Bytes → Decoded (Unit {0})
  -- the extension of a proposal response payload
  pub unmarshal_proposal_response : Bytes → Decoded Bytes
  pub unmarshal_chaincode_action : Bytes → Decoded ChaincodeAction
  pub unmarshal_rw_set : Bytes → Decoded (List NsRwSet)
  pub unmarshal_kv_rw_set : Bytes → Decoded KvRwSet
  pub unmarshal_event : Bytes → Decoded ChaincodeEvent
  pub unmarshal_chaincode_data : Bytes → Decoded ChaincodeData
  pub unmarshal_collection_config : Bytes → Decoded CollectionConfigPackage
  -- the `ConfigUpdate` field of a config update envelope
  pub unmarshal_config_envelope : Bytes → Decoded Bytes
  pub unmarshal_config_update : Bytes → Decoded ConfigUpdateMessage

pub data Category : Type 0 where
  unmarshal_err read_handler_err write_handler_err coll_hash_read_handler_err : Category
  coll_hash_write_handler_err lscc_write_handler_err cc_event_handler_err : Category
  config_update_handler_err block_handler_err : Category

-- Where in a block something was found.
pub record Place : Type 0 where
  pub block_num : ℕ
  pub tx_id : String
  pub tx_num : ℕ

pub record Read : Type 0 where
  pub place : Place
  pub namespace : String
  pub kv_read : KvRead

pub record Write : Type 0 where
  pub place : Place
  pub namespace : String
  pub kv_write : KvWrite

pub record CollHashRead : Type 0 where
  pub place : Place
  pub namespace : String
  pub collection : String
  pub kv_read : KvReadHash

pub record CollHashWrite : Type 0 where
  pub place : Place
  pub namespace : String
  pub collection : String
  pub kv_write : KvWriteHash

module _ (proto : Protocol) where
  open proto use {ChaincodeEvent, ChaincodeData, CollectionConfigPackage, ConfigUpdateMessage}

  -- `none` stands for a nil pointer.
  pub record LsccWrite : Type 0 where
    pub place : Place
    pub cc_id : String
    pub cc_data : Option ChaincodeData
    pub ccp : Option CollectionConfigPackage

  pub record CcEvent : Type 0 where
    pub place : Place
    pub event : ChaincodeEvent

  pub record ConfigUpdate : Type 0 where
    pub block_num : ℕ
    pub update : ConfigUpdateMessage

  -- What is published, one constructor for each handler.
  pub data Event : Type 0 where
    cc_event : CcEvent → Event
    read : Read → Event
    write : Write → Event
    coll_hash_read : CollHashRead → Event
    coll_hash_write : CollHashWrite → Event
    lscc_write : LsccWrite → Event
    config_update : ConfigUpdate → Event
    block : Block → Event

  -- `Context`; of the pointers to what was being handled at most one is set.
  pub record Context : Type 0 where
    pub category : Category
    pub channel_id : String
    pub block_num : ℕ
    pub tx_num : ℕ
    pub tx_id : String
    pub handled : Option Event

  -- `newContext`; an option changes the context.
  abbrev pub apply_options : List (Context → Context) → Context → Context
  apply_options [] ctx = ctx
  apply_options (opt ∷ opts) ctx = apply_options opts (opt ctx)

  unfoldable pub new_context : Category → String → ℕ → List (Context → Context) → Context
  new_context category channel_id block_num opts = apply_options opts (record {
    category = category;
    channel_id = channel_id;
    block_num = block_num;
    tx_num = 0;
    tx_id = "";
    handled = none;
  })

  abbrev pub with_tx_id : String → Context → Context
  with_tx_id id ctx = record ctx { tx_id = id }

  abbrev pub with_tx_num : ℕ → Context → Context
  with_tx_num num ctx = record ctx { tx_num = num }

  -- `withRead`, `withWrite` and so on
  abbrev pub with_event : Event → Context → Context
  with_event e ctx = record ctx { handled = some e }
