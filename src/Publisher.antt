-- ===== src/Publisher.antt =====
-- `Publisher` of pkg/gossip/blockpublisher/blockpublisher.go: the handlers that are registered with
-- it, and what its listener does with an event.
pub mod Delivery
pub mod Listener
mod Tests
use fabric_peer_ext.Prelude.{
  ℕ, Bool, true, false, not, String, Option, none, some, List, [], ◌∷◌, ◌++◌, if◌then◌else◌, str_eq,
}
use fabric_peer_ext.BlockVisitor.Data.{
  Bytes, KvRead, KvWrite, KvReadHash, KvWriteHash, Place, Read, Write, CollHashRead, CollHashWrite,
  Decoded, good, bad, TxPvtData, Block, Protocol, LsccWrite, CcEvent, ConfigUpdate, Event, cc_event,
  read, write, coll_hash_read, coll_hash_write, lscc_write, config_update, block,
}
use fabric_peer_ext.BlockVisitor.Action.{Failure, halt, warn, panic, Options, Callback}
use fabric_peer_ext.BlockVisitor.Height.{Visitor, visit}
use fabric_peer_ext.BlockVisitor.Publish.{is_lscc}
use fabric_peer_ext.BlockVisitor.Client.{
  new_visitor, with_cc_event_handler, with_read_handler, with_write_handler,
  with_coll_hash_read_handler, with_coll_hash_write_handler, with_lscc_write_handler,
  with_config_update_handler, with_block_handler,
}

-- `api.TxMetadata`
pub record TxMetadata : Type 0 where
  pub block_num : ℕ
  pub channel_id : String
  pub tx_id : String
  pub tx_num : ℕ

abbrev pub metadata : String → Place → TxMetadata
metadata channel_id p = record {
  block_num = p.block_num;
  channel_id = channel_id;
  tx_id = p.tx_id;
  tx_num = p.tx_num;
}

-- `H` is the state that the handlers change; a handler may return an error.
module _ (H : Type 0) where
  abbrev pub Effect : Type 0
  Effect = H → H × Option String

  -- the loop over the handlers; an error is only logged
  unfoldable pub call_each {ℓ} : {A : Type ℓ} → (A → Effect) → List A → H → H
  call_each apply [] h = h
  call_each apply (handler ∷ handlers) h = call_each apply handlers (apply handler h).0

module _ (proto : Protocol) (H : Type 0) where
  open proto use {ChaincodeEvent, ChaincodeData, CollectionConfigPackage, ConfigUpdateMessage}

  abbrev pub WriteHandler : Type 0
  WriteHandler = TxMetadata → String → KvWrite → Effect H

  abbrev pub ReadHandler : Type 0
  ReadHandler = TxMetadata → String → KvRead → Effect H

  abbrev pub CollHashWriteHandler : Type 0
  CollHashWriteHandler = TxMetadata → String → String → KvWriteHash → Effect H

  abbrev pub CollHashReadHandler : Type 0
  CollHashReadHandler = TxMetadata → String → String → KvReadHash → Effect H

  abbrev pub LsccWriteHandler : Type 0
  LsccWriteHandler =
      TxMetadata → String → Option ChaincodeData → Option CollectionConfigPackage → Effect H

  abbrev pub ChaincodeEventHandler : Type 0
  ChaincodeEventHandler = TxMetadata → ChaincodeEvent → Effect H

  abbrev pub ConfigUpdateHandler : Type 0
  ConfigUpdateHandler = ℕ → ConfigUpdateMessage → Effect H

  abbrev pub BlockHandler : Type 0
  BlockHandler = Block → Effect H

  -- The channel of the visitor, and the handlers in the order in which they were added.
  pub record Publisher : Type 0 where
    pub channel_id : String
    pub write_handlers : List WriteHandler
    pub read_handlers : List ReadHandler
    pub coll_hash_write_handlers : List CollHashWriteHandler
    pub coll_hash_read_handlers : List CollHashReadHandler
    pub lscc_write_handlers : List LsccWriteHandler
    pub cc_event_handlers : List ChaincodeEventHandler
    pub config_update_handlers : List ConfigUpdateHandler
    pub block_handlers : List BlockHandler

  unfoldable pub new_publisher : String → Publisher
  new_publisher channel_id = record {
    channel_id = channel_id;
    write_handlers = [];
    read_handlers = [];
    coll_hash_write_handlers = [];
    coll_hash_read_handlers = [];
    lscc_write_handlers = [];
    cc_event_handlers = [];
    config_update_handlers = [];
    block_handlers = [];
  }

  unfoldable pub add_config_update_handler : Publisher → ConfigUpdateHandler → Publisher
  add_config_update_handler p h = record p {
    config_update_handlers = p.config_update_handlers ++ h ∷ [];
  }

  unfoldable pub add_write_handler : Publisher → WriteHandler → Publisher
  add_write_handler p h = record p { write_handlers = p.write_handlers ++ h ∷ [] }

  unfoldable pub add_read_handler : Publisher → ReadHandler → Publisher
  add_read_handler p h = record p { read_handlers = p.read_handlers ++ h ∷ [] }

  unfoldable pub add_coll_hash_write_handler : Publisher → CollHashWriteHandler → Publisher
  add_coll_hash_write_handler p h = record p {
    coll_hash_write_handlers = p.coll_hash_write_handlers ++ h ∷ [];
  }

  unfoldable pub add_coll_hash_read_handler : Publisher → CollHashReadHandler → Publisher
  add_coll_hash_read_handler p h = record p {
    coll_hash_read_handlers = p.coll_hash_read_handlers ++ h ∷ [];
  }

  unfoldable pub add_cc_event_handler : Publisher → ChaincodeEventHandler → Publisher
  add_cc_event_handler p h = record p { cc_event_handlers = p.cc_event_handlers ++ h ∷ [] }

  unfoldable pub add_lscc_write_handler : Publisher → LsccWriteHandler → Publisher
  add_lscc_write_handler p h = record p { lscc_write_handlers = p.lscc_write_handlers ++ h ∷ [] }

  unfoldable pub add_block_handler : Publisher → BlockHandler → Publisher
  add_block_handler p h = record p { block_handlers = p.block_handlers ++ h ∷ [] }

  unfoldable pub handle_read : Publisher → Read → H → H
  handle_read p r =
      call_each H (λ handler. handler (metadata p.channel_id r.place) r.namespace r.kv_read)
        p.read_handlers

  unfoldable pub handle_write : Publisher → Write → H → H
  handle_write p w =
      call_each H (λ handler. handler (metadata p.channel_id w.place) w.namespace w.kv_write)
        p.write_handlers

  unfoldable pub handle_coll_hash_read : Publisher → CollHashRead → H → H
  handle_coll_hash_read p r =
      call_each H
        (λ handler. handler (metadata p.channel_id r.place) r.namespace r.collection r.kv_read)
        p.coll_hash_read_handlers

  unfoldable pub handle_coll_hash_write : Publisher → CollHashWrite → H → H
  handle_coll_hash_write p w =
      call_each H
        (λ handler. handler (metadata p.channel_id w.place) w.namespace w.collection w.kv_write)
        p.coll_hash_write_handlers

  unfoldable pub handle_lscc_write : Publisher → LsccWrite proto → H → H
  handle_lscc_write p w =
      call_each H (λ handler. handler (metadata p.channel_id w.place) w.cc_id w.cc_data w.ccp)
        p.lscc_write_handlers

  unfoldable pub handle_cc_event : Publisher → CcEvent proto → H → H
  handle_cc_event p e =
      call_each H (λ handler. handler (metadata p.channel_id e.place) e.event) p.cc_event_handlers

  unfoldable pub handle_config_update : Publisher → ConfigUpdate proto → H → H
  handle_config_update p cu =
      call_each H (λ handler. handler cu.block_num cu.update) p.config_update_handlers

  unfoldable pub handle_block : Publisher → Block → H → H
  handle_block p b = call_each H (λ handler. handler b) p.block_handlers

  -- one round of `listen` that receives an event
  unfoldable pub receive : Publisher → Event proto → H → H
  receive p (cc_event e) = handle_cc_event p e
  receive p (read e) = handle_read p e
  receive p (write e) = handle_write p e
  receive p (coll_hash_read e) = handle_coll_hash_read p e
  receive p (coll_hash_write e) = handle_coll_hash_write p e
  receive p (lscc_write e) = handle_lscc_write p e
  receive p (config_update e) = handle_config_update p e
  receive p (block e) = handle_block p e

  -- `channels.send…`: an unbuffered channel, whose listener handles an event before it receives the
  -- next
  abbrev pub send {ℓ} : {A : Type ℓ} → Publisher → (A → Event proto) → A → H → H × Option String
  send p event a h = (receive p (event a) h, none)

  -- `New`: the visitor with the handlers that send
  unfoldable pub visitor_of : Publisher → Visitor × Options proto H
  unfolding new_visitor
  visitor_of p = new_visitor proto H p.channel_id (
      with_cc_event_handler proto H (send p cc_event)
      ∷ with_read_handler proto H (send p read)
      ∷ with_write_handler proto H (send p write)
      ∷ with_coll_hash_read_handler proto H (send p coll_hash_read)
      ∷ with_coll_hash_write_handler proto H (send p coll_hash_write)
      ∷ with_lscc_write_handler proto H (send p lscc_write)
      ∷ with_config_update_handler proto H (send p config_update)
      ∷ with_block_handler proto H (send p block)
      ∷ [])

  -- An error of `Visit` makes `Publish` panic, and so does a panic of it.
  abbrev pub panics : Option Failure → Bool
  panics none = false
  panics (some f) = true

  -- `Publish`: the state of the handlers, whether it panics, and the visitor
  unfoldable pub publish_block :
      Publisher → Visitor → Block → (ℕ → Option TxPvtData) → H → (H × Bool) × Visitor
  unfolding visit visitor_of
  publish_block p v b pvt_data h =
      let ((h', failed), v') = visit proto H (visitor_of p).1 v b pvt_data h in
      ((h', panics failed), v')

-- Chaincode events and the event of the life cycle in their payload, code outside the repository.
pub record Lifecycle (Event : Type 0) : Type 0 where
  pub chaincode_id : Event → String
  pub event_name : Event → String
  pub payload : Event → Bytes
  -- the name of the chaincode
  pub unmarshal_lifecycle : Bytes → Decoded String

abbrev pub upgrade_event : String
upgrade_event = "upgrade"

module _ (proto : Protocol) (H : Type 0) (life : Lifecycle proto.ChaincodeEvent) where
  abbrev pub upgraded : (TxMetadata → String → Effect H) → TxMetadata → Decoded String → Effect H
  upgraded handle_upgrade md (good name) h = handle_upgrade md name h
  upgraded handle_upgrade md (bad e) h = (h, some e)

  -- `newChaincodeUpgradeHandler`
  unfoldable pub new_chaincode_upgrade_handler :
      (TxMetadata → String → Effect H) → ChaincodeEventHandler proto H
  new_chaincode_upgrade_handler handle_upgrade md event h =
      let decoded_event =
        upgraded handle_upgrade md (life.unmarshal_lifecycle (life.payload event)) h in
      if not (is_lscc (life.chaincode_id event))
      then (h, none)
      else if not (str_eq (life.event_name event) upgrade_event)
      then (h, none)
      else decoded_event

  unfoldable pub add_cc_upgrade_handler :
      Publisher proto H → (TxMetadata → String → Effect H) → Publisher proto H
  unfolding add_cc_event_handler new_chaincode_upgrade_handler
  add_cc_upgrade_handler p handle_upgrade =
      add_cc_event_handler proto H p (new_chaincode_upgrade_handler handle_upgrade)
