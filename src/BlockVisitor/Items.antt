-- ===== src/BlockVisitor/Items.antt =====
-- What a traversal of pkg/common/blockvisitor/blockvisitor.go meets in a block, in order, whatever
-- the client does: the reference that the traversal is compared with.
use fabric_peer_ext.Prelude.{
  ℕ, suc, String, Option, none, some, List, [], ◌∷◌, ◌++◌, map, if◌then◌else◌, ◌==◌, get_elem?,
}
use mathlib.Core.List.{flat_map}
use fabric_peer_ext.BlockVisitor.Data.{
  Bytes, KvRead, KvWrite, CollHashedRwSet, NsRwSet, CollectionPvtRwSet, NsPvtRwSet, HeaderType,
  endorser_transaction, config_update_header, other_header, ChannelHeader, Payload, TxPvtData,
  Block, decoded, Protocol, Category, read_handler_err, write_handler_err,
  coll_hash_read_handler_err, coll_hash_write_handler_err, lscc_write_handler_err,
  cc_event_handler_err, config_update_handler_err, block_handler_err, Place, Event, cc_event, read,
  write, coll_hash_read, coll_hash_write, lscc_write, config_update, block, Context, new_context,
  with_tx_num, with_event,
}
use fabric_peer_ext.BlockVisitor.Action.{
  Failure, halt, warn, panic, Options, Action, fail, report, publish,
}
use fabric_peer_ext.BlockVisitor.Publish.{
  is_lscc, coll_namespace, CcInfo, get_cc_info, extract_payload_and_header, extracted,
  block_context, event_context, undecodable_context,
}

-- What is handed to the client or found broken.
pub data Item (proto : Protocol) : Type 0 where
  -- an event, and the context of its handler's error
  call : Event proto → Context proto → Item proto
  -- bytes that do not decode: the text of the error, and its context
  undecodable : String → Context proto → Item proto
  -- the flag of a transaction is missing from the metadata, a payload has no header, or a payload
  -- of a chaincode's action has no action
  crash : Item proto

module _ (proto : Protocol) (channel_id : String) where
  abbrev pub Items : Type 0
  Items = List (Item proto)

  abbrev pub event_at : Place → Category → Event proto → Item proto
  event_at place category e = call e (event_context proto channel_id place category e)

  abbrev pub broken_at : Place → String → Items
  broken_at place e = undecodable e (undecodable_context proto channel_id place) ∷ []

  abbrev pub read_items : Place → String → List KvRead → Items
  read_items place ns reads =
      map
        (λ r.
          event_at place read_handler_err
            (read (record { place = place; namespace = ns; kv_read = r })))
        reads

  abbrev pub write_items : Place → String → List KvWrite → Items
  write_items place ns writes =
      map
        (λ w.
          event_at place write_handler_err
            (write (record { place = place; namespace = ns; kv_write = w })))
        writes

  abbrev pub hash_items : Place → String → CollHashedRwSet → Items
  hash_items place ns c =
      map
        (λ r. event_at place coll_hash_read_handler_err (
          coll_hash_read (record {
            place = place;
            namespace = ns;
            collection = c.collection_name;
            kv_read = r;
          })))
        c.hashed_reads
      ++ map
          (λ w. event_at place coll_hash_write_handler_err (
            coll_hash_write (record {
              place = place;
              namespace = ns;
              collection = c.collection_name;
              kv_write = w;
            })))
          c.hashed_writes

  abbrev pub cc_info_items : Place → CcInfo proto → Items
  cc_info_items place (cc_id, cc_data, ccp) =
      event_at place lscc_write_handler_err
        (lscc_write (record { place = place; cc_id = cc_id; cc_data = cc_data; ccp = ccp }))
      ∷ []

  -- the writes of a chaincode's definition are one event
  abbrev pub lscc_items : Place → List KvWrite → Items
  lscc_items place [] = []
  lscc_items place (w ∷ ws) =
      decoded (get_cc_info proto (w ∷ ws)) (cc_info_items place) (broken_at place)

  abbrev pub namespace_items : Place → NsRwSet → Items
  namespace_items place ns =
      read_items place ns.name_space ns.reads
      ++ (if is_lscc ns.name_space
          then lscc_items place ns.writes
          else write_items place ns.name_space ns.writes
            ++ flat_map (hash_items place ns.name_space) ns.coll_hashed_rw_sets)

  abbrev pub result_items : Place → Bytes → Items
  result_items place [] = []
  result_items place (b ∷ bs) =
      decoded (proto.unmarshal_rw_set (b ∷ bs)) (flat_map (namespace_items place)) (broken_at place)

  abbrev pub cc_event_items : Place → Bytes → Items
  cc_event_items place [] = []
  cc_event_items place (b ∷ bs) =
      decoded (proto.unmarshal_event (b ∷ bs))
        (λ e.
          event_at place cc_event_handler_err (cc_event (record { place = place; event = e })) ∷ [])
        (broken_at place)

  -- the layers of an endorsed action; `none` stands for a nil action
  abbrev pub endorsed_items : Place → Option Bytes → Items
  endorsed_items place none = crash ∷ []
  endorsed_items place (some response) =
      decoded (proto.unmarshal_proposal_response response)
        (λ extension.
          decoded (proto.unmarshal_chaincode_action extension)
            (λ a. result_items place a.results ++ cc_event_items place a.events) (broken_at place))
        (broken_at place)

  -- the layers around it
  abbrev pub action_items : Place → Bytes → Items
  action_items place action =
      decoded (proto.get_chaincode_action_payload action)
        (λ payload.
          decoded (proto.unmarshal_proposal_payload payload.proposal_payload)
            (λ cpp. endorsed_items place payload.proposal_response_payload) (broken_at place))
        (broken_at place)

  abbrev pub collection_items : Place → String → CollectionPvtRwSet → Items
  collection_items place namespace coll =
      decoded (proto.unmarshal_kv_rw_set coll.rwset)
        (λ set.
          read_items place (coll_namespace namespace coll.collection_name) set.reads
          ++ write_items place (coll_namespace namespace coll.collection_name) set.writes)
        (broken_at place)

  abbrev pub set_items : Place → Option (List NsPvtRwSet) → Items
  set_items place none = []
  set_items place (some sets) =
      flat_map (λ ns. flat_map (collection_items place ns.namespace) ns.collections) sets

  abbrev pub private_items : Place → Option TxPvtData → Items
  private_items place none = []
  private_items place (some pvt) = set_items place pvt.write_set

  abbrev pub valid_items : Place → Payload → Option TxPvtData → Items
  valid_items place payload pvt =
      decoded (proto.get_transaction payload.payload_data)
        (λ actions. flat_map (action_items place) actions ++ private_items place pvt)
        (broken_at place)

  abbrev pub flagged : Option ℕ → Items → Items
  flagged none valid_case = crash ∷ []
  flagged (some code) valid_case = if code == proto.valid then valid_case else []

  -- An update whose envelope does not decode is not even reported.
  abbrev pub update_items : ℕ → Payload → Items
  update_items block_num payload =
      decoded (proto.unmarshal_config_envelope payload.payload_data)
        (λ update.
          decoded (proto.unmarshal_config_update update)
            (λ cu.
              let e = config_update (record { block_num = block_num; update = cu }) in
              call e (
                new_context proto config_update_handler_err channel_id block_num
                  (with_event proto e ∷ []))
              ∷ [])
            (λ e. undecodable e (block_context proto channel_id block_num []) ∷ []))
        (λ e. [])

  abbrev pub typed_items :
      HeaderType → Block → ℕ → Payload × ChannelHeader → Option TxPvtData → Items
  typed_items endorser_transaction b tx_num (payload, chdr) pvt =
      flagged (get_elem? b.filter tx_num) (
        valid_items (record { block_num = b.number; tx_id = chdr.tx_id; tx_num = tx_num }) payload
          pvt)
  typed_items config_update_header b tx_num (payload, chdr) pvt = update_items b.number payload
  typed_items other_header b tx_num (payload, chdr) pvt = []

  abbrev pub entry_items : Block → (ℕ → Option TxPvtData) → ℕ → Bytes → Items
  entry_items b pvt_data tx_num bytes =
      decoded (proto.extract_envelope bytes)
        (λ envelope.
          extracted (extract_payload_and_header proto envelope)
            (λ p. typed_items p.1.header_type b tx_num p (pvt_data tx_num))
            (λ e.
              undecodable e
                (block_context proto channel_id b.number (with_tx_num proto tx_num ∷ []))
              ∷ [])
            (crash ∷ []))
        (λ e. undecodable e (block_context proto channel_id b.number []) ∷ [])

  abbrev pub entries_items : Block → (ℕ → Option TxPvtData) → ℕ → List Bytes → Items
  entries_items b pvt_data tx_num [] = []
  entries_items b pvt_data tx_num (bytes ∷ rest) =
      entry_items b pvt_data tx_num bytes ++ entries_items b pvt_data (suc tx_num) rest

  unfoldable pub items : Block → (ℕ → Option TxPvtData) → Items
  items b pvt_data =
      call (block b) (new_context proto block_handler_err channel_id b.number [])
      ∷ entries_items b pvt_data 0 b.entries

-- How a visit ends, without the texts: to its end, at an error that halts it, or in a panic.
pub data Verdict : Type 0 where
  finished stopped crashed : Verdict

abbrev pub verdict : Option Failure → Verdict
verdict none = finished
verdict (some (halt e)) = stopped
verdict (some (warn e)) = finished
verdict (some panic) = crashed

module _ {S : Type 0} where
  abbrev pub outcome : S × Option Failure → S × Verdict
  outcome (s, r) = (s, verdict r)

  -- goes on unless it has ended
  abbrev pub and_then : S × Verdict → (S → S × Verdict) → S × Verdict
  and_then (s, finished) next = next s
  and_then (s, stopped) next = (s, stopped)
  and_then (s, crashed) next = (s, crashed)

module _ (proto : Protocol) (S : Type 0) (opts : Options proto S) where
  abbrev pub attempt : Item proto → Action S
  attempt (call e ctx) = publish proto S opts e ctx
  attempt (undecodable e ctx) = report proto S opts e ctx
  attempt crash = fail panic

  -- The items one after the other, until one halts.
  unfoldable pub perform : List (Item proto) → S → S × Verdict
  perform [] s = (s, finished)
  perform (i ∷ is) s = and_then (outcome (attempt i s)) (perform is)
