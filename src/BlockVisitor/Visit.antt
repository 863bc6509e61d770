-- ===== src/BlockVisitor/Visit.antt =====
-- The traversal of pkg/common/blockvisitor/blockvisitor.go: `blockEvent`, `txEvent` and
-- `configUpdateEvent`, each method an action on the client's state.
use fabric_peer_ext.Prelude.{
  ℕ, suc, String, Option, none, some, List, [], ◌∷◌, if◌then◌else◌, ◌==◌, get_elem?,
}
use fabric_peer_ext.BlockVisitor.Data.{
  Bytes, CollHashedRwSet, NsRwSet, CollectionPvtRwSet, NsPvtRwSet, HeaderType, endorser_transaction,
  config_update_header, other_header, ChannelHeader, Payload, ChaincodeActionPayload,
  ChaincodeAction, TxPvtData, Block, Decoded, decoded, Protocol, cc_event_handler_err,
  config_update_handler_err, block_handler_err, Place, cc_event, config_update, block, new_context,
  with_tx_num, with_event,
}
use fabric_peer_ext.BlockVisitor.Action.{
  invalid_event, invalid_rw_set, at_envelope, warn, panic, Options, Action, done, fail, report,
  publish, ◌▸◌, for_each, wrapped,
}
use fabric_peer_ext.BlockVisitor.Publish.{
  is_lscc, coll_namespace, extract_payload_and_header, extracted, block_context, publish_at,
  report_at, decoding, publish_reads, publish_writes, publish_coll_hash_reads,
  publish_coll_hash_writes, publish_lscc_write,
}

module _ (proto : Protocol) (S : Type 0) (opts : Options proto S) (channel_id : String) where
  abbrev Visits : Type 0
  Visits = Action S

  unfoldable pub visit_coll_hash_rw_sets : Place → String → List CollHashedRwSet → Visits
  visit_coll_hash_rw_sets place ns sets =
      for_each
        (λ c.
          publish_coll_hash_reads proto S opts channel_id place ns c.collection_name c.hashed_reads
          ▸ publish_coll_hash_writes proto S opts channel_id place ns c.collection_name
              c.hashed_writes)
        sets

  unfoldable pub visit_ns_read_write_set : Place → NsRwSet → Visits
  visit_ns_read_write_set place ns =
      publish_reads proto S opts channel_id place ns.name_space ns.reads
      ▸ (if is_lscc ns.name_space
          then publish_lscc_write proto S opts channel_id place ns.writes
          else publish_writes proto S opts channel_id place ns.name_space ns.writes
            ▸ visit_coll_hash_rw_sets place ns.name_space ns.coll_hashed_rw_sets)

  unfoldable pub visit_tx_read_write_set : Place → List NsRwSet → Visits
  visit_tx_read_write_set place sets = for_each (visit_ns_read_write_set place) sets

  abbrev decode_at {ℓ} : {A : Type ℓ} → Place → Decoded A → (A → Visits) → Visits
  decode_at = decoding proto S opts channel_id

  abbrev pub visit_results : Place → Bytes → Visits
  visit_results place [] = done
  visit_results place (b ∷ bs) =
      decode_at place (proto.unmarshal_rw_set (b ∷ bs))
        (λ sets. visit_tx_read_write_set place sets ▸ done)

  unfoldable pub visit_chaincode_action_results : Place → ChaincodeAction → Visits
  visit_chaincode_action_results place action = visit_results place action.results

  abbrev pub visit_events : Place → String → Bytes → Visits
  visit_events place id [] = done
  visit_events place id (b ∷ bs) =
      decoded (proto.unmarshal_event (b ∷ bs))
        (λ e.
          publish_at proto S opts channel_id place cc_event_handler_err
            (cc_event (record { place = place; event = e })))
        (λ e. wrapped (invalid_event id) (report_at proto S opts channel_id place e))

  unfoldable pub visit_chaincode_action_events : Place → ChaincodeAction → Visits
  visit_chaincode_action_events place action = visit_events place action.chaincode_id action.events

  unfoldable pub visit_chaincode_action : Place → ChaincodeAction → Visits
  visit_chaincode_action place action =
      visit_chaincode_action_results place action
      ▸ visit_chaincode_action_events place action
      ▸ done

  abbrev pub visit_proposal_response_payload : Place → Bytes → Visits
  visit_proposal_response_payload place extension =
      decode_at place (proto.unmarshal_chaincode_action extension) (visit_chaincode_action place)

  -- `action.ProposalResponsePayload` panics on a nil action
  abbrev pub visit_action : Place → Option Bytes → Visits
  visit_action place none = fail panic
  visit_action place (some response) =
      decode_at place (proto.unmarshal_proposal_response response)
        (visit_proposal_response_payload place)

  abbrev pub visit_chaincode_action_payload : Place → ChaincodeActionPayload → Visits
  visit_chaincode_action_payload place payload =
      decode_at place (proto.unmarshal_proposal_payload payload.proposal_payload)
        (λ cpp. visit_action place payload.proposal_response_payload)

  unfoldable pub visit_tx_action : Place → Bytes → Visits
  visit_tx_action place action =
      decode_at place (proto.get_chaincode_action_payload action)
        (visit_chaincode_action_payload place)

  unfoldable pub visit_pvt_coll_write_set : Place → String → CollectionPvtRwSet → Visits
  visit_pvt_coll_write_set place namespace coll =
      decoded (proto.unmarshal_kv_rw_set coll.rwset)
        (λ set.
          (let ns = coll_namespace namespace coll.collection_name in
            publish_reads proto S opts channel_id place ns set.reads
            ▸ publish_writes proto S opts channel_id place ns set.writes
            ▸ done))
        (λ e.
          wrapped (invalid_rw_set namespace coll.collection_name)
            (report_at proto S opts channel_id place e))

  abbrev pub visit_pvt_ns_write_set : Place → NsPvtRwSet → Visits
  visit_pvt_ns_write_set place ns =
      for_each (visit_pvt_coll_write_set place ns.namespace) ns.collections

  abbrev pub visit_pvt_data_write_set : Place → Option (List NsPvtRwSet) → Visits
  visit_pvt_data_write_set place none = done
  visit_pvt_data_write_set place (some sets) = for_each (visit_pvt_ns_write_set place) sets

  -- `txEvent.visit` after its loop
  abbrev pub visit_pvt_data : Place → Option TxPvtData → Visits
  visit_pvt_data place none = done
  visit_pvt_data place (some pvt) = visit_pvt_data_write_set place pvt.write_set

  unfoldable pub tx_visit : Place → List Bytes → Option TxPvtData → Visits
  tx_visit place actions pvt = for_each (visit_tx_action place) actions ▸ visit_pvt_data place pvt

  -- `configUpdateEvent.visit`
  unfoldable pub config_update_visit : ℕ → Bytes → Visits
  config_update_visit block_num update =
      decoded (proto.unmarshal_config_update update)
        (λ cu.
          (let e = config_update (record { block_num = block_num; update = cu }) in
            publish proto S opts e (
              new_context proto config_update_handler_err channel_id block_num
                (with_event proto e ∷ []))))
        (λ e. report proto S opts e (block_context proto channel_id block_num []) ▸ fail (warn e))

  unfoldable pub visit_config_update : ℕ → Payload → Visits
  visit_config_update block_num payload =
      decoded (proto.unmarshal_config_envelope payload.payload_data)
        (λ update. config_update_visit block_num update) (λ e. fail (warn e))

  -- `visitTx` for a valid transaction
  abbrev pub visit_valid : Place → Payload → Option TxPvtData → Visits
  visit_valid place payload pvt =
      decode_at place (proto.get_transaction payload.payload_data)
        (λ actions. tx_visit place actions pvt)

  -- a flag, or none where the index is out of range
  abbrev pub with_flag : Option ℕ → Visits → Visits
  with_flag none next = fail panic
  with_flag (some code) next = if code == proto.valid then next else done

  unfoldable pub visit_tx : Block → ℕ → Payload → ChannelHeader → Option TxPvtData → Visits
  visit_tx b tx_num payload chdr pvt = with_flag (get_elem? b.filter tx_num) (
      visit_valid (record { block_num = b.number; tx_id = chdr.tx_id; tx_num = tx_num }) payload
        pvt)

  abbrev pub visit_by_type :
      HeaderType → Block → ℕ → Payload × ChannelHeader → Option TxPvtData → Visits
  visit_by_type endorser_transaction b tx_num (payload, chdr) pvt =
      visit_tx b tx_num payload chdr pvt
  visit_by_type config_update_header b tx_num (payload, chdr) pvt =
      visit_config_update b.number payload
  visit_by_type other_header b tx_num (payload, chdr) pvt = done

  unfoldable pub visit_envelope : Block → ℕ → proto.Envelope → Option TxPvtData → Visits
  visit_envelope b tx_num envelope pvt =
      extracted (extract_payload_and_header proto envelope)
        (λ p. visit_by_type p.1.header_type b tx_num p pvt)
        (λ e.
          report proto S opts e
            (block_context proto channel_id b.number (with_tx_num proto tx_num ∷ [])))
        (fail panic)

  -- one round of the loop of `blockEvent.visit`
  abbrev pub visit_entry : Block → (ℕ → Option TxPvtData) → ℕ → Bytes → Visits
  visit_entry b pvt_data tx_num bytes =
      decoded (proto.extract_envelope bytes)
        (λ envelope.
          wrapped (at_envelope tx_num b.number)
            (visit_envelope b tx_num envelope (pvt_data tx_num)))
        (λ e. report proto S opts e (block_context proto channel_id b.number []))

  abbrev pub visit_entries : Block → (ℕ → Option TxPvtData) → ℕ → List Bytes → Visits
  visit_entries b pvt_data tx_num [] = done
  visit_entries b pvt_data tx_num (bytes ∷ rest) =
      visit_entry b pvt_data tx_num bytes ▸ visit_entries b pvt_data (suc tx_num) rest

  -- `blockEvent.visit`
  unfoldable pub visit_block : Block → (ℕ → Option TxPvtData) → Visits
  visit_block b pvt_data =
      publish proto S opts (block b) (new_context proto block_handler_err channel_id b.number [])
      ▸ visit_entries b pvt_data 0 b.entries
