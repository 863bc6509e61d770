-- ===== src/BlockVisitor/Refinement.antt =====
-- The traversal of pkg/common/blockvisitor/blockvisitor.go is a refinement of performing the items
-- of the block: the same calls in the same order, ended by the same call.
use fabric_peer_ext.Prelude.{
  ℕ, suc, String, Option, none, some, List, [], ◌∷◌, ◌++◌, ◌==◌, get_elem?, ◌≡◌,
}
use mathlib.Core.List.{flat_map}
use fabric_peer_ext.Prelude.Outcome.{Outcome, ok, err, panic as panicked}
use fabric_peer_ext.BlockVisitor.Data.{
  Bytes, KvRead, KvWrite, CollHashedRwSet, NsRwSet, CollectionPvtRwSet, NsPvtRwSet, HeaderType,
  endorser_transaction, config_update_header, other_header, ChannelHeader, Payload, ChaincodeAction,
  TxPvtData, Block, Decoded, decoded, Protocol, Place,
}
use fabric_peer_ext.BlockVisitor.Action.{
  invalid_event, invalid_rw_set, at_envelope, panic, Options, Action, fail,
}
use fabric_peer_ext.BlockVisitor.Publish.{
  is_lscc, get_cc_info, extract_payload_and_header, extracted, decoding, publish_reads,
  publish_writes, publish_coll_hash_reads, publish_coll_hash_writes, publish_lscc_write,
}
use fabric_peer_ext.BlockVisitor.Visit.{
  visit_coll_hash_rw_sets, visit_ns_read_write_set, visit_tx_read_write_set, visit_results,
  visit_chaincode_action_results, visit_events, visit_chaincode_action_events,
  visit_chaincode_action, visit_action, visit_tx_action, visit_pvt_coll_write_set,
  visit_pvt_data_write_set, visit_pvt_data, tx_visit, config_update_visit, visit_config_update,
  visit_valid, with_flag, visit_tx, visit_by_type, visit_envelope, visit_entry, visit_entries,
  visit_block,
}
use fabric_peer_ext.BlockVisitor.Items.{
  Item, crash, broken_at, endorsed_items, read_items, write_items, hash_items, lscc_items,
  namespace_items, result_items, cc_event_items, action_items, collection_items, set_items,
  private_items, valid_items, flagged, update_items, typed_items, entry_items, entries_items, items,
  outcome, perform,
}
use fabric_peer_ext.BlockVisitor.Performs.{
  Performs, done-Performs, warn-Performs, publish-Performs, report-Performs, panic-Performs,
  wrapped-Performs, then-Performs, then_done-Performs, then_warn-Performs, if_Performs,
  for_each-Performs, for_each-map-Performs, decoded-Performs,
}

module _ (proto : Protocol) (S : Type 0) (opts : Options proto S) (channel_id : String) where
  abbrev Matches : Action S → List (Item proto) → Type 0
  Matches = Performs proto S opts

  reads-Performs :
      (place : Place) (ns : String) (reads : List KvRead)
      → Matches
          (publish_reads proto S opts channel_id place ns reads)
          (read_items proto channel_id place ns reads)
  unfolding publish_reads
  reads-Performs place ns reads =
      for_each-map-Performs proto S opts _ _ (λ r. publish-Performs proto S opts _ _) reads

  writes-Performs :
      (place : Place) (ns : String) (writes : List KvWrite)
      → Matches
          (publish_writes proto S opts channel_id place ns writes)
          (write_items proto channel_id place ns writes)
  unfolding publish_writes
  writes-Performs place ns writes =
      for_each-map-Performs proto S opts _ _ (λ w. publish-Performs proto S opts _ _) writes

  hashes-Performs :
      (place : Place) (ns : String) (sets : List CollHashedRwSet)
      → Matches
          (visit_coll_hash_rw_sets proto S opts channel_id place ns sets)
          (flat_map (hash_items proto channel_id place ns) sets)
  unfolding visit_coll_hash_rw_sets publish_coll_hash_reads publish_coll_hash_writes
  hashes-Performs place ns sets =
      for_each-Performs proto S opts _ _
        (λ c.
          then-Performs proto S opts _ _ _ _
            (for_each-map-Performs proto S opts _ _ (λ r. publish-Performs proto S opts _ _)
              c.hashed_reads)
            (for_each-map-Performs proto S opts _ _ (λ w. publish-Performs proto S opts _ _)
              c.hashed_writes))
        sets

  decoding-Performs {ℓ} :
      {A : Type ℓ} (place : Place) (d : Decoded A) (next : A → Action S) (f : A → List (Item proto))
      → ((a : A) → Matches (next a) (f a))
      → Matches
          (decoding proto S opts channel_id place d next)
          (decoded d f (broken_at proto channel_id place))
  decoding-Performs place d next f h =
      decoded-Performs proto S opts d next _ f _ h (λ e. report-Performs proto S opts e _)

  lscc-Performs :
      (place : Place) (writes : List KvWrite)
      → Matches
          (publish_lscc_write proto S opts channel_id place writes)
          (lscc_items proto channel_id place writes)
  unfolding publish_lscc_write get_cc_info
  lscc-Performs place [] = done-Performs proto S opts
  lscc-Performs place (w ∷ ws) =
      decoding-Performs place (get_cc_info proto (w ∷ ws)) _ _
        (λ info. publish-Performs proto S opts _ _)

  namespace-Performs :
      (place : Place) (ns : NsRwSet)
      → Matches
          (visit_ns_read_write_set proto S opts channel_id place ns)
          (namespace_items proto channel_id place ns)
  unfolding visit_ns_read_write_set
  namespace-Performs place ns =
      then-Performs proto S opts _ _ _ _ (reads-Performs place ns.name_space ns.reads) (
        if_Performs proto S opts (is_lscc ns.name_space) _ _ _ _ (lscc-Performs place ns.writes) (
          then-Performs proto S opts _ _ _ _ (writes-Performs place ns.name_space ns.writes)
            (hashes-Performs place ns.name_space ns.coll_hashed_rw_sets)))

  results-Performs :
      (place : Place) (bytes : Bytes)
      → Matches
          (visit_results proto S opts channel_id place bytes)
          (result_items proto channel_id place bytes)
  unfolding visit_tx_read_write_set
  results-Performs place [] = done-Performs proto S opts
  results-Performs place (b ∷ bs) =
      decoding-Performs place (proto.unmarshal_rw_set (b ∷ bs)) _ _ (λ sets.
        then_done-Performs proto S opts _ _
          (for_each-Performs proto S opts _ _ (namespace-Performs place) sets))

  events-Performs :
      (place : Place) (id : String) (bytes : Bytes)
      → Matches
          (visit_events proto S opts channel_id place id bytes)
          (cc_event_items proto channel_id place bytes)
  events-Performs place id [] = done-Performs proto S opts
  events-Performs place id (b ∷ bs) =
      decoded-Performs proto S opts (proto.unmarshal_event (b ∷ bs)) _ _ _ _
        (λ e. publish-Performs proto S opts _ _)
        (λ e.
          wrapped-Performs proto S opts (invalid_event id) _ _ (report-Performs proto S opts e _))

  chaincode_action-Performs :
      (place : Place) (a : ChaincodeAction)
      → Matches (visit_chaincode_action proto S opts channel_id place a) (
          result_items proto channel_id place a.results
          ++ cc_event_items proto channel_id place a.events)
  unfolding visit_chaincode_action visit_chaincode_action_results visit_chaincode_action_events
  chaincode_action-Performs place a =
      then-Performs proto S opts _ _ _ _ (results-Performs place a.results)
        (then_done-Performs proto S opts _ _ (events-Performs place a.chaincode_id a.events))

  endorsed-Performs :
      (place : Place) (response : Option Bytes)
      → Matches
          (visit_action proto S opts channel_id place response)
          (endorsed_items proto channel_id place response)
  endorsed-Performs place none = panic-Performs proto S opts
  endorsed-Performs place (some response) =
      decoding-Performs place (proto.unmarshal_proposal_response response) _ _ (λ extension.
        decoding-Performs place (proto.unmarshal_chaincode_action extension) _ _
          (chaincode_action-Performs place))

  action-Performs :
      (place : Place) (action : Bytes)
      → Matches
          (visit_tx_action proto S opts channel_id place action)
          (action_items proto channel_id place action)
  unfolding visit_tx_action
  action-Performs place action =
      decoding-Performs place (proto.get_chaincode_action_payload action) _ _ (λ payload.
        decoding-Performs place (proto.unmarshal_proposal_payload payload.proposal_payload) _ _
          (λ cpp. endorsed-Performs place payload.proposal_response_payload))

  collection-Performs :
      (place : Place) (namespace : String) (coll : CollectionPvtRwSet)
      → Matches
          (visit_pvt_coll_write_set proto S opts channel_id place namespace coll)
          (collection_items proto channel_id place namespace coll)
  unfolding visit_pvt_coll_write_set
  collection-Performs place namespace coll =
      decoded-Performs proto S opts (proto.unmarshal_kv_rw_set coll.rwset) _ _ _ _
        (λ set.
          then-Performs proto S opts _ _ _ _ (reads-Performs place _ set.reads)
            (then_done-Performs proto S opts _ _ (writes-Performs place _ set.writes)))
        (λ e.
          wrapped-Performs proto S opts (invalid_rw_set namespace coll.collection_name) _ _
            (report-Performs proto S opts e _))

  sets-Performs :
      (place : Place) (sets : Option (List NsPvtRwSet))
      → Matches
          (visit_pvt_data_write_set proto S opts channel_id place sets)
          (set_items proto channel_id place sets)
  sets-Performs place none = done-Performs proto S opts
  sets-Performs place (some sets) =
      for_each-Performs proto S opts _ _
        (λ ns.
          for_each-Performs proto S opts _ _ (collection-Performs place ns.namespace)
            ns.collections)
        sets

  private-Performs :
      (place : Place) (pvt : Option TxPvtData)
      → Matches
          (visit_pvt_data proto S opts channel_id place pvt)
          (private_items proto channel_id place pvt)
  private-Performs place none = done-Performs proto S opts
  private-Performs place (some pvt) = sets-Performs place pvt.write_set

  valid-Performs :
      (place : Place) (payload : Payload) (pvt : Option TxPvtData)
      → Matches
          (visit_valid proto S opts channel_id place payload pvt)
          (valid_items proto channel_id place payload pvt)
  unfolding tx_visit
  valid-Performs place payload pvt =
      decoding-Performs place (proto.get_transaction payload.payload_data) _ _ (λ actions.
        then-Performs proto S opts _ _ _ _
          (for_each-Performs proto S opts _ _ (action-Performs place) actions)
          (private-Performs place pvt))

  flagged-Performs :
      (flag : Option ℕ) (next : Action S) (is : List (Item proto))
      → Matches next is
      → Matches (with_flag proto S opts channel_id flag next) (flagged proto channel_id flag is)
  flagged-Performs none next is h = panic-Performs proto S opts
  flagged-Performs (some code) next is h =
      if_Performs proto S opts (code == proto.valid) _ _ _ _ h (done-Performs proto S opts)

  update-Performs :
      (block_num : ℕ) (payload : Payload)
      → Matches
          (visit_config_update proto S opts channel_id block_num payload)
          (update_items proto channel_id block_num payload)
  unfolding visit_config_update config_update_visit
  update-Performs block_num payload =
      decoded-Performs proto S opts (proto.unmarshal_config_envelope payload.payload_data) _ _ _ _
        (λ update.
          decoded-Performs proto S opts (proto.unmarshal_config_update update) _ _ _ _
            (λ cu. publish-Performs proto S opts _ _)
            (λ e. then_warn-Performs proto S opts _ e _ (report-Performs proto S opts e _)))
        (λ e. warn-Performs proto S opts e)

  typed-Performs :
      (type : HeaderType) (b : Block) (tx_num : ℕ) (p : Payload × ChannelHeader)
      (pvt : Option TxPvtData)
      → Matches
          (visit_by_type proto S opts channel_id type b tx_num p pvt)
          (typed_items proto channel_id type b tx_num p pvt)
  unfolding visit_tx
  typed-Performs endorser_transaction b tx_num (payload, chdr) pvt =
      flagged-Performs (get_elem? b.filter tx_num) _ _ (
        valid-Performs (record { block_num = b.number; tx_id = chdr.tx_id; tx_num = tx_num })
          payload pvt)
  typed-Performs config_update_header b tx_num (payload, chdr) pvt =
      update-Performs b.number payload
  typed-Performs other_header b tx_num (payload, chdr) pvt = done-Performs proto S opts

  extracted-Performs :
      {A : Type 0} (d : Outcome String A) (next : A → Action S) (failed : String → Action S)
      (f : A → List (Item proto)) (g : String → List (Item proto))
      → ((a : A) → Matches (next a) (f a))
      → ((e : String) → Matches (failed e) (g e))
      → Matches (extracted d next failed (fail panic)) (extracted d f g (crash ∷ []))
  extracted-Performs (ok a) next failed f g h k = h a
  extracted-Performs (err e) next failed f g h k = k e
  extracted-Performs panicked next failed f g h k = panic-Performs proto S opts

  entry-Performs :
      (b : Block) (pvt_data : ℕ → Option TxPvtData) (tx_num : ℕ) (bytes : Bytes)
      → Matches
          (visit_entry proto S opts channel_id b pvt_data tx_num bytes)
          (entry_items proto channel_id b pvt_data tx_num bytes)
  unfolding visit_envelope extract_payload_and_header
  entry-Performs b pvt_data tx_num bytes =
      decoded-Performs proto S opts (proto.extract_envelope bytes) _ _ _ _
        (λ envelope. wrapped-Performs proto S opts (at_envelope tx_num b.number) _ _ (
          extracted-Performs (extract_payload_and_header proto envelope) _ _ _ _
            (λ p. typed-Performs p.1.header_type b tx_num p (pvt_data tx_num))
            (λ e. report-Performs proto S opts e _)))
        (λ e. report-Performs proto S opts e _)

  entries-Performs :
      (b : Block) (pvt_data : ℕ → Option TxPvtData) (tx_num : ℕ) (entries : List Bytes)
      → Matches
          (visit_entries proto S opts channel_id b pvt_data tx_num entries)
          (entries_items proto channel_id b pvt_data tx_num entries)
  entries-Performs b pvt_data tx_num [] = done-Performs proto S opts
  entries-Performs b pvt_data tx_num (bytes ∷ rest) =
      then-Performs proto S opts _ _ _ _ (entry-Performs b pvt_data tx_num bytes)
        (entries-Performs b pvt_data (suc tx_num) rest)

  -- A visit of a block leaves the client in the state in which it is left by its handlers and its
  -- error handler called on the items of the block, in their order, up to the first that halts,
  -- and it ends as they do: to the end, at an error of the error handler, or in a panic: at a
  -- missing flag, a payload without a header or an action that is nil. The texts of errors are
  -- left aside.
  pub visit_block-perform :
      (b : Block) (pvt_data : ℕ → Option TxPvtData) (s : S)
      → outcome (visit_block proto S opts channel_id b pvt_data s)
        ≡ perform proto S opts (items proto channel_id b pvt_data) s
  unfolding visit_block items Performs
  visit_block-perform b pvt_data s =
      then-Performs proto S opts _ _ _ _ (publish-Performs proto S opts _ _)
        (entries-Performs b pvt_data 0 b.entries) s
