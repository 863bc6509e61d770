-- ===== src/BlockVisitor/Publish.antt =====
-- The methods of `txEvent` in pkg/common/blockvisitor/blockvisitor.go that publish, each an action
-- on the client's state.
use text.Mathlib.Text.{find?}
use fabric_peer_ext.Prelude.{
  ℕ, Bool, true, false, String, Option, none, some, List, [], ◌∷◌, ◌++◌, if◌then◌else◌, str_eq,
  str_append,
}
use fabric_peer_ext.Prelude.Outcome.{Outcome, ok, err, panic}
use fabric_peer_ext.BlockVisitor.Data.{
  KvRead, KvWrite, KvReadHash, KvWriteHash, ChannelHeader, Payload, Decoded, good, bad, decoded,
  Protocol, Category, unmarshal_err, read_handler_err, write_handler_err,
  coll_hash_read_handler_err, coll_hash_write_handler_err, lscc_write_handler_err, Place, Event,
  read, write, coll_hash_read, coll_hash_write, lscc_write, Context, new_context, with_tx_id,
  with_tx_num, with_event,
}
use fabric_peer_ext.BlockVisitor.Action.{Options, Action, done, report, publish, for_each}

-- `CollectionSeparator` and `LsccID`
abbrev pub collection_separator : String
collection_separator = "~"

abbrev pub lscc_id : String
lscc_id = "lscc"

abbrev found : Option ℕ → Bool
found none = false
found (some at) = true

abbrev pub is_collection_config_key : String → Bool
is_collection_config_key key = found (find? key collection_separator)

abbrev pub is_lscc : String → Bool
is_lscc ns = str_eq ns lscc_id

-- the namespace of a collection's writes
abbrev pub coll_namespace : String → String → String
coll_namespace namespace coll = str_append (str_append namespace "$$p") coll

module _ (proto : Protocol) where
  open proto use {Envelope, ChaincodeData, CollectionConfigPackage}

  -- the ID of the chaincode, its data and its collections
  abbrev pub CcInfo : Type 0
  CcInfo = String × Option ChaincodeData × Option CollectionConfigPackage

  abbrev get_cc_info_from : CcInfo → List KvWrite → Decoded CcInfo
  get_cc_info_from info [] = good info
  get_cc_info_from (cc_id, cc_data, ccp) (w ∷ ws) =
      if is_collection_config_key w.key
      then elim (proto.unmarshal_collection_config w.value) [
        | good ccp' ↦ get_cc_info_from (cc_id, cc_data, some ccp') ws
        | bad e ↦ bad (str_append "error unmarshaling collection configuration: " e)
      ]
      else elim (proto.unmarshal_chaincode_data w.value) [
        | good data' ↦ get_cc_info_from (w.key, some data', ccp) ws
        | bad e ↦ bad (str_append "error unmarshaling chaincode data: " e)
      ]

  unfoldable pub get_cc_info : List KvWrite → Decoded CcInfo
  get_cc_info writes = get_cc_info_from ("", none, none) writes

  -- `payload.Header.ChannelHeader` panics on a nil header
  abbrev header_of : Payload → Outcome String (Payload × ChannelHeader)
  header_of payload = elim payload.channel_header [
    | none ↦ panic
    | some bytes ↦
        decoded (proto.unmarshal_channel_header bytes) (λ chdr. ok (payload, chdr)) (λ e. err e)
  ]

  unfoldable pub extract_payload_and_header : Envelope → Outcome String (Payload × ChannelHeader)
  extract_payload_and_header envelope =
      decoded (proto.extract_payload envelope) header_of (λ e. err e)

-- the three ends of `extractPayloadAndHeader`
abbrev pub extracted {ℓ κ} :
    {A : Type ℓ} {B : Type κ} → Outcome String A → (A → B) → (String → B) → B → B
extracted (ok a) next failed nil_header = next a
extracted (err e) next failed nil_header = failed e
extracted panic next failed nil_header = nil_header

module _ (proto : Protocol) (channel_id : String) where
  -- `txEvent.newContext`
  abbrev pub tx_context : Place → Category → List (Context proto → Context proto) → Context proto
  tx_context place category opts =
      new_context proto category channel_id place.block_num
        (opts ++ with_tx_num proto place.tx_num ∷ with_tx_id proto place.tx_id ∷ [])

  -- `blockEvent.newUnmarshalErrContext`
  abbrev pub block_context : ℕ → List (Context proto → Context proto) → Context proto
  block_context block_num opts = new_context proto unmarshal_err channel_id block_num opts

  abbrev pub event_context : Place → Category → Event proto → Context proto
  event_context place category e = tx_context place category (with_event proto e ∷ [])

  abbrev pub undecodable_context : Place → Context proto
  undecodable_context place = tx_context place unmarshal_err []

module _ (proto : Protocol) (S : Type 0) (opts : Options proto S) (channel_id : String) where
  abbrev pub Act : Type 0
  Act = Action S

  -- what is published with the context of its handler's error
  abbrev pub publish_at : Place → Category → Event proto → Act
  publish_at place category e =
      publish proto S opts e (event_context proto channel_id place category e)

  abbrev pub report_at : Place → String → Act
  report_at place e = report proto S opts e (undecodable_context proto channel_id place)

  -- `unmarshal`, and its error given to the error handler
  abbrev pub decoding {ℓ} : {A : Type ℓ} → Place → Decoded A → (A → Act) → Act
  decoding place d next = decoded d next (report_at place)

  unfoldable pub publish_reads : Place → String → List KvRead → Act
  publish_reads place ns reads =
      for_each
        (λ r.
          publish_at place read_handler_err
            (read (record { place = place; namespace = ns; kv_read = r })))
        reads

  unfoldable pub publish_writes : Place → String → List KvWrite → Act
  publish_writes place ns writes =
      for_each
        (λ w.
          publish_at place write_handler_err
            (write (record { place = place; namespace = ns; kv_write = w })))
        writes

  unfoldable pub publish_coll_hash_reads : Place → String → String → List KvReadHash → Act
  publish_coll_hash_reads place ns coll reads =
      for_each
        (λ r. publish_at place coll_hash_read_handler_err (
          coll_hash_read
            (record { place = place; namespace = ns; collection = coll; kv_read = r })))
        reads

  unfoldable pub publish_coll_hash_writes : Place → String → String → List KvWriteHash → Act
  publish_coll_hash_writes place ns coll writes =
      for_each
        (λ w. publish_at place coll_hash_write_handler_err (
          coll_hash_write
            (record { place = place; namespace = ns; collection = coll; kv_write = w })))
        writes

  abbrev pub publish_cc_info : Place → CcInfo proto → Act
  publish_cc_info place (cc_id, cc_data, ccp) =
      publish_at place lscc_write_handler_err
        (lscc_write (record { place = place; cc_id = cc_id; cc_data = cc_data; ccp = ccp }))

  unfoldable pub publish_lscc_write : Place → List KvWrite → Act
  publish_lscc_write place [] = done
  publish_lscc_write place (w ∷ ws) =
      decoding place (get_cc_info proto (w ∷ ws)) (publish_cc_info place)
