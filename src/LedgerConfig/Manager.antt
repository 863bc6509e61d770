-- ===== src/LedgerConfig/Manager.antt =====
-- pkg/config/ledgerconfig/mgr/updatemgr.go and querymgr.go: saving, reading and deleting. The state
-- database and the encoding in JSON are code outside the repository.
use fabric_peer_ext.Prelude.{
  false, if◌then◌else◌, String, Option, none, some, List, [], ◌∷◌, ◌≡◌, true, All,
}
use fabric_peer_ext.Prelude.Outcome.{Outcome, ok, err, panic, ◌>>=◌}
use fabric_peer_ext.Prelude.Utf8.{is_utf8}
use fabric_peer_ext.Prelude.Bytes.{Bytes, bytes_beq}
use fabric_peer_ext.LedgerConfig.Config.{
  Key, Value, KeyValue, Config, Error, message, with_message, is_empty,
}
use fabric_peer_ext.LedgerConfig.Criteria.{Criteria, validate_criteria, filter_results}
use fabric_peer_ext.LedgerConfig.KeyValueMap.{KeyValueMap, new_key_value_map, registry_validate}
use fabric_peer_ext.LedgerConfig.Keys.{
  marshal_key, index_key, index_msp_id, create_composite, key_from_composite_key,
}

-- The state of the ledger in one namespace; an absent key has empty bytes.
pub record StateStore : Type 1 where
  pub State : Type 0
  pub get_state : State → Bytes → Outcome Error Bytes
  pub put_state : State → Bytes → Bytes → Outcome Error State
  pub del_state : State → Bytes → Outcome Error State
  -- `GetStateRetriever` and `GetStore`, as far as they fail
  pub get_retriever : State → Outcome Error (Unit {0})
  pub get_store : State → Outcome Error (Unit {0})
  -- what each `Next` of the iterator over a prefix gives
  pub by_partial_key : State → Bytes → Outcome Error (List (Outcome Error Bytes))
  pub get-put :
      (s s' : State) (k j v : Bytes)
      → put_state s k v ≡ ok s'
      → get_state s' j ≡ (if bytes_beq k j then ok v else get_state s j)
  pub get-del :
      (s s' : State) (k j : Bytes)
      → del_state s k ≡ ok s'
      → get_state s' j ≡ (if bytes_beq k j then ok [] else get_state s j)

-- The texts of the value are UTF-8.
abbrev pub IsUtf8 : Value → Type 0
IsUtf8 v = All (λ s. is_utf8 s ≡ true) (v.tx_id ∷ v.format ∷ v.config ∷ v.tags)

-- encoding/json, which replaces the bytes of a text that are not UTF-8.
pub record Json : Type 0 where
  pub marshal : Value → Outcome Error Bytes
  pub unmarshal : Bytes → Outcome Error Value
  pub unmarshal-marshal : (v : Value) (b : Bytes) → IsUtf8 v → marshal v ≡ ok b → unmarshal b ≡ ok v
  pub marshal_nonempty : (v : Value) (b : Bytes) → marshal v ≡ ok b → is_empty b ≡ false

abbrev pub with_text {ℓ} : {A : Type ℓ} → String → List Bytes → Outcome Error A → Outcome Error A
with_text text values (ok a) = ok a
with_text text values (err e) = err (with_message text values e)
with_text text values panic = panic

-- "{}"
abbrev pub index_value : Bytes
index_value = 123 ∷ 125 ∷ []

abbrev pub refused_with : Option Error → Outcome Error (Unit {0})
refused_with none = ok tt
refused_with (some e) = err e

-- `UpdateManager.validate`
unfoldable pub validate_entries :
    List (Key → Value → Option Error) → KeyValueMap → Outcome Error (Unit {0})
validate_entries validators [] = ok tt
validate_entries validators ((k, v) ∷ m) = do
  one ← refused_with (registry_validate validators k v)
  validate_entries validators m

module _ (store : StateStore) (json : Json) where
  open store use {State, get_state, put_state, del_state, get_retriever, get_store, by_partial_key}

  -- Bytes that are no JSON give a nil value and a nil error: the code wraps the error of the read,
  -- which is nil.
  abbrev decoded_value : Outcome Error Value → Outcome Error (Option Value)
  decoded_value (ok v) = ok (some v)
  decoded_value (err e) = ok none
  decoded_value panic = panic

  abbrev pub stored_value : Bytes → Outcome Error (Option Value)
  stored_value bytes = if is_empty bytes then ok none else decoded_value (json.unmarshal bytes)

  -- `getConfig`
  unfoldable pub get_config : State → Key → Outcome Error (Option Value)
  get_config s k = do
    bytes ←
        with_text "error getting state for key" (marshal_key k ∷ []) (get_state s (marshal_key k))
    stored_value bytes

  -- `QueryManager.Get`
  unfoldable pub get_value : State → Key → Outcome Error (Option Value)
  unfolding get_config
  get_value s k = do retriever ← get_retriever s; get_config s k

  unfoldable pub add_index : State → Key → Outcome Error State
  add_index s k = with_text "failed to create index" [] (put_state s (index_key k) index_value)

  unfoldable pub delete_index : State → Key → Outcome Error State
  delete_index s k = with_text "failed to delete index" [] (del_state s (index_key k))

  -- one round of the loop of `UpdateManager.save`
  unfoldable pub save_entry : State → Key → Value → Outcome Error State
  unfolding add_index
  save_entry s k v = do
    bytes ← with_text "error marshalling config value" [] (json.marshal v)
    s' ← with_text "error saving config" (marshal_key k ∷ []) (put_state s (marshal_key k) bytes)
    add_index s' k

  -- The loop over the map, in the order in which Go walks it. What was written before an error
  -- belongs to a transaction that is not committed.
  unfoldable pub save_entries : State → KeyValueMap → Outcome Error State
  unfolding save_entry
  save_entries s [] = ok s
  save_entries s ((k, v) ∷ m) = do s' ← save_entry s k v; save_entries s' m

  -- `UpdateManager.save`
  unfoldable pub save_map : State → KeyValueMap → Outcome Error State
  unfolding save_entries
  save_map s m = do opened ← get_store s; save_entries s m

  -- `Save`; `order` is the order in which Go walks the map
  unfoldable pub save :
      List (Key → Value → Option Error)
      → (KeyValueMap → KeyValueMap)
      → State
      → Bytes
      → Config
      → Outcome Error State
  unfolding validate_entries save_map
  save validators order s tx_id cfg = do
    m ← new_key_value_map cfg tx_id
    checked ← with_text "validation error" [] (validate_entries validators (order m))
    save_map s (order m)

  -- `getNext`, with what `Next` gives
  unfoldable pub get_next : State → Outcome Error Bytes → Outcome Error KeyValue
  unfolding get_config
  get_next s next = do
    index ← with_text "Failed to get next value from iterator" [] next
    k ← key_from_composite_key index
    v ← get_config s k
    ok (record { key = k; value = v })

  -- the loop of `query`
  unfoldable pub query_keys : State → List (Outcome Error Bytes) → Outcome Error (List KeyValue)
  unfolding get_next
  query_keys s [] = ok []
  query_keys s (next ∷ nexts) = do kv ← get_next s next; rest ← query_keys s nexts; ok (kv ∷ rest)

  -- `QueryManager.query`
  unfoldable pub query : State → Criteria → Outcome Error (List KeyValue)
  unfolding query_keys create_composite filter_results
  query s c = do
    valid ← refused_with (validate_criteria c)
    retriever ← get_retriever s
    indexes ←
        with_text "Unexpected error retrieving message statuses with index" (index_msp_id ∷ [])
          (by_partial_key s (create_composite index_msp_id (c.msp_id ∷ [])))
    configs ← query_keys s indexes
    ok (filter_results configs c)

  -- `Query`
  unfoldable pub query_public : State → Criteria → Outcome Error (List KeyValue)
  unfolding query
  query_public s c = if is_empty c.msp_id then err (message "MspID is required" []) else query s c

  unfoldable pub delete_entries : State → List KeyValue → Outcome Error State
  unfolding delete_index
  delete_entries s [] = ok s
  delete_entries s (kv ∷ kvs) = do
    s' ← del_state s (marshal_key kv.key)
    s'' ← delete_index s' kv.key
    delete_entries s'' kvs

  -- `Delete`
  unfoldable pub delete : State → Criteria → Outcome Error State
  unfolding query delete_entries
  delete s c = do configs ← query s c; opened ← get_store s; delete_entries s configs
