-- ===== src/LedgerConfig/Tests.antt =====
-- Tests of pkg/config/ledgerconfig at concrete keys and configurations.
use fabric_peer_ext.Prelude.{false, none, some, List, [], ◌∷◌, All, ◌≡◌, refl}
use fabric_peer_ext.Prelude.Outcome.{ok}
use fabric_peer_ext.Prelude.Assoc.{lookup, put}
use fabric_peer_ext.Prelude.Bytes.{Bytes, bytes_eq}
use fabric_peer_ext.LedgerConfig.Config.{
  Key, Value, KeyValue, App, Config, validate_key, validate_config, validate_app,
  validate_components, validate_application, validate_component, validate_peer, key_eq, new_value,
  new_peer_component_key, new_app_key,
}
use fabric_peer_ext.LedgerConfig.Criteria.{Criteria, validate_criteria}
use fabric_peer_ext.LedgerConfig.KeyValueMap.{
  KeyValueMap, new_key_value_map, registry_validate, populate_apps, populate_app, populate_peers,
  populate_peer_apps, populate_peer_app,
}
use fabric_peer_ext.LedgerConfig.Valid.{IsEntryValid, new_key_value_map_valid}
use fabric_peer_ext.LedgerConfig.Keys.{
  marshal_key, unmarshal_key, unmarshal_key-marshal_key, index_key, key_divider, null_byte,
  LacksEach,
}
use fabric_peer_ext.LedgerConfig.Manager.{
  get_config, save, save_map, save_entries, save_entry, add_index,
}
use fabric_peer_ext.LedgerConfig.Saved.{get_config-save}
use fabric_peer_ext.LedgerConfig.Service.{Cache, get, load, handle_key_update}
use fabric_peer_ext.LedgerConfig.Coherent.{Step, start, step, written, get-load}
use fabric_peer_ext.LedgerConfig.Memory.{memory, texts, texts_of, encode_texts}

-- The key and the configuration of an application "b" in version "1" of the organization "a".
abbrev some_key : Key
some_key = record {
  msp_id = 97 ∷ [];
  peer_id = [];
  app_name = 98 ∷ [];
  app_version = 49 ∷ [];
  component_name = [];
  component_version = [];
}

abbrev some_app : App
some_app = record {
  app_name = 98 ∷ [];
  version = 49 ∷ [];
  format = 106 ∷ [];
  config = 123 ∷ 125 ∷ [];
  tags = [];
  components = [];
}

abbrev app_with_component : App
app_with_component = record {
  app_name = 99 ∷ [];
  version = 50 ∷ [];
  format = [];
  config = [];
  tags = [];
  components =
      record {
        name = 100 ∷ [];
        version = 51 ∷ [];
        format = 106 ∷ [];
        config = 91 ∷ 93 ∷ [];
        tags = [];
      }
      ∷ [];
}

abbrev some_config : Config
some_config = record {
  msp_id = 97 ∷ [];
  peers = record { peer_id = 112 ∷ []; apps = app_with_component ∷ [] } ∷ [];
  apps = some_app ∷ [];
}

abbrev other_key : Key
other_key = record {
  msp_id = 97 ∷ [];
  peer_id = 112 ∷ [];
  app_name = 99 ∷ [];
  app_version = 50 ∷ [];
  component_name = 100 ∷ [];
  component_version = 51 ∷ [];
}

abbrev some_value : Value
some_value = record { tx_id = 116 ∷ []; format = 106 ∷ []; config = 123 ∷ 125 ∷ []; tags = [] }

abbrev other_value : Value
other_value = record { tx_id = 116 ∷ []; format = 106 ∷ []; config = 91 ∷ 93 ∷ []; tags = [] }

abbrev some_map : KeyValueMap
some_map = (other_key, other_value) ∷ (some_key, some_value) ∷ []

abbrev some_criteria : Criteria
some_criteria = record {
  msp_id = 97 ∷ [];
  peer_id = [];
  app_name = 98 ∷ [];
  app_version = [];
  component_name = [];
  component_version = [];
}

abbrev some_results : List KeyValue
some_results =
    record { key = other_key; value = some other_value }
    ∷ record { key = some_key; value = some some_value }
    ∷ []

some_key_without : LacksEach key_divider some_key
some_key_without = ((refl, tt), tt, (refl, tt), (refl, tt), tt, tt)

some_key_no_null : LacksEach null_byte some_key
some_key_no_null = ((refl, tt), tt, (refl, tt), (refl, tt), tt, tt)

other_key_without : LacksEach key_divider other_key
other_key_without = ((refl, tt), (refl, tt), (refl, tt), (refl, tt), (refl, tt), (refl, tt))

other_key_no_null : LacksEach null_byte other_key
other_key_no_null = ((refl, tt), (refl, tt), (refl, tt), (refl, tt), (refl, tt), (refl, tt))

some_key_valid : validate_key some_key ≡ none
unfolding validate_key validate_app validate_components
some_key_valid = refl

some_criteria_valid : validate_criteria some_criteria ≡ none
unfolding validate_criteria
some_criteria_valid = refl

some_config_valid : validate_config some_config ≡ none
unfolding validate_config validate_peer validate_application validate_component
some_config_valid = refl

some_config_map : new_key_value_map some_config (116 ∷ []) ≡ ok some_map
unfolding new_key_value_map validate_config populate_apps populate_app populate_peers
    populate_peer_apps populate_peer_app new_peer_component_key new_app_key new_value put
some_config_map = refl

new_key_value_map_valid_example :
    (m : KeyValueMap) × (new_key_value_map some_config (116 ∷ []) ≡ ok m) × All IsEntryValid m
new_key_value_map_valid_example =
    new_key_value_map_valid some_config (116 ∷ []) some_config_valid (refl, tt) ((refl, tt), tt)

unmarshal_key-marshal_key_example : unmarshal_key (marshal_key other_key) ≡ ok other_key
unmarshal_key-marshal_key_example = unmarshal_key-marshal_key other_key other_key_without

abbrev saved_state : List (Bytes × Bytes)
saved_state = put (index_key some_key) (123 ∷ 125 ∷ []) (
    put (marshal_key some_key) (encode_texts (texts_of some_value)) (
      put (index_key other_key) (123 ∷ 125 ∷ [])
        (put (marshal_key other_key) (encode_texts (texts_of other_value)) [])))

some_config_saved : save memory texts [] (λ m. m) [] (116 ∷ []) some_config ≡ ok saved_state
unfolding save save_map save_entries save_entry add_index new_key_value_map validate_config
    populate_apps populate_app populate_peers populate_peer_apps populate_peer_app
    new_peer_component_key new_app_key new_value put registry_validate validate_key
some_config_saved = refl

some_key_in_map : lookup some_key some_map ≡ some some_value
unfolding lookup
some_key_in_map = refl

get_config-save_example : get_config memory texts saved_state some_key ≡ ok (some some_value)
get_config-save_example =
    get_config-save memory texts [] (λ m. m) [] saved_state (116 ∷ []) some_config some_map some_key
      some_value some_config_map
      ((other_key_without, other_key_no_null), ((some_key_without, some_key_no_null), tt))
      ((refl, tt), (tt, tt)) some_key_in_map (refl, (refl, (refl, tt))) some_config_saved

abbrev written_state : List (Bytes × Bytes)
written_state = put (marshal_key some_key) (encode_texts (texts_of some_value)) []

abbrev written_cache : Cache
written_cache =
    (handle_key_update memory texts [] (record {
      key = marshal_key some_key;
      value = encode_texts (texts_of some_value);
      is_delete = false;
    })).0

some_key_written : Step memory texts [] [] written_cache written_state
some_key_written =
    written some_key some_value (encode_texts (texts_of some_value)) some_key_without refl refl refl

get-load_example :
    (get memory texts written_cache written_state some_key).1
    ≡ load memory texts written_state some_key
get-load_example =
    get-load memory texts [] written_cache written_state some_key (step start some_key_written)
      some_key_valid refl
