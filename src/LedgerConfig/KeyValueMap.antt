-- ===== src/LedgerConfig/KeyValueMap.antt =====
-- pkg/config/ledgerconfig/mgr/keyvaluemap.go: the keys and values of a configuration, and the
-- validation of pkg/config/ledgerconfig/validator/validator.go.
use fabric_peer_ext.Prelude.{not, if◌then◌else◌, Option, none, some, List, [], ◌∷◌}
use fabric_peer_ext.Prelude.Outcome.{Outcome, ok, err}
use fabric_peer_ext.Prelude.Assoc.{put}
use fabric_peer_ext.Prelude.Bytes.{Bytes}
use fabric_peer_ext.LedgerConfig.Config.{
  Key, Value, Error, is_empty, fail_if, ◌then_check◌, no_items, key_eq, Component, App, Peer,
  Config, new_peer_component_key, new_peer_key, new_app_key, new_component_key, new_value,
  validate_key, validate_config,
}

abbrev pub KeyValueMap : Type 0
KeyValueMap = List (Key × Value)

unfoldable pub populate_components :
    Bytes → App → Bytes → List Component → KeyValueMap → KeyValueMap
populate_components msp_id app tx_id [] m = m
populate_components msp_id app tx_id (c ∷ cs) m = populate_components msp_id app tx_id cs (
    put (new_component_key msp_id app.app_name app.version c.name c.version)
      (new_value tx_id c.config c.format c.tags) m)

unfoldable pub populate_peer_components :
    Bytes → Bytes → App → Bytes → List Component → KeyValueMap → KeyValueMap
populate_peer_components msp_id peer_id app tx_id [] m = m
populate_peer_components msp_id peer_id app tx_id (c ∷ cs) m =
    populate_peer_components msp_id peer_id app tx_id cs (
      put (new_peer_component_key msp_id peer_id app.app_name app.version c.name c.version)
        (new_value tx_id c.config c.format c.tags) m)

unfoldable pub populate_app : Bytes → App → Bytes → KeyValueMap → KeyValueMap
unfolding populate_components
populate_app msp_id app tx_id m =
    let m' =
      (if not (no_items app.components)
        then populate_components msp_id app tx_id app.components m
        else m) in
    if not (is_empty app.config)
    then put (new_app_key msp_id app.app_name app.version)
        (new_value tx_id app.config app.format app.tags) m'
    else m'

unfoldable pub populate_peer_app : Bytes → Bytes → App → Bytes → KeyValueMap → KeyValueMap
unfolding populate_peer_components
populate_peer_app msp_id peer_id app tx_id m =
    let m' =
      (if not (no_items app.components)
        then populate_peer_components msp_id peer_id app tx_id app.components m
        else m) in
    if not (is_empty app.config)
    then put (new_peer_key msp_id peer_id app.app_name app.version)
        (new_value tx_id app.config app.format app.tags) m'
    else m'

unfoldable pub populate_apps : Bytes → List App → Bytes → KeyValueMap → KeyValueMap
populate_apps msp_id [] tx_id m = m
populate_apps msp_id (app ∷ apps) tx_id m =
    populate_apps msp_id apps tx_id (populate_app msp_id app tx_id m)

unfoldable pub populate_peer_apps : Bytes → Bytes → List App → Bytes → KeyValueMap → KeyValueMap
populate_peer_apps msp_id peer_id [] tx_id m = m
populate_peer_apps msp_id peer_id (app ∷ apps) tx_id m =
    populate_peer_apps msp_id peer_id apps tx_id (populate_peer_app msp_id peer_id app tx_id m)

unfoldable pub populate_peers : Bytes → List Peer → Bytes → KeyValueMap → KeyValueMap
populate_peers msp_id [] tx_id m = m
populate_peers msp_id (p ∷ ps) tx_id m =
    populate_peers msp_id ps tx_id (populate_peer_apps msp_id p.peer_id p.apps tx_id m)

unfoldable pub populate : Config → Bytes → KeyValueMap → KeyValueMap
populate cfg tx_id m =
    populate_apps cfg.msp_id cfg.apps tx_id (populate_peers cfg.msp_id cfg.peers tx_id m)

abbrev pub unless {ℓ} : {A : Type ℓ} → Option Error → A → Outcome Error A
unless none a = ok a
unless (some e) a = err e

unfoldable pub new_key_value_map : Config → Bytes → Outcome Error KeyValueMap
unfolding populate
new_key_value_map cfg tx_id = unless (validate_config cfg) (populate cfg tx_id [])

-- `validate` of the registry
unfoldable pub validate_entry : Key → Value → Option Error
validate_entry k v =
    validate_key k
    then_check fail_if (is_empty v.format) "field 'Format' must not be empty"
    then_check fail_if (is_empty v.config) "field 'Config' must not be empty"

-- the rest of `Registry.Validate`: the registered validators in turn
abbrev pub validate_registered : List (Key → Value → Option Error) → Key → Value → Option Error
validate_registered [] k v = none
validate_registered (check ∷ checks) k v = check k v then_check validate_registered checks k v

unfoldable pub registry_validate : List (Key → Value → Option Error) → Key → Value → Option Error
unfolding validate_entry
registry_validate validators k v = validate_entry k v then_check validate_registered validators k v
