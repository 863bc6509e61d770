-- ===== src/LedgerConfig/Valid.antt =====
-- The keys and values of a valid configuration, by pkg/config/ledgerconfig/mgr/keyvaluemap.go, pass
-- the validation of the registry.
use fabric_peer_ext.Prelude.{
  true, false, ◌||◌, String, Option, none, some, List, [], ◌∷◌, All, ◌≡◌, refl, Bool-cases, inl,
  inr, arith,
}
use fabric_peer_ext.Prelude.Outcome.{ok}
use fabric_peer_ext.Prelude.Bytes.{Bytes}
use fabric_peer_ext.Prelude.Assoc.{All-put}
use fabric_peer_ext.LedgerConfig.Config.{
  Key, Value, Error, with_message, is_empty, no_items, first_error, for_msp, key_eq, Component, App,
  Peer, Config, new_peer_component_key, new_peer_key, new_app_key, new_component_key, new_value,
  validate_key, validate_app, validate_components, validate_component, validate_application,
  validate_peer, validate_config, with_message,
}
use fabric_peer_ext.LedgerConfig.KeyValueMap.{
  KeyValueMap, populate_components, populate_peer_components, populate_app, populate_peer_app,
  populate_apps, populate_peer_apps, populate_peers, populate, new_key_value_map, validate_entry,
}

-- An application has a configuration of its own or components, and not both.
abbrev pub IsPlain : App → Type 0
IsPlain app = (is_empty app.config || no_items app.components) ≡ true

abbrev pub IsEntryValid : Key × Value → Type 0
IsEntryValid (k, v) = validate_entry k v ≡ none

error_free :
    (o rest : Option Error) (f : Error → Error)
    → (elim o [ none ↦ rest | some e ↦ some (f e) ]) ≡ none
    → (o ≡ none) × (rest ≡ none)
error_free none rest f h = (refl, h)
error_free (some e) rest f h = cc

first_error_none :
    {A : Type 0} (text : String) (name : A → List Bytes) (check : A → Option Error) (xs : List A)
    → first_error text name check xs ≡ none
    → All (λ a. check a ≡ none) xs
first_error_none text name check [] h = tt
first_error_none text name check (a ∷ as') h =
    let (q, rest) =
      error_free (check a) (first_error text name check as') (with_message text (name a)) h in
    (q, first_error_none text name check as' rest)

component_valid :
    (msp_id peer_id tx_id : Bytes) (app : App) (c : Component)
    → is_empty msp_id ≡ false
    → is_empty app.app_name ≡ false
    → is_empty app.version ≡ false
    → validate_component c ≡ none
    → IsEntryValid (
      new_peer_component_key msp_id peer_id app.app_name app.version c.name c.version,
      new_value tx_id c.config c.format c.tags,
    )
unfolding validate_entry validate_key validate_app validate_components validate_component
    new_peer_component_key new_value
component_valid msp_id peer_id tx_id app c m a v h = ground arith

components_valid :
    (msp_id tx_id : Bytes) (app : App) (cs : List Component) (m : KeyValueMap)
    → is_empty msp_id ≡ false
    → is_empty app.app_name ≡ false
    → is_empty app.version ≡ false
    → All (λ c. validate_component c ≡ none) cs
    → All IsEntryValid m
    → All IsEntryValid (populate_components msp_id app tx_id cs m)
unfolding populate_components new_component_key
components_valid msp_id tx_id app [] m ne a v hs hm = hm
components_valid msp_id tx_id app (c ∷ cs) m ne a v hs hm =
    components_valid msp_id tx_id app cs _ ne a v hs.1 (
      All-put IsEntryValid (new_component_key msp_id app.app_name app.version c.name c.version)
        (new_value tx_id c.config c.format c.tags) m
        (component_valid msp_id [] tx_id app c ne a v hs.0) hm)

peer_components_valid :
    (msp_id peer_id tx_id : Bytes) (app : App) (cs : List Component) (m : KeyValueMap)
    → is_empty msp_id ≡ false
    → is_empty app.app_name ≡ false
    → is_empty app.version ≡ false
    → All (λ c. validate_component c ≡ none) cs
    → All IsEntryValid m
    → All IsEntryValid (populate_peer_components msp_id peer_id app tx_id cs m)
unfolding populate_peer_components
peer_components_valid msp_id peer_id tx_id app [] m ne a v hs hm = hm
peer_components_valid msp_id peer_id tx_id app (c ∷ cs) m ne a v hs hm =
    peer_components_valid msp_id peer_id tx_id app cs _ ne a v hs.1 (
      All-put IsEntryValid
        (new_peer_component_key msp_id peer_id app.app_name app.version c.name c.version)
        (new_value tx_id c.config c.format c.tags) m
        (component_valid msp_id peer_id tx_id app c ne a v hs.0) hm)

own_valid :
    (msp_id peer_id tx_id : Bytes) (app : App)
    → is_empty msp_id ≡ false
    → is_empty app.config ≡ false
    → validate_application app ≡ none
    → IsEntryValid (
      new_peer_key msp_id peer_id app.app_name app.version,
      new_value tx_id app.config app.format app.tags,
    )
unfolding validate_entry validate_key validate_app validate_components validate_application
    new_peer_key new_peer_component_key new_value
own_valid msp_id peer_id tx_id app m c h = ground arith

-- what `App.Validate` has found when it returns no error
application_parts :
    (app : App)
    → validate_application app ≡ none
    → (is_empty app.app_name ≡ false)
      × (is_empty app.version ≡ false)
      × (is_empty app.config ≡ true
          → first_error "component in app failed to validate"
              (λ c. c.name ∷ app.app_name ∷ [])
              validate_component
              app.components
            ≡ none)
unfolding validate_application
application_parts app h = (ground arith, ground arith, λ c. ground arith)

app_valid :
    (msp_id tx_id : Bytes) (app : App) (m : KeyValueMap)
    → is_empty msp_id ≡ false
    → validate_application app ≡ none
    → IsPlain app
    → All IsEntryValid m
    → All IsEntryValid (populate_app msp_id app tx_id m)
unfolding populate_app new_app_key new_peer_key
app_valid msp_id tx_id app m ne h plain hm =
    let (a, v, parts) = application_parts app h in
    elim (Bool-cases (is_empty app.config)) [
      | inl c ↦ elim (Bool-cases (no_items app.components)) [
        | inl none_there ↦ rw (c, none_there) hm
        | inr some_there ↦
            rw (c, some_there)
              (components_valid msp_id tx_id app app.components m ne a v
                (first_error_none _ _ validate_component app.components (parts c)) hm)
      ]
      | inr c ↦
          let none_there : no_items app.components ≡ true = rw c at plain in
          rw (c, none_there) (All-put IsEntryValid _ _ m (own_valid msp_id [] tx_id app ne c h) hm)
    ]

peer_app_valid :
    (msp_id peer_id tx_id : Bytes) (app : App) (m : KeyValueMap)
    → is_empty msp_id ≡ false
    → validate_application app ≡ none
    → IsPlain app
    → All IsEntryValid m
    → All IsEntryValid (populate_peer_app msp_id peer_id app tx_id m)
unfolding populate_peer_app
peer_app_valid msp_id peer_id tx_id app m ne h plain hm =
    let (a, v, parts) = application_parts app h in
    elim (Bool-cases (is_empty app.config)) [
      | inl c ↦ elim (Bool-cases (no_items app.components)) [
        | inl none_there ↦ rw (c, none_there) hm
        | inr some_there ↦
            rw (c, some_there)
              (peer_components_valid msp_id peer_id tx_id app app.components m ne a v
                (first_error_none _ _ validate_component app.components (parts c)) hm)
      ]
      | inr c ↦
          let none_there : no_items app.components ≡ true = rw c at plain in
          rw (c, none_there)
            (All-put IsEntryValid _ _ m (own_valid msp_id peer_id tx_id app ne c h) hm)
    ]

apps_valid :
    (msp_id tx_id : Bytes) (apps : List App) (m : KeyValueMap)
    → is_empty msp_id ≡ false
    → All (λ app. validate_application app ≡ none) apps
    → All IsPlain apps
    → All IsEntryValid m
    → All IsEntryValid (populate_apps msp_id apps tx_id m)
unfolding populate_apps
apps_valid msp_id tx_id [] m ne hs ps hm = hm
apps_valid msp_id tx_id (app ∷ apps) m ne hs ps hm =
    apps_valid msp_id tx_id apps _ ne hs.1 ps.1 (app_valid msp_id tx_id app m ne hs.0 ps.0 hm)

peer_apps_valid :
    (msp_id peer_id tx_id : Bytes) (apps : List App) (m : KeyValueMap)
    → is_empty msp_id ≡ false
    → All (λ app. validate_application app ≡ none) apps
    → All IsPlain apps
    → All IsEntryValid m
    → All IsEntryValid (populate_peer_apps msp_id peer_id apps tx_id m)
unfolding populate_peer_apps
peer_apps_valid msp_id peer_id tx_id [] m ne hs ps hm = hm
peer_apps_valid msp_id peer_id tx_id (app ∷ apps) m ne hs ps hm =
    peer_apps_valid msp_id peer_id tx_id apps _ ne hs.1 ps.1
      (peer_app_valid msp_id peer_id tx_id app m ne hs.0 ps.0 hm)

peer_parts :
    (p : Peer)
    → validate_peer p ≡ none
    → first_error "app in peer failed to validate"
        (λ a. a.app_name ∷ p.peer_id ∷ [])
        validate_application
        p.apps
      ≡ none
unfolding validate_peer
peer_parts p h = ground arith

peers_valid :
    (msp_id tx_id : Bytes) (peers : List Peer) (m : KeyValueMap)
    → is_empty msp_id ≡ false
    → All (λ p. validate_peer p ≡ none) peers
    → All (λ p. All IsPlain p.apps) peers
    → All IsEntryValid m
    → All IsEntryValid (populate_peers msp_id peers tx_id m)
unfolding populate_peers
peers_valid msp_id tx_id [] m ne hs ps hm = hm
peers_valid msp_id tx_id (p ∷ peers) m ne hs ps hm = peers_valid msp_id tx_id peers _ ne hs.1 ps.1 (
    peer_apps_valid msp_id p.peer_id tx_id p.apps m ne
      (first_error_none _ _ validate_application p.apps (peer_parts p hs.0)) ps.0 hm)

for_msp-none :
    (text : String) (msp_id : Bytes) (o : Option Error) → for_msp text msp_id o ≡ none → o ≡ none
for_msp-none text msp_id none h = refl
for_msp-none text msp_id (some e) h = cc

config_parts :
    (cfg : Config)
    → validate_config cfg ≡ none
    → (is_empty cfg.msp_id ≡ false)
      × All (λ p. validate_peer p ≡ none) cfg.peers
      × All (λ a. validate_application a ≡ none) cfg.apps
unfolding validate_config
config_parts cfg h =
    let peers : Option Error =
      first_error "peer failed to validate" (λ p. p.peer_id ∷ []) validate_peer cfg.peers in
    let apps : Option Error =
      first_error "app failed to validate" (λ a. a.app_name ∷ []) validate_application cfg.apps in
    let found : (is_empty cfg.msp_id ≡ false)
        × (for_msp "peer config failed to validate" cfg.msp_id peers ≡ none)
        × (for_msp "app config failed to validate" cfg.msp_id apps ≡ none) =
      ground arith in
    (
      found.0,
      first_error_none _ _ validate_peer cfg.peers (for_msp-none _ _ _ found.1),
      first_error_none _ _ validate_application cfg.apps (for_msp-none _ _ _ found.2),
    )

-- For a configuration that passes `Validate`, and in which no application has both a configuration
-- of its own and components, the map of keys and values is made without error, and each of its
-- entries passes the registry's own validation.
pub new_key_value_map_valid :
    (cfg : Config) (tx_id : Bytes)
    → validate_config cfg ≡ none
    → All IsPlain cfg.apps
    → All (λ p. All IsPlain p.apps) cfg.peers
    → (m : KeyValueMap) × (new_key_value_map cfg tx_id ≡ ok m) × All IsEntryValid m
unfolding new_key_value_map populate
new_key_value_map_valid cfg tx_id h plain_apps plain_peers =
    let (ne, peers, apps) = config_parts cfg h in
    (
      populate cfg tx_id [],
      rw h refl,
      apps_valid cfg.msp_id tx_id cfg.apps _ ne apps plain_apps
          (peers_valid cfg.msp_id tx_id cfg.peers [] ne peers plain_peers tt),
    )
