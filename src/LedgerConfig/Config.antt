-- ===== src/LedgerConfig/Config.antt =====
-- pkg/config/ledgerconfig/config/keyvalue.go and config.go: keys, values and configurations, and
-- their validation.
use fabric_peer_ext.Prelude.{
  Bool, true, false, not, ◌&&◌, if◌then◌else◌, String, Option, none, some, List, [], ◌∷◌,
}
use fabric_peer_ext.Prelude.Assoc.{Eq}
use fabric_peer_ext.Prelude.Bytes.{Bytes, bytes_beq, bytes_beq_iff}
use fabric_peer_ext.Prelude.{◌≡◌, ◌↔◌, arith}

pub record Key : Type 0 where
  pub msp_id : Bytes
  pub peer_id : Bytes
  pub app_name : Bytes
  pub app_version : Bytes
  pub component_name : Bytes
  pub component_version : Bytes

pub record Value : Type 0 where
  pub tx_id : Bytes
  pub format : Bytes
  pub config : Bytes
  pub tags : List Bytes

pub record KeyValue : Type 0 where
  pub key : Key
  pub value : Option Value

-- The errors by their texts; a text may be put before an error, with the values in it.
pub data Error : Type 0 where
  message : String → List Bytes → Error
  with_message : String → List Bytes → Error → Error

abbrev pub is_empty : Bytes → Bool
is_empty [] = true
is_empty (b ∷ bs) = false

-- one check after the other, up to the first that fails
infixr 20 ◌then_check◌
abbrev pub ◌then_check◌ : Option Error → Option Error → Option Error
none then_check next = next
(some e) then_check next = some e

abbrev pub fail_if : Bool → String → Option Error
fail_if b text = if b then some (message text []) else none

unfoldable pub validate_app : Key → Option Error
validate_app k =
    fail_if (is_empty k.peer_id && is_empty k.app_name)
      "one of the fields [PeerID] or [Name] is required"
    then_check (if not (is_empty k.peer_id) && is_empty k.app_name
        then some (message "field [Name] is required for PeerID" (k.peer_id ∷ []))
        else none)
    then_check fail_if (is_empty k.app_version) "field [AppVersion] is required"

unfoldable pub validate_components : Key → Option Error
validate_components k =
    fail_if (not (is_empty k.component_name) && is_empty k.component_version)
      "field [ComponentVersion] is required"
    then_check fail_if (is_empty k.component_name && not (is_empty k.component_version))
        "field [ComponentName] is required"

-- `Key.Validate`
unfoldable pub validate_key : Key → Option Error
unfolding validate_app validate_components
validate_key k =
    fail_if (is_empty k.msp_id) "field [MspID] is required"
    then_check validate_app k
    then_check validate_components k

unfoldable pub new_peer_component_key : Bytes → Bytes → Bytes → Bytes → Bytes → Bytes → Key
new_peer_component_key msp_id peer_id app_name app_version component_name component_version =
    record {
      msp_id = msp_id;
      peer_id = peer_id;
      app_name = app_name;
      app_version = app_version;
      component_name = component_name;
      component_version = component_version;
    }

unfoldable pub new_peer_key : Bytes → Bytes → Bytes → Bytes → Key
unfolding new_peer_component_key
new_peer_key msp_id peer_id app_name app_version =
    new_peer_component_key msp_id peer_id app_name app_version [] []

unfoldable pub new_app_key : Bytes → Bytes → Bytes → Key
unfolding new_peer_component_key
new_app_key msp_id app_name app_version =
    new_peer_component_key msp_id [] app_name app_version [] []

unfoldable pub new_component_key : Bytes → Bytes → Bytes → Bytes → Bytes → Key
unfolding new_peer_component_key
new_component_key msp_id app_name app_version component_name component_version =
    new_peer_component_key msp_id [] app_name app_version component_name component_version

unfoldable pub new_value : Bytes → Bytes → Bytes → List Bytes → Value
new_value tx_id config format tags = record {
  tx_id = tx_id;
  format = format;
  config = config;
  tags = tags;
}

pub record Component : Type 0 where
  pub name : Bytes
  pub version : Bytes
  pub format : Bytes
  pub config : Bytes
  pub tags : List Bytes

pub record App : Type 0 where
  pub app_name : Bytes
  pub version : Bytes
  pub format : Bytes
  pub config : Bytes
  pub tags : List Bytes
  pub components : List Component

pub record Peer : Type 0 where
  pub peer_id : Bytes
  pub apps : List App

pub record Config : Type 0 where
  pub msp_id : Bytes
  pub peers : List Peer
  pub apps : List App

-- a loop that returns the first error, with a text and a name before it
abbrev pub first_error {ℓ} :
    {A : Type ℓ} → String → (A → List Bytes) → (A → Option Error) → List A → Option Error
first_error text name check [] = none
first_error text name check (a ∷ as') =
    let rest = first_error text name check as' in
    elim (check a) [ none ↦ rest | some e ↦ some (with_message text (name a) e) ]

abbrev pub no_items {ℓ} : {A : Type ℓ} → List A → Bool
no_items [] = true
no_items (a ∷ as') = false

unfoldable pub validate_component : Component → Option Error
validate_component c =
    fail_if (is_empty c.name) "field [Name] is required"
    then_check fail_if (is_empty c.config) "field [Config] is required"
    then_check fail_if (is_empty c.format) "field [Format] is required"
    then_check fail_if (is_empty c.version) "field [Version] is required"

-- `App.Validate`: the components are looked at only where the application has no configuration.
unfoldable pub validate_application : App → Option Error
unfolding validate_component
validate_application app =
    fail_if (is_empty app.app_name) "field [Name] is required"
    then_check fail_if (is_empty app.config && no_items app.components)
        "either one of the fields [Config] or [Components] is required"
    then_check fail_if (is_empty app.version) "field [Version] is required"
    then_check (if not (is_empty app.config)
        then fail_if (is_empty app.format) "field [Format] is required"
        else first_error "component in app failed to validate" (λ c. c.name ∷ app.app_name ∷ [])
            validate_component app.components)

unfoldable pub validate_peer : Peer → Option Error
unfolding validate_application
validate_peer p =
    fail_if (is_empty p.peer_id) "field [PeerID] is required"
    then_check fail_if (no_items p.apps) "field [Apps] is required"
    then_check first_error "app in peer failed to validate" (λ a. a.app_name ∷ p.peer_id ∷ [])
        validate_application p.apps

-- `validatePeers` or `validateApps` with the text that `Validate` puts before its error
abbrev pub for_msp : String → Bytes → Option Error → Option Error
for_msp text msp_id none = none
for_msp text msp_id (some e) = some (with_message text (msp_id ∷ []) e)

-- `Config.Validate`
unfoldable pub validate_config : Config → Option Error
unfolding validate_peer validate_application
validate_config c =
    fail_if (is_empty c.msp_id) "field [MspID] is required"
    then_check fail_if (no_items c.peers && no_items c.apps)
        "either one of the fields [Peers] or [Apps] is required"
    then_check for_msp "peer config failed to validate" c.msp_id
        (first_error "peer failed to validate" (λ p. p.peer_id ∷ []) validate_peer c.peers)
    then_check for_msp "app config failed to validate" c.msp_id
        (first_error "app failed to validate" (λ a. a.app_name ∷ []) validate_application c.apps)

-- equality of keys, as Go compares the structs
abbrev pub key_beq : Key → Key → Bool
key_beq j k =
    bytes_beq j.msp_id k.msp_id
    && bytes_beq j.peer_id k.peer_id
    && bytes_beq j.app_name k.app_name
    && bytes_beq j.app_version k.app_version
    && bytes_beq j.component_name k.component_name
    && bytes_beq j.component_version k.component_version

pub key_beq_iff : (j k : Key) → (key_beq j k ≡ true) ↔ (j ≡ k)
key_beq_iff j k = ground (
  arith,
  bytes_beq_iff j.msp_id k.msp_id,
  bytes_beq_iff j.peer_id k.peer_id,
  bytes_beq_iff j.app_name k.app_name,
  bytes_beq_iff j.app_version k.app_version,
  bytes_beq_iff j.component_name k.component_name,
  bytes_beq_iff j.component_version k.component_version,
)

instance abbrev pub key_eq : Eq Key
key_eq = record { beq = key_beq; beq_iff = key_beq_iff }
