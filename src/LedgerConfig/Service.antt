-- ===== src/LedgerConfig/Service.antt =====
-- pkg/config/ledgerconfig/service/service.go: the configurations of a channel behind a cache that
-- the writes of committed blocks keep up to date.
use fabric_peer_ext.Prelude.{Bool, not, if◌then◌else◌, Option, none, some, List, [], ◌∷◌}
use fabric_peer_ext.Prelude.Outcome.{Outcome, ok, err, panic, ◌>>=◌}
use fabric_peer_ext.Prelude.Bytes.{Bytes}
use fabric_peer_ext.LedgerConfig.Config.{Key, Value, KeyValue, Error, message}
use fabric_peer_ext.Prelude.Assoc.{lookup, put, remove}
use fabric_peer_ext.LedgerConfig.Config.{validate_key, key_eq}
use fabric_peer_ext.LedgerConfig.Keys.{unmarshal_key}
use fabric_peer_ext.LedgerConfig.Criteria.{Criteria, validate_criteria}
use fabric_peer_ext.LedgerConfig.Manager.{query_public, refused_with, StateStore, Json, get_value}

-- What a block writes in the namespace of the configurations.
pub record KvWrite : Type 0 where
  pub key : Bytes
  pub value : Bytes
  pub is_delete : Bool

abbrev pub Cache : Type 0
Cache = List (Key × Value)

-- `ErrConfigNotFound`
abbrev pub config_not_found : Error
config_not_found = message "config not found" []

module _ (store : StateStore) (json : Json) where
  open store use {State}

  abbrev pub found : Option Value → Outcome Error Value
  found none = err config_not_found
  found (some v) = ok v

  -- `load`
  unfoldable pub load : State → Key → Outcome Error Value
  load s k = do v ← get_value store json s k; found v

  abbrev pub loaded : Cache → Key → Outcome Error Value → Cache × Outcome Error Value
  loaded c k (ok v) = (put k v c, ok v)
  loaded c k (err e) = (c, err e)
  loaded c k panic = (c, panic)

  abbrev pub cached_or_loaded : Cache → State → Key → Option Value → Cache × Outcome Error Value
  cached_or_loaded c s k (some v) = (c, ok v)
  cached_or_loaded c s k none = loaded c k (load s k)

  abbrev pub get_valid : Cache → State → Key → Option Error → Cache × Outcome Error Value
  get_valid c s k (some e) = (c, err e)
  get_valid c s k none = cached_or_loaded c s k (lookup k c)

  -- `ConfigService.Get`; the cache loads what it does not hold
  unfoldable pub get : Cache → State → Key → Cache × Outcome Error Value
  get c s k = get_valid c s k (validate_key k)

  -- the cache, what is sent to the update handlers, and the error
  abbrev pub Handled : Type 0
  Handled = Cache × Option KeyValue × Option Error

  abbrev pub set_value : Cache → Key → Outcome Error Value → Handled
  set_value c k (ok v) = (put k v c, some (record { key = k; value = some v }), none)
  set_value c k (err e) = (c, none, some e)
  set_value c k panic = (c, none, none)

  abbrev pub handle_parsed : Cache → KvWrite → Outcome Error Key → Handled
  handle_parsed c w (ok k) =
      if w.is_delete
      then (remove k c, some (record { key = k; value = none }), none)
      else set_value c k (json.unmarshal w.value)
  handle_parsed c w (err e) = (c, none, none)
  handle_parsed c w panic = (c, none, none)

  -- `handleKeyUpdate`
  unfoldable pub handle_key_update : Cache → KvWrite → Handled
  handle_key_update c w = handle_parsed c w (unmarshal_key w.key)

  -- the write handler that `New` registers
  unfoldable pub on_write : Cache → Bool → KvWrite → Handled
  unfolding handle_key_update
  on_write c in_config_ns w = if not in_config_ns then (c, none, none) else handle_key_update c w

-- `notify`: the handlers that are called, in their order
unfoldable pub notify {ℓ} : {H : Type ℓ} → List H → KeyValue → List (H × KeyValue)
notify [] kv = []
notify (h ∷ hs) kv = (h, kv) ∷ notify hs kv

module _ (store : StateStore) (json : Json) where
  open store use {State}

  -- `ConfigService.Query`
  unfoldable pub query_service : State → Criteria → Outcome Error (List KeyValue)
  query_service s c = do valid ← refused_with (validate_criteria c); query_public store json s c
