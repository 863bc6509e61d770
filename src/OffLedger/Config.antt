-- ===== src/OffLedger/Config.antt =====
-- pkg/collections/offledger/storeprovider/olstore.go: the configuration of off-ledger collections and
-- the entries that are made of the writes to one.
use fabric_peer_ext.Prelude.{
  ℕ, ◌+◌, Bool, false, not, ◌||◌, if◌then◌else◌, String, str_eq, Option, none, some, List, [], ◌∷◌,
}
use fabric_peer_ext.Prelude.Outcome.{Outcome, ok, err, panic, ◌>>=◌, push_front}
use fabric_peer_ext.Prelude.Assoc.{lookup, string_eq, nat_eq}
use fabric_peer_ext.Prelude.Bytes.{Bytes}
use fabric_peer_ext.OffLedger.{Error, with_message, KeyValue}

-- `storeapi.Key` and `storeapi.ExpiringValue`; a nil value is `none`
pub record Key : Type 0 where
  pub endorsed_at_tx_id : String
  pub namespace : String
  pub collection : String
  pub key : String

pub record ExpiringValue : Type 0 where
  pub value : Option Bytes
  pub expiry : Option ℕ

-- What is read of a collection's configuration; `collection_type` is the number of its type.
pub record CollConfig : Type 0 where
  pub name : String
  pub collection_type : ℕ
  pub time_to_live : String
  pub maximum_peer_count : ℕ

-- The decorator of a type of collections.
pub record Decorator : Type 0 where
  pub before_save : Key → ExpiringValue → Outcome Error (Key × ExpiringValue)
  pub before_load : Key → Outcome Error Key

-- `collTypeConfig`
pub record CollTypeConfig : Type 0 where
  pub decorator : Option Decorator
  pub enable_cache : Bool

-- A write to a private collection, and the writes to one collection.
pub record KvWrite : Type 0 where
  pub key : String
  pub is_delete : Bool
  pub value : Option Bytes

pub record CollPvtRwSet : Type 0 where
  pub collection_name : String
  pub writes : List KvWrite

-- The configuration of the store: the types of collections that it supports, the configuration of a
-- collection, the organizations of its policy, the MSP of the peer, its role, and the durations of
-- the standard library's `time.ParseDuration`.
pub record Peer : Type 0 where
  pub coll_configs : List (ℕ × CollTypeConfig)
  pub config_of : String → String → Outcome Error CollConfig
  pub member_orgs : String → CollConfig → Outcome Error (List String)
  pub local_msp_id : Outcome Error String
  pub is_committer : Bool
  pub parse_duration : String → Outcome Error ℕ

-- `getCollectionConfig`, the loop over the configurations of the package; nil ones are left out
unfoldable pub config_named : Peer → List (Option CollConfig) → String → Option CollConfig
unfolding lookup
config_named p [] name = none
config_named p (none ∷ cs) name = config_named p cs name
config_named p (some c ∷ cs) name =
    let rest = config_named p cs name in
    if not (str_eq c.name name)
    then rest
    else elim (lookup c.collection_type p.coll_configs) [ none ↦ rest | some t ↦ some c ]

-- the packages of a transaction, by namespace
abbrev pub Packages : Type 0
Packages = List (String × List (Option CollConfig))

unfoldable pub get_collection_config : Peer → Packages → String → String → Option CollConfig
unfolding config_named lookup
get_collection_config p pkgs ns name = elim (lookup ns pkgs) [
  | none ↦ none
  | some cs ↦ config_named p cs name
]

abbrev pub save_with :
    Option CollTypeConfig → Key → ExpiringValue → Outcome Error (Key × ExpiringValue)
save_with none k v = ok (k, v)
save_with (some t) k v = elim t.decorator [ none ↦ ok (k, v) | some d ↦ d.before_save k v ]

-- `beforeSave`
unfoldable pub before_save :
    Peer → CollConfig → Key → ExpiringValue → Outcome Error (Key × ExpiringValue)
unfolding lookup
before_save p c k v = save_with (lookup c.collection_type p.coll_configs) k v

abbrev pub load_with : Option CollTypeConfig → Key → Outcome Error Key
load_with none k = ok k
load_with (some t) k = elim t.decorator [ none ↦ ok k | some d ↦ d.before_load k ]

-- `beforeLoad`
unfoldable pub before_load : Peer → CollConfig → Key → Outcome Error Key
unfolding lookup
before_load p c k = load_with (lookup c.collection_type p.coll_configs) k

-- `getExpirationTime`
unfoldable pub get_expiration_time : Peer → ℕ → CollConfig → Outcome Error (Option ℕ)
get_expiration_time p now c =
    if str_eq c.time_to_live "" then ok none else elim (p.parse_duration c.time_to_live) [
      | ok ttl ↦ ok (some (now + ttl))
      | err e ↦ err (with_message "error parsing time-to-live for collection" e)
      | panic ↦ panic
    ]

-- a nil value has the length 0, as an empty one has
abbrev pub bytes_of : Option Bytes → Bytes
bytes_of none = []
bytes_of (some b) = b

-- `newKeyValue`
unfoldable pub new_key_value :
    Peer → String → String → CollConfig → Option ℕ → KvWrite → Outcome Error KeyValue
unfolding before_load before_save
new_key_value p tx_id ns c expiry w =
    let key : Key = record {
      endorsed_at_tx_id = tx_id;
      namespace = ns;
      collection = c.name;
      key = w.key;
    } in
    let deleted : Outcome Error KeyValue = (do
      d_key ← before_load p c key
      ok (record { key = d_key.key; value = none })) in
    let saved : Outcome Error KeyValue = (do
      kv ← before_save p c key (record { value = w.value; expiry = expiry })
      ok (record {
        key = kv.0.key;
        value = some (record { value = bytes_of kv.1.value; tx_id = tx_id; expiry = kv.1.expiry });
      })) in
    if w.is_delete then deleted else saved

-- `createBatch`
unfoldable pub create_batch :
    Peer → String → String → CollConfig → Option ℕ → List KvWrite → Outcome Error (List KeyValue)
unfolding new_key_value
create_batch p tx_id ns c expiry [] = ok []
create_batch p tx_id ns c expiry (w ∷ ws) = do
  kv ← new_key_value p tx_id ns c expiry w
  push_front kv (create_batch p tx_id ns c expiry ws)

unfoldable pub has_org : List String → String → Bool
has_org [] org = false
has_org (o ∷ os) org = str_eq o org || has_org os org

-- `isAuthorized`
unfoldable pub is_authorized : Peer → String → CollConfig → Outcome Error Bool
unfolding has_org
is_authorized p ns c = do orgs ← p.member_orgs ns c; local ← p.local_msp_id; ok (has_org orgs local)
