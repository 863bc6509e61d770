-- ===== src/OffLedger/Tests.antt =====
-- Tests of pkg/collections/offledger/storeprovider/olstore.go with databases and a cache in memory.
use fabric_peer_ext.Prelude.{
  ℕ, true, false, ◌&&◌, if◌then◌else◌, String, str_eq, eq_iff, Option, none, some, List, [], ◌∷◌,
  ◌≡◌, refl, sym,
}
use fabric_peer_ext.Prelude.Outcome.{ok}
use fabric_peer_ext.Prelude.Assoc.{lookup, nat_eq, string_eq}
use fabric_peer_ext.OffLedger.{Value, KeyValue, CacheKey, key_beq, Databases, ExpiringCache}
use fabric_peer_ext.OffLedger.Config.{
  Key, ExpiringValue, CollConfig, Peer, Packages, CollPvtRwSet, before_save, get_collection_config,
}
use fabric_peer_ext.OffLedger.Store.{cache_enabled_for_type, put_data, persist_coll}
use fabric_peer_ext.OffLedger.Laws.{
  Held, value_of, Reads, get_data-put_data, MayChange, persist_coll_changes,
}

abbrev Tables : Type 0
Tables = String → String → String → Option Value

-- What a batch has for a key, if anything: its last entry.
abbrev last_of : String → List KeyValue → Option (Option Value)
last_of k [] = none
last_of k (kv ∷ kvs) = elim (last_of k kvs) [
  | none ↦ if str_eq kv.key k then some kv.value else none
  | some v ↦ some v
]

abbrev or_old : Option Value → Option (Option Value) → Option Value
or_old old none = old
or_old old (some v) = v

abbrev write_tables : Tables → String → String → List KeyValue → Tables
write_tables s ns coll batch n c k =
    if str_eq ns n && str_eq coll c then or_old (s n c k) (last_of k batch) else s n c k

same_text : (t : String) → str_eq t t ≡ true
same_text t = (eq_iff t t).1 refl

abbrev gets : Tables → String → String → List String → List (Option Value)
gets s ns coll [] = []
gets s ns coll (k ∷ ks) = s ns coll k ∷ gets s ns coll ks

abbrev tables : Databases
tables = record {
  State = Tables;
  get_db = λ ns coll. ok tt;
  put = λ s ns coll batch. ok (write_tables s ns coll batch);
  get = λ s ns coll k. ok (s ns coll k);
  get_multiple = λ s ns coll ks. ok (gets s ns coll ks);
}

abbrev Entries : Type 0
Entries = CacheKey → Option (Option Value)

some_inj : {A : Type 0} {a b : A} → some a ≡ some b → a ≡ b
some_inj h = cc

entries_law :
    (c : Entries) (now : ℕ) (k : CacheKey) (v w : Option Value) (expiry : Option ℕ)
    → (if key_beq k k then some v else c k) ≡ some w
    → w ≡ v
entries_law c now k v w expiry h =
    sym (some_inj (rw (same_text k.namespace, same_text k.collection, same_text k.key) at h))

abbrev entries : ExpiringCache
entries = record {
  State = Entries;
  held = λ c now k. c k;
  touch = λ c k. c;
  set = λ c k v expiry j. if key_beq k j then some v else c j;
  remove = λ c k j. if key_beq k j then none else c j;
  held_set = entries_law;
}

abbrev config : CollConfig
config = record { name = "coll"; collection_type = 2; time_to_live = ""; maximum_peer_count = 1 }

abbrev peer : Peer
peer = record {
  coll_configs = (2, record { decorator = none; enable_cache = true }) ∷ [];
  config_of = λ ns coll. ok config;
  member_orgs = λ ns c. ok ("org1" ∷ []);
  local_msp_id = ok "org1";
  is_committer = false;
  parse_duration = λ t. ok 10;
}

abbrev empty_store : Held tables entries
empty_store = record { db = λ n c k. none; cached = some (λ j. none) }

abbrev key : Key
key = record { endorsed_at_tx_id = "tx1"; namespace = "ns"; collection = "coll"; key = "k" }

abbrev value : ExpiringValue
value = record { value = some (1 ∷ []); expiry = some 7 }

abbrev after_put : Held tables entries
after_put = (put_data tables entries peer 5 config key value empty_store).0

put_ends : put_data tables entries peer 5 config key value empty_store ≡ (after_put, ok tt)
unfolding put_data lookup
put_ends = refl

saved_as_is : before_save peer config key value ≡ ok (key, value)
unfolding before_save lookup
saved_as_is = refl

get_data-put_data_example :
    (tables.put empty_store.db "ns" "coll"
        (record { key = "k"; value = some (value_of tables entries key value) } ∷ [])
      ≡ ok after_put.db)
    × Reads tables entries peer 6 key value "tx2" after_put
        (cache_enabled_for_type tables entries peer 2 empty_store)
get_data-put_data_example =
    get_data-put_data tables entries peer 5 6 config key value key value "tx2" empty_store after_put
      put_ends saved_as_is refl refl

abbrev written : CollPvtRwSet
written = record {
  collection_name = "coll";
  writes = record { key = "k"; is_delete = false; value = some (1 ∷ []) } ∷ [];
}

abbrev packages : Packages
packages = ("ns", none ∷ some config ∷ []) ∷ []

-- the peer is no committer, so the committer stores the value
deferred_test :
    (persist_coll tables entries peer 5 "tx1" "ns" packages empty_store written).0.db "ns" "coll"
      "k"
    ≡ none
unfolding persist_coll lookup
deferred_test = refl

persist_coll_changes_example :
    MayChange tables entries peer 5 "tx1" "ns" written empty_store
      (persist_coll tables entries peer 5 "tx1" "ns" packages empty_store written).0
      (get_collection_config peer packages "ns" "coll")
persist_coll_changes_example =
    persist_coll_changes tables entries peer 5 "tx1" "ns" written packages empty_store
