-- ===== src/OffLedger/Store.antt =====
-- pkg/collections/offledger/storeprovider/olstore.go: the store of off-ledger collections.
use fabric_peer_ext.Prelude.{
  ℕ, ltb, ◌==◌, length, Bool, true, false, not, ◌&&◌, if◌then◌else◌, String, str_eq, Option, none,
  some, List, [], ◌∷◌,
}
use fabric_peer_ext.Prelude.Outcome.{Outcome, ok, err, panic, ◌>>=◌}
use fabric_peer_ext.Prelude.Assoc.{lookup, string_eq, nat_eq}
use fabric_peer_ext.Prelude.Bytes.{Bytes}
use fabric_peer_ext.OffLedger.{
  Error, text, Value, KeyValue, Databases, ExpiringCache, is_before, wrapped, put_cached,
  delete_cached, get_cached, get_multiple_cached,
}
use fabric_peer_ext.OffLedger.Config.{
  Key, ExpiringValue, CollConfig, CollTypeConfig, CollPvtRwSet, Peer, Packages,
  get_collection_config, before_save, get_expiration_time, bytes_of, create_batch, is_authorized,
}

module _ (dbs : Databases) (cache : ExpiringCache) where
  -- The databases and the cache of the store; no cache is a nil one.
  pub record Store : Type 0 where
    pub db : dbs.State
    pub cached : Option cache.State

  abbrev pub enabled_by : Option CollTypeConfig → Option cache.State → Option cache.State
  enabled_by none c = none
  enabled_by (some config) c = if config.enable_cache then c else none

  -- `cacheEnabledForType`, which gives the cache where it is enabled
  unfoldable pub cache_enabled_for_type : Peer → ℕ → Store → Option cache.State
  unfolding lookup
  cache_enabled_for_type p t s = enabled_by (lookup t p.coll_configs) s.cached

  abbrev pub update_entry :
      ℕ → String → String → KeyValue → Option Value → cache.State → cache.State
  update_entry now ns coll kv none c =
      delete_cached dbs cache c (record { namespace = ns; collection = coll; key = kv.key })
  update_entry now ns coll kv (some v) c =
      put_cached dbs cache c now (record { namespace = ns; collection = coll; key = kv.key }) v

  -- `updateCache`
  unfoldable pub update_cache : ℕ → String → String → List KeyValue → cache.State → cache.State
  unfolding delete_cached put_cached
  update_cache now ns coll [] c = c
  update_cache now ns coll (kv ∷ kvs) c =
      update_cache now ns coll kvs (update_entry now ns coll kv kv.value c)

  -- A call that may fail once it has changed the cache: the store behind it and the error, if any.
  abbrev pub Done : Type 0
  Done = Store × Outcome Error (Unit {0})

  abbrev pub put_in_db : Store → Outcome Error dbs.State → Done
  put_in_db s (ok db') = (record s { db = db' }, ok tt)
  put_in_db s (err e) = (s, err e)
  put_in_db s panic = (s, panic)

  -- `persist`
  unfoldable pub persist : Store → String → String → List KeyValue → Done
  persist s ns coll batch =
      put_in_db s (
        dbs.get_db ns coll >>= λ there. wrapped dbs "error persisting" (dbs.put s.db ns coll batch))

  abbrev pub with_part {ℓ} : {A : Type ℓ} → Store → Outcome Error A → (A → Done) → Done
  with_part s (ok a) next = next a
  with_part s (err e) next = (s, err e)
  with_part s panic next = (s, panic)

  abbrev pub with_updated : ℕ → String → String → List KeyValue → Store → Option cache.State → Store
  with_updated now ns coll batch s none = s
  with_updated now ns coll batch s (some c) = record s {
    cached = some (update_cache now ns coll batch c);
  }

  -- `persistColl`, with the configuration of the collection
  unfoldable pub persist_config :
      Peer → ℕ → String → String → CollPvtRwSet → CollConfig → Store → Done
  unfolding is_authorized get_expiration_time create_batch cache_enabled_for_type update_cache
      persist
  persist_config p now tx_id ns set c s = with_part s (is_authorized p ns c) λ authorized.
      if not authorized
      then (s, ok tt)
      else (with_part s (get_expiration_time p now c) λ expiry.
          with_part s (create_batch p tx_id ns c expiry set.writes) λ batch.
            let s' =
              with_updated now ns set.collection_name batch s
                (cache_enabled_for_type p c.collection_type s) in
            if not p.is_committer && ltb 0 c.maximum_peer_count
            then (s', ok tt)
            else persist s' ns set.collection_name batch)

  abbrev pub persist_found :
      Peer → ℕ → String → String → CollPvtRwSet → Option CollConfig → Store → Done
  persist_found p now tx_id ns set none s = (s, ok tt)
  persist_found p now tx_id ns set (some c) s = persist_config p now tx_id ns set c s

  -- `persistColl`
  unfoldable pub persist_coll : Peer → ℕ → String → String → Packages → Store → CollPvtRwSet → Done
  unfolding get_collection_config persist_config
  persist_coll p now tx_id ns pkgs s set =
      persist_found p now tx_id ns set (get_collection_config p pkgs ns set.collection_name) s

  -- the inner loop of `Persist`; the first error ends it
  unfoldable pub persist_colls :
      Peer → ℕ → String → Packages → String → List CollPvtRwSet → Store → Done
  unfolding persist_coll
  persist_colls p now tx_id pkgs ns [] s = (s, ok tt)
  persist_colls p now tx_id pkgs ns (set ∷ sets) s =
      let (s', done) = persist_coll p now tx_id ns pkgs s set in
      with_part s' done λ there. persist_colls p now tx_id pkgs ns sets s'

  -- `Persist`, with the decoded sets of the namespaces
  unfoldable pub persist_all :
      Peer → ℕ → String → Packages → List (String × List CollPvtRwSet) → Store → Done
  unfolding persist_colls
  persist_all p now tx_id pkgs [] s = (s, ok tt)
  persist_all p now tx_id pkgs ((ns, sets) ∷ rest) s =
      let (s', done) = persist_colls p now tx_id pkgs ns sets s in
      with_part s' done λ there. persist_all p now tx_id pkgs rest s'

  abbrev pub put_in_cache : ℕ → Key → Value → Store → Option cache.State → Store
  put_in_cache now k v s none = s
  put_in_cache now k v s (some c) = record s {
    cached = some (
        put_cached dbs cache c now
          (record { namespace = k.namespace; collection = k.collection; key = k.key }) v);
  }

  abbrev pub put_saved : Peer → ℕ → CollConfig → Store → Key × ExpiringValue → Done
  put_saved p now c s (k, ev) =
      let v : Value = record {
        value = bytes_of ev.value;
        tx_id = k.endorsed_at_tx_id;
        expiry = ev.expiry;
      } in
      if is_before ev.expiry now
      then (s, ok tt)
      else (with_part s (dbs.get_db k.namespace k.collection) λ there.
          with_part s
            (dbs.put s.db k.namespace k.collection (record { key = k.key; value = some v } ∷ []))
            λ db'.
              let s' = record s { db = db' } in
              (put_in_cache now k v s' (cache_enabled_for_type p c.collection_type s'), ok tt))

  abbrev pub has_value : Option Bytes → Bool
  has_value none = false
  has_value (some b) = true

  -- `PutData`
  unfoldable pub put_data : Peer → ℕ → CollConfig → Key → ExpiringValue → Store → Done
  unfolding before_save cache_enabled_for_type put_cached
  put_data p now c k v s =
      if not (has_value v.value)
      then (s, err (text "attempt to put nil value for key"))
      else if not (str_eq c.name k.collection)
      then (s, err (text "invalid collection config for key"))
      else (with_part s (before_save p c k v) (put_saved p now c s))

  -- What is returned to a transaction: nothing of what it stored itself.
  abbrev pub to_reader : String → Option Value → Option ExpiringValue
  to_reader tx_id none = none
  to_reader tx_id (some v) =
      if str_eq v.tx_id tx_id
      then none
      else some (record { value = some v.value; expiry = v.expiry })

  -- `cacheEnabled`
  unfoldable pub cache_enabled : Peer → String → String → Store → Outcome Error (Option cache.State)
  unfolding cache_enabled_for_type
  cache_enabled p ns coll s = do
    c ← p.config_of ns coll
    ok (cache_enabled_for_type p c.collection_type s)

  abbrev pub map_ok {ℓ κ} : {A : Type ℓ} {B : Type κ} → (A → B) → Outcome Error A → Outcome Error B
  map_ok f (ok a) = ok (f a)
  map_ok f (err e) = err e
  map_ok f panic = panic

  abbrev pub Fetched {ℓ} : Type ℓ → Type ℓ
  Fetched A = Store × Outcome Error A

  abbrev pub get_by_cache :
      ℕ → Key → Store → Outcome Error (Option cache.State) → Fetched (Option Value)
  get_by_cache now k s (ok none) = (
    s,
    wrapped dbs "error getting database" (dbs.get_db k.namespace k.collection) >>= λ there.
        wrapped dbs "error loading value" (dbs.get s.db k.namespace k.collection k.key),
  )
  get_by_cache now k s (ok (some c)) =
      let (c', v) =
        get_cached dbs cache s.db c now
          (record { namespace = k.namespace; collection = k.collection; key = k.key }) in
      (record s { cached = some c' }, v)
  get_by_cache now k s (err e) = (s, err e)
  get_by_cache now k s panic = (s, panic)

  -- `GetData`
  unfoldable pub get_data : Peer → ℕ → Key → Store → Fetched (Option ExpiringValue)
  unfolding cache_enabled get_cached
  get_data p now k s =
      let (s', v) = get_by_cache now k s (cache_enabled p k.namespace k.collection s) in
      (s', map_ok (to_reader k.endorsed_at_tx_id) v)

  abbrev pub get_multiple_by_cache :
      ℕ
      → String
      → String
      → List String
      → Store
      → Outcome Error (Option cache.State)
      → Fetched (List (Option Value))
  get_multiple_by_cache now ns coll keys s (ok none) = (
    s,
    wrapped dbs "error getting database" (dbs.get_db ns coll) >>= λ there.
        wrapped dbs "error loading values" (dbs.get_multiple s.db ns coll keys),
  )
  get_multiple_by_cache now ns coll keys s (ok (some c)) =
      let (c', vs) = get_multiple_cached dbs cache s.db now ns coll keys c in
      (record s { cached = some c' }, vs)
  get_multiple_by_cache now ns coll keys s (err e) = (s, err e)
  get_multiple_by_cache now ns coll keys s panic = (s, panic)

  unfoldable pub to_readers : String → List (Option Value) → List (Option ExpiringValue)
  to_readers tx_id [] = []
  to_readers tx_id (v ∷ vs) = to_reader tx_id v ∷ to_readers tx_id vs

  abbrev pub all_returned :
      String → ℕ → List (Option Value) → Outcome Error (List (Option ExpiringValue))
  all_returned tx_id wanted vs =
      if not (length vs == wanted)
      then err (text "not all of the values were returned for the set of keys")
      else ok (to_readers tx_id vs)

  -- `GetDataMultipleKeys`
  unfoldable pub get_data_multiple_keys :
      Peer
      → ℕ
      → String
      → String
      → String
      → List String
      → Store
      → Fetched (List (Option ExpiringValue))
  unfolding cache_enabled get_multiple_cached to_readers
  get_data_multiple_keys p now tx_id ns coll keys s =
      let (s', vs) = get_multiple_by_cache now ns coll keys s (cache_enabled p ns coll s) in
      (s', vs >>= all_returned tx_id (length keys))
