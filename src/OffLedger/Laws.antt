-- ===== src/OffLedger/Laws.antt =====
-- What pkg/collections/offledger/storeprovider/olstore.go stores, for whom, and who reads it.
use fabric_peer_ext.Prelude.{
  ℕ, ltb, Bool, true, false, not, ◌&&◌, if◌then◌else◌, String, str_eq, Option, none, some, List, [],
  ◌∷◌, ◌≡◌, refl, sym, ap, ◌∙◌, ◌⊎◌, inl, inr, Bool-cases, Option-cases, subst,
}
use fabric_peer_ext.Prelude.Outcome.{Outcome, ok, err, panic, ◌>>=◌}
use fabric_peer_ext.Prelude.Assoc.{lookup, nat_eq}
use fabric_peer_ext.OffLedger.{
  Error, Value, KeyValue, CacheKey, Databases, ExpiringCache, is_before, wrapped, load, put_cached,
  get_cached, keep_loaded,
}
use fabric_peer_ext.OffLedger.Config.{
  Key, ExpiringValue, CollConfig, CollTypeConfig, Peer, Packages, CollPvtRwSet, bytes_of,
  before_save, get_collection_config, is_authorized, get_expiration_time, create_batch,
}
use fabric_peer_ext.OffLedger.Store.{
  Store, cache_enabled_for_type, enabled_by, persist_found, cache_enabled, persist, persist_config,
  persist_coll, with_part, with_updated, put_in_cache, put_saved, put_data, has_value, to_reader,
  get_data, map_ok,
}

module _ (dbs : Databases) (cache : ExpiringCache) where
  abbrev pub Held : Type 0
  Held = Store dbs cache

  -- A call that came to its end.
  with_part_done :
      {A : Type 0} (s : Held) (m : Outcome Error A) (next : A → Held × Outcome Error (Unit {0}))
      (s' : Held)
      → with_part dbs cache s m next ≡ (s', ok tt)
      → (a : A) × (m ≡ ok a) × (next a ≡ (s', ok tt))
  with_part_done s (ok a) next s' h = (a, refl, h)
  with_part_done s (err e) next s' h = cc (ap (λ x. x.1) h)
  with_part_done s panic next s' h = cc (ap (λ x. x.1) h)

  enabled_by_more :
      (o : Option CollTypeConfig) (old : Option cache.State) (c x : cache.State)
      → enabled_by dbs cache o old ≡ some c
      → enabled_by dbs cache o (some x) ≡ some x
  enabled_by_more none old c x h = cc
  enabled_by_more (some config) old c x h = elim (Bool-cases config.enable_cache) [
    | inl on ↦ rw on refl
    | inr off ↦ cc (rw off at h)
  ]

  enabled_set :
      (p : Peer) (t : ℕ) (s : Held) (c x : cache.State) (db : dbs.State)
      → cache_enabled_for_type dbs cache p t s ≡ some c
      → cache_enabled_for_type dbs cache p t (record { db = db; cached = some x }) ≡ some x
  unfolding cache_enabled_for_type
  enabled_set p t s c x db h = enabled_by_more (lookup t p.coll_configs) s.cached c x h

  abbrev pub value_of : Key → ExpiringValue → Value
  value_of k v = record { value = bytes_of v.value; tx_id = k.endorsed_at_tx_id; expiry = v.expiry }

  abbrev cache_key : Key → CacheKey
  cache_key k = record { namespace = k.namespace; collection = k.collection; key = k.key }

  -- What a transaction reads of the key.
  abbrev pub read_by : Peer → ℕ → Key → String → Held → Outcome Error (Option ExpiringValue)
  read_by p later k tx_id s =
      (get_data dbs cache p later (record k { endorsed_at_tx_id = tx_id }) s).1

  -- What it is to see of a value that was saved.
  abbrev pub seen_by : Key → ExpiringValue → String → Option ExpiringValue
  seen_by k v tx_id =
      if str_eq k.endorsed_at_tx_id tx_id
      then none
      else some (record { value = some (bytes_of v.value); expiry = v.expiry })

  -- What it is to see of what the database has for the key: with a cache, if it has not expired.
  abbrev pub of_database : Key → String → dbs.State → Outcome Error (Option ExpiringValue)
  of_database k tx_id db = map_ok dbs cache (to_reader dbs cache tx_id) (
      wrapped dbs "error getting database" (dbs.get_db k.namespace k.collection) >>= λ there.
      wrapped dbs "error loading value" (dbs.get db k.namespace k.collection k.key))

  abbrev pub of_loaded : ℕ → Key → String → dbs.State → Outcome Error (Option ExpiringValue)
  of_loaded later k tx_id db =
      map_ok dbs cache (to_reader dbs cache tx_id) (load dbs db later (cache_key k))

  -- A read gives what the database has where there is no cache; with one, it gives what was saved or
  -- what is loaded.
  abbrev pub Reads : Peer → ℕ → Key → ExpiringValue → String → Held → Option cache.State → Type 0
  Reads p later k v tx_id s none = read_by p later k tx_id s ≡ of_database k tx_id s.db
  Reads p later k v tx_id s (some st) =
      (read_by p later k tx_id s ≡ ok (seen_by k v tx_id))
      ⊎ (read_by p later k tx_id s ≡ of_loaded later k tx_id s.db)

  -- The value last set, or what the loader finds, is what a read of the cache gives.
  from_cache :
      (db : dbs.State) (c : cache.State) (later : ℕ) (k : CacheKey) (v : Value) (expiry : Option ℕ)
      → ((get_cached dbs cache db (cache.set c k (some v) expiry) later k).1 ≡ ok (some v))
        ⊎ ((get_cached dbs cache db (cache.set c k (some v) expiry) later k).1
            ≡ load dbs db later k)
  unfolding get_cached
  from_cache db c later k v expiry =
      let c' = cache.set c k (some v) expiry in
      elim (Option-cases (cache.held c' later k)) [
        | inl gone ↦ inr (rw gone (loaded c' (load dbs db later k)))
        | inr (w, held) ↦
            inl (rw held (ap (λ x. ok x) (cache.held_set c later k (some v) w expiry held)))
      ]
    where
      loaded :
          (c' : cache.State) (o : Outcome Error (Option Value))
          → (keep_loaded dbs cache c' k o).1 ≡ o
      loaded c' (ok none) = refl
      loaded c' (ok (some w)) = refl
      loaded c' (err e) = refl
      loaded c' panic = refl

  still_enabled :
      (p : Peer) (t : ℕ) (s : Held) (db : dbs.State)
      → cache_enabled_for_type dbs cache p t (record s { db = db })
        ≡ cache_enabled_for_type dbs cache p t s
  unfolding cache_enabled_for_type
  still_enabled p t s db = refl

  module _ (p : Peer) (now later : ℕ) (c : CollConfig) (k : Key) (v : ExpiringValue) where
    read_put :
        (tx_id : String) (s : Held) (db' : dbs.State) (o : Option cache.State)
        → p.config_of k.namespace k.collection ≡ ok c
        → is_before v.expiry now ≡ false
        → cache_enabled_for_type dbs cache p c.collection_type s ≡ o
        → Reads p later k v tx_id
            (put_in_cache dbs cache now k (value_of k v) (record s { db = db' }) o)
            o
    unfolding get_data cache_enabled put_cached
    read_put tx_id s db' none config valid at =
        rw (config, still_enabled p c.collection_type s db', at) refl
    read_put tx_id s db' (some st) config valid at =
        let enabled =
          enabled_set p c.collection_type s st
            (cache.set st (cache_key k) (some (value_of k v)) v.expiry) db' at in
        elim (from_cache db' st later (cache_key k) (value_of k v) v.expiry) [
          | inl e ↦ inl (rw (config, valid, enabled, e) refl)
          | inr e ↦ inr (rw (config, valid, enabled, e) refl)
        ]

    -- The value was put in its database, and a read gives it or what the database has.
    abbrev IsPut : String → Held → Held → Type 0
    IsPut tx_id s s' =
        (dbs.put s.db k.namespace k.collection
            (record { key = k.key; value = some (value_of k v) } ∷ [])
          ≡ ok (s'.db))
        × Reads p later k v tx_id s' (cache_enabled_for_type dbs cache p c.collection_type s)

    put_in_cache_db :
        (s : Held) (o : Option cache.State)
        → (put_in_cache dbs cache now k (value_of k v) s o).db ≡ s.db
    put_in_cache_db s none = refl
    put_in_cache_db s (some st) = refl

    saved_read :
        (tx_id : String) (s s' : Held)
        → p.config_of k.namespace k.collection ≡ ok c
        → is_before v.expiry now ≡ false
        → put_saved dbs cache p now c s (k, v) ≡ (s', ok tt)
        → IsPut tx_id s s'
    unfolding cache_enabled_for_type
    saved_read tx_id s s' config valid h =
        let (u, there, h1) =
          with_part_done s (dbs.get_db k.namespace k.collection) _ s' (rw valid at h) in
        let (db', stored, h2) =
          with_part_done s
            (dbs.put s.db k.namespace k.collection
              (record { key = k.key; value = some (value_of k v) } ∷ []))
            _ s' h1 in
        let o = cache_enabled_for_type dbs cache p c.collection_type s in
        subst (IsPut tx_id s) (ap (λ x. x.0) h2) (
          stored ∙ ap (λ d. ok d) (sym (put_in_cache_db (record s { db = db' }) o)),
          read_put tx_id s db' o config valid refl,
        )

    -- Where `PutData` returns no error and the key and value that are saved, in the decorator's
    -- form, have not expired, the databases are those after the value was put in the database of
    -- its collection. If the collection's values are not cached, `GetData` then gives a transaction
    -- what that database has for the key; if they are cached, it gives the saved value or, once
    -- that was dropped, what is loaded from the database, and never what was cached before. To the
    -- transaction that stored a value it gives nothing.
    pub get_data-put_data :
        (k0 : Key) (v0 : ExpiringValue) (tx_id : String) (s s' : Held)
        → put_data dbs cache p now c k0 v0 s ≡ (s', ok tt)
        → before_save p c k0 v0 ≡ ok (k, v)
        → p.config_of k.namespace k.collection ≡ ok c
        → is_before v.expiry now ≡ false
        → (dbs.put s.db k.namespace k.collection
              (record { key = k.key; value = some (value_of k v) } ∷ [])
            ≡ ok (s'.db))
          × Reads p later k v tx_id s' (cache_enabled_for_type dbs cache p c.collection_type s)
    unfolding put_data
    get_data-put_data k0 v0 tx_id s s' h saves config valid =
        elim (Bool-cases (has_value dbs cache v0.value)) [
          | inr missing ↦ cc (ap (λ x. x.1) (rw missing at h))
          | inl there ↦ elim (Bool-cases (str_eq c.name k0.collection)) [
            | inr other ↦ cc (ap (λ x. x.1) (rw (there, other) at h))
            | inl same ↦ saved_read tx_id s s' config valid (rw (there, same, saves) at h)
          ]
        ]

  updated_db :
      (now : ℕ) (ns coll : String) (batch : List KeyValue) (s : Held) (o : Option cache.State)
      → (with_updated dbs cache now ns coll batch s o).db ≡ s.db
  updated_db now ns coll batch s none = refl
  updated_db now ns coll batch s (some c) = refl

  module _ (p : Peer) (now : ℕ) (tx_id ns : String) (set : CollPvtRwSet) where
    -- The peer is to store the values of the collection itself.
    abbrev pub is_deferred : CollConfig → Bool
    is_deferred c = not p.is_committer && ltb 0 c.maximum_peer_count

    -- What a collection with this configuration may change.
    abbrev pub MayChange : Held → Held → Option CollConfig → Type 0
    MayChange s s' o =
        ((s' ≡ s) ⊎ ((c : CollConfig) × (o ≡ some c) × (is_authorized p ns c ≡ ok true)))
        × ((s'.db ≡ s.db) ⊎ ((c : CollConfig) × (o ≡ some c) × (is_deferred c ≡ false)))

    batch_changes :
        (c : CollConfig) (s : Held) (m : Outcome Error (List KeyValue))
        → ((with_part dbs cache s m λ batch.
              let s' =
                with_updated dbs cache now ns set.collection_name batch s
                  (cache_enabled_for_type dbs cache p c.collection_type s) in
              if is_deferred c
              then (s', ok tt)
              else persist dbs cache s' ns set.collection_name batch).0.db
            ≡ s.db)
          ⊎ (is_deferred c ≡ false)
    batch_changes c s (err e) = inl refl
    batch_changes c s panic = inl refl
    batch_changes c s (ok batch) = elim (Bool-cases (is_deferred c)) [
      | inl deferred ↦ inl (
          rw deferred (
            updated_db now ns set.collection_name batch s
              (cache_enabled_for_type dbs cache p c.collection_type s)))
      | inr here ↦ inr here
    ]

    expiry_changes :
        (c : CollConfig) (s : Held) (m : Outcome Error (Option ℕ))
        → ((with_part dbs cache s m λ expiry.
              with_part dbs cache s (create_batch p tx_id ns c expiry set.writes) λ batch.
                let s' =
                  with_updated dbs cache now ns set.collection_name batch s
                    (cache_enabled_for_type dbs cache p c.collection_type s) in
                if is_deferred c
                then (s', ok tt)
                else persist dbs cache s' ns set.collection_name batch).0.db
            ≡ s.db)
          ⊎ (is_deferred c ≡ false)
    expiry_changes c s (err e) = inl refl
    expiry_changes c s panic = inl refl
    expiry_changes c s (ok expiry) = batch_changes c s (create_batch p tx_id ns c expiry set.writes)

    config_changes :
        (c : CollConfig) (s : Held) (m : Outcome Error Bool)
        → is_authorized p ns c ≡ m
        → MayChange s (persist_config dbs cache p now tx_id ns set c s).0 (some c)
    unfolding persist_config
    config_changes c s (err e) h = rw h (inl refl, inl refl)
    config_changes c s panic h = rw h (inl refl, inl refl)
    config_changes c s (ok false) h = rw h (inl refl, inl refl)
    config_changes c s (ok true) h = rw h (
      inr (c, refl, h),
      (elim (expiry_changes c s (get_expiration_time p now c)) [
        | inl same ↦ inl same
        | inr here ↦ inr (c, refl, here)
      ]),
    )

    found_changes :
        (s : Held) (o : Option CollConfig)
        → MayChange s (persist_found dbs cache p now tx_id ns set o s).0 o
    found_changes s none = (inl refl, inl refl)
    found_changes s (some c) = config_changes c s (is_authorized p ns c) refl

    -- Persisting the writes to a collection, whether it ends in an error or not, changes the cache or the
    -- databases only where the collection has a configuration of a supported type and the peer's MSP
    -- is authorized by its policy, and it changes the databases only where the peer is a committer or the
    -- collection has no maximum peer count.
    pub persist_coll_changes :
        (pkgs : Packages) (s : Held)
        → MayChange s
            (persist_coll dbs cache p now tx_id ns pkgs s set).0
            (get_collection_config p pkgs ns set.collection_name)
    unfolding persist_coll
    persist_coll_changes pkgs s =
        found_changes s (get_collection_config p pkgs ns set.collection_name)
