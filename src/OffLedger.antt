-- ===== src/OffLedger.antt =====
-- pkg/collections/offledger/storeprovider/store/cache/cache.go: the cache in front of the databases
-- of off-ledger collections. Here are also the databases, which it loads from.
pub mod Config
pub mod Store
pub mod Laws
mod Tests
use fabric_peer_ext.Prelude.{
  ℕ, ◌≤◌, ltb, leb, Bool, true, false, ◌&&◌, if◌then◌else◌, String, str_eq, Option, none, some,
  List, [], ◌∷◌, ◌≡◌, ◌⊎◌,
}
use fabric_peer_ext.Prelude.Outcome.{Outcome, ok, err, panic, ◌>>=◌, push_front}
use fabric_peer_ext.Prelude.Bytes.{Bytes}

pub data Error : Type 0 where
  text : String → Error
  with_message : String → Error → Error

-- `api.Value`; no expiry is the zero time
pub record Value : Type 0 where
  pub value : Bytes
  pub tx_id : String
  pub expiry : Option ℕ

-- `api.KeyValue`: no value deletes the key
pub record KeyValue : Type 0 where
  pub key : String
  pub value : Option Value

-- `cacheKey`
pub record CacheKey : Type 0 where
  pub namespace : String
  pub collection : String
  pub key : String

abbrev pub key_beq : CacheKey → CacheKey → Bool
key_beq a b =
    str_eq a.namespace b.namespace && str_eq a.collection b.collection && str_eq a.key b.key

-- The databases, one for each collection, behind their interface (`api.DB`). Nothing is assumed of
-- what they make of a value: CouchDB writes JSON anew and drops fractions of a millisecond.
pub record Databases : Type 1 where
  pub State : Type 0
  pub get_db : String → String → Outcome Error (Unit {0})
  pub put : State → String → String → List KeyValue → Outcome Error State
  pub get : State → String → String → String → Outcome Error (Option Value)
  pub get_multiple : State → String → String → List String → Outcome Error (List (Option Value))

-- A cache of github.com/bluele/gcache with expiry. What it holds of a key that was set is the value
-- that was set last, which may be nil, and it may drop it.
pub record ExpiringCache : Type 1 where
  pub State : Type 0
  pub held : State → ℕ → CacheKey → Option (Option Value)
  pub touch : State → CacheKey → State
  -- the value, and the time at which it expires, if it does
  pub set : State → CacheKey → Option Value → Option ℕ → State
  pub remove : State → CacheKey → State
  pub held_set :
      (c : State) (now : ℕ) (k : CacheKey) (v w : Option Value) (expiry : Option ℕ)
      → held (set c k v expiry) now k ≡ some w
      → w ≡ v

-- a time that is set and before another
abbrev pub is_before : Option ℕ → ℕ → Bool
is_before none now = false
is_before (some t) now = ltb t now

module _ (dbs : Databases) where
  -- what `load` makes of the value in the database
  abbrev pub unexpired : ℕ → Option Value → Option Value
  unexpired now none = none
  unexpired now (some v) = if is_before v.expiry now then none else some v

  abbrev pub wrapped {ℓ} : {A : Type ℓ} → String → Outcome Error A → Outcome Error A
  wrapped message (ok a) = ok a
  wrapped message (err e) = err (with_message message e)
  wrapped message panic = panic

  -- `Cache.load`
  unfoldable pub load : dbs.State → ℕ → CacheKey → Outcome Error (Option Value)
  load s now k = do
    there ← wrapped "error getting database" (dbs.get_db k.namespace k.collection)
    v ← wrapped "error loading value" (dbs.get s k.namespace k.collection k.key)
    ok (unexpired now v)

  module _ (cache : ExpiringCache) where
    -- `Cache.Put`
    unfoldable pub put_cached : cache.State → ℕ → CacheKey → Value → cache.State
    put_cached c now k v = if is_before v.expiry now then c else cache.set c k (some v) v.expiry

    -- `Cache.Delete`
    unfoldable pub delete_cached : cache.State → CacheKey → cache.State
    delete_cached c k = cache.remove c k

    -- the loader's value is kept, also where it is nil
    abbrev pub keep_loaded :
        cache.State
        → CacheKey
        → Outcome Error (Option Value)
        → cache.State × Outcome Error (Option Value)
    keep_loaded c k (ok (some v)) = (cache.set c k (some v) v.expiry, ok (some v))
    keep_loaded c k (ok none) = (cache.set c k none none, ok none)
    keep_loaded c k (err e) = (c, err e)
    keep_loaded c k panic = (c, panic)

    abbrev pub hit_or_load :
        dbs.State
        → cache.State
        → ℕ
        → CacheKey
        → Option (Option Value)
        → cache.State × Outcome Error (Option Value)
    hit_or_load s c now k (some v) = (cache.touch c k, ok v)
    hit_or_load s c now k none = keep_loaded c k (load s now k)

    -- `Cache.Get`
    unfoldable pub get_cached :
        dbs.State → cache.State → ℕ → CacheKey → cache.State × Outcome Error (Option Value)
    unfolding load
    get_cached s c now k = hit_or_load s c now k (cache.held c now k)

    abbrev pub value_and_rest :
        cache.State × Outcome Error (Option Value)
        → (cache.State → cache.State × Outcome Error (List (Option Value)))
        → cache.State × Outcome Error (List (Option Value))
    value_and_rest (c, ok v) next = let (c', vs) = next c in (c', push_front v vs)
    value_and_rest (c, err e) next = (c, err e)
    value_and_rest (c, panic) next = (c, panic)

    -- `Cache.GetMultiple`
    unfoldable pub get_multiple_cached :
        dbs.State
        → ℕ
        → String
        → String
        → List String
        → cache.State
        → cache.State × Outcome Error (List (Option Value))
    unfolding get_cached
    get_multiple_cached s now ns coll [] c = (c, ok [])
    get_multiple_cached s now ns coll (k ∷ ks) c =
        value_and_rest (get_cached s c now (record { namespace = ns; collection = coll; key = k }))
          (get_multiple_cached s now ns coll ks)
