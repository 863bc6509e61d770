-- ===== src/PvtData/Expiry.antt =====
-- pkg/pvtdatastorage/common/helper.go and store.go: the entries that are stored for the private data
-- of a block, with the block at which each expires.
use fabric_peer_ext.Prelude.{
  ℕ, ◌==◌, leb, Bool, true, String, List, [], ◌∷◌, ◌++◌, map, if◌then◌else◌,
}
use fabric_peer_ext.Prelude.Assoc.{nat_eq, lookup, put, or_else}
use fabric_peer_ext.Prelude.Outcome.{Outcome, ok, ◌>>=◌}
use fabric_peer_ext.Prelude.Bytes.{Bytes, bytes_eq}
use fabric_peer_ext.PvtData.Varint.{max_uint64}
use fabric_peer_ext.PvtData.Keys.{NsCollBlk, DataKey, MissingDataKey, ExpiryKey}

-- The private data of a block: the write sets of its transactions.
pub record CollPvtRwSet : Type 0 where
  pub collection_name : Bytes
  pub rwset : Bytes

pub record NsPvtRwSet : Type 0 where
  pub namespace : Bytes
  pub colls : List CollPvtRwSet

pub record TxPvtData : Type 0 where
  pub seq_in_block : ℕ
  pub ns_pvt_rwset : List NsPvtRwSet

pub record DataEntry : Type 0 where
  pub key : DataKey
  pub value : CollPvtRwSet

-- For the collections of a namespace the numbers of the transactions, and which have missing data.
-- A nil map and an empty one are the same list.
pub record Collections : Type 0 where
  pub tx_nums : List (Bytes × List ℕ)
  pub missing : List (Bytes × Bool)

abbrev pub ExpiryData : Type 0
ExpiryData = List (Bytes × Collections)

pub record ExpiryEntry : Type 0 where
  pub key : ExpiryKey
  pub value : ExpiryData

-- `pvtdatapolicy.BTLPolicy`, code outside the repository: the block at which data expires
abbrev pub BtlPolicy : Type 0
BtlPolicy = Bytes → Bytes → ℕ → Outcome String ℕ

-- the loops of `prepareDataEntries`
abbrev pub coll_data_entries : ℕ → ℕ → Bytes → List CollPvtRwSet → List DataEntry
coll_data_entries block_num tx_num ns [] = []
coll_data_entries block_num tx_num ns (c ∷ cs) =
    record {
      key = record {
        ns_coll_blk = record { ns = ns; coll = c.collection_name; blk_num = block_num };
        tx_num = tx_num;
      };
      value = c;
    }
    ∷ coll_data_entries block_num tx_num ns cs

abbrev pub ns_data_entries : ℕ → ℕ → List NsPvtRwSet → List DataEntry
ns_data_entries block_num tx_num [] = []
ns_data_entries block_num tx_num (n ∷ ns) =
    coll_data_entries block_num tx_num n.namespace n.colls ++ ns_data_entries block_num tx_num ns

unfoldable pub prepare_data_entries : ℕ → List TxPvtData → List DataEntry
prepare_data_entries block_num [] = []
prepare_data_entries block_num (t ∷ ts) =
    ns_data_entries block_num t.seq_in_block t.ns_pvt_rwset ++ prepare_data_entries block_num ts

-- `getOrCreateCollections`
unfoldable pub get_or_create_collections : ExpiryData → Bytes → Collections
get_or_create_collections d ns = or_else (lookup ns d) (record { tx_nums = []; missing = [] })

abbrev pub tx_nums_at : Bytes → List (Bytes × List ℕ) → List ℕ
tx_nums_at coll m = or_else (lookup coll m) []

unfoldable pub add_present_data : ExpiryData → Bytes → Bytes → ℕ → ExpiryData
unfolding get_or_create_collections
add_present_data d ns coll tx_num =
    let c = get_or_create_collections d ns in
    put ns (record c { tx_nums = put coll (tx_nums_at coll c.tx_nums ++ tx_num ∷ []) c.tx_nums }) d

unfoldable pub add_missing_data : ExpiryData → Bytes → Bytes → ExpiryData
unfolding get_or_create_collections
add_missing_data d ns coll =
    let c = get_or_create_collections d ns in
    put ns (record c { missing = put coll true c.missing }) d

-- `neverExpires`
abbrev pub never_expires : ℕ → Bool
never_expires expiring_blk = expiring_blk == max_uint64

abbrev pub ByBlock : Type 0
ByBlock = List (ℕ × ExpiryData)

unfoldable pub get_or_create_expiry_data : ByBlock → ℕ → ExpiryData
get_or_create_expiry_data m expiring_blk = or_else (lookup expiring_blk m) []

abbrev pub present_at : ByBlock → DataKey → ℕ → ByBlock
present_at m k e =
    if never_expires e
    then m
    else put e
        (add_present_data (get_or_create_expiry_data m e) k.ns_coll_blk.ns k.ns_coll_blk.coll
          k.tx_num)
        m

abbrev pub missing_at : ByBlock → MissingDataKey → ℕ → ByBlock
missing_at m k e =
    if never_expires e
    then m
    else put e
        (add_missing_data (get_or_create_expiry_data m e) k.ns_coll_blk.ns k.ns_coll_blk.coll) m

module _ (btl : BtlPolicy) where
  unfoldable pub prepare_expiry_entries_for_present_data :
      ByBlock → DataKey → Outcome String ByBlock
  unfolding get_or_create_expiry_data add_present_data
  prepare_expiry_entries_for_present_data m k = do
    e ← btl k.ns_coll_blk.ns k.ns_coll_blk.coll k.ns_coll_blk.blk_num
    ok (present_at m k e)

  unfoldable pub prepare_expiry_entries_for_missing_data :
      ByBlock → MissingDataKey → Outcome String ByBlock
  unfolding get_or_create_expiry_data add_missing_data
  prepare_expiry_entries_for_missing_data m k = do
    e ← btl k.ns_coll_blk.ns k.ns_coll_blk.coll k.ns_coll_blk.blk_num
    ok (missing_at m k e)

  -- the loops of `prepareExpiryEntries`
  unfoldable pub each_present : ByBlock → List DataEntry → Outcome String ByBlock
  unfolding prepare_expiry_entries_for_present_data
  each_present m [] = ok m
  each_present m (d ∷ ds) = do
    m' ← prepare_expiry_entries_for_present_data m d.key
    each_present m' ds

  unfoldable pub each_missing : ByBlock → List MissingDataKey → Outcome String ByBlock
  unfolding prepare_expiry_entries_for_missing_data
  each_missing m [] = ok m
  each_missing m (k ∷ ks) = do m' ← prepare_expiry_entries_for_missing_data m k; each_missing m' ks

  abbrev pub expiry_entry : ℕ → ℕ × ExpiryData → ExpiryEntry
  expiry_entry committing_blk (e, d) = record {
    key = record { expiring_blk = e; committing_blk = committing_blk };
    value = d;
  }

  -- `prepareExpiryEntries`; the maps of missing data are given by their keys, in the order in which
  -- Go walks them
  unfoldable pub prepare_expiry_entries :
      ℕ
      → List DataEntry
      → List MissingDataKey
      → List MissingDataKey
      → Outcome String (List ExpiryEntry)
  unfolding each_present each_missing
  prepare_expiry_entries committing_blk data_entries elg inelg = do
    m ← each_present [] data_entries
    m' ← each_missing m elg
    m'' ← each_missing m' inelg
    ok (map (expiry_entry committing_blk) m'')

  -- `IsExpired`
  unfoldable pub is_expired : NsCollBlk → ℕ → Outcome String Bool
  is_expired k latest_blk_num = do e ← btl k.ns k.coll k.blk_num; ok (leb e latest_blk_num)

-- the loops of `DeriveKeys` for the data that is present
abbrev pub tx_data_keys : ℕ → Bytes → Bytes → List ℕ → List DataKey
tx_data_keys blk ns coll [] = []
tx_data_keys blk ns coll (t ∷ ts) =
    record { ns_coll_blk = record { ns = ns; coll = coll; blk_num = blk }; tx_num = t }
    ∷ tx_data_keys blk ns coll ts

abbrev pub coll_data_keys : ℕ → Bytes → List (Bytes × List ℕ) → List DataKey
coll_data_keys blk ns [] = []
coll_data_keys blk ns ((coll, ts) ∷ m) = tx_data_keys blk ns coll ts ++ coll_data_keys blk ns m

abbrev pub data_keys : ℕ → ExpiryData → List DataKey
data_keys blk [] = []
data_keys blk ((ns, c) ∷ d) = coll_data_keys blk ns c.tx_nums ++ data_keys blk d

-- and for the data that is missing
abbrev pub coll_missing_keys : ℕ → Bytes → List (Bytes × Bool) → List MissingDataKey
coll_missing_keys blk ns [] = []
coll_missing_keys blk ns ((coll, b) ∷ m) =
    record { ns_coll_blk = record { ns = ns; coll = coll; blk_num = blk } }
    ∷ coll_missing_keys blk ns m

abbrev pub missing_keys : ℕ → ExpiryData → List MissingDataKey
missing_keys blk [] = []
missing_keys blk ((ns, c) ∷ d) = coll_missing_keys blk ns c.missing ++ missing_keys blk d

unfoldable pub derive_keys : ExpiryEntry → List DataKey × List MissingDataKey
derive_keys entry = (
  data_keys entry.key.committing_blk entry.value,
  missing_keys entry.key.committing_blk entry.value,
)
