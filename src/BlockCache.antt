-- ===== src/BlockCache.antt =====
-- pkg/blkstorage/cdbblkstorage/blockcache.go: the blocks that are kept in memory, by number and by
-- hash, with the latest config block pinned.
pub mod Coherent
pub mod History
pub mod Latest
mod Tests
use fabric_peer_ext.Prelude.{
  ℕ, ◌==◌, leb, ltb, Bool, true, false, ◌||◌, if◌then◌else◌, Option, none, some, List, String, ◌≡◌,
}
use fabric_peer_ext.Prelude.Outcome.{Outcome, ok, err, panic}
use fabric_peer_ext.Prelude.Bytes.{Bytes}
use fabric_peer_ext.Prelude.LoadingCache.{GCache}

-- Blocks and what is decoded of them, code outside the repository: the header's number and hash, the
-- first envelope and the type of its channel header, and the two types of config blocks.
pub record Blocks : Type 1 where
  pub Block : Type 0
  pub number : Block → ℕ
  pub header_hash : Block → Bytes
  pub Envelope : Type 0
  pub extract_envelope : Block → Outcome String Envelope
  pub channel_header_type : Envelope → Outcome String ℕ
  pub config_type : ℕ
  pub config_update_type : ℕ

-- `config`: the sizes of the caches
pub record CacheConfig : Type 0 where
  pub block_by_num_size : ℕ
  pub block_by_hash_size : ℕ

module _ (blocks : Blocks) where
  open blocks use {Block, number, header_hash, extract_envelope, channel_header_type}

  -- The store behind the cache.
  pub record Retriever : Type 0 where
    pub retrieve_block_by_number : ℕ → Outcome String Block
    pub retrieve_block_by_hash : Bytes → Outcome String Block

  abbrev pub is_config_type : Outcome String ℕ → Bool
  is_config_type (ok t) = t == blocks.config_type || t == blocks.config_update_type
  is_config_type (err e) = false
  is_config_type panic = false

  abbrev pub is_config_envelope : Outcome String blocks.Envelope → Bool
  is_config_envelope (ok envelope) = is_config_type (channel_header_type envelope)
  is_config_envelope (err e) = false
  is_config_envelope panic = false

  -- `isConfigBlock`; the decoders are taken not to panic
  unfoldable pub is_config_block : Block → Bool
  is_config_block b = is_config_envelope (extract_envelope b)

  module _ (by_num : GCache ℕ Block) (by_hash : GCache Bytes Block) (I : Type 0) where
    -- `blockCache`; `none` is a cache that passes through. `I` is the blockchain info.
    pub record BlockCache : Type 0 where
      pub bc_info : I
      pub config_block : Option Block
      pub blocks_by_num : Option by_num.State
      pub blocks_by_hash : Option by_hash.State

    abbrev pub if_sized : {S : Type 0} → ℕ → S → Option S
    if_sized size s = if ltb 0 size then some s else none

    -- `newCache` with `createBlockByNumCache` and `createBlockByHashCache`
    unfoldable pub new_cache : I → CacheConfig → BlockCache
    new_cache info config = record {
      bc_info = info;
      config_block = none;
      blocks_by_num = if_sized config.block_by_num_size by_num.empty;
      blocks_by_hash = if_sized config.block_by_hash_size by_hash.empty;
    }

    abbrev pub is_older : Option Block → Block → Bool
    is_older none b = false
    is_older (some cb) b = leb (number b) (number cb)

    -- `setConfigBlock`
    unfoldable pub set_config_block : Block → BlockCache → BlockCache
    unfolding is_config_block
    set_config_block b c =
        if is_config_block b
        then (if is_older c.config_block b then c else record c { config_block = some b })
        else c

    abbrev pub set_by_num : Block → Option by_num.State → Option by_num.State
    set_by_num b none = none
    set_by_num b (some s) = some (by_num.set s (number b) b)

    abbrev pub set_by_hash : Block → Option by_hash.State → Option by_hash.State
    set_by_hash b none = none
    set_by_hash b (some s) = some (by_hash.set s (header_hash b) b)

    -- `put`
    unfoldable pub put : Block → BlockCache → BlockCache
    unfolding set_config_block
    put b c = set_config_block b (record c {
      blocks_by_num = set_by_num b c.blocks_by_num;
      blocks_by_hash = set_by_hash b c.blocks_by_hash;
    })

    -- `setBlockchainInfo`
    unfoldable pub set_blockchain_info : I → BlockCache → BlockCache
    set_blockchain_info info c = record c { bc_info = info }

    -- What a call returns, and the cache behind it.
    abbrev pub Got : Type 0
    Got = BlockCache × Outcome String Block

    abbrev pub loaded_by_num : BlockCache → by_num.State → ℕ → Outcome String Block → Got
    loaded_by_num c s n (ok b) =
        (record (set_config_block b c) { blocks_by_num = some (by_num.set s n b) }, ok b)
    loaded_by_num c s n (err e) = (c, err e)
    loaded_by_num c s n panic = (c, panic)

    abbrev pub hit_by_num : Retriever → BlockCache → by_num.State → ℕ → Option Block → Got
    hit_by_num r c s n (some b) = (record c { blocks_by_num = some (by_num.touch s n) }, ok b)
    hit_by_num r c s n none = loaded_by_num c s n (r.retrieve_block_by_number n)

    -- `blocksByNum.Get`, with the loader `loadBlockByNumber` or passed through
    abbrev pub get_by_num : Retriever → BlockCache → ℕ → Option by_num.State → Got
    get_by_num r c n none = (c, r.retrieve_block_by_number n)
    get_by_num r c n (some s) = hit_by_num r c s n (by_num.held s n)

    abbrev pub pinned_or : ℕ → Option Block → BlockCache → Got → Got
    pinned_or n none c got = got
    pinned_or n (some cb) c got = if number cb == n then (c, ok cb) else got

    -- `getBlockByNumber`
    unfoldable pub get_block_by_number : Retriever → BlockCache → ℕ → Got
    unfolding set_config_block
    get_block_by_number r c n = pinned_or n c.config_block c (get_by_num r c n c.blocks_by_num)

    abbrev pub loaded_by_hash : BlockCache → by_hash.State → Bytes → Outcome String Block → Got
    loaded_by_hash c s h (ok b) =
        (record (set_config_block b c) { blocks_by_hash = some (by_hash.set s h b) }, ok b)
    loaded_by_hash c s h (err e) = (c, err e)
    loaded_by_hash c s h panic = (c, panic)

    abbrev pub hit_by_hash : Retriever → BlockCache → by_hash.State → Bytes → Option Block → Got
    hit_by_hash r c s h (some b) = (record c { blocks_by_hash = some (by_hash.touch s h) }, ok b)
    hit_by_hash r c s h none = loaded_by_hash c s h (r.retrieve_block_by_hash h)

    -- `blocksByHash.Get`, with the loader `loadBlockByHash` or passed through
    abbrev pub get_by_hash : Retriever → BlockCache → Bytes → Option by_hash.State → Got
    get_by_hash r c h none = (c, r.retrieve_block_by_hash h)
    get_by_hash r c h (some s) = hit_by_hash r c s h (by_hash.held s h)

    -- `getBlockByHash`
    unfoldable pub get_block_by_hash : Retriever → BlockCache → Bytes → Got
    unfolding set_config_block
    get_block_by_hash r c h = get_by_hash r c h c.blocks_by_hash
