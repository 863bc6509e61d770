-- ===== src/BlockCache/Tests.antt =====
-- Tests of pkg/blkstorage/cdbblkstorage/blockcache.go with blocks that are numbers, the even ones
-- being config blocks.
use fabric_peer_ext.Prelude.{
  ℕ, ◌%◌, ◌<◌, ltb, if◌then◌else◌, some, String, [], ◌∷◌, ◌≡◌, refl, sym, inl, inr, Bool-cases, All,
  arith, ◌+◌,
}
use fabric_peer_ext.Prelude.Outcome.{Outcome, ok, err}
use fabric_peer_ext.Prelude.Bytes.{Bytes, bytes_eq}
use fabric_peer_ext.Prelude.Assoc.{nat_eq}
use fabric_peer_ext.Prelude.LoadingCache.{GCache, unbounded}
use fabric_peer_ext.BlockCache.{
  Blocks, CacheConfig, Retriever, new_cache, put, get_block_by_number, get_block_by_hash,
}
use fabric_peer_ext.BlockCache.Coherent.{Cache, IsLedger}
use fabric_peer_ext.BlockCache.History.{Grows, Reach, start, committed, Reach-answers}
use fabric_peer_ext.BlockCache.Latest.{Reach-latest, PinsConfigBlock, HasPinned}

-- A block is its number; its hash is that number.
abbrev numbered_blocks : Blocks
numbered_blocks = record {
  Block = ℕ;
  number = λ n. n;
  header_hash = λ n. n ∷ [];
  Envelope = ℕ;
  extract_envelope = ok;
  channel_header_type = λ n. ok (n % 2);
  config_type = 0;
  config_update_type = 2;
}

abbrev below : ℕ → ℕ → Outcome String ℕ
below height n = if ltb n height then ok n else err "not found"

abbrev below_hash : ℕ → Bytes → Outcome String ℕ
below_hash height [] = err "not found"
below_hash height (n ∷ []) = below height n
below_hash height (n ∷ m ∷ h) = err "not found"

-- the store with the blocks below a height
abbrev ledger : ℕ → Retriever numbered_blocks
ledger height = record {
  retrieve_block_by_number = below height;
  retrieve_block_by_hash = below_hash height;
}

abbrev by_num : GCache ℕ ℕ
by_num = unbounded

abbrev by_hash : GCache Bytes ℕ
by_hash = unbounded

below_own : (height n b : ℕ) → below height n ≡ ok b → (n ≡ b) × (n < height)
below_own height n b h = elim (Bool-cases (ltb n height)) [
  | inl q ↦ (cc (rw q at h), ground arith)
  | inr q ↦ cc (rw q at h)
]

below_in : (height n : ℕ) → n < height → below height n ≡ ok n
below_in height n h = ground arith

hash_own : (height : ℕ) (h : Bytes) (b : ℕ) → below_hash height h ≡ ok b → below height b ≡ ok b
hash_own height [] b e = cc
hash_own height (n ∷ []) b e =
    let (same, lt) = below_own height n b e in below_in height b (omega arith)
hash_own height (n ∷ m ∷ h) b e = cc

ledger-IsLedger : (height : ℕ) → IsLedger numbered_blocks by_num by_hash ℕ (ledger height)
ledger-IsLedger height = record {
  numbered = λ n b h. sym (below_own height n b h).0;
  of_hash = λ h b e. hash_own height h b e;
}

below_more : (height n b : ℕ) → below height n ≡ ok b → below (height + 1) n ≡ ok b
below_more height n b h =
    let (same, lt) = below_own height n b h in rw (← same) (below_in (height + 1) n (omega arith))

hash_more :
    (height : ℕ) (h : Bytes) (b : ℕ) → below_hash height h ≡ ok b → below_hash (height + 1) h ≡ ok b
hash_more height [] b e = cc
hash_more height (n ∷ []) b e = below_more height n b e
hash_more height (n ∷ m ∷ h) b e = cc

grows :
    (height : ℕ)
    → Grows numbered_blocks by_num by_hash ℕ (ledger height) (ledger (height + 1)) height
grows height = record {
  by_own_number = below_in (height + 1) height (omega arith);
  by_own_hash = below_in (height + 1) height (omega arith);
  keeps_numbers = λ n b h. below_more height n b h;
  keeps_hashes = λ h b e. hash_more height h b e;
}

abbrev sizes : CacheConfig
sizes = record { block_by_num_size = 8; block_by_hash_size = 0 }

abbrev fresh : Cache numbered_blocks by_num by_hash ℕ
fresh = new_cache numbered_blocks by_num by_hash ℕ 0 sizes

abbrev two_put : Cache numbered_blocks by_num by_hash ℕ
two_put = put numbered_blocks by_num by_hash ℕ 1 (put numbered_blocks by_num by_hash ℕ 0 fresh)

reached : Reach numbered_blocks by_num by_hash ℕ (ledger 2) two_put (1 ∷ 0 ∷ [])
reached =
    committed (ledger 2) 1
      (committed (ledger 1) 0 (start (ledger 0) 0 sizes (ledger-IsLedger 0)) (grows 0)
        (ledger-IsLedger 1))
      (grows 1) (ledger-IsLedger 2)

block_0_is_pinned : two_put.config_block ≡ some 0
unfolding put new_cache
block_0_is_pinned = refl

Reach-answers_example :
    ((get_block_by_number numbered_blocks by_num by_hash ℕ (ledger 2) two_put 1).1 ≡ below 2 1)
    × ((get_block_by_hash numbered_blocks by_num by_hash ℕ (ledger 2) two_put (1 ∷ [])).1
        ≡ below_hash 2 (1 ∷ []))
Reach-answers_example = Reach-answers numbered_blocks by_num by_hash ℕ 1 (1 ∷ []) reached

Reach-latest_example :
    PinsConfigBlock numbered_blocks by_num by_hash ℕ two_put.config_block
    × All (HasPinned numbered_blocks by_num by_hash ℕ two_put.config_block) (1 ∷ 0 ∷ [])
Reach-latest_example = Reach-latest numbered_blocks by_num by_hash ℕ reached
