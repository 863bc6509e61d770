-- ===== src/BlockCache/History.antt =====
-- The histories of the cache of pkg/blkstorage/cdbblkstorage/blockcache.go, and what it answers after
-- them.
use fabric_peer_ext.Prelude.{ℕ, Option, none, some, List, [], ◌∷◌, ◌≡◌, inl, inr, Bool-cases, ltb}
use fabric_peer_ext.Prelude.Outcome.{ok}
use fabric_peer_ext.Prelude.Bytes.{Bytes}
use fabric_peer_ext.Prelude.LoadingCache.{GCache, IsCoherent, set-IsCoherent, empty-IsCoherent}
use fabric_peer_ext.BlockCache.{
  Blocks, CacheConfig, Retriever, new_cache, if_sized, set_by_num, set_by_hash, put,
  set_blockchain_info, get_block_by_number, get_block_by_hash,
}
use fabric_peer_ext.BlockCache.Coherent.{
  Cache, IsLedger, OfPart, IsStored, Agrees, set_config-Agrees, get_block_by_number-Answers,
  get_block_by_hash-Answers,
}

module _ (blocks : Blocks) (by_num : GCache ℕ blocks.Block) (by_hash : GCache Bytes blocks.Block)
    (I : Type 0) where
  open blocks use {Block, number, header_hash}

  -- A block is added to the store, which keeps what it has.
  pub record Grows (r s : Retriever blocks) (b : Block) : Type 0 where
    pub by_own_number : s.retrieve_block_by_number (number b) ≡ ok b
    pub by_own_hash : s.retrieve_block_by_hash (header_hash b) ≡ ok b
    pub keeps_numbers :
        (n : ℕ) (x : Block)
        → r.retrieve_block_by_number n ≡ ok x
        → s.retrieve_block_by_number n ≡ ok x
    pub keeps_hashes :
        (h : Bytes) (x : Block)
        → r.retrieve_block_by_hash h ≡ ok x
        → s.retrieve_block_by_hash h ≡ ok x

  -- A history of the store and its cache, with the blocks that were put: a block is stored and then
  -- put, or a block is asked for, or the blockchain info is set.
  pub data Reach : Retriever blocks → Cache blocks by_num by_hash I → List Block → Type 0 where
    start :
        (r : Retriever blocks) (info : I) (config : CacheConfig)
        → IsLedger blocks by_num by_hash I r
        → Reach r (new_cache blocks by_num by_hash I info config) []
    committed :
        {r : Retriever blocks} {c : Cache blocks by_num by_hash I} {bs : List Block}
        (s : Retriever blocks) (b : Block)
        → Reach r c bs
        → Grows r s b
        → IsLedger blocks by_num by_hash I s
        → Reach s (put blocks by_num by_hash I b c) (b ∷ bs)
    asked_number :
        {r : Retriever blocks} {c : Cache blocks by_num by_hash I} {bs : List Block} (n : ℕ)
        → Reach r c bs
        → Reach r (get_block_by_number blocks by_num by_hash I r c n).0 bs
    asked_hash :
        {r : Retriever blocks} {c : Cache blocks by_num by_hash I} {bs : List Block} (h : Bytes)
        → Reach r c bs
        → Reach r (get_block_by_hash blocks by_num by_hash I r c h).0 bs
    informed :
        {r : Retriever blocks} {c : Cache blocks by_num by_hash I} {bs : List Block} (info : I)
        → Reach r c bs
        → Reach r (set_blockchain_info blocks by_num by_hash I info c) bs

  sized_num :
      (r : Retriever blocks) (size : ℕ)
      → OfPart blocks by_num by_hash I
          (IsCoherent by_num r.retrieve_block_by_number)
          (if_sized blocks by_num by_hash I size by_num.empty)
  sized_num r size = elim (Bool-cases (ltb 0 size)) [
    | inl q ↦ rw q (empty-IsCoherent by_num r.retrieve_block_by_number)
    | inr q ↦ rw q tt
  ]

  sized_hash :
      (r : Retriever blocks) (size : ℕ)
      → OfPart blocks by_num by_hash I
          (IsCoherent by_hash r.retrieve_block_by_hash)
          (if_sized blocks by_num by_hash I size by_hash.empty)
  sized_hash r size = elim (Bool-cases (ltb 0 size)) [
    | inl q ↦ rw q (empty-IsCoherent by_hash r.retrieve_block_by_hash)
    | inr q ↦ rw q tt
  ]

  grown_num :
      (r s : Retriever blocks) (b : Block) (o : Option by_num.State)
      → Grows r s b
      → OfPart blocks by_num by_hash I (IsCoherent by_num r.retrieve_block_by_number) o
      → OfPart blocks by_num by_hash I
          (IsCoherent by_num s.retrieve_block_by_number)
          (set_by_num blocks by_num by_hash I b o)
  unfolding IsCoherent
  grown_num r s b none g h = tt
  grown_num r s b (some st) g h =
      set-IsCoherent by_num s.retrieve_block_by_number st (number b) b
        (λ k v held. g.keeps_numbers k v (h k v held)) g.by_own_number

  grown_hash :
      (r s : Retriever blocks) (b : Block) (o : Option by_hash.State)
      → Grows r s b
      → OfPart blocks by_num by_hash I (IsCoherent by_hash r.retrieve_block_by_hash) o
      → OfPart blocks by_num by_hash I
          (IsCoherent by_hash s.retrieve_block_by_hash)
          (set_by_hash blocks by_num by_hash I b o)
  unfolding IsCoherent
  grown_hash r s b none g h = tt
  grown_hash r s b (some st) g h =
      set-IsCoherent by_hash s.retrieve_block_by_hash st (header_hash b) b
        (λ k v held. g.keeps_hashes k v (h k v held)) g.by_own_hash

  grown_pin :
      (r s : Retriever blocks) (b : Block) (o : Option Block)
      → Grows r s b
      → IsStored blocks by_num by_hash I r o
      → IsStored blocks by_num by_hash I s o
  grown_pin r s b none g h = tt
  grown_pin r s b (some p) g h = g.keeps_numbers (number p) p h

  Reach-Agrees :
      {r : Retriever blocks} {c : Cache blocks by_num by_hash I} {bs : List Block}
      → Reach r c bs
      → IsLedger blocks by_num by_hash I r × Agrees blocks by_num by_hash I c r
  unfolding new_cache put set_blockchain_info
  Reach-Agrees (start r info config l) = (
    l,
    record {
      pinned = tt;
      numbers = sized_num r config.block_by_num_size;
      hashes = sized_hash r config.block_by_hash_size;
    },
  )
  Reach-Agrees (committed {r = r} {c = c} s b before g l) =
      let (old, a) = Reach-Agrees before in
      (
        l,
        set_config-Agrees blocks by_num by_hash I _ s b
            (record {
              pinned = grown_pin r s b c.config_block g a.pinned;
              numbers = grown_num r s b c.blocks_by_num g a.numbers;
              hashes = grown_hash r s b c.blocks_by_hash g a.hashes;
            })
            g.by_own_number,
      )
  Reach-Agrees (asked_number {r = r} {c = c} n before) =
      let (l, a) = Reach-Agrees before in
      (l, (get_block_by_number-Answers blocks by_num by_hash I c r n l a).0)
  Reach-Agrees (asked_hash {r = r} {c = c} h before) =
      let (l, a) = Reach-Agrees before in
      (l, (get_block_by_hash-Answers blocks by_num by_hash I c r h l a).0)
  Reach-Agrees (informed info before) =
      let (l, a) = Reach-Agrees before in
      (l, record { pinned = a.pinned; numbers = a.numbers; hashes = a.hashes })

  -- After every history in which the store keeps what it has, gives a block under its own number, and has a
  -- block before it is put, the cache answers a number and a hash as the store does, errors
  -- included, whether its two caches hold blocks or pass through.
  pub Reach-answers :
      {r : Retriever blocks} {c : Cache blocks by_num by_hash I} {bs : List Block} (n : ℕ)
      (h : Bytes)
      → Reach r c bs
      → ((get_block_by_number blocks by_num by_hash I r c n).1 ≡ r.retrieve_block_by_number n)
        × ((get_block_by_hash blocks by_num by_hash I r c h).1 ≡ r.retrieve_block_by_hash h)
  Reach-answers {r = r} {c = c} n h reach =
      let (l, a) = Reach-Agrees reach in
      (
        (get_block_by_number-Answers blocks by_num by_hash I c r n l a).1,
        (get_block_by_hash-Answers blocks by_num by_hash I c r h l a).1,
      )
