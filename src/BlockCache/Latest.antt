-- ===== src/BlockCache/Latest.antt =====
-- The config block that pkg/blkstorage/cdbblkstorage/blockcache.go has pinned.
use fabric_peer_ext.Prelude.{
  ℕ, ◌≤◌, ◌==◌, true, false, Option, none, some, List, [], ◌∷◌, String, ◌≡◌, refl, inl, inr,
  Bool-cases, Option-cases, arith, All,
}
use fabric_peer_ext.Prelude.Outcome.{Outcome, ok, err, panic}
use fabric_peer_ext.Prelude.Bytes.{Bytes}
use fabric_peer_ext.Prelude.LoadingCache.{GCache}
use fabric_peer_ext.BlockCache.{
  Blocks, Retriever, is_config_block, is_older, set_config_block, set_by_num, set_by_hash, put,
  set_blockchain_info, new_cache, get_by_num, loaded_by_num, pinned_or, get_block_by_number,
  get_by_hash, loaded_by_hash, get_block_by_hash,
}
use fabric_peer_ext.BlockCache.Coherent.{Cache}
use fabric_peer_ext.BlockCache.History.{Reach, start, committed, asked_number, asked_hash, informed}

module _ (blocks : Blocks) (by_num : GCache ℕ blocks.Block) (by_hash : GCache Bytes blocks.Block)
    (I : Type 0) where
  open blocks use {Block, number}

  -- A block of the number, or of a greater one, is pinned.
  abbrev pub PinnedFrom : ℕ → Option Block → Type 0
  PinnedFrom n o = (p : Block) × (o ≡ some p) × (n ≤ number p)

  abbrev pub PinsConfigBlock : Option Block → Type 0
  PinsConfigBlock none = Unit
  PinsConfigBlock (some p) = is_config_block blocks p ≡ true

  newer_pinned :
      (n : ℕ) (o : Option Block) (b : Block)
      → is_older blocks by_num by_hash I o b ≡ false
      → PinnedFrom n o
      → PinnedFrom n (some b)
  newer_pinned n none b newer (p, at, le) = cc
  newer_pinned n (some cb) b newer (p, at, le) =
      let lt : number cb ≤ number b = ground arith in
      let same : number cb ≡ number p = cc in (b, refl, omega arith)

  set_config-PinnedFrom :
      (n : ℕ) (b : Block) (c : Cache blocks by_num by_hash I)
      → PinnedFrom n c.config_block
      → PinnedFrom n (set_config_block blocks by_num by_hash I b c).config_block
  unfolding set_config_block
  set_config-PinnedFrom n b c h = elim (Bool-cases (is_config_block blocks b)) [
    | inr other ↦ rw other h
    | inl config ↦ elim (Bool-cases (is_older blocks by_num by_hash I c.config_block b)) [
      | inl older ↦ rw (config, older) h
      | inr newer ↦ rw (config, newer) (newer_pinned n c.config_block b newer h)
    ]
  ]

  -- What the pinning of a block keeps is kept by every call.
  module _ (Q : Option Block → Type 0)
      (keeps : (b : Block) (c : Cache blocks by_num by_hash I)
        → Q c.config_block
        → Q (set_config_block blocks by_num by_hash I b c).config_block) where
    loaded_num_keeps :
        (c : Cache blocks by_num by_hash I) (s : by_num.State) (k : ℕ)
        (answer : Outcome String Block)
        → Q c.config_block
        → Q (loaded_by_num blocks by_num by_hash I c s k answer).0.config_block
    loaded_num_keeps c s k (ok b) h = keeps b c h
    loaded_num_keeps c s k (err e) h = h
    loaded_num_keeps c s k panic h = h

    get_num_keeps :
        (r : Retriever blocks) (c : Cache blocks by_num by_hash I) (k : ℕ) (o : Option by_num.State)
        → Q c.config_block
        → Q (get_by_num blocks by_num by_hash I r c k o).0.config_block
    get_num_keeps r c k none h = h
    get_num_keeps r c k (some s) h = elim (Option-cases (by_num.held s k)) [
      | inl missing ↦ rw missing (loaded_num_keeps c s k (r.retrieve_block_by_number k) h)
      | inr (b, held) ↦ rw held h
    ]

    pinned_or_keeps :
        (k : ℕ) (o : Option Block) (c : Cache blocks by_num by_hash I)
        (got : Cache blocks by_num by_hash I × Outcome String Block)
        → Q c.config_block
        → Q got.0.config_block
        → Q (pinned_or blocks by_num by_hash I k o c got).0.config_block
    pinned_or_keeps k none c got h g = g
    pinned_or_keeps k (some cb) c got h g = elim (Bool-cases (number cb == k)) [
      | inl q ↦ rw q h
      | inr q ↦ rw q g
    ]

    loaded_hash_keeps :
        (c : Cache blocks by_num by_hash I) (s : by_hash.State) (k : Bytes)
        (answer : Outcome String Block)
        → Q c.config_block
        → Q (loaded_by_hash blocks by_num by_hash I c s k answer).0.config_block
    loaded_hash_keeps c s k (ok b) h = keeps b c h
    loaded_hash_keeps c s k (err e) h = h
    loaded_hash_keeps c s k panic h = h

    get_hash_keeps :
        (r : Retriever blocks) (c : Cache blocks by_num by_hash I) (k : Bytes)
        (o : Option by_hash.State)
        → Q c.config_block
        → Q (get_by_hash blocks by_num by_hash I r c k o).0.config_block
    get_hash_keeps r c k none h = h
    get_hash_keeps r c k (some s) h = elim (Option-cases (by_hash.held s k)) [
      | inl missing ↦ rw missing (loaded_hash_keeps c s k (r.retrieve_block_by_hash k) h)
      | inr (b, held) ↦ rw held h
    ]

    by_number_keeps :
        (r : Retriever blocks) (c : Cache blocks by_num by_hash I) (n : ℕ)
        → Q c.config_block
        → Q (get_block_by_number blocks by_num by_hash I r c n).0.config_block
    unfolding get_block_by_number
    by_number_keeps r c n q =
        pinned_or_keeps n c.config_block c
          (get_by_num blocks by_num by_hash I r c n c.blocks_by_num) q
          (get_num_keeps r c n c.blocks_by_num q)

    by_hash_keeps :
        (r : Retriever blocks) (c : Cache blocks by_num by_hash I) (h : Bytes)
        → Q c.config_block
        → Q (get_block_by_hash blocks by_num by_hash I r c h).0.config_block
    unfolding get_block_by_hash
    by_hash_keeps r c h q = get_hash_keeps r c h c.blocks_by_hash q

    Reach_keeps :
        {r : Retriever blocks} {c : Cache blocks by_num by_hash I} {bs : List Block}
        → Q none
        → Reach blocks by_num by_hash I r c bs
        → Q c.config_block
    unfolding new_cache put set_blockchain_info
    Reach_keeps none_pinned (start r info config l) = none_pinned
    Reach_keeps none_pinned (committed s b before g l) = keeps b _ (Reach_keeps none_pinned before)
    Reach_keeps none_pinned (asked_number {r = r} {c = c} n before) =
        by_number_keeps r c n (Reach_keeps none_pinned before)
    Reach_keeps none_pinned (asked_hash {r = r} {c = c} h before) =
        by_hash_keeps r c h (Reach_keeps none_pinned before)
    Reach_keeps none_pinned (informed info before) = Reach_keeps none_pinned before

  set_config-PinsConfigBlock :
      (b : Block) (c : Cache blocks by_num by_hash I)
      → PinsConfigBlock c.config_block
      → PinsConfigBlock (set_config_block blocks by_num by_hash I b c).config_block
  unfolding set_config_block
  set_config-PinsConfigBlock b c h = elim (Bool-cases (is_config_block blocks b)) [
    | inr other ↦ rw other h
    | inl config ↦ elim (Bool-cases (is_older blocks by_num by_hash I c.config_block b)) [
      | inl older ↦ rw (config, older) h
      | inr newer ↦ rw (config, newer) config
    ]
  ]

  older_pinned :
      (o : Option Block) (b : Block)
      → is_older blocks by_num by_hash I o b ≡ true
      → PinnedFrom (number b) o
  older_pinned none b h = cc
  older_pinned (some cb) b h = (cb, refl, ground arith)

  put_pins :
      (b : Block) (c : Cache blocks by_num by_hash I)
      → is_config_block blocks b ≡ true
      → PinnedFrom (number b) (set_config_block blocks by_num by_hash I b c).config_block
  unfolding set_config_block
  put_pins b c config = elim (Bool-cases (is_older blocks by_num by_hash I c.config_block b)) [
    | inl older ↦ rw (config, older) (older_pinned c.config_block b older)
    | inr newer ↦ rw (config, newer) (b, refl, omega arith)
  ]

  -- the caches of `put`, before it pins the block
  abbrev held_with : Block → Cache blocks by_num by_hash I → Cache blocks by_num by_hash I
  held_with b c = record c {
    blocks_by_num = set_by_num blocks by_num by_hash I b c.blocks_by_num;
    blocks_by_hash = set_by_hash blocks by_num by_hash I b c.blocks_by_hash;
  }

  -- Each config block of a list is pinned, or a later one is.
  abbrev pub HasPinned : Option Block → Block → Type 0
  HasPinned o b = is_config_block blocks b ≡ true → PinnedFrom (number b) o

  all_still :
      (o o' : Option Block) (bs : List Block)
      → ((n : ℕ) → PinnedFrom n o → PinnedFrom n o')
      → All (HasPinned o) bs
      → All (HasPinned o') bs
  all_still o o' [] f h = tt
  all_still o o' (b ∷ bs) f h = ((λ config. f (number b) (h.0 config)), all_still o o' bs f h.1)

  put_all :
      {r : Retriever blocks} {c : Cache blocks by_num by_hash I} {bs : List Block}
      → Reach blocks by_num by_hash I r c bs
      → All (HasPinned c.config_block) bs
  unfolding put set_blockchain_info
  put_all (start r info config l) = tt
  put_all (committed {c = c} {bs = bs} s b before g l) = (
    (λ config. put_pins b (held_with b c) config),
    all_still c.config_block _ bs (λ n h. set_config-PinnedFrom n b _ h) (put_all before),
  )
  put_all (asked_number {r = r} {c = c} {bs = bs} n before) =
      all_still c.config_block _ bs
        (λ k h. by_number_keeps (PinnedFrom k) (λ b d q. set_config-PinnedFrom k b d q) r c n h)
        (put_all before)
  put_all (asked_hash {r = r} {c = c} {bs = bs} x before) =
      all_still c.config_block _ bs
        (λ k h. by_hash_keeps (PinnedFrom k) (λ b d q. set_config-PinnedFrom k b d q) r c x h)
        (put_all before)
  put_all (informed info before) = put_all before

  -- After every such history the pinned block, if there is one, is a config block, and for each config
  -- block that was put there is one, with its number or a greater one, in whatever order the blocks
  -- were put and loaded.
  pub Reach-latest :
      {r : Retriever blocks} {c : Cache blocks by_num by_hash I} {bs : List Block}
      → Reach blocks by_num by_hash I r c bs
      → PinsConfigBlock c.config_block × All (HasPinned c.config_block) bs
  Reach-latest reach = (
    Reach_keeps PinsConfigBlock (λ b c h. set_config-PinsConfigBlock b c h) tt reach,
    put_all reach,
  )
