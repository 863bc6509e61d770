-- ===== src/BlockCache/Coherent.antt =====
-- The cache of pkg/blkstorage/cdbblkstorage/blockcache.go answers as the store behind it does.
use fabric_peer_ext.Prelude.{
  ℕ, ◌==◌, ==_iff, Option, none, some, String, ◌≡◌, refl, sym, inl, inr, Bool-cases, Option-cases,
  subst,
}
use fabric_peer_ext.Prelude.Outcome.{Outcome, ok, err, panic}
use fabric_peer_ext.Prelude.Bytes.{Bytes}
use fabric_peer_ext.Prelude.LoadingCache.{GCache, IsCoherent, set-IsCoherent}
use fabric_peer_ext.BlockCache.{
  Blocks, Retriever, BlockCache, is_config_block, is_older, set_config_block, get_by_num,
  loaded_by_num, pinned_or, get_block_by_number, get_by_hash, loaded_by_hash, get_block_by_hash,
}

module _ (blocks : Blocks) (by_num : GCache ℕ blocks.Block) (by_hash : GCache Bytes blocks.Block)
    (I : Type 0) where
  open blocks use {Block, number, header_hash}

  abbrev pub Cache : Type 0
  Cache = BlockCache blocks by_num by_hash I

  -- The store gives a block under its own number, and one that it gives under a hash under its number.
  pub record IsLedger (r : Retriever blocks) : Type 0 where
    pub numbered : (n : ℕ) (b : Block) → r.retrieve_block_by_number n ≡ ok b → number b ≡ n
    pub of_hash :
        (h : Bytes) (b : Block)
        → r.retrieve_block_by_hash h ≡ ok b
        → r.retrieve_block_by_number (number b) ≡ ok b

  abbrev pub OfPart : {S : Type 0} → (S → Type 0) → Option S → Type 0
  OfPart P none = Unit
  OfPart P (some s) = P s

  abbrev pub IsStored : Retriever blocks → Option Block → Type 0
  IsStored r none = Unit
  IsStored r (some b) = r.retrieve_block_by_number (number b) ≡ ok b

  -- What is held, and the pinned block, are in the store.
  pub record Agrees (c : Cache) (r : Retriever blocks) : Type 0 where
    pub pinned : IsStored r c.config_block
    pub numbers : OfPart (IsCoherent by_num r.retrieve_block_by_number) c.blocks_by_num
    pub hashes : OfPart (IsCoherent by_hash r.retrieve_block_by_hash) c.blocks_by_hash

  pub set_config-Agrees :
      (c : Cache) (r : Retriever blocks) (b : Block)
      → Agrees c r
      → r.retrieve_block_by_number (number b) ≡ ok b
      → Agrees (set_config_block blocks by_num by_hash I b c) r
  unfolding set_config_block
  set_config-Agrees c r b a stored = elim (Bool-cases (is_config_block blocks b)) [
    | inr other ↦ rw other a
    | inl config ↦ elim (Bool-cases (is_older blocks by_num by_hash I c.config_block b)) [
      | inl older ↦ rw (config, older) a
      | inr newer ↦
          rw (config, newer) (record { pinned = stored; numbers = a.numbers; hashes = a.hashes })
    ]
  ]

  with_num :
      (c : Cache) (r : Retriever blocks) (s : by_num.State)
      → Agrees c r
      → IsCoherent by_num r.retrieve_block_by_number s
      → Agrees (record c { blocks_by_num = some s }) r
  with_num c r s a h = record { pinned = a.pinned; numbers = h; hashes = a.hashes }

  with_hash :
      (c : Cache) (r : Retriever blocks) (s : by_hash.State)
      → Agrees c r
      → IsCoherent by_hash r.retrieve_block_by_hash s
      → Agrees (record c { blocks_by_hash = some s }) r
  with_hash c r s a h = record { pinned = a.pinned; numbers = a.numbers; hashes = h }

  touch_num :
      (r : Retriever blocks) (s : by_num.State) (n : ℕ)
      → IsCoherent by_num r.retrieve_block_by_number s
      → IsCoherent by_num r.retrieve_block_by_number (by_num.touch s n)
  unfolding IsCoherent
  touch_num r s n h j w t = h j w (by_num.held_touch s n j w t)

  touch_hash :
      (r : Retriever blocks) (s : by_hash.State) (k : Bytes)
      → IsCoherent by_hash r.retrieve_block_by_hash s
      → IsCoherent by_hash r.retrieve_block_by_hash (by_hash.touch s k)
  unfolding IsCoherent
  touch_hash r s k h j w t = h j w (by_hash.held_touch s k j w t)

  -- A call that leaves a cache that agrees with the store, and returns what the store has.
  abbrev pub Answers :
      Cache × Outcome String Block → Retriever blocks → Outcome String Block → Type 0
  Answers got r answer = Agrees got.0 r × (got.1 ≡ answer)

  loaded_num-Answers :
      (c : Cache) (r : Retriever blocks) (s : by_num.State) (n : ℕ) (answer : Outcome String Block)
      → IsLedger r
      → Agrees c r
      → IsCoherent by_num r.retrieve_block_by_number s
      → r.retrieve_block_by_number n ≡ answer
      → Answers (loaded_by_num blocks by_num by_hash I c s n answer) r answer
  loaded_num-Answers c r s n (ok b) l a h at =
      let own : r.retrieve_block_by_number (number b) ≡ ok b = rw (l.numbered n b at) at in
      (
        with_num (set_config_block blocks by_num by_hash I b c) r (by_num.set s n b)
            (set_config-Agrees c r b a own)
            (set-IsCoherent by_num r.retrieve_block_by_number s n b h at),
        refl,
      )
  loaded_num-Answers c r s n (err e) l a h at = (a, refl)
  loaded_num-Answers c r s n panic l a h at = (a, refl)

  get_num-Answers :
      (c : Cache) (r : Retriever blocks) (n : ℕ) (o : Option by_num.State)
      → IsLedger r
      → Agrees c r
      → OfPart (IsCoherent by_num r.retrieve_block_by_number) o
      → Answers (get_by_num blocks by_num by_hash I r c n o) r (r.retrieve_block_by_number n)
  unfolding IsCoherent
  get_num-Answers c r n none l a h = (a, refl)
  get_num-Answers c r n (some s) l a h = elim (Option-cases (by_num.held s n)) [
    | inl missing ↦
        rw missing (loaded_num-Answers c r s n (r.retrieve_block_by_number n) l a h refl)
    | inr (b, held) ↦
        rw held (with_num c r (by_num.touch s n) a (touch_num r s n h), sym (h n b held))
  ]

  pinned-Answers :
      (c : Cache) (r : Retriever blocks) (n : ℕ) (o : Option Block)
      (got : Cache × Outcome String Block)
      → Agrees c r
      → IsStored r o
      → Answers got r (r.retrieve_block_by_number n)
      → Answers (pinned_or blocks by_num by_hash I n o c got) r (r.retrieve_block_by_number n)
  pinned-Answers c r n none got a stored rest = rest
  pinned-Answers c r n (some cb) got a stored rest = elim (Bool-cases (number cb == n)) [
    | inl same ↦
        let is : number cb ≡ n = (==_iff (number cb) n).0 same in
        rw same (a, sym (subst (λ (k : ℕ). r.retrieve_block_by_number k ≡ ok cb) is stored))
    | inr other ↦ rw other rest
  ]

  pub get_block_by_number-Answers :
      (c : Cache) (r : Retriever blocks) (n : ℕ)
      → IsLedger r
      → Agrees c r
      → Answers (get_block_by_number blocks by_num by_hash I r c n) r (r.retrieve_block_by_number n)
  unfolding get_block_by_number
  get_block_by_number-Answers c r n l a =
      pinned-Answers c r n c.config_block (get_by_num blocks by_num by_hash I r c n c.blocks_by_num)
        a a.pinned (get_num-Answers c r n c.blocks_by_num l a a.numbers)

  loaded_hash-Answers :
      (c : Cache) (r : Retriever blocks) (s : by_hash.State) (k : Bytes)
      (answer : Outcome String Block)
      → IsLedger r
      → Agrees c r
      → IsCoherent by_hash r.retrieve_block_by_hash s
      → r.retrieve_block_by_hash k ≡ answer
      → Answers (loaded_by_hash blocks by_num by_hash I c s k answer) r answer
  loaded_hash-Answers c r s k (ok b) l a h at = (
    with_hash (set_config_block blocks by_num by_hash I b c) r (by_hash.set s k b)
        (set_config-Agrees c r b a (l.of_hash k b at))
        (set-IsCoherent by_hash r.retrieve_block_by_hash s k b h at),
    refl,
  )
  loaded_hash-Answers c r s k (err e) l a h at = (a, refl)
  loaded_hash-Answers c r s k panic l a h at = (a, refl)

  get_hash-Answers :
      (c : Cache) (r : Retriever blocks) (k : Bytes) (o : Option by_hash.State)
      → IsLedger r
      → Agrees c r
      → OfPart (IsCoherent by_hash r.retrieve_block_by_hash) o
      → Answers (get_by_hash blocks by_num by_hash I r c k o) r (r.retrieve_block_by_hash k)
  unfolding IsCoherent
  get_hash-Answers c r k none l a h = (a, refl)
  get_hash-Answers c r k (some s) l a h = elim (Option-cases (by_hash.held s k)) [
    | inl missing ↦ rw missing (loaded_hash-Answers c r s k (r.retrieve_block_by_hash k) l a h refl)
    | inr (b, held) ↦
        rw held (with_hash c r (by_hash.touch s k) a (touch_hash r s k h), sym (h k b held))
  ]

  pub get_block_by_hash-Answers :
      (c : Cache) (r : Retriever blocks) (k : Bytes)
      → IsLedger r
      → Agrees c r
      → Answers (get_block_by_hash blocks by_num by_hash I r c k) r (r.retrieve_block_by_hash k)
  unfolding get_block_by_hash
  get_block_by_hash-Answers c r k l a = get_hash-Answers c r k c.blocks_by_hash l a a.hashes
