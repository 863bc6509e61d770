-- ===== src/PvtData/Derived.antt =====
-- What DeriveKeys gives for the entries of pkg/pvtdatastorage/common/helper.go: the keys that are
-- purged at a block.
use fabric_peer_ext.Prelude.{
  ℕ, String, List, [], ◌∷◌, ◌++◌, map, All, ◌≡◌, refl, sym, subst, Bool-cases, inl, inr,
}
use fabric_peer_ext.Prelude.Assoc.{nat_eq, All-put, All-lookup}
use fabric_peer_ext.Prelude.Outcome.{Outcome, ok, bind_ok}
use fabric_peer_ext.Prelude.Bytes.{Bytes, bytes_eq}
use fabric_peer_ext.PvtData.Keys.{DataKey, MissingDataKey}
use fabric_peer_ext.PvtData.Expiry.{
  CollPvtRwSet, NsPvtRwSet, TxPvtData, DataEntry, ExpiryData, ExpiryEntry, BtlPolicy,
  coll_data_entries, ns_data_entries, prepare_data_entries, get_or_create_collections, tx_nums_at,
  add_present_data, add_missing_data, never_expires, ByBlock, get_or_create_expiry_data, present_at,
  missing_at, prepare_expiry_entries_for_present_data, prepare_expiry_entries_for_missing_data,
  each_present, each_missing, expiry_entry, prepare_expiry_entries, tx_data_keys, coll_data_keys,
  data_keys, derive_keys,
}
use mathlib.Core.List.{Memᴰ}

module _ {A : Type 0} where
  pub All-append : (P : A → Type 0) (xs ys : List A) → All P xs → All P ys → All P (xs ++ ys)
  All-append P [] ys h k = k
  All-append P (x ∷ xs) ys h k = (h.0, All-append P xs ys h.1 k)

-- A property of each number of a transaction that is noted, by block, namespace and collection.
abbrev pub EachTx : (Bytes → ℕ → Type 0) → List (Bytes × List ℕ) → Type 0
EachTx P m = All (λ t. All (P t.0) t.1) m

abbrev pub EachNs : (Bytes → Bytes → ℕ → Type 0) → ExpiryData → Type 0
EachNs P d = All (λ n. EachTx (P n.0) n.1.tx_nums) d

abbrev pub EachBlock : (ℕ → Bytes → Bytes → ℕ → Type 0) → ByBlock → Type 0
EachBlock P m = All (λ b. EachNs (P b.0) b.1) m

module _ (P : Bytes → Bytes → ℕ → Type 0) where
  colls-EachTx :
      (d : ExpiryData) (ns : Bytes)
      → EachNs P d
      → EachTx (P ns) (get_or_create_collections d ns).tx_nums
  unfolding get_or_create_collections
  colls-EachTx d ns h = All-lookup (λ n. EachTx (P n.0) n.1.tx_nums) ns _ d tt h

  present-EachNs :
      (d : ExpiryData) (ns coll : Bytes) (t : ℕ)
      → EachNs P d
      → P ns coll t
      → EachNs P (add_present_data d ns coll t)
  unfolding add_present_data
  present-EachNs d ns coll t h p =
      let m = (get_or_create_collections d ns).tx_nums in
      let colls = colls-EachTx d ns h in
      All-put (λ n. EachTx (P n.0) n.1.tx_nums) ns _ d
        (All-put (λ c. All (P ns c.0) c.1) coll (tx_nums_at coll m ++ t ∷ []) m
          (All-append (P ns coll) (tx_nums_at coll m) (t ∷ [])
            (All-lookup (λ c. All (P ns c.0) c.1) coll [] m tt colls) (p, tt))
          colls)
        h

  missing-EachNs :
      (d : ExpiryData) (ns coll : Bytes) → EachNs P d → EachNs P (add_missing_data d ns coll)
  unfolding add_missing_data
  missing-EachNs d ns coll h =
      All-put (λ n. EachTx (P n.0) n.1.tx_nums) ns _ d (colls-EachTx d ns h) h

module _ (P : ℕ → Bytes → Bytes → ℕ → Type 0) where
  data-EachNs : (m : ByBlock) (e : ℕ) → EachBlock P m → EachNs (P e) (get_or_create_expiry_data m e)
  unfolding get_or_create_expiry_data
  data-EachNs m e h = All-lookup (λ b. EachNs (P b.0) b.1) e [] m tt h

  present-EachBlock :
      (m : ByBlock) (k : DataKey) (e : ℕ)
      → EachBlock P m
      → P e k.ns_coll_blk.ns k.ns_coll_blk.coll k.tx_num
      → EachBlock P (present_at m k e)
  present-EachBlock m k e h p = elim (Bool-cases (never_expires e)) [
    | inl q ↦ rw q h
    | inr q ↦ rw q (
        All-put (λ b. EachNs (P b.0) b.1) e _ m
          (present-EachNs (P e) _ k.ns_coll_blk.ns k.ns_coll_blk.coll k.tx_num (data-EachNs m e h)
            p)
          h)
  ]

  missing-EachBlock :
      (m : ByBlock) (k : MissingDataKey) (e : ℕ) → EachBlock P m → EachBlock P (missing_at m k e)
  missing-EachBlock m k e h = elim (Bool-cases (never_expires e)) [
    | inl q ↦ rw q h
    | inr q ↦ rw q (
        All-put (λ b. EachNs (P b.0) b.1) e _ m
          (missing-EachNs (P e) _ k.ns_coll_blk.ns k.ns_coll_blk.coll (data-EachNs m e h)) h)
  ]

module _ {A : Type 0} where
  ok-inj : (a b : A) → (let x : Outcome String A = ok a in x) ≡ ok b → a ≡ b
  ok-inj a b e = cc

module _ (btl : BtlPolicy) (blk : ℕ) where
  -- The data of the block that has the key is there, and it expires at the block.
  abbrev IsDue : List DataKey → ℕ → Bytes → Bytes → ℕ → Type 0
  IsDue all_keys e ns coll t =
      (btl ns coll blk ≡ ok e)
      × Memᴰ (record { ns_coll_blk = record { ns = ns; coll = coll; blk_num = blk }; tx_num = t })
          all_keys

  present_loop :
      (all_keys : List DataKey) (m m' : ByBlock) (ds : List DataEntry)
      → All (λ d. d.key.ns_coll_blk.blk_num ≡ blk) ds
      → ((k : DataKey) → Memᴰ k (map (λ d. d.key) ds) → Memᴰ k all_keys)
      → EachBlock (IsDue all_keys) m
      → each_present btl m ds ≡ ok m'
      → EachBlock (IsDue all_keys) m'
  unfolding each_present prepare_expiry_entries_for_present_data
  present_loop all_keys m m' [] bs sub h e = subst (EachBlock (IsDue all_keys)) (ok-inj m m' e) h
  present_loop all_keys m m' (d ∷ ds) bs sub h e =
      let k = d.key in
      let (m₁, one, rest) = bind_ok _ _ m' e in
      let (x, due, made) = bind_ok _ _ m₁ one in
      let there : Memᴰ k all_keys = sub k (Memᴰ.head refl) in
      let p : IsDue all_keys x k.ns_coll_blk.ns k.ns_coll_blk.coll k.tx_num = (
        subst (λ b. btl k.ns_coll_blk.ns k.ns_coll_blk.coll b ≡ ok x) bs.0 due,
        subst
            (λ b.
              Memᴰ
                (record { ns_coll_blk = record k.ns_coll_blk { blk_num = b }; tx_num = k.tx_num })
                all_keys)
            bs.0 there,
      ) in
      present_loop all_keys m₁ m' ds bs.1 (λ i j. sub i (Memᴰ.tail j))
        (subst (EachBlock (IsDue all_keys)) (ok-inj _ m₁ made)
          (present-EachBlock (IsDue all_keys) m k x h p))
        rest

  missing_loop :
      (P : ℕ → Bytes → Bytes → ℕ → Type 0) (m m' : ByBlock) (ks : List MissingDataKey)
      → EachBlock P m
      → each_missing btl m ks ≡ ok m'
      → EachBlock P m'
  unfolding each_missing prepare_expiry_entries_for_missing_data
  missing_loop P m m' [] h e = subst (EachBlock P) (ok-inj m m' e) h
  missing_loop P m m' (k ∷ ks) h e =
      let (m₁, one, rest) =
        bind_ok (prepare_expiry_entries_for_missing_data btl m k) (λ n. each_missing btl n ks) m'
          e in
      let (x, due, made) =
        bind_ok (btl k.ns_coll_blk.ns k.ns_coll_blk.coll k.ns_coll_blk.blk_num)
          (λ y. ok (missing_at m k y)) m₁ one in
      missing_loop P m₁ m' ks (subst (EachBlock P) (ok-inj _ m₁ made) (missing-EachBlock P m k x h))
        rest

module _ (P : Bytes → Bytes → ℕ → Type 0) (blk : ℕ) where
  abbrev KeyHas : DataKey → Type 0
  KeyHas k = (k.ns_coll_blk.blk_num ≡ blk) × P k.ns_coll_blk.ns k.ns_coll_blk.coll k.tx_num

  tx_keys_all :
      (ns coll : Bytes) (ts : List ℕ)
      → All (P ns coll) ts
      → All KeyHas (tx_data_keys blk ns coll ts)
  tx_keys_all ns coll [] h = tt
  tx_keys_all ns coll (t ∷ ts) h = ((refl, h.0), tx_keys_all ns coll ts h.1)

  coll_keys_all :
      (ns : Bytes) (m : List (Bytes × List ℕ))
      → EachTx (P ns) m
      → All KeyHas (coll_data_keys blk ns m)
  coll_keys_all ns [] h = tt
  coll_keys_all ns ((coll, ts) ∷ m) h =
      All-append KeyHas _ _ (tx_keys_all ns coll ts h.0) (coll_keys_all ns m h.1)

  pub keys_all : (d : ExpiryData) → EachNs P d → All KeyHas (data_keys blk d)
  keys_all [] h = tt
  keys_all ((ns, c) ∷ d) h = All-append KeyHas _ _ (coll_keys_all ns c.tx_nums h.0) (keys_all d h.1)

coll_entries_blk :
    (blk tx : ℕ) (ns : Bytes) (cs : List CollPvtRwSet)
    → All (λ d. d.key.ns_coll_blk.blk_num ≡ blk) (coll_data_entries blk tx ns cs)
coll_entries_blk blk tx ns [] = tt
coll_entries_blk blk tx ns (c ∷ cs) = (refl, coll_entries_blk blk tx ns cs)

ns_entries_blk :
    (blk tx : ℕ) (ns : List NsPvtRwSet)
    → All (λ d. d.key.ns_coll_blk.blk_num ≡ blk) (ns_data_entries blk tx ns)
ns_entries_blk blk tx [] = tt
ns_entries_blk blk tx (n ∷ ns) =
    All-append _ _ _ (coll_entries_blk blk tx n.namespace n.colls) (ns_entries_blk blk tx ns)

pub entries_blk :
    (blk : ℕ) (ts : List TxPvtData)
    → All (λ d. d.key.ns_coll_blk.blk_num ≡ blk) (prepare_data_entries blk ts)
unfolding prepare_data_entries
entries_blk blk [] = tt
entries_blk blk (t ∷ ts) =
    All-append _ _ _ (ns_entries_blk blk t.seq_in_block t.ns_pvt_rwset) (entries_blk blk ts)

module _ (btl : BtlPolicy) (blk : ℕ) where
  -- All that is derived from an entry expires at its block and was stored.
  abbrev pub IsDerivedRight : List DataKey → ExpiryEntry → Type 0
  IsDerivedRight all_keys entry =
      All
        (λ k.
          (btl k.ns_coll_blk.ns k.ns_coll_blk.coll blk ≡ ok entry.key.expiring_blk)
          × Memᴰ k all_keys)
        (derive_keys entry).0

  entries_right :
      (all_keys : List DataKey) (m : ByBlock)
      → EachBlock (IsDue btl blk all_keys) m
      → All (IsDerivedRight all_keys) (map (expiry_entry btl blk) m)
  unfolding derive_keys
  entries_right all_keys [] h = tt
  entries_right all_keys ((e, d) ∷ m) h = (
    keys_right (data_keys blk d) (keys_all (IsDue btl blk all_keys e) blk d h.0),
    entries_right all_keys m h.1,
  )
    where
      keys_right :
          (ks : List DataKey)
          → All (KeyHas (IsDue btl blk all_keys e) blk) ks
          → All (λ k. (btl k.ns_coll_blk.ns k.ns_coll_blk.coll blk ≡ ok e) × Memᴰ k all_keys) ks
      keys_right [] h = tt
      keys_right (k ∷ ks) ((b, (due, there)), hs) = (
        (
          due,
          subst
              (λ b.
                Memᴰ
                  (record { ns_coll_blk = record k.ns_coll_blk { blk_num = b }; tx_num = k.tx_num })
                  all_keys)
              (sym b) there,
        ),
        keys_right ks hs,
      )

  -- Nothing is purged early: every data key that is derived from an expiry entry of a block is the
  -- key of data that was stored for the block, and the policy lets it expire at the block of the
  -- entry.
  pub prepare_expiry_entries-IsDerivedRight :
      (ts : List TxPvtData) (elg inelg : List MissingDataKey) (entries : List ExpiryEntry)
      → prepare_expiry_entries btl blk (prepare_data_entries blk ts) elg inelg ≡ ok entries
      → All (IsDerivedRight (map (λ d. d.key) (prepare_data_entries blk ts))) entries
  unfolding prepare_expiry_entries
  prepare_expiry_entries-IsDerivedRight ts elg inelg entries h =
      let ds = prepare_data_entries blk ts in
      let all_keys = map (λ d. d.key) ds in
      let (m, present, h₁) = bind_ok _ _ entries h in
      let (m₁, first, h₂) = bind_ok _ _ entries h₁ in
      let (m₂, second, h₃) = bind_ok _ _ entries h₂ in
      let due = present_loop btl blk all_keys [] m ds (entries_blk blk ts) (λ k j. j) tt present in
      let due₁ = missing_loop btl blk (IsDue btl blk all_keys) m m₁ elg due first in
      let due₂ = missing_loop btl blk (IsDue btl blk all_keys) m₁ m₂ inelg due₁ second in
      subst (All (IsDerivedRight all_keys)) (ok-inj _ entries h₃) (entries_right all_keys m₂ due₂)
