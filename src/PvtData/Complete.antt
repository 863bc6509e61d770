-- ===== src/PvtData/Complete.antt =====
-- All that expires is derived from the entries of pkg/pvtdatastorage/common/helper.go.
use fabric_peer_ext.Prelude.{
  ℕ, false, String, some, List, [], ◌∷◌, ◌++◌, map, All, if◌then◌else◌, ◌≡◌, refl, sym, ap, ◌∙◌,
  subst, Bool-cases, inl, inr,
}
use fabric_peer_ext.Prelude.Assoc.{Eq, nat_eq, lookup, or_else, at_put, at_put_same}
use fabric_peer_ext.Prelude.Outcome.{Outcome, ok, bind_ok}
use fabric_peer_ext.Prelude.Bytes.{Bytes, bytes_eq}
use fabric_peer_ext.PvtData.Keys.{DataKey, MissingDataKey}
use fabric_peer_ext.PvtData.Expiry.{
  TxPvtData, DataEntry, ExpiryData, ExpiryEntry, BtlPolicy, prepare_data_entries,
  get_or_create_collections, tx_nums_at, add_present_data, add_missing_data, never_expires, ByBlock,
  get_or_create_expiry_data, present_at, missing_at, prepare_expiry_entries_for_present_data,
  prepare_expiry_entries_for_missing_data, each_present, each_missing, expiry_entry,
  prepare_expiry_entries, tx_data_keys, coll_data_keys, data_keys, derive_keys,
}
use fabric_peer_ext.PvtData.Derived.{entries_blk}
use mathlib.Core.List.{Memᴰ}

module _ {A : Type 0} where
  mem_left : {x : A} (xs ys : List A) → Memᴰ x xs → Memᴰ x (xs ++ ys)
  mem_left [] ys m = elim m [ ]
  mem_left (y ∷ xs) ys (Memᴰ.head p) = Memᴰ.head p
  mem_left (y ∷ xs) ys (Memᴰ.tail m) = Memᴰ.tail (mem_left xs ys m)

  mem_right : {x : A} (xs ys : List A) → Memᴰ x ys → Memᴰ x (xs ++ ys)
  mem_right [] ys m = m
  mem_right (y ∷ xs) ys m = Memᴰ.tail (mem_right xs ys m)

  none_in : {x : A} → Memᴰ x [] → ⊥
  none_in m = elim m [ ]

mem_map : {A B : Type 0} {x : A} (f : A → B) (xs : List A) → Memᴰ x xs → Memᴰ (f x) (map f xs)
mem_map f [] m = elim m [ ]
mem_map f (y ∷ xs) (Memᴰ.head p) = Memᴰ.head (ap f p)
mem_map f (y ∷ xs) (Memᴰ.tail m) = Memᴰ.tail (mem_map f xs m)

-- What a key holds is held by an entry, unless it is what a missing key has.
held_by_entry :
    {K V : Type 0} ⦃e : Eq K⦄ (P : V → Type 0) (k : K) (z : V) (m : List (K × V))
    → (P z → ⊥)
    → P (or_else (lookup k m) z)
    → (v : V) × Memᴰ (k, v) m × P v
unfolding lookup
held_by_entry P k z [] n h = absurd (n h)
held_by_entry {K} {V} ⦃e⦄ P k z ((j, w) ∷ m) n h = elim (Bool-cases (e.beq j k)) [
  | inl q ↦ (
    w,
    Memᴰ.head (ap (λ i. (i, w)) (sym ((e.beq_iff j k).0 q))),
    subst (λ b. P (or_else (if b then some w else lookup k m) z)) q h,
  )
  | inr q ↦
      let (v, there, p) =
        held_by_entry P k z m n
          (subst (λ b. P (or_else (if b then some w else lookup k m) z)) q h) in
      (v, Memᴰ.tail there, p)
]

abbrev txs : ExpiryData → Bytes → Bytes → List ℕ
txs d ns coll = tx_nums_at coll (get_or_create_collections d ns).tx_nums

abbrev held : ByBlock → ℕ → Bytes → Bytes → List ℕ
held m e ns coll = txs (get_or_create_expiry_data m e) ns coll

got_present :
    (d : ExpiryData) (ns coll : Bytes) (t : ℕ) → Memᴰ t (txs (add_present_data d ns coll t) ns coll)
unfolding add_present_data get_or_create_collections
got_present d ns coll t =
    at_put_same (λ c. Memᴰ t (tx_nums_at coll c.tx_nums)) ns _ _ d
      (at_put_same (λ ts. Memᴰ t ts) coll _ [] _ (mem_right _ (t ∷ []) (Memᴰ.head refl)))

grow_present :
    (d : ExpiryData) (ns coll : Bytes) (t : ℕ) (ns' coll' : Bytes) (x : ℕ)
    → Memᴰ x (txs d ns' coll')
    → Memᴰ x (txs (add_present_data d ns coll t) ns' coll')
unfolding add_present_data get_or_create_collections
grow_present d ns coll t ns' coll' x h =
    at_put (λ c. Memᴰ x (tx_nums_at coll' c.tx_nums)) ns' ns _ _ d
      (λ same.
        let h' : Memᴰ x (txs d ns coll') = subst (λ n. Memᴰ x (txs d n coll')) (sym same) h in
        at_put (λ ts. Memᴰ x ts) coll' coll _ [] _
          (λ same'. mem_left _ (t ∷ []) (subst (λ c. Memᴰ x (txs d ns c)) (sym same') h')) h')
      h

grow_missing :
    (d : ExpiryData) (ns coll ns' coll' : Bytes) (x : ℕ)
    → Memᴰ x (txs d ns' coll')
    → Memᴰ x (txs (add_missing_data d ns coll) ns' coll')
unfolding add_missing_data get_or_create_collections
grow_missing d ns coll ns' coll' x h =
    at_put (λ c. Memᴰ x (tx_nums_at coll' c.tx_nums)) ns' ns _ _ d
      (λ same. subst (λ n. Memᴰ x (txs d n coll')) (sym same) h) h

module _ (e' : ℕ) (ns' coll' : Bytes) (x : ℕ) where
  abbrev Holds : ByBlock → Type 0
  Holds m = Memᴰ x (held m e' ns' coll')

  present_grows : (m : ByBlock) (k : DataKey) (e : ℕ) → Holds m → Holds (present_at m k e)
  unfolding get_or_create_expiry_data
  present_grows m k e h = elim (Bool-cases (never_expires e)) [
    | inl q ↦ rw q h
    | inr q ↦ rw q (
        at_put (λ d. Memᴰ x (txs d ns' coll')) e' e _ [] m
          (λ same.
            grow_present _ k.ns_coll_blk.ns k.ns_coll_blk.coll k.tx_num ns' coll' x
              (subst (λ i. Memᴰ x (held m i ns' coll')) (sym same) h))
          h)
  ]

  missing_grows : (m : ByBlock) (k : MissingDataKey) (e : ℕ) → Holds m → Holds (missing_at m k e)
  unfolding get_or_create_expiry_data
  missing_grows m k e h = elim (Bool-cases (never_expires e)) [
    | inl q ↦ rw q h
    | inr q ↦ rw q (
        at_put (λ d. Memᴰ x (txs d ns' coll')) e' e _ [] m
          (λ same.
            grow_missing _ k.ns_coll_blk.ns k.ns_coll_blk.coll ns' coll' x
              (subst (λ i. Memᴰ x (held m i ns' coll')) (sym same) h))
          h)
  ]

present-Holds :
    (m : ByBlock) (k : DataKey) (e : ℕ)
    → never_expires e ≡ false
    → Holds e k.ns_coll_blk.ns k.ns_coll_blk.coll k.tx_num (present_at m k e)
unfolding get_or_create_expiry_data
present-Holds m k e q = rw q (
    at_put_same (λ d. Memᴰ k.tx_num (txs d k.ns_coll_blk.ns k.ns_coll_blk.coll)) e _ [] m
      (got_present _ k.ns_coll_blk.ns k.ns_coll_blk.coll k.tx_num))

-- The key of a number that is noted is derived.
tx_key :
    (blk : ℕ) (ns coll : Bytes) (t : ℕ) (ts : List ℕ)
    → Memᴰ t ts
    → Memᴰ
        (record { ns_coll_blk = record { ns = ns; coll = coll; blk_num = blk }; tx_num = t })
        (tx_data_keys blk ns coll ts)
tx_key blk ns coll t [] m = elim m [ ]
tx_key blk ns coll t (u ∷ ts) (Memᴰ.head p) = Memᴰ.head (
    ap (λ v. record { ns_coll_blk = record { ns = ns; coll = coll; blk_num = blk }; tx_num = v }) p)
tx_key blk ns coll t (u ∷ ts) (Memᴰ.tail m) = Memᴰ.tail (tx_key blk ns coll t ts m)

module _ {A B : Type 0} where
  -- an element of what a loop with an inner loop collects
  mem_collected :
      {x : B} (f : A → List B) (collect : List A → List B) (a : A) (as' : List A)
      → ((b : A) (bs : List A) → collect (b ∷ bs) ≡ f b ++ collect bs)
      → Memᴰ a as'
      → Memᴰ x (f a)
      → Memᴰ x (collect as')
  mem_collected f collect a [] step m h = elim m [ ]
  mem_collected {x} f collect a (b ∷ bs) step (Memᴰ.head p) h =
      subst (Memᴰ x) (sym (step b bs)) (mem_left (f b) (collect bs) (subst (λ c. Memᴰ x (f c)) p h))
  mem_collected {x} f collect a (b ∷ bs) step (Memᴰ.tail m) h =
      subst (Memᴰ x) (sym (step b bs))
        (mem_right (f b) (collect bs) (mem_collected f collect a bs step m h))

held_key :
    (blk : ℕ) (d : ExpiryData) (ns coll : Bytes) (t : ℕ)
    → Memᴰ t (txs d ns coll)
    → Memᴰ
        (record { ns_coll_blk = record { ns = ns; coll = coll; blk_num = blk }; tx_num = t })
        (data_keys blk d)
unfolding get_or_create_collections lookup
held_key blk d ns coll t h =
    let (c, in_d, h') =
      held_by_entry (λ c. Memᴰ t (tx_nums_at coll c.tx_nums)) ns
        (record { tx_nums = []; missing = [] }) d none_in h in
    let (ts, in_c, h'') = held_by_entry (λ ts. Memᴰ t ts) coll [] c.tx_nums none_in h' in
    mem_collected (λ n. coll_data_keys blk n.0 n.1.tx_nums) (data_keys blk) (ns, c) d (λ n ns. refl)
      in_d
      (mem_collected (λ p. tx_data_keys blk ns p.0 p.1) (coll_data_keys blk ns) (coll, ts) c.tx_nums
        (λ p ps. refl) in_c (tx_key blk ns coll t ts h''))

mem_blk :
    (blk : ℕ) (k : DataKey) (ds : List DataEntry)
    → All (λ d. d.key.ns_coll_blk.blk_num ≡ blk) ds
    → Memᴰ k (map (λ d. d.key) ds)
    → k.ns_coll_blk.blk_num ≡ blk
mem_blk blk k [] h m = elim m [ ]
mem_blk blk k (d ∷ ds) h (Memᴰ.head p) = ap (λ i. i.ns_coll_blk.blk_num) p ∙ h.0
mem_blk blk k (d ∷ ds) h (Memᴰ.tail m) = mem_blk blk k ds h.1 m

module _ {A : Type 0} where
  ok-inj : (a b : A) → (let x : Outcome String A = ok a in x) ≡ ok b → a ≡ b
  ok-inj a b e = cc

module _ (btl : BtlPolicy) where
  present_keeps :
      (e' : ℕ) (ns' coll' : Bytes) (x : ℕ) (m m' : ByBlock) (ds : List DataEntry)
      → Holds e' ns' coll' x m
      → each_present btl m ds ≡ ok m'
      → Holds e' ns' coll' x m'
  unfolding each_present prepare_expiry_entries_for_present_data
  present_keeps e' ns' coll' x m m' [] h e = subst (Holds e' ns' coll' x) (ok-inj m m' e) h
  present_keeps e' ns' coll' x m m' (d ∷ ds) h e =
      let k = d.key in
      let (m₁, one, rest) =
        bind_ok (prepare_expiry_entries_for_present_data btl m k) (λ n. each_present btl n ds) m'
          e in
      let (y, due, made) =
        bind_ok (btl k.ns_coll_blk.ns k.ns_coll_blk.coll k.ns_coll_blk.blk_num)
          (λ y. ok (present_at m k y)) m₁ one in
      present_keeps e' ns' coll' x m₁ m' ds
        (subst (Holds e' ns' coll' x) (ok-inj _ m₁ made) (present_grows e' ns' coll' x m k y h))
        rest

  missing_keeps :
      (e' : ℕ) (ns' coll' : Bytes) (x : ℕ) (m m' : ByBlock) (ks : List MissingDataKey)
      → Holds e' ns' coll' x m
      → each_missing btl m ks ≡ ok m'
      → Holds e' ns' coll' x m'
  unfolding each_missing prepare_expiry_entries_for_missing_data
  missing_keeps e' ns' coll' x m m' [] h e = subst (Holds e' ns' coll' x) (ok-inj m m' e) h
  missing_keeps e' ns' coll' x m m' (k ∷ ks) h e =
      let (m₁, one, rest) =
        bind_ok (prepare_expiry_entries_for_missing_data btl m k) (λ n. each_missing btl n ks) m'
          e in
      let (y, due, made) =
        bind_ok (btl k.ns_coll_blk.ns k.ns_coll_blk.coll k.ns_coll_blk.blk_num)
          (λ y. ok (missing_at m k y)) m₁ one in
      missing_keeps e' ns' coll' x m₁ m' ks
        (subst (Holds e' ns' coll' x) (ok-inj _ m₁ made) (missing_grows e' ns' coll' x m k y h))
        rest

  present_noted :
      (k : DataKey) (x : ℕ) (m m' : ByBlock) (ds : List DataEntry)
      → Memᴰ k (map (λ d. d.key) ds)
      → btl k.ns_coll_blk.ns k.ns_coll_blk.coll k.ns_coll_blk.blk_num ≡ ok x
      → never_expires x ≡ false
      → each_present btl m ds ≡ ok m'
      → Holds x k.ns_coll_blk.ns k.ns_coll_blk.coll k.tx_num m'
  unfolding each_present prepare_expiry_entries_for_present_data
  present_noted k x m m' [] there due q e = elim there [ ]
  present_noted k x m m' (d ∷ ds) (Memᴰ.head p) due q e =
      let j = d.key in
      let (m₁, one, rest) =
        bind_ok (prepare_expiry_entries_for_present_data btl m j) (λ n. each_present btl n ds) m'
          e in
      let (y, due', made) =
        bind_ok (btl j.ns_coll_blk.ns j.ns_coll_blk.coll j.ns_coll_blk.blk_num)
          (λ y. ok (present_at m j y)) m₁ one in
      let same : y ≡ x = ok-inj y x (
        sym due'
        ∙ subst (λ i. btl i.ns_coll_blk.ns i.ns_coll_blk.coll i.ns_coll_blk.blk_num ≡ ok x) p
            due) in
      let now : Holds x j.ns_coll_blk.ns j.ns_coll_blk.coll j.tx_num m₁ =
        subst (Holds x j.ns_coll_blk.ns j.ns_coll_blk.coll j.tx_num)
          (ap (present_at m j) (sym same) ∙ ok-inj _ m₁ made) (present-Holds m j x q) in
      subst (λ i. Holds x i.ns_coll_blk.ns i.ns_coll_blk.coll i.tx_num m') (sym p)
        (present_keeps x j.ns_coll_blk.ns j.ns_coll_blk.coll j.tx_num m₁ m' ds now rest)
  present_noted k x m m' (d ∷ ds) (Memᴰ.tail there) due q e =
      let (m₁, one, rest) =
        bind_ok (prepare_expiry_entries_for_present_data btl m d.key) (λ n. each_present btl n ds)
          m' e in
      present_noted k x m₁ m' ds there due q rest

  -- Nothing is left behind: for each data key of the private data that is stored for a block, if the
  -- policy lets it expire there is an expiry entry at its expiring block for this block, and the key
  -- is among those that are derived from the entry.
  pub prepare_expiry_entries_complete :
      (blk : ℕ) (ts : List TxPvtData) (elg inelg : List MissingDataKey) (entries : List ExpiryEntry)
      (k : DataKey) (expiring_blk : ℕ)
      → prepare_expiry_entries btl blk (prepare_data_entries blk ts) elg inelg ≡ ok entries
      → Memᴰ k (map (λ d. d.key) (prepare_data_entries blk ts))
      → btl k.ns_coll_blk.ns k.ns_coll_blk.coll blk ≡ ok expiring_blk
      → never_expires expiring_blk ≡ false
      → (entry : ExpiryEntry) × Memᴰ entry entries
        × (entry.key ≡ record { expiring_blk = expiring_blk; committing_blk = blk })
        × Memᴰ k (derive_keys entry).0
  unfolding prepare_expiry_entries derive_keys get_or_create_expiry_data lookup
  prepare_expiry_entries_complete blk ts elg inelg entries k x made there due q =
      let ds = prepare_data_entries blk ts in
      let at_blk = mem_blk blk k ds (entries_blk blk ts) there in
      let (m, present, h₁) = bind_ok _ _ entries made in
      let (m₁, first, h₂) = bind_ok _ _ entries h₁ in
      let (m₂, second, h₃) = bind_ok _ _ entries h₂ in
      let ns = k.ns_coll_blk.ns in
      let coll = k.ns_coll_blk.coll in
      let noted =
        present_noted k x [] m ds there (subst (λ b. btl ns coll b ≡ ok x) (sym at_blk) due) q
          present in
      let noted₁ = missing_keeps x ns coll k.tx_num m m₁ elg noted first in
      let noted₂ = missing_keeps x ns coll k.tx_num m₁ m₂ inelg noted₁ second in
      let (d, in_m, in_d) =
        held_by_entry (λ d. Memᴰ k.tx_num (txs d ns coll)) x [] m₂ none_in noted₂ in
      let derived = held_key blk d ns coll k.tx_num in_d in
      (
        expiry_entry btl blk (x, d),
        subst (λ es. Memᴰ (expiry_entry btl blk (x, d)) es) (ok-inj _ entries h₃)
            (mem_map (expiry_entry btl blk) m₂ in_m),
        refl,
        subst
            (λ b.
              Memᴰ
                (record { ns_coll_blk = record k.ns_coll_blk { blk_num = b }; tx_num = k.tx_num })
                (data_keys blk d))
            (sym at_blk) derived,
      )
