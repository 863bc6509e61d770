-- ===== src/PvtData/ByBlock.antt =====
-- `dataAndExpiryEntriesByBlock` of pkg/pvtdatastorage/common/store.go: the entries of old blocks,
-- collected for each block.
use fabric_peer_ext.Prelude.{
  ℕ, ◌==◌, ==_iff, Bool, true, false, ◌||◌, ◌&&◌, String, Option, none, some, List, [], ◌∷◌,
  if◌then◌else◌, ◌≡◌, refl, sym, ap, ◌∙◌, subst, Bool-cases, Option-cases, inl, inr, arith,
}
use fabric_peer_ext.Prelude.Assoc.{nat_eq, lookup, put, lookup-put}
use fabric_peer_ext.Prelude.Outcome.{Outcome, ok, err, panic, ◌>>=◌}
use fabric_peer_ext.PvtData.Keys.{DataKey, ExpiryKey}
use fabric_peer_ext.PvtData.Expiry.{CollPvtRwSet, ExpiryData}

-- The maps of a block, by their entries; `none` stands for a nil map. The keys are those of maps, so
-- that an assignment adds an entry.
pub record DataAndExpiryEntries : Type 0 where
  pub data_entries : Option (List (DataKey × CollPvtRwSet))
  pub expiry_entries : Option (List (ExpiryKey × ExpiryData))

abbrev pub EntriesByBlock : Type 0
EntriesByBlock = List (ℕ × DataAndExpiryEntries)

-- an assignment to a map; to a nil map it panics
abbrev pub assign_to {ℓ} : {A : Type ℓ} → Option (List A) → A → Outcome String (List A)
assign_to none a = panic
assign_to (some m) a = ok (a ∷ m)

abbrev pub or_new : Option DataAndExpiryEntries → DataAndExpiryEntries → DataAndExpiryEntries
or_new none fresh = fresh
or_new (some e) fresh = e

-- one round of the first loop
unfoldable pub add_data_entry :
    EntriesByBlock → DataKey × CollPvtRwSet → Outcome String EntriesByBlock
add_data_entry m (k, v) =
    let e =
      or_new (lookup k.ns_coll_blk.blk_num m)
        (record { data_entries = some []; expiry_entries = some [] }) in
    do
      d ← assign_to e.data_entries (k, v)
      ok (put k.ns_coll_blk.blk_num (record e { data_entries = some d }) m)

-- one round of the second loop
unfoldable pub add_expiry_entry :
    EntriesByBlock → ExpiryKey × ExpiryData → Outcome String EntriesByBlock
add_expiry_entry m (k, v) =
    let e =
      or_new (lookup k.committing_blk m) (record { data_entries = none; expiry_entries = none }) in
    do
      x ← assign_to e.expiry_entries (k, v)
      ok (put k.committing_blk (record e { expiry_entries = some x }) m)

abbrev pub add_data_entries :
    EntriesByBlock → List (DataKey × CollPvtRwSet) → Outcome String EntriesByBlock
add_data_entries m [] = ok m
add_data_entries m (d ∷ ds) = do m' ← add_data_entry m d; add_data_entries m' ds

abbrev pub add_expiry_entries :
    EntriesByBlock → List (ExpiryKey × ExpiryData) → Outcome String EntriesByBlock
add_expiry_entries m [] = ok m
add_expiry_entries m (x ∷ xs) = do m' ← add_expiry_entry m x; add_expiry_entries m' xs

-- `dataAndExpiryEntriesByBlock`
unfoldable pub data_and_expiry_entries_by_block :
    List (DataKey × CollPvtRwSet) → List (ExpiryKey × ExpiryData) → Outcome String EntriesByBlock
unfolding add_data_entry add_expiry_entry
data_and_expiry_entries_by_block ds xs = do m ← add_data_entries [] ds; add_expiry_entries m xs

-- Each block that is there has both its maps.
abbrev IsFull : EntriesByBlock → Type 0
IsFull m =
    (b : ℕ) (e : DataAndExpiryEntries)
    → lookup b m ≡ some e
    → (d : List (DataKey × CollPvtRwSet)) × (x : List (ExpiryKey × ExpiryData)) × (e
        ≡ record { data_entries = some d; expiry_entries = some x })

abbrev is_there : Option DataAndExpiryEntries → Bool
is_there none = false
is_there (some e) = true

abbrev both : List (DataKey × CollPvtRwSet) → List (ExpiryKey × ExpiryData) → DataAndExpiryEntries
both d x = record { data_entries = some d; expiry_entries = some x }

some-inj : {a c : DataAndExpiryEntries} → some a ≡ some c → a ≡ c
some-inj e = cc

put-IsFull :
    (m : EntriesByBlock) (b : ℕ) (d : List (DataKey × CollPvtRwSet))
    (x : List (ExpiryKey × ExpiryData))
    → IsFull m
    → IsFull (put b (both d x) m)
put-IsFull m b d x full c e h =
    let h' : (if b == c then some (both d x) else lookup c m) ≡ some e =
      sym (lookup-put b c (both d x) m) ∙ h in
    elim (Bool-cases (b == c)) [
      | inl q ↦ (
        d,
        x,
        sym (some-inj (subst (λ t. (if t then some (both d x) else lookup c m) ≡ some e) q h')),
      )
      | inr q ↦ full c e (subst (λ t. (if t then some (both d x) else lookup c m) ≡ some e) q h')
    ]

put_there :
    (m : EntriesByBlock) (b c : ℕ) (e : DataAndExpiryEntries)
    → is_there (lookup c (put b e m)) ≡ ((b == c) || is_there (lookup c m))
put_there m b c e = elim (Bool-cases (b == c)) [
  | inl q ↦ rw (lookup-put b c e m, q) refl
  | inr q ↦ rw (lookup-put b c e m, q) refl
]

data_step :
    (m : EntriesByBlock) (k : DataKey) (v : CollPvtRwSet)
    → IsFull m
    → (m' : EntriesByBlock) × (add_data_entry m (k, v) ≡ ok m')
      × IsFull m'
      × ((c : ℕ) → is_there (lookup c m') ≡ ((k.ns_coll_blk.blk_num == c) || is_there (lookup c m)))
unfolding add_data_entry
data_step m k v full =
    let b = k.ns_coll_blk.blk_num in
    elim (Option-cases (lookup b m)) [
      | inl n ↦ (
        put b (both ((k, v) ∷ []) []) m,
        rw n refl,
        put-IsFull m b ((k, v) ∷ []) [] full,
        λ c. put_there m b c (both ((k, v) ∷ []) []),
      )
      | inr (e, s) ↦
          let (d, x, same) = full b e s in
          (
            put b (both ((k, v) ∷ d) x) m,
            rw (s, same) refl,
            put-IsFull m b ((k, v) ∷ d) x full,
            λ c. put_there m b c (both ((k, v) ∷ d) x),
          )
    ]

-- There is data of the block.
abbrev pub has_data : List (DataKey × CollPvtRwSet) → ℕ → Bool
has_data [] b = false
has_data (d ∷ ds) b = (d.0.ns_coll_blk.blk_num == b) || has_data ds b

-- Each expiry entry is of a block that there is data of.
abbrev pub all_have_data : List (DataKey × CollPvtRwSet) → List (ExpiryKey × ExpiryData) → Bool
all_have_data ds [] = true
all_have_data ds (x ∷ xs) = has_data ds x.0.committing_blk && all_have_data ds xs

abbrev pub succeeds {ℓ} : {A : Type ℓ} → Outcome String A → Bool
succeeds (ok a) = true
succeeds (err e) = false
succeeds panic = false

data_loop :
    (m : EntriesByBlock) (ds : List (DataKey × CollPvtRwSet))
    → IsFull m
    → (m' : EntriesByBlock) × (add_data_entries m ds ≡ ok m')
      × IsFull m'
      × ((c : ℕ) → is_there (lookup c m') ≡ (has_data ds c || is_there (lookup c m)))
data_loop m [] full = (m, refl, full, λ c. refl)
data_loop m ((k, v) ∷ ds) full =
    let (m₁, one, full₁, there₁) = data_step m k v full in
    let (m', rest, full', there') = data_loop m₁ ds full₁ in
    (m', rw one rest, full', λ c. ground (arith, there' c, there₁ c))

expiry_step_there :
    (m : EntriesByBlock) (k : ExpiryKey) (v : ExpiryData) (e : DataAndExpiryEntries)
    → IsFull m
    → lookup k.committing_blk m ≡ some e
    → (m' : EntriesByBlock) × (add_expiry_entry m (k, v) ≡ ok m')
      × IsFull m'
      × ((c : ℕ) → is_there (lookup c m') ≡ is_there (lookup c m))
unfolding add_expiry_entry
expiry_step_there m k v e full s =
    let b = k.committing_blk in
    let (d, x, same) = full b e s in
    (
      put b (both d ((k, v) ∷ x)) m,
      rw (s, same) refl,
      put-IsFull m b d ((k, v) ∷ x) full,
      λ c. put_there m b c (both d ((k, v) ∷ x)) ∙ known c,
    )
  where
    known : (c : ℕ) → ((k.committing_blk == c) || is_there (lookup c m)) ≡ is_there (lookup c m)
    known c = elim (Bool-cases (k.committing_blk == c)) [
      | inl q ↦
          rw
            (
              q,
              subst (λ i. is_there (lookup i m) ≡ true) ((==_iff k.committing_blk c).0 q)
                  (ap is_there s),
            )
            refl
      | inr q ↦ rw q refl
    ]

expiry_loop :
    (ds : List (DataKey × CollPvtRwSet)) (m : EntriesByBlock) (xs : List (ExpiryKey × ExpiryData))
    → IsFull m
    → ((c : ℕ) → is_there (lookup c m) ≡ has_data ds c)
    → succeeds (add_expiry_entries m xs) ≡ all_have_data ds xs
unfolding add_expiry_entry
expiry_loop ds m [] full there = refl
expiry_loop ds m ((k, v) ∷ xs) full there = elim (Option-cases (lookup k.committing_blk m)) [
  | inl n ↦
      let none_there : has_data ds k.committing_blk ≡ false =
        sym (there k.committing_blk) ∙ ap is_there n in
      rw (n, none_there) refl
  | inr (e, s) ↦
      let (m', one, full', there') = expiry_step_there m k v e full s in
      let some_there : has_data ds k.committing_blk ≡ true =
        sym (there k.committing_blk) ∙ ap is_there s in
      ap (λ o. succeeds (o >>= (λ m₁. add_expiry_entries m₁ xs))) one
      ∙ expiry_loop ds m' xs full' (λ c. there' c ∙ there c)
      ∙ sym (ap (λ b. b && all_have_data ds xs) some_there)
]

-- The entries of old blocks are collected without a panic just if each expiry entry is of a block
-- for which there is a data entry too.
pub succeeds-data_and_expiry_entries_by_block :
    (ds : List (DataKey × CollPvtRwSet)) (xs : List (ExpiryKey × ExpiryData))
    → succeeds (data_and_expiry_entries_by_block ds xs) ≡ all_have_data ds xs
unfolding data_and_expiry_entries_by_block lookup
succeeds-data_and_expiry_entries_by_block ds xs =
    let (m, one, full, there) = data_loop [] ds (λ b e h. absurd (no_block h)) in
    ap (λ o. succeeds (o >>= (λ m'. add_expiry_entries m' xs))) one
    ∙ expiry_loop ds m xs full (λ c. there c ∙ or_false (has_data ds c))
  where
    no_block : {e : DataAndExpiryEntries} → none ≡ some e → ⊥
    no_block h = cc

    or_false : (b : Bool) → (b || false) ≡ b
    or_false true = refl
    or_false false = refl
