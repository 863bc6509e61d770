-- ===== src/Validation/TxResults/Merged.antt =====
-- What `Merge` of pkg/validation/validator/txresults.go does to each transaction of the block.
use fabric_peer_ext.Prelude.{
  ℕ, zero, suc, ◌+◌, ◌<◌, ◌≡◌, ◌≢◌, ◌↔◌, ◌⊎◌, ◌==◌, refl, Bool, true, false, not, ◌&&◌, ◌||◌,
  if◌then◌else◌, String, str_eq, eq_iff, some, List, [], ◌∷◌, length, get_elem?, take, All, arith,
  Bool-cases, inl, inr, ==_iff,
}
use fabric_peer_ext.Prelude.Outcome.{ok, lt_of_get_elem?, get_elem?_of_lt}
use fabric_peer_ext.Validation.TxFlags.{Codes, ValidationFlags, uint8}
use fabric_peer_ext.Validation.TxResults.{
  TxResults, contains, merge, all_validated, unvalidated_from, unvalidated_map,
}
use fabric_peer_ext.Validation.TxResults.Aligned.{
  merge_code, merge_codes, merge_ids, now_seen, mark_codes, merge_loop_lem, mark_loop_lem,
  length-merge_codes, length-merge_ids, length-mark_codes,
}

-- One ID and one code for each transaction.
abbrev pub IsAligned : TxResults → Type 0
IsAligned r = length r.tx_ids ≡ length r.flags

module _ (c : Codes) where
  open c use {not_validated, duplicate_txid}

  abbrev pub merged : TxResults → ValidationFlags → List String → TxResults
  merged r fs ts =
      let ids = merge_ids c fs r.flags ts r.tx_ids in
      record r { flags = mark_codes c [] ids (merge_codes c fs r.flags); tx_ids = ids }

  length-merged_ids :
      (r : TxResults) (fs : ValidationFlags) (ts : List String)
      → IsAligned r
      → length fs ≡ length r.flags
      → length ts ≡ length r.tx_ids
      → length (merge_ids c fs r.flags ts r.tx_ids) ≡ length fs
  length-merged_ids r fs ts a ef et =
      length-merge_ids c fs r.flags ts r.tx_ids (omega arith) (omega arith) (omega arith)

  pub merged-IsAligned :
      (r : TxResults) (fs : ValidationFlags) (ts : List String)
      → IsAligned r
      → length fs ≡ length r.flags
      → length ts ≡ length r.tx_ids
      → IsAligned (merged r fs ts)
  merged-IsAligned r fs ts a ef et = omega (
    arith,
    length-merged_ids r fs ts a ef et,
    length-merge_codes c fs r.flags (omega arith),
    length-mark_codes c [] (merge_ids c fs r.flags ts r.tx_ids) (merge_codes c fs r.flags),
  )

  pub merge_lem :
      (r : TxResults) (fs : ValidationFlags) (ts : List String)
      → IsAligned r
      → length fs ≡ length r.flags
      → length ts ≡ length r.tx_ids
      → merge c r fs ts ≡ ok (merged r fs ts, all_validated c (merged r fs ts).flags)
  unfolding merge
  merge_lem r fs ts a ef et =
      let ids = merge_ids c fs r.flags ts r.tx_ids in
      let codes = merge_codes c fs r.flags in
      rw (
        eq_test _ _ ef,
        eq_test _ _ et,
        merge_loop_lem c 0 fs [] ts [] r.flags [] r.tx_ids refl refl refl (omega arith)
            (omega arith) (omega arith),
        mark_loop_lem c 0 ids [] [] codes refl (
            omega (
              arith,
              length-merged_ids r fs ts a ef et,
              length-merge_codes c fs r.flags (omega arith),
            )),
      )
    where
      eq_test : (a b : ℕ) → a ≡ b → (a == b) ≡ true
      eq_test a b e = ground arith

  -- the set of IDs grows by the ID that was looked at
  contains-now_seen :
      (seen : List String) (t u : String)
      → str_eq u "" ≡ false
      → contains (now_seen c seen t) u ≡ (contains seen u || str_eq t u)
  contains-now_seen seen t u h = ground (arith, eq_iff t u, eq_iff t "", eq_iff u "")

  get_elem?-mark_codes :
      (seen ts : List String) (xs : ValidationFlags) (j : ℕ) {t : String} {x : ℕ}
      → get_elem? ts j ≡ some t
      → get_elem? xs j ≡ some x
      → get_elem? (mark_codes c seen ts xs) j
        ≡ some (
            if not (str_eq t "") && (contains seen t || contains (take j ts) t)
            then uint8 duplicate_txid
            else x)
  unfolding mark_codes
  get_elem?-mark_codes seen (t ∷ ts) (x ∷ xs) zero et ex = ground arith
  get_elem?-mark_codes seen (t ∷ ts) (x ∷ xs) (suc j) {t = u} et ex =
      ground
        (arith, get_elem?-mark_codes (now_seen c seen t) ts xs j et ex, contains-now_seen seen t u)
  get_elem?-mark_codes seen [] xs j et ex = cc
  get_elem?-mark_codes seen (t ∷ ts) [] j et ex = cc

  get_elem?-merge_codes :
      (fs xs : ValidationFlags) (j : ℕ) {f x : ℕ}
      → get_elem? fs j ≡ some f
      → get_elem? xs j ≡ some x
      → get_elem? (merge_codes c fs xs) j ≡ some (merge_code c f x)
  unfolding merge_codes
  get_elem?-merge_codes (f ∷ fs) (x ∷ xs) zero ef ex = ground arith
  get_elem?-merge_codes (f ∷ fs) (x ∷ xs) (suc j) ef ex = get_elem?-merge_codes fs xs j ef ex
  get_elem?-merge_codes [] xs j ef ex = cc
  get_elem?-merge_codes (f ∷ fs) [] j ef ex = cc

  get_elem?-merge_ids :
      (fs xs : ValidationFlags) (ts os : List String) (j : ℕ) {f x : ℕ} {t o : String}
      → get_elem? fs j ≡ some f
      → get_elem? xs j ≡ some x
      → get_elem? ts j ≡ some t
      → get_elem? os j ≡ some o
      → get_elem? (merge_ids c fs xs ts os) j
        ≡ some (if f == not_validated then o else if x == not_validated then t else o)
  unfolding merge_ids
  get_elem?-merge_ids (f ∷ fs) (x ∷ xs) (t ∷ ts) (o ∷ os) zero ef ex et eo = ground arith
  get_elem?-merge_ids (f ∷ fs) (x ∷ xs) (t ∷ ts) (o ∷ os) (suc j) ef ex et eo =
      get_elem?-merge_ids fs xs ts os j ef ex et eo
  get_elem?-merge_ids [] xs ts os j ef ex et eo = cc
  get_elem?-merge_ids (f ∷ fs) [] ts os j ef ex et eo = cc
  get_elem?-merge_ids (f ∷ fs) (x ∷ xs) [] os j ef ex et eo = cc
  get_elem?-merge_ids (f ∷ fs) (x ∷ xs) (t ∷ ts) [] j ef ex et eo = cc

  -- The ID and the code that a merge leaves at an index, before duplicates are marked.
  abbrev pub merged_id : ℕ → ℕ → String → String → String
  merged_id f x t o = if f == not_validated then o else if x == not_validated then t else o

  -- For slices of one length `Merge` returns a new state without error or panic. At each index
  -- the ID is the one supplied if a code was supplied and none was set, else the old one; the code
  -- is chosen in the same way, except that it is DUPLICATE_TXID where the ID is not empty and
  -- occurs among the IDs at smaller indexes.
  pub merge-at_index :
      (r : TxResults) (fs : ValidationFlags) (ts : List String) (j : ℕ) {f x : ℕ} {t o : String}
      → IsAligned r
      → length fs ≡ length r.flags
      → length ts ≡ length r.tx_ids
      → get_elem? fs j ≡ some f
      → get_elem? r.flags j ≡ some x
      → get_elem? ts j ≡ some t
      → get_elem? r.tx_ids j ≡ some o
      → (r' : TxResults) × (done : Bool) × (merge c r fs ts ≡ ok (r', done))
        × (get_elem? r'.tx_ids j ≡ some (merged_id f x t o))
        × (get_elem? r'.flags j
            ≡ some (
                if not (str_eq (merged_id f x t o) "")
                  && contains (take j r'.tx_ids) (merged_id f x t o)
                then uint8 duplicate_txid
                else merge_code c f x))
  merge-at_index r fs ts j a ef et hf hx ht ho =
      let ids = merge_ids c fs r.flags ts r.tx_ids in
      let id_at = get_elem?-merge_ids fs r.flags ts r.tx_ids j hf hx ht ho in
      (
        merged r fs ts,
        all_validated c (merged r fs ts).flags,
        merge_lem r fs ts a ef et,
        id_at,
        get_elem?-mark_codes [] ids (merge_codes c fs r.flags) j id_at
            (get_elem?-merge_codes fs r.flags j hf hx),
      )

  -- what a merge that returns says of its arguments and its results
  pub merge-eq-ok :
      (r : TxResults) (fs : ValidationFlags) (ts : List String) {r' : TxResults} {done : Bool}
      → IsAligned r
      → merge c r fs ts ≡ ok (r', done)
      → (length fs ≡ length r.flags)
        × (length ts ≡ length r.tx_ids)
        × (r' ≡ merged r fs ts)
        × (done ≡ all_validated c r'.flags)
  merge-eq-ok r fs ts a h = elim (Bool-cases (length fs == length r.flags)) [
    | inr ne ↦ unfold merge in ground arith
    | inl ef ↦ elim (Bool-cases (length ts == length r.tx_ids)) [
      | inr ne ↦ unfold merge in ground arith
      | inl et ↦
          let nf = (==_iff _ _).0 ef in
          let nt = (==_iff _ _).0 et in let e = merge_lem r fs ts a nf nt in (nf, nt, cc e, cc e)
    ]
  ]

  pub merge-IsAligned :
      (r : TxResults) (fs : ValidationFlags) (ts : List String) {r' : TxResults} {done : Bool}
      → IsAligned r
      → merge c r fs ts ≡ ok (r', done)
      → IsAligned r'
  merge-IsAligned r fs ts a h =
      let (ef, et, e, _) = merge-eq-ok r fs ts a h in rw e (merged-IsAligned r fs ts a ef et)

  pub length-merge :
      (r : TxResults) (fs : ValidationFlags) (ts : List String) {r' : TxResults} {done : Bool}
      → IsAligned r
      → merge c r fs ts ≡ ok (r', done)
      → length r'.flags ≡ length r.flags
  length-merge r fs ts a h =
      let (ef, et, e, _) = merge-eq-ok r fs ts a h in
      rw e (
        omega (
          arith,
          length-merged_ids r fs ts a ef et,
          length-merge_codes c fs r.flags (omega arith),
          length-mark_codes c [] (merge_ids c fs r.flags ts r.tx_ids) (merge_codes c fs r.flags),
        ))

  -- where a code of the merged results comes from
  pub merge_source :
      (r : TxResults) (fs : ValidationFlags) (ts : List String) (j : ℕ) {r' : TxResults}
      {done : Bool} {y : ℕ}
      → IsAligned r
      → merge c r fs ts ≡ ok (r', done)
      → get_elem? r'.flags j ≡ some y
      → (f : ℕ) × (x : ℕ) × (get_elem? fs j ≡ some f)
        × (get_elem? r.flags j ≡ some x)
        × ((y ≡ uint8 duplicate_txid) ⊎ (y ≡ merge_code c f x))
  merge_source r fs ts j {r'} {done} {y} a h hy =
      let (ef, et, e, _) = merge-eq-ok r fs ts a h in
      let ids = merge_ids c fs r.flags ts r.tx_ids in
      let in_range : j < length (merged r fs ts).flags =
        lt_of_get_elem? (merged r fs ts).flags j (rw e at hy) in
      let len = merged-IsAligned r fs ts a ef et in
      let len_ids = length-merged_ids r fs ts a ef et in
      let (f, hf) = get_elem?_of_lt fs j (omega arith) in
      let (x, hx) = get_elem?_of_lt r.flags j (omega arith) in
      let (t, ht) = get_elem?_of_lt ids j (omega arith) in
      let code_at =
        get_elem?-mark_codes [] ids (merge_codes c fs r.flags) j ht
          (get_elem?-merge_codes fs r.flags j hf hx) in
      (f, x, hf, hx, ground (arith, code_at, hy, e))

  -- A merge that returns keeps one ID and one code for each transaction, and a transaction that
  -- has a code keeps it, or becomes a DUPLICATE_TXID: it never becomes unvalidated again.
  pub merge_keeps :
      (r : TxResults) (fs : ValidationFlags) (ts : List String) (j : ℕ) {r' : TxResults}
      {done : Bool} {f x : ℕ} {t o : String}
      → IsAligned r
      → merge c r fs ts ≡ ok (r', done)
      → get_elem? fs j ≡ some f
      → get_elem? r.flags j ≡ some x
      → get_elem? ts j ≡ some t
      → get_elem? r.tx_ids j ≡ some o
      → x ≢ not_validated
      → IsAligned r'
        × ((get_elem? r'.flags j ≡ some x) ⊎ (get_elem? r'.flags j ≡ some duplicate_txid))
        × (get_elem? r'.flags j ≢ some not_validated)
  merge_keeps r fs ts j {r'} {done} {f} {x} {t} {o} a h hf hx ht ho ne =
      let (ef, et, e, _) = merge-eq-ok r fs ts a h in
      let ids = merge_ids c fs r.flags ts r.tx_ids in
      let id_at = get_elem?-merge_ids fs r.flags ts r.tx_ids j hf hx ht ho in
      let code_at =
        get_elem?-mark_codes [] ids (merge_codes c fs r.flags) j id_at
          (get_elem?-merge_codes fs r.flags j hf hx) in
      rw e (
        merged-IsAligned r fs ts a ef et,
        ground (arith, code_at, c.duplicate_byte, c.duplicate_ne_not_validated),
        ground (arith, code_at, c.duplicate_byte, c.duplicate_ne_not_validated),
      )

  -- the test of `AllValidated` and the map of `UnvalidatedMap` agree
  pub all_validated-iff-unvalidated_from :
      (i : ℕ) (fs : ValidationFlags) → (all_validated c fs ≡ true) ↔ (unvalidated_from c i fs ≡ [])
  unfolding all_validated unvalidated_from
  all_validated-iff-unvalidated_from i [] = ground arith
  all_validated-iff-unvalidated_from i (f ∷ fs) =
      ground (arith, all_validated-iff-unvalidated_from (i + 1) fs)

  -- the test of `AllValidated` passes exactly if no code is NOT_VALIDATED
  pub all_validated-iff-All :
      (fs : ValidationFlags) → (all_validated c fs ≡ true) ↔ All (λ f. f ≢ not_validated) fs
  unfolding all_validated
  all_validated-iff-All [] = (λ h. tt, λ h. refl)
  all_validated-iff-All (f ∷ fs) = ground (arith, all_validated-iff-All fs)

  -- `Merge` reports that all is validated exactly if no code is NOT_VALIDATED, which is exactly if
  -- `UnvalidatedMap` is then empty.
  pub merge_done :
      (r : TxResults) (fs : ValidationFlags) (ts : List String) {r' : TxResults} {done : Bool}
      → IsAligned r
      → merge c r fs ts ≡ ok (r', done)
      → ((done ≡ true) ↔ All (λ f. f ≢ not_validated) r'.flags)
        × ((done ≡ true) ↔ (unvalidated_map c r' ≡ []))
  merge_done r fs ts {r'} a h =
      let e = (merge-eq-ok r fs ts a h).3 in
      rw e (all_validated-iff-All r'.flags, all_validated-iff-unvalidated_from 0 r'.flags)
