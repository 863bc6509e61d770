-- ===== src/Validation/TxResults/Aligned.antt =====
-- The loops of pkg/validation/validator/txresults.go index three slices of one length. Here they
-- are shown to be walks over the slices side by side, which never panic.
use fabric_peer_ext.Prelude.{
  ℕ, ◌+◌, ◌≡◌, ◌==◌, refl, if◌then◌else◌, String, str_eq, List, [], ◌∷◌, ◌++◌, length, length-snoc,
  append_assoc, arith, Bool-cases, inl, inr,
}
use fabric_peer_ext.Prelude.Outcome.{ok, index-append, assign-append}
use fabric_peer_ext.Validation.TxFlags.{Codes, ValidationFlags, uint8}
use fabric_peer_ext.Validation.TxResults.{contains, merge_at, merge_loop, mark_at, mark_loop}

module _ (c : Codes) where
  open c use {not_validated, duplicate_txid}

  -- One transaction of `Merge`: its new code and its new ID.
  abbrev pub merge_code : ℕ → ℕ → ℕ
  merge_code f x = if f == not_validated then x else if x == not_validated then uint8 f else x

  abbrev pub merge_id : ℕ → ℕ → String → String → String
  merge_id f x tx_id own =
      if f == not_validated then own else if x == not_validated then tx_id else own

  unfoldable pub merge_codes : ValidationFlags → ValidationFlags → ValidationFlags
  merge_codes (f ∷ fs) (x ∷ xs) = merge_code f x ∷ merge_codes fs xs
  merge_codes _ _ = []

  unfoldable pub merge_ids :
      ValidationFlags → ValidationFlags → List String → List String → List String
  merge_ids (f ∷ fs) (x ∷ xs) (t ∷ ts) (o ∷ os) = merge_id f x t o ∷ merge_ids fs xs ts os
  merge_ids _ _ _ _ = []

  merge_at_lem :
      (i f : ℕ) (pt : List String) (t : String) (ts : List String) (px : ValidationFlags) (x : ℕ)
      (xs : ValidationFlags) (po : List String) (o : String) (os : List String)
      → i ≡ length pt
      → i ≡ length px
      → i ≡ length po
      → merge_at c i f (pt ++ t ∷ ts) (px ++ x ∷ xs, po ++ o ∷ os)
        ≡ ok (px ++ merge_code f x ∷ xs, po ++ merge_id f x t o ∷ os)
  unfolding merge_at
  merge_at_lem i f pt t ts px x xs po o os et ex eo = elim (Bool-cases (f == not_validated)) [
    | inl skip ↦ rw skip
    | inr take ↦
        rw (take, index-append px x xs i ex)
          (elim (Bool-cases (x == not_validated)) [
            | inl new ↦ rw (
              new,
              index-append pt t ts i et,
              assign-append px x xs (uint8 f) i ex,
              assign-append po o os t i eo,
            )
            | inr old ↦ rw (old, index-append po o os i eo)
          ])
  ]

  pub merge_loop_lem :
      (i : ℕ) (fs : ValidationFlags) (pt ts : List String) (px xs : ValidationFlags)
      (po os : List String)
      → i ≡ length pt
      → i ≡ length px
      → i ≡ length po
      → length ts ≡ length fs
      → length xs ≡ length fs
      → length os ≡ length fs
      → merge_loop c i fs (pt ++ ts) (px ++ xs, po ++ os)
        ≡ ok (px ++ merge_codes fs xs, po ++ merge_ids fs xs ts os)
  unfolding merge_loop merge_codes merge_ids
  merge_loop_lem i [] pt [] px [] po [] et ex eo lt lx lo = refl
  merge_loop_lem i (f ∷ fs) pt (t ∷ ts) px (x ∷ xs) po (o ∷ os) et ex eo lt lx lo =
      let y = merge_code f x in
      let z = merge_id f x t o in
      rw (merge_at_lem i f pt t ts px x xs po o os et ex eo) (
        simp append_assoc at (
          merge_loop_lem (i + 1) fs (pt ++ t ∷ []) ts (px ++ y ∷ []) xs (po ++ z ∷ []) os
            (length-snoc pt t i et) (length-snoc px y i ex) (length-snoc po z i eo) (omega arith)
            (omega arith) (omega arith)))
  merge_loop_lem i [] pt ts px xs po os et ex eo lt lx lo = absurd (omega arith)
  merge_loop_lem i (f ∷ fs) pt ts px xs po os et ex eo lt lx lo = absurd (omega arith)

  -- One ID of `markDuplicateTxIDs`.
  abbrev pub mark_code : List String → String → ℕ → ℕ
  mark_code seen t x =
      if str_eq t "" then x else if contains seen t then uint8 duplicate_txid else x

  abbrev pub now_seen : List String → String → List String
  now_seen seen t = if str_eq t "" then seen else if contains seen t then seen else t ∷ seen

  unfoldable pub mark_codes : List String → List String → ValidationFlags → ValidationFlags
  mark_codes seen (t ∷ ts) (x ∷ xs) = mark_code seen t x ∷ mark_codes (now_seen seen t) ts xs
  mark_codes _ _ _ = []

  mark_at_lem :
      (i : ℕ) (t : String) (seen : List String) (px : ValidationFlags) (x : ℕ)
      (xs : ValidationFlags)
      → i ≡ length px
      → mark_at c i t (seen, px ++ x ∷ xs) ≡ ok (now_seen seen t, px ++ mark_code seen t x ∷ xs)
  unfolding mark_at
  mark_at_lem i t seen px x xs ex = elim (Bool-cases (str_eq t "")) [
    | inl blank ↦ rw blank
    | inr some_id ↦ rw some_id (elim (Bool-cases (contains seen t)) [
      | inl old ↦ rw (old, assign-append px x xs (uint8 duplicate_txid) i ex)
      | inr new ↦ rw new
    ])
  ]

  pub mark_loop_lem :
      (i : ℕ) (ts seen : List String) (px xs : ValidationFlags)
      → i ≡ length px
      → length xs ≡ length ts
      → mark_loop c i ts (seen, px ++ xs) ≡ ok (px ++ mark_codes seen ts xs)
  unfolding mark_loop mark_codes
  mark_loop_lem i [] seen px [] ex lx = refl
  mark_loop_lem i (t ∷ ts) seen px (x ∷ xs) ex lx =
      let y = mark_code seen t x in
      rw (mark_at_lem i t seen px x xs ex) (
        simp append_assoc at (
          mark_loop_lem (i + 1) ts (now_seen seen t) (px ++ y ∷ []) xs (length-snoc px y i ex)
            (omega arith)))
  mark_loop_lem i [] seen px xs ex lx = absurd (omega arith)
  mark_loop_lem i (t ∷ ts) seen px xs ex lx = absurd (omega arith)

  pub length-merge_codes :
      (fs xs : ValidationFlags) → length xs ≡ length fs → length (merge_codes fs xs) ≡ length fs
  unfolding merge_codes
  length-merge_codes [] [] e = refl
  length-merge_codes (f ∷ fs) (x ∷ xs) e = omega (arith, length-merge_codes fs xs (omega arith))
  length-merge_codes [] xs e = absurd (omega arith)
  length-merge_codes (f ∷ fs) xs e = absurd (omega arith)

  pub length-merge_ids :
      (fs xs : ValidationFlags) (ts os : List String)
      → length xs ≡ length fs
      → length ts ≡ length fs
      → length os ≡ length fs
      → length (merge_ids fs xs ts os) ≡ length fs
  unfolding merge_ids
  length-merge_ids [] [] [] [] ex et eo = refl
  length-merge_ids (f ∷ fs) (x ∷ xs) (t ∷ ts) (o ∷ os) ex et eo =
      omega (arith, length-merge_ids fs xs ts os (omega arith) (omega arith) (omega arith))
  length-merge_ids [] xs ts os ex et eo = ground arith
  length-merge_ids (f ∷ fs) xs ts os ex et eo = absurd (omega arith)

  pub length-mark_codes :
      (seen ts : List String) (xs : ValidationFlags)
      → length xs ≡ length ts
      → length (mark_codes seen ts xs) ≡ length ts
  unfolding mark_codes
  length-mark_codes seen [] [] e = refl
  length-mark_codes seen (t ∷ ts) (x ∷ xs) e =
      omega (arith, length-mark_codes (now_seen seen t) ts xs (omega arith))
  length-mark_codes seen [] xs e = absurd (omega arith)
  length-mark_codes seen (t ∷ ts) xs e = absurd (omega arith)
