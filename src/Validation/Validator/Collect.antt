-- ===== src/Validation/Validator/Collect.antt =====
-- `validateBlock` of pkg/validation/validator/validator.go reads the results of the transactions
-- in the order in which they arrive. The order makes no difference.
use mathlib.Core.List.{Permᴰ}
use fabric_peer_ext.Prelude.{
  ℕ, zero, suc, ◌<◌, ◌==◌, ◌≡◌, ◌≢◌, refl, ap, ◌∙◌, sym, subst, if◌then◌else◌, none, some, List, [],
  ◌∷◌, length, length-replicate, replicate, set, All, arith,
}
use fabric_peer_ext.Prelude.Outcome.{ok, assign}
use fabric_peer_ext.Prelude.Sort.{All-perm}
use fabric_peer_ext.Validation.TxFlags.{Codes, Error, uint8, new}
use fabric_peer_ext.Validation.Validator.{
  BlockValidationResult, Collected, earlier, collect_one, collect, validate_block,
}

assign-set {ℓ} :
    {A : Type ℓ} (xs : List A) (i : ℕ) (v : A)
    → i < length xs
    → assign {E = Error} xs i v ≡ ok (set xs i v)
assign-set [] i v h = absurd (omega arith)
assign-set (x ∷ xs) zero v h = refl
assign-set (x ∷ xs) (suc i) v h = rw (assign-set xs i v (omega arith))

set_comm {ℓ} :
    {A : Type ℓ} (xs : List A) (i j : ℕ) (v w : A)
    → i ≢ j
    → set (set xs i v) j w ≡ set (set xs j w) i v
set_comm [] i j v w ne = refl
set_comm (x ∷ xs) zero zero v w ne = absurd (ne refl)
set_comm (x ∷ xs) zero (suc j) v w ne = refl
set_comm (x ∷ xs) (suc i) zero v w ne = refl
set_comm (x ∷ xs) (suc i) (suc j) v w ne = ap (◌∷◌ x) (set_comm xs i j v w (omega arith))

length-set {ℓ} : {A : Type ℓ} (xs : List A) (i : ℕ) (v : A) → length (set xs i v) ≡ length xs
length-set [] i v = refl
length-set (x ∷ xs) zero v = refl
length-set (x ∷ xs) (suc i) v = ap suc (length-set xs i v)

-- No two results are for one transaction.
abbrev pub IsDistinct : List BlockValidationResult → Type 0
IsDistinct [] = Unit
IsDistinct (r ∷ rs) = All (λ r'. r.t_idx ≢ r'.t_idx) rs × IsDistinct rs

IsDistinct-perm :
    {rs rs' : List BlockValidationResult} → Permᴰ rs rs' → IsDistinct rs → IsDistinct rs'
IsDistinct-perm Permᴰ.nil h = h
IsDistinct-perm {rs = r ∷ rs} {rs' = r' ∷ rs'} (Permᴰ.cons e d) h = (
  subst (λ z. All (λ x. z.t_idx ≢ x.t_idx) rs') e (All-perm (λ x. r.t_idx ≢ x.t_idx) d h.0),
  IsDistinct-perm d h.1,
)
IsDistinct-perm (Permᴰ.swap {a = a} {b = b} {b' = b'} {l = l} e e') h =
    subst (λ z. IsDistinct (z ∷ b' ∷ l)) e'
      (subst (λ z. IsDistinct (b ∷ z ∷ l)) e (((λ q. h.0.0 (sym q)), h.1.0), (h.0.1, h.1.1)))
IsDistinct-perm (Permᴰ.trans d d') h = IsDistinct-perm d' (IsDistinct-perm d h)

module _ (c : Codes) (size : ℕ) where
  open c use {valid}

  -- One round where the index is in range.
  abbrev collected_one : BlockValidationResult → Collected → Collected
  collected_one res s = elim res.error [
    | some e ↦
        if earlier s.first_error res.t_idx
        then record s { first_error = some (e, res.t_idx) }
        else s
    | none ↦
        if res.validation_code == valid
        then record s {
          flags = set s.flags res.t_idx (uint8 res.validation_code);
          ids = set s.ids res.t_idx res.txid;
        }
        else record s { flags = set s.flags res.t_idx (uint8 res.validation_code) }
  ]

  abbrev IsSized : Collected → Type 0
  IsSized s = (length s.flags ≡ size) × (length s.ids ≡ size)

  collected_one-IsSized :
      (res : BlockValidationResult) (s : Collected) → IsSized s → IsSized (collected_one res s)
  collected_one-IsSized res s h = ground (
    arith,
    length-set s.flags res.t_idx (uint8 res.validation_code),
    length-set s.ids res.t_idx res.txid,
  )

  collect_one-eq :
      (res : BlockValidationResult) (s : Collected)
      → IsSized s
      → res.t_idx < size
      → collect_one c res s ≡ ok (collected_one res s)
  unfolding collect_one
  collect_one-eq res s h in_range = ground (
    arith,
    assign-set s.flags res.t_idx (uint8 res.validation_code),
    assign-set s.ids res.t_idx res.txid,
  )

  collected_one_comm :
      (a b : BlockValidationResult) (s : Collected)
      → a.t_idx ≢ b.t_idx
      → collected_one a (collected_one b s) ≡ collected_one b (collected_one a s)
  collected_one_comm a b s ne = ground (
    arith,
    set_comm s.flags b.t_idx a.t_idx (uint8 b.validation_code) (uint8 a.validation_code),
    set_comm s.ids b.t_idx a.t_idx b.txid a.txid,
  )

  abbrev InRange : List BlockValidationResult → Type 0
  InRange = All (λ r. r.t_idx < size)

  abbrev collected : List BlockValidationResult → Collected → Collected
  collected [] s = s
  collected (r ∷ rs) s = collected rs (collected_one r s)

  collect-eq :
      (rs : List BlockValidationResult) (s : Collected)
      → IsSized s
      → InRange rs
      → collect c rs s ≡ ok (collected rs s)
  unfolding collect
  collect-eq [] s h in_range = refl
  collect-eq (r ∷ rs) s h in_range =
      rw (collect_one-eq r s h in_range.0)
        (collect-eq rs (collected_one r s) (collected_one-IsSized r s h) in_range.1)

  collected-perm :
      {rs rs' : List BlockValidationResult} (s : Collected)
      → Permᴰ rs rs'
      → IsDistinct rs
      → collected rs s ≡ collected rs' s
  collected-perm s Permᴰ.nil h = refl
  collected-perm s (Permᴰ.cons {a = a} {b = b} {l₁ = l} {l₂ = l'} e d) h =
      collected-perm (collected_one a s) d h.1 ∙ ap (λ z. collected l' (collected_one z s)) e
  collected-perm s (Permᴰ.swap {a = a} {b = b} {a' = a'} {l = l} e e') h =
      ap (collected l) (collected_one_comm b a s (λ q. h.0.0 (sym q)))
      ∙ ap (λ z. collected l (collected_one a (collected_one z s))) e'
      ∙ ap (λ z. collected l (collected_one z (collected_one a' s))) e
  collected-perm s (Permᴰ.trans d d') h =
      collected-perm s d h ∙ collected-perm s d' (IsDistinct-perm d h)

  empty-IsSized :
      IsSized (record { first_error = none; flags = new c size; ids = replicate size "" })
  empty-IsSized = (length-replicate size (uint8 c.not_validated), length-replicate size "")

  -- For results with indexes in the block, one for each transaction at most, `validateBlock`
  -- returns without a panic, and its codes, its IDs and its error with the index of the error do
  -- not depend on the order in which the results arrive.
  pub validate_block-perm :
      (rs rs' : List BlockValidationResult)
      → Permᴰ rs rs'
      → IsDistinct rs
      → InRange rs
      → (s : Collected) × (validate_block c size rs ≡ ok s) × (validate_block c size rs' ≡ ok s)
  unfolding validate_block
  validate_block-perm rs rs' d h in_range =
      let start : Collected = record {
        first_error = none;
        flags = new c size;
        ids = replicate size "";
      } in
      (
        collected rs start,
        collect-eq rs start empty-IsSized in_range,
        collect-eq rs' start empty-IsSized (All-perm (λ r. r.t_idx < size) d in_range)
            ∙ ap ok (sym (collected-perm start d h)),
      )
