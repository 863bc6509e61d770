-- ===== src/MultiRequest/Overlay.antt =====
-- `Values.Merge` of pkg/common/common.go, position by position.
use fabric_peer_ext.Prelude.{
  ℕ, zero, suc, ◌+◌, ◌≤◌, ltb, ltb→lt, true, false, if◌then◌else◌, Bool-cases, [], ◌∷◌, ◌++◌,
  append_assoc, length, replicate, length-replicate, ◌≡◌, refl, sym, ap, ◌∙◌, inl, inr, ◌⊎◌, arith,
  length-snoc,
}
use fabric_peer_ext.Prelude.Outcome.{ok, index-append, assign-append}
use fabric_peer_ext.MultiRequest.{
  Value, nil, is_nil, Values, all_set, copy, max_length, merge_values, merge,
}

abbrev pub first_set : Value → Value → Value
first_set v o = if is_nil v then o else v

-- The first values, with those that are nil taken from the second ones.
abbrev pub overlay : Values → Values → Values
overlay [] os = os
overlay (v ∷ vs) [] = v ∷ vs
overlay (v ∷ vs) (o ∷ os) = first_set v o ∷ overlay vs os

merge_values_lem :
    (os before after : Values) (i : ℕ)
    → i ≡ length before
    → length os ≤ length after
    → merge_values i os (before ++ after) ≡ ok (before ++ overlay after os)
unfolding merge_values
merge_values_lem [] before [] i e h = refl
merge_values_lem [] before (v ∷ vs) i e h = refl
merge_values_lem (o ∷ os) before [] i e h = absurd (omega arith)
merge_values_lem (o ∷ os) before (v ∷ vs) i e h = elim (Bool-cases (is_nil v)) [
  | inl n ↦
      rw
        (
          index-append before v vs i e,
          n,
          assign-append before v vs o i e,
          sym (append_assoc before (o ∷ []) vs),
          merge_values_lem os (before ++ o ∷ []) vs (i + 1) (length-snoc before o i e)
              (omega arith),
          append_assoc before (o ∷ []) (overlay vs os),
        )
        refl
  | inr n ↦
      rw
        (
          index-append before v vs i e,
          n,
          sym (append_assoc before (v ∷ []) vs),
          merge_values_lem os (before ++ v ∷ []) vs (i + 1) (length-snoc before v i e)
              (omega arith),
          append_assoc before (v ∷ []) (overlay vs os),
        )
        refl
]

overlay-nil : (os : Values) → overlay (replicate (length os) nil) os ≡ os
unfolding is_nil
overlay-nil [] = refl
overlay-nil (o ∷ os) = ap (◌∷◌ o) (overlay-nil os)

copy_all : (v : Values) → copy (replicate (length v) nil) v ≡ v
copy_all [] = refl
copy_all (x ∷ xs) = ap (◌∷◌ x) (copy_all xs)

copy-nil : (dst : Values) → copy dst [] ≡ dst
copy-nil [] = refl
copy-nil (d ∷ dst) = refl

overlay-copy :
    (n : ℕ) (v os : Values)
    → length v ≤ n
    → length os ≤ n
    → (n ≡ length v) ⊎ (n ≡ length os)
    → (overlay (copy (replicate n nil) v) os ≡ overlay v os)
      × (length os ≤ length (copy (replicate n nil) v))
overlay-copy n [] os a b c =
    let e : n ≡ length os = omega (arith, a, b, c) in
    (
      rw (copy-nil (replicate n nil), e) (overlay-nil os),
      rw (copy-nil (replicate n nil), length-replicate n nil) b,
    )
overlay-copy zero (x ∷ xs) os a b c = absurd (omega (arith, a))
overlay-copy (suc n) (x ∷ xs) [] a b c =
    let e : n ≡ length xs = omega (arith, a, c) in (rw (e, copy_all xs) refl, omega arith)
overlay-copy (suc n) (x ∷ xs) (o ∷ os) a b c =
    let (e, h) =
      overlay-copy n xs os (omega (arith, a)) (omega (arith, b))
        (elim c [ inl d ↦ inl (omega (arith, d)) | inr d ↦ inr (omega (arith, d)) ]) in
    (ap (◌∷◌ (first_set x o)) e, omega (arith, h))

max_length_lem :
    (v os : Values)
    → (length v ≤ max_length v os)
      × (length os ≤ max_length v os)
      × ((max_length v os ≡ length v) ⊎ (max_length v os ≡ length os))
max_length_lem v os = elim (Bool-cases (ltb (length os) (length v))) [
  | inl h ↦ rw h (omega arith, omega (arith, ltb→lt (length os) (length v) h), inl refl)
  | inr h ↦ rw h (ground arith, omega arith, inr refl)
]

-- `Merge` does not panic, and it returns at each position the first value there unless it is nil or
-- missing, and the second one otherwise.
pub merge-overlay : (v os : Values) → merge v os ≡ ok (overlay v os)
unfolding merge
merge-overlay v os =
    let (a, b, c) = max_length_lem v os in
    let (e, h) = overlay-copy (max_length v os) v os a b c in
    merge_values_lem os [] (copy (replicate (max_length v os) nil) v) 0 refl h ∙ ap ok e

pub length-overlay : (v os : Values) → length v ≤ length os → length (overlay v os) ≡ length os
length-overlay [] os h = refl
length-overlay (x ∷ xs) [] h = absurd (omega (arith, h))
length-overlay (x ∷ xs) (o ∷ os) h = ap suc (length-overlay xs os (omega (arith, h)))

is_nil-first_set : (v o : Value) → is_nil o ≡ false → is_nil (first_set v o) ≡ false
is_nil-first_set v o h = elim (Bool-cases (is_nil v)) [ inl e ↦ rw e h | inr e ↦ rw e e ]

pub all_set-overlay :
    (v os : Values) → length v ≤ length os → all_set os ≡ true → all_set (overlay v os) ≡ true
unfolding all_set
all_set-overlay [] os h e = e
all_set-overlay (x ∷ xs) [] h e = absurd (omega (arith, h))
all_set-overlay (x ∷ xs) (o ∷ os) h e = elim (Bool-cases (is_nil o)) [
  | inl n ↦ cc
  | inr n ↦
      let rest : all_set os ≡ true = cc in
      rw (is_nil-first_set x o n) (all_set-overlay xs os (omega (arith, h)) rest)
]
