-- ===== src/Prelude/Sort.antt =====
-- Go's `sort.Sort`: it may swap elements in any way that its `Less` allows, and what the program
-- relies on is that the result is a permutation. The function is a parameter of the model.
use mathlib.Core.List.{Permᴰ}
use mathlib.Core.List.Permᴰ
use mathlib.Core.Path.{◌≡◌, refl, subst}
use mathlib.Core.Bool.{Bool}
use mathlib.Core.List.{List, [], ◌∷◌}
use native.Mathlib.Omega.{arith}
use fabric_peer_ext.Prelude.Tests.{if◌then◌else◌}
use fabric_peer_ext.Prelude.Lists.{length, All}

pub record Sort : Type 1 where
  pub sort : (A : Type 0) → (A → A → Bool) → List A → List A
  pub sort_perm : (A : Type 0) (less : A → A → Bool) (xs : List A) → Permᴰ (sort A less xs) xs

module _ {ℓ} {A : Type ℓ} where
  pub perm_nil : {xs ys : List A} → Permᴰ xs ys → ys ≡ [] → xs ≡ []
  perm_nil Permᴰ.nil e = refl
  perm_nil (Permᴰ.cons p d) e = cc
  perm_nil (Permᴰ.swap p q) e = cc
  perm_nil (Permᴰ.trans d d') e = perm_nil d (perm_nil d' e)

  pub perm_singleton : {xs ys : List A} (y : A) → Permᴰ xs ys → ys ≡ y ∷ [] → xs ≡ y ∷ []
  perm_singleton y Permᴰ.nil e = e
  perm_singleton y (Permᴰ.cons p d) e = ground (arith, perm_nil d)
  perm_singleton y (Permᴰ.swap p q) e = ground arith
  perm_singleton y (Permᴰ.trans d d') e = perm_singleton y d (perm_singleton y d' e)

  pub length-perm : {xs ys : List A} → Permᴰ xs ys → length xs ≡ length ys
  length-perm Permᴰ.nil = refl
  length-perm (Permᴰ.cons p d) = omega (arith, length-perm d)
  length-perm (Permᴰ.swap p q) = omega arith
  length-perm (Permᴰ.trans d d') = omega (arith, length-perm d, length-perm d')

  pub All-perm {κ} : (P : A → Type κ) {xs ys : List A} → Permᴰ xs ys → All P xs → All P ys
  All-perm P Permᴰ.nil h = h
  All-perm P (Permᴰ.cons p d) h = (subst P p h.0, All-perm P d h.1)
  All-perm P (Permᴰ.swap p q) h = (subst P q h.1.0, (subst P p h.0, h.1.1))
  All-perm P (Permᴰ.trans d d') h = All-perm P d' (All-perm P d h)

-- A sort that the witnesses use: insertion from the right.
abbrev pub insert {ℓ} : {A : Type ℓ} → (A → A → Bool) → A → List A → List A
insert less x [] = x ∷ []
insert less x (y ∷ ys) = let rest = insert less x ys in if less y x then y ∷ rest else x ∷ y ∷ ys

abbrev pub insertion_sort : (A : Type 0) → (A → A → Bool) → List A → List A
insertion_sort A less [] = []
insertion_sort A less (x ∷ xs) = insert less x (insertion_sort A less xs)

insert-perm :
    {A : Type 0} (less : A → A → Bool) (x : A) (ys : List A) → Permᴰ (insert less x ys) (x ∷ ys)
insert-perm less x [] = Permᴰ.refl (x ∷ [])
insert-perm less x (y ∷ ys) = choose (less y x) (insert-perm less x ys)
  where
    choose :
        (b : Bool)
        → Permᴰ (insert less x ys) (x ∷ ys)
        → Permᴰ (if b then y ∷ insert less x ys else x ∷ y ∷ ys) (x ∷ y ∷ ys)
    choose Bool.true d = Permᴰ.trans (Permᴰ.cons refl d) (Permᴰ.swap refl refl)
    choose Bool.false d = Permᴰ.refl (x ∷ y ∷ ys)

pub insertion_sort-perm :
    (A : Type 0) (less : A → A → Bool) (xs : List A) → Permᴰ (insertion_sort A less xs) xs
insertion_sort-perm A less [] = Permᴰ.nil
insertion_sort-perm A less (x ∷ xs) =
    Permᴰ.trans (insert-perm less x (insertion_sort A less xs))
      (Permᴰ.cons refl (insertion_sort-perm A less xs))

abbrev pub insertion : Sort
insertion = record { sort = insertion_sort; sort_perm = insertion_sort-perm }
