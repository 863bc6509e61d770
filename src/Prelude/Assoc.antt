-- ===== src/Prelude/Assoc.antt =====
-- Go maps as association lists with one entry for each key, over any type of keys with a Boolean
-- equality. The order of the entries is that of the first insertions; Go fixes no order.
use fabric_peer_ext.Prelude.Tests.{◌==◌ as nat_beq, ==_iff, if◌then◌else◌, Bool-cases}
use fabric_peer_ext.Prelude.Lists.{All}
use Prim.Native.Nat.{ℕ}
use Prim.Native.String.{String}
use mathlib.Core.Path.{◌≡◌, refl, subst}
use mathlib.Core.Logic.{◌↔◌, inl, inr}
use mathlib.Core.Bool.{Bool, true}
use mathlib.Core.Option.{Option, none, some}
use mathlib.Core.List.{List, [], ◌∷◌}
use native.Mathlib.Omega.{arith}
use text.Mathlib.Text.{◌==◌ as str_eq}
use text.Mathlib.TextEquality.{eq_iff}

pub record Eq {ℓ} (A : Type ℓ) : Type ℓ where
  pub beq : A → A → Bool
  pub beq_iff : (a b : A) → (beq a b ≡ true) ↔ (a ≡ b)

instance abbrev pub nat_eq : Eq ℕ
nat_eq = record { beq = nat_beq; beq_iff = ==_iff }

instance abbrev pub string_eq : Eq String
string_eq = record { beq = str_eq; beq_iff = eq_iff }

module _ {ℓ κ} {K : Type ℓ} {V : Type κ} ⦃e : Eq K⦄ where
  unfoldable pub lookup : K → List (K × V) → Option V
  lookup k [] = none
  lookup k ((j, v) ∷ m) = if e.beq j k then some v else lookup k m

  unfoldable pub put : K → V → List (K × V) → List (K × V)
  put k v [] = (k, v) ∷ []
  put k v ((j, w) ∷ m) = if e.beq j k then (k, v) ∷ m else (j, w) ∷ put k v m

  unfoldable pub remove : K → List (K × V) → List (K × V)
  remove k [] = []
  remove k ((j, w) ∷ m) = let rest = remove k m in if e.beq j k then rest else (j, w) ∷ rest

  pub lookup_nil : (k : K) → lookup k [] ≡ none
  unfolding lookup
  lookup_nil k = refl

  pub lookup-put :
      (k j : K) (v : V) (m : List (K × V))
      → lookup j (put k v m) ≡ (if e.beq k j then some v else lookup j m)
  unfolding lookup put
  lookup-put k j v [] = refl
  lookup-put k j v ((i, w) ∷ m) =
      ground (arith, e.beq_iff k j, e.beq_iff i k, e.beq_iff i j, lookup-put k j v m)

  pub lookup-remove :
      (k j : K) (m : List (K × V))
      → lookup j (remove k m) ≡ (if e.beq k j then none else lookup j m)
  unfolding lookup remove
  lookup-remove k j [] = ground arith
  lookup-remove k j ((i, w) ∷ m) =
      ground (arith, e.beq_iff k j, e.beq_iff i k, e.beq_iff i j, lookup-remove k j m)

module _ {K V : Type 0} where
  pub All-put :
      ⦃e : Eq K⦄ (P : K × V → Type 0) (k : K) (v : V) (m : List (K × V))
      → P (k, v)
      → All P m
      → All P (put k v m)
  unfolding put
  All-put P k v [] h hs = (h, tt)
  All-put ⦃e⦄ P k v ((j, w) ∷ m) h hs = elim (Bool-cases (e.beq j k)) [
    | inl q ↦ rw q (h, hs.1)
    | inr q ↦ rw q (hs.0, All-put P k v m h hs.1)
  ]

-- What is held for a key, or a value for a missing key.
abbrev pub or_else {ℓ} : {A : Type ℓ} → Option A → A → A
or_else none a = a
or_else (some b) a = b

module _ {K V : Type 0} where
  pub All-lookup :
      ⦃e : Eq K⦄ (P : K × V → Type 0) (k : K) (z : V) (m : List (K × V))
      → P (k, z)
      → All P m
      → P (k, or_else (lookup k m) z)
  unfolding lookup
  All-lookup P k z [] h hs = h
  All-lookup ⦃e⦄ P k z ((j, w) ∷ m) h hs = elim (Bool-cases (e.beq j k)) [
    | inl q ↦ rw q (subst (λ i. P (i, w)) ((e.beq_iff j k).0 q) hs.0)
    | inr q ↦ rw q (All-lookup P k z m h hs.1)
  ]

  -- A property of what a key holds is kept by a put that keeps it at its own key.
  pub at_put :
      ⦃e : Eq K⦄ (P : V → Type 0) (j k : K) (v z : V) (m : List (K × V))
      → (k ≡ j → P v)
      → P (or_else (lookup j m) z)
      → P (or_else (lookup j (put k v m)) z)
  at_put ⦃e⦄ P j k v z m h p = elim (Bool-cases (e.beq k j)) [
    | inl q ↦ rw (lookup-put k j v m, q) (h ((e.beq_iff k j).0 q))
    | inr q ↦ rw (lookup-put k j v m, q) p
  ]

  pub at_put_same :
      ⦃e : Eq K⦄ (P : V → Type 0) (k : K) (v z : V) (m : List (K × V))
      → P v
      → P (or_else (lookup k (put k v m)) z)
  at_put_same ⦃e⦄ P k v z m h = rw (lookup-put k k v m, (e.beq_iff k k).1 refl) h
