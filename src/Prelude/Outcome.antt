-- ===== src/Prelude/Outcome.antt =====
-- What a Go function returns: a value, an error, or a panic that unwinds the caller.
use Prim.Native.Nat.{ℕ, zero, suc, ◌<◌}
use mathlib.Core.Path.{◌≡◌, refl}
use mathlib.Core.List.{List, [], ◌∷◌, ◌++◌}
use fabric_peer_ext.Prelude.Lists.{length, get_elem?}
use mathlib.Core.Option.{some}
use native.Mathlib.Omega.{arith}

pub data Outcome {ℓ κ} (E : Type ℓ) (A : Type κ) : Type (ℓ ⊔ κ) where
  ok : A → Outcome E A
  err : E → Outcome E A
  panic : Outcome E A

infixl 5 ◌>>=◌
abbrev pub ◌>>=◌ {ℓ κ μ} :
    {E : Type ℓ} {A : Type κ} {B : Type μ} → Outcome E A → (A → Outcome E B) → Outcome E B
ok a >>= f = f a
err e >>= f = err e
panic >>= f = panic

module _ {ℓ κ} {E : Type ℓ} {A : Type κ} where
  -- `xs[i]`: an index out of range panics.
  abbrev pub index : List A → ℕ → Outcome E A
  index [] i = panic
  index (x ∷ xs) zero = ok x
  index (x ∷ xs) (suc i) = index xs i

  abbrev pub push_front : A → Outcome E (List A) → Outcome E (List A)
  push_front x (ok xs) = ok (x ∷ xs)
  push_front x (err e) = err e
  push_front x panic = panic

  -- `xs[i] = v`
  abbrev pub assign : List A → ℕ → A → Outcome E (List A)
  assign [] i v = panic
  assign (x ∷ xs) zero v = ok (v ∷ xs)
  assign (x ∷ xs) (suc i) v = push_front x (assign xs i v)

  pub index-append :
      (xs : List A) (y : A) (ys : List A) (i : ℕ) → i ≡ length xs → index (xs ++ y ∷ ys) i ≡ ok y
  index-append [] y ys i e = rw e
  index-append (x ∷ xs) y ys i e = rw e (index-append xs y ys (length xs) refl)

  pub assign-append :
      (xs : List A) (y : A) (ys : List A) (v : A) (i : ℕ)
      → i ≡ length xs
      → assign (xs ++ y ∷ ys) i v ≡ ok (xs ++ v ∷ ys)
  assign-append [] y ys v i e = rw e
  assign-append (x ∷ xs) y ys v i e = rw (e, assign-append xs y ys v (length xs) refl)

  pub index_of_get_elem? :
      (xs : List A) (i : ℕ) {x : A} → get_elem? xs i ≡ some x → index xs i ≡ ok x
  index_of_get_elem? [] i h = cc
  index_of_get_elem? (x ∷ xs) zero h = cc
  index_of_get_elem? (x ∷ xs) (suc i) h = index_of_get_elem? xs i h

pub lt_of_get_elem? {κ} :
    {A : Type κ} (xs : List A) (i : ℕ) {x : A} → get_elem? xs i ≡ some x → i < length xs
lt_of_get_elem? [] i h = cc
lt_of_get_elem? (x ∷ xs) zero h = omega arith
lt_of_get_elem? (x ∷ xs) (suc i) h = omega (arith, lt_of_get_elem? xs i h)

pub get_elem?_of_lt {κ} :
    {A : Type κ} (xs : List A) (i : ℕ) → i < length xs → (x : A) × (get_elem? xs i ≡ some x)
get_elem?_of_lt [] i h = absurd (omega arith)
get_elem?_of_lt (x ∷ xs) zero h = (x, refl)
get_elem?_of_lt (x ∷ xs) (suc i) h = get_elem?_of_lt xs i (omega arith)

-- What a chain that gives a value went through.
module _ {E A B : Type 0} where
  pub bind_ok :
      (m : Outcome E A) (f : A → Outcome E B) (b : B)
      → (m >>= f) ≡ ok b
      → (a : A) × (m ≡ ok a) × (f a ≡ ok b)
  bind_ok (ok a) f b h = (a, refl, h)
  bind_ok (err e) f b h = cc
  bind_ok panic f b h = cc

pub push_front_ok :
    {E A : Type 0} (x : A) (m : Outcome E (List A)) (ys : List A)
    → push_front x m ≡ ok ys
    → (xs : List A) × (m ≡ ok xs) × (ys ≡ x ∷ xs)
push_front_ok x (ok xs) ys h = (xs, refl, cc)
push_front_ok x (err e) ys h = cc
push_front_ok x panic ys h = cc
