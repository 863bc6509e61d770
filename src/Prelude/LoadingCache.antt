-- ===== src/Prelude/LoadingCache.antt =====
-- The caches of github.com/bluele/gcache, code outside the repository: an interface with the laws
-- that the repository's code relies on. A cache may drop what it holds, and holds only what was set.
use mathlib.Core.Path.{◌≡◌, refl, sym}
use mathlib.Core.Logic.{◌⊎◌, inl, inr}
use mathlib.Core.Option.{Option, none, some}
use mathlib.Core.List.{List, []}
use fabric_peer_ext.Prelude.Tests.{Bool-cases, Option-cases}
use fabric_peer_ext.Prelude.Outcome.{Outcome, ok, err, panic}
use fabric_peer_ext.Prelude.Assoc.{Eq, lookup, put, lookup_nil, lookup-put}

pub record GCache (K V : Type 0) : Type 1 where
  pub State : Type 0
  pub empty : State
  pub held : State → K → Option V
  -- the state after a key that is held was asked for
  pub touch : State → K → State
  pub set : State → K → V → State
  pub purge : State → State
  pub held_empty : (k : K) → held empty k ≡ none
  pub held_purge : (c : State) (k : K) → held (purge c) k ≡ none
  pub held_touch : (c : State) (k j : K) (v : V) → held (touch c k) j ≡ some v → held c j ≡ some v
  pub held_set :
      (c : State) (k j : K) (v w : V)
      → held (set c k v) j ≡ some w
      → ((k ≡ j) × (v ≡ w)) ⊎ (held c j ≡ some w)

module _ {E K V : Type 0} (cache : GCache K V) where
  open cache use {State, held, touch, set}

  abbrev pub keep_loaded : State → K → Outcome E V → State × Outcome E V
  keep_loaded c k (ok v) = (set c k v, ok v)
  keep_loaded c k (err e) = (c, err e)
  keep_loaded c k panic = (c, panic)

  abbrev pub hit_or_load : (K → Outcome E V) → State → K → Option V → State × Outcome E V
  hit_or_load load c k (some v) = (touch c k, ok v)
  hit_or_load load c k none = keep_loaded c k (load k)

  -- `Get` of a cache that was built with a loader.
  unfoldable pub get_or_load : (K → Outcome E V) → State → K → State × Outcome E V
  get_or_load load c k = hit_or_load load c k (held c k)

  -- What is held is what the loader gives.
  unfoldable pub IsCoherent : (K → Outcome E V) → State → Type 0
  IsCoherent load c = (k : K) (v : V) → held c k ≡ some v → load k ≡ ok v

  pub empty-IsCoherent : (load : K → Outcome E V) → IsCoherent load cache.empty
  unfolding IsCoherent
  empty-IsCoherent load k v h = cc (cache.held_empty k)

  pub purge-IsCoherent : (load : K → Outcome E V) (c : State) → IsCoherent load (cache.purge c)
  unfolding IsCoherent
  purge-IsCoherent load c k v h = cc (cache.held_purge c k)

  pub set-IsCoherent :
      (load : K → Outcome E V) (c : State) (k : K) (v : V)
      → IsCoherent load c
      → load k ≡ ok v
      → IsCoherent load (set c k v)
  unfolding IsCoherent
  set-IsCoherent load c k v h at j w there = elim (cache.held_set c k j v w there) [
    | inl (same, value) ↦ cc
    | inr before ↦ h j w before
  ]

  keep-IsCoherent :
      (load : K → Outcome E V) (c : State) (k : K) (r : Outcome E V)
      → IsCoherent load c
      → load k ≡ r
      → IsCoherent load (keep_loaded c k r).0
  keep-IsCoherent load c k (ok v) h at = set-IsCoherent load c k v h at
  keep-IsCoherent load c k (err e) h at = h
  keep-IsCoherent load c k panic h at = h

  keep_result : (c : State) (k : K) (r : Outcome E V) → (keep_loaded c k r).1 ≡ r
  keep_result c k (ok v) = refl
  keep_result c k (err e) = refl
  keep_result c k panic = refl

  pub get_or_load-IsCoherent :
      (load : K → Outcome E V) (c : State) (k : K)
      → IsCoherent load c
      → IsCoherent load (get_or_load load c k).0
  unfolding get_or_load IsCoherent
  get_or_load-IsCoherent load c k h = elim (Option-cases (held c k)) [
    | inl missing ↦ rw missing (keep-IsCoherent load c k (load k) h refl)
    | inr (v, there) ↦ rw there (λ j w t. h j w (cache.held_touch c k j w t))
  ]

  -- A coherent cache answers as its loader does.
  pub get_or_load-load :
      (load : K → Outcome E V) (c : State) (k : K)
      → IsCoherent load c
      → (get_or_load load c k).1 ≡ load k
  unfolding get_or_load IsCoherent
  get_or_load-load load c k h = elim (Option-cases (held c k)) [
    | inl missing ↦ rw missing (keep_result c k (load k))
    | inr (v, there) ↦ rw there (sym (h k v there))
  ]

some-inj : {A : Type 0} {a b : A} → some a ≡ some b → a ≡ b
some-inj e = cc

-- A cache without a bound.
module _ {K V : Type 0} ⦃e : Eq K⦄ where
  pub unbounded_set :
      (c : List (K × V)) (k j : K) (v w : V)
      → lookup j (put k v c) ≡ some w
      → ((k ≡ j) × (v ≡ w)) ⊎ (lookup j c ≡ some w)
  unbounded_set c k j v w h = elim (Bool-cases (e.beq k j)) [
    | inl q ↦ inl ((e.beq_iff k j).0 q, some-inj (rw (lookup-put k j v c, q) at h))
    | inr q ↦ inr (rw (lookup-put k j v c, q) at h)
  ]

  abbrev pub unbounded : GCache K V
  unbounded = record {
    State = List (K × V);
    empty = [];
    held = λ c k. lookup k c;
    touch = λ c k. c;
    set = λ c k v. put k v c;
    purge = λ c. [];
    held_empty = λ k. lookup_nil k;
    held_purge = λ c k. lookup_nil k;
    held_touch = λ c k j v h. h;
    held_set = unbounded_set;
  }
