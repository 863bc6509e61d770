-- ===== src/ResourceMgr/Given.antt =====
-- What a round of pkg/resource/resourcemgr.go does with its creators.
use mathlib.Core.List.{Permᴰ}
use mathlib.Core.List.Permᴰ
use fabric_peer_ext.Prelude.{
  All, Option, none, some, String, List, [], ◌∷◌, ◌++◌, map, append-nil, append_assoc, length, ◌≡◌,
  ◌≢◌, ◌⊎◌, inl, inr, refl, sym, ap, ◌∙◌, subst, arith,
}
use fabric_peer_ext.ResourceMgr.{
  Created, made, missing, broken, Fault, provider_not_found, other_error, Round, on_created,
  initialize_from,
}

module _ {Creator Resource : Type 0} where
  -- who gave resources, and what they gave, in order
  abbrev pub givers : List (Creator × Resource) → List Creator
  givers given = map (λ p. p.0) given

  abbrev pub gifts : List (Creator × Resource) → List Resource
  gifts given = map (λ p. p.1) given

  pub givers-append :
      (xs ys : List (Creator × Resource)) → givers (xs ++ ys) ≡ givers xs ++ givers ys
  givers-append [] ys = refl
  givers-append ((c, r) ∷ xs) ys = ap (λ l. c ∷ l) (givers-append xs ys)

  pub gifts-append : (xs ys : List (Creator × Resource)) → gifts (xs ++ ys) ≡ gifts xs ++ gifts ys
  gifts-append [] ys = refl
  gifts-append ((c, r) ∷ xs) ys = ap (λ l. r ∷ l) (gifts-append xs ys)

  pub length-givers-gifts :
      (xs : List (Creator × Resource)) → length (givers xs) ≡ length (gifts xs)
  length-givers-gifts [] = refl
  length-givers-gifts ((c, r) ∷ xs) = omega (arith, length-givers-gifts xs)

some-ne-none : {f : Fault} → some f ≢ none
some-ne-none e = cc

module _ {Creator Resource : Type 0} (create : List Resource → Creator → Created Resource) where
  -- Each resource is what its creator gives for the providers and the resources before it.
  abbrev pub AreGiven : List Resource → List (Creator × Resource) → Type 0
  AreGiven providers [] = Unit
  AreGiven providers ((c, r) ∷ given) =
      (create providers c ≡ made r) × AreGiven (providers ++ r ∷ []) given

  pub AreGiven-append :
      (providers : List Resource) (xs ys : List (Creator × Resource))
      → AreGiven providers xs
      → AreGiven (providers ++ gifts xs) ys
      → AreGiven providers (xs ++ ys)
  AreGiven-append providers [] ys h k = subst (λ ps. AreGiven ps ys) (append-nil providers) k
  AreGiven-append providers ((c, r) ∷ xs) ys h k = (
    h.0,
    AreGiven-append (providers ++ r ∷ []) xs ys h.1
        (subst (λ ps. AreGiven ps ys) (sym (append_assoc providers (r ∷ []) (gifts xs))) k),
  )

  abbrev pub IsMissing : List Resource → Creator → Type 0
  IsMissing providers c = (e : String) × (create providers c ≡ missing e)

  -- A round of the creators `cs` that has `rs`, `us` and `err` behind it goes on: what is given, the
  -- resources and providers that it leaves, where each creator ends, and if none is left over.
  pub record IsDealt (providers : List Resource) (cs : List Creator) (rs : List Resource)
      (us : List Creator) (round : Round Creator Resource) : Type 0 where
    pub given : List (Creator × Resource)
    pub as_given : AreGiven providers given
    pub resources_are : round.resources ≡ rs ++ gifts given
    pub providers_are : round.providers ≡ providers ++ gifts given
    pub each_once : Permᴰ (us ++ cs) (givers given ++ round.unsatisfied)
    pub none_left : round.error ≡ none → round.unsatisfied ≡ []
    pub all_missing : given ≡ [] → All (IsMissing providers) cs

  -- A round broke off, without resources, or it dealt with its creators.
  abbrev pub IsRound :
      List Resource → List Creator → List Resource → List Creator → Round Creator Resource → Type 0
  IsRound providers cs rs us round =
      ((e : String) × (round.error ≡ some (other_error e)) × (round.resources ≡ []))
      ⊎ IsDealt providers cs rs us round

  -- The next creator has given a resource.
  IsRound-made :
      (providers : List Resource) (c : Creator) (r : Resource) (cs : List Creator)
      (rs : List Resource) (us : List Creator) (round : Round Creator Resource)
      → create providers c ≡ made r
      → IsRound (providers ++ r ∷ []) cs (rs ++ r ∷ []) us round
      → IsRound providers (c ∷ cs) rs us round
  IsRound-made providers c r cs rs us round e (inl b) = inl b
  IsRound-made providers c r cs rs us round e (inr d) = inr (record {
    given = (c, r) ∷ d.given;
    as_given = (e, d.as_given);
    resources_are = d.resources_are ∙ append_assoc rs (r ∷ []) (gifts d.given);
    providers_are = d.providers_are ∙ append_assoc providers (r ∷ []) (gifts d.given);
    each_once = Permᴰ.trans (Permᴰ.middle c us cs) (Permᴰ.cons refl d.each_once);
    none_left = d.none_left;
    all_missing = λ e. cc;
  })

  -- The next creator has to wait.
  IsRound-missing :
      (providers : List Resource) (c : Creator) (cs : List Creator) (rs : List Resource)
      (us : List Creator) (round : Round Creator Resource)
      → IsMissing providers c
      → IsRound providers cs rs (us ++ c ∷ []) round
      → IsRound providers (c ∷ cs) rs us round
  IsRound-missing providers c cs rs us round lacks (inl b) = inl b
  IsRound-missing providers c cs rs us round lacks (inr d) = inr (record {
    given = d.given;
    as_given = d.as_given;
    resources_are = d.resources_are;
    providers_are = d.providers_are;
    each_once =
        subst (λ l. Permᴰ l (givers d.given ++ round.unsatisfied)) (append_assoc us (c ∷ []) cs)
          d.each_once;
    none_left = d.none_left;
    all_missing = λ e. (lacks, d.all_missing e);
  })

  pub initialize_from-IsRound :
      (providers : List Resource) (cs : List Creator) (rs : List Resource) (us : List Creator)
      (err : Option Fault)
      → (err ≡ none → us ≡ [])
      → IsRound providers cs rs us (initialize_from create providers cs rs us err)
  unfolding initialize_from
  initialize_from-IsRound providers [] rs us err h = inr (record {
    given = [];
    as_given = tt;
    resources_are = sym (append-nil rs);
    providers_are = sym (append-nil providers);
    each_once = Permᴰ.append-nil us;
    none_left = h;
    all_missing = λ e. tt;
  })
  initialize_from-IsRound providers (c ∷ cs) rs us err h =
      step (create providers c) refl
        (λ r. initialize_from-IsRound (providers ++ r ∷ []) cs (rs ++ r ∷ []) us err h)
        (λ e.
          initialize_from-IsRound providers cs rs (us ++ c ∷ []) (some (provider_not_found e))
            (λ p. absurd (some-ne-none p)))
    where
      step :
          (o : Created Resource)
          → create providers c ≡ o
          → ((r : Resource)
              → IsRound
                  (providers ++ r ∷ [])
                  cs
                  (rs ++ r ∷ [])
                  us
                  (initialize_from create (providers ++ r ∷ []) cs (rs ++ r ∷ []) us err))
          → ((e : String)
              → IsRound providers cs rs (us ++ c ∷ []) (
                  initialize_from create providers cs rs
                    (us ++ c ∷ [])
                    (some (provider_not_found e))))
          → IsRound providers (c ∷ cs) rs us (
              on_created o
                (λ r. initialize_from create (providers ++ r ∷ []) cs (rs ++ r ∷ []) us err)
                (λ e.
                  initialize_from create providers cs rs
                    (us ++ c ∷ [])
                    (some (provider_not_found e)))
                (λ e. record {
                  resources = [];
                  unsatisfied = [];
                  providers = providers;
                  error = some (other_error e);
                }))
      step (made r) e if_made if_missing = IsRound-made providers c r cs rs us _ e (if_made r)
      step (missing t) e if_made if_missing =
          IsRound-missing providers c cs rs us _ (t, e) (if_missing t)
      step (broken t) e if_made if_missing = inl (t, refl, refl)
