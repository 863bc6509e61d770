-- ===== src/ResourceMgr/Rounds.antt =====
-- The rounds of pkg/resource/resourcemgr.go come to an end.
use mathlib.Core.List.{Permᴰ}
use mathlib.Core.List.Permᴰ
use fabric_peer_ext.Prelude.{
  All, ℕ, zero, suc, ◌≤◌, ◌<◌, true, false, Bool-cases, String, Option, none, some, List, [], ◌∷◌,
  ◌++◌, append-nil, append_assoc, length, length-append, ◌≡◌, ◌≢◌, ◌⊎◌, inl, inr, refl, sym, ap,
  ◌∙◌, subst, arith,
}
use fabric_peer_ext.Prelude.Sort.{length-perm, All-perm}
use fabric_peer_ext.ResourceMgr.Given.{
  givers, gifts, givers-append, gifts-append, length-givers-gifts, AreGiven, AreGiven-append,
  IsDealt, IsMissing, initialize_from-IsRound,
}
use fabric_peer_ext.ResourceMgr.{
  Created, Fault, provider_not_found, other_error, Round, Manager, gives_up, initialize_round,
  initialize_loop, initialize,
}

module _ {Resource : Type 0} where
  -- A round that does not give up has an error and a resource, or no error.
  gives_up-cases :
      (err : Option Fault) (rs : List Resource)
      → gives_up err rs ≡ false
      → ((e : String) → err ≢ some (other_error e)) × ((err ≡ none) ⊎ (0 < length rs))
  gives_up-cases none rs h = ((λ e p. cc), inl refl)
  gives_up-cases (some (other_error e)) rs h = cc
  gives_up-cases (some (provider_not_found e)) [] h = cc
  gives_up-cases (some (provider_not_found e)) (r ∷ rs) h = ((λ e p. cc), inr (omega arith))

  gives_up_error : (err : Option Fault) (rs : List Resource) → gives_up err rs ≡ true → err ≢ none
  gives_up_error none rs h p = cc
  gives_up_error (some f) rs h p = cc

  gives_up_nil :
      (e : String) (rs : List Resource) → gives_up (some (provider_not_found e)) rs ≡ true → rs ≡ []
  gives_up_nil e [] h = refl
  gives_up_nil e (r ∷ rs) h = cc

other-ne-missing : (e u : String) → some (other_error e) ≢ some (provider_not_found u)
other-ne-missing e u p = cc

no_gifts :
    {Creator Resource : Type 0} (given : List (Creator × Resource)) → gifts given ≡ [] → given ≡ []
no_gifts [] h = refl
no_gifts ((c, r) ∷ given) h = cc

module _ {Creator Resource : Type 0} (create : List Resource → Creator → Created Resource) where
  -- What `Initialize` leaves: the resources are those that it starts with and what is then given, in
  -- order; each of the creators has given one of them or is left over; without an error none is,
  -- and with the error that a provider is missing, all that are left over miss one.
  pub record IsEnded (start providers : List Resource) (creators : List Creator)
      (resources : List Resource) (error : Option Fault) : Type 0 where
    pub given : List (Creator × Resource)
    pub left_over : List Creator
    pub as_given : AreGiven create providers given
    pub resources_are : resources ≡ start ++ gifts given
    pub each_once : Permᴰ creators (givers given ++ left_over)
    pub none_left : error ≡ none → left_over ≡ []
    pub all_missing :
        (e : String)
        → error ≡ some (provider_not_found e)
        → All (IsMissing create (providers ++ gifts given)) left_over

  module _ (resources providers : List Resource) (cs : List Creator)
      (round : Round Creator Resource) (d : IsDealt create providers cs [] [] round) where
    -- The rounds end with this one.
    last-IsEnded :
        gives_up round.error round.resources ≡ true
        → IsEnded resources providers cs (resources ++ round.resources) round.error
    last-IsEnded g = record {
      given = d.given;
      left_over = round.unsatisfied;
      as_given = d.as_given;
      resources_are = ap (λ l. resources ++ l) d.resources_are;
      each_once = d.each_once;
      none_left = λ p. absurd (gives_up_error round.error round.resources g p);
      all_missing = λ e p.
          let nothing : d.given ≡ [] = no_gifts d.given (
            sym d.resources_are
            ∙ gives_up_nil e round.resources (ap (λ x. gives_up x round.resources) (sym p) ∙ g)) in
          subst (λ l. All (IsMissing create (providers ++ gifts l)) round.unsatisfied) (sym nothing)
            (subst (λ l. All (IsMissing create l) round.unsatisfied) (sym (append-nil providers))
              (All-perm (IsMissing create providers)
                (subst (λ l. Permᴰ cs (givers l ++ round.unsatisfied)) nothing d.each_once)
                (d.all_missing nothing)));
    }

    -- They go on with those that are left.
    next-IsEnded :
        (rs : List Resource) (err : Option Fault)
        → IsEnded (resources ++ round.resources) round.providers round.unsatisfied rs err
        → IsEnded resources providers cs rs err
    next-IsEnded rs err n = record {
      given = d.given ++ n.given;
      left_over = n.left_over;
      as_given =
          AreGiven-append create providers d.given n.given d.as_given
            (subst (λ ps. AreGiven create ps n.given) d.providers_are n.as_given);
      resources_are =
          n.resources_are
          ∙ ap (λ l. (resources ++ l) ++ gifts n.given) d.resources_are
          ∙ append_assoc resources (gifts d.given) (gifts n.given)
          ∙ ap (λ l. resources ++ l) (sym (gifts-append d.given n.given));
      each_once = Permᴰ.trans d.each_once (
          subst (λ l. Permᴰ (givers d.given ++ round.unsatisfied) l)
            (sym (append_assoc (givers d.given) (givers n.given) n.left_over)
              ∙ ap (λ l. l ++ n.left_over) (sym (givers-append d.given n.given)))
            (Permᴰ.append_left (givers d.given) n.each_once));
      none_left = n.none_left;
      all_missing = λ e p.
          subst (λ l. All (IsMissing create l) n.left_over)
            (ap (λ l. l ++ gifts n.given) d.providers_are
              ∙ append_assoc providers (gifts d.given) (gifts n.given)
              ∙ ap (λ l. providers ++ l) (sym (gifts-append d.given n.given)))
            (n.all_missing e p);
    }

    -- A round that does not give up leaves fewer creators.
    fewer_left :
        (fuel : ℕ)
        → length cs ≤ suc fuel
        → 0 < length cs
        → (round.error ≡ none) ⊎ (0 < length round.resources)
        → length round.unsatisfied ≤ fuel
    fewer_left fuel h some_cs (inl e) =
        let none_left : length round.unsatisfied ≡ 0 = ap length (d.none_left e) in
        omega (arith, none_left)
    fewer_left fuel h some_cs (inr made_some) =
        let count = length-perm d.each_once in
        let given = ap length d.resources_are in
        omega (
          arith,
          count,
          given,
          made_some,
          h,
          length-append (givers d.given) round.unsatisfied,
          length-givers-gifts d.given,
        )

  abbrev pub EndsWell :
      List Resource → List Resource → List Creator → Option (List Resource × Option Fault) → Type 0
  EndsWell start providers creators o =
      (rs : List Resource) × (err : Option Fault) × (o ≡ some (rs, err))
      × IsEnded start providers creators rs err

  initialize_loop-EndsWell :
      (fuel : ℕ) (resources providers : List Resource) (cs : List Creator)
      → length cs ≤ fuel
      → EndsWell resources providers cs (initialize_loop create fuel resources providers cs)
  unfolding initialize_loop initialize_round
  initialize_loop-EndsWell fuel resources providers [] h = (
    resources,
    none,
    refl,
    record {
      given = [];
      left_over = [];
      as_given = tt;
      resources_are = sym (append-nil resources);
      each_once = Permᴰ.nil;
      none_left = λ p. refl;
      all_missing = λ e p. tt;
    },
  )
  initialize_loop-EndsWell zero resources providers (c ∷ cs) h = absurd (omega (arith, h))
  initialize_loop-EndsWell (suc fuel) resources providers (c ∷ cs) h =
      let round = initialize_round create providers (c ∷ cs) in
      let dealt = initialize_from-IsRound create providers (c ∷ cs) [] [] none (λ p. refl) in
      elim (Bool-cases (gives_up round.error round.resources)) [
        | inl g ↦ (
          resources ++ round.resources,
          round.error,
          rw g refl,
          elim dealt [
            | inl (t, e, no_resources) ↦ record {
              given = [];
              left_over = c ∷ cs;
              as_given = tt;
              resources_are = ap (λ l. resources ++ l) no_resources;
              each_once = Permᴰ.refl (c ∷ cs);
              none_left = λ p. absurd (gives_up_error round.error round.resources g p);
              all_missing = λ u p. absurd (other-ne-missing t u (sym e ∙ p));
            }
            | inr d ↦ last-IsEnded resources providers (c ∷ cs) round d g
          ],
        )
        | inr g ↦
            let (not_broken, progress) = gives_up-cases round.error round.resources g in
            elim dealt [
              | inl b ↦ absurd (not_broken b.0 b.1)
              | inr d ↦
                  let fewer =
                    fewer_left resources providers (c ∷ cs) round d fuel h (omega arith) progress in
                  let (rs, err, e, ended) =
                    initialize_loop-EndsWell fuel (resources ++ round.resources) round.providers
                      round.unsatisfied fewer in
                  (rs, err, rw g e, next-IsEnded resources providers (c ∷ cs) round d rs err ended)
            ]
      ]

  -- `Initialize` ends after at most as many rounds as there are creators, whatever the creators
  -- answer. The resources are then the earlier ones, the providers, and what creators have given,
  -- each for the providers and the resources given before it; each registered creator has given
  -- exactly one of them or none and is left over. When there is no error none is left over; when
  -- the error is that a provider was not found, every creator left over lacks a provider with all
  -- that was given.
  pub initialize_ends :
      (m : Manager Creator Resource) (providers : List Resource) (fuel : ℕ)
      → length m.creators ≤ fuel
      → (rs : List Resource) × (err : Option Fault) × (initialize create fuel m providers
          ≡ some (rs, err))
        × IsEnded (m.resources ++ providers) providers m.creators rs err
  unfolding initialize
  initialize_ends m providers fuel h =
      initialize_loop-EndsWell fuel (m.resources ++ providers) providers m.creators h
