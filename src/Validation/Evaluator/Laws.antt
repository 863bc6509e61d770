-- ===== src/Validation/Evaluator/Laws.antt =====
-- What a positive answer of `ValidateResults` of policyevaluator.go rests on, and what not.
use fabric_peer_ext.Prelude.{
  ◌≡◌, refl, ap, true, false, ◌⊎◌, String, str_eq, eq_iff, Option, none, some, List, [], ◌∷◌, ◌++◌,
  arith, Bool-cases, inl, inr,
}
use fabric_peer_ext.Validation.ResultsCache.{Results}
use fabric_peer_ext.Validation.Evaluator.{
  PolicyLibrary, verdict, get_signature_set, get_policy_validator, validate_from, validate_results,
}

module _ (lib : PolicyLibrary) (self_msp_id : String) where
  open lib use {Policy, evaluate_signed_data}

  -- A result that is decisive and passes: a local one, or one of the peer's own organisation
  -- whose signature the policy accepts.
  abbrev pub IsReliable : Option Policy → Results → Type 0
  IsReliable state r =
      (r.local ≡ true)
      ⊎ ((policy : Policy) × (r.msp_id ≡ self_msp_id)
          × ((get_policy_validator lib self_msp_id state).1 ≡ some policy)
          × (evaluate_signed_data policy (get_signature_set (r ∷ [])) ≡ none))

  -- Neither local nor of the own organisation.
  abbrev pub IsForeign : Results → Type 0
  IsForeign r = (r.local ≡ false) × (str_eq r.msp_id self_msp_id ≡ false)

  abbrev pub AllForeign : List Results → Type 0
  AllForeign [] = Unit
  AllForeign (r ∷ rs) = IsForeign r × AllForeign rs

  verdict-eq-none :
      (p : Option Policy) (r : Results)
      → verdict lib self_msp_id p r ≡ none
      → (policy : Policy) × (p ≡ some policy)
        × (evaluate_signed_data policy (get_signature_set (r ∷ [])) ≡ none)
  verdict-eq-none none r h = cc
  verdict-eq-none (some policy) r h = (policy, refl, ground arith)

  pub validate_from-IsReliable :
      (everything results : List Results) (state : Option Policy)
      → (validate_from lib self_msp_id everything results state).1 ≡ none
      → (before : List Results) × (r : Results) × (after : List Results) × (results
          ≡ before ++ r ∷ after)
        × AllForeign before
        × IsReliable state r
  unfolding validate_from
  validate_from-IsReliable everything [] state h = cc
  validate_from-IsReliable everything (r ∷ rs) state h =
      let ih = validate_from-IsReliable everything rs state in
      elim (Bool-cases (r.local)) [
        | inl here ↦ ([], r, rs, refl, tt, inl here)
        | inr away ↦ elim (Bool-cases (str_eq r.msp_id self_msp_id)) [
          | inr foreign ↦
              let (before, r', after, e, fs, good) = ih (ground (arith, h, away, foreign)) in
              (r ∷ before, r', after, ap (◌∷◌ r) e, ((away, foreign), fs), good)
          | inl own ↦
              let (policy, stored, accepted) =
                verdict-eq-none (get_policy_validator lib self_msp_id state).1 r
                  (ground (arith, h, away, own)) in
              (
                [],
                r,
                rs,
                refl,
                tt,
                inr (policy, (eq_iff r.msp_id self_msp_id).0 own, stored, accepted),
              )
        ]
      ]

  -- `ValidateResults` accepts results only if one of them is reliable and all before it are
  -- foreign: a reliable result is local, or it is of the peer's own organisation and the policy
  -- accepts its signature over its block number, its codes and its identity.
  pub validate_results-IsReliable :
      (results : List Results) (state : Option Policy)
      → (validate_results lib self_msp_id results state).1 ≡ none
      → (before : List Results) × (r : Results) × (after : List Results) × (results
          ≡ before ++ r ∷ after)
        × AllForeign before
        × IsReliable state r
  unfolding validate_results
  validate_results-IsReliable results state h = validate_from-IsReliable results results state h

  -- The same results with other transaction IDs.
  abbrev pub with_ids : (Results → List String) → List Results → List Results
  with_ids f [] = []
  with_ids f (r ∷ rs) = record r { tx_ids = f r } ∷ with_ids f rs

  validate_from-with_ids :
      (f : Results → List String) (everything results : List Results) (state : Option Policy)
      → validate_from lib self_msp_id (with_ids f everything) (with_ids f results) state
        ≡ validate_from lib self_msp_id everything results state
  unfolding validate_from
  validate_from-with_ids f [] [] state = refl
  validate_from-with_ids f (e ∷ es) [] state = refl
  validate_from-with_ids f everything (r ∷ rs) state =
      ground (arith, validate_from-with_ids f everything rs state)

  -- The transaction IDs of the results play no part in the answer of `ValidateResults`: whatever
  -- they are replaced by, the answer and the stored policy are the same.
  pub validate_results-with_ids :
      (f : Results → List String) (results : List Results) (state : Option Policy)
      → validate_results lib self_msp_id (with_ids f results) state
        ≡ validate_results lib self_msp_id results state
  unfolding validate_results
  validate_results-with_ids f results state = validate_from-with_ids f results results state
