-- ===== src/PropResp/Endorsed/Responses.antt =====
-- The responses that `validateResponses` of pkg/txn/proprespvalidator/validator.go lets through.
use fabric_peer_ext.Prelude.{
  ℕ, ◌≤◌, ◌<◌, ◌==◌, ==_iff, Option, none, some, List, [], ◌∷◌, ◌++◌, ◌≡◌, refl, sym, ap, ◌↔◌, All,
  Bool, true, false, ◌||◌, ◌&&◌, if◌then◌else◌, Bool-cases, inl, inr, arith, ltb, leb, subst,
}
use fabric_peer_ext.Prelude.Outcome.{Outcome, ok, err, panic, ◌>>=◌}
use fabric_peer_ext.Prelude.Bytes.{Bytes, bytes_beq, bytes_beq_iff}
use fabric_peer_ext.PropResp.{
  Error, text, ChaincodeResponse, Endorsement, ProposalResponse, Identity, Fabric,
}
use fabric_peer_ext.PropResp.Responses.{
  signature_of, validate_signature, response_of, validate_response, matches, match_first,
  validate_all, validate_responses, checked, status_success, status_bad_request,
}
use fabric_peer_ext.PropResp.Definitions.{wrapped}
use fabric_peer_ext.PropResp.Inversion.{bind_iff, wrapped_iff, checked_iff}

ok_inj : {E A : Type 0} {a b : A} → (let x : Outcome E A = ok a in x) ≡ ok b → a ≡ b
ok_inj h = cc

-- The status is that of a success, and a known and valid identity has signed the payload.
pub record IsGood (f : Fabric) (r : ProposalResponse) : Type 0 where
  pub answer : ChaincodeResponse
  pub answered : r.response ≡ some answer
  pub from_success : 200 ≤ answer.status
  pub below_bad_request : answer.status < 400
  pub endorsement : Endorsement
  pub endorsed : r.endorsement ≡ some endorsement
  pub identity : Identity
  pub known : f.deserialize_identity endorsement.endorser ≡ ok identity
  pub valid : identity.validate ≡ none
  pub signed : identity.verify (r.payload ++ endorsement.endorser) endorsement.signature ≡ none

abbrev pub IsSame : ProposalResponse → ProposalResponse → Type 0
IsSame r1 r = (r.payload ≡ r1.payload) × (r.response ≡ r1.response)

module _ (f : Fabric) where
  abbrev pub IsSigned : Bytes → Endorsement → Type 0
  IsSigned payload e =
      (i : Identity) × (f.deserialize_identity e.endorser ≡ ok i)
      × (i.validate ≡ none)
      × (i.verify (payload ++ e.endorser) e.signature ≡ none)

  signature_of-IsSigned :
      (payload : Bytes) (e : Endorsement)
      → signature_of f payload (some e) ≡ ok tt
      → IsSigned payload e
  signature_of-IsSigned payload e h =
      let (i, known, h1) =
        (bind_iff (wrapped "unable to deserialize identity" (f.deserialize_identity e.endorser)) _
            tt).0
          h in
      let (u, valid, h2) =
        (bind_iff (wrapped "the creator certificate is not valid" (checked i.validate)) _ tt).0
          h1 in
      (
        i,
        (wrapped_iff _ (f.deserialize_identity e.endorser) i).0 known,
        (checked_iff i.validate u).0 ((wrapped_iff _ (checked i.validate) u).0 valid),
        (checked_iff (i.verify (payload ++ e.endorser) e.signature) tt).0
            ((wrapped_iff _ (checked (i.verify (payload ++ e.endorser) e.signature)) tt).0 h2),
      )

  sign :
      (payload : Bytes) (e : Endorsement)
      → IsSigned payload e
      → signature_of f payload (some e) ≡ ok tt
  sign payload e (i, known, valid, signed) = rw (known, valid, signed) refl

  in_range : (n : ℕ) → (ltb n 200 || leb 400 n) ≡ false → (200 ≤ n) × (n < 400)
  in_range n h = ground arith

  endorsement-IsGood :
      (r : ProposalResponse) (c : ChaincodeResponse)
      → r.response ≡ some c
      → (200 ≤ c.status) × (c.status < 400)
      → (o : Option Endorsement) → r.endorsement ≡ o
      → signature_of f r.payload o ≡ ok tt
      → IsGood f r
  endorsement-IsGood r c answered range none q h = cc
  endorsement-IsGood r c answered range (some e) q h =
      let (i, known, valid, signed) = signature_of-IsSigned r.payload e h in
      record {
        answer = c;
        answered = answered;
        from_success = range.0;
        below_bad_request = range.1;
        endorsement = e;
        endorsed = q;
        identity = i;
        known = known;
        valid = valid;
        signed = signed;
      }

  response-IsGood :
      (r : ProposalResponse) (o : Option ChaincodeResponse)
      → r.response ≡ o
      → response_of f r o ≡ ok tt
      → IsGood f r
  unfolding validate_signature
  response-IsGood r none q h = cc
  response-IsGood r (some c) q h =
      elim (Bool-cases (ltb c.status status_success || leb status_bad_request c.status)) [
        | inl out ↦ cc (rw out at h)
        | inr within ↦
            endorsement-IsGood r c q (in_range c.status within) r.endorsement refl (rw within at h)
      ]

  pub validate_response-IsGood :
      (o : Option ProposalResponse) (r : ProposalResponse)
      → validate_response f o ≡ ok r
      → (o ≡ some r) × IsGood f r
  unfolding validate_response
  validate_response-IsGood none r h = cc
  validate_response-IsGood (some s) r h =
      let (u, valid, same) = (bind_iff (response_of f s s.response) (λ v. ok s) r).0 h in
      let is : s ≡ r = ok_inj same in
      (ap some is, subst (IsGood f) is (response-IsGood s s.response refl valid))

  out_of_range : (n : ℕ) → 200 ≤ n → n < 400 → (ltb n 200 || leb 400 n) ≡ false
  out_of_range n h k = ground arith

  pub good_passes : (r : ProposalResponse) → IsGood f r → validate_response f (some r) ≡ ok r
  unfolding validate_response validate_signature
  good_passes r g =
      rw
        (
          g.answered,
          out_of_range g.answer.status g.from_success g.below_bad_request,
          g.endorsed,
          sign r.payload g.endorsement (g.identity, g.known, g.valid, g.signed),
        )
        refl

  answer_eq : (c d : ChaincodeResponse) → c.status ≡ d.status → c.payload ≡ d.payload → c ≡ d
  answer_eq c d h k = cc

  both_true : (a b c : Bool) → (a && b && c) ≡ true → (a ≡ true) × (b ≡ true) × (c ≡ true)
  both_true true true true h = (refl, refl, refl)
  both_true true true false h = cc
  both_true true false c h = cc
  both_true false b c h = cc

  pub matches_iff :
      (r1 r : ProposalResponse) → IsGood f r1 → IsGood f r → (matches r1 r ≡ ok true) ↔ IsSame r1 r
  unfolding matches
  matches_iff r1 r g1 g = rw (g1.answered, g.answered) (only, if_same)
    where
      c : ChaincodeResponse
      c = g1.answer

      d : ChaincodeResponse
      d = g.answer

      only :
          (let x : Outcome Error Bool = ok (
                c.status == d.status
                && bytes_beq r1.payload r.payload
                && bytes_beq c.payload d.payload) in
              x)
            ≡ ok true
          → (r.payload ≡ r1.payload) × (some d ≡ some c)
      only h =
          let (s, p, q) = both_true _ _ _ (ok_inj h) in
          (
            sym ((bytes_beq_iff r1.payload r.payload).0 p),
            ap some (
                sym (
                  answer_eq c d ((==_iff c.status d.status).0 s)
                    ((bytes_beq_iff c.payload d.payload).0 q))),
          )

      if_same :
          (r.payload ≡ r1.payload) × (some d ≡ some c)
          → (let x : Outcome Error Bool = ok (
                c.status == d.status
                && bytes_beq r1.payload r.payload
                && bytes_beq c.payload d.payload) in
              x)
            ≡ ok true
      if_same (p, q) =
          let is : d ≡ c = cc in
          rw
            (
              (==_iff c.status d.status).1 (ap ChaincodeResponse.status (sym is)),
              (bytes_beq_iff r1.payload r.payload).1 (sym p),
              (bytes_beq_iff c.payload d.payload).1 (ap ChaincodeResponse.payload (sym is)),
            )
            refl

  -- The other responses are good and the same as the first.
  abbrev pub IsLike : ProposalResponse → Option ProposalResponse → Type 0
  IsLike r1 o = (r : ProposalResponse) × (o ≡ some r) × IsGood f r × IsSame r1 r

  abbrev pub match_on : ProposalResponse → Bool → Outcome Error ProposalResponse
  match_on r1 same =
      if same then ok r1 else err (text "one or more proposal responses do not match" [])

  matched :
      (r1 : ProposalResponse) (m : Outcome Error Bool) (r2 : ProposalResponse)
      → (m >>= match_on r1) ≡ ok r2
      → (m ≡ ok true) × (r1 ≡ r2)
  matched r1 (ok true) r2 h = (refl, ok_inj h)
  matched r1 (ok false) r2 h = cc
  matched r1 (err e) r2 h = cc
  matched r1 panic r2 h = cc

  others-IsLike :
      (r1 : ProposalResponse) (os : List (Option ProposalResponse))
      → IsGood f r1
      → validate_all f (some r1) os ≡ ok tt
      → All (IsLike r1) os
  unfolding validate_all
  others-IsLike r1 [] g h = tt
  others-IsLike r1 (o ∷ os) g h =
      let (r, valid, h1) = (bind_iff (validate_response f o) _ tt).0 h in
      let (r2, match, h2) = (bind_iff (match_first f (some r1) r) _ tt).0 h1 in
      let (is, good) = validate_response-IsGood o r valid in
      let (same, first) = matched r1 (matches r1 r) r2 match in
      (
        (r, is, good, (matches_iff r1 r g good).0 same),
        others-IsLike r1 os g (subst (λ x. validate_all f (some x) os ≡ ok tt) (sym first) h2),
      )

  like_pass :
      (r1 : ProposalResponse) (os : List (Option ProposalResponse))
      → IsGood f r1
      → All (IsLike r1) os
      → validate_all f (some r1) os ≡ ok tt
  unfolding validate_all
  like_pass r1 [] g h = refl
  like_pass r1 (o ∷ os) g ((r, is, good, same), rest) =
      rw (is, good_passes r good, (matches_iff r1 r g good).1 same) (like_pass r1 os g rest)

  -- `validateResponses` lets a list through just if it has a first response, which is good, and the
  -- others are good and the same as it.
  abbrev pub AreGood : List (Option ProposalResponse) → Type 0
  AreGood rs =
      (r1 : ProposalResponse) × (os : List (Option ProposalResponse)) × (rs ≡ some r1 ∷ os)
      × IsGood f r1
      × All (IsLike r1) os

  pub validate_responses_iff :
      (rs : List (Option ProposalResponse)) → (validate_responses f rs ≡ ok tt) ↔ AreGood rs
  unfolding validate_responses validate_all
  validate_responses_iff [] = (λ h. cc, λ (r1, os, is, g, like). cc)
  validate_responses_iff (o ∷ os) = (only, if_good)
    where
      only : validate_responses f (o ∷ os) ≡ ok tt → AreGood (o ∷ os)
      only h =
          let (r, valid, h1) = (bind_iff (validate_response f o) _ tt).0 h in
          let (is, good) = validate_response-IsGood o r valid in
          (r, os, ap (λ x. x ∷ os) is, good, others-IsLike r os good h1)

      if_good : AreGood (o ∷ os) → validate_responses f (o ∷ os) ≡ ok tt
      if_good (r1, os', is, good, like) =
          subst (λ xs. validate_responses f xs ≡ ok tt) (sym is)
            (rw (good_passes r1 good) (like_pass r1 os' good like))
