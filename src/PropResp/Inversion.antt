-- ===== src/PropResp/Inversion.antt =====
-- Results of pkg/txn/proprespvalidator/validator.go that are values: what they were made from.
use fabric_peer_ext.Prelude.{Option, none, some, ◌≡◌, refl, ◌↔◌, String}
use fabric_peer_ext.Prelude.Outcome.{Outcome, ok, err, panic, ◌>>=◌}
use fabric_peer_ext.PropResp.{Error, Code}
use fabric_peer_ext.PropResp.Definitions.{wrapped}
use fabric_peer_ext.PropResp.Responses.{checked}
use fabric_peer_ext.PropResp.Policies.{coded}

module _ {E A B : Type 0} where
  pub bind_iff :
      (m : Outcome E A) (next : A → Outcome E B) (b : B)
      → ((m >>= next) ≡ ok b) ↔ ((a : A) × (m ≡ ok a) × (next a ≡ ok b))
  bind_iff (ok a) next b = (λ h. (a, refl, h), λ (a', e, h). cc (ok_at e next, h))
    where
      ok_at :
          {a' : A}
          → (let x : Outcome E A = ok a in x) ≡ ok a'
          → (next : A → Outcome E B) → next a ≡ next a'
      ok_at e next = cc
  bind_iff (err e) next b = (λ h. cc, λ (a, e', h). cc)
  bind_iff panic next b = (λ h. cc, λ (a, e', h). cc)

module _ {A : Type 0} where
  pub coded_iff : (c : Code) (m : Outcome Error A) (a : A) → (coded c m ≡ ok a) ↔ (m ≡ ok a)
  coded_iff c (ok b) a = (λ h. cc, λ h. cc)
  coded_iff c (err e) a = (λ h. cc, λ h. cc)
  coded_iff c panic a = (λ h. cc, λ h. cc)

  pub wrapped_iff :
      (message : String) (m : Outcome Error A) (a : A) → (wrapped message m ≡ ok a) ↔ (m ≡ ok a)
  wrapped_iff message (ok b) a = (λ h. cc, λ h. cc)
  wrapped_iff message (err e) a = (λ h. cc, λ h. cc)
  wrapped_iff message panic a = (λ h. cc, λ h. cc)

pub checked_iff : (o : Option Error) (u : Unit {0}) → (checked o ≡ ok u) ↔ (o ≡ none)
checked_iff none tt = (λ h. refl, λ h. refl)
checked_iff (some e) u = (λ h. cc, λ h. cc)
