-- ===== src/PropResp/Dedup.antt =====
-- The signature set of pkg/txn/proprespvalidator/validator.go against the endorsements.
use fabric_peer_ext.Prelude.{
  true, false, ◌||◌, ◌++◌, Option, none, some, List, [], ◌∷◌, ◌≡◌, refl, sym, subst, Bool-cases,
  inl, inr, arith, All,
}
use fabric_peer_ext.Prelude.Outcome.{Outcome, ok, err, panic, push_front_ok, bind_ok}
use fabric_peer_ext.Prelude.Bytes.{Bytes, bytes_beq, bytes_beq_iff}
use fabric_peer_ext.PropResp.{Error, Endorsement, SerializedIdentity, SignedData, Fabric}
use fabric_peer_ext.PropResp.Responses.{
  identity_key, signed_data, endorser_error, is_noted, dedup_from, deduplicate_identity,
}

ok_inj : {E A : Type 0} {a b : A} → (let x : Outcome E A = ok a in x) ≡ ok b → a ≡ b
ok_inj h = cc

-- The signed data of some of the endorsements, in their order.
pub data Picked (presp_bytes : Bytes) : List (Option Endorsement) → List SignedData → Type 0 where
  done : Picked presp_bytes [] []
  kept :
      {es : List (Option Endorsement)} {ds : List SignedData} (e : Endorsement)
      → Picked presp_bytes es ds
      → Picked presp_bytes (some e ∷ es) (
          record {
            signed = presp_bytes ++ e.endorser;
            identity = e.endorser;
            signature = e.signature;
          }
          ∷ ds)
  skipped :
      {es : List (Option Endorsement)} {ds : List SignedData} (e : Endorsement)
      → Picked presp_bytes es ds
      → Picked presp_bytes (some e ∷ es) ds

abbrev pub Distinct : List Bytes → Type 0
Distinct [] = Unit
Distinct (k ∷ ks) = (is_noted ks k ≡ false) × Distinct ks

beq_sym : (a b : Bytes) → bytes_beq a b ≡ false → bytes_beq b a ≡ false
beq_sym a b h = elim (Bool-cases (bytes_beq b a)) [
  | inl q ↦ cc (h, (bytes_beq_iff a b).1 (sym ((bytes_beq_iff b a).0 q)))
  | inr q ↦ q
]

noted_by_others :
    (key : Bytes) (seen ks : List Bytes)
    → All (λ k. is_noted (key ∷ seen) k ≡ false) ks
    → is_noted ks key ≡ false
unfolding is_noted
noted_by_others key seen [] h = refl
noted_by_others key seen (k ∷ ks) h =
    ground (arith, h.0, beq_sym key k, noted_by_others key seen ks h.1)

noted_before :
    (key : Bytes) (seen ks : List Bytes)
    → All (λ k. is_noted (key ∷ seen) k ≡ false) ks
    → All (λ k. is_noted seen k ≡ false) ks
unfolding is_noted
noted_before key seen [] h = tt
noted_before key seen (k ∷ ks) h = (ground (arith, h.0), noted_before key seen ks h.1)

module _ (f : Fabric) where
  -- The key of an endorser.
  abbrev pub HasKey : Bytes → Bytes → Type 0
  HasKey endorser key =
      (s : SerializedIdentity) × (f.unmarshal_identity endorser ≡ ok s) × (identity_key s ≡ key)

  abbrev pub Keys : List SignedData → List Bytes → Type 0
  Keys [] [] = Unit
  Keys (d ∷ ds) (k ∷ ks) = HasKey d.identity k × Keys ds ks
  Keys ds ks = ⊥

  abbrev pub Noted : List Bytes → List Bytes → Option Endorsement → Type 0
  Noted seen keys none = ⊥
  Noted seen keys (some e) =
      (key : Bytes) × HasKey e.endorser key × ((is_noted seen key || is_noted keys key) ≡ true)

  endorser_ok :
      (r : Outcome Error SerializedIdentity) (s : SerializedIdentity)
      → endorser_error r ≡ ok s
      → r ≡ ok s
  endorser_ok (ok t) s h = h
  endorser_ok (err e) s h = cc
  endorser_ok panic s h = cc

  abbrev pub Chosen : List Bytes → Bytes → List (Option Endorsement) → List SignedData → Type 0
  Chosen seen presp_bytes es ds =
      (keys : List Bytes) × Keys ds keys
      × Distinct keys
      × All (λ k. is_noted seen k ≡ false) keys
      × All (Noted seen keys) es
      × Picked presp_bytes es ds

  -- what is noted in fewer keys is noted in more
  still-Noted :
      (seen keys : List Bytes) (key : Bytes) (es : List (Option Endorsement))
      → All (Noted (key ∷ seen) keys) es
      → All (Noted seen (key ∷ keys)) es
  unfolding is_noted
  still-Noted seen keys key [] h = tt
  still-Noted seen keys key (none ∷ es) h = absurd h.0
  still-Noted seen keys key (some e ∷ es) ((k, has, noted), rest) =
      ((k, has, ground (arith, noted)), still-Noted seen keys key es rest)

  key_self : (k : Bytes) → bytes_beq k k ≡ true
  key_self k = (bytes_beq_iff k k).1 refl

  add_choice :
      (seen : List Bytes) (presp_bytes : Bytes) (e : Endorsement) (s : SerializedIdentity)
      (es : List (Option Endorsement)) (ds : List SignedData)
      → f.unmarshal_identity e.endorser ≡ ok s
      → is_noted seen (identity_key s) ≡ false
      → Chosen (identity_key s ∷ seen) presp_bytes es ds
      → Chosen seen presp_bytes (some e ∷ es) (signed_data presp_bytes e ∷ ds)
  unfolding is_noted
  add_choice seen presp_bytes e s es ds at fresh (keys, has, distinct, apart, noted, picked) =
      let key = identity_key s in
      (
        key ∷ keys,
        ((s, at, refl), has),
        (noted_by_others key seen keys apart, distinct),
        (fresh, noted_before key seen keys apart),
        ((key, (s, at, refl), ground (arith, key_self key)), still-Noted seen keys key es noted),
        kept e picked,
      )

  pass_over :
      (seen : List Bytes) (presp_bytes : Bytes) (e : Endorsement) (s : SerializedIdentity)
      (es : List (Option Endorsement)) (ds : List SignedData)
      → f.unmarshal_identity e.endorser ≡ ok s
      → is_noted seen (identity_key s) ≡ true
      → Chosen seen presp_bytes es ds
      → Chosen seen presp_bytes (some e ∷ es) ds
  pass_over seen presp_bytes e s es ds at old (keys, has, distinct, apart, noted, picked) = (
    keys,
    has,
    distinct,
    apart,
    ((identity_key s, (s, at, refl), ground (arith, old)), noted),
    skipped e picked,
  )

  dedup_from_lem :
      (seen : List Bytes) (presp_bytes : Bytes) (es : List (Option Endorsement))
      (ds : List SignedData)
      → dedup_from f seen presp_bytes es ≡ ok ds
      → Chosen seen presp_bytes es ds
  unfolding dedup_from
  dedup_from_lem seen presp_bytes [] ds h =
      subst (Chosen seen presp_bytes []) (ok_inj h) ([], tt, tt, tt, tt, done)
  dedup_from_lem seen presp_bytes (none ∷ es) ds h = cc
  dedup_from_lem seen presp_bytes (some e ∷ es) ds h =
      let (s, at, rest) = bind_ok (endorser_error (f.unmarshal_identity e.endorser)) _ ds h in
      let found = endorser_ok (f.unmarshal_identity e.endorser) s at in
      elim (Bool-cases (is_noted seen (identity_key s))) [
        | inl old ↦
            pass_over seen presp_bytes e s es ds found old
              (dedup_from_lem seen presp_bytes es ds (rw old at rest))
        | inr fresh ↦
            let (more, got, is) =
              push_front_ok (signed_data presp_bytes e)
                (dedup_from f (identity_key s ∷ seen) presp_bytes es) ds (rw fresh at rest) in
            subst (Chosen seen presp_bytes (some e ∷ es)) (sym is) (
              add_choice seen presp_bytes e s es more found fresh
                (dedup_from_lem (identity_key s ∷ seen) presp_bytes es more got))
      ]

  -- A signature set has the signed data of some of the endorsements, in their order, with the payload
  -- before the endorser; no two of them have one key, which is the MSP ID and the identity's bytes
  -- in a row, and the key of each endorsement is that of one of them.
  pub deduplicate_identity_lem :
      (presp_bytes : Bytes) (es : List (Option Endorsement)) (ds : List SignedData)
      → deduplicate_identity f presp_bytes es ≡ ok ds
      → Chosen [] presp_bytes es ds
  unfolding deduplicate_identity
  deduplicate_identity_lem presp_bytes es ds h = dedup_from_lem [] presp_bytes es ds h
