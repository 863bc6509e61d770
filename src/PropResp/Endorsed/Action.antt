-- ===== src/PropResp/Endorsed/Action.antt =====
-- The action of a proposal response in pkg/txn/proprespvalidator/validator.go, and what it writes.
use fabric_peer_ext.Prelude.{
  Option, none, some, List, [], ◌∷◌, ◌≡◌, ◌≢◌, refl, sym, ◌↔◌, All, Bool, true, false, not,
  if◌then◌else◌, Bool-cases, inl, inr, subst,
}
use fabric_peer_ext.Prelude.Outcome.{Outcome, ok, err, push_front_ok}
use fabric_peer_ext.Prelude.Bytes.{Bytes, bytes_beq, bytes_beq_iff}
use fabric_peer_ext.PropResp.{
  CodedError, invalid_other_reason, Verdict, ChaincodeId, ChaincodeAction, NsRwSet, Fabric,
}
use fabric_peer_ext.PropResp.Definitions.{wrapped, is_empty, lscc}
use fabric_peer_ext.PropResp.Policies.{
  coded, get_cc_spec, validate_event, same_event, validate_ids, validate_chaincode_action,
  tx_writes_to_namespace, written_namespaces,
}
use fabric_peer_ext.PropResp.Inversion.{bind_iff, coded_iff, wrapped_iff}

ok_inj : {E A : Type 0} {a b : A} → (let x : Outcome E A = ok a in x) ≡ ok b → a ≡ b
ok_inj h = cc

some-inj : {A : Type 0} {a b : A} → some a ≡ some b → a ≡ b
some-inj h = cc

beq_false : (a b : Bytes) → a ≢ b → bytes_beq a b ≡ false
beq_false a b h = elim (Bool-cases (bytes_beq a b)) [
  | inl q ↦ absurd (h ((bytes_beq_iff a b).0 q))
  | inr q ↦ q
]

guard_only :
    (b : Bool) (e : CodedError) (v : Verdict)
    → (if b then err e else v) ≡ ok tt
    → (b ≡ false) × (v ≡ ok tt)
guard_only true e v h = cc
guard_only false e v h = (refl, h)

negated : (b : Bool) → not b ≡ false → b ≡ true
negated true h = refl
negated false h = cc

ne_of_beq : (a b : Bytes) → bytes_beq a b ≡ false → a ≢ b
ne_of_beq a b h e = cc (h, (bytes_beq_iff a b).1 e)

module _ (f : Fabric) where
  -- An event, where there is one, is of the chaincode.
  abbrev pub HasEventOf : Bytes → Option Bytes → Type 0
  HasEventOf cc_id none = Unit
  HasEventOf cc_id (some events) = f.unmarshal_event events ≡ ok cc_id

  -- The action is of the chaincode that the proposal asks for, with a version.
  pub record IsConsistent (proposal_bytes : Bytes) (action : ChaincodeAction) (own : ChaincodeId)
      : Type 0 where
    pub asked : ChaincodeId
    pub asks : get_cc_spec f proposal_bytes ≡ ok (some asked)
    pub of_own : action.chaincode_id ≡ some own
    pub named : is_empty own.name ≡ false
    pub same_name : asked.name ≡ own.name
    pub versioned : is_empty own.version ≡ false
    pub event : HasEventOf own.name action.events

  same_event_iff : (cc_id id : Bytes) → (same_event f cc_id id ≡ ok tt) ↔ (id ≡ cc_id)
  same_event_iff cc_id id = elim (Bool-cases (bytes_beq id cc_id)) [
    | inl q ↦ (λ h. (bytes_beq_iff id cc_id).0 q, λ h. rw q refl)
    | inr q ↦ (λ h. cc (rw q at h), λ h. cc (q, (bytes_beq_iff id cc_id).1 h))
  ]

  event_iff :
      (cc_id : Bytes) (o : Option Bytes) → (validate_event f cc_id o ≡ ok tt) ↔ HasEventOf cc_id o
  event_iff cc_id none = (λ h. tt, λ h. refl)
  event_iff cc_id (some events) = (only, if_of)
    where
      only : validate_event f cc_id (some events) ≡ ok tt → f.unmarshal_event events ≡ ok cc_id
      only h =
          let m = wrapped "invalid chaincode event" (f.unmarshal_event events) in
          let (id, got, same) = (bind_iff (coded invalid_other_reason m) _ tt).0 h in
          let is : id ≡ cc_id = (same_event_iff cc_id id).0 same in
          subst (λ x. f.unmarshal_event events ≡ ok x) is
            ((wrapped_iff "invalid chaincode event" (f.unmarshal_event events) id).0
              ((coded_iff invalid_other_reason m id).0 got))

      if_of : f.unmarshal_event events ≡ ok cc_id → validate_event f cc_id (some events) ≡ ok tt
      if_of h = rw (h, (bytes_beq_iff cc_id cc_id).1 refl) refl

  ids_only :
      (proposal_bytes : Bytes) (action : ChaincodeAction) (asked : Option ChaincodeId)
      (o : Option ChaincodeId)
      → get_cc_spec f proposal_bytes ≡ ok asked
      → action.chaincode_id ≡ o
      → validate_ids f action asked o ≡ ok tt
      → (own : ChaincodeId) × (o ≡ some own) × IsConsistent proposal_bytes action own
  ids_only proposal_bytes action none o asks of_own h = cc
  ids_only proposal_bytes action (some a) none asks of_own h = cc
  ids_only proposal_bytes action (some a) (some own) asks of_own h =
      let (asked_named, h1) = guard_only (is_empty a.name) _ _ h in
      let (same, h2) = guard_only (not (bytes_beq a.name own.name)) _ _ h1 in
      let (versioned, h3) = guard_only (is_empty own.version) _ _ h2 in
      let one : a.name ≡ own.name =
        (bytes_beq_iff a.name own.name).0 (negated (bytes_beq a.name own.name) same) in
      (
        own,
        refl,
        record {
          asked = a;
          asks = asks;
          of_own = of_own;
          named = subst (λ n. is_empty n ≡ false) one asked_named;
          same_name = one;
          versioned = versioned;
          event =
              subst (λ n. HasEventOf n action.events) one ((event_iff a.name action.events).0 h3);
        },
      )

  -- What `validateChaincodeAction` lets through.
  pub chaincode_action_only :
      (proposal_bytes : Bytes) (action : ChaincodeAction)
      → validate_chaincode_action f proposal_bytes action ≡ ok tt
      → (own : ChaincodeId) × IsConsistent proposal_bytes action own
  unfolding validate_chaincode_action
  chaincode_action_only proposal_bytes action h =
      let (asked, got, valid) =
        (bind_iff (coded invalid_other_reason (get_cc_spec f proposal_bytes)) _ tt).0 h in
      let (own, is, consistent) =
        ids_only proposal_bytes action asked action.chaincode_id
          ((coded_iff invalid_other_reason (get_cc_spec f proposal_bytes) asked).0 got) refl
          valid in
      (own, consistent)

  pub consistent_passes :
      (proposal_bytes : Bytes) (action : ChaincodeAction) (own : ChaincodeId)
      → IsConsistent proposal_bytes action own
      → validate_chaincode_action f proposal_bytes action ≡ ok tt
  unfolding validate_chaincode_action
  consistent_passes proposal_bytes action own c =
      rw
        (
          c.asks,
          c.of_own,
          c.same_name,
          c.named,
          (bytes_beq_iff own.name own.name).1 refl,
          c.versioned,
        )
        ((event_iff own.name action.events).1 c.event)

-- The sets that are written to are not those of LSCC.
abbrev pub LeavesLscc : NsRwSet → Type 0
LeavesLscc s = tx_writes_to_namespace s ≡ true → s.name_space ≢ lscc

-- What holds of each namespace in a list and of the own one holds of each that is written to.
module _ (P : Bytes → Type 0) where
  abbrev pub OfWritten : NsRwSet → Type 0
  OfWritten s = tx_writes_to_namespace s ≡ true → P s.name_space

  pub written_only :
      (own : Bytes) (sets : List NsRwSet) (nss : List Bytes)
      → written_namespaces own sets ≡ ok nss
      → P own
      → All P nss
      → All LeavesLscc sets × All OfWritten sets
  unfolding written_namespaces
  written_only own [] nss h p ps = (tt, tt)
  written_only own (s ∷ ss) nss h p ps = elim (Bool-cases (tx_writes_to_namespace s)) [
    | inr idle ↦
        let (clean, held) = written_only own ss nss (rw idle at h) p ps in
        (((λ w. cc), clean), ((λ w. cc), held))
    | inl writes ↦ elim (Bool-cases (bytes_beq s.name_space lscc)) [
      | inl bad ↦ cc (rw (writes, bad) at h)
      | inr apart ↦ elim (Bool-cases (bytes_beq s.name_space own)) [
        | inl same ↦
            let (clean, held) = written_only own ss nss (rw (writes, apart, same) at h) p ps in
            let is : s.name_space ≡ own = (bytes_beq_iff s.name_space own).0 same in
            (((λ w. ne_of_beq _ _ apart), clean), ((λ w. subst P (sym is) p), held))
        | inr other ↦
            let (more, got, is) =
              push_front_ok s.name_space (written_namespaces own ss) nss
                (rw (writes, apart, other) at h) in
            let both : All P (s.name_space ∷ more) = subst (All P) is ps in
            let (clean, held) = written_only own ss more got p both.1 in
            (((λ w. ne_of_beq _ _ apart), clean), ((λ w. both.0), held))
      ]
    ]
  ]

  pub written_of :
      (own : Bytes) (sets : List NsRwSet)
      → All LeavesLscc sets
      → All OfWritten sets
      → (nss : List Bytes) × (written_namespaces own sets ≡ ok nss) × All P nss
  unfolding written_namespaces
  written_of own [] clean ps = ([], refl, tt)
  written_of own (s ∷ ss) clean ps =
      let (nss, got, held) = written_of own ss clean.1 ps.1 in
      elim (Bool-cases (tx_writes_to_namespace s)) [
        | inr idle ↦ (nss, rw idle got, held)
        | inl writes ↦
            let apart = beq_false s.name_space lscc (clean.0 writes) in
            elim (Bool-cases (bytes_beq s.name_space own)) [
              | inl same ↦ (nss, rw (writes, apart, same) got, held)
              | inr other ↦
                  (s.name_space ∷ nss, rw (writes, apart, other, got) refl, (ps.0 writes, held))
            ]
      ]
