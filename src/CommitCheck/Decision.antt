-- ===== src/CommitCheck/Decision.antt =====
-- The decision of pkg/txn/handler/checkforcommit.go, by the writes that count.
use fabric_peer_ext.Prelude.{
  Bool, true, false, not, ◌||◌, String, some, List, [], ◌∷◌, ◌++◌, if◌then◌else◌, ◌⊎◌, inl, inr,
  ◌≡◌, refl, ap, ◌∙◌, Bool-cases, arith,
}
use fabric_peer_ext.BlockVisitor.Data.{Decoded, good, bad}
use fabric_peer_ext.CommitCheck.{
  CommitType, commit_on_write, commit, no_commit, Namespace, CollHashedRwSet, NsRwSet,
  ChaincodeAction, Decoders, CommitError, with_message, Request, Handler, has_some, has_coll_write,
  has_write_set, ignore_cc, ignore_collection, no_bytes, get_chaincode_action, call_next, conclude,
  set_should_commit, commit_on_sets, commit_on_action, commit_if_has_write_set, handle_by_type,
  handle, action_of_payload, first_payload,
}

-- What a transaction writes to: a namespace, or a collection of it.
pub data Target : Type 0 where
  to_namespace : String → Target
  to_collection : String → String → Target

abbrev pub coll_targets : String → List CollHashedRwSet → List Target
coll_targets ns [] = []
coll_targets ns (c ∷ cs) =
    let rest = coll_targets ns cs in
    if has_some c.hashed_writes then to_collection ns c.collection_name ∷ rest else rest

abbrev pub targets : List NsRwSet → List Target
targets [] = []
targets (s ∷ ss) =
    let rest = coll_targets s.name_space s.coll_hashed_rw_sets ++ targets ss in
    if has_some s.kv_writes then to_namespace s.name_space ∷ rest else rest

-- A chaincode that is ignored as a whole is ignored with all its collections.
abbrev pub is_ignored : List Namespace → Target → Bool
is_ignored ignored (to_namespace ns) = ignore_cc ignored ns
is_ignored ignored (to_collection ns coll) =
    ignore_cc ignored ns || ignore_collection ignored ns coll

unfoldable pub some_counts : List Namespace → List Target → Bool
some_counts ignored [] = false
some_counts ignored (t ∷ ts) = not (is_ignored ignored t) || some_counts ignored ts

some_counts-append :
    (ignored : List Namespace) (ts us : List Target)
    → some_counts ignored (ts ++ us) ≡ (some_counts ignored ts || some_counts ignored us)
unfolding some_counts
some_counts-append ignored [] us = refl
some_counts-append ignored (t ∷ ts) us = ground (arith, some_counts-append ignored ts us)

colls_ignored :
    (ignored : List Namespace) (ns : String) (cs : List CollHashedRwSet)
    → ignore_cc ignored ns ≡ true
    → some_counts ignored (coll_targets ns cs) ≡ false
unfolding some_counts
colls_ignored ignored ns [] h = refl
colls_ignored ignored ns (c ∷ cs) h = elim (Bool-cases (has_some c.hashed_writes)) [
  | inl q ↦ rw (q, h) (colls_ignored ignored ns cs h)
  | inr q ↦ rw q (colls_ignored ignored ns cs h)
]

colls_counted :
    (ignored : List Namespace) (ns : String) (cs : List CollHashedRwSet)
    → ignore_cc ignored ns ≡ false
    → some_counts ignored (coll_targets ns cs) ≡ has_coll_write ignored ns cs
unfolding some_counts
colls_counted ignored ns [] h = refl
colls_counted ignored ns (c ∷ cs) h = elim (Bool-cases (has_some c.hashed_writes)) [
  | inl q ↦ elim (Bool-cases (ignore_collection ignored ns c.collection_name)) [
    | inl i ↦ rw (q, h, i) (colls_counted ignored ns cs h)
    | inr i ↦ rw (q, h, i) refl
  ]
  | inr q ↦ elim (Bool-cases (ignore_collection ignored ns c.collection_name)) [
    | inl i ↦ rw (q, i) (colls_counted ignored ns cs h)
    | inr i ↦ rw (q, i) (colls_counted ignored ns cs h)
  ]
]

either_or : (b c : Bool) → (if b then true else c) ≡ (b || c)
either_or true c = refl
either_or false c = refl

-- There is a write set to commit just if some target that is written to is not ignored.
pub has_write_set-counts :
    (ignored : List Namespace) (ss : List NsRwSet)
    → has_write_set ignored ss ≡ some_counts ignored (targets ss)
unfolding has_write_set some_counts
has_write_set-counts ignored [] = refl
has_write_set-counts ignored (s ∷ ss) =
    let rest = has_write_set-counts ignored ss in
    let split =
      some_counts-append ignored (coll_targets s.name_space s.coll_hashed_rw_sets) (targets ss) in
    elim (Bool-cases (ignore_cc ignored s.name_space)) [
      | inl i ↦
          let colls = colls_ignored ignored s.name_space s.coll_hashed_rw_sets i in
          elim (Bool-cases (has_some s.kv_writes)) [
            | inl w ↦ rw (i, w, i, split, colls) rest
            | inr w ↦ rw (i, w, split, colls) rest
          ]
      | inr i ↦
          let colls = colls_counted ignored s.name_space s.coll_hashed_rw_sets i in
          elim (Bool-cases (has_some s.kv_writes)) [
            | inl w ↦ rw (i, w, i) refl
            | inr w ↦
                rw (i, w, split, colls, rest)
                  (either_or (has_coll_write ignored s.name_space s.coll_hashed_rw_sets) _)
          ]
    ]

module _ (d : Decoders) where
  -- Whether to commit, or the error that keeps from finding out.
  abbrev pub decision_on_sets : List Namespace → Decoded (List NsRwSet) → CommitError ⊎ Bool
  decision_on_sets ignored (good sets) = inr (some_counts ignored (targets sets))
  decision_on_sets ignored (bad e) = inl (with_message "Error unmarshalling to txRWSet" e)

  abbrev pub decision_on_action :
      List Namespace → CommitError ⊎ ChaincodeAction → CommitError ⊎ Bool
  decision_on_action ignored (inl e) = inl e
  decision_on_action ignored (inr a) =
      if no_bytes a.events
      then decision_on_sets ignored (d.from_proto_bytes a.results)
      else inr true

module _ (d : Decoders) {R : Type 0} where
  abbrev pub decision : CommitType → List Namespace → Request R → CommitError ⊎ Bool
  decision no_commit ignored r = inr false
  decision commit ignored r = inr true
  decision commit_on_write ignored r =
      decision_on_action d ignored (action_of_payload d (first_payload r.responses))

  -- What becomes of the handler and the request.
  abbrev pub carried_out : Handler R → Request R → CommitError ⊎ Bool → Handler R × Request R
  carried_out h r (inl e) = (h, record r { error = some e })
  carried_out h r (inr true) = (record h { should_commit = true }, call_next d h.next r)
  carried_out h r (inr false) = (h, r)

  conclude_fresh :
      (h : Handler R) (r : Request R) (b : Bool)
      → h.should_commit ≡ false
      → conclude d (if b then set_should_commit d h else h) r ≡ carried_out h r (inr b)
  conclude_fresh h r true fresh = refl
  conclude_fresh h r false fresh = rw fresh refl

  on_sets :
      (h : Handler R) (r : Request R) (s : Decoded (List NsRwSet))
      → h.should_commit ≡ false
      → commit_on_sets d h r s ≡ carried_out h r (decision_on_sets d h.ignored s)
  on_sets h r (good sets) fresh =
      conclude_fresh h r (has_write_set h.ignored sets) fresh
      ∙ ap (λ b. carried_out h r (inr b)) (has_write_set-counts h.ignored sets)
  on_sets h r (bad e) fresh = refl

  on_action :
      (h : Handler R) (r : Request R) (a : CommitError ⊎ ChaincodeAction)
      → h.should_commit ≡ false
      → commit_on_action d h r a ≡ carried_out h r (decision_on_action d h.ignored a)
  on_action h r (inl e) fresh = refl
  on_action h r (inr a) fresh = elim (Bool-cases (no_bytes a.events)) [
    | inl q ↦ rw q (on_sets h r (d.from_proto_bytes a.results) fresh)
    | inr q ↦ rw q refl
  ]

  by_type :
      (t : CommitType) (h : Handler R) (r : Request R)
      → h.should_commit ≡ false
      → handle_by_type d t h r ≡ carried_out h r (decision t h.ignored r)
  unfolding commit_if_has_write_set get_chaincode_action
  by_type no_commit h r fresh = refl
  by_type commit h r fresh = refl
  by_type commit_on_write h r fresh = on_action h r _ fresh

  -- A handler that has not handled a request yet passes it on to the next handler just if the commit
  -- type is `Commit`, or `CommitOnWrite` and the first response has an event or a write to a target
  -- that is not ignored. Where that cannot be found out, the request gets the error and goes no
  -- further; in the other cases nothing is changed.
  pub handle_lem :
      (h : Handler R) (r : Request R)
      → h.should_commit ≡ false
      → handle d h r ≡ carried_out h r (decision h.commit_type h.ignored r)
  unfolding handle
  handle_lem h r fresh = by_type h.commit_type h r fresh
