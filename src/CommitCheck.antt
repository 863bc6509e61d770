-- ===== src/CommitCheck.antt =====
-- pkg/txn/handler/checkforcommit.go: whether an endorsed transaction is to be committed.
pub mod Decision
mod Tests
use fabric_peer_ext.Prelude.{
  ℕ, Bool, true, false, not, ◌||◌, String, str_eq, Option, none, some, List, [], ◌∷◌, if◌then◌else◌,
  ◌⊎◌, inl, inr,
}
use fabric_peer_ext.BlockVisitor.Data.{Bytes, Decoded, good, bad, decoded}

-- `api.CommitType` and `api.Namespace`
pub data CommitType : Type 0 where
  commit_on_write commit no_commit : CommitType

pub record Namespace : Type 0 where
  pub name : String
  pub collections : List String

-- What is read of the messages; `none` stands for a nil pointer.
pub record CollHashedRwSet : Type 0 where
  pub collection_name : String
  pub hashed_writes : Option (List Bytes)

pub record NsRwSet : Type 0 where
  pub name_space : String
  pub kv_writes : Option (List Bytes)
  pub coll_hashed_rw_sets : List CollHashedRwSet

pub record ChaincodeAction : Type 0 where
  pub events : Bytes
  pub results : Bytes

-- The decoders, code outside the repository.
pub record Decoders : Type 0 where
  -- the extension of a proposal response payload
  pub unmarshal_payload : Bytes → Decoded Bytes
  pub unmarshal_action : Bytes → Decoded ChaincodeAction
  pub from_proto_bytes : Bytes → Decoded (List NsRwSet)

pub data CommitError : Type 0 where
  no_payload : CommitError
  -- a text, and the error behind it
  with_message : String → String → CommitError

-- A response of an endorser, its proposal response and the payload of that may be nil. `rest` is
-- the rest of the request and client contexts.
pub record Request (R : Type 0) : Type 0 where
  pub responses : List (Option (Option (Option Bytes)))
  pub error : Option CommitError
  pub rest : R

pub record Handler (R : Type 0) : Type 0 where
  pub next : Option (Request R → Request R)
  pub ignored : List Namespace
  pub commit_type : CommitType
  pub should_commit : Bool

unfoldable pub contains : List String → String → Bool
contains [] name = false
contains (ns ∷ nss) name = let rest = contains nss name in if str_eq ns name then true else rest

abbrev pub no_strings : List String → Bool
no_strings [] = true
no_strings (s ∷ ss) = false

-- `ignoreCC`: the first entry of the name decides
unfoldable pub ignore_cc : List Namespace → String → Bool
ignore_cc [] cc_name = false
ignore_cc (ns ∷ nss) cc_name =
    let rest = ignore_cc nss cc_name in
    if str_eq ns.name cc_name then no_strings ns.collections else rest

unfoldable pub ignore_collection : List Namespace → String → String → Bool
unfolding contains
ignore_collection [] cc_name coll_name = false
ignore_collection (ns ∷ nss) cc_name coll_name =
    let rest = ignore_collection nss cc_name coll_name in
    if str_eq ns.name cc_name
    then (if contains ns.collections coll_name then true else rest)
    else rest

-- a set that is there and not empty
abbrev pub has_some {ℓ} : {A : Type ℓ} → Option (List A) → Bool
has_some none = false
has_some (some []) = false
has_some (some (a ∷ as')) = true

-- the inner loop of `hasWriteSet`
abbrev pub has_coll_write : List Namespace → String → List CollHashedRwSet → Bool
has_coll_write ignored ns [] = false
has_coll_write ignored ns (c ∷ cs) =
    let rest = has_coll_write ignored ns cs in
    if ignore_collection ignored ns c.collection_name
    then rest
    else if has_some c.hashed_writes
    then true
    else rest

unfoldable pub has_write_set : List Namespace → List NsRwSet → Bool
unfolding ignore_cc ignore_collection
has_write_set ignored [] = false
has_write_set ignored (s ∷ ss) =
    let rest = has_write_set ignored ss in
    if ignore_cc ignored s.name_space
    then rest
    else if has_some s.kv_writes
    then true
    else if has_coll_write ignored s.name_space s.coll_hashed_rw_sets
    then true
    else rest

-- the payload of the first response
abbrev pub first_payload : List (Option (Option (Option Bytes))) → Option Bytes
first_payload [] = none
first_payload (none ∷ rs) = none
first_payload (some none ∷ rs) = none
first_payload (some (some p) ∷ rs) = p

abbrev pub no_bytes : Bytes → Bool
no_bytes [] = true
no_bytes (b ∷ bs) = false

module _ (d : Decoders) where
  abbrev pub Checked {ℓ} : Type ℓ → Type ℓ
  Checked A = CommitError ⊎ A

  abbrev pub action_of_payload : Option Bytes → Checked ChaincodeAction
  action_of_payload none = inl no_payload
  action_of_payload (some payload) =
      decoded (d.unmarshal_payload payload)
        (λ extension.
          decoded (d.unmarshal_action extension) (λ a. inr a)
            (λ e. inl (with_message "Error unmarshalling to ChaincodeAction" e)))
        (λ e. inl (with_message "Error unmarshalling to ProposalResponsePayload" e))

  module _ {R : Type 0} where
    unfoldable pub get_chaincode_action : Request R → Checked ChaincodeAction
    get_chaincode_action r = action_of_payload (first_payload r.responses)

    abbrev pub failed : Handler R → Request R → CommitError → Handler R × Request R
    failed h r e = (h, record r { error = some e })

    abbrev pub call_next : Option (Request R → Request R) → Request R → Request R
    call_next none r = r
    call_next (some next) r = next r

    -- the end of `commitIfHasWriteSet`
    abbrev pub conclude : Handler R → Request R → Handler R × Request R
    conclude h r = (h, if h.should_commit then call_next h.next r else r)

    abbrev pub set_should_commit : Handler R → Handler R
    set_should_commit h = record h { should_commit = true }

    abbrev pub commit_on_sets :
        Handler R → Request R → Decoded (List NsRwSet) → Handler R × Request R
    commit_on_sets h r (good sets) =
        conclude (if has_write_set h.ignored sets then set_should_commit h else h) r
    commit_on_sets h r (bad e) = failed h r (with_message "Error unmarshalling to txRWSet" e)

    abbrev pub commit_on_action :
        Handler R → Request R → Checked ChaincodeAction → Handler R × Request R
    commit_on_action h r (inl e) = failed h r e
    commit_on_action h r (inr a) =
        if not (no_bytes a.events)
        then conclude (set_should_commit h) r
        else commit_on_sets h r (d.from_proto_bytes a.results)

    -- `commitIfHasWriteSet`
    unfoldable pub commit_if_has_write_set : Handler R → Request R → Handler R × Request R
    unfolding get_chaincode_action has_write_set
    commit_if_has_write_set h r = commit_on_action h r (get_chaincode_action r)

    abbrev pub handle_by_type : CommitType → Handler R → Request R → Handler R × Request R
    handle_by_type no_commit h r = (h, r)
    handle_by_type commit h r = (set_should_commit h, call_next h.next r)
    handle_by_type commit_on_write h r = commit_if_has_write_set h r

    -- `Handle`: the handler and the contexts behind it
    unfoldable pub handle : Handler R → Request R → Handler R × Request R
    unfolding commit_if_has_write_set
    handle h r = handle_by_type h.commit_type h r
