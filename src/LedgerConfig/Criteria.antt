-- ===== src/LedgerConfig/Criteria.antt =====
-- pkg/config/ledgerconfig/config/criteria.go and pkg/config/ledgerconfig/mgr/configresults.go: what
-- a query asks for, and the choice of the results.
use fabric_peer_ext.Prelude.{
  Bool, true, false, not, ◌&&◌, ◌||◌, if◌then◌else◌, Option, none, List, [], ◌∷◌, ◌≡◌, refl, ap,
  Bool-cases, inl, inr, arith,
}
use fabric_peer_ext.Prelude.Outcome.{Outcome, ok, err}
use fabric_peer_ext.Prelude.Bytes.{Bytes, bytes_beq}
use fabric_peer_ext.LedgerConfig.Config.{
  Key, KeyValue, Error, message, validate_key, validate_app, validate_components, is_empty, fail_if,
  ◌then_check◌,
}

-- A criteria has the fields of a key; an empty one is left open.
pub record Criteria : Type 0 where
  pub msp_id : Bytes
  pub peer_id : Bytes
  pub app_name : Bytes
  pub app_version : Bytes
  pub component_name : Bytes
  pub component_version : Bytes

-- `Criteria.Validate`
unfoldable pub validate_criteria : Criteria → Option Error
validate_criteria c =
    fail_if (is_empty c.msp_id) "field [MspID] is required"
    then_check fail_if (not (is_empty c.app_version) && is_empty c.app_name)
        "field [AppName] is required"
    then_check fail_if (not (is_empty c.component_name) && is_empty c.app_name)
        "field [AppName] is required"
    then_check fail_if (not (is_empty c.component_version) && is_empty c.component_name)
        "field [ComponentName] is required"

abbrev is_app_key : Criteria → Bool
is_app_key c =
    not (is_empty c.app_name)
    && not (is_empty c.app_version)
    && is_empty c.component_name
    && is_empty c.component_version

abbrev is_app_component_key : Criteria → Bool
is_app_component_key c =
    not (is_empty c.app_name)
    && not (is_empty c.app_version)
    && not (is_empty c.component_name)
    && not (is_empty c.component_version)

abbrev is_peer_app_key : Criteria → Bool
is_peer_app_key c = not (is_empty c.peer_id) && is_app_key c

abbrev is_peer_app_component_key : Criteria → Bool
is_peer_app_component_key c = not (is_empty c.peer_id) && is_app_component_key c

unfoldable pub is_unique : Criteria → Bool
is_unique c =
    not (is_empty c.msp_id)
    && (is_peer_app_key c || is_peer_app_component_key c || is_app_key c || is_app_component_key c)

unfoldable pub as_key : Criteria → Outcome Error Key
unfolding is_unique
as_key c =
    if not (is_unique c)
    then err (message "criteria is not unique" [])
    else ok (record {
      msp_id = c.msp_id;
      peer_id = c.peer_id;
      app_name = c.app_name;
      app_version = c.app_version;
      component_name = c.component_name;
      component_version = c.component_version;
    })

unfoldable pub criteria_from_key : Key → Criteria
criteria_from_key k = record {
  msp_id = k.msp_id;
  peer_id = k.peer_id;
  app_name = k.app_name;
  app_version = k.app_version;
  component_name = k.component_name;
  component_version = k.component_version;
}

-- the predicates of configresults.go
abbrev pub must_have_app_name : KeyValue → Criteria → Bool
must_have_app_name kv c = bytes_beq kv.key.app_name c.app_name

abbrev pub must_have_peer_id : KeyValue → Criteria → Bool
must_have_peer_id kv c = bytes_beq kv.key.peer_id c.peer_id

abbrev pub may_have_app_name : KeyValue → Criteria → Bool
may_have_app_name kv c = is_empty c.app_name || bytes_beq kv.key.app_name c.app_name

abbrev pub may_have_app_version : KeyValue → Criteria → Bool
may_have_app_version kv c = is_empty c.app_version || bytes_beq kv.key.app_version c.app_version

abbrev pub may_have_component_name : KeyValue → Criteria → Bool
may_have_component_name kv c =
    is_empty c.component_name || bytes_beq kv.key.component_name c.component_name

abbrev pub may_have_component_version : KeyValue → Criteria → Bool
may_have_component_version kv c =
    is_empty c.component_version || bytes_beq kv.key.component_version c.component_version

-- `predicates.apply`
abbrev pub apply_predicates : List (KeyValue → Criteria → Bool) → KeyValue → Criteria → Bool
apply_predicates [] kv c = true
apply_predicates (p ∷ ps) kv c =
    let rest = apply_predicates ps kv c in if not (p kv c) then false else rest

-- the loop of `and`
abbrev pub chosen : (KeyValue → Bool) → List KeyValue → List KeyValue
chosen p [] = []
chosen p (kv ∷ kvs) = let rest = chosen p kvs in if p kv then kv ∷ rest else rest

unfoldable pub and_predicates :
    List KeyValue → Criteria → List (KeyValue → Criteria → Bool) → List KeyValue
and_predicates r c ps = chosen (λ kv. apply_predicates ps kv c) r

unfoldable pub filter_by_peer : List KeyValue → Criteria → List KeyValue
unfolding and_predicates
filter_by_peer r c = and_predicates r c (
    must_have_peer_id ∷ may_have_app_name ∷ may_have_app_version ∷ may_have_component_name
    ∷ may_have_component_version ∷ [])

unfoldable pub filter_by_app : List KeyValue → Criteria → List KeyValue
unfolding and_predicates
filter_by_app r c = and_predicates r c (
    must_have_app_name ∷ may_have_app_version ∷ may_have_component_name ∷ may_have_component_version
    ∷ [])

-- `ConfigResults.Filter`
unfoldable pub filter_results : List KeyValue → Criteria → List KeyValue
unfolding filter_by_peer filter_by_app
filter_results r c =
    if is_empty c.peer_id && is_empty c.app_name
    then r
    else if not (is_empty c.peer_id)
    then filter_by_peer r c
    else filter_by_app r c

-- A field that is given is the key's.
abbrev pub agrees : Bytes → Bytes → Bool
agrees asked own = is_empty asked || bytes_beq own asked

abbrev pub matches : Criteria → KeyValue → Bool
matches c kv =
    agrees c.peer_id kv.key.peer_id
    && agrees c.app_name kv.key.app_name
    && agrees c.app_version kv.key.app_version
    && agrees c.component_name kv.key.component_name
    && agrees c.component_version kv.key.component_version

chosen_congr :
    (p q : KeyValue → Bool) (r : List KeyValue)
    → ((kv : KeyValue) → p kv ≡ q kv)
    → chosen p r ≡ chosen q r
chosen_congr p q [] h = refl
chosen_congr p q (kv ∷ kvs) h = rw (h kv, chosen_congr p q kvs h) refl

chosen_all :
    (p : KeyValue → Bool) (r : List KeyValue) → ((kv : KeyValue) → p kv ≡ true) → r ≡ chosen p r
chosen_all p [] h = refl
chosen_all p (kv ∷ kvs) h = rw (h kv) (ap (◌∷◌ kv) (chosen_all p kvs h))

-- For criteria that pass `Validate`, the results that `Filter` keeps are those whose keys have every
-- field that the criteria give, the organization aside.
pub filter_results-matches :
    (r : List KeyValue) (c : Criteria)
    → validate_criteria c ≡ none
    → filter_results r c ≡ chosen (matches c) r
unfolding filter_results filter_by_peer filter_by_app and_predicates validate_criteria
filter_results-matches r c h = elim (Bool-cases (is_empty c.peer_id)) [
  | inl p ↦ elim (Bool-cases (is_empty c.app_name)) [
    | inl a ↦ rw (p, a) (chosen_all (matches c) r (λ kv. ground arith))
    | inr a ↦ rw (p, a) (chosen_congr _ (matches c) r (λ kv. ground arith))
  ]
  | inr p ↦ rw p (chosen_congr _ (matches c) r (λ kv. ground arith))
]

-- The criteria of a key that passes `Validate` are unique, and they give that key back.
pub as_key-criteria_from_key :
    (k : Key) → validate_key k ≡ none → as_key (criteria_from_key k) ≡ ok k
unfolding as_key criteria_from_key is_unique validate_key validate_app validate_components
as_key-criteria_from_key k h = ground arith
