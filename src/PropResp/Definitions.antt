-- ===== src/PropResp/Definitions.antt =====
-- The definitions of chaincodes in pkg/txn/proprespvalidator/validator.go and their cache.
use fabric_peer_ext.Prelude.{
  Bool, true, false, ◌&&◌, ◌||◌, if◌then◌else◌, Option, none, some, List, [], ◌∷◌, ◌==◌, inl, inr,
  ◌⊎◌, String,
}
use fabric_peer_ext.Prelude.Outcome.{Outcome, ok, err, panic, ◌>>=◌}
use fabric_peer_ext.Prelude.Bytes.{Bytes}
use fabric_peer_ext.Prelude.LoadingCache.{GCache, get_or_load}
use fabric_peer_ext.PropResp.{
  Error, text, outside, with_message, lookup_failure, codes, ChaincodeDefinition, ChaincodeInfo,
  Fabric,
}

-- `strings.HasPrefix` and `strings.Contains`
unfoldable pub has_prefix : Bytes → Bytes → Bool
has_prefix s [] = true
has_prefix [] (p ∷ ps) = false
has_prefix (b ∷ s) (p ∷ ps) = b == p && has_prefix s ps

unfoldable pub contains : Bytes → Bytes → Bool
unfolding has_prefix
contains [] sub = has_prefix [] sub
contains (b ∷ s) sub = has_prefix (b ∷ s) sub || contains s sub

-- `errUnknownChaincode`
abbrev pub unknown_chaincode : Bytes
unknown_chaincode = codes "unknown chaincode"

abbrev pub lscc : Bytes
lscc = codes "lscc"

-- `errors.WithMessage`
abbrev pub wrapped {ℓ} : {A : Type ℓ} → String → Outcome Error A → Outcome Error A
wrapped message (ok a) = ok a
wrapped message (err e) = err (with_message message e)
wrapped message panic = panic

abbrev pub is_empty {ℓ} : {A : Type ℓ} → List A → Bool
is_empty [] = true
is_empty (b ∷ bs) = false

module _ (f : Fabric) where
  -- The lifecycle's definition; `none` stands for a chaincode that is not known to it.
  abbrev pub definition_of_info : Bytes ⊎ ChaincodeInfo → Outcome Error (Option ChaincodeDefinition)
  definition_of_info (inl e) = if contains e unknown_chaincode then ok none else err (outside e)
  definition_of_info (inr info) = do
    signature ←
        wrapped "unable to unmarshal application policy for chaincode"
          (f.signature_policy info.validation_parameter)
    policy ← wrapped "unable to marshal signature policy for chaincode" (f.marshal_policy signature)
    ok (some (record { version = info.version; policy = policy }))

  -- `createLifecycleCCDefinition`
  unfoldable pub create_lifecycle_cc_definition : Bytes → Outcome Error (Option ChaincodeDefinition)
  unfolding contains
  create_lifecycle_cc_definition cc_name = definition_of_info (f.chaincode_info cc_name)

  abbrev pub not_found_or : Bytes → Bytes → Outcome Error ChaincodeDefinition
  not_found_or cc_name [] = err (text "lscc's state for [%s] not found." (cc_name ∷ []))
  not_found_or cc_name (b ∷ bs) =
      wrapped "unmarshalling ChaincodeQueryResponse failed" (f.unmarshal_chaincode_data (b ∷ bs))

  abbrev pub lookup_failed : Bytes → Outcome Error Bytes → Outcome Error Bytes
  lookup_failed cc_name (ok bytes) = ok bytes
  lookup_failed cc_name (err e) = err (lookup_failure cc_name e)
  lookup_failed cc_name panic = panic

  -- `createLSCCDefinition`
  unfoldable pub create_lscc_definition : Bytes → Outcome Error ChaincodeDefinition
  create_lscc_definition cc_name = do
    bytes ← lookup_failed cc_name (f.get_state lscc cc_name)
    not_found_or cc_name bytes

  abbrev pub or_lscc : Bytes → Option ChaincodeDefinition → Outcome Error ChaincodeDefinition
  or_lscc cc_name none = create_lscc_definition cc_name
  or_lscc cc_name (some d) = ok d

  -- `createCCDefinition`
  unfoldable pub create_cc_definition : Bytes → Outcome Error ChaincodeDefinition
  unfolding create_lifecycle_cc_definition create_lscc_definition
  create_cc_definition cc_name = do d ← create_lifecycle_cc_definition cc_name; or_lscc cc_name d

  module _ (cache : GCache Bytes ChaincodeDefinition) where
    -- `getCCDefinition`: the cache's loader is `createCCDefinition`
    unfoldable pub get_cc_definition :
        cache.State → Bytes → cache.State × Outcome Error ChaincodeDefinition
    unfolding get_or_load create_cc_definition
    get_cc_definition c cc_name = get_or_load cache create_cc_definition c cc_name

    -- the handler of chaincode upgrades that `newValidator` adds
    unfoldable pub on_cc_upgrade : cache.State → Bytes → cache.State × Option Error
    on_cc_upgrade c cc_name = (cache.purge c, none)
