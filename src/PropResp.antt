-- ===== src/PropResp.antt =====
-- pkg/txn/proprespvalidator/validator.go: whether the responses of the endorsers to a proposal make
-- a valid transaction. Here is what is read, and the code outside the repository that reads it.
mod Definitions
mod Responses
mod Policies
mod Inversion
pub mod Dedup
pub mod Cached
pub mod Endorsed
mod Tests
use fabric_peer_ext.Prelude.{Bool, true, false, Option, List, [], ◌∷◌, ◌⊎◌, String, ℕ}
use fabric_peer_ext.Prelude.Outcome.{Outcome, ok, err, panic}
use fabric_peer_ext.Prelude.Bytes.{Bytes}
use Prim.Native.Char.{code}

-- A text with its arguments, or the wrapping of an error; `policy_error` is
-- `VSCCEndorsementPolicyError` and `lookup_failure` is `VSCCInfoLookupFailureError`.
pub data Error : Type 0 where
  text : String → List Bytes → Error
  outside : Bytes → Error
  with_message : String → Error → Error
  policy_error : Error → Error
  lookup_failure : Bytes → Error → Error

-- The codes of `peer.TxValidationCode` that an error comes with.
pub data Code : Type 0 where
  invalid_other_reason expired_chaincode endorsement_policy_failure bad_rwset illegal_writeset :
      Code

-- `ok tt` is the code VALID with no error.
abbrev pub CodedError : Type 0
CodedError = Code × Error

abbrev pub Verdict : Type 0
Verdict = Outcome CodedError (Unit {0})

-- The bytes of a text in ASCII.
abbrev pub codes : String → Bytes
codes String.[] = []
codes (String.◌∷◌ c s) = code c ∷ codes s

-- The messages; `none` stands for a nil pointer.
pub record ChaincodeResponse : Type 0 where
  pub status : ℕ
  pub payload : Bytes

pub record Endorsement : Type 0 where
  pub endorser : Bytes
  pub signature : Bytes

pub record ProposalResponse : Type 0 where
  pub response : Option ChaincodeResponse
  pub payload : Bytes
  pub endorsement : Option Endorsement

pub record ChaincodeId : Type 0 where
  pub name : Bytes
  pub version : Bytes

pub record ChaincodeAction : Type 0 where
  pub chaincode_id : Option ChaincodeId
  pub events : Option Bytes
  pub results : Bytes

pub record CollHashedRwSet : Type 0 where
  pub hashed_writes : Option (List Bytes)

pub record NsRwSet : Type 0 where
  pub name_space : Bytes
  pub kv_writes : Option (List Bytes)
  pub coll_hashed_rw_sets : List CollHashedRwSet

pub record SerializedIdentity : Type 0 where
  pub mspid : Bytes
  pub id_bytes : Bytes

-- `protoutil.SignedData`
pub record SignedData : Type 0 where
  pub signed : Bytes
  pub identity : Bytes
  pub signature : Bytes

-- `chaincodeDefinition`
pub record ChaincodeDefinition : Type 0 where
  pub version : Bytes
  pub policy : Bytes

-- What is read of the chaincode that the lifecycle knows.
pub record ChaincodeInfo : Type 0 where
  pub version : Bytes
  pub validation_parameter : Bytes

-- The checks of a deserialized identity; `none` is a nil error.
pub record Identity : Type 0 where
  pub validate : Option Error
  pub verify : Bytes → Bytes → Option Error

-- The decoders, the identities of the channel, its policy evaluator and its state, which are code
-- outside the repository.
pub record Fabric : Type 0 where
  pub deserialize_identity : Bytes → Outcome Error Identity
  pub unmarshal_identity : Bytes → Outcome Error SerializedIdentity
  -- the payload of a proposal
  pub unmarshal_proposal : Bytes → Outcome Error Bytes
  -- the input of a chaincode proposal payload
  pub unmarshal_cc_proposal_payload : Bytes → Outcome Error Bytes
  -- the chaincode spec of an invocation spec, and its chaincode ID
  pub unmarshal_invocation_spec : Bytes → Outcome Error (Option (Option ChaincodeId))
  -- the extension of a proposal response payload
  pub unmarshal_response_payload : Bytes → Outcome Error Bytes
  pub unmarshal_action : Bytes → Outcome Error ChaincodeAction
  -- the chaincode ID of an event
  pub unmarshal_event : Bytes → Outcome Error Bytes
  pub from_proto_bytes : Bytes → Outcome Error (List NsRwSet)
  pub evaluate : Bytes → List SignedData → Option Error
  -- the text of the error, or the chaincode
  pub chaincode_info : Bytes → Bytes ⊎ ChaincodeInfo
  -- the signature policy of an application policy
  pub signature_policy : Bytes → Outcome Error Bytes
  pub marshal_policy : Bytes → Outcome Error Bytes
  pub get_state : Bytes → Bytes → Outcome Error Bytes
  pub unmarshal_chaincode_data : Bytes → Outcome Error ChaincodeDefinition
