-- ===== src/MultiRequest.antt =====
-- pkg/common/common.go (Values) and pkg/common/multirequest/multirequest.go: several requests run
-- at once, and what they return is merged in the order in which it arrives.
use fabric_peer_ext.Prelude.{
  ℕ, zero, suc, ◌+◌, ltb, Bool, true, false, not, if◌then◌else◌, String, Option, none, some, List,
  [], ◌∷◌, length, replicate,
}
use fabric_peer_ext.Prelude.Outcome.{Outcome, ok, err, panic, ◌>>=◌, index, assign}
pub mod Overlay
pub mod Arrivals
mod Tests

-- What an interface value holds, by the kinds that `IsNil` tells apart; the contents are numbers.
pub data Value : Type 0 where
  nil : Value
  -- none: a nil pointer
  pointer : Option ℕ → Value
  array : List ℕ → Value
  slice : List ℕ → Value
  other : ℕ → Value

unfoldable pub is_nil : Value → Bool
is_nil nil = true
is_nil (pointer none) = true
is_nil (pointer (some a)) = false
is_nil (array []) = true
is_nil (array (a ∷ as')) = false
is_nil (slice []) = true
is_nil (slice (a ∷ as')) = false
is_nil (other a) = false

abbrev pub Values : Type 0
Values = List Value

unfoldable pub is_empty : Values → Bool
is_empty [] = true
is_empty (v ∷ vs) = if not (is_nil v) then false else is_empty vs

unfoldable pub all_set : Values → Bool
all_set [] = true
all_set (v ∷ vs) = if is_nil v then false else all_set vs

-- Go's `copy`: the source onto the front of the destination, as far as both reach
abbrev pub copy : Values → Values → Values
copy [] src = []
copy (d ∷ dst) [] = d ∷ dst
copy (d ∷ dst) (v ∷ src) = v ∷ copy dst src

abbrev pub max_length : Values → Values → ℕ
max_length v w = if ltb (length w) (length v) then length v else length w

-- the loop of `Merge` from index `i`
unfoldable pub merge_values : ℕ → Values → Values → Outcome (Unit {0}) Values
merge_values i [] ret_val = ok ret_val
merge_values i (o ∷ os) ret_val = do
  current ← index ret_val i
  ret_val' ← (if is_nil current then assign ret_val i o else ok ret_val)
  merge_values (i + 1) os ret_val'

-- `Values.Merge`
unfoldable pub merge : Values → Values → Outcome (Unit {0}) Values
merge v other_values =
    merge_values 0 other_values (copy (replicate (max_length v other_values) nil) v)

-- `res`, what a request sends when it ends
pub record Res : Type 0 where
  pub id : String
  pub values : Values
  pub error : Option String

pub record Response : Type 0 where
  pub request_id : String
  pub values : Values

-- The result tells whether all the values of the response are set.
unfoldable pub handle_response : Res → Response → Outcome (Unit {0}) (Response × Bool)
handle_response response resp = elim response.error [
  | some e ↦ ok (resp, false)
  | none ↦ (do
    merged ← merge resp.values response.values
    ok (record { request_id = response.id; values = merged }, all_set response.values))
]

-- The loop of `Execute`, with the responses in the order of their arrival.
unfoldable pub wait_all : List Res → Bool → Response → Outcome (Unit {0}) Response
wait_all [] is_done resp = ok resp
wait_all (response ∷ rest) true resp = wait_all rest true resp
wait_all (response ∷ rest) false resp = do
  (resp', is_done) ← handle_response response resp
  wait_all rest is_done resp'

-- `Execute` of a multi request
unfoldable pub execute : List Res → Outcome (Unit {0}) Response
execute responses = wait_all responses false (record { request_id = ""; values = [] })
