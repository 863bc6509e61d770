-- ===== src/RequestCache.antt =====
-- pkg/validation/validationhandler/requestcache.go: the validation requests that wait for their
-- block.
pub mod Ordered
mod Tests
use fabric_peer_ext.Prelude.{
  ℕ, ◌==◌, leb, Bool, true, false, Option, none, some, List, [], ◌∷◌, ◌++◌, if◌then◌else◌, ◌+◌,
}
use fabric_peer_ext.PvtData.Varint.{drop}

-- A request: the number of its block, and its responder, a callback.
pub record Request (R : Type 0) : Type 0 where
  pub block_num : ℕ
  pub responder : R

module _ {R : Type 0} where
  -- `Add`
  unfoldable pub add_request : List (Request R) → ℕ → R → List (Request R)
  add_request requests block_num responder =
      requests ++ record { block_num = block_num; responder = responder } ∷ []

  -- the loop of `Remove` from an index on: `removeToIndex` and the request
  unfoldable pub scan : ℕ → ℕ → Option ℕ → List (Request R) → Option ℕ × Option (Request R)
  scan block_num i remove_to [] = (remove_to, none)
  scan block_num i remove_to (r ∷ rs) =
      let earlier = scan block_num (i + 1) (some i) rs in
      let later = scan block_num (i + 1) remove_to rs in
      if leb r.block_num block_num
      then (if r.block_num == block_num then (some i, some r) else earlier)
      else later

  abbrev pub removed_to : List (Request R) → Option ℕ → List (Request R)
  removed_to requests none = requests
  removed_to requests (some i) = drop (i + 1) requests

  -- `Remove`: the requests that stay, and the request of the block
  unfoldable pub remove_up_to : List (Request R) → ℕ → List (Request R) × Option (Request R)
  unfolding scan
  remove_up_to requests block_num =
      let (remove_to, req) = scan block_num 0 none requests in (removed_to requests remove_to, req)
