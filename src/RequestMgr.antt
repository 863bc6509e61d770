-- ===== src/RequestMgr.antt =====
-- pkg/common/requestmgr/requestmgr.go: requests to other peers that are answered by ID. The heap of
-- requests is keyed by their IDs, and `registered` is the map of the manager, which shares them with
-- the clients.
use fabric_peer_ext.Prelude.{
  ℕ, ◌+◌, ◌%◌, ◌^◌, Bool, true, false, if◌then◌else◌, String, Option, none, some, List, [], ◌∷◌,
}
use fabric_peer_ext.Prelude.Assoc.{nat_eq, lookup, put, remove}
pub mod Delivery
pub mod Blocked
pub mod Channels
mod Tests

-- `Response`; its data and the signature serve the client only.
pub record Response : Type 0 where
  pub endpoint : String
  pub msp_id : String
  pub response_data : List ℕ

-- `resp_chan` is the channel's buffer, which has room for one response.
pub record Request : Type 0 where
  pub resp_chan : List Response
  pub is_done : Bool

pub record ChannelMgr : Type 0 where
  pub heap : List (ℕ × Request)
  pub registered : List (ℕ × Unit {0})
  pub next_request_id : ℕ

unfoldable pub new_channel_mgr : ChannelMgr
new_channel_mgr = record { heap = []; registered = []; next_request_id = 1000000000 }

abbrev pub new_request_id : ChannelMgr → ℕ
new_request_id c = (c.next_request_id + 1) % 2 ^ 64

abbrev pub empty_request : Request
empty_request = record { resp_chan = []; is_done = false }

-- `NewRequest`: the ID of the new request
unfoldable pub new_request : ChannelMgr → ChannelMgr × ℕ
new_request c =
    let id = new_request_id c in
    (
      record {
        heap = put id empty_request c.heap;
        registered = put id tt c.registered;
        next_request_id = id;
      },
      id,
    )

-- What a call does: it returns, or it waits on a full or an empty channel.
pub data Progress {ℓ} (A : Type ℓ) : Type ℓ where
  returned : A → Progress A
  waits : Progress A

-- a send on the channel of a request, which holds `chan`
abbrev pub send_on : ChannelMgr → ℕ → Response → Request → List Response → Progress ChannelMgr
send_on c id response r [] =
    returned (record c { heap = put id (record r { resp_chan = response ∷ [] }) c.heap })
send_on c id response r (x ∷ xs) = waits

-- `respond`
abbrev pub send : ChannelMgr → ℕ → Response → Option Request → Progress ChannelMgr
send c id response none = returned c
send c id response (some r) = send_on c id response r r.resp_chan

abbrev pub respond_to : ChannelMgr → ℕ → Response → Option (Unit {0}) → Progress ChannelMgr
respond_to c id response none = returned c
respond_to c id response (some found) = send c id response (lookup id c.heap)

-- `Respond`; a registered request is in the heap
unfoldable pub respond : ChannelMgr → ℕ → Response → Progress ChannelMgr
respond c id response = respond_to c id response (lookup id c.registered)

abbrev pub remove_found : ChannelMgr → ℕ → Option (Unit {0}) → ChannelMgr
remove_found c id none = c
remove_found c id (some found) = record c { registered = remove id c.registered }

-- `remove`
unfoldable pub remove_request : ChannelMgr → ℕ → ChannelMgr
remove_request c id = remove_found c id (lookup id c.registered)

abbrev pub set_done : ℕ → Option Request → List (ℕ × Request) → List (ℕ × Request)
set_done id none heap = heap
set_done id (some r) heap = put id (record r { is_done = true }) heap

-- `Cancel`
unfoldable pub cancel : ChannelMgr → ℕ → ChannelMgr
cancel c id =
    let c' = remove_request c id in record c' { heap = set_done id (lookup id c'.heap) c'.heap }

-- The case of the `select` of `GetResponse` that is taken.
pub data Ready : Type 0 where
  context_done response_there : Ready

pub data Answer : Type 0 where
  already_completed context_error : Answer
  answered : Response → Answer

-- a receive on the channel of a request, which holds `chan`, then the deferred `Cancel`
abbrev pub receive : ChannelMgr → ℕ → Request → List Response → Progress (ChannelMgr × Answer)
receive c id r [] = waits
receive c id r (x ∷ xs) =
    returned
      (cancel (record c { heap = put id (record r { resp_chan = xs }) c.heap }) id, answered x)

abbrev pub get_from : ChannelMgr → ℕ → Ready → Option Request → Progress (ChannelMgr × Answer)
get_from c id ready none = waits
get_from c id context_done (some r) =
    if r.is_done then returned (c, already_completed) else returned (cancel c id, context_error)
get_from c id response_there (some r) =
    if r.is_done then returned (c, already_completed) else receive c id r r.resp_chan

-- `GetResponse` of the request with this ID
unfoldable pub get_response : ChannelMgr → ℕ → Ready → Progress (ChannelMgr × Answer)
get_response c id ready = get_from c id ready (lookup id c.heap)
