-- ===== src/RequestMgr/Tests.antt =====
-- A manager with one request: tests of pkg/common/requestmgr/requestmgr.go.
use fabric_peer_ext.Prelude.{ℕ, true, false, String, [], ◌∷◌, any, ◌≡◌, ◌≢◌, refl, arith}
use fabric_peer_ext.Prelude.Assoc.{nat_eq, lookup, put, remove}
use fabric_peer_ext.RequestMgr.{
  Response, ChannelMgr, new_channel_mgr, new_request, returned, waits, respond, cancel,
  remove_request, get_response, Ready, context_done, response_there, already_completed,
  context_error, answered,
}
use fabric_peer_ext.RequestMgr.Delivery.{respond_all, answer_delivered}
use fabric_peer_ext.RequestMgr.Channels.{RequestMgr}
use fabric_peer_ext.RequestMgr.Blocked.{Responders, Run, stop, go, responds, Run-never_unlocks}

abbrev no_managers : RequestMgr
no_managers = record { managers = []; mgrs = [] }

abbrev reply : String → Response
reply peer = record { endpoint = peer; msp_id = "org1"; response_data = 1 ∷ [] }

-- one registered request, which has a response already
abbrev full_mgr : ChannelMgr
full_mgr = record {
  heap = (7, record { resp_chan = reply "p1" ∷ []; is_done = false }) ∷ [];
  registered = (7, tt) ∷ [];
  next_request_id = 7;
}

first_request_id : (new_request new_channel_mgr).1 ≡ 1000000001
unfolding new_request new_channel_mgr
first_request_id = refl

respond_waits_test : respond full_mgr 7 (reply "p2") ≡ waits
unfolding respond lookup
respond_waits_test = refl

get_response_test :
    get_response full_mgr 7 response_there
    ≡ returned (
      record {
        heap = (7, record { resp_chan = []; is_done = true }) ∷ [];
        registered = [];
        next_request_id = 7;
      },
      answered (reply "p1"),
    )
unfolding get_response cancel remove_request lookup put remove
get_response_test = refl

timeout_test :
    get_response full_mgr 7 context_done
    ≡ returned (
      record {
        heap = (7, record { resp_chan = reply "p1" ∷ []; is_done = true }) ∷ [];
        registered = [];
        next_request_id = 7;
      },
      context_error,
    )
unfolding get_response cancel remove_request lookup put remove
timeout_test = refl

eight_ne_new : ◌≢◌ {A = ℕ} 8 (new_request new_channel_mgr).1
unfolding new_request new_channel_mgr
eight_ne_new p = absurd (omega (arith, p))

stray_response :
    respond_all (new_request new_channel_mgr).0 ((8, reply "p1") ∷ [])
    ≡ returned (new_request new_channel_mgr).0
unfolding respond_all respond new_request new_channel_mgr put lookup
stray_response = refl

answer_delivered_example :
    (c₂ : ChannelMgr) × (c₃ : ChannelMgr) × (respond
        (new_request new_channel_mgr).0
        (new_request new_channel_mgr).1
        (reply "p2")
      ≡ returned c₂)
    × (get_response c₂ (new_request new_channel_mgr).1 response_there
        ≡ returned (c₃, answered (reply "p2")))
    × ((late : Response) → respond c₃ (new_request new_channel_mgr).1 late ≡ returned c₃)
    × ((ready : Ready)
        → get_response c₃ (new_request new_channel_mgr).1 ready ≡ returned (c₃, already_completed))
answer_delivered_example =
    answer_delivered new_channel_mgr (new_request new_channel_mgr).0 ((8, reply "p1") ∷ [])
      (reply "p2") (eight_ne_new, tt) stray_response

stray-Run : Run 7 full_mgr ((7, reply "p2") ∷ []) full_mgr ((7, reply "p2") ∷ [])
unfolding respond lookup
stray-Run = go (responds 8 (reply "p3") refl) stop

Run-never_unlocks_example : ◌≢◌ {A = Responders} ((7, reply "p2") ∷ []) []
unfolding lookup any
Run-never_unlocks_example =
    Run-never_unlocks 7 full_mgr full_mgr ((7, reply "p2") ∷ []) ((7, reply "p2") ∷ [])
      (refl, record { resp_chan = reply "p1" ∷ []; is_done = false }, reply "p1", [], refl, refl)
      refl stray-Run
