-- ===== src/RequestCache/Tests.antt =====
-- Tests of pkg/validation/validationhandler/requestcache.go with three requests.
use fabric_peer_ext.Prelude.{ℕ, List, [], ◌∷◌, arith}
use fabric_peer_ext.RequestCache.{Request}
use fabric_peer_ext.RequestCache.Ordered.{IsAscending}

abbrev request_at : ℕ → Request ℕ
request_at n = record { block_num = n; responder = 0 }

abbrev three_requests : List (Request ℕ)
three_requests = request_at 4 ∷ request_at 5 ∷ request_at 7 ∷ []

three_requests-IsAscending : IsAscending three_requests
three_requests-IsAscending = ((omega arith, (omega arith, tt)), ((omega arith, tt), (tt, tt)))
