-- ===== src/MultiRequest/Tests.antt =====
-- Concrete responses: tests of pkg/common/common.go (Values) and of
-- pkg/common/multirequest/multirequest.go.
use fabric_peer_ext.Prelude.{true, none, some, List, [], ◌∷◌, ◌≡◌, refl}
use fabric_peer_ext.Prelude.Outcome.{ok}
use fabric_peer_ext.MultiRequest.{
  nil, slice, pointer, other, is_nil, Values, is_empty, all_set, merge, merge_values, Res,
  handle_response, wait_all, execute,
}
use fabric_peer_ext.MultiRequest.Arrivals.{used, merged, last_id, execute_lem}

abbrev partial_values : Values
partial_values = other 1 ∷ pointer none ∷ slice [] ∷ []

abbrev whole_values : Values
whole_values = other 2 ∷ other 3 ∷ slice (4 ∷ []) ∷ []

abbrev three_responses : List Res
three_responses =
    record { id = "p1"; values = []; error = some "unreachable" }
    ∷ record { id = "p2"; values = partial_values; error = none }
    ∷ record { id = "p3"; values = whole_values; error = none }
    ∷ record { id = "p4"; values = nil ∷ nil ∷ other 9 ∷ []; error = none }
    ∷ []

is_empty_test : is_empty (pointer none ∷ slice [] ∷ []) ≡ true
unfolding is_empty is_nil
is_empty_test = refl

execute_test :
    execute three_responses
    ≡ ok (record { request_id = "p3"; values = other 1 ∷ other 3 ∷ slice (4 ∷ []) ∷ [] })
unfolding execute wait_all handle_response merge merge_values all_set is_nil
execute_test = refl

execute_lem_example :
    execute three_responses
    ≡ ok (record {
      request_id = last_id "" (used three_responses);
      values = merged [] (used three_responses);
    })
execute_lem_example = execute_lem three_responses
