-- ===== src/CommitCheck/Tests.antt =====
-- Tests of pkg/txn/handler/checkforcommit.go with a namespace of which one collection is ignored.
use fabric_peer_ext.Prelude.{ℕ, true, false, none, some, List, [], ◌∷◌, ◌≡◌, refl, suc}
use fabric_peer_ext.BlockVisitor.Data.{Bytes, Decoded, good, bad}
use fabric_peer_ext.CommitCheck.{
  commit_on_write, Namespace, NsRwSet, Decoders, Request, Handler, handle, has_write_set, ignore_cc,
  ignore_collection, contains,
}
use fabric_peer_ext.CommitCheck.Decision.{handle_lem, carried_out, decision}

abbrev ignored_namespaces : List Namespace
ignored_namespaces =
    record { name = "cc1"; collections = "coll1" ∷ [] }
    ∷ record { name = "cc2"; collections = [] }
    ∷ []

abbrev written_sets : List NsRwSet
written_sets =
    record { name_space = "cc2"; kv_writes = some ((1 ∷ []) ∷ []); coll_hashed_rw_sets = [] }
    ∷ record {
      name_space = "cc1";
      kv_writes = none;
      coll_hashed_rw_sets =
          record { collection_name = "coll1"; hashed_writes = some ((1 ∷ []) ∷ []) }
          ∷ record { collection_name = "coll2"; hashed_writes = some ((2 ∷ []) ∷ []) }
          ∷ [];
    }
    ∷ []

-- the second collection is written to and not ignored
counts_test : has_write_set ignored_namespaces written_sets ≡ true
unfolding has_write_set ignore_cc ignore_collection contains
counts_test = refl

abbrev sets_of_bytes : Bytes → Decoded (List NsRwSet)
sets_of_bytes [] = bad "no results"
sets_of_bytes (b ∷ bs) = good written_sets

abbrev decoders : Decoders
decoders = record {
  unmarshal_payload = good;
  unmarshal_action = λ bs. good (record { events = []; results = bs });
  from_proto_bytes = sets_of_bytes;
}

abbrev request : Request ℕ
request = record { responses = some (some (some (1 ∷ []))) ∷ []; error = none; rest = 0 }

abbrev fresh_handler : Handler ℕ
fresh_handler = record {
  next = some (λ r. record r { rest = suc r.rest });
  ignored = ignored_namespaces;
  commit_type = commit_on_write;
  should_commit = false;
}

handle_lem_example :
    handle decoders fresh_handler request
    ≡ carried_out decoders fresh_handler request
        (decision decoders commit_on_write ignored_namespaces request)
handle_lem_example = handle_lem decoders fresh_handler request refl
