-- ===== src/Publisher/Tests.antt =====
-- Tests of pkg/gossip/blockpublisher/blockpublisher.go: a block of the small protocol, published to
-- handlers that log.
use fabric_peer_ext.Prelude.{String, Option, some, [], ◌∷◌, ◌++◌, ◌≡◌, ◌≢◌}
use fabric_peer_ext.BlockVisitor.Data.{Event, block}
use fabric_peer_ext.BlockVisitor.Height.{Visitor}
use fabric_peer_ext.BlockVisitor.Sample.{small_protocol, four_entries, Log}
use fabric_peer_ext.Publisher.{
  Publisher, new_publisher, add_block_handler, add_write_handler, receive,
}
use fabric_peer_ext.Publisher.Listener.{
  Listening, waits, handles, exited, at, sent, handlers_called, close_called, close_received,
  open_publisher, close_done, Reach, here, more, replay, Reach-replay, closed_publish_stops, System,
  Step,
}

abbrev logged : String → Log → Log × Option String
logged text log = (log ++ text ∷ [], some "refused")

abbrev publisher : Publisher small_protocol Log
publisher =
    add_block_handler small_protocol Log
      (add_write_handler small_protocol Log
        (add_write_handler small_protocol Log (new_publisher small_protocol Log "ch")
          (λ md ns w. logged "first"))
        (λ md ns w. logged "second"))
      (λ b. logged "block")

abbrev publisher_visitor : Visitor
publisher_visitor = record { channel_id = "ch"; last_committed_block = 4 }

abbrev block_event : Event small_protocol
block_event = block four_entries

block_run :
    Reach small_protocol Log publisher
      (at small_protocol Log (block_event ∷ []) waits open_publisher [])
      (at small_protocol Log [] exited close_done
        (receive small_protocol Log publisher block_event []))
block_run = more (more (more (more here sent) close_called) handlers_called) close_received

exited-ne-handles :
    (e : Event small_protocol) → (let l : Listening small_protocol Log = exited in l) ≢ handles e
exited-ne-handles e h = cc

Reach-replay_example :
    receive small_protocol Log publisher block_event []
    ≡ replay small_protocol Log publisher (block_event ∷ []) []
Reach-replay_example =
    Reach-replay small_protocol Log publisher (block_event ∷ []) [] exited close_done
      (receive small_protocol Log publisher block_event []) block_run exited-ne-handles

closed_publish_stops_example :
    Reach small_protocol Log publisher
      (at small_protocol Log (block_event ∷ block_event ∷ []) waits open_publisher [])
      (at small_protocol Log
        (block_event ∷ [])
        exited
        close_done
        (replay small_protocol Log publisher (block_event ∷ []) []))
    × ¬ (
        (t : System small_protocol Log) × Step small_protocol Log publisher
          (at small_protocol Log
            (block_event ∷ [])
            exited
            close_done
            (replay small_protocol Log publisher (block_event ∷ []) []))
          t)
closed_publish_stops_example =
    closed_publish_stops small_protocol Log publisher (block_event ∷ []) (block_event ∷ []) []
