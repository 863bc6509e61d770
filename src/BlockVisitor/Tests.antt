-- ===== src/BlockVisitor/Tests.antt =====
-- Tests of the visitor of
-- pkg/common/blockvisitor/blockvisitor.go.
use fabric_peer_ext.Prelude.{ℕ, Option, none, some, [], ◌∷◌, ◌≡◌, refl, ◌≢◌, arith}
use fabric_peer_ext.BlockVisitor.Data.{TxPvtData, Protocol, good}
use fabric_peer_ext.BlockVisitor.Action.{report, publish, panic}
use fabric_peer_ext.BlockVisitor.Visit.{
  visit_coll_hash_rw_sets, visit_ns_read_write_set, visit_tx_read_write_set,
  visit_chaincode_action_results, visit_chaincode_action_events, visit_chaincode_action,
  visit_tx_action, tx_visit, config_update_visit, visit_config_update, visit_tx, visit_envelope,
  visit_block,
}
use fabric_peer_ext.BlockVisitor.Items.{items, stopped, outcome, perform}
use fabric_peer_ext.BlockVisitor.Publish.{
  get_cc_info, extract_payload_and_header, publish_reads, publish_writes, publish_lscc_write,
}
use fabric_peer_ext.BlockVisitor.Height.{
  Visitor, ledger_height, visit, set_last_committed_block_num, stale_load_spins, visit-perform,
}
use fabric_peer_ext.BlockVisitor.Sample.{small_protocol, Log, logging, four_entries}

abbrev visitor : Visitor
visitor = record { channel_id = "ch"; last_committed_block = 3 }

abbrev no_pvt_data : ℕ → Option TxPvtData
no_pvt_data n = none

visit_goes_on :
    (visit small_protocol Log (logging none) visitor four_entries no_pvt_data []).0
    ≡ ("block" ∷ "error" ∷ "read" ∷ "write" ∷ "error" ∷ "lscc" ∷ "event" ∷ "error" ∷ [], none)
unfolding visit visit_block publish report visit_envelope extract_payload_and_header visit_tx
    tx_visit visit_tx_action visit_chaincode_action visit_chaincode_action_results
    visit_tx_read_write_set visit_ns_read_write_set publish_reads publish_writes publish_lscc_write
    visit_coll_hash_rw_sets get_cc_info visit_chaincode_action_events visit_config_update
    config_update_visit
visit_goes_on = refl

visit_halts :
    outcome (visit small_protocol Log (logging (some "stop")) visitor four_entries no_pvt_data []).0
    ≡ ("block" ∷ "error" ∷ [], stopped)
unfolding visit visit_block publish report
visit_halts = refl

abbrev headless : Protocol
headless = record small_protocol {
  extract_payload = λ e. good (record { channel_header = none; payload_data = e });
}

nil_header_panics :
    visit_block headless Log (logging none) "ch" four_entries no_pvt_data []
    ≡ ("block" ∷ "error" ∷ [], some panic)
unfolding visit_block publish report visit_envelope extract_payload_and_header
nil_header_panics = refl

abbrev actionless : Protocol
actionless = record small_protocol {
  get_chaincode_action_payload =
      λ bs. good (record { proposal_payload = bs; proposal_response_payload = none });
}

nil_action_panics :
    visit_block actionless Log (logging none) "ch" four_entries no_pvt_data []
    ≡ ("block" ∷ "error" ∷ [], some panic)
unfolding visit_block publish report visit_envelope extract_payload_and_header visit_tx tx_visit
    visit_tx_action
nil_action_panics = refl

visit-perform_example :
    (outcome
        (visit small_protocol Log (logging (some "stop")) visitor four_entries no_pvt_data []).0
      ≡ perform small_protocol Log
          (logging (some "stop"))
          (items small_protocol "ch" four_entries no_pvt_data)
          [])
    × (ledger_height
          (visit small_protocol Log (logging (some "stop")) visitor four_entries no_pvt_data []).1
        ≡ 6)
visit-perform_example =
    visit-perform small_protocol Log (logging (some "stop")) visitor four_entries no_pvt_data []

four_ne_three : ◌≢◌ {A = ℕ} 4 3
four_ne_three p = absurd (omega (arith, p))

five_ne_three : ◌≢◌ {A = ℕ} 5 3
five_ne_three p = absurd (omega (arith, p))

stale_load_spins_example : set_last_committed_block_num 3 9 (4 ∷ 4 ∷ 5 ∷ []) ≡ none
stale_load_spins_example =
    stale_load_spins 3 9 (4 ∷ 4 ∷ 5 ∷ []) (omega arith)
      (four_ne_three, (four_ne_three, (five_ne_three, tt)))
