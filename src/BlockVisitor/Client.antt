-- ===== src/BlockVisitor/Client.antt =====
-- The options of a visitor of pkg/common/blockvisitor/blockvisitor.go and its making.
use fabric_peer_ext.Prelude.{String, Option, List, [], ◌∷◌}
use fabric_peer_ext.BlockVisitor.Data.{
  Block, Protocol, Read, Write, CollHashRead, CollHashWrite, LsccWrite, CcEvent, ConfigUpdate,
  Context,
}
use fabric_peer_ext.BlockVisitor.Action.{Options, Callback, default_options}
use fabric_peer_ext.BlockVisitor.Height.{Visitor}

module _ (proto : Protocol) (S : Type 0) where
  -- `Opt`
  abbrev pub Opt : Type 0
  Opt = Options proto S → Options proto S

  abbrev pub with_error_handler : (String → Context proto → S → S × Option String) → Opt
  with_error_handler handler options = record options { handle_error = handler }

  abbrev pub with_cc_event_handler : (Callback proto S (CcEvent proto)) → Opt
  with_cc_event_handler handler options = record options { handle_cc_event = handler }

  abbrev pub with_read_handler : (Callback proto S Read) → Opt
  with_read_handler handler options = record options { handle_read = handler }

  abbrev pub with_write_handler : (Callback proto S Write) → Opt
  with_write_handler handler options = record options { handle_write = handler }

  abbrev pub with_coll_hash_read_handler : (Callback proto S CollHashRead) → Opt
  with_coll_hash_read_handler handler options = record options { handle_coll_hash_read = handler }

  abbrev pub with_coll_hash_write_handler : (Callback proto S CollHashWrite) → Opt
  with_coll_hash_write_handler handler options = record options { handle_coll_hash_write = handler }

  abbrev pub with_lscc_write_handler : (Callback proto S (LsccWrite proto)) → Opt
  with_lscc_write_handler handler options = record options { handle_lscc_write = handler }

  abbrev pub with_config_update_handler : (Callback proto S (ConfigUpdate proto)) → Opt
  with_config_update_handler handler options = record options { handle_config_update = handler }

  abbrev pub with_block_handler : (Callback proto S Block) → Opt
  with_block_handler handler options = record options { handle_block = handler }

  abbrev pub apply_opts : List Opt → Options proto S → Options proto S
  apply_opts [] options = options
  apply_opts (opt ∷ opts) options = apply_opts opts (opt options)

  -- `New`: the visitor and its options
  unfoldable pub new_visitor : String → List Opt → Visitor × Options proto S
  new_visitor channel_id opts = (
    record { channel_id = channel_id; last_committed_block = 0 },
    apply_opts opts (default_options proto S),
  )
