-- ===== src/BlockVisitor/Action.antt =====
-- How the visitor of pkg/common/blockvisitor/blockvisitor.go deals with errors: the handlers of
-- the client, the error handler, and the errors that halt the visit.
use fabric_peer_ext.Prelude.{
  ℕ, Bool, true, false, String, Option, none, some, List, [], ◌∷◌, if◌then◌else◌,
}
use fabric_peer_ext.BlockVisitor.Data.{
  Protocol, Event, Context, CcEvent, Read, Write, CollHashRead, CollHashWrite, LsccWrite,
  ConfigUpdate, Block, cc_event, read, write, coll_hash_read, coll_hash_write, lscc_write,
  config_update, block,
}

-- An error of the client with the texts that were put before it.
pub data VisitError : Type 0 where
  raised : String → VisitError
  -- "invalid chaincode Event for chaincode", the ID of the chaincode
  invalid_event : String → VisitError → VisitError
  -- "invalid KV read/write set for collection", the namespace and the collection
  invalid_rw_set : String → String → VisitError → VisitError
  -- "error visiting envelope", its index and the block
  at_envelope : ℕ → ℕ → VisitError → VisitError

-- `visitorError` is the error that halts; any other is a warning; a panic unwinds the visit.
pub data Failure : Type 0 where
  halt : VisitError → Failure
  warn : String → Failure
  panic : Failure

-- `err != nil && haltOnError(err)`, or a panic
abbrev pub halts : Option Failure → Bool
halts none = false
halts (some (halt e)) = true
halts (some (warn e)) = false
halts (some panic) = true

abbrev pub Action : Type 0 → Type 0
Action S = S → S × Option Failure

module _ {S : Type 0} where
  abbrev pub done : Action S
  done s = (s, none)

  abbrev pub fail : Failure → Action S
  fail f s = (s, some f)

  infixr 20 ◌▸◌
  -- the second action follows unless the first halts; a warning is dropped
  abbrev pub ◌▸◌ : Action S → Action S → Action S
  ◌▸◌ first second s =
      let (s', r) = first s in let rest = second s' in if halts r then (s', r) else rest

  -- a loop that an element stops only by a halt
  abbrev pub for_each {ℓ} : {A : Type ℓ} → (A → Action S) → List A → Action S
  for_each body [] = done
  for_each body (a ∷ as') = body a ▸ for_each body as'

  abbrev pub wrap_result : (VisitError → VisitError) → S × Option Failure → S × Option Failure
  wrap_result f (s, none) = (s, none)
  wrap_result f (s, some (halt e)) = (s, some (halt (f e)))
  wrap_result f (s, some (warn e)) = (s, some (warn e))
  wrap_result f (s, some panic) = (s, some panic)

  -- the action, with text put before the error that it halts with
  abbrev pub wrapped : (VisitError → VisitError) → Action S → Action S
  wrapped f a s = wrap_result f (a s)

module _ (proto : Protocol) (S : Type 0) where
  -- A client's callback changes the client's state and may return an error.
  abbrev pub Callback : Type 0 → Type 0
  Callback A = A → S → S × Option String

  -- `Handlers` and the error handler of `Options`
  pub record Options : Type 0 where
    pub handle_cc_event : Callback (CcEvent proto)
    pub handle_read : Callback Read
    pub handle_write : Callback Write
    pub handle_coll_hash_read : Callback CollHashRead
    pub handle_coll_hash_write : Callback CollHashWrite
    pub handle_lscc_write : Callback (LsccWrite proto)
    pub handle_config_update : Callback (ConfigUpdate proto)
    pub handle_block : Callback Block
    -- the error that it returns halts the visit
    pub handle_error : String → Context proto → S → S × Option String

  abbrev noop : {A : Type 0} → Callback A
  noop a s = (s, none)

  -- `noopHandlers` and `defaultHandleError`
  unfoldable pub default_options : Options
  default_options = record {
    handle_cc_event = noop;
    handle_read = noop;
    handle_write = noop;
    handle_coll_hash_read = noop;
    handle_coll_hash_write = noop;
    handle_lscc_write = noop;
    handle_config_update = noop;
    handle_block = noop;
    handle_error = λ e ctx s. (s, none);
  }

  abbrev pub halted_by : Option String → Option Failure
  halted_by none = none
  halted_by (some e) = some (halt (raised e))

  -- `if e := p.HandleError(err, ctx); e != nil { return newVisitorError(e) }`
  unfoldable pub report : Options → String → Context proto → Action S
  report opts err ctx s = let (s', e) = opts.handle_error err ctx s in (s', halted_by e)

  -- the handler of an event
  abbrev pub dispatch : Options → Event proto → S → S × Option String
  dispatch opts (cc_event e) = opts.handle_cc_event e
  dispatch opts (read e) = opts.handle_read e
  dispatch opts (write e) = opts.handle_write e
  dispatch opts (coll_hash_read e) = opts.handle_coll_hash_read e
  dispatch opts (coll_hash_write e) = opts.handle_coll_hash_write e
  dispatch opts (lscc_write e) = opts.handle_lscc_write e
  dispatch opts (config_update e) = opts.handle_config_update e
  dispatch opts (block e) = opts.handle_block e

  abbrev pub reported : Options → Context proto → S × Option String → S × Option Failure
  reported opts ctx (s, none) = (s, none)
  reported opts ctx (s, some err) = report opts err ctx s

  -- a handler is called, and its error, if any, is given to the error handler
  unfoldable pub publish : Options → Event proto → Context proto → Action S
  unfolding report
  publish opts e ctx s = reported opts ctx (dispatch opts e s)
