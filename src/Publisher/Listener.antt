-- ===== src/Publisher/Listener.antt =====
-- The goroutines of pkg/gossip/blockpublisher/blockpublisher.go: `Publish` sends, `listen` receives
-- and calls the handlers, and `Close` tells it to exit. The channels are unbuffered.
use fabric_peer_ext.Prelude.{List, [], ◌∷◌, ◌++◌, ◌≡◌, ◌≢◌, refl, ◌∙◌}
use fabric_peer_ext.BlockVisitor.Data.{Protocol, Event}
use fabric_peer_ext.Publisher.{Publisher, receive}

-- `p.closed`, and whether `doneChan` was received from
pub data Closing : Type 0 where
  open_publisher close_waits close_done : Closing

module _ (proto : Protocol) (H : Type 0) where
  pub data Listening : Type 0 where
    waits : Listening
    handles : Event proto → Listening
    exited : Listening

  -- The events that `Publish` has still to send, the listener, the closing, and the state of the
  -- handlers.
  pub record System : Type 0 where
    pub pending : List (Event proto)
    pub listening : Listening
    pub closing : Closing
    pub handled : H

  abbrev pub at : List (Event proto) → Listening → Closing → H → System
  at pending listening closing handled = record {
    pending = pending;
    listening = listening;
    closing = closing;
    handled = handled;
  }

module _ (proto : Protocol) (H : Type 0) (p : Publisher proto H) where
  pub data Step : System proto H → System proto H → Type 0 where
    -- a send and its receive
    sent :
        {e : Event proto} {es : List (Event proto)} {c : Closing} {h : H}
        → Step (at proto H (e ∷ es) waits c h) (at proto H es (handles e) c h)
    handlers_called :
        {e : Event proto} {es : List (Event proto)} {c : Closing} {h : H}
        → Step (at proto H es (handles e) c h) (at proto H es waits c (receive proto H p e h))
    -- the first call of `Close`; the others have no effect
    close_called :
        {es : List (Event proto)} {l : Listening proto H} {h : H}
        → Step (at proto H es l open_publisher h) (at proto H es l close_waits h)
    close_received :
        {es : List (Event proto)} {h : H}
        → Step (at proto H es waits close_waits h) (at proto H es exited close_done h)

  pub data Reach : System proto H → System proto H → Type 0 where
    here : {s : System proto H} → Reach s s
    more : {s t u : System proto H} → Reach s t → Step t u → Reach s u

  -- the events given to the handlers one after the other
  unfoldable pub replay : List (Event proto) → H → H
  replay [] h = h
  replay (e ∷ es) h = replay es (receive proto H p e h)

  abbrev settled : Listening proto H → H → H
  settled waits h = h
  settled (handles e) h = receive proto H p e h
  settled exited h = h

  -- the state of the handlers when all that was published has been handled
  abbrev outlook : System proto H → H
  outlook s = replay s.pending (settled s.listening s.handled)

  Step-outlook : {s t : System proto H} → Step s t → outlook t ≡ outlook s
  unfolding replay
  Step-outlook sent = refl
  Step-outlook handlers_called = refl
  Step-outlook close_called = refl
  Step-outlook close_received = refl

  Reach-outlook : {s t : System proto H} → Reach s t → outlook t ≡ outlook s
  Reach-outlook here = refl
  Reach-outlook (more r one) = Step-outlook one ∙ Reach-outlook r

  -- However the sending, the handling and a closing interleave, once the events are all sent and
  -- the listener waits for the next or has exited, the handlers have been given the events one after
  -- the other in their order.
  pub Reach-replay :
      (es : List (Event proto)) (h : H) (l : Listening proto H) (c : Closing) (h' : H)
      → Reach (at proto H es waits open_publisher h) (at proto H [] l c h')
      → ((e : Event proto) → l ≢ handles e)
      → h' ≡ replay es h
  unfolding replay
  Reach-replay es h waits c h' r idle = Reach-outlook r
  Reach-replay es h (handles e) c h' r idle = absurd (idle e refl)
  Reach-replay es h exited c h' r idle = Reach-outlook r

  -- The first events are sent and handled.
  handles_first :
      {s : System proto H} (first rest : List (Event proto)) (c : Closing) (h : H)
      → Reach s (at proto H (first ++ rest) waits c h)
      → Reach s (at proto H rest waits c (replay first h))
  unfolding replay
  handles_first [] rest c h r = r
  handles_first (e ∷ first) rest c h r =
      handles_first first rest c (receive proto H p e h) (more (more r sent) handlers_called)

  exited_stops :
      (rest : List (Event proto)) (h : H)
      → ¬ ((t : System proto H) × Step (at proto H rest exited close_done h) t)
  exited_stops rest h (t, one) = no_step one refl refl
    where
      no_step :
          {s u : System proto H} → Step s u → s.listening ≡ exited → s.closing ≡ close_done → ⊥
      no_step sent l c = cc
      no_step handlers_called l c = cc
      no_step close_called l c = cc
      no_step close_received l c = cc

  -- A `Close` may come between any two events of a `Publish`: wherever its events are split, there
  -- is a run in which the first of them have been handled in their order, the others are unsent and
  -- the listener has exited, and from there nothing can happen any more: the `Publish` never
  -- returns if events are left, and neither the handlers nor anything else moves.
  pub closed_publish_stops :
      (first rest : List (Event proto)) (h : H)
      → Reach
          (at proto H (first ++ rest) waits open_publisher h)
          (at proto H rest exited close_done (replay first h))
        × ¬ ((t : System proto H) × Step (at proto H rest exited close_done (replay first h)) t)
  closed_publish_stops first rest h = (
    more (more (handles_first first rest open_publisher h here) close_called) close_received,
    exited_stops rest (replay first h),
  )
