-- ===== src/Publisher/Delivery.antt =====
-- What the handlers of pkg/gossip/blockpublisher/blockpublisher.go are given of a block.
use fabric_peer_ext.Prelude.{Bool, true, false, List, [], ◌∷◌}
use fabric_peer_ext.BlockVisitor.Data.{Protocol}
use fabric_peer_ext.BlockVisitor.Action.{Action}
use fabric_peer_ext.BlockVisitor.Items.{
  Item, call, undecodable, crash, Verdict, finished, stopped, crashed,
}
use fabric_peer_ext.Publisher.{Publisher, receive}

module _ (proto : Protocol) (H : Type 0) where
  -- The events of a block given to the listener, in their order, up to the first panic
  -- of the visit itself.
  unfoldable pub deliver : Publisher proto H → List (Item proto) → H → H × Bool
  deliver p [] h = (h, false)
  deliver p (call e ctx ∷ is) h = deliver p is (receive proto H p e h)
  deliver p (undecodable e ctx ∷ is) h = deliver p is h
  deliver p (crash ∷ is) h = (h, true)

  abbrev ended : H × Verdict → H × Bool
  ended (h, finished) = (h, false)
  ended (h, stopped) = (h, true)
  ended (h, crashed) = (h, true)
