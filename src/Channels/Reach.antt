-- ===== src/Channels/Reach.antt =====
-- The trees that the calls of src/ChTree.hpp make from `initRoot`.
use k_mqttd.Base.{ℕ, List}
use k_mqttd.Channels.{ChNode, init_root, add_channel, remove_channel}
use k_mqttd.Channels.Shape.{
  IsCounted, init_root-IsCounted, add_channel-IsCounted, remove_channel-IsCounted,
}
use k_mqttd.Channels.Distinct.{IsDistinct, add_channel-IsDistinct, remove_channel-IsDistinct}

pub data Change : ChNode → ChNode → Type 0 where
  added : (channel : List ℕ) (root : ChNode) → Change root (add_channel channel root)
  removed : (channel : List ℕ) (root : ChNode) → Change root (remove_channel channel root)

pub data Reach : ChNode → Type 0 where
  begin : Reach init_root
  next : {root root' : ChNode} → Reach root → Change root root' → Reach root'

Change-keeps :
    {root root' : ChNode}
    → Change root root'
    → IsCounted root × IsDistinct root
    → IsCounted root' × IsDistinct root'
Change-keeps (added channel root) (counted, distinct) =
    (add_channel-IsCounted channel root counted, add_channel-IsDistinct channel root distinct)
Change-keeps (removed channel root) (counted, distinct) =
    (remove_channel-IsCounted channel root counted, remove_channel-IsDistinct channel root distinct)

-- After any calls of `addChannel` and `removeChannel`, with any names, from `initRoot` on: at every
-- node the counter is the number of children, as a 32-bit integer, and the children have different
-- names.
pub Reach-shape : {root : ChNode} → Reach root → IsCounted root × IsDistinct root
Reach-shape begin = (init_root-IsCounted, tt)
Reach-shape (next reached change) = Change-keeps change (Reach-shape reached)
