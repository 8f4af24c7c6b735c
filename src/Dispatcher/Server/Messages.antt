-- ===== src/Dispatcher/Server/Messages.antt =====
-- The message handler: what it needs of a message, and that it then serves it.
use rmake.Base.{◌≡◌, refl, ◌⊎◌, true, some, Bool-cases, inl, inr, arith, is_some}
use rmake.Flavors.{Conary}
use rmake.Dispatcher.Server.{
  Server, Message, register_node, node_info, request, disconnected, completed, in_progress, errored,
  message_received,
}
use rmake.Dispatcher.Server.Queue.{IsSound}
use rmake.Dispatcher.Server.Dispatch.{
  node_registered_total, node_updated_total, node_disconnected_total, command_completed_total,
}
use rmake.Dispatcher.Server.Stopping.{IsServable, request_total}

module _ (c : Conary) where
  open c use {Flavor}

  abbrev pub IsAdmissible : Message c → Server Flavor → Type 0
  IsAdmissible (request command) s = (is_some command.target_node ≡ true) ⊎ IsServable c command s
  IsAdmissible _ s = Unit

  -- The dispatcher in a sound state handles every admissible message without an exception and is
  -- then in a sound state again. A command message is admissible where it names its node already,
  -- or where its id is neither queued nor held by a node and, for a stop command, a target that is
  -- in the table of the queued commands is still queued.
  pub message_received_total :
      (m : Message c) (s : Server Flavor)
      → IsSound s
      → IsAdmissible m s
      → (t : Server Flavor) × (message_received c m s ≡ some t) × IsSound t
  unfolding message_received
  message_received_total (register_node sid node) s v h =
      let a = node_registered_total c sid node s v in (a.after, a.returned, a.sound)
  message_received_total (node_info sid info reported) s v h =
      node_updated_total c sid info reported s v
  message_received_total (request command) s v (inl e) = (s, ground (arith, e), v)
  message_received_total (request command) s v (inr h) =
      elim (Bool-cases (is_some command.target_node)) [
        | inl e ↦ (s, ground (arith, e), v)
        | inr e ↦ let (t, q, w) = request_total c command s v h in (t, ground (arith, e, q), w)
      ]
  message_received_total (disconnected sid) s v h = node_disconnected_total c sid s v
  message_received_total (completed cid) s v h = command_completed_total c cid s v
  message_received_total (in_progress cid) s v h = (s, refl, v)
  message_received_total (errored cid) s v h = command_completed_total c cid s v
