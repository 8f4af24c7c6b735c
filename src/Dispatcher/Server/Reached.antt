-- ===== src/Dispatcher/Server/Reached.antt =====
-- The states that the dispatcher reaches from its start, message by message.
use rmake.Base.{◌≡◌, some, arith, subst}
use rmake.Flavors.{Conary}
use rmake.Dispatcher.Server.{Server, start, Message, message_received}
use rmake.Dispatcher.Server.Queue.{IsSound, start-IsSound}
use rmake.Dispatcher.Server.Messages.{IsAdmissible, message_received_total}

module _ (c : Conary) where
  open c use {Flavor}

  pub data Reached : Server Flavor → Type 0 where
    at_start : Reached start
    on_message :
        (m : Message c) (s t : Server Flavor)
        → Reached s
        → IsAdmissible c m s
        → message_received c m s ≡ some t
        → Reached t

  -- Every state that the dispatcher reaches from its start by admissible messages is sound.
  pub Reached-IsSound : (s : Server Flavor) → Reached s → IsSound s
  Reached-IsSound _ at_start = start-IsSound
  Reached-IsSound _ (on_message m s t r h e) =
      let (u, q, v) = message_received_total c m s (Reached-IsSound s r) h in
      let same : u ≡ t = ground (arith, q, e) in subst IsSound same v
