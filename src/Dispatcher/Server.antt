-- ===== src/Dispatcher/Server.antt =====
-- The class DispatcherServer, and the message handler of DispatcherNodeClient that calls it.
-- `none` stands for an exception. What is sent to the bus is kept in `sent`, the oldest first.
pub mod Queue
pub mod Dispatch
pub mod Listing
pub mod Stopping
pub mod Messages
pub mod Reached
use rmake.Base.{ℕ, Option, none, some, List, [], ◌∷◌, ◌++◌, ◌>>=◌, if◌then◌else◌, is_some}
use rmake.Base.Dict.{Dict, lookup, contains, insert, erase}
use rmake.Flavors.{Conary}
use rmake.Dispatcher.Types.{NodeInfo, WorkerNode, Kind, stop, Command}
use rmake.Dispatcher.NodeList.{
  NodeList, new, find, remove_first, add, remove, get_node_for_command, assign_command,
  remove_command, update_status,
}
use rmake.Dispatcher.NodeList.Choice.{assign_commands}

pub record Server (F : Type 0) : Type 0 where
  pub node_list : NodeList F
  pub queued : List (Command F)
  pub queued_by_id : Dict (Command F)
  pub sent : List (Command F)

module _ {F : Type 0} where
  -- `DispatcherServer.__init__`
  abbrev pub start : Server F
  start = record { node_list = new; queued = []; queued_by_id = []; sent = [] }

  -- `_sendCommandToNode` and `assignCommand` of the client
  unfoldable pub send_command_to_node : Command F → WorkerNode F → Server F → Server F
  send_command_to_node command node s = record s {
    sent = s.sent ++ record command { target_node = some node.session_id } ∷ [];
  }

  unfoldable pub enqueue : Command F → Server F → Server F
  enqueue command s = record s {
    queued = s.queued ++ command ∷ [];
    queued_by_id = insert command.command_id command s.queued_by_id;
  }

  -- `self._queuedCommands.remove(command)`, which raises where the command is not queued
  unfoldable pub dequeue : ℕ → Server F → Option (Server F)
  dequeue cid s =
      if is_some (find cid s.queued)
      then some (record s { queued = remove_first cid s.queued })
      else none

  -- The target is removed from the queue, and stays in the table of the queued commands.
  unfoldable pub drop_queued : ℕ → Server F → Option (Server F)
  drop_queued target s = elim (lookup target s.queued_by_id) [
    | none ↦ some s
    | some command ↦ dequeue command.command_id s
  ]

  unfoldable pub handle_stop_command : ℕ → Command F → Server F → Option (Server F)
  handle_stop_command target command s = elim (get_node_for_command target s.node_list) [
    | none ↦ drop_queued target s
    | some node ↦ (do
      l ← assign_command command node s.node_list
      some (send_command_to_node command node (record s { node_list = l })))
  ]

  -- The loop of `_assignQueuedCommands` over what was assigned.
  unfoldable pub send_each : List (Command F × WorkerNode F) → Server F → Option (Server F)
  send_each [] s = some s
  send_each ((command, node) ∷ rest) s = do
    t ← dequeue command.command_id (send_command_to_node command node s)
    _ ← lookup command.command_id t.queued_by_id
    send_each rest (record t { queued_by_id = erase command.command_id t.queued_by_id })

module _ (c : Conary) where
  open c use {Flavor}

  -- With an empty queue `assignCommands` has nothing to do, so the early return needs no branch.
  unfoldable pub assign_queued_commands : Server Flavor → Option (Server Flavor)
  assign_queued_commands s = do
    (l, assigned) ← assign_commands c s.queued s.node_list
    send_each assigned (record s { node_list = l })

  -- One round of the loop of `requestCommandAssignment`.
  unfoldable pub accept : Kind Flavor → Command Flavor → Server Flavor → Option (Server Flavor)
  accept (stop target) command s = handle_stop_command target command s
  accept _ command s = some (enqueue command s)

  unfoldable pub request_command_assignment :
      Command Flavor → Server Flavor → Option (Server Flavor)
  request_command_assignment command s = do
    t ← accept command.kind command s
    assign_queued_commands t

  unfoldable pub node_registered : ℕ → WorkerNode Flavor → Server Flavor → Option (Server Flavor)
  node_registered sid node s =
      assign_queued_commands (record s { node_list = add sid node s.node_list })

  -- A heartbeat of a node that is not known is dropped.
  unfoldable pub node_updated : ℕ → NodeInfo → List ℕ → Server Flavor → Option (Server Flavor)
  node_updated sid info reported s =
      if contains sid s.node_list.nodes
      then (do
        l ← update_status sid info reported s.node_list
        assign_queued_commands (record s { node_list = l }))
      else some s

  unfoldable pub node_disconnected : ℕ → Server Flavor → Option (Server Flavor)
  node_disconnected sid s =
      if contains sid s.node_list.nodes
      then (do l ← remove sid s.node_list; assign_queued_commands (record s { node_list = l }))
      else some s

  -- `commandCompleted` and `commandErrored`
  unfoldable pub command_completed : ℕ → Server Flavor → Option (Server Flavor)
  command_completed cid s = do
    l ← remove_command cid s.node_list
    assign_queued_commands (record s { node_list = l })

  -- The messages that `messageReceived` hands on.
  pub data Message : Type 0 where
    register_node : (session_id : ℕ) → WorkerNode Flavor → Message
    node_info : (session_id : ℕ) → NodeInfo → (commands : List ℕ) → Message
    request : Command Flavor → Message
    disconnected : (status_id : ℕ) → Message
    completed in_progress errored : (command_id : ℕ) → Message

  -- A command that names a node has been assigned already.
  unfoldable pub message_received : Message → Server Flavor → Option (Server Flavor)
  message_received (register_node sid node) s = node_registered sid node s
  message_received (node_info sid info commands) s = node_updated sid info commands s
  message_received (request command) s =
      if is_some command.target_node then some s else request_command_assignment command s
  message_received (disconnected sid) s = node_disconnected sid s
  message_received (completed cid) s = command_completed cid s
  message_received (in_progress cid) s = some s
  message_received (errored cid) s = command_completed cid s
