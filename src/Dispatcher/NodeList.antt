-- ===== src/Dispatcher/NodeList.antt =====
-- The class NodeList: the state of the nodes and of the commands that they were given.
-- `none` stands for the KeyError, IndexError or AttributeError of the code. The calls of the node
-- database and of the log have no part in the state. A message has no `__eq__`, so `command in l`
-- compares objects; here a command is known by its command id.
pub mod Batch
pub mod Growth
pub mod Single
pub mod Best
pub mod Picking
pub mod Choice
pub mod Ranking
pub mod Holding
pub mod Invariant
pub mod Update
pub mod Removal
pub mod Departure
use rmake.Base.{
  ℕ, ◌+◌, ◌-◌, Option, none, some, List, [], ◌∷◌, ◌++◌, ◌==◌, elem, discard, adjoin, if◌then◌else◌,
  ◌>>=◌, ◌>>◌,
}
use rmake.Base.Dict.{Dict, lookup, contains, insert, erase, set_default, values}
use rmake.Dispatcher.Types.{NodeInfo, WorkerNode, Command, requires_chroot}

pub record NodeList (F : Type 0) : Type 0 where
  pub nodes : Dict (WorkerNode F)
  pub assigned_commands : Dict (List (Command F))
  pub commands : Dict (ℕ × Command F)
  pub used_slots : Dict ℕ
  pub used_chroots : Dict ℕ
  pub commands_by_job : Dict (List (Command F))
  pub suspended : List ℕ

-- `if sid in d: d[sid] = max(0, d[sid] - 1)`
abbrev pub decrement : ℕ → Dict ℕ → Dict ℕ
decrement sid d = elim (lookup sid d) [ none ↦ d | some n ↦ insert sid (n - 1) d ]

module _ {F : Type 0} where
  -- `NodeList.__init__`
  abbrev pub new : NodeList F
  new = record {
    nodes = [];
    assigned_commands = [];
    commands = [];
    used_slots = [];
    used_chroots = [];
    commands_by_job = [];
    suspended = [];
  }

  abbrev pub or_empty : Option (List (Command F)) → List (Command F)
  or_empty none = []
  or_empty (some cs) = cs

  -- `command in commands`, and the command of that id
  unfoldable pub find : ℕ → List (Command F) → Option (Command F)
  find cid [] = none
  find cid (c ∷ cs) = if cid == c.command_id then some c else find cid cs

  -- `commands.remove(command)` where it is known to be there: the first one goes
  unfoldable pub remove_first : ℕ → List (Command F) → List (Command F)
  remove_first cid [] = []
  remove_first cid (c ∷ cs) = if cid == c.command_id then cs else c ∷ remove_first cid cs

  unfoldable pub add : ℕ → WorkerNode F → NodeList F → NodeList F
  add sid node s = record s {
    nodes = insert sid (record node { session_id = sid }) s.nodes;
    assigned_commands = set_default sid [] s.assigned_commands;
    used_slots = set_default sid 0 s.used_slots;
    used_chroots = set_default sid 0 s.used_chroots;
  }

  -- The loop `self._commands.pop(command.getCommandId())` of `remove`.
  unfoldable pub pop_each : List (Command F) → Dict (ℕ × Command F) → Option (Dict (ℕ × Command F))
  pop_each [] d = some d
  pop_each (c ∷ cs) d =
      let rest = pop_each cs (erase c.command_id d) in
      if contains c.command_id d then rest else none

  -- What `remove` leaves, given what is left of `_commands`.
  unfoldable pub forget : ℕ → Dict (ℕ × Command F) → NodeList F → NodeList F
  forget sid left s = record s {
    nodes = erase sid s.nodes;
    assigned_commands = erase sid s.assigned_commands;
    commands = left;
    used_slots = erase sid s.used_slots;
    used_chroots = erase sid s.used_chroots;
    suspended = discard sid s.suspended;
  }

  unfoldable pub remove : ℕ → NodeList F → Option (NodeList F)
  remove sid s = do
    _ ← lookup sid s.nodes
    left ← pop_each (or_empty (lookup sid s.assigned_commands)) s.commands
    some (forget sid left s)

  unfoldable pub suspend : ℕ → NodeList F → Option (NodeList F)
  suspend sid s =
      if contains sid s.nodes then some (record s { suspended = adjoin sid s.suspended }) else none

  unfoldable pub resume : ℕ → NodeList F → Option (NodeList F)
  resume sid s =
      if contains sid s.nodes then some (record s { suspended = discard sid s.suspended }) else none

  unfoldable pub get_node_for_command : ℕ → NodeList F → Option (WorkerNode F)
  get_node_for_command cid s = do (sid, _) ← lookup cid s.commands; lookup sid s.nodes

  by_name : ℕ → List (WorkerNode F) → Option (WorkerNode F)
  by_name name [] = none
  by_name name (n ∷ ns) = if n.name == name then some n else by_name name ns

  -- `[x for x in nodes if x.name == name][0]`
  unfoldable pub get_node_by_name : ℕ → NodeList F → Option (WorkerNode F)
  unfolding by_name
  get_node_by_name name s = by_name name (values s.nodes)

  -- The log of `assignCommand` reads both counters of every node.
  unfoldable pub log_usage : Dict (WorkerNode F) → NodeList F → Option (Unit {0})
  log_usage [] s = some tt
  log_usage ((sid, _) ∷ rest) s = do
    _ ← lookup sid s.used_slots
    _ ← lookup sid s.used_chroots
    log_usage rest s

  -- What `assignCommand` writes, given what it reads of the node's tables.
  unfoldable pub place : Command F → ℕ → List (Command F) → ℕ → ℕ → NodeList F → NodeList F
  place command sid cs slots chroots s =
      let job = command.job_id in
      record s {
        commands = insert command.command_id (sid, command) s.commands;
        commands_by_job =
            insert job (or_empty (lookup job s.commands_by_job) ++ command ∷ []) s.commands_by_job;
        assigned_commands = insert sid (cs ++ command ∷ []) s.assigned_commands;
        used_slots = insert sid (slots + 1) s.used_slots;
        used_chroots =
            if requires_chroot command
            then insert sid (chroots + 1) s.used_chroots
            else s.used_chroots;
      }

  unfoldable pub assign_command : Command F → WorkerNode F → NodeList F → Option (NodeList F)
  assign_command command node s = do
    let sid = node.session_id
    cs ← lookup sid s.assigned_commands
    log_usage s.nodes s
    slots ← lookup sid s.used_slots
    chroots ← lookup sid s.used_chroots
    some (place command sid cs slots chroots s)

  -- The list of the job is the one in the dict, so its removal shows there; a job with no list
  -- gets none.
  abbrev drop_from_job : Command F → Dict (List (Command F)) → Dict (List (Command F))
  drop_from_job command d = elim (lookup command.job_id d) [
    | none ↦ d
    | some cs ↦ insert command.job_id (remove_first command.command_id cs) d
  ]

  unfoldable pub release : ℕ → ℕ → Command F → List (Command F) → NodeList F → NodeList F
  release cid sid command cs s = record s {
    commands = erase cid s.commands;
    used_slots = decrement sid s.used_slots;
    used_chroots = if requires_chroot command then decrement sid s.used_chroots else s.used_chroots;
    commands_by_job = drop_from_job command s.commands_by_job;
    assigned_commands = insert sid (remove_first command.command_id cs) s.assigned_commands;
  }

  unfoldable pub remove_command : ℕ → NodeList F → Option (NodeList F)
  remove_command cid s = elim (lookup cid s.commands) [
    | none ↦ some s
    | some (sid, command) ↦ (do
      cs ← lookup sid s.assigned_commands
      some (release cid sid command cs s))
  ]

  -- `for commandId in (set(assignedCommandIds) - set(commandIds)): self.removeCommand(commandId)`
  unfoldable pub drop_missing : List ℕ → List (Command F) → NodeList F → Option (NodeList F)
  drop_missing reported [] s = some s
  drop_missing reported (c ∷ cs) s = do
    s' ← if elem c.command_id reported then some s else remove_command c.command_id s
    drop_missing reported cs s'

  unfoldable pub update_status : ℕ → NodeInfo → List ℕ → NodeList F → Option (NodeList F)
  update_status sid info reported s = do
    node ← lookup sid s.nodes
    cs ← lookup sid s.assigned_commands
    drop_missing reported cs
        (record s { nodes = insert sid (record node { node_info = info }) s.nodes })

  unfoldable pub get_commands_for_job : ℕ → NodeList F → List (Command F)
  get_commands_for_job job s = or_empty (lookup job s.commands_by_job)
