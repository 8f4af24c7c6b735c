-- ===== src/Dispatcher/Tests.antt =====
-- The dispatcher on small states: one builder node with two slots, and commands for it.
use rmake.Base.{ℕ, ◌≡◌, refl, true, none, some, [], ◌∷◌, ◌==◌, inr}
use rmake.Base.Dict.{contains, lookup, insert}
use rmake.Flavors.{Conary}
use rmake.Dispatcher.Types.{WorkerNode, resolve, build, stop, Command}
use rmake.Dispatcher.NodeList.{NodeList, new, add, find, remove_command}
use rmake.Dispatcher.NodeList.Invariant.{IsValid, new-IsValid}
use rmake.Dispatcher.NodeList.Update.{add-IsValid, Assigned, assign_command_total}
use rmake.Dispatcher.NodeList.Removal.{Without, remove_command_total, Updated, update_status_total}
use rmake.Dispatcher.NodeList.Departure.{Removed, remove_total, Orphaned, assign-remove}
use rmake.Dispatcher.NodeList.Picking.{Picked, get_node_for_flavors_total}
use rmake.Dispatcher.NodeList.Batch.{Batch, assign_commands_total}
use rmake.Dispatcher.Server.{
  Server, start, enqueue, register_node, request, assign_queued_commands, message_received,
  request_command_assignment, node_registered,
}
use rmake.Dispatcher.Server.Queue.{IsSound, start-IsSound, enqueue-IsSound}
use rmake.Dispatcher.Server.Dispatch.{Served, assign_queued_commands_total, node_registered_total}
use rmake.Dispatcher.Server.Stopping.{stop_twice}
use rmake.Dispatcher.Server.Reached.{Reached, at_start, on_message, Reached-IsSound}
use rmake.Dispatcher.Server.Messages.{message_received_total}

-- Flavors are numbers, one instruction set each, and each satisfies itself only.
abbrev plain : Conary
plain = record {
  Flavor = ℕ;
  Dep = ℕ;
  empty = 0;
  ins_deps = λ f. some (f ∷ []);
  target_deps = λ f. none;
  bare = λ d. d;
  add_ins = λ f d. d;
  add_target = λ f d. f;
  filter_flavor = λ f fs. f;
  strongly_satisfies = λ f g. f == g;
  cross_flavor = 9;
}

abbrev builder : WorkerNode ℕ
builder = record {
  session_id = 7;
  name = 70;
  slots = 2;
  build_flavors = 4 ∷ [];
  load_threshold = 1000;
  node_info = record { load_average = 50 };
  chroot_limit = 1;
}

abbrev build_one : Command ℕ
build_one = record { command_id = 1; job_id = 20; target_node = none; kind = build (4 ∷ []) }

abbrev resolve_two : Command ℕ
resolve_two = record { command_id = 2; job_id = 20; target_node = none; kind = resolve }

abbrev stop_one : Command ℕ
stop_one = record { command_id = 3; job_id = 20; target_node = none; kind = stop 1 }

abbrev stop_one_again : Command ℕ
stop_one_again = record { command_id = 5; job_id = 20; target_node = none; kind = stop 1 }

abbrev crew : NodeList ℕ
crew = add 7 builder new

crew-IsValid : IsValid crew
crew-IsValid = add-IsValid 7 builder new new-IsValid

-- A server with a queued build command and no node.
abbrev waiting : Server ℕ
waiting = enqueue build_one start

waiting-IsSound : IsSound waiting
unfolding find lookup
waiting-IsSound = enqueue-IsSound build_one start start-IsSound refl refl

-- A server with a node and an empty queue, and one with a queue beside.
abbrev idle : Server ℕ
idle = record start { node_list = crew }

idle-IsSound : IsSound idle
unfolding find lookup
idle-IsSound = record {
  nodes = crew-IsValid;
  distinct = tt;
  indexed = λ cid d h. cc;
  waiting = λ cid h. cc;
}

abbrev loaded : Server ℕ
loaded = enqueue build_one idle

loaded-IsSound : IsSound loaded
unfolding find lookup add
loaded-IsSound = enqueue-IsSound build_one idle idle-IsSound refl refl

assign_queued_commands_example : Served plain loaded (assign_queued_commands plain loaded)
assign_queued_commands_example = assign_queued_commands_total plain loaded loaded-IsSound

message_received_example :
    (t : Server ℕ) × (message_received plain (request resolve_two) idle ≡ some t) × IsSound t
unfolding find lookup add
message_received_example =
    message_received_total plain (request resolve_two) idle idle-IsSound
      (inr ((refl, refl), λ target e. cc))

stop_twice_example :
    (t : Server ℕ) × (request_command_assignment plain stop_one waiting ≡ some t)
    × (request_command_assignment plain stop_one_again t ≡ none)
unfolding find enqueue
stop_twice_example =
    stop_twice plain 1 build_one stop_one stop_one_again waiting waiting-IsSound refl refl refl

assign_commands_example : Batch plain (build_one ∷ resolve_two ∷ []) crew
unfolding find lookup add
assign_commands_example =
    assign_commands_total plain (build_one ∷ resolve_two ∷ []) crew crew-IsValid (refl, (refl, tt))
      (λ cid m. refl)

get_node_for_flavors_example : Picked plain crew true (4 ∷ [])
get_node_for_flavors_example = get_node_for_flavors_total plain crew crew-IsValid true (4 ∷ [])

assign_command_example : Assigned build_one builder crew
unfolding add lookup insert
assign_command_example = assign_command_total build_one builder crew crew-IsValid refl refl

-- The node of `crew`, with the build command on it.
busy_made : Assigned build_one builder crew
unfolding add lookup insert
busy_made = assign_command_total build_one builder crew crew-IsValid refl refl

abbrev busy : NodeList ℕ
busy = busy_made.after

busy-contains : contains 7 busy.nodes ≡ true
unfolding add lookup insert
busy-contains = rw busy_made.same_nodes refl

remove_example : Removed 7 busy
remove_example = remove_total 7 busy busy_made.valid busy-contains

update_status_example : Updated 7 (record { load_average = 60 }) [] busy
update_status_example =
    update_status_total 7 (record { load_average = 60 }) [] busy busy_made.valid busy-contains

remove_command_example : Without (λ k. k == 1) busy (remove_command 1 busy)
remove_command_example = remove_command_total 1 busy busy_made.valid

assign-remove_example : Orphaned build_one builder crew
unfolding add lookup insert
assign-remove_example = assign-remove build_one builder crew crew-IsValid refl refl

-- The state after a node has registered, and the one after a heartbeat of it.
registered :
    Served plain (record start { node_list = crew }) (node_registered plain 7 builder start)
registered = node_registered_total plain 7 builder start start-IsSound

registered-Reached : Reached plain registered.after
unfolding message_received
registered-Reached =
    on_message (register_node 7 builder) start registered.after at_start tt registered.returned

reached_example : IsSound registered.after
reached_example = Reached-IsSound plain registered.after registered-Reached
