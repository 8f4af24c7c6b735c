-- ===== src/Payload.antt =====
-- rmake/multinode/messages.py: the payloads of the messages between the nodes, and the dictionaries
-- that they are sent as. Tuples are frozen as rmake/lib/apiutils.py does it. The objects that freeze
-- themselves (nodes, jobs, troves, events and the like) are known by their class, which is a
-- parameter: nothing is asked of it.
pub mod RoundTrip
mod Tests
use rmake.Base.{ℕ, Bool, false, Option, none, some, List, [], ◌∷◌, map, ◌==◌, if◌then◌else◌}
use rmake.Freezing.{
  Conary, TroveTuple, ContextTuple, InstallJob, FrozenTuple, FrozenContext, freeze_tuple,
  thaw_tuple, freeze_context, thaw_context,
}

-- A class of objects that can be sent: `freeze(name, x)` and `thaw(name, d)`.
pub record Class (Blob : Type 0) : Type 1 where
  pub Object : Type 0
  pub freeze : Object → Blob
  pub thaw : Blob → Object

pub record Wire : Type 1 where
  pub conary : Conary
  pub Blob : Type 0
  pub node : Class Blob
  pub events : Class Blob
  pub machine : Class Blob
  pub resolve_job : Class Blob
  pub job : Class Blob
  pub config : Class Blob
  pub trove : Class Blob
  pub failure : Class Blob

module _ (w : Wire) where
  open w use {conary, Blob, node, events, machine, resolve_job, job, config, trove, failure}
  open conary use {Label, label_to_str, label_of_str}

  -- A log data of `none` is Python's None, a text of 0 the empty one.
  pub data Payload : Type 0 where
    register_node : node.Object → Payload
    event_list : events.Object → Payload
    node_info : machine.Object → (commands : List ℕ) → Payload
    stop_job : (job_id : ℕ) → Payload
    resolve : resolve_job.Object → (log_data : ℕ) → Payload
    load : job.Object → (load_troves : List (ContextTuple conary)) → (repos_name : ℕ) → Payload
    build :
        config.Object
        → trove.Object
        → (build_reqs cross_reqs bootstrap_reqs : List (InstallJob conary)) → Label
        → (built_troves : List (TroveTuple conary)) → (log_data : Option ℕ) → Payload
    action : config.Object → trove.Object → (log_data : Option ℕ) → Payload
    command_status : (failure_reason : Option failure.Object) → Payload

  -- The dictionaries, each with the keys of its message.
  pub data PayloadDict : Type 0 where
    register_node_dict : (node : Blob) → PayloadDict
    event_list_dict : (event_list : Blob) → PayloadDict
    node_info_dict : (node_info : Blob) → (commands : List ℕ) → PayloadDict
    stop_job_dict : (job_id : ℕ) → PayloadDict
    resolve_dict : (resolve_job : Blob) → (log_data : ℕ) → PayloadDict
    load_dict :
        (job : Blob) → (load_troves : List (FrozenContext conary)) → (repos_name : ℕ) → PayloadDict
    build_dict :
        (build_cfg trove : Blob)
        → (build_reqs cross_reqs bootstrap_reqs : List (FrozenTuple conary)) → (target_label : ℕ)
        → (built_troves : List (FrozenTuple conary)) → (log_data : ℕ) → PayloadDict
    action_dict : (build_cfg trove : Blob) → (log_data : ℕ) → PayloadDict
    command_status_dict : (failure_reason : Option Blob) → PayloadDict

  -- `if self.payload.logData is None: d['logData'] = ''`, and back.
  abbrev pub log_to_text : Option ℕ → ℕ
  log_to_text none = 0
  log_to_text (some text) = text

  abbrev pub log_of_text : ℕ → Option ℕ
  log_of_text text = if text == 0 then none else some text

  -- `(x[0],) + x[2]` of a job, and `(x[0], (None, None), x[1:3], False)` of a tuple, which has a
  -- flavor once it is thawed.
  abbrev pub to_tuple : InstallJob conary → TroveTuple conary
  to_tuple r = record { name = r.name; version = r.version; flavor = some r.flavor }

  abbrev pub of_tuple : TroveTuple conary → InstallJob conary
  of_tuple t = record {
    name = t.name;
    old = (none, none);
    version = t.version;
    flavor = elim (t.flavor) [ none ↦ conary.no_flavor | some f ↦ f ];
    is_absolute = false;
  }

  -- One name of the loop over `buildReqs`, `crossReqs` and `bootstrapReqs`, and back.
  abbrev pub freeze_reqs : List (InstallJob conary) → List (FrozenTuple conary)
  freeze_reqs reqs = map (freeze_tuple conary) (map to_tuple reqs)

  abbrev pub thaw_reqs : List (FrozenTuple conary) → List (InstallJob conary)
  thaw_reqs l = map of_tuple (map (thaw_tuple conary) l)

  abbrev pub freeze_reason : Option failure.Object → Option Blob
  freeze_reason none = none
  freeze_reason (some r) = some (failure.freeze r)

  abbrev pub thaw_reason : Option Blob → Option failure.Object
  thaw_reason none = none
  thaw_reason (some b) = some (failure.thaw b)

  -- One pair of methods for each message: the payload to its dictionary, and back.
  abbrev pub register_node_to_dict : node.Object → PayloadDict
  register_node_to_dict n = register_node_dict (node.freeze n)

  abbrev pub load_register_node : Blob → Payload
  load_register_node n = register_node (node.thaw n)

  abbrev pub event_list_to_dict : events.Object → PayloadDict
  event_list_to_dict l = event_list_dict (events.freeze l)

  abbrev pub load_event_list : Blob → Payload
  load_event_list l = event_list (events.thaw l)

  abbrev pub node_info_to_dict : machine.Object → List ℕ → PayloadDict
  node_info_to_dict i commands = node_info_dict (machine.freeze i) commands

  abbrev pub load_node_info : Blob → List ℕ → Payload
  load_node_info i commands = node_info (machine.thaw i) commands

  abbrev pub resolve_to_dict : resolve_job.Object → ℕ → PayloadDict
  resolve_to_dict r log = resolve_dict (resolve_job.freeze r) log

  abbrev pub load_resolve : Blob → ℕ → Payload
  load_resolve r log = resolve (resolve_job.thaw r) log

  abbrev pub load_to_dict : job.Object → List (ContextTuple conary) → ℕ → PayloadDict
  load_to_dict j troves repos = load_dict (job.freeze j) (map (freeze_context conary) troves) repos

  abbrev pub load_load : Blob → List (FrozenContext conary) → ℕ → Payload
  load_load j troves repos = load (job.thaw j) (map (thaw_context conary) troves) repos

  abbrev pub action_to_dict : config.Object → trove.Object → Option ℕ → PayloadDict
  action_to_dict cfg t log = action_dict (config.freeze cfg) (trove.freeze t) (log_to_text log)

  abbrev pub load_action : Blob → Blob → ℕ → Payload
  load_action cfg t log = action (config.thaw cfg) (trove.thaw t) (log_of_text log)

  unfoldable pub payload_to_dict : Payload → PayloadDict
  payload_to_dict (register_node n) = register_node_to_dict n
  payload_to_dict (event_list l) = event_list_to_dict l
  payload_to_dict (node_info i commands) = node_info_to_dict i commands
  payload_to_dict (stop_job id) = stop_job_dict id
  payload_to_dict (resolve r log) = resolve_to_dict r log
  payload_to_dict (load j troves repos) = load_to_dict j troves repos
  payload_to_dict (build cfg t reqs cross boot l built log) =
      build_dict (config.freeze cfg) (trove.freeze t) (freeze_reqs reqs) (freeze_reqs cross)
        (freeze_reqs boot) (label_to_str l) (map (freeze_tuple conary) built) (log_to_text log)
  payload_to_dict (action cfg t log) = action_to_dict cfg t log
  payload_to_dict (command_status r) = command_status_dict (freeze_reason r)

  unfoldable pub load_payload_from_dict : PayloadDict → Payload
  load_payload_from_dict (register_node_dict n) = load_register_node n
  load_payload_from_dict (event_list_dict l) = load_event_list l
  load_payload_from_dict (node_info_dict i commands) = load_node_info i commands
  load_payload_from_dict (stop_job_dict id) = stop_job id
  load_payload_from_dict (resolve_dict r log) = load_resolve r log
  load_payload_from_dict (load_dict j troves repos) = load_load j troves repos
  load_payload_from_dict (build_dict cfg t reqs cross boot l built log) =
      build (config.thaw cfg) (trove.thaw t) (thaw_reqs reqs) (thaw_reqs cross) (thaw_reqs boot)
        (label_of_str l) (map (thaw_tuple conary) built) (log_of_text log)
  load_payload_from_dict (action_dict cfg t log) = load_action cfg t log
  load_payload_from_dict (command_status_dict r) = command_status (thaw_reason r)

  -- `getRequiredFlavors`: of the build requirements of a build command, and none of another message.
  unfoldable pub get_required_flavors : Payload → List conary.Flavor
  get_required_flavors (build cfg t reqs cross boot l built log) = map (λ r. r.flavor) reqs
  get_required_flavors p = []
