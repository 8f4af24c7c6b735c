-- ===== src/Payload/RoundTrip.antt =====
-- What a message says after it was sent.
use rmake.Base.{
  ℕ, ◌≡◌, refl, ap, ◌∙◌, false, Option, none, some, List, [], ◌∷◌, map, ◌==◌, if◌then◌else◌,
}
use rmake.Freezing.{ConaryLaws, InstallJob, freeze_tuple, thaw_tuple}
use rmake.Freezing.RoundTrip.{
  map-back, tuple_back, context_back, thaw_tuple-freeze_tuple, thaw_context-freeze_context,
}
use rmake.Payload.{
  Class, Wire, Payload, payload_to_dict, load_payload_from_dict, log_to_text, log_of_text, to_tuple,
  of_tuple, freeze_reqs, thaw_reqs, register_node, event_list, node_info, stop_job, resolve, load,
  build, action, command_status, get_required_flavors,
}

-- What becomes of an object that freezes itself.
abbrev pub through : {B : Type 0} (c : Class B) → c.Object → c.Object
through c x = c.thaw (c.freeze x)

-- An empty log data is read as None.
abbrev pub log_as_sent : Option ℕ → Option ℕ
log_as_sent none = none
log_as_sent (some text) = if text == 0 then none else some text

module _ (w : Wire) where
  -- A requirement is read as one that replaces nothing and is not absolute.
  abbrev pub as_sent : InstallJob w.conary → InstallJob w.conary
  as_sent r = record {
    name = r.name;
    old = (none, none);
    version = r.version;
    flavor = r.flavor;
    is_absolute = false;
  }

  abbrev pub received : Payload w → Payload w
  received (register_node n) = register_node (through w.node n)
  received (event_list l) = event_list (through w.events l)
  received (node_info i commands) = node_info (through w.machine i) commands
  received (stop_job id) = stop_job id
  received (resolve r log) = resolve (through w.resolve_job r) log
  received (load j troves repos) = load (through w.job j) (map (context_back w.conary) troves) repos
  received (build cfg t reqs cross boot l built log) =
      build (through w.config cfg) (through w.trove t) (map as_sent reqs) (map as_sent cross)
        (map as_sent boot) l (map (tuple_back w.conary) built) (log_as_sent log)
  received (action cfg t log) = action (through w.config cfg) (through w.trove t) (log_as_sent log)
  received (command_status none) = command_status none
  received (command_status (some r)) = command_status (some (through w.failure r))

  log-log : (log : Option ℕ) → log_of_text w (log_to_text w log) ≡ log_as_sent log
  log-log none = refl
  log-log (some text) = refl

  flavors_of-as_sent :
      (l : List (InstallJob w.conary)) → map (λ r. r.flavor) (map as_sent l) ≡ map (λ r. r.flavor) l
  flavors_of-as_sent [] = refl
  flavors_of-as_sent (r ∷ l) = ap (λ k. r.flavor ∷ k) (flavors_of-as_sent l)

  required-received :
      (p : Payload w) → get_required_flavors w (received p) ≡ get_required_flavors w p
  unfolding get_required_flavors
  required-received (register_node n) = refl
  required-received (event_list l) = refl
  required-received (node_info i commands) = refl
  required-received (stop_job id) = refl
  required-received (resolve r log) = refl
  required-received (load j troves repos) = refl
  required-received (build cfg t reqs cross boot l built log) = flavors_of-as_sent reqs
  required-received (action cfg t log) = refl
  required-received (command_status none) = refl
  required-received (command_status (some r)) = refl

  module _ (v : ConaryLaws w.conary) where
    thaw_reqs-freeze_reqs :
        (l : List (InstallJob w.conary)) → thaw_reqs w (freeze_reqs w l) ≡ map as_sent l
    thaw_reqs-freeze_reqs [] = refl
    thaw_reqs-freeze_reqs (r ∷ l) =
        ap (λ t. of_tuple w t ∷ thaw_reqs w (freeze_reqs w l))
          (thaw_tuple-freeze_tuple w.conary v (to_tuple w r))
        ∙ ap (λ k. as_sent r ∷ k) (thaw_reqs-freeze_reqs l)

    load_eq : (p : Payload w) → load_payload_from_dict w (payload_to_dict w p) ≡ received p
    unfolding load_payload_from_dict payload_to_dict
    load_eq (register_node n) = refl
    load_eq (event_list l) = refl
    load_eq (node_info i commands) = refl
    load_eq (stop_job id) = refl
    load_eq (resolve r log) = refl
    load_eq (load j troves repos) =
        ap (λ l. load (through w.job j) l repos)
          (map-back _ _ (context_back w.conary) (thaw_context-freeze_context w.conary v) troves)
    load_eq (build cfg t reqs cross boot l built log) = rw (thaw_reqs-freeze_reqs reqs) (
        rw (thaw_reqs-freeze_reqs cross) (
          rw (thaw_reqs-freeze_reqs boot) (
            rw (v.label l) (
              rw
                (map-back (freeze_tuple w.conary) (thaw_tuple w.conary) (tuple_back w.conary)
                  (thaw_tuple-freeze_tuple w.conary v) built)
                (rw (log-log log) refl)))))
    load_eq (action cfg t log) = rw (log-log log) refl
    load_eq (command_status none) = refl
    load_eq (command_status (some r)) = refl

    -- Where conary thaws what it froze, a payload that was sent is read back with the objects that
    -- freeze themselves frozen and thawed, its label, texts and numbers as they were, its trove
    -- tuples with the empty flavor for None, its context tuples with the empty context too where
    -- there was none, and the requirements of a build command with their name, version and flavor,
    -- but as ones that replace nothing and are not absolute; an empty log data of a build or action
    -- command is read as None. The flavors that a command requires are those from before.
    pub load-payload_to_dict :
        (p : Payload w)
        → (load_payload_from_dict w (payload_to_dict w p) ≡ received p)
          × (get_required_flavors w (load_payload_from_dict w (payload_to_dict w p))
              ≡ get_required_flavors w p)
    load-payload_to_dict p =
        (load_eq p, ap (get_required_flavors w) (load_eq p) ∙ required-received p)
