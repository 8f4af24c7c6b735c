-- ===== src/Dispatcher/Server/Stopping.antt =====
-- `requestCommandAssignment`, with the stop commands.
use rmake.Base.{
  ℕ, ◌≡◌, refl, true, none, some, Option-cases, inl, inr, arith, is_some, ==_self, ==_iff,
}
use rmake.Base.Dict.{lookup, contains}
use rmake.Flavors.{Conary}
use rmake.Dispatcher.Types.{WorkerNode, Kind, resolve, load, action, build, stop, Command}
use rmake.Dispatcher.NodeList.{NodeList, find, remove_first, get_node_for_command}
use rmake.Dispatcher.NodeList.Holding.{find-id, find-remove_first, NodupIds-remove_first}
use rmake.Dispatcher.NodeList.Invariant.{IsValid}
use rmake.Dispatcher.NodeList.Update.{assign_command_total}
use rmake.Dispatcher.Server.{
  Server, send_command_to_node, enqueue, dequeue, drop_queued, handle_stop_command, accept,
  request_command_assignment,
}
use rmake.Dispatcher.Server.Queue.{IsSound, enqueue-IsSound}
use rmake.Dispatcher.Server.Dispatch.{assign_queued_commands_total}

module _ {F : Type 0} where
  -- No command that left the queue is still in its table: then a stop command finds what it drops.
  abbrev pub IsCurrent : ℕ → Server F → Type 0
  IsCurrent target s =
      (d : Command F)
      → lookup target s.queued_by_id ≡ some d
      → is_some (find d.command_id s.queued) ≡ true

  abbrev pub IsNew : Command F → Server F → Type 0
  IsNew command s =
      (find command.command_id s.queued ≡ none)
      × (lookup command.command_id s.node_list.commands ≡ none)

  shorter-IsSound :
      (cid : ℕ) (s : Server F)
      → IsSound s
      → IsSound (record s { queued = remove_first cid s.queued })
  shorter-IsSound cid s v = record {
    nodes = v.nodes;
    distinct = NodupIds-remove_first cid s.queued v.distinct;
    indexed = λ k d h. ground (arith, v.indexed k d, v.distinct, find-remove_first k cid s.queued);
    waiting = λ k h. ground (arith, v.waiting k, v.distinct, find-remove_first k cid s.queued);
  }

  drop_queued_total :
      (target : ℕ) (s : Server F)
      → IsSound s
      → IsCurrent target s
      → (t : Server F) × (drop_queued target s ≡ some t) × IsSound t
  unfolding drop_queued dequeue
  drop_queued_total target s v h = elim (Option-cases (lookup target s.queued_by_id)) [
    | inl e ↦ (s, ground (arith, e), v)
    | inr (d, e) ↦ (
      record s { queued = remove_first d.command_id s.queued },
      ground (arith, e, h d),
      shorter-IsSound d.command_id s v,
    )
  ]

  node_known :
      (target : ℕ) (l : NodeList F)
      → IsValid l
      → (node : WorkerNode F) → get_node_for_command target l ≡ some node
      → contains node.session_id l.nodes ≡ true
  unfolding get_node_for_command
  node_known target l v node h = elim (Option-cases (lookup target l.commands)) [
    | inl e ↦ absurd (ground (arith, e))
    | inr (entry, e) ↦ ground (arith, e, v.named entry.0 node)
  ]

  handle_stop_command_total :
      (target : ℕ) (command : Command F) (s : Server F)
      → IsSound s
      → IsNew command s
      → IsCurrent target s
      → (t : Server F) × (handle_stop_command target command s ≡ some t) × IsSound t
  unfolding handle_stop_command
  handle_stop_command_total target command s v new h =
      elim (Option-cases (get_node_for_command target s.node_list)) [
        | inl e ↦ let (t, q, w) = drop_queued_total target s v h in (t, ground (arith, e, q), w)
        | inr (node, e) ↦
            let a =
              assign_command_total command node s.node_list v.nodes
                (node_known target s.node_list v.nodes node e) new.1 in
            (
              send_command_to_node command node (record s { node_list = a.after }),
              ground (arith, e, a.returned),
              unfold send_command_to_node in
                  record {
                    nodes = a.valid;
                    distinct = v.distinct;
                    indexed = v.indexed;
                    waiting = λ k q.
                        ground (arith, v.waiting k, a.mapped k, new.0, ==_iff k command.command_id);
                  },
            )
      ]

module _ (c : Conary) where
  open c use {Flavor}

  -- What a request must meet to be served: a new command id, and for a stop command a target that
  -- did not leave the queue by an earlier stop.
  abbrev pub IsServable : Command Flavor → Server Flavor → Type 0
  IsServable command s =
      IsNew command s × ((target : ℕ) → command.kind ≡ stop target → IsCurrent target s)

  accept_total :
      (kind : Kind Flavor) (command : Command Flavor) (s : Server Flavor)
      → IsSound s
      → IsNew command s
      → ((target : ℕ) → kind ≡ stop target → IsCurrent target s)
      → (t : Server Flavor) × (accept c kind command s ≡ some t) × IsSound t
  unfolding accept
  accept_total (stop target) command s v new h =
      handle_stop_command_total target command s v new (h target refl)
  accept_total resolve command s v new h =
      (enqueue command s, refl, enqueue-IsSound command s v new.0 new.1)
  accept_total load command s v new h =
      (enqueue command s, refl, enqueue-IsSound command s v new.0 new.1)
  accept_total action command s v new h =
      (enqueue command s, refl, enqueue-IsSound command s v new.0 new.1)
  accept_total (build fs) command s v new h =
      (enqueue command s, refl, enqueue-IsSound command s v new.0 new.1)

  -- A request to assign a command is carried out without an exception in a sound state, and leaves
  -- a sound state, where the id of the command is neither queued nor held by a node and, for a
  -- stop command, a target that is in the table of the queued commands is still queued.
  pub request_total :
      (command : Command Flavor) (s : Server Flavor)
      → IsSound s
      → IsServable command s
      → (t : Server Flavor) × (request_command_assignment c command s ≡ some t) × IsSound t
  unfolding request_command_assignment
  request_total command s v h =
      let (t, q, w) = accept_total command.kind command s v h.0 h.1 in
      let a = assign_queued_commands_total c t w in
      (a.after, ground (arith, q, a.returned), a.sound)

  stop_queued :
      (target : ℕ) (d x : Command Flavor) (s : Server Flavor)
      → IsSound s
      → find target s.queued ≡ some d
      → x.kind ≡ stop target
      → accept c x.kind x s ≡ some (record s { queued = remove_first target s.queued })
  unfolding accept handle_stop_command get_node_for_command drop_queued dequeue
  stop_queued target d x s v h k =
      rw k (ground (arith, v.waiting target, v.indexed target d, find-id target s.queued d))

  stop_again :
      (target : ℕ) (d y : Command Flavor) (t : Server Flavor)
      → lookup target t.node_list.commands ≡ none
      → lookup target t.queued_by_id ≡ some d
      → d.command_id ≡ target
      → find target t.queued ≡ none
      → y.kind ≡ stop target
      → request_command_assignment c y t ≡ none
  unfolding request_command_assignment accept handle_stop_command get_node_for_command drop_queued
      dequeue
  stop_again target d y t free e same gone k = rw k (ground arith)

  -- In a sound state, a first stop command for a command that is queued is carried out, and a
  -- second stop command for the same command raises: the first one leaves the target in the table
  -- of the queued commands.
  pub stop_twice :
      (target : ℕ) (d x y : Command Flavor) (s : Server Flavor)
      → IsSound s
      → find target s.queued ≡ some d
      → x.kind ≡ stop target
      → y.kind ≡ stop target
      → (t : Server Flavor) × (request_command_assignment c x s ≡ some t)
        × (request_command_assignment c y t ≡ none)
  unfolding request_command_assignment
  stop_twice target d x y s v h kx ky =
      let u = record s { queued = remove_first target s.queued } in
      let a = assign_queued_commands_total c u (shorter-IsSound target s v) in
      let gone : find target (remove_first target s.queued) ≡ none =
        ground (arith, find-remove_first target target s.queued v.distinct, ==_self target) in
      let free = a.freed target gone (ground (arith, h, v.waiting target)) in
      (
        a.after,
        ground (arith, stop_queued target d x s v h kx, a.returned),
        stop_again target d y a.after free (a.kept target d (v.indexed target d h) free)
            (find-id target s.queued d h) (a.left target gone) ky,
      )
