-- ===== src/Dispatcher/Server/Dispatch.antt =====
-- `_assignQueuedCommands` and the handlers that end in it.
use rmake.Base.{
  ℕ, ◌≡◌, Bool, Option, none, some, List, [], ◌∷◌, ◌==◌, Bool-cases, inl, inr, arith, if◌then◌else◌,
  is_some, ==_self, subst, sym,
}
use rmake.Base.Dict.{lookup, contains}
use rmake.Base.Pred.{In}
use rmake.Flavors.{Conary}
use rmake.Dispatcher.Types.{NodeInfo, WorkerNode, Command, requires_chroot, required_flavors}
use rmake.Dispatcher.NodeList.{NodeList, find, add}
use rmake.Dispatcher.NodeList.Holding.{NodupIds}
use rmake.Dispatcher.NodeList.Invariant.{IsValid, assigned_of}
use rmake.Dispatcher.NodeList.Update.{add-IsValid}
use rmake.Dispatcher.NodeList.Removal.{dropped, remove_command_total, update_status_total}
use rmake.Dispatcher.NodeList.Departure.{remove_total}
use rmake.Dispatcher.NodeList.Picking.{IsBest}
use rmake.Dispatcher.NodeList.Single.{WithinSlots}
use rmake.Dispatcher.NodeList.Batch.{placed_in-Sub, assign_commands_total}
use rmake.Dispatcher.Server.{
  Server, assign_queued_commands, node_registered, node_updated, node_disconnected,
  command_completed,
}
use rmake.Dispatcher.Server.Queue.{IsSound, send_each_total}

module _ {F : Type 0} where
  find-In :
      (d : Command F) (cs : List (Command F))
      → NodupIds cs
      → In d cs
      → find d.command_id cs ≡ some d
  unfolding find
  find-In d [] u m = absurd m
  find-In d (x ∷ xs) u (inl e) = ground (arith, e, ==_self d.command_id)
  find-In d (x ∷ xs) u (inr m) = ground (arith, find-In d xs u.1 m)

  In-find : (cid : ℕ) (d : Command F) (cs : List (Command F)) → find cid cs ≡ some d → In d cs
  unfolding find
  In-find cid d [] h = cc
  In-find cid d (x ∷ xs) h = elim (Bool-cases (cid == x.command_id)) [
    | inl e ↦ inl (ground (arith, e))
    | inr e ↦ inr (In-find cid d xs (ground (arith, e)))
  ]

module _ (c : Conary) where
  open c use {Flavor}

  -- What every handler leaves: a sound state, in which no queued command could be placed.
  pub record Served (s : Server Flavor) (result : Option (Server Flavor)) : Type 0 where
    pub after : Server Flavor
    pub returned : result ≡ some after
    pub sound : IsSound after
    pub within : WithinSlots s.node_list after.node_list
    -- A command that no node holds afterwards is in the table if it was there.
    pub kept :
        (cid : ℕ) (d : Command Flavor)
        → lookup cid s.queued_by_id ≡ some d
        → lookup cid after.node_list.commands ≡ none
        → lookup cid after.queued_by_id ≡ some d
    pub left : (cid : ℕ) → find cid s.queued ≡ none → find cid after.queued ≡ none
    -- Only a queued command is given to a node.
    pub freed :
        (cid : ℕ)
        → find cid s.queued ≡ none
        → lookup cid s.node_list.commands ≡ none
        → lookup cid after.node_list.commands ≡ none
    pub stuck :
        (d : Command Flavor)
        → In d after.queued
        → IsBest c after.node_list (requires_chroot d) (required_flavors d) none

  -- In a sound state the assignment of the queued commands raises nothing and leaves a sound
  -- state. No node that was within its slots is given more commands than it has slots, no command
  -- is queued anew, only queued commands are given to nodes, what no node holds stays in the table
  -- of the queued commands, and for a command that stays queued no open node builds what it
  -- requires.
  pub assign_queued_commands_total :
      (s : Server Flavor) → IsSound s → Served s (assign_queued_commands c s)
  unfolding assign_queued_commands
  assign_queued_commands_total s v =
      let b = assign_commands_total c s.queued s.node_list v.nodes v.distinct v.waiting in
      let t = record s { node_list = b.after } in
      let e =
        send_each_total b.assigned t
          (record { distinct = v.distinct; indexed = v.indexed; among = b.chosen }) in
      record {
        after = e.after;
        returned = ground (arith, b.returned, e.returned);
        sound = record {
          nodes = subst IsValid (sym e.same_nodes) b.valid;
          distinct = e.distinct;
          indexed = e.indexed;
          waiting = λ cid h. ground (arith, e.same_nodes, e.left cid, b.mapped cid, v.waiting cid);
        };
        within = subst (WithinSlots s.node_list) (sym e.same_nodes) b.within;
        kept = λ cid d h q. ground (arith, e.same_nodes, e.kept cid, b.mapped cid);
        left = λ cid h. ground (arith, e.left cid);
        freed = λ cid h p.
            ground
              (arith, e.same_nodes, b.mapped cid, placed_in-Sub cid b.assigned s.queued b.chosen);
        stuck = λ d m.
            subst (λ l. IsBest c l (requires_chroot d) (required_flavors d) none) (sym e.same_nodes)
              (let q = find-In d e.after.queued e.distinct m in
                b.stuck d (In-find d.command_id d s.queued (ground (arith, q, e.left d.command_id)))
                  (ground (arith, q, e.left d.command_id)));
      }

  -- When a node registers with a dispatcher in a sound state, the queued commands are assigned
  -- without an exception, with the node among those that can take them, and what that assignment
  -- guarantees of the state with the new node holds.
  pub node_registered_total :
      (sid : ℕ) (node : WorkerNode Flavor) (s : Server Flavor)
      → IsSound s
      → Served (record s { node_list = add sid node s.node_list }) (node_registered c sid node s)
  unfolding node_registered
  node_registered_total sid node s v =
      assign_queued_commands_total (record s { node_list = add sid node s.node_list })
        (record {
          nodes = add-IsValid sid node s.node_list v.nodes;
          distinct = v.distinct;
          indexed = v.indexed;
          waiting = unfold add in v.waiting;
        })

  -- Fewer commands are held: what waited is still new to the nodes.
  fewer-IsSound :
      (s : Server Flavor) (l : NodeList Flavor) (gone : ℕ → Bool)
      → IsSound s
      → IsValid l
      → ((k : ℕ) → lookup k l.commands ≡ (if gone k then none else lookup k s.node_list.commands))
      → IsSound (record s { node_list = l })
  fewer-IsSound s l gone v w h = record {
    nodes = w;
    distinct = v.distinct;
    indexed = v.indexed;
    waiting = λ cid q. ground (arith, h cid, v.waiting cid);
  }

  -- The message that a command has completed or failed is handled without an exception in a sound
  -- state, whether or not the command is known, and leaves a sound state.
  pub command_completed_total :
      (cid : ℕ) (s : Server Flavor)
      → IsSound s
      → (t : Server Flavor) × (command_completed c cid s ≡ some t) × IsSound t
  unfolding command_completed
  command_completed_total cid s v =
      let r = remove_command_total cid s.node_list v.nodes in
      let a =
        assign_queued_commands_total (record s { node_list = r.after })
          (fewer-IsSound s r.after (λ k. k == cid) v r.valid r.left) in
      (a.after, ground (arith, r.returned, a.returned), a.sound)

  -- The message that a node has disconnected is handled without an exception in a sound state,
  -- whether or not the node is known, and leaves a sound state.
  pub node_disconnected_total :
      (sid : ℕ) (s : Server Flavor)
      → IsSound s
      → (t : Server Flavor) × (node_disconnected c sid s ≡ some t) × IsSound t
  unfolding node_disconnected
  node_disconnected_total sid s v = elim (Bool-cases (contains sid s.node_list.nodes)) [
    | inr e ↦ (s, ground (arith, e), v)
    | inl e ↦
        let r = remove_total sid s.node_list v.nodes e in
        let a =
          assign_queued_commands_total (record s { node_list = r.after })
            (fewer-IsSound s r.after (λ k. is_some (find k (assigned_of s.node_list sid))) v r.valid
              r.left) in
        (a.after, ground (arith, e, r.returned, a.returned), a.sound)
  ]

  -- A heartbeat is handled without an exception in a sound state, whether or not its node is
  -- known, and leaves a sound state.
  pub node_updated_total :
      (sid : ℕ) (info : NodeInfo) (reported : List ℕ) (s : Server Flavor)
      → IsSound s
      → (t : Server Flavor) × (node_updated c sid info reported s ≡ some t) × IsSound t
  unfolding node_updated
  node_updated_total sid info reported s v = elim (Bool-cases (contains sid s.node_list.nodes)) [
    | inr e ↦ (s, ground (arith, e), v)
    | inl e ↦
        let r = update_status_total sid info reported s.node_list v.nodes e in
        let a =
          assign_queued_commands_total (record s { node_list = r.after })
            (fewer-IsSound s r.after (dropped reported (assigned_of s.node_list sid)) v r.valid
              r.left) in
        (a.after, ground (arith, e, r.returned, a.returned), a.sound)
  ]
