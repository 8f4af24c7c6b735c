-- ===== src/Dispatcher/NodeList/Departure.antt =====
-- A node that leaves: `remove` takes its commands from the tables, and keeps them in agreement.
use rmake.Base.{
  ℕ, ◌≡◌, ◌∙◌, ==_self, [], ◌∷◌, ◌++◌, true, none, some, ◌==◌, if◌then◌else◌, is_some, arith,
  Option-cases, inl, inr,
}
use rmake.Base.Dict.{lookup, contains, lookup-insert, lookup-erase, erase-NodupKeys}
use rmake.Dispatcher.Types.{WorkerNode, Command}
use rmake.Dispatcher.NodeList.{
  get_commands_for_job, NodeList, find, place, assign_command, remove, forget,
}
use rmake.Dispatcher.NodeList.Update.{assign_command_total}
use rmake.Dispatcher.NodeList.Holding.{Popped, pop_each_total}
use rmake.Dispatcher.NodeList.Invariant.{IsValid, assigned_of}

module _ {F : Type 0} where
  module _ (sid : ℕ) (s : NodeList F) (v : IsValid s) where
    held_known :
        (k : ℕ) → is_some (find k (assigned_of s sid)) ≡ true → contains k s.commands ≡ true
    held_known k h = elim (Option-cases (find k (assigned_of s sid))) [
      | inl e ↦ ground (arith, e)
      | inr (c, e) ↦ ground (arith, v.held k sid c e)
    ]

    abbrev popped : Popped (assigned_of s sid) s.commands
    popped = pop_each_total (assigned_of s sid) s.commands (v.distinct sid) held_known

    -- A command of another node is not in the list of this one.
    apart :
        (cid k : ℕ) (c : Command F)
        → lookup cid s.commands ≡ some (k, c)
        → is_some (find cid (assigned_of s sid)) ≡ true
        → k ≡ sid
    apart cid k c h m = elim (Option-cases (find cid (assigned_of s sid))) [
      | inl e ↦ ground (arith, e)
      | inr (d, e) ↦ ground (arith, v.held cid sid d e)
    ]

    forget-IsValid : IsValid (forget sid popped.left s)
    unfolding forget find
    forget-IsValid = record {
      slots = λ k. ground (
        arith,
        v.slots k,
        lookup-erase k sid s.used_slots,
        lookup-erase k sid s.assigned_commands,
      );
      chroots = λ k. ground (
        arith,
        v.chroots k,
        lookup-erase k sid s.used_chroots,
        lookup-erase k sid s.assigned_commands,
      );
      known = λ k.
          ground
            (arith, v.known k, lookup-erase k sid s.nodes, lookup-erase k sid s.assigned_commands);
      table = erase-NodupKeys sid s.nodes v.table;
      named = λ k n h. ground (arith, v.named k n, lookup-erase k sid s.nodes);
      distinct = λ k. ground (arith, v.distinct k, lookup-erase k sid s.assigned_commands);
      owned = λ cid k c h.
          ground (arith, v.owned cid k c, popped.kept cid, lookup-erase k sid s.assigned_commands);
      held = λ cid k c h. ground (
        arith,
        v.held cid k c,
        popped.kept cid,
        apart cid k c,
        lookup-erase k sid s.assigned_commands,
      );
    }

  pub record Removed (sid : ℕ) (s : NodeList F) : Type 0 where
    pub after : NodeList F
    pub returned : remove sid s ≡ some after
    pub valid : IsValid after
    pub left :
        (k : ℕ)
        → lookup k after.commands
          ≡ (if is_some (find k (assigned_of s sid)) then none else lookup k s.commands)
    pub nodes_left : (k : ℕ) → lookup k after.nodes ≡ (if k == sid then none else lookup k s.nodes)

  -- In a valid state a known node is removed without an exception, the new state is valid, the
  -- node is no longer known, and the table of the commands has lost just the commands of that
  -- node.
  pub remove_total :
      (sid : ℕ) (s : NodeList F) → IsValid s → contains sid s.nodes ≡ true → Removed sid s
  unfolding remove
  remove_total sid s v m =
      let p : Popped (assigned_of s sid) s.commands = popped sid s v in
      record {
        after = forget sid p.left s;
        returned = ground (arith, p.popped);
        valid = forget-IsValid sid s v;
        left = unfold forget in p.kept;
        nodes_left = λ k. unfold forget in lookup-erase k sid s.nodes;
      }

  listed-remove :
      (sid job : ℕ) (s t : NodeList F)
      → remove sid s ≡ some t
      → get_commands_for_job job t ≡ get_commands_for_job job s
  unfolding remove forget get_commands_for_job
  listed-remove sid job s t h = ground arith

  listed-assign :
      (command : Command F) (node : WorkerNode F) (s t : NodeList F)
      → assign_command command node s ≡ some t
      → get_commands_for_job command.job_id t
        ≡ get_commands_for_job command.job_id s ++ command ∷ []
  unfolding assign_command place get_commands_for_job
  listed-assign command node s t h =
      let job = command.job_id in
      let l = get_commands_for_job job s in
      ground (arith, h, lookup-insert job job (l ++ command ∷ []) s.commands_by_job, ==_self job)

  -- A node that is given a command and is then removed.
  pub record Orphaned (command : Command F) (node : WorkerNode F) (s : NodeList F) : Type 0 where
    pub assigned : NodeList F
    pub after : NodeList F
    pub was_assigned : assign_command command node s ≡ some assigned
    pub removed : remove node.session_id assigned ≡ some after
    pub valid : IsValid after
    pub known_before : lookup command.command_id assigned.commands ≡ some (node.session_id, command)
    pub forgotten : lookup command.command_id after.commands ≡ none
    pub listed :
        get_commands_for_job command.job_id after
        ≡ get_commands_for_job command.job_id s ++ command ∷ []

  -- In a valid state, where a command that no node holds is assigned to a known node and that node is
  -- then removed, both without an exception, the table of the commands has had the command and has
  -- lost it again, and the state is valid, but the command is still listed for its job, behind those
  -- that were.
  pub assign-remove :
      (command : Command F) (node : WorkerNode F) (s : NodeList F)
      → IsValid s
      → contains node.session_id s.nodes ≡ true
      → lookup command.command_id s.commands ≡ none
      → Orphaned command node s
  assign-remove command node s v here fresh =
      let a = assign_command_total command node s v here fresh in
      let cid = command.command_id in
      let sid = node.session_id in
      let known : lookup cid a.after.commands ≡ some (sid, command) =
        ground (arith, a.mapped cid, ==_self cid) in
      let r = remove_total sid a.after a.valid (ground (arith, a.same_nodes, here)) in
      record {
        assigned = a.after;
        after = r.after;
        was_assigned = a.returned;
        removed = r.returned;
        valid = r.valid;
        known_before = known;
        forgotten = ground (arith, r.left cid, known, a.valid.owned cid sid command);
        listed =
            listed-remove sid command.job_id a.after r.after r.returned
            ∙ listed-assign command node s a.after a.returned;
      }
