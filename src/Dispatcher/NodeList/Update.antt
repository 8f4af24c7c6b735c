-- ===== src/Dispatcher/NodeList/Update.antt =====
-- The operations that add to the tables keep them in agreement.
use rmake.Base.{
  ℕ, suc, ◌+◌, ◌≡◌, refl, true, none, some, List, [], ◌∷◌, ◌++◌, ◌==◌, ◌&&◌, if◌then◌else◌, length,
  arith, Option-cases, inl, inr,
}
use rmake.Base.Dict.{lookup, contains, lookup-insert, lookup-set_default, insert-NodupKeys}
use rmake.Dispatcher.Types.{WorkerNode, Command, requires_chroot}
use rmake.Dispatcher.NodeList.{NodeList, find, add, place, suspend, resume, assign_command}
use rmake.Dispatcher.NodeList.Holding.{
  chroot_count, find-append, length-snoc, chroot_count-snoc, NodupIds-snoc,
}
use rmake.Dispatcher.NodeList.Invariant.{map_opt, IsValid, log_usage_total}

module _ {F : Type 0} where
  -- Adding a node, be it new or known, keeps the state valid.
  pub add-IsValid :
      (sid : ℕ) (node : WorkerNode F) (s : NodeList F) → IsValid s → IsValid (add sid node s)
  unfolding add find
  add-IsValid sid node s v = record {
    slots = λ k. ground (
      arith,
      v.slots k,
      lookup-set_default k sid 0 s.used_slots,
      lookup-set_default k sid [] s.assigned_commands,
    );
    chroots = λ k. ground (
      arith,
      v.chroots k,
      lookup-set_default k sid 0 s.used_chroots,
      lookup-set_default k sid [] s.assigned_commands,
    );
    known = λ k. ground (
      arith,
      v.known k,
      lookup-insert k sid (record node { session_id = sid }) s.nodes,
      lookup-set_default k sid [] s.assigned_commands,
    );
    table = insert-NodupKeys sid (record node { session_id = sid }) s.nodes v.table;
    named = λ k n h.
        ground (arith, v.named k n, lookup-insert k sid (record node { session_id = sid }) s.nodes);
    distinct = λ k. ground (arith, v.distinct k, lookup-set_default k sid [] s.assigned_commands);
    owned = λ cid k c h.
        ground (arith, v.owned cid k c, lookup-set_default k sid [] s.assigned_commands);
    held = λ cid k c h.
        ground (arith, v.held cid k c, lookup-set_default k sid [] s.assigned_commands);
  }

  module _ (command : Command F) (sid : ℕ) (cs : List (Command F)) (slots chroots : ℕ)
      (s : NodeList F) (v : IsValid s) (h : lookup sid s.assigned_commands ≡ some cs)
      (hs : lookup sid s.used_slots ≡ some slots) (hc : lookup sid s.used_chroots ≡ some chroots)
      (fresh : lookup command.command_id s.commands ≡ none) where
    new_here : find command.command_id cs ≡ none
    new_here = elim (Option-cases (find command.command_id cs)) [
      | inl e ↦ e
      | inr (c, e) ↦ absurd (ground (arith, v.held command.command_id sid c))
    ]

    pub place-IsValid : IsValid (place command sid cs slots chroots s)
    unfolding place
    place-IsValid = record {
      slots = λ k. ground (
        arith,
        v.slots k,
        v.slots sid,
        lookup-insert k sid (slots + 1) s.used_slots,
        lookup-insert k sid (cs ++ command ∷ []) s.assigned_commands,
        length-snoc cs command,
      );
      chroots = λ k. ground (
        arith,
        v.chroots k,
        v.chroots sid,
        lookup-insert k sid (chroots + 1) s.used_chroots,
        lookup-insert k sid (cs ++ command ∷ []) s.assigned_commands,
        chroot_count-snoc cs command,
      );
      known = λ k.
          ground (arith, v.known k, lookup-insert k sid (cs ++ command ∷ []) s.assigned_commands);
      table = v.table;
      named = v.named;
      distinct = λ k. ground (
        arith,
        v.distinct k,
        v.distinct sid,
        new_here,
        lookup-insert k sid (cs ++ command ∷ []) s.assigned_commands,
        NodupIds-snoc cs command,
      );
      owned = λ cid k c e. ground (
        arith,
        v.owned cid k c,
        new_here,
        lookup-insert k sid (cs ++ command ∷ []) s.assigned_commands,
        lookup-insert cid command.command_id (sid, command) s.commands,
        find-append cid cs command,
      );
      held = λ cid k c e. ground (
        arith,
        v.held cid k c,
        new_here,
        lookup-insert k sid (cs ++ command ∷ []) s.assigned_commands,
        lookup-insert cid command.command_id (sid, command) s.commands,
        find-append cid cs command,
      );
    }

  -- What a call returns when it does not raise: the new state, which is valid again.
  pub record Assigned (command : Command F) (node : WorkerNode F) (s : NodeList F) : Type 0 where
    pub after : NodeList F
    pub returned : assign_command command node s ≡ some after
    pub valid : IsValid after
    pub slots :
        (k : ℕ)
        → lookup k after.used_slots ≡ (
            if k == node.session_id
            then map_opt suc (lookup k s.used_slots)
            else lookup k s.used_slots)
    pub chroots :
        (k : ℕ)
        → lookup k after.used_chroots ≡ (
            if k == node.session_id && requires_chroot command
            then map_opt suc (lookup k s.used_chroots)
            else lookup k s.used_chroots)
    pub same_nodes : after.nodes ≡ s.nodes
    pub same_suspended : after.suspended ≡ s.suspended
    pub mapped :
        (cid : ℕ)
        → lookup cid after.commands ≡ (
            if cid == command.command_id
            then some (node.session_id, command)
            else lookup cid s.commands)

  -- In a valid state a command that no node holds is assigned to a known node without an
  -- exception: the new state is valid, the slot counter of that node has grown by one, its chroot
  -- counter too where the command requires a chroot, the other counters and the nodes are as
  -- before, and the table of the commands maps the command to that node.
  pub assign_command_total :
      (command : Command F) (node : WorkerNode F) (s : NodeList F)
      → IsValid s
      → contains node.session_id s.nodes ≡ true
      → lookup command.command_id s.commands ≡ none
      → Assigned command node s
  unfolding assign_command
  assign_command_total command node s v here fresh =
      elim (Option-cases (lookup node.session_id s.assigned_commands)) [
        | inl e ↦ absurd (ground (arith, v.known node.session_id))
        | inr (cs, e) ↦
            let sid : ℕ = node.session_id in
            let n : ℕ = length cs in
            let m : ℕ = chroot_count cs in
            let hs : lookup sid s.used_slots ≡ some n = ground (arith, v.slots sid) in
            let hc : lookup sid s.used_chroots ≡ some m = ground (arith, v.chroots sid) in
            record {
              after = place command sid cs n m s;
              returned = rw (e, log_usage_total s v, hs, hc);
              valid = place-IsValid command sid cs n m s v e hs hc fresh;
              slots = λ k. unfold place in ground (arith, lookup-insert k sid (n + 1) s.used_slots);
              chroots =
                  λ k. unfold place in ground (arith, lookup-insert k sid (m + 1) s.used_chroots);
              same_nodes = unfold place in refl;
              same_suspended = unfold place in refl;
              mapped = λ cid.
                  unfold place in lookup-insert cid command.command_id (sid, command) s.commands;
            }
      ]

  pub suspend-IsValid :
      (sid : ℕ) (s t : NodeList F) → IsValid s → suspend sid s ≡ some t → IsValid t
  unfolding suspend
  suspend-IsValid sid s t v h = ground arith

  pub resume-IsValid : (sid : ℕ) (s t : NodeList F) → IsValid s → resume sid s ≡ some t → IsValid t
  unfolding resume
  resume-IsValid sid s t v h = ground arith
