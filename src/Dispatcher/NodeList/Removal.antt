-- ===== src/Dispatcher/NodeList/Removal.antt =====
-- The operations that take from the tables keep them in agreement.
use rmake.Base.{
  ℕ, ◌+◌, ◌-◌, ◌≡◌, refl, Bool, true, false, Option, none, some, List, [], ◌∷◌, ◌==◌, ==_iff,
  if◌then◌else◌, length, elem, arith, Option-cases, Bool-cases, inl, inr, ◌∙◌,
}
use rmake.Base.Dict.{lookup, contains, insert, lookup-insert, lookup-erase, insert-NodupKeys}
use rmake.Dispatcher.Types.{NodeInfo, WorkerNode, Command, requires_chroot}
use rmake.Dispatcher.NodeList.{
  NodeList, find, remove_first, release, remove_command, drop_missing, update_status,
}
use rmake.Dispatcher.NodeList.Holding.{
  chroot_count, find-id, find-remove_first, NodupIds-remove_first, length-remove_first,
  chroot_count-remove_first,
}
use rmake.Dispatcher.NodeList.Invariant.{IsValid, assigned_of}

module _ {F : Type 0} where
  module _ (cid sid : ℕ) (command : Command F) (cs : List (Command F)) (s : NodeList F)
      (v : IsValid s) (e : lookup cid s.commands ≡ some (sid, command))
      (h : lookup sid s.assigned_commands ≡ some cs) where
    here : find cid cs ≡ some command
    here = ground (arith, v.owned cid sid command)

    same_id : command.command_id ≡ cid
    same_id = find-id cid cs command here

    fewer : length (remove_first command.command_id cs) + 1 ≡ length cs
    fewer = ground (arith, same_id, length-remove_first cid cs command here)

    fewer_chroots :
        chroot_count (remove_first command.command_id cs)
          + (if requires_chroot command then 1 else 0)
        ≡ chroot_count cs
    fewer_chroots = ground (arith, same_id, chroot_count-remove_first cid cs command here)

    pub release-IsValid : IsValid (release cid sid command cs s)
    unfolding release
    release-IsValid =
        let cs' : List (Command F) = remove_first command.command_id cs in
        record {
          slots = λ k. ground (
            arith,
            v.slots k,
            v.slots sid,
            fewer,
            lookup-insert k sid cs' s.assigned_commands,
            lookup-insert k sid (length cs - 1) s.used_slots,
          );
          chroots = λ k. ground (
            arith,
            v.chroots k,
            v.chroots sid,
            fewer_chroots,
            lookup-insert k sid cs' s.assigned_commands,
            lookup-insert k sid (chroot_count cs - 1) s.used_chroots,
          );
          known = λ k. ground (arith, v.known k, lookup-insert k sid cs' s.assigned_commands);
          table = v.table;
          named = v.named;
          distinct = λ k. ground (
            arith,
            v.distinct k,
            v.distinct sid,
            lookup-insert k sid cs' s.assigned_commands,
            NodupIds-remove_first command.command_id cs,
          );
          owned = λ j k c p. ground (
            arith,
            v.owned j k c,
            v.distinct sid,
            same_id,
            e,
            lookup-insert k sid cs' s.assigned_commands,
            lookup-erase j cid s.commands,
            find-remove_first j command.command_id cs,
          );
          held = λ j k c p. ground (
            arith,
            v.held j k c,
            v.distinct sid,
            same_id,
            e,
            lookup-insert k sid cs' s.assigned_commands,
            lookup-erase j cid s.commands,
            find-remove_first j command.command_id cs,
          );
        }

  -- What a call returns: the state after it, valid, without the commands that `gone` names.
  pub record Without (gone : ℕ → Bool) (s : NodeList F) (result : Option (NodeList F))
      : Type 0 where
    pub after : NodeList F
    pub returned : result ≡ some after
    pub valid : IsValid after
    pub same_nodes : after.nodes ≡ s.nodes
    pub same_suspended : after.suspended ≡ s.suspended
    pub left : (k : ℕ) → lookup k after.commands ≡ (if gone k then none else lookup k s.commands)

  -- In a valid state a command is removed without an exception, whether or not it is known: the
  -- new state is valid, the nodes and the suspended nodes are the same, and the table of the
  -- commands has lost that command and nothing else.
  pub remove_command_total :
      (cid : ℕ) (s : NodeList F) → IsValid s → Without (λ k. k == cid) s (remove_command cid s)
  unfolding remove_command find
  remove_command_total cid s v = elim (Option-cases (lookup cid s.commands)) [
    | inl e ↦ record {
      after = s;
      returned = ground (arith, e);
      valid = v;
      same_nodes = refl;
      same_suspended = refl;
      left = λ k. ground arith;
    }
    | inr (entry, e) ↦
        let sid : ℕ = entry.0 in
        let command : Command F = entry.1 in
        elim (Option-cases (lookup sid s.assigned_commands)) [
          | inl h ↦ absurd (ground (arith, v.owned cid sid command))
          | inr (cs, h) ↦ record {
            after = release cid sid command cs s;
            returned = ground (arith, e, h);
            valid = release-IsValid cid sid command cs s v e h;
            same_nodes = unfold release in refl;
            same_suspended = unfold release in refl;
            left = λ k. unfold release in lookup-erase k cid s.commands;
          }
        ]
  ]

  abbrev pub dropped : List ℕ → List (Command F) → ℕ → Bool
  dropped reported [] k = false
  dropped reported (c ∷ cs) k =
      if k == c.command_id
      then (if elem k reported then dropped reported cs k else true)
      else dropped reported cs k

  pub drop_missing_total :
      (reported : List ℕ) (cs : List (Command F)) (s : NodeList F)
      → IsValid s
      → Without (dropped reported cs) s (drop_missing reported cs s)
  unfolding drop_missing
  drop_missing_total reported [] s v = record {
    after = s;
    returned = refl;
    valid = v;
    same_nodes = refl;
    same_suspended = refl;
    left = λ k. refl;
  }
  drop_missing_total reported (c ∷ cs) s v = elim (Bool-cases (elem c.command_id reported)) [
    | inl e ↦
        let rest = drop_missing_total reported cs s v in
        record {
          after = rest.after;
          returned = ground (arith, e, rest.returned);
          valid = rest.valid;
          same_nodes = rest.same_nodes;
          same_suspended = rest.same_suspended;
          left = λ k. ground (arith, rest.left k, ==_iff k c.command_id);
        }
    | inr e ↦
        let one = remove_command_total c.command_id s v in
        let rest = drop_missing_total reported cs one.after one.valid in
        record {
          after = rest.after;
          returned = ground (arith, e, one.returned, rest.returned);
          valid = rest.valid;
          same_nodes = rest.same_nodes ∙ one.same_nodes;
          same_suspended = rest.same_suspended ∙ one.same_suspended;
          left = λ k. ground (arith, one.left k, rest.left k, ==_iff k c.command_id);
        }
  ]

  pub renew-IsValid :
      (sid : ℕ) (info : NodeInfo) (node : WorkerNode F) (s : NodeList F)
      → IsValid s
      → lookup sid s.nodes ≡ some node
      → IsValid (record s { nodes = insert sid (record node { node_info = info }) s.nodes })
  renew-IsValid sid info node s v h = record {
    slots = v.slots;
    chroots = v.chroots;
    known = λ k.
        ground (arith, v.known k, lookup-insert k sid (record node { node_info = info }) s.nodes);
    table = insert-NodupKeys sid (record node { node_info = info }) s.nodes v.table;
    named = λ k n e. ground (
      arith,
      v.named k n,
      v.named sid node h,
      lookup-insert k sid (record node { node_info = info }) s.nodes,
    );
    distinct = v.distinct;
    owned = v.owned;
    held = v.held;
  }

  pub record Updated (sid : ℕ) (info : NodeInfo) (reported : List ℕ) (s : NodeList F) : Type 0 where
    pub after : NodeList F
    pub returned : update_status sid info reported s ≡ some after
    pub valid : IsValid after
    pub same_nodes : (k : ℕ) → contains k after.nodes ≡ contains k s.nodes
    pub left :
        (k : ℕ)
        → lookup k after.commands
          ≡ (if dropped reported (assigned_of s sid) k then none else lookup k s.commands)

  -- In a valid state the heartbeat of a known node is taken without an exception: the new state is
  -- valid, the same nodes are known, and the table of the commands has lost just the commands of
  -- that node that the heartbeat does not report.
  pub update_status_total :
      (sid : ℕ) (info : NodeInfo) (reported : List ℕ) (s : NodeList F)
      → IsValid s
      → contains sid s.nodes ≡ true
      → Updated sid info reported s
  unfolding update_status
  update_status_total sid info reported s v m = elim (Option-cases (lookup sid s.nodes)) [
    | inl e ↦ absurd (ground (arith, e))
    | inr (node, e) ↦ elim (Option-cases (lookup sid s.assigned_commands)) [
      | inl h ↦ absurd (ground (arith, v.known sid))
      | inr (cs, h) ↦
          let d =
            drop_missing_total reported cs
              (record s { nodes = insert sid (record node { node_info = info }) s.nodes })
              (renew-IsValid sid info node s v e) in
          record {
            after = d.after;
            returned = ground (arith, e, h, d.returned);
            valid = d.valid;
            same_nodes = λ k. ground (
              arith,
              d.same_nodes,
              ==_iff k sid,
              lookup-insert k sid (record node { node_info = info }) s.nodes,
            );
            left = λ k. ground (arith, h, d.left k);
          }
    ]
  ]
