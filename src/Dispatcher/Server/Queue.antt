-- ===== src/Dispatcher/Server/Queue.antt =====
-- When the queue of the dispatcher agrees with its table and with the nodes, and that
-- `_assignQueuedCommands` keeps it so.
use rmake.Base.{
  ℕ, ◌≡◌, refl, true, false, none, some, List, [], ◌∷◌, ◌==◌, inl, inr, arith, if◌then◌else◌,
  is_some, ==_self, ==_iff,
}
use rmake.Base.Dict.{lookup, erase, lookup-insert, lookup-erase}
use rmake.Dispatcher.Types.{WorkerNode, Command}
use rmake.Dispatcher.NodeList.{find, remove_first}
use rmake.Dispatcher.NodeList.Holding.{
  NodupIds, find-append, NodupIds-snoc, find-remove_first, NodupIds-remove_first,
}
use rmake.Dispatcher.NodeList.Invariant.{IsValid, new-IsValid}
use rmake.Dispatcher.NodeList.Single.{placed_in}
use rmake.Dispatcher.NodeList.Batch.{Sub, Sub-skip}
use rmake.Dispatcher.Server.{Server, start, send_command_to_node, enqueue, dequeue, send_each}

module _ {F : Type 0} where
  -- The tables of the nodes agree, no command is queued twice, a queued command is in the table of
  -- the queued commands, and no node holds it.
  pub record IsSound (s : Server F) : Type 0 where
    pub nodes : IsValid s.node_list
    pub distinct : NodupIds s.queued
    pub indexed :
        (cid : ℕ) (d : Command F) → find cid s.queued ≡ some d → lookup cid s.queued_by_id ≡ some d
    pub waiting :
        (cid : ℕ) → is_some (find cid s.queued) ≡ true → lookup cid s.node_list.commands ≡ none

  pub start-IsSound : IsSound start
  unfolding find
  start-IsSound = record {
    nodes = new-IsValid;
    distinct = tt;
    indexed = λ cid d h. cc;
    waiting = λ cid h. cc;
  }

  pub enqueue-IsSound :
      (command : Command F) (s : Server F)
      → IsSound s
      → find command.command_id s.queued ≡ none
      → lookup command.command_id s.node_list.commands ≡ none
      → IsSound (enqueue command s)
  unfolding enqueue
  enqueue-IsSound command s v new free = record {
    nodes = v.nodes;
    distinct = NodupIds-snoc s.queued command v.distinct new;
    indexed = λ cid d h. ground (
      arith,
      v.indexed cid d,
      find-append cid s.queued command,
      lookup-insert cid command.command_id command s.queued_by_id,
      ==_iff cid command.command_id,
    );
    waiting = λ cid h.
        ground
          (arith, v.waiting cid, find-append cid s.queued command, ==_iff cid command.command_id);
  }

  -- What the loop over the assignments needs: each is queued, indexed and named once.
  pub record Ready (l : List (Command F × WorkerNode F)) (s : Server F) : Type 0 where
    pub distinct : NodupIds s.queued
    pub indexed :
        (cid : ℕ) (d : Command F) → find cid s.queued ≡ some d → lookup cid s.queued_by_id ≡ some d
    pub among : Sub l s.queued

  pub record SentEach (l : List (Command F × WorkerNode F)) (s : Server F) : Type 0 where
    pub after : Server F
    pub returned : send_each l s ≡ some after
    pub same_nodes : after.node_list ≡ s.node_list
    pub distinct : NodupIds after.queued
    pub indexed :
        (cid : ℕ) (d : Command F)
        → find cid after.queued ≡ some d
        → lookup cid after.queued_by_id ≡ some d
    pub kept :
        (cid : ℕ)
        → lookup cid after.queued_by_id
          ≡ (if is_some (placed_in cid l) then none else lookup cid s.queued_by_id)
    pub left :
        (cid : ℕ)
        → find cid after.queued ≡ (if is_some (placed_in cid l) then none else find cid s.queued)

  find-Sub :
      (d : Command F) (n : WorkerNode F) (l : List (Command F × WorkerNode F))
      (cs : List (Command F))
      → NodupIds cs
      → Sub ((d, n) ∷ l) cs
      → find d.command_id cs ≡ some d
  unfolding find
  find-Sub d n l [] u h = absurd h
  find-Sub d n l (c ∷ cs) u (inl h) = ground (arith, h, ==_self d.command_id)
  find-Sub d n l (c ∷ cs) u (inr h) = ground (arith, find-Sub d n l cs u.1 h)

  Sub-remove_first :
      (d : Command F) (n : WorkerNode F) (l : List (Command F × WorkerNode F))
      (cs : List (Command F))
      → NodupIds cs
      → Sub ((d, n) ∷ l) cs
      → Sub l (remove_first d.command_id cs)
  unfolding remove_first
  Sub-remove_first d n l [] u h = absurd h
  Sub-remove_first d n l (c ∷ cs) u (inl h) =
      let e : (d.command_id == c.command_id) ≡ true = ground (arith, h, ==_self d.command_id) in
      rw e h.1
  Sub-remove_first d n l (c ∷ cs) u (inr h) =
      let e : (d.command_id == c.command_id) ≡ false = ground (arith, find-Sub d n l cs u.1 h) in
      rw e (Sub-skip l c (remove_first d.command_id cs) (Sub-remove_first d n l cs u.1 h))

  -- The state in which the rest of the list is sent.
  abbrev sent_one : Command F → WorkerNode F → Server F → Server F
  sent_one d n s =
      let t = send_command_to_node d n s in
      record t {
        queued = remove_first d.command_id t.queued;
        queued_by_id = erase d.command_id t.queued_by_id;
      }

  sent_one-Ready :
      (d : Command F) (n : WorkerNode F) (l : List (Command F × WorkerNode F)) (s : Server F)
      → Ready ((d, n) ∷ l) s
      → Ready l (sent_one d n s)
  unfolding send_command_to_node
  sent_one-Ready d n l s r = record {
    distinct = NodupIds-remove_first d.command_id s.queued r.distinct;
    indexed = λ cid e h. ground (
      arith,
      r.indexed cid e,
      r.distinct,
      find-remove_first cid d.command_id s.queued,
      lookup-erase cid d.command_id s.queued_by_id,
    );
    among = Sub-remove_first d n l s.queued r.distinct r.among;
  }

  pub send_each_total :
      (l : List (Command F × WorkerNode F)) (s : Server F) → Ready l s → SentEach l s
  unfolding send_each dequeue send_command_to_node
  send_each_total [] s r = record {
    after = s;
    returned = refl;
    same_nodes = refl;
    distinct = r.distinct;
    indexed = r.indexed;
    kept = λ cid. refl;
    left = λ cid. refl;
  }
  send_each_total ((d, n) ∷ l) s r =
      let here = find-Sub d n l s.queued r.distinct r.among in
      let rest = send_each_total l (sent_one d n s) (sent_one-Ready d n l s r) in
      record {
        after = rest.after;
        returned = ground (arith, here, r.indexed d.command_id d, rest.returned);
        same_nodes = rest.same_nodes;
        distinct = rest.distinct;
        indexed = rest.indexed;
        kept = λ cid. ground (arith, rest.kept cid, lookup-erase cid d.command_id s.queued_by_id);
        left = λ cid.
            ground (arith, rest.left cid, r.distinct, find-remove_first cid d.command_id s.queued);
      }
