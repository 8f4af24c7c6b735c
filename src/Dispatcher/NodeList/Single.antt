-- ===== src/Dispatcher/NodeList/Single.antt =====
-- One round of `assignCommands`: a new command is placed on the best node or passed over.
use rmake.Base.{
  ℕ, ◌≤◌, ◌≡◌, refl, ◌⊎◌, Bool, Option, none, some, List, [], ◌∷◌, ◌==◌, inl, arith, if◌then◌else◌,
  is_some, ==_iff,
}
use rmake.Base.Dict.{lookup}
use rmake.Flavors.{Conary}
use rmake.Dispatcher.Types.{WorkerNode, Command, requires_chroot, required_flavors}
use rmake.Dispatcher.NodeList.{NodeList}
use rmake.Dispatcher.NodeList.Choice.{get_node_for_flavors, assign_one, note}
use rmake.Dispatcher.NodeList.Invariant.{IsValid}
use rmake.Dispatcher.NodeList.Update.{assign_command_total}
use rmake.Dispatcher.NodeList.Growth.{Grown, Grown-refl, Assigned-Grown}
use rmake.Dispatcher.NodeList.Picking.{get_node_for_flavors_total, IsBest}

abbrev pub or_zero : Option ℕ → ℕ
or_zero none = 0
or_zero (some n) = n

-- The commands that the node holds, by its counter.
abbrev pub slots_of : {F : Type 0} → NodeList F → ℕ → ℕ
slots_of s sid = or_zero (lookup sid s.used_slots)

-- The counter of a node either stays as it was or stays within its slots.
abbrev pub WithinSlots : {F : Type 0} → NodeList F → NodeList F → Type 0
WithinSlots {F} s t =
    (sid : ℕ) (n : WorkerNode F)
    → lookup sid s.nodes ≡ some n
    → (slots_of t sid ≡ slots_of s sid) ⊎ (slots_of t sid ≤ n.slots)

-- The command of that id in a list of assignments, with the session that it went to.
abbrev pub placed_in : {F : Type 0} → ℕ → List (Command F × WorkerNode F) → Option (ℕ × Command F)
placed_in cid [] = none
placed_in cid ((c, n) ∷ l) = if cid == c.command_id then some (n.session_id, c) else placed_in cid l

module _ (c : Conary) where
  open c use {Flavor}

  pub record Placing (command : Command Flavor) (s : NodeList Flavor) : Type 0 where
    pub after : NodeList Flavor
    pub node : Option (WorkerNode Flavor)
    pub returned : assign_one c command s ≡ some (after, node)
    pub best : IsBest c s (requires_chroot command) (required_flavors command) node
    pub valid : IsValid after
    pub within : WithinSlots s after
    pub grown : Grown s after
    pub mapped :
        (cid : ℕ)
        → lookup cid after.commands ≡ (
            if is_some (placed_in cid (note c command node []))
            then placed_in cid (note c command node [])
            else lookup cid s.commands)

  module _ (command : Command Flavor) (s : NodeList Flavor) (v : IsValid s)
      (fresh : lookup command.command_id s.commands ≡ none) where
    abbrev chroot : Bool
    chroot = requires_chroot command

    abbrev flavors : List Flavor
    flavors = required_flavors command

    round_done :
        (node : Option (WorkerNode Flavor))
        → get_node_for_flavors c flavors chroot s ≡ some node
        → IsBest c s chroot flavors node
        → Placing command s
    unfolding assign_one
    round_done none e b = record {
      after = s;
      node = none;
      returned = rw e;
      best = b;
      valid = v;
      within = λ sid n h. inl refl;
      grown = Grown-refl s;
      mapped = λ cid. refl;
    }
    round_done (some node) e b =
        let o = b.0 in
        let a = assign_command_total command node s v (ground (arith, o.in_table)) fresh in
        record {
          after = a.after;
          node = some node;
          returned = ground (arith, e, a.returned);
          best = b;
          valid = a.valid;
          within = λ sid n h. ground (
            arith,
            a.slots sid,
            o.slots_used,
            o.slot_free,
            o.in_table,
            ==_iff sid node.session_id,
          );
          grown = Assigned-Grown command node s o.slots o.chroots o.slots_used o.chroots_used a;
          mapped = λ cid. ground (arith, a.mapped cid);
        }

    pub assign_one_total : Placing command s
    assign_one_total =
        let p = get_node_for_flavors_total c s v chroot flavors in
        round_done p.node p.returned p.best
