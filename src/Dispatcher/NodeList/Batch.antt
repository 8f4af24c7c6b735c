-- ===== src/Dispatcher/NodeList/Batch.antt =====
-- `assignCommands`: a batch of new commands is placed without an exception, and no node is given
-- more commands than it has slots.
use rmake.Base.{
  ℕ, ◌≡◌, refl, ◌⊎◌, true, false, Option, none, some, List, [], ◌∷◌, inl, inr, arith, if◌then◌else◌,
  is_some, ==_self, ==_iff, subst, sym,
}
use rmake.Base.Dict.{lookup}
use rmake.Base.Pred.{In}
use rmake.Flavors.{Conary}
use rmake.Dispatcher.Types.{WorkerNode, Command, requires_chroot, required_flavors}
use rmake.Dispatcher.NodeList.{NodeList, find}
use rmake.Dispatcher.NodeList.Choice.{builds_all, note, assign_commands}
use rmake.Dispatcher.NodeList.Holding.{NodupIds}
use rmake.Dispatcher.NodeList.Invariant.{IsValid}
use rmake.Dispatcher.NodeList.Best.{IsOpen}
use rmake.Dispatcher.NodeList.Growth.{Grown, Grown-refl, Grown-trans, Grown-IsOpen}
use rmake.Dispatcher.NodeList.Picking.{IsBest}
use rmake.Dispatcher.NodeList.Single.{placed_in, WithinSlots, Placing, assign_one_total}

-- The assigned commands stand among the given ones, in their order.
abbrev pub Sub : {F : Type 0} → List (Command F × WorkerNode F) → List (Command F) → Type 0
Sub [] [] = Unit
Sub (_ ∷ _) [] = ⊥
Sub [] (c ∷ cs) = Unit
Sub (a ∷ l) (c ∷ cs) = (a.0 ≡ c) × Sub l cs ⊎ Sub (a ∷ l) cs

pub Sub-skip :
    {F : Type 0} (l : List (Command F × WorkerNode F)) (c : Command F) (cs : List (Command F))
    → Sub l cs
    → Sub l (c ∷ cs)
Sub-skip [] c cs h = tt
Sub-skip (a ∷ l) c cs h = inr h

pub placed_in-Sub :
    {F : Type 0} (cid : ℕ) (l : List (Command F × WorkerNode F)) (cs : List (Command F))
    → Sub l cs
    → find cid cs ≡ none
    → placed_in cid l ≡ none
unfolding find
placed_in-Sub cid [] cs h e = refl
placed_in-Sub cid (a ∷ l) [] h e = absurd h
placed_in-Sub cid (a ∷ l) (c ∷ cs) (inl h) e = ground (arith, placed_in-Sub cid l cs)
placed_in-Sub cid (a ∷ l) (c ∷ cs) (inr h) e = ground (arith, placed_in-Sub cid (a ∷ l) cs)

module _ (c : Conary) where
  open c use {Flavor}

  -- Every command is new to the tables.
  abbrev pub Fresh : List (Command Flavor) → NodeList Flavor → Type 0
  Fresh commands s = (cid : ℕ) → is_some (find cid commands) ≡ true → lookup cid s.commands ≡ none

  Sub-note :
      (x : Command Flavor) (node : Option (WorkerNode Flavor))
      (l : List (Command Flavor × WorkerNode Flavor)) (xs : List (Command Flavor))
      → Sub l xs
      → Sub (note c x node l) (x ∷ xs)
  Sub-note x none l xs h = Sub-skip l x xs h
  Sub-note x (some n) l xs h = inl (refl, h)

  placed_in-note :
      (cid : ℕ) (x : Command Flavor) (node : Option (WorkerNode Flavor))
      (l : List (Command Flavor × WorkerNode Flavor))
      → placed_in cid (note c x node l) ≡ none
      → placed_in cid l ≡ none
  placed_in-note cid x none l h = h
  placed_in-note cid x (some n) l h = ground arith

  passed_over :
      (x : Command Flavor) (node : Option (WorkerNode Flavor))
      (l : List (Command Flavor × WorkerNode Flavor))
      → placed_in x.command_id (note c x node l) ≡ none
      → node ≡ none
  passed_over x none l h = refl
  passed_over x (some n) l h = absurd (ground (arith, ==_self x.command_id))

  stuck_first :
      {s : NodeList Flavor} (x d : Command Flavor) (one : Placing c x s) (t : NodeList Flavor)
      → Grown one.after t
      → (l : List (Command Flavor × WorkerNode Flavor)) → d ≡ x
      → placed_in d.command_id (note c x one.node l) ≡ none
      → IsBest c t (requires_chroot d) (required_flavors d) none
  stuck_first {s} x d one t g l q e = λ k m h o.
      let none_found : one.node ≡ none =
        passed_over x one.node l
          (subst (λ y. placed_in y.command_id (note c x one.node l) ≡ none) q e) in
      let b : IsBest c s (requires_chroot x) (required_flavors x) none =
        subst (IsBest c s (requires_chroot x) (required_flavors x)) none_found one.best in
      let g' = Grown-trans s one.after t one.grown g in
      subst (λ y. builds_all c (required_flavors y) m ≡ false) (sym q)
        (b k m (ground (arith, h, g'.same_nodes)) (
          Grown-IsOpen s t (requires_chroot x) m g'
            (subst (λ y. IsOpen t (requires_chroot y) m) q o)))

  pub record Batch (commands : List (Command Flavor)) (s : NodeList Flavor) : Type 0 where
    pub after : NodeList Flavor
    pub assigned : List (Command Flavor × WorkerNode Flavor)
    pub returned : assign_commands c commands s ≡ some (after, assigned)
    pub valid : IsValid after
    pub within : WithinSlots s after
    pub grown : Grown s after
    pub mapped :
        (cid : ℕ)
        → lookup cid after.commands ≡ (
            if is_some (placed_in cid assigned)
            then placed_in cid assigned
            else lookup cid s.commands)
    pub chosen : Sub assigned commands
    -- No node is open that builds what a command that was passed over needs.
    pub stuck :
        (d : Command Flavor)
        → In d commands
        → placed_in d.command_id assigned ≡ none
        → IsBest c after (requires_chroot d) (required_flavors d) none

  -- In a valid state a list of different commands that no node holds is assigned without an
  -- exception, and the new state is valid. No node that was within its slots is given more
  -- commands than it has slots, the assignments name commands of the list in its order, the table
  -- of the commands maps each of them to its node and is as before elsewhere, and no open node
  -- builds what a command that was passed over requires.
  pub assign_commands_total :
      (commands : List (Command Flavor)) (s : NodeList Flavor)
      → IsValid s
      → NodupIds commands
      → Fresh commands s
      → Batch commands s
  unfolding assign_commands find
  assign_commands_total [] s v u f = record {
    after = s;
    assigned = [];
    returned = refl;
    valid = v;
    within = λ sid n h. inl refl;
    grown = Grown-refl s;
    mapped = λ cid. refl;
    chosen = tt;
    stuck = λ d m e. absurd m;
  }
  assign_commands_total (x ∷ xs) s v u f =
      let one = assign_one_total c x s v (f x.command_id (ground (arith, ==_self x.command_id))) in
      let rest =
        assign_commands_total xs one.after one.valid u.1
          (λ cid m. ground (arith, f cid, one.mapped cid, ==_iff cid x.command_id)) in
      record {
        after = rest.after;
        assigned = note c x one.node rest.assigned;
        returned = ground (arith, one.returned, rest.returned);
        valid = rest.valid;
        within =
            λ sid n h. ground (arith, one.within sid n, rest.within sid n, one.grown.same_nodes);
        grown = Grown-trans s one.after rest.after one.grown rest.grown;
        mapped = λ cid. ground (
          arith,
          one.mapped cid,
          rest.mapped cid,
          ==_iff cid x.command_id,
          placed_in-Sub x.command_id rest.assigned xs,
        );
        chosen = Sub-note x one.node rest.assigned xs rest.chosen;
        stuck = λ d m e. elim m [
          | inl q ↦ stuck_first x d one rest.after rest.grown rest.assigned q e
          | inr q ↦ rest.stuck d q (placed_in-note d.command_id x one.node rest.assigned e)
        ];
      }
