-- ===== src/Dispatcher/NodeList/Choice.antt =====
-- Which node a command is given: `_getScore`, `rankNodes`, `getOpenNodes`, `getNodeForFlavors` and
-- `assignCommands`. A score `usedSlots / float(slots)` is the fraction of the two numbers, compared
-- by cross multiplication; the quotient by 0 slots is an exception, `none`.
use rmake.Base.{
  ℕ, ◌*◌, ◌/◌, Bool, true, false, not, ◌&&◌, ◌||◌, Option, none, some, List, [], ◌∷◌, ◌==◌, ltb,
  leb, elem, if◌then◌else◌, ◌>>=◌, any, all,
}
use rmake.Base.Dict.{Dict, lookup}
use rmake.Flavors.{Conary, get_arch_flags}
use rmake.Dispatcher.Types.{WorkerNode, Command, requires_chroot, required_flavors}
use rmake.Dispatcher.NodeList.{NodeList, assign_command}

-- The sort key of `rankNodes`: the score `used / slots`, then the whole part of the load.
pub record Key : Type 0 where
  pub used : ℕ
  pub slots : ℕ
  pub load : ℕ

unfoldable pub key_le : Key → Key → Bool
key_le k l =
    let a = k.used * l.slots in let b = l.used * k.slots in ltb a b || a == b && leb k.load l.load

abbrev pub Ranked : Type 0 → Type 0
Ranked F = Key × WorkerNode F

module _ {F : Type 0} where
  score : ℕ → WorkerNode F → Option (ℕ × ℕ)
  score used node =
      if used == 0 then some (0, 1) else if node.slots == 0 then none else some (used, node.slots)

  -- `_getScore`, and the second part of the key
  unfoldable pub get_key : NodeList F → WorkerNode F → Option Key
  unfolding score
  get_key s node = do
    used ← lookup node.session_id s.used_slots
    (n, d) ← score used node
    some (record { used = n; slots = d; load = node.node_info.load_average / 100 })

  unfoldable pub with_keys : NodeList F → List (WorkerNode F) → Option (List (Ranked F))
  with_keys s [] = some []
  with_keys s (n ∷ ns) = do k ← get_key s n; rest ← with_keys s ns; some ((k, n) ∷ rest)

  -- A stable sort by the key.
  unfoldable pub insert_ranked : Ranked F → List (Ranked F) → List (Ranked F)
  insert_ranked x [] = x ∷ []
  insert_ranked x (y ∷ ys) = if key_le x.0 y.0 then x ∷ y ∷ ys else y ∷ insert_ranked x ys

  unfoldable pub sort_ranked : List (Ranked F) → List (Ranked F)
  sort_ranked [] = []
  sort_ranked (x ∷ xs) = insert_ranked x (sort_ranked xs)

  unfoldable pub rank_nodes : NodeList F → List (WorkerNode F) → Option (List (Ranked F))
  rank_nodes s ns = do keyed ← with_keys s ns; some (sort_ranked keyed)

  -- `requiresChroot and self._usedChroots[sessionId] >= node.chrootLimit`
  chroots_full : NodeList F → Bool → ℕ → WorkerNode F → Option Bool
  chroots_full s false sid node = some false
  chroots_full s true sid node = do
    used ← lookup sid s.used_chroots
    some (leb node.chroot_limit used)

  -- The loop body of `getOpenNodes`: each `continue` is a test that fails.
  unfoldable pub open_test : NodeList F → Bool → ℕ → WorkerNode F → Option Bool
  unfolding chroots_full
  open_test s chroot sid node = if elem sid s.suspended then some false else (do
    used ← lookup sid s.used_slots
    full ← (if leb node.slots used then some true else chroots_full s chroot sid node)
    some (not full && leb node.node_info.load_average node.load_threshold))

  unfoldable pub open_among : NodeList F → Bool → Dict (WorkerNode F) → Option (List (WorkerNode F))
  open_among s chroot [] = some []
  open_among s chroot ((sid, node) ∷ rest) = do
    ok ← open_test s chroot sid node
    others ← open_among s chroot rest
    some (if ok then node ∷ others else others)

  unfoldable pub get_open_nodes : NodeList F → Bool → Option (List (WorkerNode F))
  get_open_nodes s chroot = open_among s chroot s.nodes

module _ (c : Conary) where
  open c use {Flavor, filter_flavor, strongly_satisfies}

  -- The loop over `node.buildFlavors` for one required flavor.
  unfoldable pub builds_flavor : Flavor → List Flavor → Bool
  builds_flavor flavor =
      let arch = get_arch_flags c flavor false false in
      any (λ f. strongly_satisfies f (filter_flavor flavor (f ∷ arch ∷ [])))

  -- With no required flavors every node will do.
  unfoldable pub builds_all : List Flavor → WorkerNode Flavor → Bool
  builds_all flavors node = all (λ f. builds_flavor f node.build_flavors) flavors

  unfoldable pub capable : List Flavor → List (WorkerNode Flavor) → List (WorkerNode Flavor)
  capable flavors [] = []
  capable flavors (n ∷ ns) =
      let rest = capable flavors ns in if builds_all flavors n then n ∷ rest else rest

  -- The outer option is an exception, the inner one the `None` that says that no node will do.
  unfoldable pub get_node_for_flavors :
      List Flavor → Bool → NodeList Flavor → Option (Option (WorkerNode Flavor))
  get_node_for_flavors flavors chroot s = do
    candidates ← get_open_nodes s chroot
    ranked ← rank_nodes s (capable flavors candidates)
    some (elim ranked [ [] ↦ none | x ∷ _ ↦ some x.1 ])

  abbrev pub Assignment : Type 0
  Assignment = Command Flavor × WorkerNode Flavor

  abbrev pub assign_found :
      Command Flavor
      → Option (WorkerNode Flavor)
      → NodeList Flavor
      → Option (NodeList Flavor × Option (WorkerNode Flavor))
  assign_found command none s = some (s, none)
  assign_found command (some node) s = do s' ← assign_command command node s; some (s', some node)

  -- One round of the loop of `assignCommands`.
  unfoldable pub assign_one :
      Command Flavor → NodeList Flavor → Option (NodeList Flavor × Option (WorkerNode Flavor))
  assign_one command s = do
    node ← get_node_for_flavors (required_flavors command) (requires_chroot command) s
    assign_found command node s

  abbrev pub note : Command Flavor → Option (WorkerNode Flavor) → List Assignment → List Assignment
  note command none l = l
  note command (some node) l = (command, node) ∷ l

  unfoldable pub assign_commands :
      List (Command Flavor) → NodeList Flavor → Option (NodeList Flavor × List Assignment)
  assign_commands [] s = some (s, [])
  assign_commands (command ∷ rest) s = do
    (s', node) ← assign_one command s
    (t, l) ← assign_commands rest s'
    some (t, note command node l)
