-- ===== src/Dispatcher/Server/Listing.antt =====
-- What DispatcherServer and DispatcherNodeClient answer to the calls of administrators: the listings
-- of nodes and commands, and the suspension of nodes.
use rmake.Base.{
  ℕ, ◌≡◌, refl, Bool, true, Option, none, some, List, [], ◌∷◌, map, elem, adjoin, discard,
  elem-discard, elem-adjoin, all, ◌>>=◌, if◌then◌else◌, arith,
}
use rmake.Base.Dict.{Dict, lookup, contains, values}
use rmake.Dispatcher.Types.{Command}
use rmake.Dispatcher.NodeList.{NodeList, suspend, resume}
use rmake.Dispatcher.NodeList.Invariant.{IsValid}
use rmake.Dispatcher.Server.{Server}

module _ {F : Type 0} where
  unfoldable pub list_nodes : Server F → List ℕ
  list_nodes s = map (λ n. n.session_id) (values s.node_list.nodes)

  unfoldable pub list_queued_commands : Server F → List ℕ
  list_queued_commands s = map (λ c. c.command_id) s.queued

  -- `getCommandAssignments`
  unfoldable pub pairs_of : Dict (ℕ × Command F) → List (ℕ × ℕ)
  pairs_of [] = []
  pairs_of ((cid, (sid, _)) ∷ rest) = (cid, sid) ∷ pairs_of rest

  unfoldable pub list_assigned_commands : Server F → List (ℕ × ℕ)
  list_assigned_commands s = pairs_of s.node_list.commands

  -- `getNamesByIds`: an id that is not known is left out.
  unfoldable pub get_names_by_ids : List ℕ → NodeList F → Dict ℕ
  get_names_by_ids [] s = []
  get_names_by_ids (i ∷ is) s =
      let rest = get_names_by_ids is s in
      elim (lookup i s.nodes) [ none ↦ rest | some n ↦ (i, n.name) ∷ rest ]

  unfoldable pub suspend_nodes : List ℕ → Bool → NodeList F → Option (NodeList F)
  suspend_nodes [] on s = some s
  suspend_nodes (i ∷ is) on s = do t ← if on then suspend i s else resume i s; suspend_nodes is on t

  abbrev one_suspended : ℕ → Bool → NodeList F → NodeList F
  one_suspended i on s = record s {
    suspended = if on then adjoin i s.suspended else discard i s.suspended;
  }

  -- In a valid state nodes that are all known are suspended, or resumed, without an exception: the
  -- state is valid, just these nodes are suspended or not, and the nodes are the same.
  pub suspend_nodes_total :
      (ids : List ℕ) (on : Bool) (s : NodeList F)
      → IsValid s
      → all (λ i. contains i s.nodes) ids ≡ true
      → (t : NodeList F) × (suspend_nodes ids on s ≡ some t)
        × IsValid t
        × (t.nodes ≡ s.nodes)
        × ((k : ℕ) → elem k t.suspended ≡ (if elem k ids then on else elem k s.suspended))
  unfolding suspend_nodes suspend resume
  suspend_nodes_total [] on s v h = (s, refl, v, refl, λ k. refl)
  suspend_nodes_total (i ∷ is) on s v h =
      let u = one_suspended i on s in
      let valid : IsValid u = record {
        slots = v.slots;
        chroots = v.chroots;
        known = v.known;
        table = v.table;
        named = v.named;
        distinct = v.distinct;
        owned = v.owned;
        held = v.held;
      } in
      let (t, q, w, same, sus) = suspend_nodes_total is on u valid (ground (arith, h)) in
      (
        t,
        ground (arith, h, q),
        w,
        same,
        λ k. ground (arith, sus k, elem-discard k i s.suspended, elem-adjoin k i s.suspended),
      )
