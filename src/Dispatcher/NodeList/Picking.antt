-- ===== src/Dispatcher/NodeList/Picking.antt =====
-- What `getNodeForFlavors` finds: the best of the open nodes that can build the flavors.
use rmake.Base.{
  ℕ, ◌⊎◌, ◌*◌, ◌/◌, ◌≤◌, ◌<◌, ◌≡◌, refl, Bool, true, false, Option, none, some, List, [], ◌∷◌, ◌==◌,
  Bool-cases, inl, inr, arith, if◌then◌else◌, sym, subst,
}
use rmake.Base.Dict.{lookup, NodupKeys-Entries}
use rmake.Base.Pred.{All, In, All-In, All-weaken}
use rmake.Flavors.{Conary}
use rmake.Dispatcher.Types.{WorkerNode}
use rmake.Dispatcher.NodeList.{NodeList}
use rmake.Dispatcher.NodeList.Choice.{
  Key, key_le, Ranked, get_key, sort_ranked, rank_nodes, get_open_nodes, builds_all, capable,
  get_node_for_flavors,
}
use rmake.Dispatcher.NodeList.Invariant.{IsValid}
use rmake.Dispatcher.NodeList.Ranking.{
  IsPositive, IsLeast, HeadIsLeast, sort_ranked-All, unsort_ranked-All, sort_ranked-HeadIsLeast,
}
use rmake.Dispatcher.NodeList.Best.{IsOpen, open_among_total, with_keys_total}

-- Node `n` with `u` slots in use comes before node `m` with `w`: a smaller part of its slots is
-- used, or the same part and the whole part of its load is not greater.
abbrev pub NotAfter : {F : Type 0} → WorkerNode F → ℕ → WorkerNode F → ℕ → Type 0
NotAfter n u m w =
    (u * m.slots < w * n.slots)
    ⊎ ((u * m.slots ≡ w * n.slots)
        × (n.node_info.load_average / 100 ≤ m.node_info.load_average / 100))

abbrev key_of : {F : Type 0} → ℕ → WorkerNode F → Key
key_of u n =
    let load : ℕ = n.node_info.load_average / 100 in
    if u == 0
    then record { used = 0; slots = 1; load = load }
    else record { used = u; slots = n.slots; load = load }

get_key-eq :
    {F : Type 0} (s : NodeList F) (n : WorkerNode F) (u : ℕ)
    → lookup n.session_id s.used_slots ≡ some u
    → u < n.slots
    → get_key s n ≡ some (key_of u n)
unfolding get_key
get_key-eq s n u h lt = ground arith

key_le-NotAfter :
    {F : Type 0} (n m : WorkerNode F) (u w : ℕ)
    → u < n.slots
    → w < m.slots
    → key_le (key_of u n) (key_of w m) ≡ true
    → NotAfter n u m w
unfolding key_le
key_le-NotAfter n m u w un wm h = elim (Bool-cases (u == 0)) [
  | inl e ↦ elim (Bool-cases (w == 0)) [
    | inl f ↦ inr (ground (arith, e, f), ground (arith, e, f))
    | inr f ↦ inl (grind (arith, e, f))
  ]
  | inr e ↦ elim (Bool-cases (w == 0)) [
    | inl f ↦ absurd (ground (arith, e, f))
    | inr f ↦ ground (arith, e, f)
  ]
]

module _ (c : Conary) where
  open c use {Flavor}

  In-capable :
      (flavors : List Flavor) (n : WorkerNode Flavor) (l : List (WorkerNode Flavor))
      → In n l
      → builds_all c flavors n ≡ true
      → In n (capable c flavors l)
  unfolding capable
  In-capable flavors n [] m b = m
  In-capable flavors n (x ∷ l) m b = ground (arith, m, In-capable flavors n l)

  capable-All :
      (P : WorkerNode Flavor → Type 0) (flavors : List Flavor) (l : List (WorkerNode Flavor))
      → All P l
      → All (λ n. P n × (builds_all c flavors n ≡ true)) (capable c flavors l)
  unfolding capable
  capable-All P flavors [] a = tt
  capable-All P flavors (x ∷ l) a = elim (Bool-cases (builds_all c flavors x)) [
    | inl e ↦ rw e ((a.0, e), capable-All P flavors l a.1)
    | inr e ↦ rw e (capable-All P flavors l a.1)
  ]

  -- `none` says that no open node builds the flavors. A node that is found is open, builds them all,
  -- and comes after no other such node.
  abbrev pub IsBest : NodeList Flavor → Bool → List Flavor → Option (WorkerNode Flavor) → Type 0
  IsBest s chroot flavors none =
      (k : ℕ) (m : WorkerNode Flavor)
      → lookup k s.nodes ≡ some m
      → IsOpen s chroot m
      → builds_all c flavors m ≡ false
  IsBest s chroot flavors (some n) =
      (o : IsOpen s chroot n) × (builds_all c flavors n ≡ true)
      × ((k : ℕ) (m : WorkerNode Flavor)
          → lookup k s.nodes ≡ some m
          → (p : IsOpen s chroot m) → builds_all c flavors m ≡ true
          → NotAfter n o.slots m p.slots)

  pub record Picked (s : NodeList Flavor) (chroot : Bool) (flavors : List Flavor) : Type 0 where
    pub node : Option (WorkerNode Flavor)
    pub returned : get_node_for_flavors c flavors chroot s ≡ some node
    pub best : IsBest s chroot flavors node

  module _ (s : NodeList Flavor) (v : IsValid s) (chroot : Bool) (flavors : List Flavor) where
    abbrev Fits : WorkerNode Flavor → Type 0
    Fits n = IsOpen s chroot n × (builds_all c flavors n ≡ true)

    abbrev Offered : Ranked Flavor → Type 0
    Offered x = Fits x.1 × (get_key s x.1 ≡ some x.0)

    abbrev Complete : List (Ranked Flavor) → Type 0
    Complete keyed =
        (k : ℕ) (m : WorkerNode Flavor)
        → lookup k s.nodes ≡ some m
        → (p : IsOpen s chroot m) → builds_all c flavors m ≡ true
        → In (key_of p.slots m, m) keyed

    pick_head :
        (keyed ranked : List (Ranked Flavor))
        → sort_ranked keyed ≡ ranked
        → All Offered keyed
        → All (λ x. IsPositive x.0) keyed
        → Complete keyed
        → IsBest s chroot flavors (elim ranked [ [] ↦ none | x ∷ _ ↦ some x.1 ])
    pick_head keyed [] e a p every = λ k m h o. elim (Bool-cases (builds_all c flavors m)) [
      | inl b ↦ absurd (
          All-In (λ _. ⊥) (key_of o.slots m, m) keyed
            (unsort_ranked-All (λ _. ⊥) keyed (subst (All (λ _. ⊥)) (sym e) tt)) (every k m h o b))
      | inr b ↦ b
    ]
    pick_head keyed (x ∷ rest) e a p every =
        let offered = (subst (All Offered) e (sort_ranked-All Offered keyed a)).0 in
        let o = offered.0.0 in
        let same = get_key-eq s x.1 o.slots o.slots_used o.slot_free in
        let k_eq : x.0 ≡ key_of o.slots x.1 = ground (arith, offered.1, same) in
        let least =
          unsort_ranked-All (λ y. key_le x.0 y.0 ≡ true) keyed
            (subst (IsLeast x.0) (sym e) (subst HeadIsLeast e (sort_ranked-HeadIsLeast keyed p))) in
        (
          o,
          offered.0.1,
          λ k m h q b. key_le-NotAfter x.1 m o.slots q.slots o.slot_free q.slot_free (
              subst (λ z. key_le z (key_of q.slots m) ≡ true) k_eq
                (All-In (λ y. key_le x.0 y.0 ≡ true) (key_of q.slots m, m) keyed least
                  (every k m h q b))),
        )

    -- In a valid state the search for a node raises nothing. A node that it finds is open and
    -- builds the flavors, and no other such node has a smaller part of its slots in use, or the
    -- same part and a smaller load in whole numbers; where it finds none, no open node builds the
    -- flavors.
    pub get_node_for_flavors_total : Picked s chroot flavors
    unfolding get_node_for_flavors get_open_nodes rank_nodes
    get_node_for_flavors_total =
        let among = open_among_total s v chroot s.nodes (NodupKeys-Entries s.nodes v.table) in
        let fit : All Fits (capable c flavors among.found) =
          capable-All (IsOpen s chroot) flavors among.found among.all_open in
        let l = capable c flavors among.found in
        let keyed =
          with_keys_total s v chroot Fits l (All-weaken Fits (IsOpen s chroot) (λ n f. f.0) l fit)
            fit in
        record {
          node = elim (sort_ranked keyed.keyed) [ [] ↦ none | x ∷ _ ↦ some x.1 ];
          returned = ground (arith, among.returned, keyed.returned);
          best =
              pick_head keyed.keyed (sort_ranked keyed.keyed) refl keyed.sound keyed.positive
                (λ k m h p b.
                  keyed.every m (key_of p.slots m)
                    (In-capable flavors m among.found (among.every k m h p) b)
                    (get_key-eq s m p.slots p.slots_used p.slot_free));
        }
