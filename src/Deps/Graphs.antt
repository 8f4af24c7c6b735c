-- ===== src/Deps/Graphs.antt =====
-- The requirement graph of rmake/build/dephandler.py. An edge goes from a trove to a trove that
-- may satisfy one of its requirements, and carries the requirement. The graph itself is a
-- DirectedGraph of conary.lib.graph, so its type and operations are a parameter.
use rmake.Base.{
  ℕ, ◌+◌, ◌≤◌, ◌≡◌, Bool, true, false, not, ◌&&◌, List, length, any, ◌==◌, ==_self, arith,
}

-- What is required: a build requirement (name, label, flavor), or a dependency of a trove. A
-- specification, a trove and a dependency are known by numbers.
pub data Requirement : Type 0 where
  spec : (build_req : ℕ) → Requirement
  dep : (trove_tup : ℕ) (depset : ℕ) → Requirement

-- The value of an edge: the pair of `isCross` and the requirement.
pub record Reason : Type 0 where
  pub is_cross : Bool
  pub wants : Requirement

abbrev pub same_bool : Bool → Bool → Bool
same_bool true b = b
same_bool false b = not b

abbrev pub same_requirement : Requirement → Requirement → Bool
same_requirement (spec a) (spec b) = a == b
same_requirement (dep a b) (dep c d) = a == c && b == d
same_requirement _ _ = false

-- `reason == buildReq`
abbrev pub same_reason : Reason → Reason → Bool
same_reason a b = same_bool a.is_cross b.is_cross && same_requirement a.wants b.wants

abbrev pub Edges : Type 0
Edges = List (ℕ × Reason)

-- What rMake calls of DirectedGraph.
pub record Graphs : Type 1 where
  pub Graph : Type 0
  pub new : Graph
  pub add_node : ℕ → Graph → Graph
  pub add_edge : ℕ → ℕ → Reason → Graph → Graph
  pub delete : ℕ → Graph → Graph
  pub delete_edges : ℕ → Graph → Graph
  -- `trove in graph`, and the test that there are no nodes
  pub contains : ℕ → Graph → Bool
  pub is_blank : Graph → Bool
  -- `getChildren(trove, withEdges=True)` and `getParents(trove, withEdges=True)`
  pub children : ℕ → Graph → Edges
  pub parents : ℕ → Graph → Edges
  -- `getLeaves()`, and `getStronglyConnectedGraph().getLeaves()`
  pub leaves : Graph → List ℕ
  pub leaf_cycles : Graph → List (List ℕ)
  -- The time at which `doDFS(start)` finishes with a node.
  pub finish_time : ℕ → Graph → ℕ → ℕ
  -- The number of edges.
  pub size : Graph → ℕ

-- The edge with that end and that reason is listed.
abbrev pub has : ℕ → Reason → Edges → Bool
has k q l = any (λ e. e.0 == k && same_reason e.1 q) l

module _ (m : Graphs) where
  open m use {Graph, delete, children, parents, size}

  -- An edge from `r` to `p` for the reason `q`.
  abbrev pub needs : Graph → ℕ → Reason → ℕ → Bool
  needs g r q p = has p q (children r g)

-- What the handler relies on: children and parents are two views of the same edges, and deleting
-- a node takes its edges with it.
pub record GraphLaws (m : Graphs) : Type 0 where
  pub parents_lem : (g : m.Graph) (r p : ℕ) (q : Reason) → has r q (m.parents p g) ≡ needs m g r q p
  pub delete_lem :
      (g : m.Graph) (k r p : ℕ) (q : Reason)
      → needs m (m.delete k g) r q p ≡ (not (r == k) && not (p == k) && needs m g r q p)
  pub added : (g : m.Graph) (r p : ℕ) (q : Reason) → needs m (m.add_edge r p q g) r q p ≡ true
  pub other_edges :
      (g : m.Graph) (j k r p : ℕ) (q w : Reason)
      → (r == j && p == k) ≡ false
      → needs m (m.add_edge j k w g) r q p ≡ needs m g r q p
  pub fewer : (g : m.Graph) (k : ℕ) → length (m.parents k g) + m.size (m.delete k g) ≤ m.size g

pub same_requirement_self : (a : Requirement) → same_requirement a a ≡ true
same_requirement_self (spec a) = ==_self a
same_requirement_self (dep a b) = ground (arith, ==_self a, ==_self b)

pub same_reason_self : (a : Reason) → same_reason a a ≡ true
same_reason_self a = ground (arith, same_requirement_self a.wants)

same_requirement→eq : (a b : Requirement) → same_requirement a b ≡ true → a ≡ b
same_requirement→eq (spec a) (spec b) h = ground arith
same_requirement→eq (spec a) (dep c d) h = absurd (ground arith)
same_requirement→eq (dep a b) (spec c) h = absurd (ground arith)
same_requirement→eq (dep a b) (dep c d) h = ground arith

pub same_reason→eq : (a b : Reason) → same_reason a b ≡ true → a ≡ b
same_reason→eq a b h = ground (arith, same_requirement→eq a.wants b.wants)
