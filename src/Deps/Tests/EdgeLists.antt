-- ===== src/Deps/Tests/EdgeLists.antt =====
-- A graph as the lists of its nodes and of its edges: what the handler relies on can be met.
use rmake.Base.{
  ℕ, ◌+◌, ◌≤◌, ◌≡◌, refl, not, ◌&&◌, ◌||◌, List, [], ◌∷◌, map, filter, length, elem, adjoin,
  discard, is_empty, ◌==◌, ==_self, arith, if◌then◌else◌,
}
use rmake.Deps.Graphs.{Reason, Edges, Graphs, GraphLaws, has, same_reason_self}

abbrev pub Links : Type 0
Links = List (ℕ × ℕ × Reason)

abbrev out_of : ℕ → Links → Edges
out_of k [] = []
out_of k ((a, b, q) ∷ l) = let rest = out_of k l in if a == k then (b, q) ∷ rest else rest

abbrev into : ℕ → Links → Edges
into k [] = []
into k ((a, b, q) ∷ l) = let rest = into k l in if b == k then (a, q) ∷ rest else rest

abbrev drop_node : ℕ → Links → Links
drop_node k [] = []
drop_node k ((a, b, q) ∷ l) =
    let rest = drop_node k l in if a == k || b == k then rest else (a, b, q) ∷ rest

abbrev drop_from : ℕ → Links → Links
drop_from k [] = []
drop_from k ((a, b, q) ∷ l) = let rest = drop_from k l in if a == k then rest else (a, b, q) ∷ rest

abbrev ends_of : List ℕ → Links → List ℕ
ends_of ks l = filter (λ k. is_empty (out_of k l)) ks

abbrev pub edge_lists : Graphs
edge_lists = record {
  Graph = List ℕ × Links;
  new = ([], []);
  add_node = λ k g. (adjoin k g.0, g.1);
  add_edge = λ a b q g. (adjoin a (adjoin b g.0), (a, b, q) ∷ g.1);
  delete = λ k g. (discard k g.0, drop_node k g.1);
  delete_edges = λ k g. (g.0, drop_from k g.1);
  contains = λ k g. elem k g.0;
  is_blank = λ g. is_empty g.0;
  children = λ k g. out_of k g.1;
  parents = λ k g. into k g.1;
  leaves = λ g. ends_of g.0 g.1;
  leaf_cycles = λ g. map (λ k. k ∷ []) (ends_of g.0 g.1);
  finish_time = λ k g j. j;
  size = λ g. length g.1;
}

parents_eq : (l : Links) (r p : ℕ) (q : Reason) → has r q (into p l) ≡ has p q (out_of r l)
parents_eq [] r p q = refl
parents_eq ((a, b, w) ∷ l) r p q = ground (arith, parents_eq l r p q)

drop_node_eq :
    (l : Links) (k r p : ℕ) (q : Reason)
    → has p q (out_of r (drop_node k l)) ≡ (not (r == k) && not (p == k) && has p q (out_of r l))
drop_node_eq [] k r p q = ground arith
drop_node_eq ((a, b, w) ∷ l) k r p q = ground (arith, drop_node_eq l k r p q)

fewer_lem : (l : Links) (k : ℕ) → length (into k l) + length (drop_node k l) ≤ length l
fewer_lem [] k = omega arith
fewer_lem ((a, b, w) ∷ l) k = ground (arith, fewer_lem l k)

pub edge_lists-GraphLaws : GraphLaws edge_lists
edge_lists-GraphLaws = record {
  parents_lem = λ g r p q. parents_eq g.1 r p q;
  delete_lem = λ g k r p q. drop_node_eq g.1 k r p q;
  added = λ g r p q. ground (arith, ==_self r, ==_self p, same_reason_self q);
  other_edges = λ g j k r p q w h. ground (arith, h);
  fewer = λ g k. fewer_lem g.1 k;
}
