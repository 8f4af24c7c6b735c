-- ===== src/Deps/State/Sources.antt =====
-- rmake/build/dephandler.py (DependencyBasedBuildState): the start of a build, and the troves that
-- turn out to be duplicates of others.
use rmake.Base.{
  ℕ, Bool, true, false, not, ◌&&◌, ◌||◌, Option, some, List, [], ◌∷◌, ◌++◌, map, filter, ◌==◌,
  ◌>>=◌, if◌then◌else◌,
}
use rmake.Base.Dict.{Dict, lookup, insert, erase}
use rmake.Build.Trove.{BuildTrove, prep, is_failed, is_built}
use rmake.Build.Trove.Changes.{trove_duplicate}
use rmake.Build.State.{set_state, new_state}
use rmake.Deps.Graphs.{Graphs, Edges}
use rmake.Deps.World.{World}
use rmake.Deps.State.{DepState, depends_on, disallow, packaged, update_object}
use rmake.Deps.State.Requirements.{add_reqs, add_loaded_specs, add_delayed_requirements}

module _ (m : Graphs) where
  open m use {Graph, children, parents, delete}

  -- The two loops of `troveDuplicate`; `dependsOn` is called as the code calls it.
  unfoldable pub link_children : ℕ → ℕ → Edges → DepState Graph → DepState Graph
  link_children matched dup [] s = s
  link_children matched dup ((child, req) ∷ es) s =
      link_children matched dup es (depends_on m matched dup req s)

  unfoldable pub link_parents : ℕ → Edges → DepState Graph → DepState Graph
  link_parents matched [] s = s
  link_parents matched ((parent, req) ∷ es) s =
      link_parents matched es (depends_on m parent matched req s)

  unfoldable pub link_duplicate : ℕ → ℕ → DepState Graph → DepState Graph
  link_duplicate dup matched s =
      let t = link_children matched dup (children dup s.dep_graph) s in
      link_parents matched (parents dup t.dep_graph) t

  -- `troveDuplicate`
  unfoldable pub duplicate_one : ℕ → ℕ → DepState Graph → DepState Graph
  duplicate_one dup matched s =
      let linked = if is_built (s.objects matched) then s else link_duplicate dup matched s in
      let t = disallow m dup linked in
      record t {
        build_req_troves = erase dup t.build_req_troves;
        dep_graph = delete dup t.dep_graph;
      }

is_prep_only : BuildTrove → Bool
is_prep_only t = elim t.build_type [ prep ↦ true | _ ↦ false ]

-- The groups by name and version, and `groups.setdefault((n, v), []).append(trove)`.
abbrev Groups : Type 0
Groups = List ((ℕ × ℕ) × List ℕ)

add_to_group : ℕ → ℕ → ℕ → Groups → Groups
add_to_group n v trove [] = ((n, v), trove ∷ []) ∷ []
add_to_group n v trove ((k, l) ∷ gs) =
    if k.0 == n && k.1 == v then (k, l ++ trove ∷ []) ∷ gs else (k, l) ∷ add_to_group n v trove gs

module _ (w : World) where
  open w use {graphs, about}
  open graphs use {Graph, add_node}

  add_nodes : List ℕ → DepState Graph → DepState Graph
  add_nodes [] s = s
  add_nodes (k ∷ ks) s = add_nodes ks (record s { dep_graph = add_node k s.dep_graph })

  add_packages : ℕ → List ℕ → Dict (List ℕ) → Dict (List ℕ)
  add_packages trove [] d = d
  add_packages trove (p ∷ ps) d =
      add_packages trove ps (insert p (packaged (lookup p d) ++ trove ∷ []) d)

  -- `trovesByPackage`
  by_package : List ℕ → DepState Graph → DepState Graph
  by_package [] s = s
  by_package (k ∷ ks) s = by_package ks (
      if is_prep_only (s.objects k)
      then s
      else record s { troves_by_package = add_packages k (about k).packages s.troves_by_package })

  -- One round of the loop over the source troves.
  add_source : ℕ → DepState Graph × Groups → Option (DepState Graph × Groups)
  add_source k (s, groups) =
      let r = about k in
      let s' = record s { has_primary_troves = r.is_primary || s.has_primary_troves } in
      if is_prep_only (s.objects k) then some (s', groups) else do
        a ← add_reqs w k false r.build_specs s'
        b ← add_reqs w k true r.cross_specs a
        d ← add_loaded_specs w k r.loaded_specs b
        some (
          add_delayed_requirements w k r.delayed_requirements d,
          if r.is_group then add_to_group r.name r.version k groups else groups,
        )

  add_sources : List ℕ → DepState Graph × Groups → Option (DepState Graph × Groups)
  add_sources [] s = some s
  add_sources (k ∷ ks) s = do t ← add_source k s; add_sources ks t

  -- The other troves of a group are built with the first one.
  merge_group : ℕ → List ℕ → DepState Graph → Option (DepState Graph)
  merge_group head [] s = some s
  merge_group head (k ∷ ks) s = do
    let t = update_object k (λ x. (trove_duplicate [] x).0) s
    let u = duplicate_one graphs k head t
    b ← set_state k (u.objects k).state u.base
    merge_group head ks (record u { base = b })

  merge_groups : Groups → DepState Graph → Option (DepState Graph)
  merge_groups [] s = some s
  merge_groups ((_, []) ∷ gs) s = merge_groups gs s
  merge_groups ((_, head ∷ ks) ∷ gs) s = do t ← merge_group head ks s; merge_groups gs t

  -- `addSourceTrovesToGraph`
  unfoldable pub add_source_troves_to_graph : List ℕ → DepState Graph → Option (DepState Graph)
  unfolding add_nodes by_package add_sources merge_groups add_source is_prep_only add_packages
      add_to_group merge_group
  add_source_troves_to_graph sources s = do
    let live = filter (λ k. not (is_failed (s.objects k))) sources
    (t, groups) ← add_sources live (by_package live (add_nodes live s), [])
    merge_groups groups t

  -- `DependencyBasedBuildState.__init__`
  unfoldable pub new_dep_state :
      List BuildTrove → List BuildTrove → (ℕ → BuildTrove) → Bool → Option (DepState Graph)
  new_dep_state sources specials objects dumb =
      add_source_troves_to_graph (map (λ t. t.key) sources) (record {
        dumb_mode = dumb;
        troves_by_package = [];
        build_req_troves = [];
        dep_graph = graphs.new;
        hard_dep_graph = graphs.new;
        built_troves = [];
        rejected_deps = [];
        disallowed = [];
        has_primary_troves = false;
        base = new_state (sources ++ specials);
        objects = objects;
      })
