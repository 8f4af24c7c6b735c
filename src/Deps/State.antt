-- ===== src/Deps/State.antt =====
-- rmake/build/dephandler.py (DependencyBasedBuildState): the state of a build with what its troves
-- require of one another. `objects` are the BuildTrove objects that the code holds references to.

pub mod Requirements
pub mod Sources
pub mod Merging
pub mod Binaries
use rmake.Base.{
  ℕ, Bool, true, false, not, ◌||◌, ◌&&◌, Option, none, some, List, [], ◌∷◌, ◌++◌, map, any, filter,
  elem, adjoin, is_empty, ◌==◌, ltb, ◌>>=◌, if◌then◌else◌,
}
use rmake.Base.Dict.{Dict, lookup, insert, erase, contains, values}
use rmake.Build.Trove.{BuildTrove, is_built}
use rmake.Build.State.{BuildState, keys_of, job_finished}
use rmake.Deps.Graphs.{Graphs, Reason, Edges, same_reason, same_bool}

pub record Reqs : Type 0 where
  pub build_reqs : List ℕ
  pub cross_reqs : List ℕ
  pub bootstrap_reqs : List ℕ

pub record DepState (Graph : Type 0) : Type 0 where
  pub dumb_mode : Bool
  pub troves_by_package : Dict (List ℕ)
  pub build_req_troves : Dict Reqs
  pub dep_graph : Graph
  pub hard_dep_graph : Graph
  pub built_troves : Dict ℕ
  pub rejected_deps : Dict (List (ℕ × Bool))
  pub disallowed : List ℕ
  pub has_primary_troves : Bool
  pub base : BuildState
  pub objects : ℕ → BuildTrove

abbrev listed : Option (List (ℕ × Bool)) → List (ℕ × Bool)
listed none = []
listed (some l) = l

abbrev pub packaged : Option (List ℕ) → List ℕ
packaged none = []
packaged (some l) = l

-- The loop of `troveBuilt` with the entries found so far: `none` where it returns early. A
-- binary is known by a number, and `nbf` gives its name, branch and flavor.
unfoldable pub new_entries : (ℕ → ℕ) → Dict ℕ → List ℕ → Dict ℕ → Option (Dict ℕ)
new_entries nbf old [] found = some found
new_entries nbf old (b ∷ bs) found =
    let rest = new_entries nbf old bs (insert (nbf b) b found) in
    if contains (nbf b) old then none else rest

-- `d.update(e)`
unfoldable pub update_all : Dict ℕ → Dict ℕ → Dict ℕ
update_all d [] = d
update_all d ((k, v) ∷ e) = update_all (insert k v d) e

-- `getSolutionsForBuildReq`
unfoldable pub solutions : Reason → Edges → List ℕ
solutions req edges = map (λ e. e.0) (filter (λ e. same_reason e.1 req) edges)

unfoldable pub first_entry : Dict Reqs → Option (ℕ × Reqs)
first_entry [] = none
first_entry ((k, r) ∷ d) = some (k, r)

unfoldable pub binaries_of : (ℕ → Bool) → (ℕ → BuildTrove) → List ℕ → List ℕ
binaries_of test objects [] = []
binaries_of test objects (k ∷ ks) =
    (if test k then (objects k).built_troves else []) ++ binaries_of test objects ks

-- A change of one object.
abbrev pub change : ℕ → (BuildTrove → BuildTrove) → (ℕ → BuildTrove) → ℕ → BuildTrove
change k f objects j = if j == k then f (objects j) else objects j

unfoldable pub update_object :
    {G : Type 0} → ℕ → (BuildTrove → BuildTrove) → DepState G → DepState G
update_object k f s = record s { objects = change k f s.objects }

module _ (m : Graphs) where
  open m use {Graph, add_edge, delete, contains as in_graph, children, parents, leaves}

  -- `dependsOn` and `hardDependencyOn`
  unfoldable pub depends_on : ℕ → ℕ → Reason → DepState Graph → DepState Graph
  depends_on trove prov req s =
      if s.dumb_mode || trove == prov
      then s
      else record s { dep_graph = add_edge trove prov req s.dep_graph }

  unfoldable pub hard_dependency_on : ℕ → ℕ → Reason → DepState Graph → DepState Graph
  hard_dependency_on trove prov req s =
      if s.dumb_mode || trove == prov
      then s
      else record s { hard_dep_graph = add_edge trove prov req s.hard_dep_graph }

  unfoldable pub has_dependency_on : ℕ → ℕ → DepState Graph → Bool
  has_dependency_on trove prov s =
      in_graph trove s.dep_graph && any (λ e. e.0 == prov) (children trove s.dep_graph)

  unfoldable pub has_hard_dependency : ℕ → DepState Graph → Bool
  has_hard_dependency trove s =
      in_graph trove s.hard_dep_graph && not (elem trove (leaves s.hard_dep_graph))

  unfoldable pub reject_dep : ℕ → ℕ → Bool → DepState Graph → DepState Graph
  reject_dep trove prov is_cross s = record s {
    rejected_deps =
        insert trove (listed (lookup trove s.rejected_deps) ++ (prov, is_cross) ∷ [])
          s.rejected_deps;
  }

  -- The answer, and the state with the entry that `setdefault` makes.
  unfoldable pub is_rejected_dep : ℕ → ℕ → Bool → DepState Graph → Bool × DepState Graph
  is_rejected_dep trove prov is_cross s =
      let l = listed (lookup trove s.rejected_deps) in
      (
        any (λ e. e.0 == prov && same_bool e.1 is_cross) l,
        record s { rejected_deps = insert trove l s.rejected_deps },
      )

  unfoldable pub disallow : ℕ → DepState Graph → DepState Graph
  disallow trove s = record s { disallowed = adjoin trove s.disallowed }

  -- `trovePrepared`
  unfoldable pub prepared_one : ℕ → DepState Graph → DepState Graph
  prepared_one trove s = record s {
    build_req_troves = erase trove s.build_req_troves;
    dep_graph = delete trove s.dep_graph;
    hard_dep_graph = delete trove s.hard_dep_graph;
  }

  unfoldable pub built_one : (ℕ → ℕ) → ℕ → List ℕ → DepState Graph → DepState Graph
  built_one nbf trove binaries s =
      let s' = prepared_one trove s in
      elim (new_entries nbf s.built_troves binaries []) [
        | none ↦ disallow trove s'
        | some found ↦ record s' { built_troves = update_all s.built_troves found }
      ]

  unfoldable pub get_all_binaries : DepState Graph → List ℕ
  get_all_binaries s = values s.built_troves

  -- `getCrossCompiledBinaries` and `getNonCrossCompiledBinaries`
  unfoldable pub compiled_binaries : (ℕ → Bool) → DepState Graph → List ℕ
  compiled_binaries wanted s =
      binaries_of (λ k. is_built (s.objects k) && wanted k && not (elem k s.disallowed)) s.objects
        (keys_of s.base.troves)

  -- `troveFailed`
  unfoldable pub failed_one : ℕ → DepState Graph → DepState Graph
  failed_one trove s = record s {
    dep_graph = delete trove s.dep_graph;
    build_req_troves = erase trove s.build_req_troves;
  }

  -- `troveBuildable`
  unfoldable pub buildable_one : ℕ → Reqs → DepState Graph → DepState Graph
  buildable_one trove reqs s = record s { build_req_troves = insert trove reqs s.build_req_troves }

  unfoldable pub has_cross_requirements : ℕ → DepState Graph → Bool
  has_cross_requirements trove s = any (λ e. e.1.is_cross) (children trove s.dep_graph)

  unfoldable pub has_cross_requirers : ℕ → DepState Graph → Bool
  has_cross_requirers trove s = any (λ e. e.1.is_cross) (parents trove s.dep_graph)

  unfoldable pub has_buildable_troves : DepState Graph → Bool
  has_buildable_troves s = not (is_empty s.build_req_troves)

  unfoldable pub get_build_req_troves : ℕ → DepState Graph → Option Reqs
  get_build_req_troves trove s = lookup trove s.build_req_troves

  -- `popBuildableTrove`: an IndexError, `none`, where there is none.
  unfoldable pub pop_buildable : DepState Graph → Option ((ℕ × Reqs) × DepState Graph)
  pop_buildable s = do
    e ← first_entry s.build_req_troves
    some (e, record s { build_req_troves = erase e.0 s.build_req_troves })

  unfoldable pub get_troves_by_package : ℕ → DepState Graph → List ℕ
  get_troves_by_package pkg s = packaged (lookup pkg s.troves_by_package)

  unfoldable pub more_to_do : DepState Graph → Bool
  more_to_do s = not (job_finished s.base)

  -- `areRelated`: one is reached from the other.
  unfoldable pub are_related : ℕ → ℕ → DepState Graph → Option Bool
  are_related a b s =
      let from_a = m.finish_time a s.dep_graph in
      let from_b = m.finish_time b s.dep_graph in
      if a == b then none else some (ltb (from_a b) (from_a a) || ltb (from_b a) (from_b b))
