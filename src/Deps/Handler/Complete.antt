-- ===== src/Deps/Handler/Complete.antt =====
-- rmake/build/dephandler.py (DependencyHandler.resolutionComplete): a trove is to be built, waits
-- for others, is taken as built before, or fails. The cache of results is not modelled.
use rmake.Base.{
  ℕ, Bool, true, false, not, ◌&&◌, ◌||◌, Option, none, some, List, [], ◌∷◌, map, filter, all, elem,
  adjoin, is_empty, ◌==◌, ◌>>=◌, if◌then◌else◌,
}
use rmake.Base.Dict.{lookup, erase}
use rmake.Build.Trove.Changes.{
  trove_buildable, trove_resolved_but_delayed, trove_in_cycle_unresolvable, trove_missing_buildreqs,
}
use rmake.Build.State.{same_set}
use rmake.Deps.Graphs.{Edges, spec, dep, same_bool}
use rmake.Deps.World.{World, JobTup, Resolution}
use rmake.Deps.State.{DepState, hard_dependency_on, buildable_one, get_all_binaries}
use rmake.Deps.Handler.{
  Handler, tell, tell_failed, tell_built, cycle_of, forget_cycle, without, overlap, make_prebuilt,
}
use rmake.Deps.Handler.Resolving.{add_resolution_deps, link_missing_deps}

-- `l.remove(x)` where `x` is in the list
unfoldable pub remove_first : ℕ → List ℕ → List ℕ
remove_first x [] = []
remove_first x (y ∷ ys) = if x == y then ys else y ∷ remove_first x ys

abbrev pub popped : Option (Option (List ℕ)) → Option (List ℕ)
popped none = none
popped (some c) = c

module _ (w : World) (now : ℕ) where
  open w use {graphs, conary, about, is_component, plain_spec}
  open graphs use {Graph, children, delete_edges}
  open conary use {Flavor}

  unfoldable pub binaries : List (JobTup Flavor) → List ℕ
  binaries js = map (λ j. j.binary) js

  unfoldable pub cut_edges : ℕ → Handler Graph → Handler Graph
  cut_edges k h = record h { deps = record h.deps { dep_graph = delete_edges k h.deps.dep_graph } }

  -- The end of a resolution after which the trove is built.
  unfoldable pub make_buildable :
      ℕ → Option (List ℕ) → Resolution Flavor → Handler Graph → Option (Handler Graph)
  make_buildable k cycle r h = do
    h' ← tell w now k trove_buildable (forget_cycle cycle h)
    some (record h' {
      deps =
          buildable_one graphs k
            (record {
              build_reqs = binaries r.build_reqs;
              cross_reqs = binaries r.cross_reqs;
              bootstrap_reqs = binaries r.bootstrap_reqs;
            })
            h'.deps;
    })

  -- Whether a rebuild for something outside of the build is to be left out.
  unfoldable pub ignores_external : ℕ → Handler Graph → Bool
  ignores_external k h =
      let mine = (about k).ignore_external_rebuild_deps in
      if (about k).is_primary
      then mine && (h.deps.objects k).prebuilt_source_matches
      else mine || h.has_primary

  -- The trove was built before, with the requirements `old`.
  unfoldable pub compare_prebuilt :
      ℕ
      → List ℕ
      → Bool
      → Option (List ℕ)
      → Resolution Flavor
      → Handler Graph
      → Option (Handler Graph)
  compare_prebuilt k old fast cycle r h =
      let now_needed = filter is_component (binaries r.build_reqs) in
      let rebuilt = without (get_all_binaries graphs h.deps) h.prebuilt_binaries in
      let same =
        (h.deps.objects k).prebuilt_source_matches
        && same_set now_needed (filter is_component old) in
      let to_build = make_buildable k cycle r h in
      let as_before =
        make_prebuilt w now k cycle (record (cut_edges k h) { allow_fast_resolution = fast }) in
      if ignores_external k h && not (overlap rebuilt now_needed)
      then make_prebuilt w now k cycle h
      else (if same then as_before else to_build)

  -- There is nothing to wait for: the requirements of an earlier build are given, if there are any.
  unfoldable pub settle :
      ℕ
      → Bool
      → Option (List ℕ)
      → Resolution Flavor
      → Option (List ℕ)
      → Handler Graph
      → Option (Handler Graph)
  settle k fast cycle r (some old) h =
      if (about k).is_group
      then make_buildable k cycle r h
      else compare_prebuilt k old fast cycle r h
  settle k fast cycle r none h =
      if h.has_primary
        && not (about k).is_primary
        && is_empty (cycle_of cycle)
        && not (overlap (get_all_binaries graphs h.deps) (binaries r.build_reqs))
      then tell_built w now k [] h
      else make_buildable k cycle r h

  unfoldable pub wait_or_settle :
      ℕ
      → Bool
      → Option (List ℕ)
      → Resolution Flavor
      → List ℕ
      → Handler Graph
      → Option (Handler Graph)
  wait_or_settle k fast cycle r found h =
      if is_empty found
      then settle k fast cycle r (h.deps.objects k).pre_built_requirements h
      else tell w now k (trove_resolved_but_delayed now found) h

  unfoldable pub complete_success :
      ℕ → Bool → Option (List ℕ) → Resolution Flavor → Handler Graph → Option (Handler Graph)
  complete_success k fast cycle r h = do
    (found, u) ← add_resolution_deps w k r.build_reqs r.cross_reqs r.in_cycle h
    wait_or_settle k fast cycle r found (if is_empty found && r.in_cycle then cut_edges k u else u)

  -- The loops over the missing requirements and the edges of the trove: an edge for a dependency
  -- is no triple, which raises a ValueError.
  unfoldable pub harden : ℕ → Bool → ℕ → Edges → DepState Graph → Option (DepState Graph)
  harden k is_cross req [] s = some s
  harden k is_cross req ((child, why) ∷ es) s = elim (why.wants) [
    | dep _ _ ↦ none
    | spec x ↦ harden k is_cross req es (
        if same_bool why.is_cross is_cross && plain_spec x == plain_spec req
        then hard_dependency_on graphs k child why s
        else s)
  ]

  unfoldable pub harden_all : ℕ → List (Bool × ℕ) → DepState Graph → Option (DepState Graph)
  harden_all k [] s = some s
  harden_all k ((is_cross, req) ∷ rs) s = do
    t ← harden k is_cross req (children k s.dep_graph) s
    harden_all k rs t

  abbrev pub specs_of : List (Bool × ℕ) → List ℕ
  specs_of l = map (λ e. e.1) l

  -- A failed resolution in a cycle that has more troves to try.
  unfoldable pub complete_in_cycle :
      ℕ → Option (List ℕ) → Resolution Flavor → Handler Graph → Option (Handler Graph)
  complete_in_cycle k cycle r h =
      if is_empty r.missing_build_reqs then link_missing_deps w now k r.missing_deps cycle h else do
        s ← harden_all k r.missing_build_reqs h.deps
        tell w now k (trove_in_cycle_unresolvable now (specs_of r.missing_build_reqs))
            (record h { deps = s })

  -- Outside of a cycle, or with no trove of the cycle left; one of the two must be missing.
  unfoldable pub complete_failed :
      ℕ → Option (List ℕ) → Resolution Flavor → Handler Graph → Option (Handler Graph)
  complete_failed k cycle r h =
      if not (is_empty r.missing_build_reqs)
      then tell_failed w now k (trove_missing_buildreqs now (specs_of r.missing_build_reqs) true) h
      else (if is_empty r.missing_deps
          then none
          else link_missing_deps w now k r.missing_deps cycle h)

  -- No trove is left in the cycle where `cycle_checked` has all of them.
  unfoldable pub complete_cycle :
      ℕ → Option (List ℕ) → Resolution Flavor → Handler Graph → Option (Handler Graph)
  complete_cycle k none r h = none
  complete_cycle k (some c) r h =
      if all (λ x. elem x h.cycle_checked) c
      then complete_failed k (some c) r h
      else complete_in_cycle k (some c) r h

  unfoldable pub complete_failure :
      ℕ → Option (List ℕ) → Resolution Flavor → Handler Graph → Option (Handler Graph)
  complete_failure k cycle r h =
      if r.in_cycle
      then complete_cycle k cycle r (record h { cycle_checked = adjoin k h.cycle_checked })
      else complete_failed k cycle r h

  -- `resolutionComplete`
  unfoldable pub resolution_complete :
      ℕ → Resolution Flavor → Handler Graph → Option (Handler Graph)
  resolution_complete k r h =
      let cycle = popped (lookup k h.now_resolving) in
      let h' = record h {
        now_resolving = erase k h.now_resolving;
        allow_fast_resolution = false;
        priorities = remove_first k h.priorities;
      } in
      if r.success
      then complete_success k h.allow_fast_resolution cycle r h'
      else complete_failure k cycle r h'
