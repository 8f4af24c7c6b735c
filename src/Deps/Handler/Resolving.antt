-- ===== src/Deps/Handler/Resolving.antt =====
-- rmake/build/dephandler.py (DependencyHandler): the links that the result of a resolution adds to
-- the requirement graph, for packages that are still to be built and for what is missing.
use rmake.Base.{
  ℕ, Bool, true, false, not, ◌&&◌, ◌||◌, Option, none, some, List, [], ◌∷◌, ◌++◌, map, filter, elem,
  adjoin, is_empty, ◌==◌, ◌>>=◌, if◌then◌else◌,
}
use rmake.Base.Dict.{insert, contains}
use rmake.Flavors.{is_cross_compiler}
use rmake.Build.State.{is_unbuilt_key}
use rmake.Build.Trove.Changes.{trove_missing_dependencies, trove_unresolvable_deps_reset}
use rmake.Deps.Graphs.{Reason, dep, same_bool}
use rmake.Deps.World.{World, JobTup, MissingDep}
use rmake.Deps.State.{
  DepState, depends_on, hard_dependency_on, has_dependency_on, is_rejected_dep, are_related,
  get_troves_by_package,
}
use rmake.Deps.State.Requirements.{has_target_arch, is_cross_compiled, flavors_match}
use rmake.Deps.Handler.{Handler, tell, tell_failed, cycle_of, forget_cycle, without}

abbrev pub holds_true : Option Bool → Bool
holds_true none = false
holds_true (some b) = b

module _ (w : World) where
  open w use {graphs, conary, about}
  open graphs use {Graph}
  open conary use {Flavor}

  -- The end of the round of `_addResolutionDeps` for one provider: whether it was found.
  unfoldable pub link_provider :
      ℕ → JobTup Flavor → Bool → Bool → ℕ → DepState Graph → Option (Bool × DepState Graph)
  link_provider trv job is_cross in_cycle prov s = do
    let why : Reason = record { is_cross = is_cross; wants = dep trv job.name }
    near ←
        if in_cycle then flavors_match w (about trv).flavor job.flavor none is_cross else some true
    some (
        if not near
        then (let t = hard_dependency_on graphs trv prov why s in
            (
              true,
              if has_dependency_on graphs trv prov t then t else depends_on graphs trv prov why t,
            ))
        else (if holds_true (are_related graphs trv prov s)
            then (false, s)
            else (true, depends_on graphs trv prov why s)))

  -- The round itself, guard by guard.
  unfoldable pub try_provider :
      ℕ → JobTup Flavor → Bool → Bool → ℕ → DepState Graph → Option (Bool × DepState Graph)
  try_provider trv job is_cross in_cycle prov s =
      if not (is_unbuilt_key s.base prov)
        || prov == trv
        || not is_cross && has_target_arch w trv && is_cross_compiled w prov
        || not (
            same_bool (is_cross_compiler conary job.flavor)
              (is_cross_compiler conary (about prov).flavor))
      then some (false, s)
      else do
        fits ← flavors_match w (about trv).flavor (about prov).flavor none is_cross
        let (rejected, t) = is_rejected_dep graphs trv prov is_cross s
        if not fits
            then some (false, s)
            else (if rejected
                then some (false, t)
                else link_provider trv job is_cross in_cycle prov t)

  -- The first provider that is found ends the loop.
  unfoldable pub try_providers :
      ℕ
      → JobTup Flavor
      → Bool
      → Bool
      → List ℕ
      → List ℕ × DepState Graph
      → Option (List ℕ × DepState Graph)
  try_providers trv job is_cross in_cycle [] acc = some acc
  try_providers trv job is_cross in_cycle (p ∷ ps) (found, s) = do
    (hit, t) ← try_provider trv job is_cross in_cycle p s
    elim hit [
      | true ↦ some (adjoin p found, t)
      | false ↦ try_providers trv job is_cross in_cycle ps (found, t)
    ]

  unfoldable pub try_jobs :
      ℕ
      → List (JobTup Flavor)
      → Bool
      → Bool
      → List ℕ × DepState Graph
      → Option (List ℕ × DepState Graph)
  try_jobs trv [] is_cross in_cycle acc = some acc
  try_jobs trv (j ∷ js) is_cross in_cycle (found, s) = do
    acc ←
        if contains j.binary s.built_troves
        then some (found, s)
        else try_providers trv j is_cross in_cycle (get_troves_by_package graphs j.pkg s) (found, s)
    try_jobs trv js is_cross in_cycle acc

  -- `_addResolutionDeps`: the troves to wait for, which are given priority.
  unfoldable pub add_resolution_deps :
      ℕ
      → List (JobTup Flavor)
      → List (JobTup Flavor)
      → Bool
      → Handler Graph
      → Option (List ℕ × Handler Graph)
  add_resolution_deps trv jobs cross_jobs in_cycle h = if h.deps.dumb_mode then some ([], h) else do
    acc ← try_jobs trv jobs false in_cycle ([], h.deps)
    (found, s) ← try_jobs trv cross_jobs true in_cycle acc
    some (found, record h { deps = s; priorities = h.priorities ++ found })

  -- The inner loops of `_linkMissingDeps`; the values of hard edges are never read, and are those of
  -- the edges of the other graph here. With no provider of a package the method returns: `stuck`.
  pub data Linked : Type 0 where
    stuck : MissingDep → DepState Graph → Linked
    linked : List ℕ → DepState Graph → Linked

  unfoldable pub link_providers :
      ℕ → MissingDep → List ℕ → List ℕ → DepState Graph → List ℕ × DepState Graph
  link_providers trv d [] added s = (added, s)
  link_providers trv d (p ∷ ps) added s =
      let why : Reason = record { is_cross = d.is_cross; wants = dep trv d.depset } in
      link_providers trv d ps (adjoin p added)
        (hard_dependency_on graphs trv p why (depends_on graphs trv p why s))

  unfoldable pub link_needed : ℕ → MissingDep → List ℕ → List ℕ → DepState Graph → Linked
  link_needed trv d [] added s = linked added s
  link_needed trv d (p ∷ ps) added s =
      let providers = filter (λ x. not (x == trv)) (get_troves_by_package graphs p s) in
      let next = link_providers trv d providers added s in
      let rest = link_needed trv d ps next.0 next.1 in
      if is_empty providers then stuck d s else rest

  unfoldable pub link_missing : ℕ → List MissingDep → List ℕ → DepState Graph → Linked
  link_missing trv [] added s = linked added s
  link_missing trv (d ∷ ds) added s = elim (link_needed trv d d.needed added s) [
    | stuck d' t ↦ stuck d' t
    | linked added' t ↦ link_missing trv ds added' t
  ]

  unfoldable pub missing_tups : List MissingDep → List ℕ
  missing_tups ds = map (λ d. w.tup d.trove_tup d.depset) ds

  -- The trove is delayed, and may be resolved again once something is built.
  unfoldable pub reset_deps : ℕ → ℕ → List MissingDep → Handler Graph → Option (Handler Graph)
  reset_deps now trv missing h =
      tell w now trv (trove_unresolvable_deps_reset now (missing_tups missing))
        (record h { delayed = insert trv (missing_tups missing) h.delayed })

  unfoldable pub fail_missing : ℕ → ℕ → List MissingDep → Handler Graph → Option (Handler Graph)
  fail_missing now trv missing h =
      tell_failed w now trv (trove_missing_dependencies now (missing_tups missing) true) h

  -- What follows the loops: in a cycle all of whose new providers were checked, the trove fails.
  unfoldable pub after_links :
      ℕ → ℕ → List MissingDep → Option (List ℕ) → Linked → Handler Graph → Option (Handler Graph)
  after_links now trv missing cycle (stuck d s) h =
      fail_missing now trv (d ∷ []) (record h { deps = s })
  after_links now trv missing cycle (linked added s) h =
      let h' = record h { deps = s } in
      let checked = filter (λ c. elem c h.cycle_checked) (cycle_of cycle) in
      if is_empty (cycle_of cycle)
      then reset_deps now trv missing h'
      else (if is_empty (without added checked)
          then fail_missing now trv missing h'
          else reset_deps now trv missing (forget_cycle cycle h'))

  -- `_linkMissingDeps`
  unfoldable pub link_missing_deps :
      ℕ → ℕ → List MissingDep → Option (List ℕ) → Handler Graph → Option (Handler Graph)
  link_missing_deps now trv missing cycle h =
      after_links now trv missing cycle (link_missing trv missing [] h.deps) h
