-- ===== src/Deps/Handler/Choosing.antt =====
-- rmake/build/dephandler.py (DependencyHandler.getNextResolveJob): which trove is resolved next.
-- Troves compare as their keys do. There is no cache of results.

use rmake.Base.{
  ℕ, suc, min, Bool, true, false, not, ◌&&◌, ◌||◌, Option, none, some, List, [], ◌∷◌, map, filter,
  elem, length, is_empty, ltb, leb, ◌==◌, ◌>>=◌, if◌then◌else◌,
}
use rmake.Base.Dict.{insert, contains}
use rmake.Build.Trove.{is_prebuilt, needs_buildreqs}
use rmake.Deps.World.{World, JobTup}
use rmake.Deps.State.{
  has_hard_dependency, has_cross_requirements, has_cross_requirers, compiled_binaries,
  get_all_binaries,
}
use rmake.Deps.State.Requirements.{has_target_arch, is_cross_compiled}
use rmake.Deps.Handler.{Handler, make_prebuilt, build_has_occurred}
use rmake.Deps.Handler.Resolving.{add_resolution_deps}

pub record ResolveJob : Type 0 where
  pub trove : ℕ
  pub built_troves : List ℕ
  pub cross_troves : List ℕ
  pub in_cycle : Bool

-- Lists and pairs compare from the front.
unfoldable pub lex_le : List ℕ → List ℕ → Bool
lex_le [] ys = true
lex_le (x ∷ xs) [] = false
lex_le (x ∷ xs) (y ∷ ys) = ltb x y || x == y && lex_le xs ys

unfoldable pub insert_by {ℓ} : {A : Type ℓ} → (A → A → Bool) → A → List A → List A
insert_by le x [] = x ∷ []
insert_by le x (y ∷ ys) = if le x y then x ∷ y ∷ ys else y ∷ insert_by le x ys

unfoldable pub sort_by {ℓ} : {A : Type ℓ} → (A → A → Bool) → List A → List A
sort_by le [] = []
sort_by le (x ∷ xs) = insert_by le x (sort_by le xs)

-- `l.index(x)`, and the length where `x` is not in the list
unfoldable pub index_of : ℕ → List ℕ → ℕ
index_of x [] = 0
index_of x (y ∷ ys) = if x == y then 0 else suc (index_of x ys)

unfoldable pub least : List ℕ → ℕ
least [] = 0
least (x ∷ []) = x
least (x ∷ y ∷ ys) = min x (least (y ∷ ys))

abbrev pub same_list : List ℕ → List ℕ → Bool
same_list xs ys = lex_le xs ys && lex_le ys xs

-- The method returns None.
abbrev pub no_job : {G : Type 0} → Handler G → Option ResolveJob × Handler G
no_job h = (none, h)

module _ (w : World) (now : ℕ) where
  open w use {graphs, conary, about}
  open graphs use {Graph, children, parents, leaf_cycles, is_blank}
  open conary use {Flavor}

  -- `getPriority`: of two troves at one place, the one built later goes first.
  unfoldable pub goes_before : Handler Graph → ℕ → ℕ → Bool
  goes_before h a b =
      let i = index_of a h.priorities in
      let j = index_of b h.priorities in
      ltb i j || i == j && leb (h.deps.objects b).pre_built_time (h.deps.objects a).pre_built_time

  unfoldable pub is_candidate : Handler Graph → ℕ → Bool
  is_candidate h x =
      needs_buildreqs (h.deps.objects x)
      && not (contains x h.now_resolving)
      && not (elem x h.cycle_checked)
      && not (contains x h.delayed)
      && not (has_hard_dependency graphs x h.deps)

  -- `_filterTroves`
  unfoldable pub filter_troves : Handler Graph → List ℕ → List ℕ
  filter_troves h l = filter (is_candidate h) l

  -- The job, once the trove has to be resolved.
  unfoldable pub make_job :
      ℕ → Bool → Option (List ℕ) → Handler Graph → Option ResolveJob × Handler Graph
  make_job k in_cycle cycle h =
      let targeted = has_target_arch w k in
      (
        some (record {
          trove = k;
          built_troves =
              if h.deps.dumb_mode
              then []
              else (if targeted
                  then compiled_binaries graphs (λ x. not (is_cross_compiled w x)) h.deps
                  else get_all_binaries graphs h.deps);
          cross_troves =
              if not h.deps.dumb_mode && targeted
              then compiled_binaries graphs (is_cross_compiled w) h.deps
              else [];
          in_cycle = in_cycle;
        }),
        record h { now_resolving = insert k cycle h.now_resolving },
      )

  -- What `getPrebuiltRequirements` gives as jobs of the resolver is the parameter `reqs`.
  unfoldable pub fast_rebuild_job :
      List (JobTup Flavor)
      → ℕ
      → Bool
      → Option (List ℕ)
      → Handler Graph
      → Option (Option ResolveJob × Handler Graph)
  fast_rebuild_job reqs k in_cycle cycle h = do
    (found, h') ← add_resolution_deps w k reqs [] in_cycle h
    if is_empty found
        then (do u ← make_prebuilt w now k cycle h'; some (no_job u))
        else some (no_job h')

  -- `_getResolveJob`
  unfoldable pub get_resolve_job :
      (ℕ → List (JobTup Flavor))
      → ℕ
      → Bool
      → Option (List ℕ)
      → Handler Graph
      → Option (Option ResolveJob × Handler Graph)
  get_resolve_job reqs k in_cycle cycle h =
      let t = h.deps.objects k in
      let occurred = build_has_occurred w now h in
      let prebuilt = make_prebuilt w now k cycle h >>= λ u. some (no_job u) in
      if not (is_prebuilt t)
      then some (make_job k in_cycle cycle h)
      else (if h.has_primary && not (about k).is_primary && occurred
          then prebuilt
          else (if not t.prebuilt_source_matches
              then some (make_job k in_cycle cycle h)
              else (if (about k).ignore_all_rebuild_deps
                    || (about k).ignore_external_rebuild_deps && not occurred
                  then prebuilt
                  else (if t.fast_rebuild && h.allow_fast_resolution
                      then fast_rebuild_job (reqs k) k in_cycle cycle h
                      else some (make_job k in_cycle cycle h)))))

  -- `_cycleNodeOrder`, raised by one
  unfoldable pub cycle_order : Handler Graph → ℕ → ℕ
  cycle_order h k =
      if has_cross_requirers graphs k h.deps && not (has_cross_requirements graphs k h.deps)
      then 0
      else suc
          (least (map (λ e. length (children e.0 h.deps.dep_graph)) (parents k h.deps.dep_graph)))

  unfoldable pub cycle_key : Handler Graph → ℕ → List ℕ
  cycle_key h k =
      let t = h.deps.objects k in
      (if is_prebuilt t then 0 else 1) ∷ t.pre_built_time ∷ cycle_order h k ∷ k ∷ []

  -- `_getResolveJobFromCycle`
  unfoldable pub get_job_from_cycle :
      (ℕ → List (JobTup Flavor))
      → List ℕ
      → Handler Graph
      → Option (Option ResolveJob × Handler Graph)
  get_job_from_cycle reqs cycle h =
      elim (sort_by (λ a b. lex_le (cycle_key h a) (cycle_key h b)) (filter_troves h cycle)) [
        | [] ↦ some (no_job h)
        | k ∷ _ ↦ get_resolve_job reqs k true (some cycle) h
      ]
