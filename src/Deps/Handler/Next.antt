-- ===== src/Deps/Handler/Next.antt =====
-- rmake/build/dephandler.py (DependencyHandler._attemptFastResolve, getNextResolveJob): the leaf
-- components of the requirement graph are tried in the order of their priorities.

pub mod Limits
pub mod Bounds
use rmake.Base.{
  ℕ, Bool, true, false, not, ◌&&◌, ◌||◌, Option, none, some, List, [], ◌∷◌, ◌++◌, map, filter, any,
  all, elem, length, is_empty, leb, ltb, ◌==◌, ◌>>=◌, if◌then◌else◌,
}
use rmake.Base.Dict.{Dict, contains}
use rmake.Build.Trove.{BuildTrove, is_prebuilt}
use rmake.Build.Trove.Changes.{trove_missing_dependencies}
use rmake.Deps.Graphs.{Graphs}
use rmake.Deps.World.{World, JobTup}
use rmake.Deps.State.{DepState, has_buildable_troves}
use rmake.Deps.Handler.{Handler, tell_failed}
use rmake.Deps.Handler.Choosing.{
  ResolveJob, lex_le, sort_by, same_list, goes_before, filter_troves, no_job, get_resolve_job,
  get_job_from_cycle,
}

module _ (w : World) (now : ℕ) (reqs : ℕ → List (JobTup w.conary.Flavor)) where
  open w use {graphs}
  open graphs use {Graph, leaf_cycles, is_blank}

  abbrev pub Answer : Type 0
  Answer = Option (Option ResolveJob × Handler Graph)

  -- The work goes on where there is no job yet.
  unfoldable pub or_else : Answer → (Handler Graph → Answer) → Answer
  or_else none f = none
  or_else (some (some j, u)) f = some (some j, u)
  or_else (some (none, u)) f = f u

  -- `sorted(x.getPrebuiltTime() for x in y if x.getPrebuiltTime())`
  unfoldable pub prebuilt_times : Handler Graph → List ℕ → List ℕ
  prebuilt_times h l =
      sort_by leb (filter (λ t. not (t == 0)) (map (λ x. (h.deps.objects x).pre_built_time) l))

  unfoldable pub oldest_first : Handler Graph → List ℕ → List ℕ → Bool
  oldest_first h a b =
      let s = prebuilt_times h a in
      let t = prebuilt_times h b in if same_list s t then lex_le a b else lex_le s t

  unfoldable pub no_fast : Handler Graph → Handler Graph
  no_fast h = record h { allow_fast_resolution = false }

  -- One component that has prebuilt packages: a single trove, or a cycle.
  unfoldable pub fast_component : Bool → List ℕ → Handler Graph → Answer
  fast_component break_cycles [] h = some (no_job (no_fast h))
  fast_component break_cycles (k ∷ []) h = get_resolve_job w now reqs k false none h
  fast_component break_cycles (k ∷ l ∷ ls) h =
      if break_cycles && all (λ x. is_prebuilt (h.deps.objects x)) (k ∷ l ∷ ls)
      then get_job_from_cycle w now reqs (k ∷ l ∷ ls) h
      else some (no_job (no_fast h))

  -- Of the components with prebuilt packages the first one, once nothing is being resolved.
  unfoldable pub first_component : Bool → List (List ℕ) → Handler Graph → Answer
  first_component break_cycles [] h = some (no_job (no_fast h))
  first_component break_cycles (l ∷ _) h =
      if is_empty h.now_resolving then fast_component break_cycles l h else some (no_job h)

  -- `_attemptFastResolve`
  unfoldable pub attempt_fast_resolve : Bool → List (List ℕ) → Handler Graph → Answer
  attempt_fast_resolve break_cycles lists h =
      first_component break_cycles
        (filter (λ l. not (is_empty (prebuilt_times h l))) (sort_by (oldest_first h) lists)) h

  -- The loop over the leaf components. The first job ends it.
  unfoldable pub try_component : Bool → List ℕ → Handler Graph → Answer
  try_component break_cycles cycle h =
      let single : Answer = elim (filter_troves w now h cycle) [
        | [] ↦ some (no_job h)
        | k ∷ _ ↦ get_resolve_job w now reqs k false none h
      ] in
      let several =
        if not break_cycles || any (λ x. contains x h.now_resolving) cycle
        then some (no_job h)
        else get_job_from_cycle w now reqs cycle h in
      if ltb 1 (length cycle) then several else single

  unfoldable pub try_components : Bool → List (List ℕ) → Handler Graph → Answer
  try_components break_cycles [] h = some (no_job h)
  try_components break_cycles (c ∷ cs) h =
      or_else (try_component break_cycles c h) (try_components break_cycles cs)

  -- The troves that are delayed can never be resolved.
  unfoldable pub fail_delayed : Dict (List ℕ) → Handler Graph → Option (Handler Graph)
  fail_delayed [] h = some h
  fail_delayed ((k, missing) ∷ ds) h = do
    u ← tell_failed w now k (trove_missing_dependencies now missing true) h
    fail_delayed ds u

  unfoldable pub finish_round : Handler Graph → Answer
  finish_round h =
      if has_buildable_troves graphs h.deps || not (is_empty h.now_resolving)
      then some (no_job h)
      else do u ← fail_delayed h.delayed h; some (no_job (record u { delayed = [] }))

  -- Of the components that are left, the one whose first trove goes first. Their lists are sorted.
  unfoldable pub component_le : Handler Graph → List ℕ → List ℕ → Bool
  component_le h [] b = true
  component_le h (x ∷ xs) [] = false
  component_le h (x ∷ xs) (y ∷ ys) =
      if goes_before w now h x y && goes_before w now h y x
      then lex_le (x ∷ xs) (y ∷ ys)
      else goes_before w now h x y

  unfoldable pub in_order : Handler Graph → List (List ℕ) → List (List ℕ)
  in_order h cycles = sort_by (component_le h) (map (sort_by (goes_before w now h)) cycles)

  -- `_seenCycles.extend(newCycles)`; the report on the cycles is not modelled.
  unfoldable pub is_new_cycle : Handler Graph → List ℕ → Bool
  is_new_cycle h c =
      ltb 1 (length c)
      && not (any (same_list c) h.seen_cycles)
      && same_list (filter_troves w now h c) c

  unfoldable pub slow_resolve : Bool → List (List ℕ) → Handler Graph → Answer
  slow_resolve break_cycles cycles h =
      let ordered = in_order h cycles in
      let h' = record h { seen_cycles = h.seen_cycles ++ filter (is_new_cycle h) ordered } in
      or_else (try_components break_cycles ordered h') finish_round

  -- `getNextResolveJob`: at most ten resolutions run at a time.
  unfoldable pub get_next_resolve_job : Bool → Handler Graph → Answer
  get_next_resolve_job break_cycles h =
      let cycles = leaf_cycles h.deps.dep_graph in
      let slow = slow_resolve break_cycles cycles in
      let fast =
        or_else (attempt_fast_resolve break_cycles cycles h)
          (λ u. if u.allow_fast_resolution then some (no_job u) else slow u) in
      if is_blank h.deps.dep_graph || leb 10 (length h.now_resolving)
      then some (no_job h)
      else (if h.allow_fast_resolution then fast else slow h)
