-- ===== src/Build/Trove/Changes/Histories.antt =====
-- Any sequence of the methods of BuildTrove that change it, from rmake/build/buildtrove.py, with the
-- events that its publisher emits meanwhile.
use rmake.Base.{ℕ, ◌≡◌, refl, Bool, true, false, List, [], ◌∷◌, ◌++◌, ◌==◌, if◌then◌else◌, arith}
use rmake.Build.Trove.{
  TroveState, Status, BuildTrove, is_primary_failure, is_failed, is_finished, is_built,
  is_duplicate, is_prepared, state_code,
}
use rmake.Build.Trove.Events.{Event, state_updated}
use rmake.Build.Trove.Changes.{
  set_state, trove_buildable, trove_resolving_build_reqs, trove_prebuilt, trove_resolved,
  trove_resolved_but_delayed, trove_in_cycle_unresolvable, trove_unresolvable_deps_reset,
  trove_queued, creating_chroot, trove_building, trove_already_committed, trove_built,
  trove_prepared, trove_duplicate, trove_failed, chroot_failed_with, trove_missing_buildreqs,
  trove_missing_dependencies,
}
use rmake.Build.Trove.Changes.Outcomes.{
  Operation, to_buildable, prepared_it, resolve_on, prebuilt_by, resolved_with, delay, in_cycle,
  reset_deps, queue, chroot_at, build_with, committed_as, duplicate_of, built_as, fail,
  chroot_broke, lack_buildreqs, lack_dependencies, run,
}

-- The methods are called one after another, each at its time.
abbrev pub run_all : List (ℕ × Operation) → BuildTrove → BuildTrove × List Event
run_all [] t = (t, [])
run_all ((now, o) ∷ rest) t =
    let r = run now o t in let (u, events) = run_all rest r.0 in (u, r.1 ++ events)

-- A subscriber keeps the state and the status of the last update of the trove.
abbrev pub follow : ℕ → List Event → TroveState × Status → TroveState × Status
follow k [] known = known
follow k (state_updated j state status ∷ events) known =
    follow k events (if j == k then (state, status) else known)
follow k (_ ∷ events) known = follow k events known

-- How far the work on a trove is: it goes on, or has ended well, as prepared, as a duplicate, or
-- with a failure of its own or one that another trove has caused.
pub data Verdict : Type 0 where
  going_on well_built well_prepared as_duplicate failed_itself failed_by_others : Verdict

-- The tests isFinished, isFailed, isPrimaryFailure, isBuilt, isPrepared and isDuplicate.
abbrev pub tests : BuildTrove → Bool × Bool × Bool × Bool × Bool × Bool
tests t =
    (is_finished t, is_failed t, is_primary_failure t, is_built t, is_prepared t, is_duplicate t)

abbrev pub tests_of : Verdict → Bool × Bool × Bool × Bool × Bool × Bool
tests_of going_on = (false, false, false, false, false, false)
tests_of well_built = (true, false, false, true, false, false)
tests_of well_prepared = (true, false, false, false, true, false)
tests_of as_duplicate = (true, false, false, false, false, true)
tests_of failed_itself = (true, true, true, false, false, false)
tests_of failed_by_others = (true, true, false, false, false, false)

abbrev pub failure_by : (is_primary : Bool) → Verdict
failure_by true = failed_itself
failure_by false = failed_by_others

-- The verdict after a method: one that reports a state begins the work anew or ends it, whatever
-- was before, and `troveResolved` leaves it.
abbrev pub judge : Operation → Verdict → Verdict
judge (committed_as _) v = well_built
judge (built_as _ _) v = well_built
judge prepared_it v = well_prepared
judge (duplicate_of _) v = as_duplicate
judge (fail _ p) v = failure_by p
judge (chroot_broke _) v = failed_itself
judge (lack_buildreqs _ p) v = failure_by p
judge (lack_dependencies _ p) v = failure_by p
judge (resolved_with _) v = v
judge _ v = going_on

abbrev pub judge_all : List (ℕ × Operation) → Verdict → Verdict
judge_all [] v = v
judge_all ((_, o) ∷ rest) v = judge_all rest (judge o v)

run-judge :
    (now : ℕ) (o : Operation) (v : Verdict) (t : BuildTrove)
    → tests t ≡ tests_of v
    → tests (run now o t).0 ≡ tests_of (judge o v)
unfolding run set_state trove_buildable trove_resolving_build_reqs trove_prebuilt
    trove_resolved_but_delayed trove_in_cycle_unresolvable trove_unresolvable_deps_reset
    trove_queued creating_chroot trove_building trove_already_committed trove_built trove_prepared
    trove_duplicate trove_failed chroot_failed_with trove_missing_buildreqs trove_resolved
    trove_missing_dependencies is_primary_failure is_failed is_finished is_built is_duplicate
    is_prepared state_code
run-judge now to_buildable v t h = refl
run-judge now prepared_it v t h = refl
run-judge now (resolve_on host pid) v t h = refl
run-judge now (prebuilt_by reqs binaries time fast log super same) v t h = refl
run-judge now (resolved_with l) v t h = h
run-judge now (delay deps) v t h = refl
run-judge now (in_cycle missing) v t h = refl
run-judge now (reset_deps missing) v t h = refl
run-judge now (queue text) v t h = refl
run-judge now (chroot_at host path) v t h = refl
run-judge now (build_with pid settings) v t h = refl
run-judge now (committed_as l) v t h = refl
run-judge now (duplicate_of l) v t h = refl
run-judge now (built_as l p) v t h = ground arith
run-judge now (fail why true) v t h = refl
run-judge now (fail why false) v t h = refl
run-judge now (chroot_broke text) v t h = refl
run-judge now (lack_buildreqs reqs true) v t h = refl
run-judge now (lack_buildreqs reqs false) v t h = refl
run-judge now (lack_dependencies deps true) v t h = refl
run-judge now (lack_dependencies deps false) v t h = refl

-- After any sequence of methods of a trove its tests for being finished, failed, a primary failure,
-- built, prepared and a duplicate give the verdict of the last method but `troveResolved`, which
-- leaves the verdict: finished just if that method ended the work, and then by the one way of it.
-- Before there is such a method they give the verdict from before.
pub run_all-judge_all :
    (ops : List (ℕ × Operation)) (v : Verdict) (t : BuildTrove)
    → tests t ≡ tests_of v
    → tests (run_all ops t).0 ≡ tests_of (judge_all ops v)
run_all-judge_all [] v t h = h
run_all-judge_all ((now, o) ∷ rest) v t h =
    run_all-judge_all rest (judge o v) (run now o t).0 (run-judge now o v t h)
