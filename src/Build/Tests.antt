-- ===== src/Build/Tests.antt =====
-- Troves, jobs and build states on small values.
use rmake.Base.{
  List, elem, ◌&&◌, ℕ, ◌≡◌, refl, true, false, none, some, [], ◌∷◌, ◌==◌, if◌then◌else◌,
}
use rmake.Base.Dict.{lookup, insert}
use rmake.Build.Trove.{
  buildable, building, built, BuildTrove, empty, normal, build_failed, is_primary_failure,
  is_failed, is_finished, is_built, is_duplicate, is_prepared, state_code,
}
use rmake.Build.Trove.Changes.Outcomes.{Operation, built_as, fail, resolved_with}
use rmake.Build.Trove.Changes.Histories.{
  run_all, tests, tests_of, going_on, failed_by_others, run_all-judge_all,
}
use rmake.Build.State.{BuildState, new_state, set_state, add_troves, add_one, add_each}
use rmake.Build.State.Consistent.{IsConsistent, set_state_total, new_state-IsConsistent}
use rmake.Build.State.Finish.{Meaning, job_finished_lem}
use rmake.Build.Job.{
  BuildJob, build, job_failed, job_commit_failed, JobStatus, commit_failed, is_job_built,
  is_job_failed,
}
use rmake.Build.Job.Troves.{
  JobTroves, find_trove, put_trove, has_trove, add_trove, remove_trove, contexts_of,
}
use rmake.Build.Job.Troves.Contexts.{
  IsAgreed, add_trove-IsAgreed, remove_trove-IsAgreed, add_trove-twice,
}
use rmake.Build.Resolve.{
  ResolveResult, new_result, lacks_build_reqs, freeze_result, thaw_result, result_back,
  thaw_result-freeze_result,
}
use rmake.Freezing.{freeze_spec, thaw_spec}
use rmake.Freezing.Samples.{plain, plain-ConaryLaws}
use rmake.Build.Job.Failing.{JobFailed, job_failed-JobFailed, job_commit_failed-IsBuilt}

abbrev first : BuildTrove
first = record {
  key = 1;
  state = building;
  status = empty;
  failure_reason = none;
  built_troves = [];
  pid = 33;
  start = 100;
  finish = 0;
  chroot_host = 0;
  chroot_path = 0;
  log_path = 0;
  build_type = normal;
  pre_built_requirements = none;
  pre_built_binaries = [];
  pre_built_time = 0;
  pre_built_log = 0;
  fast_rebuild = false;
  super_classes_match = false;
  prebuilt_source_matches = false;
}

abbrev second : BuildTrove
second = record first { key = 2; state = buildable; pid = 0 }

abbrev job : BuildJob
job = record {
  job_id = 20;
  state = build;
  status = JobStatus.empty;
  start = 90;
  finish = 0;
  pid = 31;
  failure_reason = none;
  troves = (1, first) ∷ (2, second) ∷ [];
}

-- A build that fails, and results of a resolution that come late.
abbrev history : List (ℕ × Operation)
history =
    (200, built_as (50 ∷ []) false)
    ∷ (210, fail (build_failed 5) false)
    ∷ (220, resolved_with (60 ∷ []))
    ∷ []

run_all-judge_all_example : tests (run_all history first).0 ≡ tests_of failed_by_others
unfolding is_primary_failure is_failed is_finished is_built is_duplicate is_prepared state_code
run_all-judge_all_example = run_all-judge_all history going_on first refl

abbrev both : BuildState
both = new_state (first ∷ second ∷ [])

both-IsConsistent : IsConsistent both
unfolding lookup new_state add_troves add_each
both-IsConsistent = (new_state-IsConsistent (first ∷ second ∷ []) (refl, refl, (refl, refl, tt))).0

set_state_example :
    (t : BuildState) × (set_state 1 built both ≡ some t)
    × IsConsistent t
    × ((k : ℕ)
        → lookup k t.states_by_trove
          ≡ (if k == 1 then some built else lookup k both.states_by_trove))
unfolding lookup insert new_state add_troves add_each add_one
set_state_example = set_state_total 1 built both both-IsConsistent refl

job_finished_example : Meaning both
job_finished_example = job_finished_lem both both-IsConsistent

job_failed_example : JobFailed 200 (build_failed 5) job (job_failed 200 (build_failed 5) job).0
job_failed_example = job_failed-JobFailed 200 (build_failed 5) job

job_commit_failed_example :
    (is_job_built (job_commit_failed 8 job).0 ≡ true)
    × (is_job_failed (job_commit_failed 8 job).0 ≡ false)
    × ((job_commit_failed 8 job).0.status ≡ commit_failed 8)
    × ((job_commit_failed 8 job).0.failure_reason ≡ none)
job_commit_failed_example = job_commit_failed-IsBuilt 8 job

abbrev no_troves : JobTroves
no_troves = record { troves = []; trove_contexts = [] }

no_troves-IsAgreed : IsAgreed no_troves
unfolding has_trove find_trove lookup
no_troves-IsAgreed = record { listed = λ n c. refl; once = λ n. tt }

one_trove-IsAgreed : IsAgreed (add_trove 8 0 first no_troves)
unfolding has_trove find_trove
one_trove-IsAgreed = (add_trove-IsAgreed 8 0 first no_troves no_troves-IsAgreed refl).0

add_trove_example :
    IsAgreed (add_trove 8 0 first no_troves)
    × ((m d : ℕ)
        → has_trove m d (add_trove 8 0 first no_troves)
          ≡ (if m == 8 && d == 0 then true else has_trove m d no_troves))
unfolding has_trove find_trove
add_trove_example = add_trove-IsAgreed 8 0 first no_troves no_troves-IsAgreed refl

remove_trove_example :
    (r : JobTroves) × (remove_trove 8 0 (add_trove 8 0 first no_troves) ≡ some r)
    × IsAgreed r
    × ((m d : ℕ)
        → has_trove m d r
          ≡ (if m == 8 && d == 0 then false else has_trove m d (add_trove 8 0 first no_troves)))
unfolding has_trove find_trove add_trove put_trove
remove_trove_example =
    remove_trove-IsAgreed 8 0 (add_trove 8 0 first no_troves) one_trove-IsAgreed refl

add_trove-twice_example :
    (r : JobTroves) × (remove_trove 8 0 (add_trove 8 0 second (add_trove 8 0 first no_troves))
      ≡ some r)
    × (has_trove 8 0 r ≡ false)
    × (elem 0 (contexts_of 8 r) ≡ true)
add_trove-twice_example = add_trove-twice 8 0 first second no_troves

-- A requirement without version and flavor is missing.
abbrev one_missing : ResolveResult plain
one_missing =
    lacks_build_reqs plain true (record { name = 4; version = none; flavor = none } ∷ [])
      (new_result plain false)

thaw_result_test :
    (thaw_result plain (freeze_result plain one_missing)).missing_build_reqs
    ≡ (true, record { name = 4; version = some 0; flavor = some 0 }) ∷ []
unfolding thaw_result freeze_result lacks_build_reqs freeze_spec thaw_spec
thaw_result_test = refl

thaw_result_example :
    thaw_result plain (freeze_result plain one_missing) ≡ result_back plain one_missing
thaw_result_example = thaw_result-freeze_result plain plain-ConaryLaws one_missing
