-- ===== src/Build/Job/Failing.antt =====
-- What the end of a job leaves of its troves and of its state.
use rmake.Base.{ℕ, ◌≡◌, refl, true, false, some, [], ◌∷◌, any, arith, if◌then◌else◌, ◌||◌}
use rmake.Base.Dict.{Dict, values}
use rmake.Build.Trove.{
  FailureReason, BuildTrove, is_started, is_finished, is_failed, is_primary_failure, is_built,
  is_duplicate, is_prepared, is_building, is_buildable, state_code,
}
use rmake.Build.Trove as Trove
use rmake.Build.Trove.Changes.{trove_failed, set_state}
use rmake.Build.Job.{
  revert_to_failed, BuildJob, is_job_failed, is_job_finished, is_job_built, job_failed,
  fail_started, set_job_state, job_commit_failed, troves_in_progress, commit_failed, job_code,
}

-- The trove that a failing job leaves of a trove: one that was started has failed, any other is as
-- it was.
abbrev pub failed_trove : ℕ → FailureReason → BuildTrove → BuildTrove
failed_trove now why t =
    if is_started t
    then record t {
      state = Trove.failed;
      status = Trove.because why;
      finish = now;
      pid = 0;
      failure_reason = some why;
    }
    else t

abbrev pub map_values : {A B : Type 0} → (A → B) → Dict A → Dict B
map_values f [] = []
map_values f ((k, a) ∷ d) = (k, f a) ∷ map_values f d

fail_started-troves :
    (now : ℕ) (why : FailureReason) (d : Dict BuildTrove)
    → (fail_started now why d).0 ≡ map_values (failed_trove now why) d
unfolding fail_started trove_failed set_state
fail_started-troves now why [] = refl
fail_started-troves now why ((k, t) ∷ d) = ground (arith, fail_started-troves now why d)

failed_trove-rests :
    (now : ℕ) (why : FailureReason) (d : Dict BuildTrove)
    → (any is_started (values (map_values (failed_trove now why) d)) ≡ false)
      × (any (λ t. is_building t || is_buildable t) (values (map_values (failed_trove now why) d))
          ≡ false)
unfolding values is_started is_finished is_failed is_built is_duplicate is_prepared is_building
    is_buildable state_code
failed_trove-rests now why [] = (refl, refl)
failed_trove-rests now why ((k, t) ∷ d) =
    (ground (arith, failed_trove-rests now why d), ground (arith, failed_trove-rests now why d))

-- What is left when a job fails.
pub record JobFailed (now : ℕ) (why : FailureReason) (j after : BuildJob) : Type 0 where
  pub has_failed : (is_job_failed after ≡ true) × (is_job_finished after ≡ true)
  pub for_reason : after.failure_reason ≡ some why
  pub each_trove : after.troves ≡ map_values (failed_trove now why) j.troves
  pub none_started : any is_started (values after.troves) ≡ false
  pub none_in_progress : troves_in_progress after ≡ false

-- A job that fails is finished and failed, for the reason given; each trove that was started has
-- failed for that reason, every other trove is as it was, and no trove is started, building or
-- buildable any more.
pub job_failed-JobFailed :
    (now : ℕ) (why : FailureReason) (j : BuildJob) → JobFailed now why j (job_failed now why j).0
unfolding job_failed set_job_state is_job_failed is_job_finished troves_in_progress job_code
job_failed-JobFailed now why j = record {
  has_failed = (refl, refl);
  for_reason = refl;
  each_trove = fail_started-troves now why j.troves;
  none_started =
      ground (arith, fail_started-troves now why j.troves, failed_trove-rests now why j.troves);
  none_in_progress =
      ground (arith, fail_started-troves now why j.troves, failed_trove-rests now why j.troves);
}

-- A job whose commit fails ends as built, with the text of the failure, also where it had failed
-- before: it is not taken back to its failed state, though its failure reason stays.
pub job_commit_failed-IsBuilt :
    (text : ℕ) (j : BuildJob)
    → (is_job_built (job_commit_failed text j).0 ≡ true)
      × (is_job_failed (job_commit_failed text j).0 ≡ false)
      × ((job_commit_failed text j).0.status ≡ commit_failed text)
      × ((job_commit_failed text j).0.failure_reason ≡ j.failure_reason)
unfolding job_commit_failed set_job_state is_job_built is_job_failed revert_to_failed job_code
job_commit_failed-IsBuilt text j = (ground arith, ground arith, ground arith, ground arith)
