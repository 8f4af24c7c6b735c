-- ===== src/Build/Job.antt =====
-- rmake/build/buildjob.py (the states of a job, the tests on them, and the methods of BuildJob
-- that change its state) and the events of rmake/build/publisher.py that tell of it.
-- `troves` is keyed by the key of the trove, the number of its (name, version, flavor, context).
-- The publisher is corked while a job fails: its listeners then get the same events in one batch.
pub mod Failing
pub mod Troves
use rmake.Base.{
  ℕ, Bool, true, not, ◌&&◌, ◌||◌, Option, none, some, List, [], ◌∷◌, ◌++◌, ◌==◌, any, filter,
  if◌then◌else◌,
}
use rmake.Base.Dict.{Dict, values}
use rmake.Build.Trove.{
  FailureReason, build_failed, stopped, internal_error, BuildTrove, is_building, is_buildable,
  is_failed, is_primary_failure, is_built, is_unbuilt, is_waiting, is_preparing, is_started,
}
use rmake.Build.Trove.Events.{Event}
use rmake.Build.Trove.Changes.{trove_failed}

pub data JobState : Type 0 where
  init failed queued started build built committing committed loading loaded : JobState

-- The numbers of `jobStates`.
unfoldable pub job_code : JobState → ℕ
job_code init = 0
job_code failed = 1
job_code queued = 2
job_code started = 3
job_code build = 4
job_code built = 5
job_code committing = 6
job_code committed = 7
job_code loading = 8
job_code loaded = 9

-- The texts that `_setState` is given.
pub data JobStatus : Type 0 where
  empty : JobStatus
  message : ℕ → JobStatus
  commit_failed : ℕ → JobStatus
  because : FailureReason → JobStatus

pub record BuildJob : Type 0 where
  pub job_id : ℕ
  pub state : JobState
  pub status : JobStatus
  pub start : ℕ
  pub finish : ℕ
  pub pid : ℕ
  pub failure_reason : Option FailureReason
  pub troves : Dict BuildTrove

-- The arguments of `_setState` after the status.
pub data JobArgs : Type 0 where
  no_args : JobArgs
  reason : FailureReason → JobArgs
  load_results : List ℕ → JobArgs

pub data JobEvent : Type 0 where
  job_state_updated : JobState → JobStatus → JobEvent
  job_failed_event job_loaded_event : JobArgs → JobEvent
  job_committed_event : (troves : List ℕ) → JobEvent
  trove_event : Event → JobEvent

abbrev pub in_state : JobState → JobState → Bool
in_state a b = job_code a == job_code b

abbrev pub in_job_states : JobState → List JobState → Bool
in_job_states a l = any (in_state a) l

module _ (j : BuildJob) where
  unfoldable pub is_queued : Bool
  unfolding job_code
  is_queued = in_state j.state queued

  unfoldable pub is_job_building : Bool
  unfolding job_code
  is_job_building = in_job_states j.state (started ∷ build ∷ [])

  unfoldable pub is_job_built : Bool
  unfolding job_code
  is_job_built = in_job_states j.state (built ∷ [])

  unfoldable pub is_job_failed : Bool
  unfolding job_code
  is_job_failed = in_job_states j.state (failed ∷ [])

  unfoldable pub is_job_finished : Bool
  unfolding job_code
  is_job_finished = in_job_states j.state (failed ∷ built ∷ committed ∷ [])

  unfoldable pub is_running : Bool
  unfolding job_code
  is_running = in_job_states j.state (loading ∷ loaded ∷ started ∷ build ∷ [])

  unfoldable pub is_committed : Bool
  unfolding job_code
  is_committed = in_state j.state committed

  unfoldable pub is_committing : Bool
  unfolding job_code
  is_committing = in_state j.state committing

  unfoldable pub is_loading : Bool
  unfolding job_code
  is_loading = in_state j.state loading

  unfoldable pub is_loaded : Bool
  unfolding job_code
  is_loaded = in_state j.state loaded

  unfoldable pub troves_in_progress : Bool
  troves_in_progress = any (λ t. is_building t || is_buildable t) (values j.troves)

  -- The `iter…Troves` methods are `troves_where` of a test, the `has…Troves` methods
  -- `has_troves_by_check`.
  unfoldable pub troves_where : (BuildTrove → Bool) → List BuildTrove
  troves_where p = filter p (values j.troves)

  unfoldable pub has_troves_by_check : (BuildTrove → Bool) → Bool
  has_troves_by_check check = any check (values j.troves)

-- `JobStatusPublisher.jobStateUpdated`
unfoldable pub job_state_events : BuildJob → JobState → JobStatus → JobArgs → List JobEvent
job_state_events j state status args =
    job_state_updated state status
    ∷ (if is_job_failed j
        then job_failed_event args ∷ []
        else if is_loaded j
        then job_loaded_event args ∷ []
        else [])

unfoldable pub set_job_state : JobState → JobStatus → JobArgs → BuildJob → BuildJob × List JobEvent
set_job_state state status args j =
    let j' = record j { state = state; status = status } in
    (j', job_state_events j' state status args)

-- An empty message is replaced by 'Job Queued', here a parameter.
unfoldable pub job_queued : (default text : ℕ) → BuildJob → BuildJob × List JobEvent
job_queued default text j =
    set_job_state queued (message (if text == 0 then default else text)) no_args j

unfoldable pub job_started : (now text pid : ℕ) → BuildJob → BuildJob × List JobEvent
job_started now text pid j =
    set_job_state started (message text) no_args (record j { start = now; pid = pid })

unfoldable pub job_building : ℕ → BuildJob → BuildJob × List JobEvent
job_building text j = set_job_state build (message text) no_args j

unfoldable pub job_passed : (now text : ℕ) → BuildJob → BuildJob × List JobEvent
job_passed now text j = set_job_state built (message text) no_args (record j { finish = now })

unfoldable pub job_loading : ℕ → BuildJob → BuildJob × List JobEvent
job_loading text j = set_job_state loading (message text) no_args j

-- The loop of `jobFailed` over the troves; `is_started` is tested on each in its turn.
unfoldable pub fail_started :
    (now : ℕ) → FailureReason → Dict BuildTrove → Dict BuildTrove × List Event
fail_started now why [] = ([], [])
fail_started now why ((k, t) ∷ rest) =
    let (done, events) = fail_started now why rest in
    let (t', own) = trove_failed now why true t in
    if is_started t then ((k, t') ∷ done, own ++ events) else ((k, t) ∷ done, events)

abbrev pub trove_events : List Event → List JobEvent
trove_events [] = []
trove_events (e ∷ es) = trove_event e ∷ trove_events es

unfoldable pub job_failed : (now : ℕ) → FailureReason → BuildJob → BuildJob × List JobEvent
job_failed now why j =
    let (j', events) =
      set_job_state failed (because why) (reason why)
        (record j { finish = now; failure_reason = some why }) in
    let (troves, more) = fail_started now why j'.troves in
    (record j' { troves = troves }, events ++ trove_events more)

unfoldable pub job_stopped : (now text : ℕ) → BuildJob → BuildJob × List JobEvent
job_stopped now text j = job_failed now (stopped text) j

unfoldable pub exception_occurred : (now text : ℕ) → BuildJob → BuildJob × List JobEvent
exception_occurred now text j = job_failed now (internal_error text) j

unfoldable pub job_committing : BuildJob → BuildJob × List JobEvent
job_committing j = set_job_state committing empty no_args j

-- The branch of `jobCommitFailed` for a job that failed before.
unfoldable pub revert_to_failed : Option FailureReason → BuildJob → BuildJob × List JobEvent
revert_to_failed none j = (j, [])
revert_to_failed (some why) j = set_job_state failed (because why) no_args j

-- That branch does not return: the state is set a second time.
unfoldable pub job_commit_failed : ℕ → BuildJob → BuildJob × List JobEvent
job_commit_failed text j =
    let (j', events) = revert_to_failed j.failure_reason j in
    let (j'', more) = set_job_state built (commit_failed text) no_args j' in (j'', events ++ more)

unfoldable pub job_committed : List ℕ → BuildJob → BuildJob × List JobEvent
job_committed troves j =
    let (j', events) = set_job_state committed empty no_args j in
    (j', events ++ job_committed_event troves ∷ [])
