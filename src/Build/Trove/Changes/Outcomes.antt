-- ===== src/Build/Trove/Changes/Outcomes.antt =====
-- All methods of BuildTrove that change the state, as one operation, and what they share.
use rmake.Base.{ℕ, ◌≡◌, refl, Bool, List, [], ◌∷◌, arith}
use rmake.Build.Trove.{
  built, empty, FailureReason, chroot_failed, missing_buildreqs, missing_dependencies, BuildTrove,
}
use rmake.Build.Trove.Events.{
  Args, no_args, host_and_number, pid_and_settings, troves, reqs_and_troves, reason, Event,
  state_updated, resolved_event, event_of, trove_state_updated-eq,
}
use rmake.Build.Trove.Changes.{
  set_state, trove_buildable, trove_resolving_build_reqs, trove_prebuilt, trove_resolved,
  trove_resolved_but_delayed, trove_in_cycle_unresolvable, trove_unresolvable_deps_reset,
  trove_queued, creating_chroot, trove_building, trove_already_committed, trove_built,
  trove_prepared, trove_duplicate, trove_failed, chroot_failed_with, trove_missing_buildreqs,
  trove_missing_dependencies,
}

-- The methods that take a trove a step on, with their arguments; `now` is an argument of `run`.
pub data Operation : Type 0 where
  to_buildable prepared_it : Operation
  resolve_on : (host pid : ℕ) → Operation
  prebuilt_by :
      (reqs binaries : List ℕ) (time : ℕ) (fast : Bool) (log : ℕ) (super same : Bool) → Operation
  delay in_cycle : List ℕ → Operation
  reset_deps : List ℕ → Operation
  queue : ℕ → Operation
  chroot_at : (host path : ℕ) → Operation
  build_with : (pid : ℕ) → List ℕ → Operation
  committed_as duplicate_of resolved_with : List ℕ → Operation
  built_as : List ℕ → Bool → Operation
  fail : FailureReason → (is_primary : Bool) → Operation
  chroot_broke : ℕ → Operation
  lack_buildreqs lack_dependencies : List ℕ → (is_primary : Bool) → Operation

unfoldable pub run : ℕ → Operation → BuildTrove → BuildTrove × List Event
run now to_buildable t = trove_buildable t
run now prepared_it t = trove_prepared now t
run now (resolve_on host pid) t = trove_resolving_build_reqs now host pid t
run now (prebuilt_by reqs binaries time fast log super same) t =
    trove_prebuilt now reqs binaries time fast log super same t
run now (resolved_with results) t = trove_resolved now results t
run now (delay deps) t = trove_resolved_but_delayed now deps t
run now (in_cycle missing) t = trove_in_cycle_unresolvable now missing t
run now (reset_deps missing) t = trove_unresolvable_deps_reset now missing t
run now (queue text) t = trove_queued text t
run now (chroot_at host path) t = creating_chroot host path t
run now (build_with pid settings) t = trove_building now pid settings t
run now (committed_as l) t = trove_already_committed now l t
run now (duplicate_of l) t = trove_duplicate l t
run now (built_as l p) t = trove_built now l p t
run now (fail why p) t = trove_failed now why p t
run now (chroot_broke text) t = chroot_failed_with now text t
run now (lack_buildreqs reqs p) t = trove_missing_buildreqs now reqs p t
run now (lack_dependencies deps p) t = trove_missing_dependencies now deps p t

-- The update and the one event of a state.
abbrev pub IsUpdate : BuildTrove × List Event → Type 0
IsUpdate (t, events) =
    (args : Args) × (events ≡ state_updated t.key t.state t.status ∷ event_of t.state t.key args)

-- What the events of a method say of the trove that it leaves.
abbrev pub IsAnnounced : Operation → BuildTrove → BuildTrove × List Event → Type 0
IsAnnounced (resolved_with results) t (u, events) =
    (events ≡ resolved_event t.key (troves results) ∷ [])
    × (u.state ≡ t.state)
    × (u.status ≡ t.status)
IsAnnounced _ t r = IsUpdate r

-- Every method of the trove keeps its key. `troveResolved` leaves the state and the status and
-- publishes the results only; any other method publishes the state and status that it leaves, and
-- then at most one event, the one of that state.
pub run-IsAnnounced :
    (now : ℕ) (o : Operation) (t : BuildTrove)
    → IsAnnounced o t (run now o t) × ((run now o t).0.key ≡ t.key)
unfolding run set_state trove_buildable trove_resolving_build_reqs trove_prebuilt
    trove_resolved_but_delayed trove_in_cycle_unresolvable trove_unresolvable_deps_reset
    trove_queued creating_chroot trove_building trove_already_committed trove_built trove_prepared
    trove_duplicate trove_failed chroot_failed_with trove_missing_buildreqs
    trove_missing_dependencies trove_resolved
run-IsAnnounced now to_buildable t = ((no_args, trove_state_updated-eq _ _ no_args), refl)
run-IsAnnounced now prepared_it t = ((no_args, trove_state_updated-eq _ _ no_args), refl)
run-IsAnnounced now (resolve_on host pid) t =
    ((host_and_number host pid, trove_state_updated-eq _ _ (host_and_number host pid)), refl)
run-IsAnnounced now (prebuilt_by reqs binaries time fast log super same) t = (
  (reqs_and_troves reqs binaries, trove_state_updated-eq _ _ (reqs_and_troves reqs binaries)),
  refl,
)
run-IsAnnounced now (resolved_with results) t = ((refl, refl, refl), refl)
run-IsAnnounced now (delay deps) t = ((no_args, trove_state_updated-eq _ _ no_args), refl)
run-IsAnnounced now (in_cycle missing) t = ((no_args, trove_state_updated-eq _ _ no_args), refl)
run-IsAnnounced now (reset_deps missing) t = ((no_args, trove_state_updated-eq _ _ no_args), refl)
run-IsAnnounced now (queue text) t = ((no_args, trove_state_updated-eq _ _ no_args), refl)
run-IsAnnounced now (chroot_at host path) t =
    ((host_and_number host path, trove_state_updated-eq _ _ (host_and_number host path)), refl)
run-IsAnnounced now (build_with pid settings) t = (
  (pid_and_settings pid settings, trove_state_updated-eq _ _ (pid_and_settings pid settings)),
  refl,
)
run-IsAnnounced now (committed_as l) t = ((troves l, trove_state_updated-eq _ _ (troves l)), refl)
run-IsAnnounced now (duplicate_of l) t = ((troves l, trove_state_updated-eq _ _ (troves l)), refl)
run-IsAnnounced now (built_as l p) t =
    let u = record t { finish = now; pid = 0; built_troves = l; state = built; status = empty } in
    ((troves l, ground (arith, trove_state_updated-eq u built (troves l))), ground arith)
run-IsAnnounced now (fail why p) t = ((reason why, trove_state_updated-eq _ _ (reason why)), refl)
run-IsAnnounced now (chroot_broke text) t =
    ((reason (chroot_failed text), trove_state_updated-eq _ _ (reason (chroot_failed text))), refl)
run-IsAnnounced now (lack_buildreqs reqs p) t = (
  (reason (missing_buildreqs reqs), trove_state_updated-eq _ _ (reason (missing_buildreqs reqs))),
  refl,
)
run-IsAnnounced now (lack_dependencies deps p) t = (
  (
    reason (missing_dependencies deps),
    trove_state_updated-eq _ _ (reason (missing_dependencies deps)),
  ),
  refl,
)
