-- ===== src/Build/Trove/Changes.antt =====
-- The methods of BuildTrove that change its state. Each returns the trove and the events that its
-- publisher emits, in order; `now` is `time.time()`.
pub mod Outcomes
pub mod Histories
use rmake.Base.{ℕ, Bool, true, not, ◌&&◌, ◌==◌, some, List, [], ◌∷◌, if◌then◌else◌}
use rmake.Build.Trove.{
  TroveState, init, failed, resolving, buildable, waiting, preparing, building, built, unbuildable,
  prebuilt, duplicate, prepared, Status, empty, resolving_build_requirements, delayed_for,
  cycle_unresolvable, dependency_reset, message, because, FailureReason, chroot_failed,
  missing_buildreqs, missing_dependencies, BuildTrove,
}
use rmake.Build.Trove.Events.{
  Args, no_args, host_and_number, pid_and_settings, troves, reqs_and_troves, reason, Event,
  resolved_event, trove_state_updated,
}

-- `_setState`: the publisher is told after the change.
unfoldable pub set_state : TroveState → Status → Args → BuildTrove → BuildTrove × List Event
set_state state status args t =
    let t' = record t { state = state; status = status } in (t', trove_state_updated t' state args)

unfoldable pub trove_buildable : BuildTrove → BuildTrove × List Event
trove_buildable t = set_state buildable empty no_args t

unfoldable pub trove_resolving_build_reqs : ℕ → ℕ → ℕ → BuildTrove → BuildTrove × List Event
trove_resolving_build_reqs now host pid t =
    set_state resolving resolving_build_requirements (host_and_number host pid)
      (record t { finish = 0; start = now; pid = pid })

-- The prebuilt data are stored after the change has been published. No time counts as 0.
unfoldable pub trove_prebuilt :
    ℕ → List ℕ → List ℕ → ℕ → Bool → ℕ → Bool → Bool → BuildTrove → BuildTrove × List Event
trove_prebuilt now build_reqs binaries time fast log_path super source_matches t =
    let (t', events) =
      set_state prebuilt empty (reqs_and_troves build_reqs binaries)
        (record t { finish = now; pid = 0 }) in
    (
      record t' {
        pre_built_requirements = some build_reqs;
        pre_built_binaries = binaries;
        pre_built_time = time;
        fast_rebuild = fast;
        pre_built_log = log_path;
        super_classes_match = super;
        prebuilt_source_matches = source_matches;
      },
      events,
    )

-- The state stays: only the results are published.
unfoldable pub trove_resolved : ℕ → List ℕ → BuildTrove → BuildTrove × List Event
trove_resolved now results t =
    (record t { finish = now; pid = 0 }, resolved_event t.key (troves results) ∷ [])

unfoldable pub trove_resolved_but_delayed : ℕ → List ℕ → BuildTrove → BuildTrove × List Event
trove_resolved_but_delayed now new_deps t =
    set_state init (delayed_for new_deps) no_args (record t { finish = now; pid = 0 })

unfoldable pub trove_in_cycle_unresolvable : ℕ → List ℕ → BuildTrove → BuildTrove × List Event
trove_in_cycle_unresolvable now missing t =
    set_state init (cycle_unresolvable missing) no_args (record t { finish = now; pid = 0 })

unfoldable pub trove_unresolvable_deps_reset : ℕ → List ℕ → BuildTrove → BuildTrove × List Event
trove_unresolvable_deps_reset now missing t =
    set_state init (dependency_reset missing) no_args (record t { finish = now; pid = 0 })

unfoldable pub trove_queued : ℕ → BuildTrove → BuildTrove × List Event
trove_queued text t = set_state waiting (message text) no_args t

unfoldable pub creating_chroot : ℕ → ℕ → BuildTrove → BuildTrove × List Event
creating_chroot host path t =
    set_state preparing empty (host_and_number host path)
      (record t { chroot_host = host; chroot_path = path })

unfoldable pub trove_building : ℕ → ℕ → List ℕ → BuildTrove → BuildTrove × List Event
trove_building now pid settings t =
    set_state building empty (pid_and_settings pid settings)
      (record t { pid = pid; finish = 0; start = now })

unfoldable pub trove_already_committed : ℕ → List ℕ → BuildTrove → BuildTrove × List Event
trove_already_committed now trove_list t =
    set_state built empty (troves trove_list) (record t { built_troves = trove_list; finish = now })

-- The log path follows after the event.
unfoldable pub trove_built : ℕ → List ℕ → Bool → BuildTrove → BuildTrove × List Event
trove_built now trove_list prebuilt_one t =
    let (t', events) =
      set_state built empty (troves trove_list)
        (record t { finish = now; pid = 0; built_troves = trove_list }) in
    (
      if prebuilt_one && not (t'.pre_built_log == 0)
          then record t' { log_path = t'.pre_built_log }
          else t',
      events,
    )

unfoldable pub trove_prepared : ℕ → BuildTrove → BuildTrove × List Event
trove_prepared now t = set_state prepared empty no_args (record t { finish = now; pid = 0 })

unfoldable pub trove_duplicate : List ℕ → BuildTrove → BuildTrove × List Event
trove_duplicate trove_list t = set_state duplicate empty (troves trove_list) t

-- A secondary failure is one that another trove has caused.
unfoldable pub trove_failed : ℕ → FailureReason → Bool → BuildTrove → BuildTrove × List Event
trove_failed now why is_primary t =
    set_state (if is_primary then failed else unbuildable) (because why) (reason why)
      (record t { finish = now; pid = 0; failure_reason = some why })

-- `self.hostname` and `self.path`, which it clears, are no fields of the trove.
unfoldable pub chroot_failed_with : ℕ → ℕ → BuildTrove → BuildTrove × List Event
chroot_failed_with now text t = trove_failed now (chroot_failed text) true t

unfoldable pub trove_missing_buildreqs : ℕ → List ℕ → Bool → BuildTrove → BuildTrove × List Event
trove_missing_buildreqs now reqs is_primary t =
    trove_failed now (missing_buildreqs reqs) is_primary t

unfoldable pub trove_missing_dependencies : ℕ → List ℕ → Bool → BuildTrove → BuildTrove × List Event
trove_missing_dependencies now deps is_primary t =
    trove_failed now (missing_dependencies deps) is_primary t
