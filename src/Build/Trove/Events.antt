-- ===== src/Build/Trove/Events.antt =====
-- rmake/build/publisher.py: the events that JobStatusPublisher emits for a trove, in their order.
use rmake.Base.{ℕ, ◌≡◌, List, [], ◌∷◌, ◌++◌, if◌then◌else◌, arith}
use rmake.Build.Trove.{
  TroveState, init, failed, resolving, buildable, waiting, preparing, building, built, unbuildable,
  prebuilt, duplicate, prepared, Status, FailureReason, BuildTrove, is_preparing, is_resolving,
  is_built, is_prebuilt, is_duplicate, is_building, is_failed, is_prepared,
}

-- The arguments behind the trove.
pub data Args : Type 0 where
  no_args : Args
  host_and_number : ℕ → ℕ → Args
  pid_and_settings : ℕ → List ℕ → Args
  troves : List ℕ → Args
  reqs_and_troves : List ℕ → List ℕ → Args
  reason : FailureReason → Args

pub data Event : Type 0 where
  state_updated : (key : ℕ) → TroveState → Status → Event
  preparing_chroot resolving_event built_event prebuilt_event duplicate_event : ℕ → Args → Event
  building_event failed_event prepared_event resolved_event : ℕ → Args → Event

-- `JobStatusPublisher.troveStateUpdated`: the tests are made on the trove, in this order.
unfoldable pub trove_state_updated : BuildTrove → TroveState → Args → List Event
trove_state_updated t state args =
    let k = t.key in
    state_updated k state t.status
    ∷ ((if is_preparing t
          then preparing_chroot k args ∷ []
          else if is_resolving t
          then resolving_event k args ∷ []
          else [])
        ++ ((if is_built t then built_event k args ∷ [] else [])
            ++ ((if is_prebuilt t then prebuilt_event k args ∷ [] else [])
                ++ ((if is_duplicate t
                      then duplicate_event k args ∷ []
                      else if is_building t
                      then building_event k args ∷ []
                      else if is_failed t
                      then failed_event k args ∷ []
                      else [])
                    ++ (if is_prepared t then prepared_event k args ∷ [] else [])))))

-- The one event of a state, besides the update: a table made from the names of the events.
abbrev pub event_of : TroveState → ℕ → Args → List Event
event_of init k args = []
event_of buildable k args = []
event_of waiting k args = []
event_of resolving k args = resolving_event k args ∷ []
event_of preparing k args = preparing_chroot k args ∷ []
event_of building k args = building_event k args ∷ []
event_of built k args = built_event k args ∷ []
event_of prebuilt k args = prebuilt_event k args ∷ []
event_of duplicate k args = duplicate_event k args ∷ []
event_of failed k args = failed_event k args ∷ []
event_of unbuildable k args = failed_event k args ∷ []
event_of prepared k args = prepared_event k args ∷ []

-- A change of state is announced by the update and then by at most one event, the one that the
-- table gives for the state of the trove.
pub trove_state_updated-eq :
    (t : BuildTrove) (state : TroveState) (args : Args)
    → trove_state_updated t state args
      ≡ state_updated t.key state t.status ∷ event_of t.state t.key args
unfolding trove_state_updated is_preparing is_resolving is_built is_prebuilt is_duplicate
    is_building is_failed is_prepared
trove_state_updated-eq t state args = ground arith
