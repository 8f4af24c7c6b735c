-- ===== src/Build/Trove.antt =====
-- rmake/build/buildtrove.py: the states of a trove, the tests on them, and the methods of
-- BuildTrove that change its state and publish the change (rmake/build/publisher.py).
-- A trove is known by its key, the number of its (name, version, flavor, context); a binary trove,
-- a host, a path and a log path are numbers too, with 0 for the empty text.
pub mod Events
pub mod Changes
use rmake.Base.{ℕ, Bool, not, ◌&&◌, ◌||◌, Option, List, [], ◌∷◌, ◌==◌, any}

pub data TroveState : Type 0 where
  init failed resolving buildable waiting preparing building built unbuildable : TroveState
  prebuilt duplicate prepared : TroveState

-- The numbers of `troveStates`.
unfoldable pub state_code : TroveState → ℕ
state_code init = 0
state_code failed = 1
state_code resolving = 2
state_code buildable = 3
state_code waiting = 4
state_code preparing = 5
state_code building = 6
state_code built = 7
state_code unbuildable = 8
state_code prebuilt = 9
state_code duplicate = 10
state_code prepared = 11

pub data BuildType : Type 0 where
  normal prep special : BuildType

-- The classes of rmake/failure.py that this file makes.
pub data FailureReason : Type 0 where
  build_failed : (text : ℕ) → FailureReason
  chroot_failed : (text : ℕ) → FailureReason
  missing_buildreqs : List ℕ → FailureReason
  missing_dependencies : List ℕ → FailureReason
  stopped : (text : ℕ) → FailureReason
  internal_error : (text : ℕ) → FailureReason

-- The texts that `_setState` is given.
pub data Status : Type 0 where
  empty resolving_build_requirements : Status
  dependency_reset : List ℕ → Status
  delayed_for : List ℕ → Status
  cycle_unresolvable : List ℕ → Status
  message : ℕ → Status
  because : FailureReason → Status

pub record BuildTrove : Type 0 where
  pub key : ℕ
  pub state : TroveState
  pub status : Status
  pub failure_reason : Option FailureReason
  pub built_troves : List ℕ
  pub pid : ℕ
  pub start : ℕ
  pub finish : ℕ
  pub chroot_host : ℕ
  pub chroot_path : ℕ
  pub log_path : ℕ
  pub build_type : BuildType
  pub pre_built_requirements : Option (List ℕ)
  pub pre_built_binaries : List ℕ
  pub pre_built_time : ℕ
  pub pre_built_log : ℕ
  pub fast_rebuild : Bool
  pub super_classes_match : Bool
  pub prebuilt_source_matches : Bool

abbrev pub is_state : TroveState → TroveState → Bool
is_state a b = state_code a == state_code b

abbrev pub in_states : TroveState → List TroveState → Bool
in_states a l = any (is_state a) l

module _ (t : BuildTrove) where
  unfoldable pub is_primary_failure : Bool
  unfolding state_code
  is_primary_failure = is_state t.state failed

  unfoldable pub is_failed : Bool
  unfolding state_code
  is_failed = in_states t.state (failed ∷ unbuildable ∷ [])

  unfoldable pub is_prebuilt : Bool
  unfolding state_code
  is_prebuilt = is_state t.state prebuilt

  unfoldable pub is_duplicate : Bool
  unfolding state_code
  is_duplicate = is_state t.state duplicate

  unfoldable pub is_built : Bool
  unfolding state_code
  is_built = is_state t.state built

  unfoldable pub is_prepared : Bool
  unfolding state_code
  is_prepared = is_state t.state prepared

  unfoldable pub is_finished : Bool
  unfolding is_failed is_built is_duplicate is_prepared
  is_finished = is_failed || is_built || is_duplicate || is_prepared

  unfoldable pub is_buildable : Bool
  unfolding state_code
  is_buildable = is_state t.state buildable

  unfoldable pub is_resolving : Bool
  unfolding state_code
  is_resolving = is_state t.state resolving

  unfoldable pub is_building : Bool
  unfolding state_code
  is_building = is_state t.state building

  unfoldable pub is_preparing : Bool
  unfolding state_code
  is_preparing = is_state t.state preparing

  unfoldable pub is_waiting : Bool
  unfolding state_code
  is_waiting = is_state t.state waiting

  unfoldable pub is_started : Bool
  unfolding is_finished state_code
  is_started = not is_finished && not (is_state t.state init)

  unfoldable pub is_unbuilt : Bool
  unfolding state_code
  is_unbuilt = in_states t.state (init ∷ buildable ∷ waiting ∷ resolving ∷ preparing ∷ [])

  unfoldable pub needs_buildreqs : Bool
  unfolding state_code
  needs_buildreqs = in_states t.state (init ∷ prebuilt ∷ [])
