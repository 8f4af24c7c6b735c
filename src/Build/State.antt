-- ===== src/Build/State.antt =====
-- rmake/build/buildstate.py (AbstractBuildState): the sets of troves by state, kept beside a table
-- of the state of each trove. A trove is known by its key, as in Build/Trove, and a set of troves
-- is a list of keys. The dictionary `states`, whose keys are the states, is a function.
pub mod Consistent
pub mod Finish
use rmake.Base.{
  ℕ, Bool, ◌||◌, ◌&&◌, Option, some, List, [], ◌∷◌, ◌++◌, map, elem, all, discard, adjoin, ◌>>=◌,
  if◌then◌else◌,
}
use rmake.Base.Dict.{Dict, lookup, insert}
use rmake.Build.Trove.{
  TroveState, init, failed, resolving, buildable, waiting, preparing, building, built, unbuildable,
  prebuilt, duplicate, prepared, BuildTrove, is_state,
}

pub record BuildState : Type 0 where
  pub troves : List BuildTrove
  pub troves_by_nvf : Dict BuildTrove
  pub states : TroveState → List ℕ
  pub states_by_trove : Dict TroveState

-- `states[st] = l`
abbrev pub put : TroveState → List ℕ → (TroveState → List ℕ) → TroveState → List ℕ
put st l states x = if is_state x st then l else states x

-- One round of the loop of `addTroves`.
unfoldable pub add_one : BuildTrove → BuildState → BuildState
add_one t s = record s {
  troves_by_nvf = insert t.key t s.troves_by_nvf;
  states = put t.state (adjoin t.key (s.states t.state)) s.states;
  states_by_trove = insert t.key t.state s.states_by_trove;
}

unfoldable pub add_each : List BuildTrove → BuildState → BuildState
add_each [] s = s
add_each (t ∷ ts) s = add_each ts (add_one t s)

unfoldable pub add_troves : List BuildTrove → BuildState → BuildState
add_troves ts s = add_each ts (record s { troves = s.troves ++ ts })

-- `AbstractBuildState.__init__`
unfoldable pub new_state : List BuildTrove → BuildState
new_state ts =
    add_troves ts
      (record { troves = []; troves_by_nvf = []; states = λ _. []; states_by_trove = [] })

-- `_setState`: a KeyError, here `none`, where the trove is not known.
unfoldable pub move_to : ℕ → TroveState → TroveState → BuildState → BuildState
move_to key old new s =
    let taken = put old (discard key (s.states old)) s.states in
    record s {
      states = put new (adjoin key (taken new)) taken;
      states_by_trove = insert key new s.states_by_trove;
    }

unfoldable pub set_state : ℕ → TroveState → BuildState → Option BuildState
set_state key new s = do old ← lookup key s.states_by_trove; some (move_to key old new s)

unfoldable pub get_trove : ℕ → BuildState → Option BuildTrove
get_trove key s = lookup key s.troves_by_nvf

-- The equality of two sets.
abbrev pub subset : List ℕ → List ℕ → Bool
subset xs ys = all (λ x. elem x ys) xs

abbrev pub same_set : List ℕ → List ℕ → Bool
same_set xs ys = subset xs ys && subset ys xs

abbrev pub keys_of : List BuildTrove → List ℕ
keys_of ts = map (λ t. t.key) ts

module _ (s : BuildState) where
  unfoldable pub get_buildable_troves : List ℕ
  get_buildable_troves = s.states buildable

  unfoldable pub get_building_troves : List ℕ
  get_building_troves = s.states building

  unfoldable pub get_built_troves : List ℕ
  get_built_troves = s.states built

  unfoldable pub get_duplicate_troves : List ℕ
  get_duplicate_troves = s.states duplicate

  unfoldable pub get_prepared_troves : List ℕ
  get_prepared_troves = s.states prepared

  unfoldable pub get_failed_troves : List ℕ
  get_failed_troves = s.states failed ++ s.states unbuildable

  unfoldable pub finished_keys : List ℕ
  finished_keys =
      ((get_built_troves ++ get_duplicate_troves) ++ get_prepared_troves) ++ get_failed_troves

  unfoldable pub job_finished : Bool
  job_finished = same_set (keys_of s.troves) finished_keys

  unfoldable pub passed_keys : List ℕ
  passed_keys = get_built_troves ++ (get_duplicate_troves ++ get_prepared_troves)

  unfoldable pub job_passed : Bool
  job_passed = same_set (keys_of s.troves) passed_keys

  unfoldable pub is_unbuilt_key : ℕ → Bool
  is_unbuilt_key k =
      elem k (s.states init)
      || elem k (s.states buildable)
      || elem k (s.states building)
      || elem k (s.states preparing)
      || elem k (s.states resolving)
      || elem k (s.states prebuilt)
      || elem k (s.states waiting)

  unfoldable pub is_built_key : ℕ → Bool
  is_built_key k = elem k (s.states built)
