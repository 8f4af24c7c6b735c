-- ===== src/Build/State/Finish.antt =====
-- What the tests of the build state mean: they compare sets of troves, and so they are tests on
-- the state that each trove has in the table.
use rmake.Base.{
  ℕ, ◌≡◌, refl, Bool, true, false, not, ◌||◌, Option, none, some, List, [], ◌∷◌, ◌++◌, elem, all,
  arith,
}
use rmake.Base.Dict.{lookup}
use rmake.Build.Trove.{
  TroveState, init, failed, resolving, buildable, waiting, preparing, building, built, unbuildable,
  prebuilt, duplicate, prepared, BuildTrove, state_code,
}
use rmake.Build.State.{
  BuildState, subset, same_set, keys_of, get_built_troves, get_duplicate_troves,
  get_prepared_troves, get_failed_troves, finished_keys, job_finished, passed_keys, job_passed,
  is_unbuilt_key,
}
use rmake.Build.State.Consistent.{is_at, Agree, IsConsistent}

-- The states in which nothing is left to do, and those of them in which all went well.
abbrev pub is_done : TroveState → Bool
is_done built = true
is_done duplicate = true
is_done prepared = true
is_done failed = true
is_done unbuildable = true
is_done _ = false

abbrev pub is_passed : TroveState → Bool
is_passed built = true
is_passed duplicate = true
is_passed prepared = true
is_passed _ = false

abbrev pub holds : (TroveState → Bool) → Option TroveState → Bool
holds p none = false
holds p (some x) = p x

-- The tests on the state of one trove, joined as the sets are.
is_done-eq :
    (o : Option TroveState)
    → (((is_at built o || is_at duplicate o) || is_at prepared o)
        || (is_at failed o || is_at unbuildable o))
      ≡ holds is_done o
unfolding state_code
is_done-eq none = refl
is_done-eq (some init) = refl
is_done-eq (some failed) = refl
is_done-eq (some resolving) = refl
is_done-eq (some buildable) = refl
is_done-eq (some waiting) = refl
is_done-eq (some preparing) = refl
is_done-eq (some building) = refl
is_done-eq (some built) = refl
is_done-eq (some unbuildable) = refl
is_done-eq (some prebuilt) = refl
is_done-eq (some duplicate) = refl
is_done-eq (some prepared) = refl

is_passed-eq :
    (o : Option TroveState)
    → (is_at built o || (is_at duplicate o || is_at prepared o)) ≡ holds is_passed o
unfolding state_code
is_passed-eq none = refl
is_passed-eq (some init) = refl
is_passed-eq (some failed) = refl
is_passed-eq (some resolving) = refl
is_passed-eq (some buildable) = refl
is_passed-eq (some waiting) = refl
is_passed-eq (some preparing) = refl
is_passed-eq (some building) = refl
is_passed-eq (some built) = refl
is_passed-eq (some unbuildable) = refl
is_passed-eq (some prebuilt) = refl
is_passed-eq (some duplicate) = refl
is_passed-eq (some prepared) = refl

left-eq :
    (o : Option TroveState)
    → (is_at init o
        || is_at buildable o
        || is_at building o
        || is_at preparing o
        || is_at resolving o
        || is_at prebuilt o
        || is_at waiting o)
      ≡ holds (λ x. not (is_done x)) o
unfolding state_code
left-eq none = refl
left-eq (some init) = refl
left-eq (some failed) = refl
left-eq (some resolving) = refl
left-eq (some buildable) = refl
left-eq (some waiting) = refl
left-eq (some preparing) = refl
left-eq (some building) = refl
left-eq (some built) = refl
left-eq (some unbuildable) = refl
left-eq (some prebuilt) = refl
left-eq (some duplicate) = refl
left-eq (some prepared) = refl

elem-append : (k : ℕ) (xs ys : List ℕ) → elem k (xs ++ ys) ≡ (elem k xs || elem k ys)
elem-append k [] ys = refl
elem-append k (x ∷ xs) ys = ground (arith, elem-append k xs ys)

subset-elem :
    (xs ys : List ℕ) → ((k : ℕ) → elem k xs ≡ true → elem k ys ≡ true) → subset xs ys ≡ true
subset-elem [] ys h = refl
subset-elem (x ∷ xs) ys h = ground (arith, h x, subset-elem xs ys (λ k e. h k (ground arith)))

-- Membership in the set that a test compares with.
module _ (s : BuildState) (v : Agree s) where
  elem-finished_keys :
      (k : ℕ) → elem k (finished_keys s) ≡ holds is_done (lookup k s.states_by_trove)
  unfolding finished_keys get_built_troves get_duplicate_troves get_prepared_troves
      get_failed_troves
  elem-finished_keys k = ground (
    arith,
    elem-append k ((s.states built ++ s.states duplicate) ++ s.states prepared)
        (s.states failed ++ s.states unbuildable),
    elem-append k (s.states built ++ s.states duplicate) (s.states prepared),
    elem-append k (s.states built) (s.states duplicate),
    elem-append k (s.states failed) (s.states unbuildable),
    v.sets k built,
    v.sets k duplicate,
    v.sets k prepared,
    v.sets k failed,
    v.sets k unbuildable,
    is_done-eq (lookup k s.states_by_trove),
  )

  elem-passed_keys : (k : ℕ) → elem k (passed_keys s) ≡ holds is_passed (lookup k s.states_by_trove)
  unfolding passed_keys get_built_troves get_duplicate_troves get_prepared_troves
  elem-passed_keys k = ground (
    arith,
    elem-append k (s.states built) (s.states duplicate ++ s.states prepared),
    elem-append k (s.states duplicate) (s.states prepared),
    v.sets k built,
    v.sets k duplicate,
    v.sets k prepared,
    is_passed-eq (lookup k s.states_by_trove),
  )

  -- A trove that is known is unbuilt, by the test on the seven sets, just if its state is not
  -- one of those in which nothing is left to do.
  pub is_unbuilt_key-eq :
      (k : ℕ) → is_unbuilt_key s k ≡ holds (λ x. not (is_done x)) (lookup k s.states_by_trove)
  unfolding is_unbuilt_key
  is_unbuilt_key-eq k = ground (
    arith,
    v.sets k init,
    v.sets k buildable,
    v.sets k building,
    v.sets k preparing,
    v.sets k resolving,
    v.sets k prebuilt,
    v.sets k waiting,
    left-eq (lookup k s.states_by_trove),
  )

-- The two sets of keys are equal where one holds no key beside the troves.
same_set-all :
    (ts : List BuildTrove) (keys : List ℕ) (p : ℕ → Bool)
    → ((k : ℕ) → elem k keys ≡ p k)
    → ((k : ℕ) → p k ≡ true → elem k (keys_of ts) ≡ true)
    → same_set (keys_of ts) keys ≡ all (λ t. p t.key) ts
same_set-all ts keys p h k =
    ground (arith, subset-elem keys (keys_of ts) (λ j e. ground (arith, h j, k j)), one ts)
  where
    one : (us : List BuildTrove) → subset (keys_of us) keys ≡ all (λ t. p t.key) us
    one [] = refl
    one (u ∷ us) = ground (arith, h u.key, one us)

-- What the three tests mean.
pub record Meaning (s : BuildState) : Type 0 where
  pub finishes : job_finished s ≡ all (λ t. holds is_done (lookup t.key s.states_by_trove)) s.troves
  pub passes : job_passed s ≡ all (λ t. holds is_passed (lookup t.key s.states_by_trove)) s.troves
  pub leaves :
      (k : ℕ) → is_unbuilt_key s k ≡ holds (λ x. not (is_done x)) (lookup k s.states_by_trove)

-- In a consistent build state the job is finished just if every trove is built, duplicate, prepared,
-- failed or unbuildable by the table, it has passed just if every trove is in one of the first three
-- states, and a trove is unbuilt just if the table knows it in none of the five.
pub job_finished_lem : (s : BuildState) → IsConsistent s → Meaning s
unfolding job_finished job_passed
job_finished_lem s v = record {
  finishes =
      same_set-all s.troves (finished_keys s) (λ k. holds is_done (lookup k s.states_by_trove))
        (elem-finished_keys s v.agree) (λ k e. ground (arith, e, v.listed k));
  passes =
      same_set-all s.troves (passed_keys s) (λ k. holds is_passed (lookup k s.states_by_trove))
        (elem-passed_keys s v.agree) (λ k e. ground (arith, e, v.listed k));
  leaves = is_unbuilt_key-eq s v.agree;
}
