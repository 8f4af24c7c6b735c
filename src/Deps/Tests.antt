-- ===== src/Deps/Tests.antt =====
-- A small build: 2 requires 1 for one requirement, 3 requires 1 or 2 for another, 4 requires 3.
mod EdgeLists
use rmake.Base.{
  ap, ◌>>=◌, any, elem, ℕ, ◌+◌, ◌*◌, ◌≤◌, ◌≡◌, refl, Bool, true, false, not, Option, none, some,
  List, [], ◌∷◌, ◌==◌, length, arith, if◌then◌else◌,
}
use rmake.Base.Dict.{lookup, insert, contains, values}
use rmake.Flavors.{Conary, get_arch_flags, has_target}
use rmake.Flavors.Built.{Overrides}
use rmake.Build.Trove.{
  state_code, BuildTrove, init, waiting, failed, empty, normal, needs_buildreqs, is_prebuilt,
  is_built,
}
use rmake.Build.State.{BuildState, new_state, set_state, move_to, add_troves, add_one, add_each}
use rmake.Build.State.Consistent.{IsConsistent, new_state-IsConsistent}
use rmake.Deps.Graphs.{Reason, spec, dep, needs}
use rmake.Deps.World.{World, Recipe, Spec, JobTup}
use rmake.Deps.State.{
  DepState, update_object, solutions, failed_one, has_hard_dependency, get_all_binaries,
}
use rmake.Deps.State.Merging.{Merged, duplicate_one-eq}
use rmake.Deps.State.Binaries.{Recorded, built_one-eq}
use rmake.Deps.Failing.{fail_trove, fail_loop, other_solution, push_requirers, announce, note}
use rmake.Deps.Failing.Cascade.{FailureSpreads, fail_trove_total}
use rmake.Deps.Handler.{Handler, new_handler, on_trove_building}
use rmake.Deps.Handler.Choosing.{
  ResolveJob, goes_before, index_of, sort_by, insert_by, filter_troves, is_candidate,
  get_resolve_job, make_job, lex_le,
}
use rmake.Deps.Handler.Next.{
  attempt_fast_resolve, oldest_first, prebuilt_times, first_component, no_fast,
  get_next_resolve_job, slow_resolve, or_else, try_components, in_order, component_le,
  try_component, is_new_cycle,
}
use rmake.Deps.State.Requirements.{has_target_arch}
use rmake.Deps.Handler.Next.Limits.{Chosen}
use rmake.Deps.Handler.Next.Bounds.{get_next_resolve_job_bounds}
use rmake.Deps.Handler.Failed.{AfterFailure, on_trove_failed_total}
use rmake.Deps.Handler.Reached.{
  Reached, begun, then_came, next_job, trove_state_updated, trove_building, on_trove_state_updated,
  handle, Reached-bounds,
}
use rmake.Deps.Tests.EdgeLists.{edge_lists, edge_lists-GraphLaws}

-- Flavors are numbers with one instruction set each.
abbrev plain : Conary
plain = record {
  Flavor = ℕ;
  Dep = ℕ;
  empty = 0;
  ins_deps = λ f. some (f ∷ []);
  target_deps = λ f. none;
  bare = λ d. d;
  add_ins = λ f d. d;
  add_target = λ f d. f;
  filter_flavor = λ f fs. f;
  strongly_satisfies = λ f g. f == g;
  cross_flavor = 9;
}

abbrev overrides : Overrides plain
overrides = record {
  iter_deps = λ f. (1, f) ∷ [];
  add_dep = λ tag d f. d;
  is_tag = 1;
  target_tag = 2;
  override_flavor = λ a b. b;
  is_blank_flavor = λ f. f == 0;
  strong_satisfies = λ a b. a == b;
  major_arch = λ f. some f;
  current_arch = 1;
  arch_dep = λ n. n;
}

abbrev recipe : ℕ → Recipe ℕ
recipe k = record {
  name = k;
  pkg = k;
  version = 1;
  flavor = 1;
  packages = k ∷ [];
  is_primary = true;
  is_group = false;
  ignore_all_rebuild_deps = false;
  ignore_external_rebuild_deps = false;
  build_specs = [];
  cross_specs = [];
  loaded_specs = [];
  delayed_requirements = [];
}

abbrev world : World
world = record {
  graphs = edge_lists;
  conary = plain;
  overrides = overrides;
  about = recipe;
  tup = λ a b. a * 100 + b;
  nbf = λ b. b;
  is_component = λ b. true;
  plain_spec = λ x. x;
}

abbrev trove : ℕ → BuildTrove
trove k = record {
  key = k;
  state = init;
  status = empty;
  failure_reason = none;
  built_troves = [];
  pid = 0;
  start = 0;
  finish = 0;
  chroot_host = 0;
  chroot_path = 0;
  log_path = 0;
  build_type = normal;
  pre_built_requirements = none;
  pre_built_binaries = [];
  pre_built_time = 0;
  pre_built_log = 0;
  fast_rebuild = false;
  super_classes_match = false;
  prebuilt_source_matches = false;
}

abbrev why : ℕ → Reason
why k = record { is_cross = false; wants = spec k }

abbrev troves : List BuildTrove
troves = trove 1 ∷ trove 2 ∷ trove 3 ∷ trove 4 ∷ []

abbrev state : DepState (List ℕ × List (ℕ × ℕ × Reason))
state = record {
  dumb_mode = false;
  troves_by_package = [];
  build_req_troves = [];
  dep_graph =
      (1 ∷ 2 ∷ 3 ∷ 4 ∷ [], (2, 1, why 10) ∷ (3, 1, why 11) ∷ (3, 2, why 11) ∷ (4, 3, why 12) ∷ []);
  hard_dep_graph = ([], []);
  built_troves = (70, 70) ∷ [];
  rejected_deps = [];
  disallowed = [];
  has_primary_troves = true;
  base = new_state troves;
  objects = trove;
}

abbrev pair : ℕ → ℕ → ℕ
pair a b = a * 100 + b

told_of : Option (DepState (List ℕ × List (ℕ × ℕ × Reason)) × List (ℕ × Reason)) → List (ℕ × Reason)
told_of none = []
told_of (some (s, told)) = told

-- The failure of 1 takes all of them, that of 2 nothing else.
fail_trove_test :
    told_of (fail_trove edge_lists pair 5 1 state) ≡ (2, why 10) ∷ (3, why 11) ∷ (4, why 12) ∷ []
unfolding told_of fail_trove fail_loop other_solution push_requirers announce note failed_one
    solutions
fail_trove_test = refl

fail_trove_spares : told_of (fail_trove edge_lists pair 5 2 state) ≡ []
unfolding told_of fail_trove fail_loop other_solution push_requirers announce note failed_one
    solutions
fail_trove_spares = refl

fail_trove_total_example : FailureSpreads edge_lists pair 5 edge_lists-GraphLaws state 1
fail_trove_total_example = fail_trove_total edge_lists pair 5 edge_lists-GraphLaws state 1

abbrev handler : Handler (List ℕ × List (ℕ × ℕ × Reason))
handler = record {
  deps = state;
  inactive_special = [];
  now_resolving = [];
  priorities = [];
  delayed = (1, 7 ∷ []) ∷ [];
  cycle_checked = [];
  seen_cycles = [];
  allow_fast_resolution = false;
  possible_duplicates = [];
  prebuilt_binaries = [];
  has_primary = true;
}

state-IsConsistent : IsConsistent (new_state troves)
unfolding new_state add_troves add_each add_one lookup
state-IsConsistent =
    (new_state-IsConsistent troves ((refl, refl, (refl, refl, (refl, refl, (refl, refl, tt)))))).0

state_known :
    (r : ℕ) (q : Reason) (p : ℕ)
    → needs edge_lists state.dep_graph r q p ≡ true
    → contains r state.base.states_by_trove ≡ true
unfolding new_state add_troves add_each add_one lookup insert
state_known r q p h = ground (arith, h)

on_trove_failed_example : AfterFailure world 5 edge_lists-GraphLaws 1 handler
on_trove_failed_example =
    on_trove_failed_total world 5 edge_lists-GraphLaws 1 handler state-IsConsistent state_known

duplicate_one_example : Merged edge_lists edge_lists-GraphLaws 2 1 state
duplicate_one_example =
    duplicate_one-eq edge_lists edge_lists-GraphLaws 2 1 state refl refl (unfold is_built in refl)

built_one_example : Recorded edge_lists edge_lists-GraphLaws (λ b. b) 1 (71 ∷ 72 ∷ []) state
built_one_example = built_one-eq edge_lists edge_lists-GraphLaws (λ b. b) 1 (71 ∷ 72 ∷ []) state

-- 1 is the only leaf, and is delayed no more.
abbrev ready : Handler (List ℕ × List (ℕ × ℕ × Reason))
ready = record handler { delayed = [] }

abbrev first_job : ResolveJob
first_job = record { trove = 1; built_troves = 70 ∷ []; cross_troves = []; in_cycle = false }

abbrev after_first : Handler (List ℕ × List (ℕ × ℕ × Reason))
after_first = record ready { now_resolving = (1, none) ∷ [] }

no_reqs : ℕ → List (JobTup ℕ)
no_reqs k = []

get_next_test : get_next_resolve_job world 5 no_reqs true ready ≡ some (some first_job, after_first)
unfolding get_next_resolve_job slow_resolve or_else try_components in_order component_le goes_before
    index_of sort_by insert_by try_component filter_troves is_candidate needs_buildreqs lookup
    has_hard_dependency get_resolve_job is_prebuilt make_job has_target_arch has_target insert
    is_new_cycle get_all_binaries values state_code lex_le no_reqs
get_next_test = refl

get_next_resolve_job_example :
    (length after_first.now_resolving ≤ 10)
    × Chosen world 5 no_reqs
        (λ k. any (elem k) ((1 ∷ []) ∷ []) ≡ true)
        ready
        (some first_job)
        after_first
get_next_resolve_job_example =
    get_next_resolve_job_bounds world 5 no_reqs true ready after_first (some first_job)
      (omega arith) get_next_test

abbrev started : Handler (List ℕ × List (ℕ × ℕ × Reason))
started = record ready { allow_fast_resolution = true }

get_first_test :
    get_next_resolve_job world 5 no_reqs true started ≡ some (some first_job, after_first)
unfolding get_next_resolve_job attempt_fast_resolve oldest_first prebuilt_times first_component
    no_fast slow_resolve or_else try_components in_order component_le goes_before index_of sort_by
    insert_by try_component filter_troves is_candidate needs_buildreqs lookup has_hard_dependency
    get_resolve_job is_prebuilt make_job has_target_arch has_target insert is_new_cycle
    get_all_binaries values state_code lex_le no_reqs
get_first_test = refl

after_first-Reached : Reached world 5 no_reqs state [] after_first
unfolding handle new_handler
after_first-Reached =
    then_came {h = started} (next_job true) begun (ap (λ r. r >>= λ x. some (x.1)) get_first_test)

-- Then others take the trove on, and another trove begins to be built.
abbrev take_on : BuildTrove → BuildTrove
take_on t = record t { state = waiting }

taken_on :
    (h : Handler (List ℕ × List (ℕ × ℕ × Reason))) × (handle world 5 no_reqs
        (trove_state_updated 1 take_on)
        after_first
      ≡ some h)
unfolding handle on_trove_state_updated update_object set_state move_to lookup new_state add_troves
    add_each add_one insert
taken_on = (_, refl)

abbrev last : Handler (List ℕ × List (ℕ × ℕ × Reason))
last = on_trove_building world 5 2 taken_on.0

last-Reached : Reached world 5 no_reqs state [] last
unfolding handle
last-Reached =
    then_came {h = taken_on.0} (trove_building 2)
      (then_came {h = after_first} (trove_state_updated 1 take_on) after_first-Reached taken_on.1)
      refl

Reached-bounds_example : length last.now_resolving ≤ 10
Reached-bounds_example = Reached-bounds world 5 no_reqs state [] last last-Reached
