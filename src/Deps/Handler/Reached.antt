-- ===== src/Deps/Handler/Reached.antt =====
-- The handler over a whole build: the builder asks it for jobs and for troves to build, it is told
-- of results, and hears of what happens to troves, in any order.
use rmake.Base.{
  ℕ, ◌≤◌, ◌≡◌, ap, inl, inr, Bool, Option, none, some, List, [], ◌∷◌, length, ◌>>=◌, Option-cases,
  arith,
}
use rmake.Base.Dict.{Dict, erase}
use rmake.Deps.World.{World, JobTup, Resolution}
use rmake.Build.Trove.{BuildTrove}
use rmake.Build.State.{set_state}
use rmake.Deps.State.{DepState, update_object, pop_buildable}
use rmake.Deps.Handler.{
  Handler, new_handler, on_trove_failed, on_trove_building, on_trove_prepared, on_trove_duplicate,
  on_trove_built,
}
use rmake.Deps.Handler.Keeping.{on_trove_failed-Keeps, match_duplicate-Keeps, on_trove_built-Keeps}
use rmake.Deps.Handler.Complete.{resolution_complete}
use rmake.Deps.Handler.Releasing.{resolution_complete_releases}
use rmake.Deps.Handler.Next.{get_next_resolve_job}
use rmake.Deps.Handler.Next.Bounds.{get_next_resolve_job_bounds}

module _ (w : World) (now : ℕ) (reqs : ℕ → List (JobTup w.conary.Flavor)) where
  -- The calls of the builder that change the handler, and the events that it is subscribed to. A
  -- trove that others have changed is known by the change; its state is published with it.
  pub data Input : Type 0 where
    next_job : (break_cycles : Bool) → Input
    buildable_trove special_trove : Input
    trove_state_updated : ℕ → (BuildTrove → BuildTrove) → Input
    trove_resolved : ℕ → Resolution w.conary.Flavor → Input
    trove_failed trove_building trove_prepared : ℕ → Input
    trove_built trove_duplicate : ℕ → List ℕ → Input

  -- `popBuildableTrove`
  unfoldable pub pop_buildable_trove : Handler w.graphs.Graph → Option (Handler w.graphs.Graph)
  pop_buildable_trove h = pop_buildable w.graphs h.deps >>= λ r. some (record h { deps = r.1 })

  -- `popSpecialTrove`: the last one goes; an IndexError, `none`, where there is none.
  unfoldable pub without_last : List ℕ → Option (List ℕ)
  without_last [] = none
  without_last (k ∷ []) = some []
  without_last (k ∷ j ∷ ks) = without_last (j ∷ ks) >>= λ l. some (k ∷ l)

  unfoldable pub pop_special_trove : Handler w.graphs.Graph → Option (Handler w.graphs.Graph)
  pop_special_trove h =
      without_last h.inactive_special >>= λ l. some (record h { inactive_special = l })

  -- `troveStateUpdated`, after a change of the trove by others
  unfoldable pub on_trove_state_updated :
      ℕ → (BuildTrove → BuildTrove) → Handler w.graphs.Graph → Option (Handler w.graphs.Graph)
  on_trove_state_updated k f h =
      let s = update_object k f h.deps in
      set_state k (s.objects k).state s.base >>= λ b.
      some (record h { deps = record s { base = b } })

  unfoldable pub handle : Input → Handler w.graphs.Graph → Option (Handler w.graphs.Graph)
  handle (next_job b) h = get_next_resolve_job w now reqs b h >>= λ r. some (r.1)
  handle buildable_trove h = pop_buildable_trove h
  handle special_trove h = pop_special_trove h
  handle (trove_state_updated k f) h = on_trove_state_updated k f h
  handle (trove_resolved k r) h = resolution_complete w now k r h
  handle (trove_failed k) h = on_trove_failed w now k h
  handle (trove_building k) h = some (on_trove_building w now k h)
  handle (trove_prepared k) h = some (on_trove_prepared w now k h)
  handle (trove_built k l) h = on_trove_built w now k l h
  handle (trove_duplicate k l) h = on_trove_duplicate w now k l h

  pub data Reached (s : DepState w.graphs.Graph) (specials : List ℕ)
      : Handler w.graphs.Graph → Type 0 where
    begun : Reached s specials (new_handler w now s specials)
    then_came :
        {h u : Handler w.graphs.Graph} (i : Input)
        → Reached s specials h
        → handle i h ≡ some u
        → Reached s specials u

  length-erase : {V : Type 0} (k : ℕ) (d : Dict V) → length (erase k d) ≤ length d
  unfolding erase
  length-erase k [] = omega arith
  length-erase k ((j, v) ∷ d) = ground (arith, length-erase k d)

  handle_bounds :
      (i : Input) (h u : Handler w.graphs.Graph)
      → handle i h ≡ some u
      → length h.now_resolving ≤ 10
      → length u.now_resolving ≤ 10
  unfolding handle on_trove_building on_trove_prepared on_trove_duplicate pop_buildable_trove
      pop_special_trove on_trove_state_updated
  handle_bounds (next_job b) h u e n = elim (Option-cases (get_next_resolve_job w now reqs b h)) [
    | inl bad ↦ absurd (ground (arith, e, bad))
    | inr ((job, v), good) ↦
        let r = get_next_resolve_job_bounds w now reqs b h v job n good in
        ground (arith, e, good, r.0)
  ]
  handle_bounds buildable_trove h u e n = ground (arith, e)
  handle_bounds special_trove h u e n = ground (arith, e)
  handle_bounds (trove_state_updated k f) h u e n = ground (arith, e)
  handle_bounds (trove_resolved k r) h u e n = omega (
    arith,
    ap length (resolution_complete_releases w now k r h u e),
    length-erase k h.now_resolving,
  )
  handle_bounds (trove_failed k) h u e n =
      omega (arith, ap length (on_trove_failed-Keeps w now k h u e))
  handle_bounds (trove_building k) h u e n = ground (arith, e)
  handle_bounds (trove_prepared k) h u e n = ground (arith, e)
  handle_bounds (trove_built k l) h u e n =
      omega (arith, ap length (on_trove_built-Keeps w now k l h u e))
  handle_bounds (trove_duplicate k l) h u e n =
      omega (arith, ap length (match_duplicate-Keeps w now k l _ h u e))

  -- From the start of a build on, in any order of the calls of the builder (for a resolve job, a
  -- buildable or a special trove), of the results of resolutions, of the events of failed, building,
  -- prepared, built and duplicate troves and of any changes of troves by others whose new state is
  -- published, none of which raises an exception, at most ten troves are being resolved at a time.
  pub Reached-bounds :
      (s : DepState w.graphs.Graph) (specials : List ℕ) (h : Handler w.graphs.Graph)
      → Reached s specials h
      → length h.now_resolving ≤ 10
  unfolding new_handler
  Reached-bounds s specials h begun = omega arith
  Reached-bounds s specials u (then_came {h} i r e) =
      handle_bounds i h u e (Reached-bounds s specials h r)
