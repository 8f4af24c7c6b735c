-- ===== src/Deps/Handler/Releasing.antt =====
-- The end of a resolution, on every branch: the trove is no longer being resolved, and no other
-- entry of the table changes.
use rmake.Base.{
  ℕ, ◌≡◌, refl, Bool, true, false, ◌&&◌, Option, none, some, List, [], ◌∷◌, adjoin, is_empty, ◌>>=◌,
  arith, if◌then◌else◌,
}
use rmake.Base.Dict.{lookup, insert, erase}
use rmake.Build.Trove.Changes.{
  trove_buildable, trove_resolved_but_delayed, trove_in_cycle_unresolvable, trove_missing_buildreqs,
  trove_unresolvable_deps_reset,
}
use rmake.Deps.World.{World, MissingDep, Resolution}
use rmake.Deps.Handler.{Handler, tell, forget_cycle}
use rmake.Deps.Handler.Keeping.{
  Keeps, tell-Keeps, tell_failed-Keeps, tell_built-Keeps, make_prebuilt-Keeps,
  add_resolution_deps_keeps,
}
use rmake.Deps.Handler.Resolving.{
  Linked, stuck, linked, link_missing, missing_tups, link_missing_deps, add_resolution_deps,
  reset_deps, fail_missing, after_links,
}
use rmake.Deps.Handler.Complete.{
  popped, remove_first, specs_of, cut_edges, make_buildable, compare_prebuilt, settle,
  wait_or_settle, complete_success, harden_all, complete_in_cycle, complete_failed, complete_cycle,
  complete_failure, resolution_complete,
}

module _ (w : World) (now : ℕ) where
  abbrev H : Type 0
  H = Handler w.graphs.Graph

  if-Keeps :
      (h : H) (b : Bool) (x y : Option H)
      → Keeps w now h x
      → Keeps w now h y
      → Keeps w now h (if b then x else y)
  if-Keeps h true x y a c = a
  if-Keeps h false x y a c = c

  bind-Keeps :
      {A : Type 0} (h : H) (m : Option A) (f : A → Option H)
      → ((a : A) → m ≡ some a → Keeps w now h (f a))
      → Keeps w now h (m >>= f)
  bind-Keeps h none f g u e = cc
  bind-Keeps h (some a) f g u e = g a refl u e

  make_buildable-Keeps :
      (k : ℕ) (c : Option (List ℕ)) (r : Resolution w.conary.Flavor) (h : H)
      → Keeps w now h (make_buildable w now k c r h)
  unfolding make_buildable forget_cycle
  make_buildable-Keeps k c r h =
      bind-Keeps h (tell w now k trove_buildable (forget_cycle c h)) _
        (λ v d u e. ground (arith, e, tell-Keeps w now k trove_buildable (forget_cycle c h) v d))

  compare_prebuilt-Keeps :
      (k : ℕ) (old : List ℕ) (fast : Bool) (c : Option (List ℕ)) (r : Resolution w.conary.Flavor)
      (h : H)
      → Keeps w now h (compare_prebuilt w now k old fast c r h)
  unfolding compare_prebuilt cut_edges
  compare_prebuilt-Keeps k old fast c r h u e = ground (
    arith,
    e,
    make_buildable-Keeps k c r h u,
    make_prebuilt-Keeps w now k c h u,
    make_prebuilt-Keeps w now k c (record (cut_edges w now k h) { allow_fast_resolution = fast }) u,
  )

  settle-Keeps :
      (k : ℕ) (fast : Bool) (c : Option (List ℕ)) (r : Resolution w.conary.Flavor)
      (old : Option (List ℕ)) (h : H)
      → Keeps w now h (settle w now k fast c r old h)
  unfolding settle
  settle-Keeps k fast c r (some old) h u e =
      ground (arith, e, make_buildable-Keeps k c r h u, compare_prebuilt-Keeps k old fast c r h u)
  settle-Keeps k fast c r none h u e =
      ground (arith, e, tell_built-Keeps w now k [] h u, make_buildable-Keeps k c r h u)

  wait_or_settle-Keeps :
      (k : ℕ) (fast : Bool) (c : Option (List ℕ)) (r : Resolution w.conary.Flavor) (found : List ℕ)
      (h : H)
      → Keeps w now h (wait_or_settle w now k fast c r found h)
  unfolding wait_or_settle
  wait_or_settle-Keeps k fast c r found h =
      if-Keeps h (is_empty found) _ _
        (settle-Keeps k fast c r (h.deps.objects k).pre_built_requirements h)
        (tell-Keeps w now k (trove_resolved_but_delayed now found) h)

  complete_success-Keeps :
      (k : ℕ) (fast : Bool) (c : Option (List ℕ)) (r : Resolution w.conary.Flavor) (h : H)
      → Keeps w now h (complete_success w now k fast c r h)
  unfolding complete_success cut_edges
  complete_success-Keeps k fast c r h =
      bind-Keeps h (add_resolution_deps w k r.build_reqs r.cross_reqs r.in_cycle h) _ (λ x d u e.
        let v = if is_empty x.0 && r.in_cycle then cut_edges w now k x.1 else x.1 in
        ground (
          arith,
          wait_or_settle-Keeps k fast c r x.0 v u e,
          add_resolution_deps_keeps w now k r.build_reqs r.cross_reqs r.in_cycle h x d,
        ))

  fail_missing-Keeps :
      (k : ℕ) (ds : List MissingDep) (h : H) → Keeps w now h (fail_missing w now k ds h)
  unfolding fail_missing
  fail_missing-Keeps k ds h = tell_failed-Keeps w now k _ h

  reset_deps-Keeps :
      (k : ℕ) (ds : List MissingDep) (h : H) → Keeps w now h (reset_deps w now k ds h)
  unfolding reset_deps
  reset_deps-Keeps k ds h =
      tell-Keeps w now k (trove_unresolvable_deps_reset now (missing_tups w ds))
        (record h { delayed = insert k (missing_tups w ds) h.delayed })

  after_links-Keeps :
      (k : ℕ) (ds : List MissingDep) (c : Option (List ℕ)) (l : Linked w) (h : H)
      → Keeps w now h (after_links w now k ds c l h)
  unfolding after_links forget_cycle
  after_links-Keeps k ds c (stuck d s) h u e =
      fail_missing-Keeps k (d ∷ []) (record h { deps = s }) u e
  after_links-Keeps k ds c (linked added s) h u e =
      let h' = record h { deps = s } in
      ground (
        arith,
        e,
        reset_deps-Keeps k ds h' u,
        reset_deps-Keeps k ds (forget_cycle c h') u,
        fail_missing-Keeps k ds h' u,
      )

  link_missing_deps-Keeps :
      (k : ℕ) (ds : List MissingDep) (c : Option (List ℕ)) (h : H)
      → Keeps w now h (link_missing_deps w now k ds c h)
  unfolding link_missing_deps
  link_missing_deps-Keeps k ds c h = after_links-Keeps k ds c (link_missing w k ds [] h.deps) h

  complete_failed-Keeps :
      (k : ℕ) (c : Option (List ℕ)) (r : Resolution w.conary.Flavor) (h : H)
      → Keeps w now h (complete_failed w now k c r h)
  unfolding complete_failed
  complete_failed-Keeps k c r h u e = ground (
    arith,
    e,
    link_missing_deps-Keeps k r.missing_deps c h u,
    tell_failed-Keeps w now k
        (trove_missing_buildreqs now (specs_of w now r.missing_build_reqs) true) h u,
  )

  complete_in_cycle-Keeps :
      (k : ℕ) (c : Option (List ℕ)) (r : Resolution w.conary.Flavor) (h : H)
      → Keeps w now h (complete_in_cycle w now k c r h)
  unfolding complete_in_cycle
  complete_in_cycle-Keeps k c r h =
      if-Keeps h (is_empty r.missing_build_reqs) _ _ (link_missing_deps-Keeps k r.missing_deps c h)
        (bind-Keeps h (harden_all w now k r.missing_build_reqs h.deps) _ (λ s d u e.
          tell-Keeps w now k (trove_in_cycle_unresolvable now (specs_of w now r.missing_build_reqs))
            (record h { deps = s }) u e))

  complete_cycle-Keeps :
      (k : ℕ) (c : Option (List ℕ)) (r : Resolution w.conary.Flavor) (h : H)
      → Keeps w now h (complete_cycle w now k c r h)
  unfolding complete_cycle
  complete_cycle-Keeps k none r h u e = cc
  complete_cycle-Keeps k (some c) r h u e =
      ground
        (arith, e, complete_failed-Keeps k (some c) r h u, complete_in_cycle-Keeps k (some c) r h u)

  complete_failure-Keeps :
      (k : ℕ) (c : Option (List ℕ)) (r : Resolution w.conary.Flavor) (h : H)
      → Keeps w now h (complete_failure w now k c r h)
  unfolding complete_failure
  complete_failure-Keeps k c r h u e = ground (
    arith,
    e,
    complete_failed-Keeps k c r h u,
    complete_cycle-Keeps k c r (record h { cycle_checked = adjoin k h.cycle_checked }) u,
  )

  -- Whatever the result of a resolution is, where `resolutionComplete` returns, the trove is no
  -- longer being resolved, and the entries of the other troves that are being resolved are as before.
  pub resolution_complete_releases :
      (k : ℕ) (r : Resolution w.conary.Flavor) (h u : H)
      → resolution_complete w now k r h ≡ some u
      → u.now_resolving ≡ erase k h.now_resolving
  unfolding resolution_complete
  resolution_complete_releases k r h u e =
      let c = popped (lookup k h.now_resolving) in
      let h' = record h {
        now_resolving = erase k h.now_resolving;
        allow_fast_resolution = false;
        priorities = remove_first k h.priorities;
      } in
      ground (
        arith,
        e,
        complete_success-Keeps k h.allow_fast_resolution c r h' u,
        complete_failure-Keeps k c r h' u,
      )
