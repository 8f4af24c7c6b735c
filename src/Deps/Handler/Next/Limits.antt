-- ===== src/Deps/Handler/Next/Limits.antt =====
-- What the choice of the next job guarantees.
use rmake.Base.{
  ℕ, ◌≡◌, refl, sym, subst, ◌∙◌, inl, inr, Bool, true, false, not, ◌&&◌, ◌||◌, Option, none, some,
  List, [], ◌∷◌, filter, is_empty, ◌>>=◌, Bool-cases, Option-cases, arith, if◌then◌else◌,
}
use rmake.Base.Pred.{All}
use rmake.Base.Dict.{insert, contains}
use rmake.Build.Trove.{is_prebuilt}
use rmake.Deps.World.{World, JobTup}
use rmake.Deps.Handler.{Handler, make_prebuilt, build_has_occurred}
use rmake.Deps.Handler.Keeping.{make_prebuilt-Keeps, add_resolution_deps_keeps}
use rmake.Deps.Handler.Resolving.{add_resolution_deps}
use rmake.Deps.Handler.Choosing.{
  ResolveJob, is_candidate, insert_by, sort_by, filter_troves, no_job, make_job, fast_rebuild_job,
  get_resolve_job, get_job_from_cycle,
}
use rmake.Deps.Handler.Next.{Answer, or_else}

-- Sorting and filtering keep what holds of all.
module _ {A : Type 0} (Q : A → Type 0) where
  insert_by-All :
      (le : A → A → Bool) (x : A) (l : List A) → Q x → All Q l → All Q (insert_by le x l)
  unfolding insert_by
  insert_by-All le x [] q a = (q, tt)
  insert_by-All le x (y ∷ ys) q a = elim (Bool-cases (le x y)) [
    | inl e ↦ rw e (q, a)
    | inr e ↦ rw e (a.0, insert_by-All le x ys q a.1)
  ]

  pub sort_by-All : (le : A → A → Bool) (l : List A) → All Q l → All Q (sort_by le l)
  unfolding sort_by
  sort_by-All le [] a = tt
  sort_by-All le (x ∷ xs) a = insert_by-All le x _ a.0 (sort_by-All le xs a.1)

  pub filter-All : (p : A → Bool) (l : List A) → All Q l → All Q (filter p l)
  filter-All p [] a = tt
  filter-All p (x ∷ xs) a = elim (Bool-cases (p x)) [
    | inl e ↦ rw e (a.0, filter-All p xs a.1)
    | inr e ↦ rw e (filter-All p xs a.1)
  ]

module _ (w : World) (now : ℕ) (reqs : ℕ → List (JobTup w.conary.Flavor)) where
  -- No job, and the table of resolutions as it was; or the job of a trove of that kind, which was
  -- not being resolved, and is now.
  abbrev pub Chosen :
      (ℕ → Type 0) → Handler w.graphs.Graph → Option ResolveJob → Handler w.graphs.Graph → Type 0
  Chosen P h none u = u.now_resolving ≡ h.now_resolving
  Chosen P h (some j) u =
      P j.trove
      × (contains j.trove h.now_resolving ≡ false)
      × ((c : Option (List ℕ)) × (u.now_resolving ≡ insert j.trove c h.now_resolving))

  -- What holds of the answer, if there is one.
  pub record Answers (P : ℕ → Type 0) (h : Handler w.graphs.Graph) (r : Answer w now reqs)
      : Type 0 where
    pub chosen :
        (job : Option ResolveJob) (u : Handler w.graphs.Graph)
        → r ≡ some (job, u)
        → Chosen P h job u

  module _ (P : ℕ → Type 0) where
    raised : (h : Handler w.graphs.Graph) → Answers P h none
    raised h = record { chosen = λ job u e. absurd (ground (arith, e)) }

    pub answered :
        (h u : Handler w.graphs.Graph) (job : Option ResolveJob)
        → Chosen P h job u
        → Answers P h (some (job, u))
    answered h u job a = record {
      chosen = λ j v e.
          subst (λ (o : Answer w now reqs). elim o [ none ↦ Unit | some (i, x) ↦ Chosen P h i x ]) e
            a;
    }

    pub if-Answers :
        (h : Handler w.graphs.Graph) (b : Bool) (x y : Answer w now reqs)
        → Answers P h x
        → Answers P h y
        → Answers P h (if b then x else y)
    if-Answers h true x y a b = a
    if-Answers h false x y a b = b

    -- A step after another one that may have changed other things.
    then-Answers :
        (h : Handler w.graphs.Graph) (r : Option (Handler w.graphs.Graph))
        (f : Handler w.graphs.Graph → Answer w now reqs)
        → ((u : Handler w.graphs.Graph) → r ≡ some u → Answers P h (f u))
        → Answers P h (r >>= f)
    then-Answers h none f a = raised h
    then-Answers h (some u) f a = a u refl

    prebuilt-Answers :
        (k : ℕ) (c : Option (List ℕ)) (g h : Handler w.graphs.Graph)
        → g.now_resolving ≡ h.now_resolving
        → Answers P h (make_prebuilt w now k c g >>= λ u. some (no_job u))
    prebuilt-Answers k c g h e =
        then-Answers h (make_prebuilt w now k c g) (λ u. some (no_job u))
          (λ u d. answered h u none (make_prebuilt-Keeps w now k c g u d ∙ e))

    module _ (k : ℕ) (in_cycle : Bool) (c : Option (List ℕ)) (h : Handler w.graphs.Graph) where
      make_job-Answers :
          P k
          → contains k h.now_resolving ≡ false
          → Answers P h (some (make_job w now k in_cycle c h))
      unfolding make_job
      make_job-Answers p free = answered h _ _ (p, free, (c, refl))

      fast_rebuild_job-Answers :
          (l : List (JobTup w.conary.Flavor))
          → Answers P h (fast_rebuild_job w now l k in_cycle c h)
      unfolding fast_rebuild_job
      fast_rebuild_job-Answers l = elim (Option-cases (add_resolution_deps w k l [] in_cycle h)) [
        | inl d ↦ rw d (raised h)
        | inr ((found, u), d) ↦
            let kept = add_resolution_deps_keeps w now k l [] in_cycle h (found, u) d in
            rw d (
              if-Answers h (is_empty found) _ _ (prebuilt-Answers k c u h kept)
                (answered h u none kept))
      ]

      pub get_resolve_job-Answers :
          P k
          → contains k h.now_resolving ≡ false
          → Answers P h (get_resolve_job w now reqs k in_cycle c h)
      unfolding get_resolve_job
      get_resolve_job-Answers p free =
          let t = h.deps.objects k in
          let a = w.about k in
          let occurred = build_has_occurred w now h in
          let job = make_job-Answers p free in
          let prebuilt = prebuilt-Answers k c h h refl in
          if-Answers h (not (is_prebuilt t)) _ _ job (
            if-Answers h (h.has_primary && not a.is_primary && occurred) _ _ prebuilt (
              if-Answers h (not t.prebuilt_source_matches) _ _ job (
                if-Answers h
                  (a.ignore_all_rebuild_deps || a.ignore_external_rebuild_deps && not occurred) _ _
                  prebuilt
                  (if-Answers h (t.fast_rebuild && h.allow_fast_resolution) _ _
                    (fast_rebuild_job-Answers (reqs k)) job))))

    -- The candidates of a list are not being resolved.
    abbrev pub Free : Handler w.graphs.Graph → ℕ → Type 0
    Free h k = P k × (contains k h.now_resolving ≡ false)

    pub filter_troves-Free :
        (h : Handler w.graphs.Graph) (l : List ℕ) → All P l → All (Free h) (filter_troves w now h l)
    unfolding filter_troves is_candidate
    filter_troves-Free h [] a = tt
    filter_troves-Free h (x ∷ xs) a =
        let rest = filter_troves-Free h xs a.1 in
        elim (Bool-cases (is_candidate w now h x)) [
          | inl e ↦ rw e ((a.0, unfold is_candidate in ground (arith, e)), rest)
          | inr e ↦ rw e rest
        ]

    pub first-Answers :
        (l : List ℕ) (h : Handler w.graphs.Graph) (f : ℕ → Answer w now reqs)
        → All (Free h) l
        → ((k : ℕ) → Free h k → Answers P h (f k))
        → Answers P h (elim l [ [] ↦ some (no_job h) | k ∷ _ ↦ f k ])
    first-Answers [] h f a g = answered h h none refl
    first-Answers (k ∷ ks) h f a g = g k a.0

    pub get_job_from_cycle-Answers :
        (cycle : List ℕ) (h : Handler w.graphs.Graph)
        → All P cycle
        → Answers P h (get_job_from_cycle w now reqs cycle h)
    unfolding get_job_from_cycle
    get_job_from_cycle-Answers cycle h a =
        first-Answers _ h _ (sort_by-All (Free h) _ _ (filter_troves-Free h cycle a))
          (λ k f. get_resolve_job-Answers k true (some cycle) h f.0 f.1)

    pub move :
        (h u : Handler w.graphs.Graph) (r : Answer w now reqs)
        → h.now_resolving ≡ u.now_resolving
        → Answers P u r
        → Answers P h r
    move h u none e a = raised h
    move h u (some (none, v)) e a = answered h v none (a.chosen none v refl ∙ sym e)
    move h u (some (some j, v)) e a =
        let (p, free, (c, same)) = a.chosen (some j) v refl in
        answered h v (some j) (
          p,
          subst (λ d. contains j.trove d ≡ false) (sym e) free,
          (c, subst (λ d. v.now_resolving ≡ insert j.trove c d) (sym e) same),
        )

    pub or_else-Answers :
        (h : Handler w.graphs.Graph) (r : Answer w now reqs)
        (f : Handler w.graphs.Graph → Answer w now reqs)
        → Answers P h r
        → ((v : Handler w.graphs.Graph) → v.now_resolving ≡ h.now_resolving → Answers P v (f v))
        → Answers P h (or_else w now reqs r f)
    unfolding or_else
    or_else-Answers h none f a g = raised h
    or_else-Answers h (some (some j, u)) f a g = answered h u (some j) (a.chosen (some j) u refl)
    or_else-Answers h (some (none, u)) f a g =
        let e = a.chosen none u refl in move h u (f u) (sym e) (g u e)
