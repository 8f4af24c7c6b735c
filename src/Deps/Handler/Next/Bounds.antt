-- ===== src/Deps/Handler/Next/Bounds.antt =====
-- The next job: how many resolutions run, and which troves they are for.
use rmake.Base.{
  ℕ, ◌+◌, ◌≤◌, ◌≡◌, refl, ap, ◌∙◌, inl, inr, Bool, true, false, not, ◌&&◌, ◌||◌, Option, none, some,
  List, [], ◌∷◌, any, all, elem, length, is_empty, leb, ltb, map, Bool-cases, Option-cases, ==_self,
  arith,
}
use rmake.Base.Pred.{All}
use rmake.Base.Dict.{Dict, lookup, insert, contains}
use rmake.Build.Trove.{is_prebuilt}
use rmake.Build.Trove.Changes.{trove_missing_dependencies}
use rmake.Deps.World.{World, JobTup}
use rmake.Deps.State.{has_buildable_troves}
use rmake.Deps.Handler.{Handler, tell_failed}
use rmake.Deps.Handler.Keeping.{tell_failed-Keeps}
use rmake.Deps.Handler.Choosing.{ResolveJob, sort_by, goes_before, filter_troves}
use rmake.Deps.Handler.Next.{
  Answer, oldest_first, no_fast, fast_component, first_component, attempt_fast_resolve,
  try_component, try_components, fail_delayed, finish_round, component_le, in_order, slow_resolve,
  get_next_resolve_job,
}
use rmake.Deps.Handler.Next.Limits.{
  sort_by-All, filter-All, Chosen, Answers, answered, if-Answers, first-Answers, filter_troves-Free,
  get_resolve_job-Answers, get_job_from_cycle-Answers, or_else-Answers, move,
}

tabulate_elems : (Q : ℕ → Type 0) (l : List ℕ) → ((k : ℕ) → elem k l ≡ true → Q k) → All Q l
tabulate_elems Q [] f = tt
tabulate_elems Q (x ∷ xs) f =
    (f x (ground (arith, ==_self x)), tabulate_elems Q xs (λ k e. f k (ground (arith, e))))

-- The troves of the lists.
abbrev Among : List (List ℕ) → ℕ → Type 0
Among lists k = any (elem k) lists ≡ true

tabulate_lists :
    (ls lists : List (List ℕ))
    → ((k : ℕ) → any (elem k) ls ≡ true → Among lists k)
    → All (All (Among lists)) ls
tabulate_lists [] lists f = tt
tabulate_lists (l ∷ ls) lists f = (
  tabulate_elems (Among lists) l (λ k e. f k (ground (arith, e))),
  tabulate_lists ls lists (λ k e. f k (ground (arith, e))),
)

length-insert : {V : Type 0} (k : ℕ) (v : V) (d : Dict V) → length (insert k v d) ≤ length d + 1
unfolding insert
length-insert k v [] = omega arith
length-insert k v ((j, x) ∷ d) = ground (arith, length-insert k v d)

nothing_held : {V : Type 0} (k : ℕ) (d : Dict V) → is_empty d ≡ true → contains k d ≡ false
unfolding lookup
nothing_held k [] h = refl
nothing_held k (x ∷ d) h = cc

module _ (w : World) (now : ℕ) (reqs : ℕ → List (JobTup w.conary.Flavor)) (P : ℕ → Type 0)
    (breaks : Bool) where
  abbrev Held : Handler w.graphs.Graph → Answer w now reqs → Type 0
  Held = Answers w now reqs P

  fast_component-Answers :
      (l : List ℕ) (h : Handler w.graphs.Graph)
      → All P l
      → is_empty h.now_resolving ≡ true
      → Held h (fast_component w now reqs breaks l h)
  unfolding fast_component no_fast
  fast_component-Answers [] h a e = answered w now reqs P h _ none refl
  fast_component-Answers (k ∷ []) h a e =
      get_resolve_job-Answers w now reqs P k false none h a.0 (nothing_held k h.now_resolving e)
  fast_component-Answers (k ∷ l ∷ ls) h a e =
      if-Answers w now reqs P h (breaks && all (λ x. is_prebuilt (h.deps.objects x)) (k ∷ l ∷ ls)) _
        _ (get_job_from_cycle-Answers w now reqs P (k ∷ l ∷ ls) h a)
        (answered w now reqs P h _ none refl)

  try_component-Answers :
      (c : List ℕ) (h : Handler w.graphs.Graph)
      → All P c
      → Held h (try_component w now reqs breaks c h)
  unfolding try_component
  try_component-Answers c h a =
      if-Answers w now reqs P h (ltb 1 (length c)) _ _
        (if-Answers w now reqs P h (not breaks || any (λ x. contains x h.now_resolving) c) _ _
          (answered w now reqs P h h none refl) (get_job_from_cycle-Answers w now reqs P c h a))
        (first-Answers w now reqs P (filter_troves w now h c) h _
          (filter_troves-Free w now reqs P h c a)
          (λ k f. get_resolve_job-Answers w now reqs P k false none h f.0 f.1))

  try_components-Answers :
      (cs : List (List ℕ)) (h : Handler w.graphs.Graph)
      → All (All P) cs
      → Held h (try_components w now reqs breaks cs h)
  unfolding try_components
  try_components-Answers [] h a = answered w now reqs P h h none refl
  try_components-Answers (c ∷ cs) h a =
      or_else-Answers w now reqs P h _ _ (try_component-Answers c h a.0)
        (λ v e. try_components-Answers cs v a.1)

  fail_delayed_keeps :
      (d : Dict (List ℕ)) (h u : Handler w.graphs.Graph)
      → fail_delayed w now reqs d h ≡ some u
      → u.now_resolving ≡ h.now_resolving
  unfolding fail_delayed
  fail_delayed_keeps [] h u e = ground arith
  fail_delayed_keeps ((k, l) ∷ ds) h u e =
      elim (Option-cases (tell_failed w now k (trove_missing_dependencies now l true) h)) [
        | inl d ↦ absurd (ground (arith, e, d))
        | inr (v, d) ↦
            fail_delayed_keeps ds v u (ground (arith, e, d))
            ∙ tell_failed-Keeps w now k (trove_missing_dependencies now l true) h v d
      ]

  finish_round-Answers : (h : Handler w.graphs.Graph) → Held h (finish_round w now reqs h)
  unfolding finish_round
  finish_round-Answers h =
      if-Answers w now reqs P h
        (has_buildable_troves w.graphs h.deps || not (is_empty h.now_resolving)) _ _
        (answered w now reqs P h h none refl)
        (record {
          chosen = λ job u e. elim (Option-cases (fail_delayed w now reqs h.delayed h)) [
            | inl d ↦ absurd (ground (arith, e, d))
            | inr (v, d) ↦ ground (arith, e, d, fail_delayed_keeps h.delayed h v d)
          ];
        })

  each_sorted :
      (le : ℕ → ℕ → Bool) (cs : List (List ℕ)) → All (All P) cs → All (All P) (map (sort_by le) cs)
  each_sorted le [] a = tt
  each_sorted le (c ∷ cs) a = (sort_by-All P le c a.0, each_sorted le cs a.1)

  slow_resolve-Answers :
      (cs : List (List ℕ)) (h : Handler w.graphs.Graph)
      → All (All P) cs
      → Held h (slow_resolve w now reqs breaks cs h)
  unfolding slow_resolve in_order
  slow_resolve-Answers cs h a =
      or_else-Answers w now reqs P h _ _
        (move w now reqs P h _ _ refl (
          try_components-Answers _ _ (
            sort_by-All (All P) (component_le w now reqs h) _
              (each_sorted (goes_before w now h) cs a))))
        (λ v e. finish_round-Answers v)

  first_component-Answers :
      (cs : List (List ℕ)) (h : Handler w.graphs.Graph)
      → All (All P) cs
      → Held h (first_component w now reqs breaks cs h)
  unfolding first_component no_fast
  first_component-Answers [] h a = answered w now reqs P h _ none refl
  first_component-Answers (c ∷ cs) h a = elim (Bool-cases (is_empty h.now_resolving)) [
    | inl e ↦ rw e (fast_component-Answers c h a.0 e)
    | inr e ↦ rw e (answered w now reqs P h h none refl)
  ]

  attempt_fast_resolve-Answers :
      (cs : List (List ℕ)) (h : Handler w.graphs.Graph)
      → All (All P) cs
      → Held h (attempt_fast_resolve w now reqs breaks cs h)
  unfolding attempt_fast_resolve
  attempt_fast_resolve-Answers cs h a =
      first_component-Answers _ h
        (filter-All (All P) _ _ (sort_by-All (All P) (oldest_first w now reqs h) cs a))

room_left :
    (w : World) (now : ℕ) (reqs : ℕ → List (JobTup w.conary.Flavor)) (P : ℕ → Type 0)
    (h u : Handler w.graphs.Graph) (job : Option ResolveJob)
    → length h.now_resolving ≤ 9
    → Chosen w now reqs P h job u
    → length u.now_resolving ≤ 10
room_left w now reqs P h u none n c = ground (arith, ap length c)
room_left w now reqs P h u (some j) n (p, free, (c, same)) =
    omega (arith, ap length same, length-insert j.trove c h.now_resolving)

-- When `getNextResolveJob` returns, with at most ten troves being resolved before, at most ten are
-- being resolved. Either it returns no job and the table of the troves being resolved is unchanged;
-- or it returns a job for a trove that stood in a leaf component of the requirement graph and was
-- not being resolved, and that trove is all that the table has gained.
pub get_next_resolve_job_bounds :
    (w : World) (now : ℕ) (reqs : ℕ → List (JobTup w.conary.Flavor)) (breaks : Bool)
    (h u : Handler w.graphs.Graph) (job : Option ResolveJob)
    → length h.now_resolving ≤ 10
    → get_next_resolve_job w now reqs breaks h ≡ some (job, u)
    → (length u.now_resolving ≤ 10)
      × Chosen w now reqs (Among (w.graphs.leaf_cycles h.deps.dep_graph)) h job u
unfolding get_next_resolve_job
get_next_resolve_job_bounds w now reqs breaks h u job n e =
    let cs = w.graphs.leaf_cycles h.deps.dep_graph in
    let P = Among cs in
    let a = tabulate_lists cs cs (λ k d. d) in
    let slow = slow_resolve-Answers w now reqs P breaks cs in
    elim (Bool-cases (w.graphs.is_blank h.deps.dep_graph || leb 10 (length h.now_resolving))) [
      | inl full ↦ ground (arith, e, full)
      | inr room ↦
          let r =
            if-Answers w now reqs P h h.allow_fast_resolution _ _
              (or_else-Answers w now reqs P h _ _
                (attempt_fast_resolve-Answers w now reqs P breaks cs h a)
                (λ v d.
                  if-Answers w now reqs P v v.allow_fast_resolution _ _
                    (answered w now reqs P v v none refl) (slow v a)))
              (slow h a) in
          let c = r.chosen job u (rw (room, get_next_resolve_job) at e) in
          (room_left w now reqs P h u job (ground (arith, room)) c, c)
    ]
