-- ===== src/Deps/Handler/Keeping.antt =====
-- What publishing to the handler leaves alone: the table of the running resolutions.
use rmake.Base.{
  ℕ, ◌≡◌, refl, ◌∙◌, ◌++◌, inl, inr, Bool, true, Option, none, some, List, [], ◌∷◌, ◌>>=◌,
  Option-cases, arith,
}
use rmake.Base.Dict.{lookup, erase}
use rmake.Build.Trove.{BuildTrove, build_failed}
use rmake.Build.Trove.Events.{Event}
use rmake.Build.Trove.Changes.{trove_built, trove_failed}
use rmake.Deps.World.{World, JobTup}
use rmake.Deps.State.{built_one}
use rmake.Deps.Handler.{
  Handler, tell, tell_failed, on_trove_failed, match_duplicate, differs_text, on_trove_duplicate,
  retry_duplicates, on_trove_built, tell_built, forget_cycle, make_prebuilt,
}
use rmake.Deps.Handler.Resolving.{add_resolution_deps}

module _ (w : World) (now : ℕ) where
  -- A step that does not raise leaves the table as it is.
  abbrev pub Keeps : Handler w.graphs.Graph → Option (Handler w.graphs.Graph) → Type 0
  Keeps h r = (u : Handler w.graphs.Graph) → r ≡ some u → u.now_resolving ≡ h.now_resolving

  pub tell-Keeps :
      (k : ℕ) (f : BuildTrove → BuildTrove × List Event) (h : Handler w.graphs.Graph)
      → Keeps h (tell w now k f h)
  unfolding tell
  tell-Keeps k f h u e = ground arith

  pub on_trove_failed-Keeps :
      (k : ℕ) (h : Handler w.graphs.Graph) → Keeps h (on_trove_failed w now k h)
  unfolding on_trove_failed
  on_trove_failed-Keeps k h u e = ground arith

  -- A step after another one.
  pub then-Keeps :
      (h : Handler w.graphs.Graph) (r : Option (Handler w.graphs.Graph))
      (f : Handler w.graphs.Graph → Option (Handler w.graphs.Graph))
      → Keeps h r
      → ((t : Handler w.graphs.Graph) → Keeps t (f t))
      → Keeps h (r >>= f)
  then-Keeps h none f a b u e = cc
  then-Keeps h (some t) f a b u e = b t u e ∙ a t refl

  pub tell_failed-Keeps :
      (k : ℕ) (f : BuildTrove → BuildTrove × List Event) (h : Handler w.graphs.Graph)
      → Keeps h (tell_failed w now k f h)
  unfolding tell_failed
  tell_failed-Keeps k f h =
      then-Keeps h (tell w now k f h) (on_trove_failed w now k) (tell-Keeps k f h)
        (on_trove_failed-Keeps k)

  pub match_duplicate-Keeps :
      (k : ℕ) (binaries js : List ℕ) (h : Handler w.graphs.Graph)
      → Keeps h (match_duplicate w now k binaries js h)
  unfolding match_duplicate
  match_duplicate-Keeps k binaries [] h u e = tell_failed-Keeps k _ h u e
  match_duplicate-Keeps k binaries (j ∷ js) h u e = ground (
    arith,
    match_duplicate-Keeps k binaries js h u,
    tell_failed-Keeps k (trove_failed now (build_failed differs_text) true) h u,
  )

  retry_duplicates-Keeps :
      (ds : List (ℕ × List ℕ)) (h : Handler w.graphs.Graph) → Keeps h (retry_duplicates w now ds h)
  unfolding retry_duplicates on_trove_duplicate
  retry_duplicates-Keeps [] h u e = ground arith
  retry_duplicates-Keeps ((k, l) ∷ ds) h u e =
      then-Keeps h (on_trove_duplicate w now k l h) (retry_duplicates w now ds)
        (match_duplicate-Keeps k l _ h) (retry_duplicates-Keeps ds) u e

  pub on_trove_built-Keeps :
      (k : ℕ) (l : List ℕ) (h : Handler w.graphs.Graph) → Keeps h (on_trove_built w now k l h)
  unfolding on_trove_built
  on_trove_built-Keeps k l h u e = elim (Option-cases (lookup k h.possible_duplicates)) [
    | inl none_found ↦ ground arith
    | inr (ds, found) ↦
        retry_duplicates-Keeps ds
          (record h {
            deps = built_one w.graphs w.nbf k l h.deps;
            delayed = [];
            possible_duplicates = erase k h.possible_duplicates;
          })
          u (rw (found, on_trove_built) at e)
  ]

  pub tell_built-Keeps :
      (k : ℕ) (l : List ℕ) (h : Handler w.graphs.Graph) → Keeps h (tell_built w now k l h)
  unfolding tell_built
  tell_built-Keeps k l h =
      then-Keeps h (tell w now k (trove_built now l true) h) (on_trove_built w now k l)
        (tell-Keeps k _ h) (on_trove_built-Keeps k l)

  pub make_prebuilt-Keeps :
      (k : ℕ) (c : Option (List ℕ)) (h : Handler w.graphs.Graph)
      → Keeps h (make_prebuilt w now k c h)
  unfolding make_prebuilt forget_cycle
  make_prebuilt-Keeps k c h =
      let binaries = (h.deps.objects k).pre_built_binaries in
      let h' = record h { prebuilt_binaries = binaries ++ h.prebuilt_binaries } in
      then-Keeps h (tell_built w now k binaries h') (λ t. some (forget_cycle c t))
        (tell_built-Keeps k binaries h') (λ t u e. ground arith)

  pub add_resolution_deps_keeps :
      (k : ℕ) (js cs : List (JobTup w.conary.Flavor)) (in_cycle : Bool) (h : Handler w.graphs.Graph)
      (r : List ℕ × Handler w.graphs.Graph)
      → add_resolution_deps w k js cs in_cycle h ≡ some r
      → (r.1).now_resolving ≡ h.now_resolving
  unfolding add_resolution_deps
  add_resolution_deps_keeps k js cs in_cycle h r e = ground arith
