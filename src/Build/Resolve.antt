-- ===== src/Build/Resolve.antt =====
-- rmake/build/buildtrove.py: ResolveResult, what the resolver of a trove found, and how it is
-- frozen for the way to another process, with the tuples of rmake/lib/apiutils.py.
use rmake.Base.{
  ℕ, ◌≡◌, refl, ap, Bool, true, false, not, Option, none, some, List, [], map, is_empty,
  if◌then◌else◌,
}
use rmake.Freezing.{
  Conary, ConaryLaws, TroveTuple, InstallJob, TroveSpec, MissingDep, FrozenTuple, FrozenJob,
  FrozenMissing, freeze_job, thaw_job, freeze_spec, thaw_spec, freeze_missing, thaw_missing,
}
use rmake.Freezing.RoundTrip.{
  map-back, job_back, spec_back, missing_back, thaw_job-freeze_job, thaw_spec-freeze_spec,
  thaw_missing-freeze_missing,
}

module _ (c : Conary) where
  pub record ResolveResult : Type 0 where
    pub success : Bool
    pub build_reqs : List (InstallJob c)
    pub cross_reqs : List (InstallJob c)
    pub bootstrap_reqs : List (InstallJob c)
    pub missing_build_reqs : List (Bool × TroveSpec c)
    pub missing_deps : List (MissingDep c)
    pub in_cycle : Bool
    pub job_hash : Option ℕ

  -- `ResolveResult.__init__`
  abbrev pub new_result : Bool → ResolveResult
  new_result in_cycle = record {
    success = false;
    build_reqs = [];
    cross_reqs = [];
    bootstrap_reqs = [];
    missing_build_reqs = [];
    missing_deps = [];
    in_cycle = in_cycle;
    job_hash = none;
  }

  -- The three that assert that the resolving was a success.
  unfoldable pub get_build_reqs : ResolveResult → Option (List (InstallJob c))
  get_build_reqs r = if r.success then some r.build_reqs else none

  unfoldable pub get_cross_reqs : ResolveResult → Option (List (InstallJob c))
  get_cross_reqs r = if r.success then some r.cross_reqs else none

  unfoldable pub get_bootstrap_reqs : ResolveResult → Option (List (InstallJob c))
  get_bootstrap_reqs r = if r.success then some r.bootstrap_reqs else none

  unfoldable pub has_missing_build_reqs : ResolveResult → Bool
  has_missing_build_reqs r = not (is_empty r.missing_build_reqs)

  unfoldable pub has_missing_deps : ResolveResult → Bool
  has_missing_deps r = not (is_empty r.missing_deps)

  unfoldable pub resolved :
      (build_reqs cross_reqs bootstrap_reqs : List (InstallJob c)) → ResolveResult → ResolveResult
  resolved b c s r = record r { success = true; build_reqs = b; cross_reqs = c; bootstrap_reqs = s }

  unfoldable pub lacks_build_reqs : Bool → List (TroveSpec c) → ResolveResult → ResolveResult
  lacks_build_reqs is_cross specs r = record r {
    success = false;
    missing_build_reqs = map (λ x. (is_cross, x)) specs;
  }

  unfoldable pub lacks_dependencies :
      Bool → List (TroveTuple c × c.DepSet) → ResolveResult → ResolveResult
  lacks_dependencies is_cross deps r = record r {
    success = false;
    missing_deps = map (λ x. record { is_cross = is_cross; trove = x.0; deps = x.1 }) deps;
  }

  -- The dictionary that `__freeze__` returns.
  pub record FrozenResult : Type 0 where
    pub success : Bool
    pub build_reqs : List (FrozenJob c)
    pub cross_reqs : List (FrozenJob c)
    pub bootstrap_reqs : List (FrozenJob c)
    pub missing_build_reqs : List (Bool × FrozenTuple c)
    pub missing_deps : List (FrozenMissing c)
    pub in_cycle : Bool
    pub job_hash : Option ℕ

  unfoldable pub freeze_result : ResolveResult → FrozenResult
  freeze_result r = record {
    success = r.success;
    build_reqs = map (freeze_job c) r.build_reqs;
    cross_reqs = map (freeze_job c) r.cross_reqs;
    bootstrap_reqs = map (freeze_job c) r.bootstrap_reqs;
    missing_build_reqs = map (λ x. (x.0, freeze_spec c x.1)) r.missing_build_reqs;
    missing_deps = map (freeze_missing c) r.missing_deps;
    in_cycle = r.in_cycle;
    job_hash = r.job_hash;
  }

  unfoldable pub thaw_result : FrozenResult → ResolveResult
  thaw_result d = record {
    success = d.success;
    build_reqs = map (thaw_job c) d.build_reqs;
    cross_reqs = map (thaw_job c) d.cross_reqs;
    bootstrap_reqs = map (thaw_job c) d.bootstrap_reqs;
    missing_build_reqs = map (λ x. (x.0, thaw_spec c x.1)) d.missing_build_reqs;
    missing_deps = map (thaw_missing c) d.missing_deps;
    in_cycle = d.in_cycle;
    job_hash = d.job_hash;
  }

  -- What the other process reads.
  abbrev pub result_back : ResolveResult → ResolveResult
  result_back r = record {
    success = r.success;
    build_reqs = map (job_back c) r.build_reqs;
    cross_reqs = map (job_back c) r.cross_reqs;
    bootstrap_reqs = map (job_back c) r.bootstrap_reqs;
    missing_build_reqs = map (λ x. (x.0, spec_back c x.1)) r.missing_build_reqs;
    missing_deps = map (missing_back c) r.missing_deps;
    in_cycle = r.in_cycle;
    job_hash = r.job_hash;
  }

  -- Where conary thaws what it froze, a result that was frozen is thawed to one with the same flags
  -- and hash and with the same requirements in the same order, where each job replaces nothing, each
  -- missing requirement has the empty text and the empty flavor for None, and the trove of each
  -- missing dependency the empty flavor for None.
  pub thaw_result-freeze_result :
      ConaryLaws c → (r : ResolveResult) → thaw_result (freeze_result r) ≡ result_back r
  unfolding thaw_result freeze_result
  thaw_result-freeze_result v r =
      let jobs = map-back (freeze_job c) (thaw_job c) (job_back c) (thaw_job-freeze_job c v) in
      rw (jobs r.build_reqs) (
        rw (jobs r.cross_reqs) (
          rw (jobs r.bootstrap_reqs) (
            rw
              (map-back (freeze_missing c) (thaw_missing c) (missing_back c)
                (thaw_missing-freeze_missing c v) r.missing_deps)
              (rw
                (map-back (λ (x : Bool × TroveSpec c). (x.0, freeze_spec c x.1))
                  (λ (x : Bool × FrozenTuple c). (x.0, thaw_spec c x.1))
                  (λ x. (x.0, spec_back c x.1))
                  (λ x. ap (λ y. (x.0, y)) (thaw_spec-freeze_spec c v x.1)) r.missing_build_reqs)
                refl))))
