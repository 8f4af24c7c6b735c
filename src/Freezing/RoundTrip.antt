-- ===== src/Freezing/RoundTrip.antt =====
-- What each type of tuple is after it was frozen and thawed: None is lost wherever it may stand.
use rmake.Base.{
  ℕ, ◌≡◌, refl, ap, Option, none, some, List, [], ◌∷◌, map, ◌==◌, arith, Bool-cases, inl, inr,
}
use rmake.Freezing.{
  Conary, ConaryLaws, TroveTuple, ContextTuple, InstallJob, TroveSpec, MissingDep, freeze_tuple,
  thaw_tuple, freeze_context, thaw_context, freeze_job, thaw_job, freeze_spec, thaw_spec,
  freeze_missing, thaw_missing,
}

-- A list whose entries come back as `back` says comes back entry by entry.
pub map-back :
    {A B : Type 0} (f : A → B) (g : B → A) (back : A → A)
    → ((x : A) → g (f x) ≡ back x)
    → (l : List A) → map g (map f l) ≡ map back l
map-back f g back h [] = refl
map-back f g back h (x ∷ xs) = rw (h x) (ap (λ l. back x ∷ l) (map-back f g back h xs))

module _ (c : Conary) where
  -- No flavor is read as the empty one.
  abbrev pub some_flavor : Option c.Flavor → c.Flavor
  some_flavor none = c.no_flavor
  some_flavor (some f) = f

  abbrev pub some_text : Option ℕ → ℕ
  some_text none = 0
  some_text (some n) = n

  abbrev pub tuple_back : TroveTuple c → TroveTuple c
  tuple_back t = record t { flavor = some (some_flavor t.flavor) }

  -- A context that is not there is read as the empty one.
  abbrev pub context_back : ContextTuple c → ContextTuple c
  context_back t = record { trove = tuple_back t.trove; context = some (some_text t.context) }

  -- A job is read as one that replaces nothing.
  abbrev pub job_back : InstallJob c → InstallJob c
  job_back j = record j { old = (none, none) }

  abbrev pub spec_back : TroveSpec c → TroveSpec c
  spec_back x = record x {
    version = some (some_text x.version);
    flavor = some (some_flavor x.flavor);
  }

  abbrev pub missing_back : MissingDep c → MissingDep c
  missing_back m = record m { trove = tuple_back m.trove }

  module _ (v : ConaryLaws c) where
    pub thaw_tuple-freeze_tuple :
        (t : TroveTuple c) → thaw_tuple c (freeze_tuple c t) ≡ tuple_back t
    unfolding thaw_tuple freeze_tuple
    thaw_tuple-freeze_tuple t = by_flavor t.flavor
      where
        by_flavor :
            (f : Option c.Flavor)
            → thaw_tuple c (freeze_tuple c (record t { flavor = f }))
              ≡ tuple_back (record t { flavor = f })
        by_flavor none = rw (v.version t.version) (rw (v.empty) refl)
        by_flavor (some f) = rw (v.version t.version) (rw (v.flavor f) refl)

    pub thaw_context-freeze_context :
        (t : ContextTuple c) → thaw_context c (freeze_context c t) ≡ context_back t
    unfolding thaw_context freeze_context
    thaw_context-freeze_context t = by_context t.context
      where
        by_context :
            (n : Option ℕ)
            → thaw_context c (freeze_context c (record t { context = n }))
              ≡ context_back (record t { context = n })
        by_context none =
            ap (λ u. record { trove = u; context = some 0 }) (thaw_tuple-freeze_tuple t.trove)
        by_context (some n) = elim (Bool-cases (n == 0)) [
          | inl e ↦ ground (arith, e, thaw_tuple-freeze_tuple t.trove)
          | inr e ↦ ground (arith, e, thaw_tuple-freeze_tuple t.trove)
        ]

    pub thaw_job-freeze_job : (j : InstallJob c) → thaw_job c (freeze_job c j) ≡ job_back j
    unfolding thaw_job freeze_job
    thaw_job-freeze_job j = rw (v.version j.version) (rw (v.flavor j.flavor) refl)

    pub thaw_spec-freeze_spec : (x : TroveSpec c) → thaw_spec c (freeze_spec c x) ≡ spec_back x
    unfolding thaw_spec freeze_spec
    thaw_spec-freeze_spec x = by_flavor x.flavor x.version
      where
        by_flavor :
            (f : Option c.Flavor) (n : Option ℕ)
            → thaw_spec c (freeze_spec c (record x { flavor = f; version = n }))
              ≡ spec_back (record x { flavor = f; version = n })
        by_flavor none none = rw (v.empty) refl
        by_flavor none (some n) = rw (v.empty) refl
        by_flavor (some f) none = rw (v.flavor f) refl
        by_flavor (some f) (some n) = rw (v.flavor f) refl

    pub thaw_missing-freeze_missing :
        (m : MissingDep c) → thaw_missing c (freeze_missing c m) ≡ missing_back m
    unfolding thaw_missing freeze_missing
    thaw_missing-freeze_missing m = rw (v.deps m.deps) (
        ap (λ t. record { is_cross = m.is_cross; trove = t; deps = m.deps })
          (thaw_tuple-freeze_tuple m.trove))
