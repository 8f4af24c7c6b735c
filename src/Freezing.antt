-- ===== src/Freezing.antt =====
-- rmake/lib/apiutils.py: the types of tuples that are sent between processes, and how they are
-- frozen and thawed. A version, a flavor, a label and a set of dependencies are objects of conary;
-- they, and the texts that they are frozen as, are the parameter `Conary`. A text is a number, 0 the
-- empty one.
pub mod RoundTrip
pub mod Samples
use rmake.Base.{ℕ, ◌≡◌, Bool, Option, none, some, ◌==◌, if◌then◌else◌}

pub record Conary : Type 1 where
  pub Version : Type 0
  pub Flavor : Type 0
  pub Label : Type 0
  pub DepSet : Type 0
  pub freeze_version : Version → ℕ
  pub thaw_version : ℕ → Version
  pub freeze_flavor : Flavor → ℕ
  pub thaw_flavor : ℕ → Flavor
  pub label_to_str : Label → ℕ
  pub label_of_str : ℕ → Label
  pub freeze_deps : DepSet → ℕ
  pub thaw_deps : ℕ → DepSet
  pub no_flavor : Flavor

-- What conary's `freeze` and `Thaw...` promise; the empty text is the flavor without dependencies.
pub record ConaryLaws (c : Conary) : Type 0 where
  pub version : (v : c.Version) → c.thaw_version (c.freeze_version v) ≡ v
  pub flavor : (f : c.Flavor) → c.thaw_flavor (c.freeze_flavor f) ≡ f
  pub label : (l : c.Label) → c.label_of_str (c.label_to_str l) ≡ l
  pub deps : (d : c.DepSet) → c.thaw_deps (c.freeze_deps d) ≡ d
  pub empty : c.thaw_flavor 0 ≡ c.no_flavor

module _ (c : Conary) where
  open c use {Version, Flavor, DepSet, no_flavor}

  -- `(name, version, flavor)`
  pub record TroveTuple : Type 0 where
    pub name : ℕ
    pub version : Version
    pub flavor : Option Flavor

  -- A trove tuple of four with its context, or of three.
  pub record ContextTuple : Type 0 where
    pub trove : TroveTuple
    pub context : Option ℕ

  -- `(name, (oldVersion, oldFlavor), (version, flavor), isAbsolute)`; what is installed has a
  -- version and a flavor.
  pub record InstallJob : Type 0 where
    pub name : ℕ
    pub old : Option Version × Option Flavor
    pub version : Version
    pub flavor : Flavor
    pub is_absolute : Bool

  -- `(name, versionSpec, flavor)`
  pub record TroveSpec : Type 0 where
    pub name : ℕ
    pub version : Option ℕ
    pub flavor : Option Flavor

  -- `(isCross, (troveTuple, dependencies))`
  pub record MissingDep : Type 0 where
    pub is_cross : Bool
    pub trove : TroveTuple
    pub deps : DepSet

  -- `(f is not None) and f.freeze() or ''`
  abbrev pub freeze_opt_flavor : Option Flavor → ℕ
  freeze_opt_flavor none = 0
  freeze_opt_flavor (some f) = c.freeze_flavor f

  pub record FrozenTuple : Type 0 where
    pub name : ℕ
    pub version : ℕ
    pub flavor : ℕ

  -- A frozen tuple of three, or of four with the context.
  pub data FrozenContext : Type 0 where
    three : FrozenTuple → FrozenContext
    four : FrozenTuple → (context : ℕ) → FrozenContext

  pub record FrozenJob : Type 0 where
    pub name : ℕ
    pub version : ℕ
    pub flavor : ℕ
    pub is_absolute : Bool

  pub record FrozenMissing : Type 0 where
    pub is_cross : Bool
    pub trove : FrozenTuple
    pub deps : ℕ

  -- `api_troveTuple`, and one entry of `api_troveTupleList`
  unfoldable pub freeze_tuple : TroveTuple → FrozenTuple
  freeze_tuple t = record {
    name = t.name;
    version = c.freeze_version t.version;
    flavor = freeze_opt_flavor t.flavor;
  }

  unfoldable pub thaw_tuple : FrozenTuple → TroveTuple
  thaw_tuple t = record {
    name = t.name;
    version = c.thaw_version t.version;
    flavor = some (c.thaw_flavor t.flavor);
  }

  -- `api_troveContextTuple`
  unfoldable pub freeze_context : ContextTuple → FrozenContext
  freeze_context t = elim (t.context) [
    | none ↦ three (freeze_tuple t.trove)
    | some n ↦ if n == 0 then three (freeze_tuple t.trove) else four (freeze_tuple t.trove) n
  ]

  unfoldable pub thaw_context : FrozenContext → ContextTuple
  thaw_context (three t) = record { trove = thaw_tuple t; context = some 0 }
  thaw_context (four t n) = record { trove = thaw_tuple t; context = some n }

  -- One entry of `api_installJobList`: the old version is not sent.
  unfoldable pub freeze_job : InstallJob → FrozenJob
  freeze_job j = record {
    name = j.name;
    version = c.freeze_version j.version;
    flavor = c.freeze_flavor j.flavor;
    is_absolute = j.is_absolute;
  }

  unfoldable pub thaw_job : FrozenJob → InstallJob
  thaw_job j = record {
    name = j.name;
    old = (none, none);
    version = c.thaw_version j.version;
    flavor = c.thaw_flavor j.flavor;
    is_absolute = j.is_absolute;
  }

  -- `api_spec`; the version is a text already.
  unfoldable pub freeze_spec : TroveSpec → FrozenTuple
  freeze_spec x = record {
    name = x.name;
    version = elim (x.version) [ none ↦ 0 | some v ↦ v ];
    flavor = freeze_opt_flavor x.flavor;
  }

  unfoldable pub thaw_spec : FrozenTuple → TroveSpec
  thaw_spec x = record {
    name = x.name;
    version = some x.version;
    flavor = some (c.thaw_flavor x.flavor);
  }

  -- One entry of `api_dependencyMissingList`
  unfoldable pub freeze_missing : MissingDep → FrozenMissing
  freeze_missing m = record {
    is_cross = m.is_cross;
    trove = freeze_tuple m.trove;
    deps = c.freeze_deps m.deps;
  }

  unfoldable pub thaw_missing : FrozenMissing → MissingDep
  thaw_missing m = record {
    is_cross = m.is_cross;
    trove = thaw_tuple m.trove;
    deps = c.thaw_deps m.deps;
  }
