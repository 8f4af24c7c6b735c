-- ===== src/Deps/World.antt =====
-- What the dependency handler reads of its surroundings: the graphs and flavors of conary, and the
-- parts of a trove and of a requirement that do not change.
use rmake.Base.{ℕ, Bool, Option, List}
use rmake.Flavors.{Conary}
use rmake.Flavors.Built.{Overrides}
use rmake.Deps.Graphs.{Graphs}

-- A requirement (name, label or version, flavor), with `name.split(':')[0]`.
pub record Spec (Flavor : Type 0) : Type 0 where
  pub key : ℕ
  pub pkg : ℕ
  pub version : ℕ
  pub flavor : Option Flavor

-- The parts of a BuildTrove that are set before the build; `build_specs` has the requirements that
-- are added by default.
pub record Recipe (Flavor : Type 0) : Type 0 where
  pub name : ℕ
  pub pkg : ℕ
  pub version : ℕ
  pub flavor : Flavor
  pub packages : List ℕ
  pub is_primary : Bool
  pub is_group : Bool
  pub ignore_all_rebuild_deps : Bool
  pub ignore_external_rebuild_deps : Bool
  pub build_specs : List (Spec Flavor)
  pub cross_specs : List (Spec Flavor)
  pub loaded_specs : List (Spec Flavor × ℕ)
  pub delayed_requirements : List (Spec Flavor)

-- A job of the resolver: (name, (None, None), (version, flavor), isAbsolute). `binary` is the number of
-- (name, version, flavor).
pub record JobTup (Flavor : Type 0) : Type 0 where
  pub name : ℕ
  pub pkg : ℕ
  pub binary : ℕ
  pub flavor : Flavor

-- A missing dependency of a trove, with the packages of the troves that it names.
pub record MissingDep : Type 0 where
  pub is_cross : Bool
  pub trove_tup : ℕ
  pub depset : ℕ
  pub needed : List ℕ

-- What the handler reads of a ResolveResult.
pub record Resolution (Flavor : Type 0) : Type 0 where
  pub success : Bool
  pub in_cycle : Bool
  pub build_reqs : List (JobTup Flavor)
  pub cross_reqs : List (JobTup Flavor)
  pub bootstrap_reqs : List (JobTup Flavor)
  pub missing_build_reqs : List (Bool × ℕ)
  pub missing_deps : List MissingDep

-- `tup` numbers a pair, `nbf` the name, branch and flavor of a binary.
pub record World : Type 1 where
  pub graphs : Graphs
  pub conary : Conary
  pub overrides : Overrides conary
  pub about : ℕ → Recipe (Conary.Flavor conary)
  pub tup : ℕ → ℕ → ℕ
  pub nbf : ℕ → ℕ
  -- `':' in x[0]` of a binary, and a requirement with no version or flavor as the code compares it
  pub is_component : ℕ → Bool
  pub plain_spec : ℕ → ℕ
