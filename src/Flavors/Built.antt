-- ===== src/Flavors/Built.antt =====
-- rmake/lib/flavorutil.py: the flavor a package ends with when it is built, and the target
-- architecture that it is built for. Names of architectures are numbers.
use rmake.Base.{ℕ, Bool, false, not, Option, none, some, List, [], ◌∷◌, ◌==◌, elem, if◌then◌else◌}
use rmake.Base.Dict.{Dict, lookup}
use rmake.Flavors.{Conary, has_target}

-- What these functions call besides.
pub record Overrides (c : Conary) : Type 0 where
  -- `flavor.iterDeps()` as pairs of the tag of the class and the dependency, and `addDep`
  pub iter_deps : c.Flavor → List (ℕ × c.Dep)
  pub add_dep : ℕ → c.Dep → c.Flavor → c.Flavor
  -- the tags of the instruction sets and of the targets
  pub is_tag : ℕ
  pub target_tag : ℕ
  -- `deps.overrideFlavor(a, b)`
  pub override_flavor : c.Flavor → c.Flavor → c.Flavor
  pub is_blank_flavor : c.Flavor → Bool
  -- `a.toStrongFlavor().satisfies(b.toStrongFlavor())`
  pub strong_satisfies : c.Flavor → c.Flavor → Bool
  -- the name of `arch.getMajorArch` of a flavor and of the machine, and `Dependency(name)`
  pub major_arch : c.Flavor → Option ℕ
  pub current_arch : ℕ
  pub arch_dep : ℕ → c.Dep

-- The names in `setArchOk`.
abbrev x86_64 : ℕ
x86_64 = 0

abbrev x86 : ℕ
x86 = 1

abbrev sparc64 : ℕ
sparc64 = 2

abbrev sparc : ℕ
sparc = 3

abbrev s390x : ℕ
s390x = 4

abbrev s390 : ℕ
s390 = 5

abbrev ppc64 : ℕ
ppc64 = 6

abbrev ppc : ℕ
ppc = 7

abbrev pub set_arch_ok : Dict (List ℕ)
set_arch_ok =
    (x86_64, x86 ∷ []) ∷ (sparc64, sparc ∷ []) ∷ (s390x, s390 ∷ []) ∷ (ppc64, ppc ∷ []) ∷ []

abbrev arch_ok : ℕ → ℕ → Bool
arch_ok current target = elim (lookup current set_arch_ok) [ none ↦ false | some l ↦ elem target l ]

module _ (c : Conary) (o : Overrides c) where
  open c use {Flavor, Dep, empty, target_deps, add_ins, strongly_satisfies, cross_flavor}
  open o use {
    iter_deps, add_dep, is_tag, target_tag, override_flavor, major_arch, current_arch, arch_dep,
  }

  -- `getTargetArch(flavor)`: whether the architecture has to be set, and its name.
  unfoldable pub get_target_arch : Flavor → Bool × Option ℕ
  get_target_arch flavor = elim (major_arch flavor) [
    | none ↦ (false, none)
    | some target ↦
        if not (target == current_arch)
        then (arch_ok current_arch target, some target)
        else (false, none)
  ]

  keep_deps : List ℕ → Flavor → List (ℕ × Dep) → Flavor
  keep_deps classes d [] = d
  keep_deps classes d ((tag, x) ∷ xs) =
      keep_deps classes (if elem tag classes then d else add_dep tag x d) xs

  unfoldable pub remove_dep_classes : Flavor → List ℕ → Flavor
  unfolding keep_deps
  remove_dep_classes flavor classes = keep_deps classes empty (iter_deps flavor)

  unfoldable pub remove_instruction_set_flavor : Flavor → Flavor
  remove_instruction_set_flavor flavor = remove_dep_classes flavor (is_tag ∷ [])

  unfoldable pub remove_target_flavor : Flavor → Flavor
  remove_target_flavor flavor = remove_dep_classes flavor (target_tag ∷ [])

  add_targets : Flavor → List Dep → Flavor
  add_targets flavor [] = flavor
  add_targets flavor (d ∷ ds) = add_targets (add_ins flavor d) ds

  abbrev listed : Option (List Dep) → List Dep
  listed none = []
  listed (some ds) = ds

  -- `setISFromTargetFlavor`
  unfoldable pub set_is_from_target_flavor : Flavor → Flavor
  unfolding add_targets
  set_is_from_target_flavor flavor =
      add_targets (remove_dep_classes flavor (is_tag ∷ target_tag ∷ []))
        (listed (target_deps flavor))

  unfoldable pub get_built_flavor : Flavor → Flavor
  get_built_flavor flavor =
      if has_target c flavor
      then (if strongly_satisfies flavor cross_flavor
          then flavor
          else set_is_from_target_flavor flavor)
      else elim ((get_target_arch flavor).1) [
        | none ↦ flavor
        | some name ↦ override_flavor flavor (add_ins empty (arch_dep name))
      ]

  -- `getSysRootFlavor`: the assertion fails, `none`, where there is no target.
  unfoldable pub get_sys_root_flavor : Flavor → Option Flavor
  get_sys_root_flavor flavor =
      if has_target c flavor then some (set_is_from_target_flavor flavor) else none
