-- ===== src/Flavors.antt =====
-- rmake/lib/flavorutil.py: the instruction sets of a flavor. A flavor is an object of the conary
-- library, so its type and the operations of conary that the code calls are a parameter.
pub mod Built
use rmake.Base.{Bool, true, false, Option, none, some, List, [], ◌∷◌, ◌&&◌, if◌then◌else◌}

-- What rMake calls of conary.deps.
pub record Conary : Type 1 where
  pub Flavor : Type 0
  pub Dep : Type 0
  -- `Flavor()`
  pub empty : Flavor
  -- `flavor.getDepClasses().get(DEP_CLASS_IS, None)`, and its `getDeps()`
  pub ins_deps : Flavor → Option (List Dep)
  pub target_deps : Flavor → Option (List Dep)
  -- `Dependency(insSet.name)`
  pub bare : Dep → Dep
  pub add_ins : Flavor → Dep → Flavor
  pub add_target : Flavor → Dep → Flavor
  -- `filterFlavor(flavor, filters)`
  pub filter_flavor : Flavor → List Flavor → Flavor
  pub strongly_satisfies : Flavor → Flavor → Bool
  -- `parseFlavor('cross')`
  pub cross_flavor : Flavor

module _ (c : Conary) where
  open c use {
    Flavor, Dep, empty, ins_deps, target_deps, bare, add_ins, add_target, strongly_satisfies,
    cross_flavor,
  }

  -- One of the two loops `for insSet in flavorInsSet.getDeps()`.
  add_each : (Flavor → Dep → Flavor) → Bool → Flavor → List Dep → Flavor
  add_each add with_flags flavor [] = flavor
  add_each add with_flags flavor (d ∷ ds) =
      add_each add with_flags (add flavor (if with_flags then d else bare d)) ds

  add_deps : (Flavor → Dep → Flavor) → Bool → Flavor → Option (List Dep) → Flavor
  unfolding add_each
  add_deps add with_flags flavor none = flavor
  add_deps add with_flags flavor (some ds) = add_each add with_flags flavor ds

  -- `getArchFlags(flavor, getTarget, withFlags)`
  unfoldable pub get_arch_flags : Flavor → Bool → Bool → Flavor
  unfolding add_deps
  get_arch_flags flavor get_target with_flags =
      let arch = add_deps add_ins with_flags empty (ins_deps flavor) in
      if get_target then add_deps add_target with_flags arch (target_deps flavor) else arch

  -- `flavor.hasDepClass(TargetInstructionSetDependency)`
  unfoldable pub has_target : Flavor → Bool
  has_target flavor = elim (target_deps flavor) [ none ↦ false | some _ ↦ true ]

  -- `getCrossCompile(flavor)`: the flavor of the target and whether this is a cross tool.
  unfoldable pub get_cross_compile : Flavor → Option (Flavor × Bool)
  unfolding add_each
  get_cross_compile flavor = elim (target_deps flavor) [
    | none ↦ none
    | some ds ↦ some (add_each add_ins true empty ds, strongly_satisfies flavor cross_flavor)
  ]

  unfoldable pub is_cross_compiler : Flavor → Bool
  unfolding has_target
  is_cross_compiler flavor = has_target flavor && strongly_satisfies flavor cross_flavor
