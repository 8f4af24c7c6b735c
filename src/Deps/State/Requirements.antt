-- ===== src/Deps/State/Requirements.antt =====
-- rmake/build/dephandler.py (DependencyBasedBuildState): which requirements become edges of the
-- graph when the build starts.
use rmake.Base.{
  ℕ, Bool, true, false, not, ◌&&◌, Option, none, some, List, [], ◌∷◌, ◌==◌, ◌>>=◌, if◌then◌else◌,
}
use rmake.Flavors.{get_arch_flags, has_target}
use rmake.Flavors.Built.{get_built_flavor, get_sys_root_flavor}
use rmake.Deps.Graphs.{spec}
use rmake.Deps.World.{Spec, World}
use rmake.Deps.State.{DepState, depends_on, reject_dep, get_troves_by_package}

module _ (w : World) where
  open w use {graphs, conary, overrides, about}
  open graphs use {Graph, children, parents, delete, add_node}
  open conary use {Flavor, strongly_satisfies, cross_flavor}
  open overrides use {override_flavor, is_blank_flavor, strong_satisfies}

  -- `hasTargetArch` and `isCrossCompiled` of a trove
  unfoldable pub has_target_arch : ℕ → Bool
  has_target_arch trove = has_target conary (about trove).flavor

  unfoldable pub is_cross_compiled : ℕ → Bool
  unfolding has_target_arch
  is_cross_compiled trove =
      has_target_arch trove && not (strongly_satisfies (about trove).flavor cross_flavor)

  -- `_flavorsMatch` behind the flavor of the requiring trove
  unfoldable pub flavor_fits : Flavor → Flavor → Option Flavor → Bool
  flavor_fits trove prov req =
      let arch = get_built_flavor conary overrides (get_arch_flags conary trove false false) in
      let wanted : Flavor = elim req [ none ↦ arch | some f ↦ override_flavor arch f ] in
      let given =
        if is_blank_flavor (get_arch_flags conary prov true true)
        then override_flavor arch prov
        else prov in
      strong_satisfies (get_built_flavor conary overrides given) wanted

  -- `_flavorsMatch`: an AssertionError, `none`, for a cross requirement of a trove with no target.
  unfoldable pub flavors_match : Flavor → Flavor → Option Flavor → Bool → Option Bool
  flavors_match trove prov req is_cross = do
    t ← if is_cross then get_sys_root_flavor conary overrides trove else some trove
    some (flavor_fits t prov req)

  -- One round of the loop of `_addReq`.
  unfoldable pub add_provider :
      ℕ → Spec Flavor → Bool → ℕ → DepState Graph → Option (DepState Graph)
  add_provider trove req is_cross prov s =
      if not is_cross && has_target_arch trove && is_cross_compiled prov
      then some (reject_dep graphs trove prov is_cross s)
      else do
        fits ← flavors_match (about trove).flavor (about prov).flavor req.flavor is_cross
        some (
            if fits
            then depends_on graphs trove prov (record { is_cross = is_cross; wants = spec req.key })
                s
            else reject_dep graphs trove prov is_cross s)

  unfoldable pub add_providers :
      ℕ → Spec Flavor → Bool → List ℕ → DepState Graph → Option (DepState Graph)
  add_providers trove req is_cross [] s = some s
  add_providers trove req is_cross (p ∷ ps) s = do
    t ← add_provider trove req is_cross p s
    add_providers trove req is_cross ps t

  unfoldable pub add_req : ℕ → Spec Flavor → Bool → DepState Graph → Option (DepState Graph)
  add_req trove req is_cross s =
      add_providers trove req is_cross (get_troves_by_package graphs req.pkg s) s

  unfoldable pub add_reqs : ℕ → Bool → List (Spec Flavor) → DepState Graph → Option (DepState Graph)
  add_reqs trove is_cross [] s = some s
  add_reqs trove is_cross (r ∷ rs) s = do
    t ← add_req trove r is_cross s
    add_reqs trove is_cross rs t

  -- The loop over the providers of a package that a trove loads.
  unfoldable pub add_loaded :
      ℕ → Spec Flavor → ℕ → List ℕ → DepState Graph → Option (DepState Graph)
  add_loaded trove req version [] s = some s
  add_loaded trove req version (p ∷ ps) s = do
    fits ← flavors_match (about trove).flavor (about p).flavor req.flavor false
    add_loaded trove req version ps (
        if not ((about p).version == version)
        then s
        else (if fits
            then depends_on graphs trove p (record { is_cross = false; wants = spec req.key }) s
            else reject_dep graphs trove p false s))

  unfoldable pub add_loaded_specs :
      ℕ → List (Spec Flavor × ℕ) → DepState Graph → Option (DepState Graph)
  add_loaded_specs trove [] s = some s
  add_loaded_specs trove ((req, version) ∷ rs) s = do
    t ← add_loaded trove req version (get_troves_by_package graphs req.pkg s) s
    add_loaded_specs trove rs t

  -- The loop over the providers of a delayed requirement.
  unfoldable pub add_delayed : ℕ → Spec Flavor → List ℕ → DepState Graph → DepState Graph
  add_delayed trove req [] s = s
  add_delayed trove req (p ∷ ps) s =
      let fits : Bool = elim req.flavor [
        | none ↦ true
        | some f ↦ strong_satisfies (about p).flavor f
      ] in
      add_delayed trove req ps (
        if (about p).version == req.version && fits
        then depends_on graphs trove p (record { is_cross = false; wants = spec req.key }) s
        else s)

  unfoldable pub add_delayed_requirements : ℕ → List (Spec Flavor) → DepState Graph → DepState Graph
  add_delayed_requirements trove [] s = s
  add_delayed_requirements trove (r ∷ rs) s =
      add_delayed_requirements trove rs
        (add_delayed trove r (get_troves_by_package graphs r.pkg s) s)
