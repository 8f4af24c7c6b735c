-- ===== src/Deps/Handler.antt =====
-- rmake/build/dephandler.py (DependencyHandler): its state, and what it does with the events of
-- troves. A change of a trove is published to the handler itself: `tell` carries out what its
-- subscription to TROVE_STATE_UPDATED does.

pub mod Failed
pub mod Resolving
pub mod Keeping
pub mod Complete
pub mod Choosing
pub mod Next
pub mod Releasing
pub mod Reached
use rmake.Base.{
  ℕ, Bool, true, false, not, ◌&&◌, ◌||◌, Option, none, some, List, [], ◌∷◌, ◌++◌, length, filter,
  any, all, elem, discard, adjoin, is_empty, ◌==◌, ◌>>=◌, if◌then◌else◌,
}
use rmake.Base.Dict.{Dict, lookup, insert, erase, contains}
use rmake.Build.Trove.{BuildTrove, unbuildable, build_failed, is_building}
use rmake.Build.Trove.Events.{Event}
use rmake.Build.Trove.Changes.{trove_built, trove_failed}
use rmake.Build.State.{BuildState, set_state, same_set, job_passed}
use rmake.Deps.Graphs.{Graphs}
use rmake.Deps.World.{Recipe, World}
use rmake.Deps.State.{
  DepState, Reqs, update_object, built_one, prepared_one, get_all_binaries, get_troves_by_package,
  pop_buildable, has_buildable_troves, get_build_req_troves, more_to_do,
}
use rmake.Deps.State.Sources.{duplicate_one}
use rmake.Deps.Failing.{Told, fail_trove}

pub record Handler (Graph : Type 0) : Type 0 where
  pub deps : DepState Graph
  pub inactive_special : List ℕ
  pub now_resolving : Dict (Option (List ℕ))
  pub priorities : List ℕ
  pub delayed : Dict (List ℕ)
  pub cycle_checked : List ℕ
  pub seen_cycles : List (List ℕ)
  pub allow_fast_resolution : Bool
  pub possible_duplicates : Dict (List (ℕ × List ℕ))
  pub prebuilt_binaries : List ℕ
  pub has_primary : Bool

-- The texts of the two failures of a duplicate.
abbrev pub differs_text : ℕ
differs_text = 1

abbrev pub committed_text : ℕ
committed_text = 2

-- `a & b` of two sets is not empty.
abbrev pub overlap : List ℕ → List ℕ → Bool
overlap xs ys = any (λ x. elem x ys) xs

unfoldable pub without : List ℕ → List ℕ → List ℕ
without ks [] = ks
without ks (x ∷ xs) = without (discard x ks) xs

-- The state updates that the loop over the troves to fail has published.
unfoldable pub mark_unbuildable : Told → BuildState → Option BuildState
mark_unbuildable [] b = some b
mark_unbuildable ((k, _) ∷ ts) b = do b' ← set_state k unbuildable b; mark_unbuildable ts b'

-- The troves of a cycle; none for a value that counts as false.
unfoldable pub cycle_of : Option (List ℕ) → List ℕ
cycle_of none = []
cycle_of (some c) = c

unfoldable pub forget_cycle : {G : Type 0} → Option (List ℕ) → Handler G → Handler G
forget_cycle c h = record h { cycle_checked = without h.cycle_checked (cycle_of c) }

module _ (w : World) (now : ℕ) where
  open w use {graphs, about, tup, nbf}
  open graphs use {Graph}

  -- `DependencyHandler.__init__`
  unfoldable pub new_handler : DepState Graph → List ℕ → Handler Graph
  new_handler s specials = record {
    deps = s;
    inactive_special = specials;
    now_resolving = [];
    priorities = [];
    delayed = [];
    cycle_checked = [];
    seen_cycles = [];
    allow_fast_resolution = true;
    possible_duplicates = [];
    prebuilt_binaries = [];
    has_primary = s.has_primary_troves;
  }

  -- A method of a trove is called, and its state is published (`troveStateUpdated`).
  unfoldable pub tell :
      ℕ → (BuildTrove → BuildTrove × List Event) → Handler Graph → Option (Handler Graph)
  tell k f h = do
    let s = update_object k (λ t. (f t).0) h.deps
    b ← set_state k (s.objects k).state s.base
    some (record h { deps = record s { base = b } })

  -- `troveFailed`: what the loop publishes is kept back until it is over.
  unfoldable pub on_trove_failed : ℕ → Handler Graph → Option (Handler Graph)
  on_trove_failed k h = do
    (s, told) ← fail_trove graphs tup now k h.deps
    b ← mark_unbuildable told s.base
    some (record h { deps = record s { base = b }; delayed = erase k h.delayed })

  -- `trove.troveFailed(reason)`, published to the handler.
  unfoldable pub tell_failed :
      ℕ → (BuildTrove → BuildTrove × List Event) → Handler Graph → Option (Handler Graph)
  tell_failed k f h = do h' ← tell k f h; on_trove_failed k h'

  unfoldable pub on_trove_building : ℕ → Handler Graph → Handler Graph
  on_trove_building k h = record h { seen_cycles = filter (λ c. not (elem k c)) h.seen_cycles }

  unfoldable pub on_trove_prepared : ℕ → Handler Graph → Handler Graph
  on_trove_prepared k h = record h { deps = prepared_one graphs k h.deps }

  -- The loop of `troveDuplicate` over the possible matches.
  unfoldable pub match_duplicate : ℕ → List ℕ → List ℕ → Handler Graph → Option (Handler Graph)
  match_duplicate k binaries [] h =
      tell_failed k (trove_failed now (build_failed committed_text) true) h
  match_duplicate k binaries (j ∷ js) h =
      let built = (h.deps.objects j).built_troves in
      let rest = match_duplicate k binaries js h in
      if j == k
      then rest
      else (if same_set built binaries
          then some (record h { deps = duplicate_one graphs k j h.deps })
          else (if overlap built binaries
              then tell_failed k (trove_failed now (build_failed differs_text) true) h
              else (if is_empty built && is_building (h.deps.objects j)
                  then some (record h {
                    possible_duplicates =
                        insert j
                          (elim (lookup j h.possible_duplicates) [ none ↦ [] | some l ↦ l ]
                            ++ (k, binaries) ∷ [])
                          h.possible_duplicates;
                  })
                  else rest)))

  unfoldable pub on_trove_duplicate : ℕ → List ℕ → Handler Graph → Option (Handler Graph)
  on_trove_duplicate k binaries h =
      match_duplicate k binaries (get_troves_by_package graphs (about k).pkg h.deps) h

  unfoldable pub retry_duplicates : List (ℕ × List ℕ) → Handler Graph → Option (Handler Graph)
  retry_duplicates [] h = some h
  retry_duplicates ((k, l) ∷ ds) h = do h' ← on_trove_duplicate k l h; retry_duplicates ds h'

  -- `troveBuilt`: troves that were delayed may be buildable now.
  unfoldable pub on_trove_built : ℕ → List ℕ → Handler Graph → Option (Handler Graph)
  on_trove_built k binaries h =
      let h' = record h { deps = built_one graphs nbf k binaries h.deps; delayed = [] } in
      elim (lookup k h.possible_duplicates) [
        | none ↦ some h'
        | some ds ↦
            retry_duplicates ds (record h' { possible_duplicates = erase k h.possible_duplicates })
      ]

  -- `troveLeftUnbuilt`, and the first step of `trovePrebuilt`
  unfoldable pub tell_built : ℕ → List ℕ → Handler Graph → Option (Handler Graph)
  tell_built k binaries h = do
    h' ← tell k (trove_built now binaries true) h
    on_trove_built k binaries h'

  -- `trovePrebuilt`
  unfoldable pub make_prebuilt : ℕ → Option (List ℕ) → Handler Graph → Option (Handler Graph)
  make_prebuilt k cycle h = do
    let binaries = (h.deps.objects k).pre_built_binaries
    h' ← tell_built k binaries (record h { prebuilt_binaries = binaries ++ h.prebuilt_binaries })
    some (forget_cycle cycle h')

  -- `_buildHasOccurred`
  unfoldable pub build_has_occurred : Handler Graph → Bool
  build_has_occurred h =
      not (all (λ b. elem b h.prebuilt_binaries) (get_all_binaries graphs h.deps))

  unfoldable pub has_special_troves : Handler Graph → Bool
  has_special_troves h = not (is_empty h.inactive_special)
