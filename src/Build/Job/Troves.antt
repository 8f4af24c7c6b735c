-- ===== src/Build/Job/Troves.antt =====
-- The troves of a job in rmake/build/buildjob.py: `troves`, by (name, version, flavor) and context,
-- and `troveContexts`, the contexts of each (name, version, flavor). The first is a number, the
-- context a second one. The configurations, which addTrove also stores, have no part here.
pub mod Contexts
use rmake.Base.{
  ℕ, Bool, true, false, ◌&&◌, Option, none, some, List, [], ◌∷◌, ◌++◌, ◌==◌, elem, is_empty,
  if◌then◌else◌, ◌>>=◌, is_some,
}
use rmake.Base.Dict.{Dict, lookup, insert, erase}
use rmake.Build.Trove.{BuildTrove}

abbrev pub Table : Type 0
Table = List ((ℕ × ℕ) × BuildTrove)

pub record JobTroves : Type 0 where
  pub troves : Table
  pub trove_contexts : Dict (List ℕ)

unfoldable pub find_trove : (nvf context : ℕ) → Table → Option BuildTrove
find_trove n c [] = none
find_trove n c (((m, d), t) ∷ rest) = if n == m && c == d then some t else find_trove n c rest

unfoldable pub put_trove : (nvf context : ℕ) → BuildTrove → Table → Table
put_trove n c t [] = ((n, c), t) ∷ []
put_trove n c t (((m, d), u) ∷ rest) =
    if n == m && c == d then ((n, c), t) ∷ rest else ((m, d), u) ∷ put_trove n c t rest

unfoldable pub drop_trove : (nvf context : ℕ) → Table → Table
drop_trove n c [] = []
drop_trove n c (((m, d), u) ∷ rest) =
    let left = drop_trove n c rest in if n == m && c == d then left else ((m, d), u) ∷ left

unfoldable pub has_trove : (nvf context : ℕ) → JobTroves → Bool
has_trove n c s = is_some (find_trove n c s.troves)

unfoldable pub get_trove_of : (nvf context : ℕ) → JobTroves → Option BuildTrove
get_trove_of n c s = find_trove n c s.troves

abbrev pub contexts_of : ℕ → JobTroves → List ℕ
contexts_of n s = elim (lookup n s.trove_contexts) [ none ↦ [] | some l ↦ l ]

-- `addTrove` and `addBuildTrove`
unfoldable pub add_trove : (nvf context : ℕ) → BuildTrove → JobTroves → JobTroves
add_trove n c t s = record {
  troves = put_trove n c t s.troves;
  trove_contexts = insert n (contexts_of n s ++ c ∷ []) s.trove_contexts;
}

-- `l.remove(context)`: the first one goes.
unfoldable pub remove_context : ℕ → List ℕ → List ℕ
remove_context c [] = []
remove_context c (d ∷ ds) = if c == d then ds else d ∷ remove_context c ds

-- A KeyError or ValueError is `none`.
unfoldable pub remove_trove : (nvf context : ℕ) → JobTroves → Option JobTroves
remove_trove n c s = do
  _ ← find_trove n c s.troves
  l ← lookup n s.trove_contexts
  (if elem c l
      then some (record {
        troves = drop_trove n c s.troves;
        trove_contexts =
            if is_empty (remove_context c l)
            then erase n s.trove_contexts
            else insert n (remove_context c l) s.trove_contexts;
      })
      else none)

unfoldable pub set_each : Table → JobTroves → JobTroves
set_each [] s = s
set_each (((n, c), t) ∷ rest) s = set_each rest (add_trove n c t s)

-- `setBuildTroves`, with the tuple of each trove.
unfoldable pub set_build_troves : Table → JobTroves
set_build_troves l = set_each l (record { troves = []; trove_contexts = [] })

unfoldable pub iter_trove_list : JobTroves → List (ℕ × ℕ)
iter_trove_list s = go s.troves
  where
    go : Table → List (ℕ × ℕ)
    go [] = []
    go ((k, _) ∷ rest) = k ∷ go rest
