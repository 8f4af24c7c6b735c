-- ===== src/Deps/Failing.antt =====
-- rmake/build/dephandler.py (_troveFailed): a failed trove takes with it the troves that require
-- it and have no other solution for that requirement.

pub mod Pushing
pub mod Least
pub mod Cascade
use rmake.Base.{
  ℕ, zero, suc, ◌+◌, Bool, false, not, Option, none, some, List, [], ◌∷◌, ◌++◌, any, ◌==◌,
  if◌then◌else◌,
}
use rmake.Build.Trove.{BuildTrove}
use rmake.Build.Trove.Changes.{trove_missing_buildreqs, trove_missing_dependencies}
use rmake.Deps.Graphs.{Requirement, spec, dep, Reason, Edges, Graphs}
use rmake.Deps.State.{DepState, solutions, failed_one, change}

-- `toFail`, the last one appended first, and the calls on troves that the loop has made.
abbrev pub Pending : Type 0
Pending = List (ℕ × Option Reason)

abbrev pub Told : Type 0
Told = List (ℕ × Reason)

-- The loop that sets `found`.
unfoldable pub other_solution : ℕ → Reason → Edges → Bool
other_solution trove req edges = any (λ p. not (p == trove)) (solutions req edges)

-- The method of the trove that is called for it. A pair of a trove and its dependencies is known
-- by the number `tup`.
unfoldable pub starve : (ℕ → ℕ → ℕ) → ℕ → Requirement → BuildTrove → BuildTrove
starve tup now (spec r) t = (trove_missing_buildreqs now (r ∷ []) false t).0
starve tup now (dep a b) t = (trove_missing_dependencies now (tup a b ∷ []) false t).0

unfoldable pub note : ℕ → Option Reason → Told
note t none = []
note t (some q) = (t, q) ∷ []

module _ (m : Graphs) where
  open m use {Graph, children}

  -- The loop over the troves that require the failed one.
  unfoldable pub push_requirers : ℕ → Graph → Edges → Pending → Pending
  push_requirers t g [] stack = stack
  push_requirers t g ((r, q) ∷ es) stack = push_requirers t g es (
      if r == t
      then stack
      else (if other_solution t q (children r g) then stack else (r, some q) ∷ stack))

module _ (m : Graphs) (tup : ℕ → ℕ → ℕ) (now : ℕ) where
  open m use {Graph, parents, size}

  unfoldable pub announce : ℕ → Option Reason → DepState Graph → DepState Graph
  announce t none s = s
  announce t (some q) s = record s { objects = change t (starve tup now q.wants) s.objects }

  -- The loop itself: `none` where the fuel runs out.
  unfoldable pub fail_loop : ℕ → Pending → DepState Graph → Told → Option (DepState Graph × Told)
  fail_loop fuel [] s told = some (s, told)
  fail_loop zero (_ ∷ _) s told = none
  fail_loop (suc fuel) ((t, why) ∷ rest) s told =
      fail_loop fuel (push_requirers m t s.dep_graph (parents t s.dep_graph) rest)
        (failed_one m t (announce t why s)) (told ++ note t why)

  -- A round takes one trove off and adds at most one for each edge that it removes.
  unfoldable pub fail_trove : ℕ → DepState Graph → Option (DepState Graph × Told)
  fail_trove t s = fail_loop (size s.dep_graph + 1) ((t, none) ∷ []) s []
