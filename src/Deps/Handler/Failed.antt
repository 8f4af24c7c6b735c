-- ===== src/Deps/Handler/Failed.antt =====
-- What the handler does when a trove fails, up to the table of the states of the build.
use rmake.Base.{
  ℕ, ◌≡◌, refl, sym, ap, subst, inl, inr, Bool-cases, true, false, none, some, [], ◌∷◌, elem, ◌==◌,
  arith, if◌then◌else◌,
}
use rmake.Base.Dict.{lookup, contains, erase, lookup-erase}
use rmake.Base.Pred.{All, All-weaken}
use rmake.Build.Trove.{unbuildable}
use rmake.Build.State.{BuildState}
use rmake.Build.State.Consistent.{IsConsistent, set_state_total}
use rmake.Deps.Graphs.{Reason, GraphLaws, needs}
use rmake.Deps.World.{World}
use rmake.Deps.Failing.{Told}
use rmake.Deps.Failing.Pushing.{firsts}
use rmake.Deps.Failing.Least.{Fails, Starved}
use rmake.Deps.Failing.Cascade.{fail_trove_total}
use rmake.Deps.Handler.{Handler, mark_unbuildable, on_trove_failed}

record Marked (told : Told) (b : BuildState) : Type 0 where
  table : BuildState
  ends : mark_unbuildable told b ≡ some table
  consistent : IsConsistent table
  states :
      (k : ℕ)
      → lookup k table.states_by_trove
        ≡ (if elem k (firsts told) then some unbuildable else lookup k b.states_by_trove)

mark_unbuildable_total :
    (told : Told) (b : BuildState)
    → IsConsistent b
    → All (λ e. contains e.0 b.states_by_trove ≡ true) told
    → Marked told b
unfolding mark_unbuildable
mark_unbuildable_total [] b v h = record {
  table = b;
  ends = refl;
  consistent = v;
  states = λ k. refl;
}
mark_unbuildable_total ((j, q) ∷ ts) b v h =
    let (c, e, u, l) = set_state_total j unbuildable b v h.0 in
    let r = mark_unbuildable_total ts c u (
      All-weaken (λ x. contains x.0 b.states_by_trove ≡ true)
        (λ x. contains x.0 c.states_by_trove ≡ true) (λ x known. ground (arith, l x.0)) ts h.1) in
    record {
      table = r.table;
      ends = ground (arith, e, r.ends);
      consistent = r.consistent;
      states = λ k. ground (arith, r.states k, l k);
    }

module _ (w : World) (now : ℕ) (laws : GraphLaws w.graphs) (start : ℕ)
    (h : Handler w.graphs.Graph) where
  abbrev Reached : ℕ → Type 0
  Reached = Fails w.graphs h.deps.dep_graph start

  pub record AfterFailure : Type 0 where
    pub after : Handler w.graphs.Graph
    pub ends : on_trove_failed w now start h ≡ some after
    pub consistent : IsConsistent after.deps.base
    pub lost :
        (k : ℕ)
        → (k == start) ≡ false
        → Reached k
        → (lookup k after.deps.base.states_by_trove ≡ some unbuildable)
          × ((after.deps.objects k).state ≡ unbuildable)
    pub kept :
        (k : ℕ)
        → (Reached k → ⊥)
        → (lookup k after.deps.base.states_by_trove ≡ lookup k h.deps.base.states_by_trove)
          × ((after.deps.objects k).state ≡ (h.deps.objects k).state)
          × (lookup k after.deps.build_req_troves ≡ lookup k h.deps.build_req_troves)
    pub not_ready : (k : ℕ) → Reached k → lookup k after.deps.build_req_troves ≡ none
    pub delayed :
        (k : ℕ) → lookup k after.delayed ≡ (if k == start then none else lookup k h.delayed)

  -- In a build whose state is sound and knows the troves of the requirement graph, the handler
  -- takes the failure of a trove without an exception, and the state stays sound. Every other trove
  -- that the failure reaches is then unbuildable, in its object and in the table of the build; the
  -- troves that it does not reach keep their state and, where they are ready to be built, stay so;
  -- no trove that it reaches is ready to be built. The trove that failed is no longer delayed.
  pub on_trove_failed_total :
      IsConsistent h.deps.base
      → ((r : ℕ) (q : Reason) (p : ℕ)
          → needs w.graphs h.deps.dep_graph r q p ≡ true
          → contains r h.deps.base.states_by_trove ≡ true)
      → AfterFailure
  unfolding on_trove_failed
  on_trove_failed_total v known =
      let f = fail_trove_total w.graphs w.tup now laws h.deps start in
      let e = mark_unbuildable_total f.told f.state.base (subst IsConsistent (sym f.same_base) v) (
        All-weaken (λ x. Starved w.graphs h.deps.dep_graph start x.0 x.1)
          (λ x. contains x.0 f.state.base.states_by_trove ≡ true)
          (λ x s.
            subst (λ b. contains x.0 b.states_by_trove ≡ true) (sym f.same_base)
              (known x.0 x.1 s.solution s.required))
          f.told f.reasons) in
      let old : (k : ℕ)
          → lookup k f.state.base.states_by_trove ≡ lookup k h.deps.base.states_by_trove =
        λ k. ap (λ b. lookup k b.states_by_trove) f.same_base in
      record {
        after = record h {
          deps = record f.state { base = e.table };
          delayed = erase start h.delayed;
        };
        ends = rw (f.ends) (ground (arith, e.ends));
        consistent = e.consistent;
        lost = λ k other r. ground (arith, (f.exactly k).1 r, e.states k, f.states k);
        kept = λ k n. elim (Bool-cases (elem k (firsts f.told))) [
          | inl in_told ↦ absurd (n ((f.exactly k).0 (ground arith)))
          | inr out ↦ elim (Bool-cases (k == start)) [
            | inl same ↦ absurd (n ((f.exactly k).0 (ground arith)))
            | inr other ↦ (
              ground (arith, e.states k, old k),
              ground (arith, f.states k),
              ground (arith, f.reqs k),
            )
          ]
        ];
        not_ready = λ k r. ground (arith, (f.exactly k).1 r, f.reqs k);
        delayed = λ k. lookup-erase k start h.delayed;
      }
