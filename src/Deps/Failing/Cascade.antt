-- ===== src/Deps/Failing/Cascade.antt =====
-- The loop as a whole: it ends within its fuel, and what it leaves.
use rmake.Base.{
  ℕ, zero, suc, ◌+◌, ◌≤◌, ◌≡◌, ◌↔◌, refl, ap, subst, inl, inr, Bool, true, not, ◌&&◌, ◌||◌, Option,
  none, some, List, [], ◌∷◌, ◌++◌, length, elem, ◌==◌, Bool-cases, ==_self, arith, if◌then◌else◌,
}
use rmake.Base.Dict.{lookup, lookup-erase}
use rmake.Base.Pred.{All, All-elem}
use rmake.Build.Trove.{unbuildable, BuildTrove}
use rmake.Build.Trove.Changes.{
  set_state, trove_failed, trove_missing_buildreqs, trove_missing_dependencies,
}
use rmake.Deps.Graphs.{Requirement, spec, dep, Reason, Graphs, GraphLaws, needs}
use rmake.Deps.State.{DepState, failed_one}
use rmake.Deps.Failing.{Pending, Told, starve, note, announce, fail_loop, fail_trove}
use rmake.Deps.Failing.Pushing.{firsts, length-push_requirers}
use rmake.Deps.Failing.Least.{Fails, origin, starved, Starved, Spread, pushed, round_spreads}

module _ (m : Graphs) (tup : ℕ → ℕ → ℕ) (now : ℕ) where
  -- What the loop does to the rest of the state.
  record Effects (s₀ s : DepState m.Graph) (dead : List ℕ) (told : Told) : Type 0 where
    reqs :
        (k : ℕ)
        → lookup k s.build_req_troves ≡ (if elem k dead then none else lookup k s₀.build_req_troves)
    states :
        (k : ℕ)
        → (s.objects k).state ≡ (if elem k (firsts told) then unbuildable else (s₀.objects k).state)
    same_base : s.base ≡ s₀.base

  starve-state : (w : Requirement) (t : BuildTrove) → (starve tup now w t).state ≡ unbuildable
  unfolding starve trove_missing_buildreqs trove_missing_dependencies trove_failed set_state
  starve-state (spec r) t = refl
  starve-state (dep a b) t = refl

  firsts-snoc :
      (k t : ℕ) (q : Reason) (a : Told)
      → elem k (firsts (a ++ (t, q) ∷ [])) ≡ (elem k (firsts a) || k == t)
  firsts-snoc k t q [] = ground arith
  firsts-snoc k t q (x ∷ a) = ground (arith, firsts-snoc k t q a)

  firsts-nothing : (k : ℕ) (a : Told) → elem k (firsts (a ++ [])) ≡ elem k (firsts a)
  firsts-nothing k [] = refl
  firsts-nothing k (x ∷ a) = ground (arith, firsts-nothing k a)

  round-Effects :
      (s₀ s : DepState m.Graph) (dead : List ℕ) (told : Told) (t : ℕ) (why : Option Reason)
      → Effects s₀ s dead told
      → Effects s₀ (failed_one m t (announce m tup now t why s)) (t ∷ dead) (told ++ note t why)
  unfolding failed_one announce note
  round-Effects s₀ s dead told t none v = record {
    reqs = λ k. ground (arith, v.reqs k, lookup-erase k t s.build_req_troves);
    states = λ k. ground (arith, v.states k, firsts-nothing k told);
    same_base = v.same_base;
  }
  round-Effects s₀ s dead told t (some q) v = record {
    reqs = λ k. ground (arith, v.reqs k, lookup-erase k t s.build_req_troves);
    states =
        λ k. ground (arith, v.states k, firsts-snoc k t q told, starve-state q.wants (s.objects k));
    same_base = v.same_base;
  }

  round-graph :
      (t : ℕ) (why : Option Reason) (s : DepState m.Graph)
      → m.delete t s.dep_graph ≡ (failed_one m t (announce m tup now t why s)).dep_graph
  unfolding failed_one announce
  round-graph t none s = refl
  round-graph t (some q) s = refl

  module _ (laws : GraphLaws m) (s₀ : DepState m.Graph) (start : ℕ) where
    abbrev g₀ : m.Graph
    g₀ = s₀.dep_graph

    record Ended (fuel : ℕ) (pending : Pending) (s : DepState m.Graph) (told : Told) : Type 0 where
      state : DepState m.Graph
      all_told : Told
      dead : List ℕ
      ends : fail_loop m tup now fuel pending s told ≡ some (state, all_told)
      spread : Spread m g₀ start dead [] state.dep_graph all_told
      effects : Effects s₀ state dead all_told

    fail_loop_ends :
        (fuel : ℕ) (pending : Pending) (s : DepState m.Graph) (dead : List ℕ) (told : Told)
        → length pending + m.size s.dep_graph ≤ fuel
        → Spread m g₀ start dead pending s.dep_graph told
        → Effects s₀ s dead told
        → Ended fuel pending s told
    unfolding fail_loop
    fail_loop_ends zero [] s dead told h v w = record {
      state = s;
      all_told = told;
      dead = dead;
      ends = refl;
      spread = v;
      effects = w;
    }
    fail_loop_ends (suc fuel) [] s dead told h v w = record {
      state = s;
      all_told = told;
      dead = dead;
      ends = refl;
      spread = v;
      effects = w;
    }
    fail_loop_ends zero (x ∷ rest) s dead told h v w = absurd (omega arith)
    fail_loop_ends (suc fuel) ((t, why) ∷ rest) s dead told h v w =
        let g = s.dep_graph in
        let to_fail = pushed m g₀ start laws t why rest g dead told v in
        let e =
          fail_loop_ends fuel to_fail (failed_one m t (announce m tup now t why s)) (t ∷ dead)
            (told ++ note t why)
            (subst (λ x. length to_fail + m.size x ≤ fuel) (round-graph t why s)
              (omega (arith, laws.fewer g t, length-push_requirers m t g (m.parents t g) rest)))
            (subst (λ x. Spread m g₀ start (t ∷ dead) to_fail x (told ++ note t why))
              (round-graph t why s) (round_spreads m g₀ start laws t why rest g dead told v))
            (round-Effects s₀ s dead told t why w) in
        record {
          state = e.state;
          all_told = e.all_told;
          dead = e.dead;
          ends = e.ends;
          spread = e.spread;
          effects = e.effects;
        }

    is_dead-Fails :
        (k : ℕ) (dead : List ℕ) (g : m.Graph) (told : Told)
        → Spread m g₀ start dead [] g told
        → Fails m g₀ start k
        → elem k dead ≡ true
    is_dead-Fails k dead g told v origin = ground (arith, v.begun)
    is_dead-Fails k dead g told v (starved r p q n f) = elim (Bool-cases (elem r dead)) [
      | inl e ↦ e
      | inr e ↦
          let (p', a, b) = v.kept r q p (is_dead-Fails p dead g told v (f p n)) e refl n in
          absurd (ground (arith, a, is_dead-Fails p' dead g told v (f p' b)))
    ]

    -- A trove is lost if it is the first one or one that a call was made for.
    abbrev pub is_lost : Told → ℕ → Bool
    is_lost told k = k == start || elem k (firsts told)

    pub record FailureSpreads : Type 0 where
      pub state : DepState m.Graph
      pub told : Told
      pub ends : fail_trove m tup now start s₀ ≡ some (state, told)
      pub exactly : (k : ℕ) → (is_lost told k ≡ true) ↔ Fails m g₀ start k
      pub reasons : All (λ e. Starved m g₀ start e.0 e.1) told
      pub graph :
          (r : ℕ) (q : Reason) (p : ℕ)
          → needs m state.dep_graph r q p
            ≡ (not (is_lost told r) && not (is_lost told p) && needs m g₀ r q p)
      pub reqs :
          (k : ℕ)
          → lookup k state.build_req_troves
            ≡ (if is_lost told k then none else lookup k s₀.build_req_troves)
      pub states :
          (k : ℕ)
          → (state.objects k).state
            ≡ (if elem k (firsts told) then unbuildable else (s₀.objects k).state)
      pub same_base : state.base ≡ s₀.base

    -- When a trove fails, the loop over the troves to fail comes to its end. The troves that are
    -- lost then, the first one and those that the loop has failed, are exactly those that the
    -- failure reaches: the least set with the first trove, and with every trove that has a
    -- requirement all of whose solutions are in the set. Each trove was failed for such a
    -- requirement, and is unbuildable; the graph has lost the edges of the lost troves and no other,
    -- and the lost troves are no longer ready to be built.
    pub fail_trove_total : FailureSpreads
    unfolding fail_trove
    fail_trove_total =
        let e =
          fail_loop_ends (m.size g₀ + 1) ((start, none) ∷ []) s₀ [] [] (omega arith)
            (record {
              graph = λ r q p. refl;
              failing = tt;
              causes = (refl, tt);
              reasons = tt;
              told_dead = λ k h. h;
              dead_told = λ k h. ground arith;
              begun = ground (arith, ==_self start);
              kept = λ r q p a b c n. absurd (ground arith);
            })
            (record { reqs = λ k. refl; states = λ k. refl; same_base = refl }) in
        let v = e.spread in
        let same : (k : ℕ) → is_lost e.all_told k ≡ elem k e.dead = λ k. ground (
          arith,
          v.told_dead k,
          v.dead_told k,
          v.begun,
          λ (h : k ≡ start). ap (λ j. elem j e.dead) h,
        ) in
        record {
          state = e.state;
          told = e.all_told;
          ends = e.ends;
          exactly = λ k. (
            λ h. All-elem (Fails m g₀ start) k e.dead v.failing (ground (arith, same k)),
            λ h. ground (arith, same k, is_dead-Fails k e.dead e.state.dep_graph e.all_told v h),
          );
          reasons = v.reasons;
          graph = λ r q p. ground (arith, same r, same p, v.graph r q p);
          reqs = λ k. ground (arith, same k, e.effects.reqs k);
          states = e.effects.states;
          same_base = e.effects.same_base;
        }
