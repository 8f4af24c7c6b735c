-- ===== src/Deps/Failing/Least.antt =====
-- The loop fails just the troves that the failure of the first one reaches: the least set with
-- that trove, and with every trove that requires something all of whose solutions are in the set.
use rmake.Base.{
  ℕ, ◌≡◌, refl, sym, subst, inl, inr, true, false, not, ◌&&◌, ◌||◌, Option, none, some, List, [],
  ◌∷◌, ◌++◌, elem, ◌==◌, Bool-cases, arith,
}
use rmake.Base.Pred.{All, All-append, All-elem}
use rmake.Deps.Graphs.{Reason, Graphs, GraphLaws, has, needs}
use rmake.Deps.Failing.{Pending, Told, other_solution, note, push_requirers}
use rmake.Deps.Failing.Pushing.{
  firsts, other_solution→has, only_solution, All-has, push_requirers_keeps, push_requirers_skips,
  push_requirers-All,
}

module _ (m : Graphs) (g₀ : m.Graph) (start : ℕ) where
  -- The troves that the failure of `start` reaches.
  pub data Fails : ℕ → Type 0 where
    origin : Fails start
    starved :
        (r p : ℕ) (q : Reason)
        → needs m g₀ r q p ≡ true
        → ((p' : ℕ) → needs m g₀ r q p' ≡ true → Fails p')
        → Fails r

  -- The trove has that requirement, and all its solutions fail.
  pub record Starved (r : ℕ) (q : Reason) : Type 0 where
    pub solution : ℕ
    pub required : needs m g₀ r q solution ≡ true
    pub lost : (p : ℕ) → needs m g₀ r q p ≡ true → Fails p

  abbrev pub Cause : ℕ × Option Reason → Type 0
  Cause (r, none) = r ≡ start
  Cause (r, some q) = Starved r q

  Cause→Fails : (r : ℕ) (why : Option Reason) → Cause (r, why) → Fails r
  Cause→Fails r none c = subst Fails (sym c) origin
  Cause→Fails r (some q) c = starved r c.solution q c.required c.lost

  -- A solution that has not failed.
  abbrev pub Lives : List ℕ → ℕ → Reason → Type 0
  Lives dead r q = (p : ℕ) × (elem p dead ≡ false) × (needs m g₀ r q p ≡ true)

  pub record Spread (dead : List ℕ) (pending : Pending) (g : m.Graph) (told : Told) : Type 0 where
    pub graph :
        (r : ℕ) (q : Reason) (p : ℕ)
        → needs m g r q p ≡ (not (elem r dead) && not (elem p dead) && needs m g₀ r q p)
    pub failing : All Fails dead
    pub causes : All Cause pending
    pub reasons : All (λ e. Starved e.0 e.1) told
    pub told_dead : (k : ℕ) → elem k (firsts told) ≡ true → elem k dead ≡ true
    pub dead_told : (k : ℕ) → elem k dead ≡ true → (k == start || elem k (firsts told)) ≡ true
    pub begun : (elem start dead || elem start (firsts pending)) ≡ true
    pub kept :
        (r : ℕ) (q : Reason) (p : ℕ)
        → elem p dead ≡ true
        → elem r dead ≡ false
        → elem r (firsts pending) ≡ false
        → needs m g₀ r q p ≡ true
        → Lives dead r q

  firsts-append :
      (k : ℕ) (a b : Told) → elem k (firsts (a ++ b)) ≡ (elem k (firsts a) || elem k (firsts b))
  firsts-append k [] b = refl
  firsts-append k (x ∷ a) b = ground (arith, firsts-append k a b)

  -- One round.
  module _ (laws : GraphLaws m) (t : ℕ) (why : Option Reason) (rest : Pending) (g : m.Graph)
      (dead : List ℕ) (told : Told) (v : Spread dead ((t, why) ∷ rest) g told) where
    abbrev pub pushed : Pending
    pushed = push_requirers m t g (m.parents t g) rest

    lost_all :
        (r : ℕ) (q : Reason)
        → has r q (m.parents t g) ≡ true
        → other_solution t q (m.children r g) ≡ false
        → Starved r q
    lost_all r q h f = record {
      solution = t;
      required = ground (arith, laws.parents_lem g r t q, v.graph r q t);
      lost = λ p n. elim (Bool-cases (elem p dead)) [
        | inl e ↦ All-elem Fails p dead v.failing e
        | inr e ↦
            subst Fails
              (ground (
                arith,
                laws.parents_lem g r t q,
                v.graph r q t,
                v.graph r q p,
                only_solution t p q (m.children r g),
              ))
              (Cause→Fails t why v.causes.0)
      ];
    }

    others_left :
        (r : ℕ) (q : Reason)
        → needs m g r q t ≡ true
        → (r == t) ≡ false
        → elem r (firsts pushed) ≡ false
        → Lives (t ∷ dead) r q
    others_left r q n e d =
        let (p, a, b) = other_solution→has t q (m.children r g) (
          push_requirers_skips m t g r q (m.parents t g) rest
            (ground (arith, laws.parents_lem g r t q)) e d) in
        (p, ground (arith, v.graph r q p), ground (arith, v.graph r q p))

    round_kept :
        (r : ℕ) (q : Reason) (p : ℕ)
        → elem p (t ∷ dead) ≡ true
        → elem r (t ∷ dead) ≡ false
        → elem r (firsts pushed) ≡ false
        → needs m g₀ r q p ≡ true
        → Lives (t ∷ dead) r q
    round_kept r q p a b d n = elim (Bool-cases (elem p dead)) [
      | inl e ↦
          let (p', x, y) =
            v.kept r q p e (ground arith)
              (ground (arith, push_requirers_keeps m t g r (m.parents t g) rest)) n in
          elim (Bool-cases (p' == t)) [
            | inr other ↦ (p', ground arith, y)
            | inl same ↦
                let here : p' ≡ t = ground arith in
                others_left r q
                  (ground (arith, v.graph r q t, subst (λ k. needs m g₀ r q k ≡ true) here y))
                  (ground arith) d
          ]
      | inr e ↦
          let here : p ≡ t = ground arith in
          others_left r q
            (ground (arith, v.graph r q t, subst (λ k. needs m g₀ r q k ≡ true) here n))
            (ground arith) d
    ]

    note_reasons : (w : Option Reason) → Cause (t, w) → All (λ e. Starved e.0 e.1) (note t w)
    unfolding note
    note_reasons none c = tt
    note_reasons (some q) c = (c, tt)

    firsts-note :
        (w : Option Reason) (k : ℕ)
        → Cause (t, w)
        → ((k == t) ≡ true → (k == start || elem k (firsts (note t w))) ≡ true)
          × (elem k (firsts (note t w)) ≡ true → (k == t) ≡ true)
    unfolding note
    firsts-note none k c = (λ h. ground arith, λ h. absurd (ground arith))
    firsts-note (some q) k c = (λ h. ground arith, λ h. ground arith)

    pub round_spreads : Spread (t ∷ dead) pushed (m.delete t g) (told ++ note t why)
    round_spreads = record {
      graph = λ r q p. ground (arith, laws.delete_lem g t r p q, v.graph r q p);
      failing = (Cause→Fails t why v.causes.0, v.failing);
      causes =
          push_requirers-All m t g Cause (m.parents t g) rest
            (All-has _ (m.parents t g) (λ r q h e f. lost_all r q h f)) v.causes.1;
      reasons = All-append _ told (note t why) v.reasons (note_reasons why v.causes.0);
      told_dead = λ k h. ground (
        arith,
        firsts-append k told (note t why),
        v.told_dead k,
        (firsts-note why k v.causes.0).1,
      );
      dead_told = λ k h. ground (
        arith,
        firsts-append k told (note t why),
        v.dead_told k,
        (firsts-note why k v.causes.0).0,
      );
      begun = ground (arith, v.begun, push_requirers_keeps m t g start (m.parents t g) rest);
      kept = round_kept;
    }
