-- ===== src/Deps/Failing/Pushing.antt =====
-- What one round of the loop puts on the list of the troves to fail.
use rmake.Base.{
  ℕ, ◌+◌, ◌≤◌, ◌≡◌, inl, inr, true, false, not, ◌&&◌, Option, some, List, [], ◌∷◌, map, length,
  elem, ◌==◌, Bool-cases, ==_self, arith, if◌then◌else◌,
}
use rmake.Base.Pred.{All}
use rmake.Deps.Graphs.{Reason, Edges, Graphs, has, same_reason, same_reason_self, same_reason→eq}
use rmake.Deps.State.{solutions}
use rmake.Deps.Failing.{Pending, other_solution, push_requirers}

-- The troves of a list.
abbrev pub firsts {ℓ} : {A : Type ℓ} → List (ℕ × A) → List ℕ
firsts l = map (λ e. e.0) l

pub other_solution→has :
    (t : ℕ) (q : Reason) (es : Edges)
    → other_solution t q es ≡ true
    → (p : ℕ) × ((p == t) ≡ false) × (has p q es ≡ true)
unfolding other_solution solutions
other_solution→has t q [] h = absurd (ground arith)
other_solution→has t q ((p, w) ∷ es) h = elim (Bool-cases (same_reason w q && not (p == t))) [
  | inl e ↦ (p, ground arith, ground (arith, ==_self p))
  | inr e ↦ let (p', a, b) = other_solution→has t q es (ground arith) in (p', a, ground (arith, b))
]

pub only_solution :
    (t p : ℕ) (q : Reason) (es : Edges)
    → other_solution t q es ≡ false
    → has p q es ≡ true
    → (p == t) ≡ true
unfolding other_solution solutions
only_solution t p q [] h a = absurd (ground arith)
only_solution t p q ((k, w) ∷ es) h a = ground (arith, only_solution t p q es)

-- What holds of every edge that is listed.
pub All-has {κ} :
    (P : ℕ × Reason → Type κ) (es : Edges)
    → ((r : ℕ) (q : Reason) → has r q es ≡ true → P (r, q))
    → All P es
All-has P [] f = tt
All-has P ((r, q) ∷ es) f = (
  f r q (ground (arith, ==_self r, same_reason_self q)),
  All-has P es (λ k w h. f k w (ground (arith, h))),
)

module _ (m : Graphs) (t : ℕ) (g : m.Graph) where
  pub push_requirers_keeps :
      (k : ℕ) (es : Edges) (stack : Pending)
      → elem k (firsts stack) ≡ true
      → elem k (firsts (push_requirers m t g es stack)) ≡ true
  unfolding push_requirers
  push_requirers_keeps k [] stack h = h
  push_requirers_keeps k ((r, q) ∷ es) stack h = push_requirers_keeps k es _ (ground arith)

  -- A requirer that is not put on the list has another solution.
  pub push_requirers_skips :
      (r : ℕ) (q : Reason) (es : Edges) (stack : Pending)
      → has r q es ≡ true
      → (r == t) ≡ false
      → elem r (firsts (push_requirers m t g es stack)) ≡ false
      → other_solution t q (m.children r g) ≡ true
  unfolding push_requirers
  push_requirers_skips r q [] stack h n d = absurd (ground arith)
  push_requirers_skips r q ((k, w) ∷ es) stack h n d = elim (Bool-cases (has r q es)) [
    | inl e ↦ push_requirers_skips r q es _ e n d
    | inr e ↦ elim (Bool-cases (other_solution t q (m.children r g))) [
      | inl found ↦ found
      | inr lost ↦
          let same : k ≡ r = ground arith in
          let why : w ≡ q = same_reason→eq w q (ground arith) in
          absurd (
            ground (
              arith,
              push_requirers_keeps r es (
                  if k == t
                  then stack
                  else (if other_solution t w (m.children k g)
                      then stack
                      else (k, some w) ∷ stack)),
              ==_self r,
            ))
    ]
  ]

  pub push_requirers-All {κ} :
      (P : ℕ × Option Reason → Type κ) (es : Edges) (stack : Pending)
      → All
          (λ e.
            (e.0 == t) ≡ false
            → other_solution t e.1 (m.children e.0 g) ≡ false
            → P (e.0, some e.1))
          es
      → All P stack
      → All P (push_requirers m t g es stack)
  unfolding push_requirers
  push_requirers-All P [] stack a b = b
  push_requirers-All P ((r, q) ∷ es) stack a b =
      push_requirers-All P es _ a.1 (elim (Bool-cases (r == t)) [
        | inl e ↦ rw e b
        | inr e ↦ elim (Bool-cases (other_solution t q (m.children r g))) [
          | inl f ↦ rw (e, f) b
          | inr f ↦ rw (e, f) (a.0 e f, b)
        ]
      ])

  pub length-push_requirers :
      (es : Edges) (stack : Pending)
      → length (push_requirers m t g es stack) ≤ length es + length stack
  unfolding push_requirers
  length-push_requirers [] stack = omega arith
  length-push_requirers ((r, q) ∷ es) stack =
      ground (arith, length-push_requirers es stack, length-push_requirers es ((r, some q) ∷ stack))
