-- ===== src/Chroot/Cache/Matching.antt =====
-- The cached chroot that is found is one with the best score.
use rmake.Base.{
  ℕ, ◌≤◌, ◌≡◌, refl, sym, ap, inl, inr, ◌⊎◌, Option, none, some, List, [], ◌∷◌, ltb, Bool-cases,
  arith, ◌>>=◌,
}
use rmake.Base.Pred.{All, In}
use rmake.Chroot.Cache.{keep_better, Manifest, score, find_from, find_partial_match}

-- The score of an entry of the directory.
abbrev pub score_entry : Manifest → Option Manifest → Option ℕ
score_entry mine none = none
score_entry mine (some cached) = score mine cached

-- No entry is better than the best so far.
abbrev pub AtMost : Option (ℕ × ℕ) → Option ℕ → Type 0
AtMost best none = Unit
AtMost none (some n) = ⊥
AtMost (some (f, m)) (some n) = n ≤ m

abbrev Better : Option (ℕ × ℕ) → Option (ℕ × ℕ) → Type 0
Better none now = Unit
Better (some (f, m)) none = ⊥
Better (some (f, m)) (some (g, n)) = m ≤ n

Better-refl : (b : Option (ℕ × ℕ)) → Better b b
Better-refl none = tt
Better-refl (some (f, m)) = ground arith

Better-trans : (a b c : Option (ℕ × ℕ)) → Better a b → Better b c → Better a c
Better-trans none b c p q = tt
Better-trans (some (f, m)) none c p q = absurd p
Better-trans (some (f, m)) (some (g, n)) none p q = absurd q
Better-trans (some (f, m)) (some (g, n)) (some (h, k)) p q = ground (arith, p, q)

AtMost-Better : (b now : Option (ℕ × ℕ)) (o : Option ℕ) → AtMost b o → Better b now → AtMost now o
AtMost-Better b now none p q = tt
AtMost-Better none now (some n) p q = absurd p
AtMost-Better (some (f, m)) none (some n) p q = absurd q
AtMost-Better (some (f, m)) (some (g, k)) (some n) p q = ground (arith, p, q)

keep_better-Better :
    (f : ℕ) (b : Option (ℕ × ℕ)) (o : Option ℕ)
    → Better b (keep_better f b o) × AtMost (keep_better f b o) o
keep_better-Better f b none = (Better-refl b, tt)
keep_better-Better f none (some n) = (tt, ground arith)
keep_better-Better f (some (g, m)) (some n) = elim (Bool-cases (ltb m n)) [
  | inl e ↦ rw e (ground (arith, e), ground arith)
  | inr e ↦ rw e (ground arith, ground (arith, e))
]

abbrev Comes : Manifest → List (ℕ × Option Manifest) → ℕ → ℕ → Type 0
Comes mine entries f n =
    (cached : Manifest) × In (f, some cached) entries × (score mine cached ≡ some n)

-- What the loop over the entries leaves of the best so far.
record Searched (mine : Manifest) (best now : Option (ℕ × ℕ)) (entries : List (ℕ × Option Manifest))
    : Type 0 where
  better : Better best now
  most : All (λ e. AtMost now (score_entry mine e.1)) entries
  source : (f n : ℕ) → now ≡ some (f, n) → (best ≡ some (f, n)) ⊎ Comes mine entries f n

later_entry :
    (mine : Manifest) (e : ℕ × Option Manifest) (rest : List (ℕ × Option Manifest)) (f n : ℕ)
    → Comes mine rest f n
    → Comes mine (e ∷ rest) f n
later_entry mine e rest f n (cached, m, q) = (cached, inr m, q)

entry_or_best :
    (mine cached : Manifest) (g f n : ℕ) (best : Option (ℕ × ℕ)) (o : Option ℕ)
    → score mine cached ≡ o
    → keep_better g best o ≡ some (f, n)
    → (best ≡ some (f, n)) ⊎ ((g ≡ f) × (score mine cached ≡ some n))
entry_or_best mine cached g f n best none q h = inl h
entry_or_best mine cached g f n none (some k) q h = inr (ground (arith, h), ground (arith, h, q))
entry_or_best mine cached g f n (some (i, m)) (some k) q h = elim (Bool-cases (ltb m k)) [
  | inl e ↦ inr (ground (arith, h, e), ground (arith, h, q, e))
  | inr e ↦ inl (ground (arith, h, e))
]

find_from-Searched :
    (mine : Manifest) (best : Option (ℕ × ℕ)) (entries : List (ℕ × Option Manifest))
    → Searched mine best (find_from mine best entries) entries
unfolding find_from
find_from-Searched mine best [] = record {
  better = Better-refl best;
  most = tt;
  source = λ f n h. inl h;
}
find_from-Searched mine best ((g, none) ∷ rest) =
    let r = find_from-Searched mine best rest in
    record {
      better = r.better;
      most = (tt, r.most);
      source = λ f n h. elim (r.source f n h) [
        | inl q ↦ inl q
        | inr c ↦ inr (later_entry mine (g, none) rest f n c)
      ];
    }
find_from-Searched mine best ((g, some cached) ∷ rest) =
    let now = keep_better g best (score mine cached) in
    let k = keep_better-Better g best (score mine cached) in
    let r = find_from-Searched mine now rest in
    record {
      better = Better-trans best now (find_from mine now rest) k.0 r.better;
      most = (AtMost-Better now (find_from mine now rest) (score mine cached) k.1 r.better, r.most);
      source = λ f n h. elim (r.source f n h) [
        | inl q ↦ elim (entry_or_best mine cached g f n best (score mine cached) refl q) [
          | inl b ↦ inl b
          | inr (same, c) ↦ inr (cached, inl (ap (λ x. (x, some cached)) (sym same)), c)
        ]
        | inr c ↦ inr (later_entry mine (g, some cached) rest f n c)
      ];
    }

-- The match that is found, and its score.
pub record Found (mine : Manifest) (entries : List (ℕ × Option Manifest)) : Type 0 where
  pub best : Option (ℕ × ℕ)
  pub returned : find_partial_match mine entries ≡ (best >>= λ p. some p.0)
  pub most : All (λ e. AtMost best (score_entry mine e.1)) entries
  pub source :
      (f n : ℕ)
      → best ≡ some (f, n)
      → (cached : Manifest) × In (f, some cached) entries × (score mine cached ≡ some n)

-- The search for a partial match returns the fingerprint of an entry with a readable manifest and
-- a score that no entry exceeds, and nothing just if no entry has a score.
pub find_partial_match-Found :
    (mine : Manifest) (entries : List (ℕ × Option Manifest)) → Found mine entries
unfolding find_partial_match
find_partial_match-Found mine entries =
    let r = find_from-Searched mine none entries in
    record {
      best = find_from mine none entries;
      returned = refl;
      most = r.most;
      source = λ f n h. elim (r.source f n h) [ inl q ↦ absurd (ground (arith, q)) | inr c ↦ c ];
    }
