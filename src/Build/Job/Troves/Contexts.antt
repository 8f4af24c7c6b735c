-- ===== src/Build/Job/Troves/Contexts.antt =====
-- The two tables of the troves of a job agree.
use rmake.Base.{
  ℕ, ◌≡◌, refl, subst, true, false, ◌&&◌, ◌||◌, none, some, List, [], ◌∷◌, ◌++◌, ◌==◌, elem,
  is_empty, if◌then◌else◌, Bool-cases, Option-cases, inl, inr, arith, ==_iff, ==_self,
}
use rmake.Base.Dict.{lookup, insert, erase, lookup-insert, lookup-erase}
use rmake.Build.Trove.{BuildTrove}
use rmake.Build.Job.Troves.{
  Table, JobTroves, find_trove, put_trove, drop_trove, has_trove, contexts_of, add_trove,
  remove_context, remove_trove,
}

find-put_trove :
    (n c m d : ℕ) (t : BuildTrove) (l : Table)
    → find_trove n c (put_trove m d t l) ≡ (if n == m && c == d then some t else find_trove n c l)
unfolding find_trove put_trove
find-put_trove n c m d t [] = refl
find-put_trove n c m d t (((k, e), u) ∷ l) = ground (
  arith,
  find-put_trove n c m d t l,
  ==_iff n m,
  ==_iff c d,
  ==_iff m k,
  ==_iff d e,
  ==_iff n k,
  ==_iff c e,
)

find-drop_trove :
    (n c m d : ℕ) (l : Table)
    → find_trove n c (drop_trove m d l) ≡ (if n == m && c == d then none else find_trove n c l)
unfolding find_trove drop_trove
find-drop_trove n c m d [] = ground arith
find-drop_trove n c m d (((k, e), u) ∷ l) = ground (
  arith,
  find-drop_trove n c m d l,
  ==_iff n m,
  ==_iff c d,
  ==_iff m k,
  ==_iff d e,
  ==_iff n k,
  ==_iff c e,
)

elem-snoc : (k c : ℕ) (l : List ℕ) → elem k (l ++ c ∷ []) ≡ (elem k l || k == c)
elem-snoc k c [] = ground arith
elem-snoc k c (x ∷ xs) = ground (arith, elem-snoc k c xs)

-- No context twice.
abbrev pub NodupContexts : List ℕ → Type 0
NodupContexts [] = Unit
NodupContexts (x ∷ xs) = (elem x xs ≡ false) × NodupContexts xs

NodupContexts-snoc :
    (c : ℕ) (l : List ℕ) → NodupContexts l → elem c l ≡ false → NodupContexts (l ++ c ∷ [])
NodupContexts-snoc c [] u h = (refl, tt)
NodupContexts-snoc c (x ∷ xs) u h = (
  ground (arith, u, h, elem-snoc x c xs, ==_iff x c, ==_iff c x),
  NodupContexts-snoc c xs u.1 (ground (arith, h)),
)

elem-remove_context :
    (k c : ℕ) (l : List ℕ)
    → NodupContexts l
    → elem k (remove_context c l) ≡ (if k == c then false else elem k l)
unfolding remove_context
elem-remove_context k c [] u = ground arith
elem-remove_context k c (x ∷ xs) u =
    ground (arith, u, elem-remove_context k c xs, ==_iff k c, ==_iff c x, ==_iff k x)

remove_context-NodupContexts :
    (c : ℕ) (l : List ℕ) → NodupContexts l → NodupContexts (remove_context c l)
unfolding remove_context
remove_context-NodupContexts c [] u = tt
remove_context-NodupContexts c (x ∷ xs) u = elim (Bool-cases (c == x)) [
  | inl e ↦ ground (arith, e, u)
  | inr e ↦ ground (arith, e, u, remove_context-NodupContexts c xs u.1, elem-remove_context x c xs)
]

-- A context is listed for a (name, version, flavor) just if there is a trove of both, and once.
pub record IsAgreed (s : JobTroves) : Type 0 where
  pub listed : (n c : ℕ) → elem c (contexts_of n s) ≡ has_trove n c s
  pub once : (n : ℕ) → NodupContexts (contexts_of n s)

elem-remove_context-twice :
    (c : ℕ) (l : List ℕ) → elem c (remove_context c ((l ++ c ∷ []) ++ c ∷ [])) ≡ true
unfolding remove_context
elem-remove_context-twice c [] = ground (arith, ==_self c)
elem-remove_context-twice c (x ∷ xs) =
    ground
      (arith, elem-remove_context-twice c xs, ==_self c, elem-snoc c c (xs ++ c ∷ []), ==_iff c x)

nonempty-elem : (c : ℕ) (l : List ℕ) → elem c l ≡ true → is_empty l ≡ false
nonempty-elem c [] h = absurd (ground (arith, h))
nonempty-elem c (x ∷ xs) h = refl

contexts_of-add_trove :
    (k n c : ℕ) (t : BuildTrove) (s : JobTroves)
    → contexts_of k (add_trove n c t s)
      ≡ (if k == n then contexts_of n s ++ c ∷ [] else contexts_of k s)
unfolding add_trove
contexts_of-add_trove k n c t s =
    ground (arith, lookup-insert k n (contexts_of n s ++ c ∷ []) s.trove_contexts)

-- A trove that the job has not is added to both tables, which agree again: it is found, and the
-- other troves are found as before.
pub add_trove-IsAgreed :
    (n c : ℕ) (t : BuildTrove) (s : JobTroves)
    → IsAgreed s
    → has_trove n c s ≡ false
    → IsAgreed (add_trove n c t s)
      × ((m d : ℕ)
          → has_trove m d (add_trove n c t s)
            ≡ (if m == n && d == c then true else has_trove m d s))
unfolding has_trove add_trove
add_trove-IsAgreed n c t s v new = (
  record {
    listed = λ m d. ground (
      arith,
      v.listed m d,
      contexts_of-add_trove m n c t s,
      elem-snoc d c (contexts_of n s),
      find-put_trove m d n c t s.troves,
      ==_iff m n,
    );
    once = λ m. elim (Bool-cases (m == n)) [
      | inl e ↦ ground (
        arith,
        e,
        contexts_of-add_trove m n c t s,
        NodupContexts-snoc c (contexts_of n s) (v.once n) (ground (arith, v.listed n c, new)),
      )
      | inr e ↦ ground (arith, e, contexts_of-add_trove m n c t s, v.once m)
    ];
  },
  λ m d. ground (arith, find-put_trove m d n c t s.troves),
)

-- A trove that is added a second time has its context listed twice, so that the context is still
-- listed after the trove is removed: the job then lists a trove that it does not have.
pub add_trove-twice :
    (n c : ℕ) (t u : BuildTrove) (s : JobTroves)
    → (r : JobTroves) × (remove_trove n c (add_trove n c u (add_trove n c t s)) ≡ some r)
      × (has_trove n c r ≡ false)
      × (elem c (contexts_of n r) ≡ true)
unfolding has_trove add_trove remove_trove
add_trove-twice n c t u s =
    let w = add_trove n c u (add_trove n c t s) in
    let l : List ℕ = (contexts_of n s ++ c ∷ []) ++ c ∷ [] in
    let stays = elem-remove_context-twice c (contexts_of n s) in
    let full = nonempty-elem c (remove_context c l) stays in
    (
      record {
        troves = drop_trove n c w.troves;
        trove_contexts = insert n (remove_context c l) w.trove_contexts;
      },
      ground (
        arith,
        full,
        ==_self n,
        ==_self c,
        elem-snoc c c (contexts_of n s ++ c ∷ []),
        lookup-insert n n (contexts_of n s ++ c ∷ []) s.trove_contexts,
        lookup-insert n n l (add_trove n c t s).trove_contexts,
        find-put_trove n c n c u (add_trove n c t s).troves,
      ),
      ground (arith, ==_self n, ==_self c, find-drop_trove n c n c w.troves),
      ground (arith, ==_self n, stays, lookup-insert n n (remove_context c l) w.trove_contexts),
    )

is_empty-nil : (l : List ℕ) → is_empty l ≡ true → l ≡ []
is_empty-nil [] h = refl
is_empty-nil (x ∷ xs) h = absurd (ground (arith, h))

-- The tables that `removeTrove` leaves.
abbrev removed : (n c : ℕ) → List ℕ → JobTroves → JobTroves
removed n c l s = record {
  troves = drop_trove n c s.troves;
  trove_contexts =
      if is_empty (remove_context c l)
      then erase n s.trove_contexts
      else insert n (remove_context c l) s.trove_contexts;
}

contexts_of-removed :
    (k n c : ℕ) (l : List ℕ) (s : JobTroves)
    → contexts_of k (removed n c l s) ≡ (if k == n then remove_context c l else contexts_of k s)
contexts_of-removed k n c l s = elim (Bool-cases (is_empty (remove_context c l))) [
  | inl e ↦
      ground (arith, e, is_empty-nil (remove_context c l) e, lookup-erase k n s.trove_contexts)
  | inr e ↦ ground (arith, e, lookup-insert k n (remove_context c l) s.trove_contexts)
]

-- A trove that the job has is removed from both tables without an exception: they agree again, it
-- is not found any more, and the other troves are found as before.
pub remove_trove-IsAgreed :
    (n c : ℕ) (s : JobTroves)
    → IsAgreed s
    → has_trove n c s ≡ true
    → (r : JobTroves) × (remove_trove n c s ≡ some r)
      × IsAgreed r
      × ((m d : ℕ) → has_trove m d r ≡ (if m == n && d == c then false else has_trove m d s))
unfolding has_trove remove_trove
remove_trove-IsAgreed n c s v h = elim (Option-cases (lookup n s.trove_contexts)) [
  | inl e ↦ absurd (ground (arith, e, h, v.listed n c))
  | inr (l, e) ↦
      let same : contexts_of n s ≡ l = ground (arith, e) in
      let u : NodupContexts l = subst NodupContexts same (v.once n) in
      (
        removed n c l s,
        ground (arith, e, h, v.listed n c),
        record {
          listed = λ m d. ground (
            arith,
            e,
            v.listed m d,
            contexts_of-removed m n c l s,
            elem-remove_context d c l u,
            find-drop_trove m d n c s.troves,
            ==_iff m n,
          );
          once = λ m. elim (Bool-cases (m == n)) [
            | inl q ↦
                ground (arith, q, contexts_of-removed m n c l s, remove_context-NodupContexts c l u)
            | inr q ↦ ground (arith, q, contexts_of-removed m n c l s, v.once m)
          ];
        },
        λ m d. ground (arith, find-drop_trove m d n c s.troves),
      )
]
