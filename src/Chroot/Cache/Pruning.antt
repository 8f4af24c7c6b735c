-- ===== src/Chroot/Cache/Pruning.antt =====
-- What the pruning of the cache removes: the oldest archives, and no more than it has to.
use rmake.Base.{
  ℕ, ◌+◌, ◌-◌, ◌≤◌, ◌<◌, ◌≡◌, refl, sym, ap, subst, inl, inr, ◌⊎◌, List, [], ◌∷◌, ◌++◌, map, ltb,
  leb, Bool-cases, arith,
}
use rmake.Base.Pred.{All, All-weaken}
use rmake.Chroot.Cache.{CachedItem, insert_item, sort_items, total_size, prune_each, prune}

abbrev pub fingerprints : List CachedItem → List ℕ
fingerprints xs = map (λ x. x.fingerprint) xs

-- Each item was used no later than those after it.
abbrev pub IsOldestFirst : List CachedItem → Type 0
IsOldestFirst [] = Unit
IsOldestFirst (x ∷ xs) = All (λ y. x.atime ≤ y.atime) xs × IsOldestFirst xs

insert_item-All {κ} :
    (P : CachedItem → Type κ) (x : CachedItem) (xs : List CachedItem)
    → P x
    → All P xs
    → All P (insert_item x xs)
unfolding insert_item
insert_item-All P x [] p a = (p, tt)
insert_item-All P x (y ∷ ys) p a = elim (Bool-cases (leb x.atime y.atime)) [
  | inl e ↦ rw e (p, (a.0, a.1))
  | inr e ↦ rw e (a.0, insert_item-All P x ys p a.1)
]

insert_item-IsOldestFirst :
    (x : CachedItem) (xs : List CachedItem) → IsOldestFirst xs → IsOldestFirst (insert_item x xs)
unfolding insert_item
insert_item-IsOldestFirst x [] v = (tt, tt)
insert_item-IsOldestFirst x (y ∷ ys) v = elim (Bool-cases (leb x.atime y.atime)) [
  | inl e ↦
      let le : x.atime ≤ y.atime = ground (arith, e) in
      rw e (
        (
          le,
          All-weaken (λ z. y.atime ≤ z.atime) (λ z. x.atime ≤ z.atime) (λ z h. omega (arith, le, h))
              ys v.0,
        ),
        v,
      )
  | inr e ↦ rw e (
    insert_item-All (λ z. y.atime ≤ z.atime) x ys (ground (arith, e)) v.0,
    insert_item-IsOldestFirst x ys v.1,
  )
]

pub sort_items-IsOldestFirst : (xs : List CachedItem) → IsOldestFirst (sort_items xs)
unfolding sort_items
sort_items-IsOldestFirst [] = tt
sort_items-IsOldestFirst (x ∷ xs) =
    insert_item-IsOldestFirst x (sort_items xs) (sort_items-IsOldestFirst xs)

insert_item-total :
    (x : CachedItem) (xs : List CachedItem) → total_size (insert_item x xs) ≡ x.size + total_size xs
unfolding insert_item total_size
insert_item-total x [] = refl
insert_item-total x (y ∷ ys) = ground (arith, insert_item-total x ys)

sort_items-total : (xs : List CachedItem) → total_size (sort_items xs) ≡ total_size xs
unfolding sort_items total_size
sort_items-total [] = refl
sort_items-total (x ∷ xs) = ground (arith, insert_item-total x (sort_items xs), sort_items-total xs)

-- Whenever an archive was removed, what was left with it reached the limit.
abbrev pub IsNeeded : ℕ → List CachedItem → List CachedItem → Type 0
IsNeeded limit [] kept = Unit
IsNeeded limit (x ∷ xs) kept = (limit ≤ total_size ((x ∷ xs) ++ kept)) × IsNeeded limit xs kept

-- The list falls into what is removed and what is kept; what is kept is below the limit or nothing.
pub record Split (limit : ℕ) (removed : List ℕ) (xs : List CachedItem) : Type 0 where
  pub gone : List CachedItem
  pub kept : List CachedItem
  pub parts : xs ≡ gone ++ kept
  pub removes : removed ≡ fingerprints gone
  pub below : (kept ≡ []) ⊎ (total_size kept < limit)
  pub needed : IsNeeded limit gone kept

prune_each-Split :
    (limit total : ℕ) (xs : List CachedItem)
    → total ≡ total_size xs
    → Split limit (prune_each limit total xs) xs
unfolding prune_each total_size
prune_each-Split limit total [] h = record {
  gone = [];
  kept = [];
  parts = refl;
  removes = refl;
  below = inl refl;
  needed = tt;
}
prune_each-Split limit total (x ∷ xs) h = elim (Bool-cases (ltb total limit)) [
  | inl e ↦ record {
    gone = [];
    kept = x ∷ xs;
    parts = refl;
    removes = ground (arith, e);
    below = inr (ground (arith, e, h));
    needed = tt;
  }
  | inr e ↦
      let rest = prune_each-Split limit (total - x.size) xs (omega (arith, h)) in
      record {
        gone = x ∷ rest.gone;
        kept = rest.kept;
        parts = ap (λ l. x ∷ l) rest.parts;
        removes = ground (arith, e, rest.removes);
        below = rest.below;
        needed = (
          subst (λ l. limit ≤ x.size + total_size l) rest.parts (ground (arith, e, h)),
          rest.needed,
        );
      }
]

-- With a limit, pruning sorts the archives by the time of their last use and removes the oldest
-- ones: those that are kept are below the limit together or none is kept, each one was removed when
-- what was left still reached the limit, and the sizes of all are those of the sorted ones.
pub prune-Split :
    (limit : ℕ) (cached : List CachedItem)
    → 0 < limit
    → Split limit (prune limit cached) (sort_items cached)
      × IsOldestFirst (sort_items cached)
      × (total_size (sort_items cached) ≡ total_size cached)
unfolding prune
prune-Split limit cached h =
    let s =
      prune_each-Split limit (total_size cached) (sort_items cached)
        (sym (sort_items-total cached)) in
    (
      record {
        gone = s.gone;
        kept = s.kept;
        parts = s.parts;
        removes = ground (arith, h, s.removes);
        below = s.below;
        needed = s.needed;
      },
      sort_items-IsOldestFirst cached,
      sort_items-total cached,
    )
