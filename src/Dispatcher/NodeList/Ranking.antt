-- ===== src/Dispatcher/NodeList/Ranking.antt =====
-- The order of `rankNodes`: a total preorder on keys with a positive number of slots, and the head
-- of the sorted list as a least element.
use native.Mathlib.Nat.{
  mul-le-mul_left, mul-le-mul_right, mul-lt-mul_of_pos_left, mul-lt-mul_of_pos_right,
  le_of_mul-le-mul_left, lt_of_mul-lt-mul_left,
}
use rmake.Base.{ℕ, ◌*◌, ◌≤◌, ◌<◌, ◌≡◌, true, false, List, [], ◌∷◌, Bool-cases, inl, inr, arith}
use rmake.Base.Pred.{All}
use rmake.Dispatcher.NodeList.Choice.{Key, key_le, Ranked, insert_ranked, sort_ranked}

module _ (a b c d e f : ℕ) where
  frac_trans : a * d ≤ c * b → c * f ≤ e * d → 0 < d → a * f ≤ e * b
  frac_trans h k p =
      le_of_mul-le-mul_left {k = d} (omega (arith, mul-le-mul_right f h, mul-le-mul_left b k)) p

  frac_trans_lt_left : a * d < c * b → c * f ≤ e * d → 0 < f → a * f < e * b
  frac_trans_lt_left h k p =
      lt_of_mul-lt-mul_left d
        (omega (arith, mul-lt-mul_of_pos_right {k = f} h p, mul-le-mul_left b k))

  frac_trans_lt_right : a * d ≤ c * b → c * f < e * d → 0 < b → a * f < e * b
  frac_trans_lt_right h k p =
      lt_of_mul-lt-mul_left d
        (omega (arith, mul-le-mul_right f h, mul-lt-mul_of_pos_left {k = b} k p))

abbrev pub IsPositive : Key → Type 0
IsPositive k = 0 < k.slots

pub key_le_trans :
    (k l m : Key)
    → IsPositive k
    → IsPositive l
    → IsPositive m
    → key_le k l ≡ true
    → key_le l m ≡ true
    → key_le k m ≡ true
unfolding key_le
key_le_trans k l m pk pl pm h i = ground (
  arith,
  frac_trans k.used k.slots l.used l.slots m.used m.slots,
  frac_trans m.used m.slots l.used l.slots k.used k.slots,
  frac_trans_lt_left k.used k.slots l.used l.slots m.used m.slots,
  frac_trans_lt_right k.used k.slots l.used l.slots m.used m.slots,
)

pub key_le_total : (k l : Key) → key_le k l ≡ false → key_le l k ≡ true
unfolding key_le
key_le_total k l h = ground arith

key_le_refl : (k : Key) → key_le k k ≡ true
unfolding key_le
key_le_refl k = ground arith

module _ {F : Type 0} where
  abbrev pub Positive : List (Ranked F) → Type 0
  Positive = All (λ x. IsPositive x.0)

  -- `k` is at most the key of every entry.
  abbrev pub IsLeast : Key → List (Ranked F) → Type 0
  IsLeast k = All (λ x. key_le k x.0 ≡ true)

  -- The list begins with a least element, if it has any.
  abbrev pub HeadIsLeast : List (Ranked F) → Type 0
  HeadIsLeast [] = Unit
  HeadIsLeast (x ∷ xs) = IsLeast x.0 (x ∷ xs)

  IsLeast-trans :
      (k l : Key) (xs : List (Ranked F))
      → IsPositive k
      → IsPositive l
      → Positive xs
      → key_le k l ≡ true
      → IsLeast l xs
      → IsLeast k xs
  IsLeast-trans k l [] pk pl p h i = tt
  IsLeast-trans k l (x ∷ xs) pk pl p h i =
      (key_le_trans k l x.0 pk pl p.0 h i.0, IsLeast-trans k l xs pk pl p.1 h i.1)

  -- An insertion keeps whatever holds of every entry.
  pub insert_ranked-All {κ} :
      (P : Ranked F → Type κ) (x : Ranked F) (xs : List (Ranked F))
      → P x
      → All P xs
      → All P (insert_ranked x xs)
  unfolding insert_ranked
  insert_ranked-All P x [] px h = (px, tt)
  insert_ranked-All P x (y ∷ ys) px h = elim (Bool-cases (key_le x.0 y.0)) [
    | inl e ↦ rw e (px, h)
    | inr e ↦ rw e (h.0, insert_ranked-All P x ys px h.1)
  ]

  pub sort_ranked-All {κ} :
      (P : Ranked F → Type κ) (xs : List (Ranked F)) → All P xs → All P (sort_ranked xs)
  unfolding sort_ranked
  sort_ranked-All P [] h = tt
  sort_ranked-All P (x ∷ xs) h =
      insert_ranked-All P x (sort_ranked xs) h.0 (sort_ranked-All P xs h.1)

  insert_ranked-HeadIsLeast :
      (x : Ranked F) (xs : List (Ranked F))
      → IsPositive x.0
      → Positive xs
      → HeadIsLeast xs
      → HeadIsLeast (insert_ranked x xs)
  unfolding insert_ranked
  insert_ranked-HeadIsLeast x [] px p h = (key_le_refl x.0, tt)
  insert_ranked-HeadIsLeast x (y ∷ ys) px p h = elim (Bool-cases (key_le x.0 y.0)) [
    | inl e ↦ rw e (key_le_refl x.0, IsLeast-trans x.0 y.0 (y ∷ ys) px p.0 p e h)
    | inr e ↦
        rw e (h.0, insert_ranked-All (λ z. key_le y.0 z.0 ≡ true) x ys (key_le_total x.0 y.0 e) h.1)
  ]

  pub sort_ranked-HeadIsLeast : (xs : List (Ranked F)) → Positive xs → HeadIsLeast (sort_ranked xs)
  unfolding sort_ranked
  sort_ranked-HeadIsLeast [] p = tt
  sort_ranked-HeadIsLeast (x ∷ xs) p =
      insert_ranked-HeadIsLeast x (sort_ranked xs) p.0
        (sort_ranked-All (λ z. IsPositive z.0) xs p.1) (sort_ranked-HeadIsLeast xs p.1)

  uninsert_ranked-All {κ} :
      (P : Ranked F → Type κ) (x : Ranked F) (xs : List (Ranked F))
      → All P (insert_ranked x xs)
      → P x × All P xs
  unfolding insert_ranked
  uninsert_ranked-All P x [] h = h
  uninsert_ranked-All P x (y ∷ ys) h = elim (Bool-cases (key_le x.0 y.0)) [
    | inl e ↦ rw e at h
    | inr e ↦
        let (py, rest) = rw e at h in
        let (px, pys) = uninsert_ranked-All P x ys rest in (px, (py, pys))
  ]

  -- What holds of the sorted list holds of the list that was sorted.
  pub unsort_ranked-All {κ} :
      (P : Ranked F → Type κ) (xs : List (Ranked F)) → All P (sort_ranked xs) → All P xs
  unfolding sort_ranked
  unsort_ranked-All P [] h = tt
  unsort_ranked-All P (x ∷ xs) h =
      let parts = uninsert_ranked-All P x (sort_ranked xs) h in
      (parts.0, unsort_ranked-All P xs parts.1)
