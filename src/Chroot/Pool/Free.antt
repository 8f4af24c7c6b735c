-- ===== src/Chroot/Pool/Free.antt =====
-- The loop that looks for a free path ends, since the paths it tries are different.
use rmake.Base.{
  ℕ, zero, suc, ◌≤◌, ◌<◌, ◌≡◌, refl, inl, inr, true, false, some, List, [], ◌∷◌, ◌++◌, elem,
  discard, elem-discard, length, length-append, ◌||◌, Bool-cases, arith, ==_iff,
}
use rmake.Chroot.Pool.{Pool, Disk, is_taken, first_free, fuel_for}

-- Different counts give different paths.
abbrev pub IsSpread : Disk → Type 0
IsSpread d = (name i j : ℕ) → d.path_of name i ≡ d.path_of name j → i ≡ j

length-discard_le : (k : ℕ) (xs : List ℕ) → length (discard k xs) ≤ length xs
length-discard_le k [] = ground arith
length-discard_le k (x ∷ xs) = ground (arith, length-discard_le k xs)

length-discard : (k : ℕ) (xs : List ℕ) → elem k xs ≡ true → length (discard k xs) < length xs
length-discard k [] h = ground arith
length-discard k (x ∷ xs) h = ground (arith, h, length-discard k xs, length-discard_le k xs)

elem-append : (k : ℕ) (xs ys : List ℕ) → elem k (xs ++ ys) ≡ (elem k xs || elem k ys)
elem-append k [] ys = refl
elem-append k (x ∷ xs) ys = ground (arith, elem-append k xs ys)

module _ (d : Disk) (spread : IsSpread d) (name : ℕ) (s : Pool) where
  -- `left` holds all taken paths that are still to come.
  first_free-some :
      (fuel count : ℕ) (left : List ℕ)
      → ((i : ℕ)
          → count ≤ i
          → is_taken d (d.path_of name i) s ≡ true
          → elem (d.path_of name i) left ≡ true)
      → length left < fuel
      → (path : ℕ) × (first_free d fuel name count s ≡ some path) × (is_taken d path s ≡ false)
  unfolding first_free
  first_free-some zero count left h lt = absurd (ground (arith, lt))
  first_free-some (suc fuel) count left h lt =
      elim (Bool-cases (is_taken d (d.path_of name count) s)) [
        | inr e ↦ (d.path_of name count, ground (arith, e), e)
        | inl e ↦
            let here = h count (ground arith) e in
            let rest =
              first_free-some fuel (suc count) (discard (d.path_of name count) left)
                (λ i le t. ground (
                  arith,
                  h i (ground (arith, le)) t,
                  le,
                  elem-discard (d.path_of name i) (d.path_of name count) left,
                  ==_iff (d.path_of name i) (d.path_of name count),
                  spread name i count,
                ))
                (ground (arith, lt, length-discard (d.path_of name count) left here)) in
            (rest.0, ground (arith, e, rest.1), rest.2)
      ]

  -- Where the paths of different counts differ, one try more than there are taken paths finds a
  -- path that is neither on the disk nor a chroot of the pool.
  pub first_free_total :
      (path : ℕ) × (first_free d (fuel_for d s) name 0 s ≡ some path) × (is_taken d path s ≡ false)
  unfolding is_taken
  first_free_total =
      first_free-some (fuel_for d s) 0 (d.present ++ s.chroots)
        (λ i le t. ground (arith, t, elem-append (d.path_of name i) d.present s.chroots))
        (ground (arith, length-append d.present s.chroots))
