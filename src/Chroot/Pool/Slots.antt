-- ===== src/Chroot/Pool/Slots.antt =====
-- What a request for a chroot gives, and that the pool stays within its slots.
use rmake.Base.{
  ℕ, ◌≡◌, inl, inr, Bool, true, false, Option, none, some, List, [], ◌∷◌, elem, discard,
  elem-discard, ◌==◌, Bool-cases, Option-cases, arith, ==_iff, ==_self, filter,
}
use rmake.Base.Dict.{lookup}
use rmake.Chroot.Pool.{
  ChrootStatus, active, Pool, Disk, is_listed, list_dirs, list_old_chroots, oldest, best_match,
  accept_match, get_best_old_chroot, choose_old,
}

abbrev pub is_active : Option ChrootStatus → Bool
is_active (some active) = true
is_active _ = false

-- The chroots in use are those whose status is active, each listed once.
abbrev pub NodupPaths : List ℕ → Type 0
NodupPaths [] = Unit
NodupPaths (x ∷ xs) = (elem x xs ≡ false) × NodupPaths xs

pub record IsTidy (s : Pool) : Type 0 where
  pub in_use : (p : ℕ) → elem p s.chroots ≡ is_active (lookup p s.chroot_status)
  pub distinct : NodupPaths s.chroots

pub discard-NodupPaths : (k : ℕ) (xs : List ℕ) → NodupPaths xs → NodupPaths (discard k xs)
discard-NodupPaths k [] u = tt
discard-NodupPaths k (x ∷ xs) u = elim (Bool-cases (k == x)) [
  | inl e ↦ ground (arith, e, discard-NodupPaths k xs u.1)
  | inr e ↦ ground (arith, e, u, elem-discard x k xs, discard-NodupPaths k xs u.1)
]

module _ (d : Disk) where
  pub elem-list_dirs :
      (p : ℕ) (ps : List ℕ) (f : ℕ → Bool)
      → elem p (filter f ps) ≡ true
      → (f p ≡ true) × (elem p ps ≡ true)
  elem-list_dirs p (q ∷ ps) f h = elim (Bool-cases (p == q)) [
    | inl e ↦ elim (Bool-cases (f q)) [
      | inl g ↦ (ground (arith, e, g, ==_iff p q), ground (arith, e))
      | inr g ↦ let r = elem-list_dirs p ps f (ground (arith, h, g)) in (r.0, ground (arith, r.1))
    ]
    | inr e ↦ elim (Bool-cases (f q)) [
      | inl g ↦
          let r = elem-list_dirs p ps f (ground (arith, h, g, e)) in (r.0, ground (arith, r.1))
      | inr g ↦ let r = elem-list_dirs p ps f (ground (arith, h, g)) in (r.0, ground (arith, r.1))
    ]
  ]
  elem-list_dirs p [] f h = absurd (ground (arith, h))

  pub oldest-elem : (ps : List ℕ) (p : ℕ) → oldest d ps ≡ some p → elem p ps ≡ true
  unfolding oldest
  oldest-elem [] p h = absurd (ground (arith, h))
  oldest-elem (q ∷ ps) p h = elim (Option-cases (oldest d ps)) [
    | inl e ↦ ground (arith, h, e, ==_self p)
    | inr (r, e) ↦ ground (arith, h, e, oldest-elem ps r e, ==_self p)
  ]

  pub best_match-elem :
      (reqs ps : List ℕ) (p m e : ℕ) → best_match d reqs ps ≡ some (p, (m, e)) → elem p ps ≡ true
  unfolding best_match
  best_match-elem reqs [] p m e h = absurd (ground (arith, h))
  best_match-elem reqs (q ∷ ps) p m e h = elim (Option-cases (d.contents q)) [
    | inl g ↦ ground (arith, best_match-elem reqs ps p m e (ground (arith, h, g)))
    | inr (troves, g) ↦ elim (Option-cases (best_match d reqs ps)) [
      | inl k ↦ ground (arith, h, g, k, ==_self p)
      | inr ((r, (n, f)), k) ↦ ground (arith, h, g, k, best_match-elem reqs ps r n f k, ==_self p)
    ]
  ]

  -- An old chroot that is offered is a directory that nothing uses or has given up.
  pub choose_old-free :
      (reqs : List ℕ) (reuse : Bool) (count : ℕ) (s : Pool) (p : ℕ)
      → choose_old d reqs reuse count s ≡ some p
      → (lookup p s.chroot_status ≡ none) × (elem p d.dirs ≡ true)
  unfolding choose_old get_best_old_chroot list_old_chroots list_dirs accept_match
  choose_old-free reqs reuse count s p h =
      let old = list_old_chroots d s in
      let listed : elem p old ≡ true = elim (Option-cases (best_match d reqs old)) [
        | inl e ↦ ground (arith, h, e, oldest-elem old p)
        | inr ((q, (m, n)), e) ↦
            ground (arith, h, e, oldest-elem old p, best_match-elem reqs old q m n e)
      ] in
      let r = elem-list_dirs p d.dirs (λ q. is_listed false (lookup q s.chroot_status)) listed in
      (ground (arith, r.0), r.1)
