-- ===== src/Chroot/Pool/Requests.antt =====
-- The operations of the pool keep it tidy and within its slots.
use rmake.Base.{
  ℕ, ◌≤◌, ◌<◌, ◌≡◌, refl, inl, inr, Bool, true, false, not, Option, none, some, List, ◌∷◌, elem,
  elem-discard, length, ◌==◌, ◌&&◌, Bool-cases, arith, ==_iff, ==_self, ltb, leb, if◌then◌else◌,
  is_some, subst,
}
use rmake.Base.Dict.{lookup, insert, lookup-insert, lookup-erase, lookup-nil}
use rmake.Chroot.Pool.{
  ChrootStatus, active, reserved, bad, Pool, Disk, new_pool, list_chroots, is_taken,
  create_root_path, choose_old, reserve, request_slot, chroot_finished, mark_bad_chroot,
}
use rmake.Chroot.Pool.Free.{IsSpread, first_free_total}
use rmake.Chroot.Pool.Slots.{IsTidy, discard-NodupPaths, choose_old-free}

pub new_pool-IsTidy : (slots : ℕ) → IsTidy (new_pool slots)
new_pool-IsTidy slots = record {
  in_use = λ p. ground (arith, lookup-nil {V = ChrootStatus} p);
  distinct = tt;
}

taken-IsTidy :
    (path : ℕ) (s : Pool)
    → IsTidy s
    → elem path s.chroots ≡ false
    → IsTidy (record s {
      chroots = path ∷ s.chroots;
      chroot_status = insert path active s.chroot_status;
    })
taken-IsTidy path s v h = record {
  in_use = λ p. ground (arith, v.in_use p, lookup-insert p path active s.chroot_status);
  distinct = (h, v.distinct);
}

reserve-IsTidy :
    (old : Option ℕ) (s : Pool)
    → IsTidy s
    → ((p : ℕ) → old ≡ some p → lookup p s.chroot_status ≡ none)
    → IsTidy (reserve old s)
reserve-IsTidy none s v h = v
reserve-IsTidy (some q) s v h = record {
  in_use = λ p.
      ground (arith, v.in_use p, h q refl, lookup-insert p q reserved s.chroot_status, ==_iff p q);
  distinct = v.distinct;
}

-- What a chroot that is given is, and the old one that is offered with it.
pub record Given (d : Disk) (s after : Pool) (old : Option ℕ) (path : ℕ) : Type 0 where
  pub is_free : is_taken d path s ≡ false
  pub now_used : after.chroots ≡ path ∷ s.chroots
  pub old_unused :
      (p : ℕ)
      → old ≡ some p
      → (elem p d.dirs ≡ true)
        × (lookup p s.chroot_status ≡ none)
        × (lookup p after.chroot_status ≡ some reserved)

-- What a request leaves: none is given just if the pool has a limit and is full.
pub record Requested (d : Disk) (name : ℕ) (reqs : List ℕ) (reuse : Bool) (s : Pool) : Type 0 where
  pub answer : Option (Option ℕ × ℕ)
  pub after : Pool
  pub returned : request_slot d name reqs reuse s ≡ some (answer, after)
  pub tidy : IsTidy after
  pub refused : is_some answer ≡ not (ltb 0 s.slots && leb s.slots (length s.chroots))
  pub unchanged : answer ≡ none → after ≡ s
  pub given : (old : Option ℕ) (path : ℕ) → answer ≡ some (old, path) → Given d s after old path
  pub within : 0 < s.slots → length s.chroots ≤ s.slots → length after.chroots ≤ s.slots

module _ (d : Disk) (spread : IsSpread d) (name : ℕ) (reqs : List ℕ) (reuse : Bool) (s : Pool)
    (v : IsTidy s) where
  -- The rest of a request for which there is a slot.
  module _ (path : ℕ) (free : is_taken d path s ≡ false) where
    abbrev grown : Pool
    grown = record s {
      chroots = path ∷ s.chroots;
      chroot_status = insert path active s.chroot_status;
    }

    abbrev offer : Option ℕ
    offer = if s.slots == 0 then none else choose_old d reqs reuse (length (list_chroots d s)) grown

    offer-free :
        (p : ℕ) → offer ≡ some p → (lookup p grown.chroot_status ≡ none) × (elem p d.dirs ≡ true)
    offer-free p h =
        choose_old-free d reqs reuse (length (list_chroots d s)) grown p (ground (arith, h))

    same_chroots : (old : Option ℕ) → (reserve old grown).chroots ≡ path ∷ s.chroots
    same_chroots none = refl
    same_chroots (some _) = refl

    offered_now : Given d s (reserve offer grown) offer path
    offered_now = record {
      is_free = free;
      now_used = same_chroots offer;
      old_unused = λ p h. (
        (offer-free p h).1,
        ground (arith, offer-free p h, lookup-insert p path active s.chroot_status),
        ground (arith, h, lookup-insert p p reserved grown.chroot_status, ==_self p),
      );
    }

    offered_as :
        (old : Option ℕ) (q : ℕ)
        → ◌≡◌ {A = Option (Option ℕ × ℕ)} (some (offer, path)) (some (old, q))
        → Given d s (reserve offer grown) old q
    offered_as old q h =
        let same : ◌≡◌ {A = Option ℕ × ℕ} (offer, path) (old, q) = ground (arith, h) in
        subst (λ z. Given d s (reserve offer grown) z.0 z.1) same offered_now

  -- Where the paths of different counts differ and the pool is tidy, a request for a chroot ends. It
  -- is refused just if the pool has a limit and is full, and then changes nothing. Otherwise the path
  -- it gives is neither on the disk nor in use, and the old chroot that it may offer is a directory
  -- of no status, reserved from then on. The pool stays tidy and, if it was, within its slots.
  pub request_slot_total : Requested d name reqs reuse s
  unfolding request_slot create_root_path is_taken
  request_slot_total = elim (Bool-cases (ltb 0 s.slots && leb s.slots (length s.chroots))) [
    | inl e ↦ record {
      answer = none;
      after = s;
      returned = ground (arith, e);
      tidy = v;
      refused = ground (arith, e);
      unchanged = λ h. refl;
      given = λ old path h. cc;
      within = λ p h. h;
    }
    | inr e ↦
        let f = first_free_total d spread name s in
        let path : ℕ = f.0 in
        let free : is_taken d path s ≡ false = f.2 in
        record {
          answer = some (offer path free, path);
          after = reserve (offer path free) (grown path free);
          returned = ground (arith, e, f.1);
          tidy =
              reserve-IsTidy (offer path free) (grown path free)
                (taken-IsTidy path s v (ground (arith, free)))
                (λ p h. (offer-free path free p h).0);
          refused = ground (arith, e);
          unchanged = λ h. cc;
          given = λ old q h. offered_as path free old q h;
          within = λ p h. ground (arith, e, p, h, same_chroots path free (offer path free));
        }
  ]

-- A chroot that is given back, and one that is marked as bad, leaves a tidy pool that does not
-- use it.
pub give_back-IsTidy :
    (path : ℕ) (s : Pool)
    → IsTidy s
    → (IsTidy (chroot_finished path s) × (elem path (chroot_finished path s).chroots ≡ false))
      × (IsTidy (mark_bad_chroot path s) × (elem path (mark_bad_chroot path s).chroots ≡ false))
unfolding chroot_finished mark_bad_chroot
give_back-IsTidy path s v = (
  (
    record {
      in_use = λ p.
          ground
            (arith, v.in_use p, elem-discard p path s.chroots, lookup-erase p path s.chroot_status);
      distinct = discard-NodupPaths path s.chroots v.distinct;
    },
    ground (arith, elem-discard path path s.chroots, ==_self path),
  ),
  (
    record {
      in_use = λ p. ground (
        arith,
        v.in_use p,
        elem-discard p path s.chroots,
        lookup-insert p path bad s.chroot_status,
      );
      distinct = discard-NodupPaths path s.chroots v.distinct;
    },
    ground (arith, elem-discard path path s.chroots, ==_self path),
  ),
)
