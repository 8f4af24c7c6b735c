-- ===== src/Chroot/Tests.antt =====
-- The pool of chroots on a small disk.
use rmake.Base.{ℕ, none, ◌+◌, ◌*◌, ◌≡◌, arith, true, false, some, [], ◌∷◌, elem}
use rmake.Chroot.Cache.{CachedItem, Manifest, prune, sort_items, total_size}
use rmake.Chroot.Cache.Pruning.{Split, IsOldestFirst, prune-Split}
use rmake.Chroot.Cache.Matching.{Found, find_partial_match-Found}
use rmake.Chroot.Pool.{
  Disk, new_pool, first_free, fuel_for, is_taken, chroot_finished, mark_bad_chroot,
}
use rmake.Chroot.Pool.Free.{IsSpread, first_free_total}
use rmake.Chroot.Pool.Slots.{IsTidy}
use rmake.Chroot.Pool.Requests.{new_pool-IsTidy, Requested, request_slot_total, give_back-IsTidy}

-- One old chroot, of the name 5.
abbrev disk : Disk
disk = record {
  dirs = 500 ∷ [];
  present = 500 ∷ [];
  modified = λ p. p;
  contents = λ p. some (1 ∷ 2 ∷ []);
  path_of = λ name count. name * 100 + count;
}

disk-IsSpread : IsSpread disk
disk-IsSpread name i j h = omega (arith, h)

first_free_example :
    (path : ℕ) × (first_free disk (fuel_for disk (new_pool 2)) 5 0 (new_pool 2) ≡ some path)
    × (is_taken disk path (new_pool 2) ≡ false)
first_free_example = first_free_total disk disk-IsSpread 5 (new_pool 2)

request_slot_example : Requested disk 5 (1 ∷ []) true (new_pool 2)
request_slot_example =
    request_slot_total disk disk-IsSpread 5 (1 ∷ []) true (new_pool 2) (new_pool-IsTidy 2)

-- The pool that a request leaves.
asked : Requested disk 5 (1 ∷ []) true (new_pool 1)
asked = request_slot_total disk disk-IsSpread 5 (1 ∷ []) true (new_pool 1) (new_pool-IsTidy 1)

give_back_example :
    (IsTidy (chroot_finished 501 asked.after)
      × (elem 501 (chroot_finished 501 asked.after).chroots ≡ false))
    × (IsTidy (mark_bad_chroot 501 asked.after)
        × (elem 501 (mark_bad_chroot 501 asked.after).chroots ≡ false))
give_back_example = give_back-IsTidy 501 asked.after asked.tidy

abbrev old_item : CachedItem
old_item = record { fingerprint = 8; atime = 10; size = 60 }

abbrev new_item : CachedItem
new_item = record { fingerprint = 9; atime = 20; size = 60 }

prune_example :
    Split 100 (prune 100 (new_item ∷ old_item ∷ [])) (sort_items (new_item ∷ old_item ∷ []))
    × IsOldestFirst (sort_items (new_item ∷ old_item ∷ []))
    × (total_size (sort_items (new_item ∷ old_item ∷ [])) ≡ total_size (new_item ∷ old_item ∷ []))
prune_example = prune-Split 100 (new_item ∷ old_item ∷ []) (omega arith)

abbrev wanted : Manifest
wanted = record {
  job_fingerprints = 1 ∷ 2 ∷ 3 ∷ [];
  bootstrap_fingerprints = 7 ∷ [];
  cross_fingerprints = [];
}

abbrev cached : Manifest
cached = record {
  job_fingerprints = 1 ∷ 3 ∷ [];
  bootstrap_fingerprints = 7 ∷ [];
  cross_fingerprints = [];
}

find_partial_match_example : Found wanted ((40, none) ∷ (41, some cached) ∷ [])
find_partial_match_example = find_partial_match-Found wanted ((40, none) ∷ (41, some cached) ∷ [])
