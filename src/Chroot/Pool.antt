-- ===== src/Chroot/Pool.antt =====
-- The class ChrootQueue. A path is a number; `Disk` is what the code reads of the file system and
-- of the conary databases in it. A slot count of 0 stands for the counts that are not positive,
-- and mean no limit. Every path is below the root, so that `_shortenChrootPaths` keeps them all.
pub mod Free
pub mod Slots
pub mod Requests
use rmake.Base.{
  ℕ, zero, suc, ◌+◌, ◌*◌, Bool, true, false, not, ◌&&◌, ◌||◌, Option, none, some, List, [], ◌∷◌,
  elem, discard, adjoin, length, ltb, leb, ◌==◌, if◌then◌else◌, ◌>>=◌, is_some, filter,
}
use rmake.Base.Dict.{Dict, lookup, insert, erase}

pub data ChrootStatus : Type 0 where
  reserved active bad : ChrootStatus

pub record Pool : Type 0 where
  pub slots : ℕ
  pub chroots : List ℕ
  pub chroot_status : Dict ChrootStatus

pub record Disk : Type 0 where
  -- The directories in the root, as `os.listdir` gives them, and all paths that exist.
  pub dirs : List ℕ
  pub present : List ℕ
  pub modified : ℕ → ℕ
  -- The (name, label, flavor) of the troves installed in a chroot, or a ConaryError.
  pub contents : ℕ → Option (List ℕ)
  -- `path + '-%d' % count`, and `path` for 0
  pub path_of : (name count : ℕ) → ℕ

-- `ChrootQueue.__init__` and `reset`
abbrev pub new_pool : ℕ → Pool
new_pool slots = record { slots = slots; chroots = []; chroot_status = [] }

abbrev pub is_listed : Bool → Option ChrootStatus → Bool
is_listed with_active none = true
is_listed with_active (some bad) = false
is_listed with_active (some _) = with_active

-- `self.chrootStatus[oldPath] = self.CHROOT_RESERVED`
abbrev pub reserve : Option ℕ → Pool → Pool
reserve none s = s
reserve (some path) s = record s { chroot_status = insert path reserved s.chroot_status }

module _ (d : Disk) where
  -- `_listChroots`
  unfoldable pub list_dirs : Bool → Pool → List ℕ
  list_dirs with_active s = filter (λ p. is_listed with_active (lookup p s.chroot_status)) d.dirs

  unfoldable pub list_old_chroots : Pool → List ℕ
  list_old_chroots s = list_dirs false s

  unfoldable pub unite : List ℕ → List ℕ → List ℕ
  unite [] ys = ys
  unite (x ∷ xs) ys = adjoin x (unite xs ys)

  unfoldable pub list_chroots : Pool → List ℕ
  list_chroots s = unite (list_dirs true s) s.chroots

  -- The test of the loop of `_createRootPath`, and the loop on fuel.
  unfoldable pub is_taken : ℕ → Pool → Bool
  is_taken path s = elem path d.present || elem path s.chroots

  unfoldable pub first_free : (fuel name count : ℕ) → Pool → Option ℕ
  first_free zero name count s = none
  first_free (suc fuel) name count s =
      let rest = first_free fuel name (suc count) s in
      if is_taken (d.path_of name count) s then rest else some (d.path_of name count)

  -- One more try than there are taken paths.
  abbrev pub fuel_for : Pool → ℕ
  fuel_for s = suc (length d.present + length s.chroots)

  unfoldable pub create_root_path : ℕ → Pool → Option (ℕ × Pool)
  create_root_path name s = do
    path ← first_free (fuel_for s) name 0 s
    some (
      path,
      record s { chroots = path ∷ s.chroots; chroot_status = insert path active s.chroot_status },
    )

  -- The oldest directory: the first of those modified first.
  unfoldable pub oldest : List ℕ → Option ℕ
  oldest [] = none
  oldest (p ∷ ps) = elim (oldest ps) [
    | none ↦ some p
    | some q ↦ some (if leb (d.modified p) (d.modified q) then p else q)
  ]

  abbrev pub common : List ℕ → List ℕ → ℕ
  common [] reqs = 0
  common (x ∷ xs) reqs = let rest = common xs reqs in if elem x reqs then suc rest else rest

  abbrev pub extra : List ℕ → List ℕ → ℕ
  extra [] reqs = 0
  extra (x ∷ xs) reqs = let rest = extra xs reqs in if elem x reqs then rest else suc rest

  -- The rank `2 * matches - extras`, which may be negative, is kept as the pair of its parts.
  abbrev pub Ranked : Type 0
  Ranked = ℕ × (ℕ × ℕ)

  abbrev pub rank_le : Ranked → Ranked → Bool
  rank_le (p, (m, e)) (q, (n, f)) = ltb (2 * m + f) (2 * n + e) || 2 * m + f == 2 * n + e && leb p q

  -- The last of the sorted pairs (rank, path); a chroot whose database is broken is left out.
  unfoldable pub best_match : List ℕ → List ℕ → Option Ranked
  best_match reqs [] = none
  best_match reqs (p ∷ ps) =
      let rest = best_match reqs ps in
      elim (d.contents p) [
        | none ↦ rest
        | some troves ↦ elim rest [
          | none ↦ some (p, (common troves reqs, extra troves reqs))
          | some q ↦ some (
              if rank_le (p, (common troves reqs, extra troves reqs)) q
              then q
              else (p, (common troves reqs, extra troves reqs)))
        ]
      ]

  unfoldable pub accept_match : List ℕ → Bool → Option Ranked → Option ℕ
  accept_match reqs good_roots_only none = none
  accept_match reqs good_roots_only (some (p, (m, e))) =
      if leb (length reqs + e) (2 * m) || not good_roots_only then some p else none

  unfoldable pub get_best_old_chroot : List ℕ → Bool → Bool → Pool → Option ℕ
  get_best_old_chroot reqs reuse_root good_roots_only s =
      let old = list_old_chroots s in
      if reuse_root then accept_match reqs good_roots_only (best_match reqs old) else oldest old

  -- The old chroot that `requestSlot` takes, given how many chroots there are.
  unfoldable pub choose_old : List ℕ → Bool → ℕ → Pool → Option ℕ
  choose_old reqs reuse count s =
      if ltb count s.slots
      then (if reuse then get_best_old_chroot reqs reuse true s else none)
      else get_best_old_chroot reqs reuse false s

  -- The outer option is the loop that does not end, the inner one the `None` of a full pool.
  unfoldable pub request_slot : ℕ → List ℕ → Bool → Pool → Option (Option (Option ℕ × ℕ) × Pool)
  request_slot name reqs reuse s =
      if ltb 0 s.slots && leb s.slots (length s.chroots) then some (none, s) else (do
        let count = length (list_chroots s)
        (path, t) ← create_root_path name s
        let old = if s.slots == 0 then none else choose_old reqs reuse count t
        some (some (old, path), reserve old t))

-- `chrootFinished` and `deleteChroot`
unfoldable pub chroot_finished : ℕ → Pool → Pool
chroot_finished path s = record s {
  chroots = discard path s.chroots;
  chroot_status = erase path s.chroot_status;
}

unfoldable pub mark_bad_chroot : ℕ → Pool → Pool
mark_bad_chroot path s = record s {
  chroots = discard path s.chroots;
  chroot_status = insert path bad s.chroot_status;
}
