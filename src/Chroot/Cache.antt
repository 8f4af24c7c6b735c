-- ===== src/Chroot/Cache.antt =====
-- rmake/lib/chrootcache.py (the choice of a cached chroot, findOld, the pruning and parseSize) and
-- the score of rmake/worker/chroot/rootmanifest.py. A fingerprint is a number; what the code reads
-- of the cache directory is a list of items.
pub mod Pruning
pub mod Matching
use rmake.Base.{
  ℕ, ◌+◌, ◌-◌, ◌*◌, Bool, true, false, not, ◌&&◌, Option, none, some, List, [], ◌∷◌, elem, all, ltb,
  leb, ◌==◌, if◌then◌else◌, ◌>>=◌,
}

pub record CachedItem : Type 0 where
  pub fingerprint : ℕ
  pub atime : ℕ
  pub size : ℕ

-- `cached.sort(key=lambda x: x.atime)`, a stable sort.
unfoldable pub insert_item : CachedItem → List CachedItem → List CachedItem
insert_item x [] = x ∷ []
insert_item x (y ∷ ys) = if leb x.atime y.atime then x ∷ y ∷ ys else y ∷ insert_item x ys

unfoldable pub sort_items : List CachedItem → List CachedItem
sort_items [] = []
sort_items (x ∷ xs) = insert_item x (sort_items xs)

unfoldable pub total_size : List CachedItem → ℕ
total_size [] = 0
total_size (x ∷ xs) = x.size + total_size xs

-- The loop of `prune`: the fingerprints that it removes, in order.
unfoldable pub prune_each : (limit total : ℕ) → List CachedItem → List ℕ
prune_each limit total [] = []
prune_each limit total (x ∷ xs) =
    let rest = prune_each limit (total - x.size) xs in
    if ltb total limit then [] else x.fingerprint ∷ rest

unfoldable pub prune : ℕ → List CachedItem → List ℕ
prune limit cached =
    if limit == 0 then [] else prune_each limit (total_size cached) (sort_items cached)

-- `findOld`: `now - 3600 * hours` may be below zero, so the comparison is kept in one sum.
unfoldable pub find_old : (now hours : ℕ) → List CachedItem → List ℕ
find_old now hours [] = []
find_old now hours (x ∷ xs) =
    let rest = find_old now hours xs in
    if ltb (x.atime + 3600 * hours) now then x.fingerprint ∷ rest else rest

-- The sets of fingerprints of a ChrootManifest that `score` reads.
pub record Manifest : Type 0 where
  pub job_fingerprints : List ℕ
  pub bootstrap_fingerprints : List ℕ
  pub cross_fingerprints : List ℕ

abbrev pub is_within : List ℕ → List ℕ → Bool
is_within xs ys = all (λ x. elem x ys) xs

abbrev pub overlap : List ℕ → List ℕ → ℕ
overlap [] theirs = 0
overlap (x ∷ xs) theirs = let rest = overlap xs theirs in if elem x theirs then 1 + rest else rest

-- One round of the loop of `score`.
abbrev pub score_of : (mine theirs : List ℕ) → Option ℕ
score_of mine theirs = if is_within theirs mine then some (overlap mine theirs) else none

unfoldable pub score : (mine cached : Manifest) → Option ℕ
score mine cached =
    if is_within mine.bootstrap_fingerprints cached.bootstrap_fingerprints
      && is_within cached.bootstrap_fingerprints mine.bootstrap_fingerprints
    then (do
      a ← score_of mine.job_fingerprints cached.job_fingerprints
      b ← score_of mine.cross_fingerprints cached.cross_fingerprints
      some (a + b))
    else none

-- `score > bestScore` fails for a score of None, which is below every number.
abbrev pub keep_better : ℕ → Option (ℕ × ℕ) → Option ℕ → Option (ℕ × ℕ)
keep_better f best none = best
keep_better f none (some n) = some (f, n)
keep_better f (some (g, m)) (some n) = if ltb m n then some (f, n) else some (g, m)

-- The loop of `findPartialMatch` over the entries of the directory, with the best fingerprint and
-- score so far: a name that is no archive is left out of the list, and one whose manifest cannot be
-- read has none.
unfoldable pub find_from : Manifest → Option (ℕ × ℕ) → List (ℕ × Option Manifest) → Option (ℕ × ℕ)
find_from mine best [] = best
find_from mine best ((f, none) ∷ rest) = find_from mine best rest
find_from mine best ((f, some cached) ∷ rest) =
    find_from mine (keep_better f best (score mine cached)) rest

unfoldable pub find_partial_match : Manifest → List (ℕ × Option Manifest) → Option ℕ
find_partial_match mine entries = do (f, _) ← find_from mine none entries; some f

pub data Suffix : Type 0 where
  kibi mebi gibi tebi : Suffix

-- `parseSize` of a text: the number before its suffix; no suffix counts mebibytes.
unfoldable pub parse_size : Option (ℕ × Option Suffix) → ℕ
parse_size none = 0
parse_size (some (n, none)) = n * 1024 * 1024
parse_size (some (n, some kibi)) = n * 1024
parse_size (some (n, some mebi)) = n * 1024 * 1024
parse_size (some (n, some gibi)) = n * 1024 * 1024 * 1024
parse_size (some (n, some tebi)) = n * 1024 * 1024 * 1024 * 1024
