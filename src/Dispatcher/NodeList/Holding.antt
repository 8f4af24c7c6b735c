-- ===== src/Dispatcher/NodeList/Holding.antt =====
-- The list of commands that a node holds: finding, removing and popping by command id.
use rmake.Base.{
  ℕ, suc, ◌+◌, ◌≡◌, refl, true, none, some, List, [], ◌∷◌, ◌++◌, ◌==◌, ==_self, if◌then◌else◌,
  is_some, length, arith,
}
use rmake.Base.Dict.{Dict, lookup, contains, erase, lookup-erase}
use rmake.Dispatcher.Types.{Command, requires_chroot}
use rmake.Dispatcher.NodeList.{find, remove_first, pop_each}

module _ {F : Type 0} where
  abbrev pub chroot_count : List (Command F) → ℕ
  chroot_count [] = 0
  chroot_count (c ∷ cs) = if requires_chroot c then suc (chroot_count cs) else chroot_count cs

  abbrev pub NodupIds : List (Command F) → Type 0
  NodupIds [] = Unit
  NodupIds (c ∷ cs) = (find c.command_id cs ≡ none) × NodupIds cs

  pub find-id :
      (cid : ℕ) (cs : List (Command F)) (c : Command F) → find cid cs ≡ some c → c.command_id ≡ cid
  unfolding find
  find-id cid [] c h = cc
  find-id cid (x ∷ xs) c h = ground (arith, find-id cid xs c)

  pub find-append :
      (cid : ℕ) (cs : List (Command F)) (c : Command F)
      → find cid (cs ++ c ∷ []) ≡ (
          if is_some (find cid cs)
          then find cid cs
          else if cid == c.command_id
          then some c
          else none)
  unfolding find
  find-append cid [] c = refl
  find-append cid (x ∷ xs) c = ground (arith, find-append cid xs c)

  pub length-snoc : (cs : List (Command F)) (c : Command F) → length (cs ++ c ∷ []) ≡ length cs + 1
  length-snoc [] c = refl
  length-snoc (x ∷ xs) c = omega (arith, length-snoc xs c)

  pub chroot_count-snoc :
      (cs : List (Command F)) (c : Command F)
      → chroot_count (cs ++ c ∷ [])
        ≡ (if requires_chroot c then chroot_count cs + 1 else chroot_count cs)
  chroot_count-snoc [] c = ground arith
  chroot_count-snoc (x ∷ xs) c = ground (arith, chroot_count-snoc xs c)

  pub NodupIds-snoc :
      (cs : List (Command F)) (c : Command F)
      → NodupIds cs
      → find c.command_id cs ≡ none
      → NodupIds (cs ++ c ∷ [])
  unfolding find
  NodupIds-snoc [] c u h = (refl, tt)
  NodupIds-snoc (x ∷ xs) c u h = ground (arith, find-append x.command_id xs c, NodupIds-snoc xs c)

  pub find-remove_first :
      (k cid : ℕ) (cs : List (Command F))
      → NodupIds cs
      → find k (remove_first cid cs) ≡ (if k == cid then none else find k cs)
  unfolding find remove_first
  find-remove_first k cid [] u = ground arith
  find-remove_first k cid (x ∷ xs) u = ground (arith, find-remove_first k cid xs)

  pub NodupIds-remove_first :
      (cid : ℕ) (cs : List (Command F)) → NodupIds cs → NodupIds (remove_first cid cs)
  unfolding remove_first
  NodupIds-remove_first cid [] u = tt
  NodupIds-remove_first cid (x ∷ xs) u =
      ground (arith, find-remove_first x.command_id cid xs, NodupIds-remove_first cid xs)

  pub length-remove_first :
      (cid : ℕ) (cs : List (Command F)) (c : Command F)
      → find cid cs ≡ some c
      → length (remove_first cid cs) + 1 ≡ length cs
  unfolding find remove_first
  length-remove_first cid [] c h = cc
  length-remove_first cid (x ∷ xs) c h = ground (arith, length-remove_first cid xs c)

  pub chroot_count-remove_first :
      (cid : ℕ) (cs : List (Command F)) (c : Command F)
      → find cid cs ≡ some c
      → chroot_count (remove_first cid cs) + (if requires_chroot c then 1 else 0) ≡ chroot_count cs
  unfolding find remove_first
  chroot_count-remove_first cid [] c h = cc
  chroot_count-remove_first cid (x ∷ xs) c h = ground (arith, chroot_count-remove_first cid xs c)

  pub record Popped (cs : List (Command F)) (d : Dict (ℕ × Command F)) : Type 0 where
    pub left : Dict (ℕ × Command F)
    pub popped : pop_each cs d ≡ some left
    pub kept : (k : ℕ) → lookup k left ≡ (if is_some (find k cs) then none else lookup k d)

  pub pop_each_total :
      (cs : List (Command F)) (d : Dict (ℕ × Command F))
      → NodupIds cs
      → ((k : ℕ) → is_some (find k cs) ≡ true → contains k d ≡ true)
      → Popped cs d
  unfolding find pop_each
  pop_each_total [] d u h = record { left = d; popped = refl; kept = λ k. refl }
  pop_each_total (x ∷ xs) d u h =
      let rest : Popped xs (erase x.command_id d) =
        pop_each_total xs (erase x.command_id d) u.1
          (λ k m. ground (arith, h k, lookup-erase k x.command_id d)) in
      record {
        left = rest.left;
        popped = ground (arith, h x.command_id, rest.popped, ==_self x.command_id);
        kept = λ k. ground (arith, rest.kept k, lookup-erase k x.command_id d);
      }
