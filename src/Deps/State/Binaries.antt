-- ===== src/Deps/State/Binaries.antt =====
-- The table of the binaries that a build has made.
use rmake.Base.{
  ℕ, ◌≡◌, refl, inl, inr, Bool, true, false, not, ◌&&◌, Option, none, some, List, [], ◌∷◌, any,
  elem, ◌==◌, ==_self, Bool-cases, arith, if◌then◌else◌,
}
use rmake.Base.Dict.{
  Dict, lookup, insert, contains, lookup-insert, lookup-erase, lookup-nil, NodupKeys,
  insert-NodupKeys,
}
use rmake.Deps.Graphs.{Reason, Graphs, GraphLaws, needs}
use rmake.Deps.State.{DepState, new_entries, update_all, built_one, prepared_one, disallow}

-- The last of the binaries that has that name, branch and flavor.
abbrev pub newest : (ℕ → ℕ) → List ℕ → ℕ → Option ℕ
newest nbf [] k = none
newest nbf (b ∷ bs) k = elim (newest nbf bs k) [
  | some x ↦ some x
  | none ↦ if k == nbf b then some b else none
]

abbrev pub or_option : Option ℕ → Option ℕ → Option ℕ
or_option none o = o
or_option (some x) o = some x

-- A binary of that name, branch and flavor was made before.
abbrev pub made_before : (ℕ → ℕ) → Dict ℕ → List ℕ → Bool
made_before nbf old bs = any (λ b. contains (nbf b) old) bs

lookup-update_all :
    (k : ℕ) (d e : Dict ℕ)
    → NodupKeys e
    → lookup k (update_all d e) ≡ or_option (lookup k e) (lookup k d)
unfolding update_all lookup
lookup-update_all k d [] u = refl
lookup-update_all k d ((j, v) ∷ e) u =
    ground (arith, lookup-update_all k (insert j v d) e, lookup-insert k j v d, u)

record Collected (nbf : ℕ → ℕ) (old : Dict ℕ) (bs : List ℕ) (found : Dict ℕ) : Type 0 where
  entries : Dict ℕ
  ends : new_entries nbf old bs found ≡ some entries
  nodup : NodupKeys entries
  newest_lem : (k : ℕ) → lookup k entries ≡ or_option (newest nbf bs k) (lookup k found)

new_entries_total :
    (nbf : ℕ → ℕ) (old : Dict ℕ) (bs : List ℕ) (found : Dict ℕ)
    → NodupKeys found
    → made_before nbf old bs ≡ false
    → Collected nbf old bs found
unfolding new_entries
new_entries_total nbf old [] found u h = record {
  entries = found;
  ends = refl;
  nodup = u;
  newest_lem = λ k. refl;
}
new_entries_total nbf old (b ∷ bs) found u h =
    let e =
      new_entries_total nbf old bs (insert (nbf b) b found) (insert-NodupKeys (nbf b) b found u)
        (ground (arith, h)) in
    record {
      entries = e.entries;
      ends = ground (arith, h, e.ends);
      nodup = e.nodup;
      newest_lem = λ k. ground (arith, e.newest_lem k, lookup-insert k (nbf b) b found);
    }

new_entries_stops :
    (nbf : ℕ → ℕ) (old : Dict ℕ) (bs : List ℕ) (found : Dict ℕ)
    → made_before nbf old bs ≡ true
    → new_entries nbf old bs found ≡ none
unfolding new_entries
new_entries_stops nbf old [] found h = cc
new_entries_stops nbf old (b ∷ bs) found h =
    ground (arith, h, new_entries_stops nbf old bs (insert (nbf b) b found))

module _ (m : Graphs) (laws : GraphLaws m) (nbf : ℕ → ℕ) (trove : ℕ) (bs : List ℕ)
    (s : DepState m.Graph) where
  built_one-old :
      made_before nbf s.built_troves bs ≡ true
      → built_one m nbf trove bs s ≡ disallow m trove (prepared_one m trove s)
  unfolding built_one
  built_one-old h = rw (new_entries_stops nbf s.built_troves bs [] h, built_one) refl

  built_one-new :
      (e : Dict ℕ)
      → new_entries nbf s.built_troves bs [] ≡ some e
      → built_one m nbf trove bs s
        ≡ record (prepared_one m trove s) { built_troves = update_all s.built_troves e }
  unfolding built_one
  built_one-new e h = rw (h, built_one) refl

  pub record Recorded : Type 0 where
    pub ready :
        (k : ℕ)
        → lookup k (built_one m nbf trove bs s).build_req_troves
          ≡ (if k == trove then none else lookup k s.build_req_troves)
    pub graph :
        (r : ℕ) (q : Reason) (p : ℕ)
        → needs m (built_one m nbf trove bs s).dep_graph r q p
          ≡ (not (r == trove) && not (p == trove) && needs m s.dep_graph r q p)
    pub fresh :
        made_before nbf s.built_troves bs ≡ false
        → ((k : ℕ)
            → lookup k (built_one m nbf trove bs s).built_troves
              ≡ or_option (newest nbf bs k) (lookup k s.built_troves))
          × ((built_one m nbf trove bs s).disallowed ≡ s.disallowed)
    pub repeated :
        made_before nbf s.built_troves bs ≡ true
        → ((built_one m nbf trove bs s).built_troves ≡ s.built_troves)
          × (elem trove (built_one m nbf trove bs s).disallowed ≡ true)

  -- A trove that is built is no longer ready to be built, and its edges are gone from the
  -- requirement graph, which has all others. If a binary of the name, branch and flavor of one of
  -- its binaries was made before, the table of binaries stays and the trove is disallowed;
  -- otherwise the table gives the trove's last binary for each name, branch and flavor that the
  -- trove has one for, and what it gave for the others, and no trove is disallowed by it.
  pub built_one-eq : Recorded
  unfolding prepared_one disallow
  built_one-eq = elim (Bool-cases (made_before nbf s.built_troves bs)) [
    | inl old ↦
        let e = built_one-old old in
        record {
          ready = λ k. rw e (lookup-erase k trove s.build_req_troves);
          graph = λ r q p. rw e (laws.delete_lem s.dep_graph trove r p q);
          fresh = λ h. absurd (ground (arith, h, old));
          repeated = λ h. rw e (refl, ground (arith, ==_self trove));
        }
    | inr new ↦
        let x = new_entries_total nbf s.built_troves bs [] tt new in
        let e = built_one-new x.entries x.ends in
        record {
          ready = λ k. rw e (lookup-erase k trove s.build_req_troves);
          graph = λ r q p. rw e (laws.delete_lem s.dep_graph trove r p q);
          fresh = λ h. rw e (
            λ k. ground (
              arith,
              lookup-update_all k s.built_troves x.entries x.nodup,
              x.newest_lem k,
              lookup-nil {V = ℕ} k,
            ),
            refl,
          );
          repeated = λ h. absurd (ground (arith, h, new));
        }
  ]
