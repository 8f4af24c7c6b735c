-- ===== src/Deps/State/Merging.antt =====
-- What `troveDuplicate` leaves of the edges of a duplicate.
use rmake.Base.{
  ℕ, ◌≡◌, refl, sym, subst, ◌∙◌, inl, inr, true, false, not, ◌&&◌, ◌||◌, [], ◌∷◌, ◌==◌, Bool-cases,
  arith,
}
use rmake.Build.Trove.{is_built}
use rmake.Deps.Graphs.{Reason, Edges, Graphs, GraphLaws, has, needs}
use rmake.Deps.State.{DepState, depends_on, disallow}
use rmake.Deps.State.Sources.{link_children, link_parents, link_duplicate, duplicate_one}

module _ (m : Graphs) (laws : GraphLaws m) where
  -- Some edge leads from `r` to `p`.
  abbrev pub Requires : m.Graph → ℕ → ℕ → Type 0
  Requires g r p = (q : Reason) × (needs m g r q p ≡ true)

  needs-depends_on :
      (a b r p : ℕ) (w q : Reason) (s : DepState m.Graph)
      → (r == a && p == b) ≡ false
      → needs m (depends_on m a b w s).dep_graph r q p ≡ needs m s.dep_graph r q p
  unfolding depends_on
  needs-depends_on a b r p w q s h = elim (Bool-cases (s.dumb_mode || a == b)) [
    | inl e ↦ rw e refl
    | inr e ↦ rw e (laws.other_edges s.dep_graph a b r p q w h)
  ]

  depends_on_keeps :
      (a b r p : ℕ) (w : Reason) (s : DepState m.Graph)
      → Requires s.dep_graph r p
      → Requires (depends_on m a b w s).dep_graph r p
  unfolding depends_on
  depends_on_keeps a b r p w s (q, n) = elim (Bool-cases (s.dumb_mode || a == b)) [
    | inl e ↦ rw e (q, n)
    | inr e ↦ rw e (elim (Bool-cases (r == a && p == b)) [
      | inl same ↦
          let x : r ≡ a = ground (arith, same) in
          let y : p ≡ b = ground (arith, same) in rw (x, y) (w, laws.added s.dep_graph a b w)
      | inr other ↦ (q, laws.other_edges s.dep_graph a b r p q w other ∙ n)
    ])
  ]

  needs-link_children :
      (a b r p : ℕ) (q : Reason) (es : Edges) (s : DepState m.Graph)
      → (r == a && p == b) ≡ false
      → needs m (link_children m a b es s).dep_graph r q p ≡ needs m s.dep_graph r q p
  unfolding link_children
  needs-link_children a b r p q [] s h = refl
  needs-link_children a b r p q ((k, w) ∷ es) s h =
      needs-link_children a b r p q es _ h ∙ needs-depends_on a b r p w q s h

  needs-link_parents :
      (b r p : ℕ) (q : Reason) (es : Edges) (s : DepState m.Graph)
      → (p == b) ≡ false
      → needs m (link_parents m b es s).dep_graph r q p ≡ needs m s.dep_graph r q p
  unfolding link_parents
  needs-link_parents b r p q [] s h = refl
  needs-link_parents b r p q ((k, w) ∷ es) s h =
      needs-link_parents b r p q es _ h ∙ needs-depends_on k b r p w q s (ground (arith, h))

  link_parents_keeps :
      (b r p : ℕ) (es : Edges) (s : DepState m.Graph)
      → Requires s.dep_graph r p
      → Requires (link_parents m b es s).dep_graph r p
  unfolding link_parents
  link_parents_keeps b r p [] s n = n
  link_parents_keeps b r p ((k, w) ∷ es) s n =
      link_parents_keeps b r p es _ (depends_on_keeps k b r p w s n)

  dumb_stays :
      (a b : ℕ) (w : Reason) (s : DepState m.Graph) → (depends_on m a b w s).dumb_mode ≡ s.dumb_mode
  unfolding depends_on
  dumb_stays a b w s = ground arith

  depends_on_links :
      (a b : ℕ) (w : Reason) (s : DepState m.Graph)
      → s.dumb_mode ≡ false
      → (a == b) ≡ false
      → Requires (depends_on m a b w s).dep_graph a b
  unfolding depends_on
  depends_on_links a b w s d e = rw (d, e) (w, laws.added s.dep_graph a b w)

  link_parents_links :
      (b r : ℕ) (q : Reason) (es : Edges) (s : DepState m.Graph)
      → s.dumb_mode ≡ false
      → (r == b) ≡ false
      → has r q es ≡ true
      → Requires (link_parents m b es s).dep_graph r b
  unfolding link_parents
  link_parents_links b r q [] s d e h = absurd (ground (arith, h))
  link_parents_links b r q ((k, w) ∷ es) s d e h = elim (Bool-cases (has r q es)) [
    | inl later ↦ link_parents_links b r q es _ (dumb_stays k b w s ∙ d) e later
    | inr now ↦
        let same : r ≡ k = ground (arith, h, now) in
        link_parents_keeps b r b es _ (
          subst (λ x. Requires (depends_on m k b w s).dep_graph x b) (sym same)
            (depends_on_links k b w s d (ground (arith, e, same))))
  ]

  children_stay :
      (a b : ℕ) (es : Edges) (s : DepState m.Graph)
      → (link_children m a b es s).dumb_mode ≡ s.dumb_mode
  unfolding link_children
  children_stay a b [] s = refl
  children_stay a b ((k, w) ∷ es) s = children_stay a b es _ ∙ dumb_stays a b w s

  pub record Merged (dup matched : ℕ) (s : DepState m.Graph) : Type 0 where
    pub not_moved :
        (q : Reason) (p : ℕ)
        → (p == matched) ≡ false
        → needs m (duplicate_one m dup matched s).dep_graph matched q p
          ≡ (not (p == dup) && needs m s.dep_graph matched q p)
    pub moved :
        (r : ℕ) (q : Reason)
        → (r == matched) ≡ false
        → (r == dup) ≡ false
        → needs m s.dep_graph r q dup ≡ true
        → Requires (duplicate_one m dup matched s).dep_graph r matched
    pub gone :
        (r : ℕ) (q : Reason) (p : ℕ)
        → (r == dup || p == dup) ≡ true
        → needs m (duplicate_one m dup matched s).dep_graph r q p ≡ false

  -- In a build that orders its troves, a duplicate is merged into a matching trove that is not
  -- built yet. Every other trove that required the duplicate then requires the matching trove, and
  -- no edge leads from or to the duplicate. What the duplicate required is not taken over: the
  -- matching trove has the requirements on other troves that it had, except those on the duplicate.
  pub duplicate_one-eq :
      (dup matched : ℕ) (s : DepState m.Graph)
      → s.dumb_mode ≡ false
      → (matched == dup) ≡ false
      → is_built (s.objects matched) ≡ false
      → Merged dup matched s
  unfolding duplicate_one link_duplicate disallow
  duplicate_one-eq dup matched s d n b =
      let g = s.dep_graph in
      let t = link_children m matched dup (m.children dup g) s in
      let es = m.parents dup t.dep_graph in
      let u = link_parents m matched es t in
      record {
        not_moved = λ q p e. rw b (
            ground (
              arith,
              laws.delete_lem u.dep_graph dup matched p q,
              needs-link_parents matched matched p q es t e,
              needs-link_children matched dup matched p q (m.children dup g) s,
              n,
            ));
        moved = λ r q e f h.
            let (w, x) =
              link_parents_links matched r q es t
                (children_stay matched dup (m.children dup g) s ∙ d) e
                (ground (
                  arith,
                  laws.parents_lem t.dep_graph r dup q,
                  needs-link_children matched dup r dup q (m.children dup g) s,
                  h,
                  e,
                )) in
            rw b (w, ground (arith, laws.delete_lem u.dep_graph dup r matched w, x, n, f));
        gone = λ r q p h. rw b (ground (arith, laws.delete_lem u.dep_graph dup r p q, h));
      }
