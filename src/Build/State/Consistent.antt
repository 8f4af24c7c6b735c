-- ===== src/Build/State/Consistent.antt =====
-- The two views of the state of a trove, the sets and the table, agree: so they do from the
-- start, and every change of state keeps them so.
use rmake.Base.{
  ℕ, ◌≡◌, refl, inl, inr, Bool, true, false, Option, none, some, List, [], ◌∷◌, ◌++◌, elem, discard,
  elem-adjoin, elem-discard, ◌==◌, ◌||◌, Option-cases, arith, if◌then◌else◌,
}
use rmake.Base.Dict.{lookup, contains, lookup-insert, lookup-nil}
use rmake.Build.Trove.{TroveState, BuildTrove, is_state}
use rmake.Build.State.{
  BuildState, put, add_one, add_each, add_troves, new_state, move_to, set_state, keys_of,
}

-- The test whether the table gives a state.
abbrev pub is_at : TroveState → Option TroveState → Bool
is_at st none = false
is_at st (some x) = is_state st x

pub record Agree (s : BuildState) : Type 0 where
  pub sets :
      (k : ℕ) (st : TroveState) → elem k (s.states st) ≡ is_at st (lookup k s.states_by_trove)
  pub known : (k : ℕ) → contains k s.states_by_trove ≡ contains k s.troves_by_nvf

-- What `troves` lists is what the table knows.
pub record IsConsistent (s : BuildState) : Type 0 where
  pub agree : Agree s
  pub listed : (k : ℕ) → elem k (keys_of s.troves) ≡ contains k s.states_by_trove

is_state-eq : (a b c : TroveState) → is_state a b ≡ true → is_state a c ≡ is_state b c
is_state-eq a b c h = ground arith

move_to-Agree :
    (key : ℕ) (old new : TroveState) (s : BuildState)
    → Agree s
    → lookup key s.states_by_trove ≡ some old
    → Agree (move_to key old new s)
unfolding move_to
move_to-Agree key old new s v h = record {
  sets = λ k st. ground (
    arith,
    v.sets k st,
    v.sets k old,
    v.sets k new,
    is_state-eq st old,
    is_state-eq st new,
    lookup-insert k key new s.states_by_trove,
    elem-discard k key (s.states old),
    elem-adjoin k key (put old (discard key (s.states old)) s.states new),
  );
  known = λ k. ground (arith, v.known k, lookup-insert k key new s.states_by_trove);
}

-- A change of the state of a trove that the build knows is carried out, it keeps the two views in
-- agreement, and the table then gives the trove the new state and every other trove its old one.
pub set_state_total :
    (key : ℕ) (new : TroveState) (s : BuildState)
    → IsConsistent s
    → contains key s.states_by_trove ≡ true
    → (t : BuildState) × (set_state key new s ≡ some t)
      × IsConsistent t
      × ((k : ℕ)
          → lookup k t.states_by_trove
            ≡ (if k == key then some new else lookup k s.states_by_trove))
unfolding set_state
set_state_total key new s v h = elim (Option-cases (lookup key s.states_by_trove)) [
  | inl e ↦ absurd (ground (arith, e))
  | inr (old, e) ↦ (
    move_to key old new s,
    ground (arith, e),
    record {
      agree = move_to-Agree key old new s v.agree e;
      listed = λ k.
          unfold move_to in
          ground (arith, v.listed k, h, lookup-insert k key new s.states_by_trove);
    },
    λ k. unfold move_to in lookup-insert k key new s.states_by_trove,
  )
]

-- A trove is added once: a second trove of its key could be in another state.
abbrev pub IsNewTo : List BuildTrove → BuildState → Type 0
IsNewTo [] s = Unit
IsNewTo (t ∷ ts) s =
    (contains t.key s.states_by_trove ≡ false) × (elem t.key (keys_of ts) ≡ false) × IsNewTo ts s

add_one-Agree :
    (t : BuildTrove) (s : BuildState)
    → Agree s
    → contains t.key s.states_by_trove ≡ false
    → Agree (add_one t s)
unfolding add_one
add_one-Agree t s v h = record {
  sets = λ k st. ground (
    arith,
    v.sets k st,
    v.sets k t.state,
    lookup-insert k t.key t.state s.states_by_trove,
    elem-adjoin k t.key (s.states t.state),
    is_state-eq st t.state,
  );
  known = λ k. ground (
    arith,
    v.known k,
    lookup-insert k t.key t.state s.states_by_trove,
    lookup-insert k t.key t s.troves_by_nvf,
  );
}

add_one-IsNewTo :
    (t : BuildTrove) (ts : List BuildTrove) (s : BuildState)
    → elem t.key (keys_of ts) ≡ false
    → IsNewTo ts s
    → IsNewTo ts (add_one t s)
unfolding add_one
add_one-IsNewTo t [] s d h = tt
add_one-IsNewTo t (u ∷ us) s d h = (
  ground (arith, h.0, d, lookup-insert u.key t.key t.state s.states_by_trove),
  h.1,
  add_one-IsNewTo t us s (ground (arith, d)) h.2,
)

record Added (ts : List BuildTrove) (s : BuildState) : Type 0 where
  agree : Agree (add_each ts s)
  now_known :
      (k : ℕ)
      → contains k (add_each ts s).states_by_trove
        ≡ (elem k (keys_of ts) || contains k s.states_by_trove)
  same_troves : (add_each ts s).troves ≡ s.troves

add_each_total : (ts : List BuildTrove) (s : BuildState) → Agree s → IsNewTo ts s → Added ts s
unfolding add_each add_one
add_each_total [] s v h = record { agree = v; now_known = λ k. refl; same_troves = refl }
add_each_total (t ∷ ts) s v h =
    let a =
      add_each_total ts (add_one t s) (add_one-Agree t s v h.0) (add_one-IsNewTo t ts s h.1 h.2) in
    record {
      agree = a.agree;
      now_known = λ k.
          unfold add_one in
          ground (arith, a.now_known k, lookup-insert k t.key t.state s.states_by_trove);
      same_troves = a.same_troves;
    }

elem-keys_of :
    (k : ℕ) (xs ys : List BuildTrove)
    → elem k (keys_of (xs ++ ys)) ≡ (elem k (keys_of xs) || elem k (keys_of ys))
elem-keys_of k [] ys = refl
elem-keys_of k (x ∷ xs) ys = ground (arith, elem-keys_of k xs ys)

moved-IsNewTo :
    (ts us : List BuildTrove) (s : BuildState)
    → IsNewTo ts s
    → IsNewTo ts (record s { troves = us })
moved-IsNewTo [] us s h = tt
moved-IsNewTo (t ∷ ts) us s h = (h.0, h.1, moved-IsNewTo ts us s h.2)

-- Troves that the build does not know yet, each of its own key, are added with their states: the
-- two views still agree, and the troves are listed after those that were there.
pub add_troves-IsConsistent :
    (ts : List BuildTrove) (s : BuildState)
    → IsConsistent s
    → IsNewTo ts s
    → IsConsistent (add_troves ts s) × ((add_troves ts s).troves ≡ s.troves ++ ts)
unfolding add_troves
add_troves-IsConsistent ts s v h =
    let a =
      add_each_total ts (record s { troves = s.troves ++ ts })
        (record { sets = v.agree.sets; known = v.agree.known }) (moved-IsNewTo ts _ s h) in
    (
      record {
        agree = a.agree;
        listed = λ k.
            ground (arith, a.now_known k, a.same_troves, v.listed k, elem-keys_of k s.troves ts);
      },
      a.same_troves,
    )

-- A build that starts with troves of different keys has two views that agree, and lists them.
pub new_state-IsConsistent :
    (ts : List BuildTrove)
    → IsNewTo ts (new_state [])
    → IsConsistent (new_state ts) × ((new_state ts).troves ≡ ts)
unfolding new_state add_troves add_each
new_state-IsConsistent ts h =
    add_troves-IsConsistent ts (new_state [])
      (record {
        agree = record {
          sets = λ k st. ground (arith, lookup-nil {V = TroveState} k);
          known = λ k. ground (arith, lookup-nil {V = TroveState} k, lookup-nil {V = BuildTrove} k);
        };
        listed = λ k. ground (arith, lookup-nil {V = TroveState} k);
      })
      h
