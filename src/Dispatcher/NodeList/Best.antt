-- ===== src/Dispatcher/NodeList/Best.antt =====
-- Open nodes and their keys: `getOpenNodes` and the keys of `rankNodes` never raise, and find
-- exactly the open nodes.
use rmake.Base.{
  ℕ, ◌/◌, ◌≤◌, ◌<◌, ◌≡◌, refl, Bool, true, false, not, ◌&&◌, some, List, [], ◌∷◌, leb, ◌==◌,
  Bool-cases, Option-cases, inl, inr, elem, arith, length, sym, subst,
}
use rmake.Base.Dict.{Dict, lookup, contains, Entries}
use rmake.Base.Pred.{All, In}
use rmake.Dispatcher.Types.{WorkerNode}
use rmake.Dispatcher.NodeList.{NodeList}
use rmake.Dispatcher.NodeList.Choice.{Key, Ranked, get_key, with_keys, open_test, open_among}
use rmake.Dispatcher.NodeList.Holding.{chroot_count}
use rmake.Dispatcher.NodeList.Invariant.{IsValid}
use rmake.Dispatcher.NodeList.Ranking.{IsPositive}

module _ {F : Type 0} where
  -- The node may take one more command: it is in the table and not suspended, a slot is free, a
  -- chroot too if one is needed, and its load is not above its threshold.
  pub record IsOpen (s : NodeList F) (chroot : Bool) (node : WorkerNode F) : Type 0 where
    pub slots : ℕ
    pub chroots : ℕ
    pub in_table : lookup node.session_id s.nodes ≡ some node
    pub active : elem node.session_id s.suspended ≡ false
    pub slots_used : lookup node.session_id s.used_slots ≡ some slots
    pub chroots_used : lookup node.session_id s.used_chroots ≡ some chroots
    pub slot_free : slots < node.slots
    pub chroot_free : chroot ≡ true → chroots < node.chroot_limit
    pub load_ok : node.node_info.load_average ≤ node.load_threshold

  pub record Tested (s : NodeList F) (chroot : Bool) (node : WorkerNode F) : Type 0 where
    pub open_now : Bool
    pub returned : open_test s chroot node.session_id node ≡ some open_now
    pub sound : open_now ≡ true → IsOpen s chroot node
    pub complete : IsOpen s chroot node → open_now ≡ true

  module _ (s : NodeList F) (v : IsValid s) (chroot : Bool) where
    counters :
        (sid : ℕ)
        → contains sid s.nodes ≡ true
        → (n : ℕ) × (m : ℕ) × (lookup sid s.used_slots ≡ some n)
          × (lookup sid s.used_chroots ≡ some m)
    counters sid h = elim (Option-cases (lookup sid s.assigned_commands)) [
      | inl e ↦ absurd (ground (arith, v.known sid))
      | inr (cs, e) ↦
          (length cs, chroot_count cs, ground (arith, v.slots sid), ground (arith, v.chroots sid))
    ]

    open_test_total :
        (node : WorkerNode F) → lookup node.session_id s.nodes ≡ some node → Tested s chroot node
    unfolding open_test
    open_test_total node h =
        let (n, m, hn, hm) = counters node.session_id (ground (arith, h)) in
        record {
          open_now =
              not (elem node.session_id s.suspended)
              && not (leb node.slots n)
              && not (chroot && leb node.chroot_limit m)
              && leb node.node_info.load_average node.load_threshold;
          returned = ground (arith, hn, hm);
          sound = λ e. record {
            slots = n;
            chroots = m;
            in_table = h;
            active = ground arith;
            slots_used = hn;
            chroots_used = hm;
            slot_free = ground arith;
            chroot_free = λ q. ground arith;
            load_ok = ground arith;
          };
          complete = λ o. ground (arith, o.chroot_free, hn, hm);
        }

    pub record OpenList (d : Dict (WorkerNode F)) : Type 0 where
      pub found : List (WorkerNode F)
      pub returned : open_among s chroot d ≡ some found
      pub all_open : All (IsOpen s chroot) found
      pub every : (k : ℕ) (m : WorkerNode F) → lookup k d ≡ some m → IsOpen s chroot m → In m found

    pub open_among_total : (d : Dict (WorkerNode F)) → Entries s.nodes d → OpenList d
    unfolding open_among lookup
    open_among_total [] e = record {
      found = [];
      returned = refl;
      all_open = tt;
      every = λ k m h o. cc;
    }
    open_among_total ((k, node) ∷ d) e =
        let rest = open_among_total d e.1 in
        let same = v.named k node e.0 in
        let t = open_test_total node (ground (arith, same, e.0)) in
        elim (Bool-cases t.open_now) [
          | inl p ↦ record {
            found = node ∷ rest.found;
            returned = ground (arith, same, t.returned, rest.returned, p);
            all_open = (t.sound p, rest.all_open);
            every = λ j m h o. elim (Bool-cases (j == k)) [
              | inl q ↦ inl (ground (arith, q, h))
              | inr q ↦ inr (rest.every j m (ground (arith, q, h)) o)
            ];
          }
          | inr p ↦ record {
            found = rest.found;
            returned = ground (arith, same, t.returned, rest.returned, p);
            all_open = rest.all_open;
            every = λ j m h o. elim (Bool-cases (j == k)) [
              | inl q ↦
                  let e : node ≡ m = ground (arith, q, h) in
                  absurd (ground (arith, p, t.complete (subst (IsOpen s chroot) (sym e) o)))
              | inr q ↦ rest.every j m (ground (arith, q, h)) o
            ];
          }
        ]

    get_key_total :
        (node : WorkerNode F)
        → IsOpen s chroot node
        → (k : Key) × (get_key s node ≡ some k) × IsPositive k
    unfolding get_key
    get_key_total node o = elim (Bool-cases (o.slots == 0)) [
      | inl e ↦ (
        record { used = 0; slots = 1; load = node.node_info.load_average / 100 },
        ground (arith, o.slots_used, e),
        omega arith,
      )
      | inr e ↦ (
        record { used = o.slots; slots = node.slots; load = node.node_info.load_average / 100 },
        ground (arith, o.slots_used, o.slot_free, e),
        omega (arith, o.slot_free),
      )
    ]

    pub record Keyed (P : WorkerNode F → Type 0) (l : List (WorkerNode F)) : Type 0 where
      pub keyed : List (Ranked F)
      pub returned : with_keys s l ≡ some keyed
      pub sound : All (λ x. P x.1 × (get_key s x.1 ≡ some x.0)) keyed
      pub positive : All (λ x. IsPositive x.0) keyed
      pub every : (n : WorkerNode F) (k : Key) → In n l → get_key s n ≡ some k → In (k, n) keyed

    pub with_keys_total :
        (P : WorkerNode F → Type 0) (l : List (WorkerNode F))
        → All (IsOpen s chroot) l
        → All P l
        → Keyed P l
    unfolding with_keys
    with_keys_total P [] o a = record {
      keyed = [];
      returned = refl;
      sound = tt;
      positive = tt;
      every = λ n k m e. m;
    }
    with_keys_total P (n ∷ l) o a =
        let (k, returned, positive) = get_key_total n o.0 in
        let rest = with_keys_total P l o.1 a.1 in
        record {
          keyed = (k, n) ∷ rest.keyed;
          returned = ground (arith, returned, rest.returned);
          sound = ((a.0, returned), rest.sound);
          positive = (positive, rest.positive);
          every = λ m j i e. elim i [
            | inl q ↦ inl (ground (arith, q, e, returned))
            | inr q ↦ inr (rest.every m j q e)
          ];
        }
