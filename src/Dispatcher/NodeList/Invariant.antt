-- ===== src/Dispatcher/NodeList/Invariant.antt =====
-- When the seven tables of NodeList agree.
use rmake.Base.{ℕ, ◌≡◌, refl, true, Option, none, some, List, [], ◌∷◌, ==_self, length, arith}
use rmake.Base.Dict.{Dict, lookup, contains, NodupKeys}
use rmake.Dispatcher.Types.{WorkerNode, Command}
use rmake.Dispatcher.NodeList.{NodeList, new, or_empty, find, log_usage}
use rmake.Dispatcher.NodeList.Holding.{chroot_count, NodupIds}

abbrev pub map_opt {ℓ κ} : {A : Type ℓ} {B : Type κ} → (A → B) → Option A → Option B
map_opt f none = none
map_opt f (some a) = some (f a)

module _ {F : Type 0} where
  abbrev pub assigned_of : NodeList F → ℕ → List (Command F)
  assigned_of s sid = or_empty (lookup sid s.assigned_commands)

  -- The slot counter of a node is the number of its commands, the chroot counter the number of
  -- those that need a chroot, every node has its tables, and `_commands` names exactly the commands
  -- that a node holds, each held once.
  pub record IsValid (s : NodeList F) : Type 0 where
    pub slots :
        (sid : ℕ) → lookup sid s.used_slots ≡ map_opt length (lookup sid s.assigned_commands)
    pub chroots :
        (sid : ℕ)
        → lookup sid s.used_chroots ≡ map_opt chroot_count (lookup sid s.assigned_commands)
    pub known : (sid : ℕ) → contains sid s.nodes ≡ contains sid s.assigned_commands
    pub table : NodupKeys s.nodes
    pub named : (sid : ℕ) (n : WorkerNode F) → lookup sid s.nodes ≡ some n → n.session_id ≡ sid
    pub distinct : (sid : ℕ) → NodupIds (assigned_of s sid)
    pub owned :
        (cid sid : ℕ) (c : Command F)
        → lookup cid s.commands ≡ some (sid, c)
        → find cid (assigned_of s sid) ≡ some c
    pub held :
        (cid sid : ℕ) (c : Command F)
        → find cid (assigned_of s sid) ≡ some c
        → lookup cid s.commands ≡ some (sid, c)

  pub new-IsValid : IsValid new
  unfolding find lookup
  new-IsValid = record {
    slots = λ sid. refl;
    chroots = λ sid. refl;
    known = λ sid. refl;
    table = tt;
    named = λ sid n h. cc;
    distinct = λ sid. tt;
    owned = λ cid sid c h. cc;
    held = λ cid sid c h. cc;
  }

  log_usage-eq_some :
      (d : Dict (WorkerNode F)) (s : NodeList F)
      → ((sid : ℕ)
          → contains sid d ≡ true
          → (contains sid s.used_slots ≡ true) × (contains sid s.used_chroots ≡ true))
      → log_usage d s ≡ some tt
  unfolding log_usage lookup
  log_usage-eq_some [] s h = refl
  log_usage-eq_some ((sid, n) ∷ d) s h =
      let rest = log_usage-eq_some d s (λ k m. h k (ground (arith, m))) in
      ground (arith, h sid, ==_self sid, rest)

  pub log_usage_total : (s : NodeList F) → IsValid s → log_usage s.nodes s ≡ some tt
  log_usage_total s v =
      log_usage-eq_some s.nodes s (λ sid m. ground (arith, v.slots sid, v.chroots sid, v.known sid))
