-- ===== src/Dispatcher/NodeList/Growth.antt =====
-- An assignment only raises the counters, so that no node becomes open by it.
use rmake.Base.{ℕ, ◌≤◌, ◌≡◌, refl, Bool, some, ◌==◌, Bool-cases, inl, inr, arith, ◌∙◌}
use rmake.Base.Dict.{lookup}
use rmake.Dispatcher.Types.{WorkerNode, Command}
use rmake.Dispatcher.NodeList.{NodeList}
use rmake.Dispatcher.NodeList.Update.{Assigned}
use rmake.Dispatcher.NodeList.Best.{IsOpen}

-- No counter went down, and the nodes are the same.
pub record Grown {F : Type 0} (s t : NodeList F) : Type 0 where
  pub same_nodes : t.nodes ≡ s.nodes
  pub same_suspended : t.suspended ≡ s.suspended
  pub more_slots :
      (sid w : ℕ)
      → lookup sid t.used_slots ≡ some w
      → (u : ℕ) × (lookup sid s.used_slots ≡ some u) × (u ≤ w)
  pub more_chroots :
      (sid w : ℕ)
      → lookup sid t.used_chroots ≡ some w
      → (u : ℕ) × (lookup sid s.used_chroots ≡ some u) × (u ≤ w)

pub Grown-refl : {F : Type 0} (s : NodeList F) → Grown s s
Grown-refl s = record {
  same_nodes = refl;
  same_suspended = refl;
  more_slots = λ sid w h. (w, h, omega arith);
  more_chroots = λ sid w h. (w, h, omega arith);
}

pub Grown-trans : {F : Type 0} (s t r : NodeList F) → Grown s t → Grown t r → Grown s r
Grown-trans s t r g h = record {
  same_nodes = h.same_nodes ∙ g.same_nodes;
  same_suspended = h.same_suspended ∙ g.same_suspended;
  more_slots = λ sid w e.
      let (u, eu, le) = h.more_slots sid w e in
      let (x, ex, le') = g.more_slots sid u eu in (x, ex, omega arith);
  more_chroots = λ sid w e.
      let (u, eu, le) = h.more_chroots sid w e in
      let (x, ex, le') = g.more_chroots sid u eu in (x, ex, omega arith);
}

-- What is open after was open before.
pub Grown-IsOpen :
    {F : Type 0} (s t : NodeList F) (chroot : Bool) (n : WorkerNode F)
    → Grown s t
    → IsOpen t chroot n
    → IsOpen s chroot n
Grown-IsOpen s t chroot n g o =
    let (u, eu, le) = g.more_slots n.session_id o.slots o.slots_used in
    let (x, ex, le') = g.more_chroots n.session_id o.chroots o.chroots_used in
    record {
      slots = u;
      chroots = x;
      in_table = ground (arith, g.same_nodes, o.in_table);
      active = ground (arith, g.same_suspended, o.active);
      slots_used = eu;
      chroots_used = ex;
      slot_free = omega (arith, o.slot_free);
      chroot_free = λ h. omega (arith, o.chroot_free h);
      load_ok = o.load_ok;
    }

pub Assigned-Grown :
    {F : Type 0} (command : Command F) (node : WorkerNode F) (s : NodeList F) (u x : ℕ)
    → lookup node.session_id s.used_slots ≡ some u
    → lookup node.session_id s.used_chroots ≡ some x
    → (a : Assigned command node s) → Grown s a.after
Assigned-Grown command node s u x eu ex a = record {
  same_nodes = a.same_nodes;
  same_suspended = a.same_suspended;
  more_slots = λ sid w h. elim (Bool-cases (sid == node.session_id)) [
    | inl e ↦ (u, ground (arith, e), ground (arith, a.slots sid, e))
    | inr e ↦ (w, ground (arith, a.slots sid, e), omega arith)
  ];
  more_chroots = λ sid w h. elim (Bool-cases (sid == node.session_id)) [
    | inl e ↦ (x, ground (arith, e), ground (arith, a.chroots sid, e))
    | inr e ↦ (w, ground (arith, a.chroots sid, e), omega arith)
  ];
}
