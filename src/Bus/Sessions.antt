-- ===== src/Bus/Sessions.antt =====
-- What the bus keeps of its sessions.
use rmake.Base.{
  ℕ, ◌+◌, ◌≡◌, refl, sym, ap, ◌∙◌, append-nil, append_assoc, true, false, not, List, [], ◌∷◌, ◌++◌,
  ◌==◌, arith, filter, some, none, Option, Bool-cases, Option-cases, inl, inr, ==_self,
  if◌then◌else◌,
}
use rmake.Base.Dict.{Dict, lookup, lookup-insert}
use rmake.Bus.{
  Texts, Pattern, Message, subscribe_request, Out, node_status, Bus, NodeState, id_of, subscribed,
  is_addressed, iter_subscribers, drop_handle, delete_each, delete_subscriber, send_each,
  status_message, tell_nodes, close_session, new_session, received_message, add_subscriber, is_lost,
  get_session,
}

drop_handle-filter :
    (h : ℕ) (l : List (ℕ × Pattern)) → drop_handle h l ≡ filter (λ e. not (e.0 == h)) l
unfolding drop_handle
drop_handle-filter h [] = refl
drop_handle-filter h ((g, p) ∷ l) = ground (arith, drop_handle-filter h l)

lookup-delete_each :
    (h k : ℕ) (d : Dict (List (ℕ × Pattern)))
    → lookup k (delete_each h d) ≡ elim (lookup k d) as (λ _. Option (List (ℕ × Pattern))) [
      | none ↦ none
      | some l ↦ some (drop_handle h l)
    ]
unfolding delete_each lookup
lookup-delete_each h k [] = refl
lookup-delete_each h k ((j, l) ∷ d) = ground (arith, lookup-delete_each h k d)

-- The subscribers in a list whose session id is not `except`, each with what it is sent.
abbrev pub told : (except : ℕ) → Out → Dict ℕ → List (ℕ × Pattern) → List (ℕ × Out)
told except o ids [] = []
told except o ids ((h, _) ∷ l) =
    let rest = told except o ids l in
    if elim (lookup h ids) [ none ↦ 0 | some i ↦ i ] == except then rest else (h, o) ∷ rest

-- Sending changes what is sent only.
pub record SameTables (s t : Bus) : Type 0 where
  pub sessions : t.sessions ≡ s.sessions
  pub ids : t.ids ≡ s.ids
  pub pending : t.pending ≡ s.pending
  pub subscribers : t.subscribers ≡ s.subscribers

pub send_each-keeps :
    (e : ℕ) (o : Out) (l : List (ℕ × Pattern)) (s : Bus)
    → SameTables s (send_each e o l s) × ((send_each e o l s).sent ≡ s.sent ++ told e o s.ids l)
unfolding send_each
send_each-keeps e o [] s = (
  record { sessions = refl; ids = refl; pending = refl; subscribers = refl },
  sym (append-nil s.sent),
)
send_each-keeps e o ((h, p) ∷ l) s = elim (Bool-cases (id_of h s == e)) [
  | inl q ↦
      let r = send_each-keeps e o l s in
      (
        record {
          sessions = ground (arith, q, r.0.sessions);
          ids = ground (arith, q, r.0.ids);
          pending = ground (arith, q, r.0.pending);
          subscribers = ground (arith, q, r.0.subscribers);
        },
        ground (arith, q, r.1),
      )
  | inr q ↦
      let r = send_each-keeps e o l (record s { sent = s.sent ++ (h, o) ∷ [] }) in
      (
        record {
          sessions = ground (arith, q, r.0.sessions);
          ids = ground (arith, q, r.0.ids);
          pending = ground (arith, q, r.0.pending);
          subscribers = ground (arith, q, r.0.subscribers);
        },
        ground (arith, q, r.1, append_assoc s.sent ((h, o) ∷ []) (told e o s.ids l)),
      )
]

-- Whom a message reaches is a matter of the ids and the subscriptions.
iter_subscribers-same :
    (m : Message) (s t : Bus)
    → t.ids ≡ s.ids
    → t.subscribers ≡ s.subscribers
    → iter_subscribers m t ≡ iter_subscribers m s
unfolding iter_subscribers is_addressed
iter_subscribers-same m s t e f = rw (e, f) refl

module _ (x : Texts) where
  -- What the subscribers of the nodes are told of a session, where their ids and subscriptions are
  -- those of `s`.
  abbrev pub notices : (bus_id count session_id : ℕ) → NodeState → Bus → List (ℕ × Out)
  notices bus_id count i state s =
      told bus_id (node_status i state) s.ids
        (iter_subscribers (status_message x bus_id count i state) s)

  pub notices-same :
      (bus_id count i : ℕ) (state : NodeState) (s t : Bus)
      → t.ids ≡ s.ids
      → t.subscribers ≡ s.subscribers
      → notices bus_id count i state t ≡ notices bus_id count i state s
  notices-same bus_id count i state s t e f =
      let m = status_message x bus_id count i state in
      ap (λ ids. told bus_id (node_status i state) ids (iter_subscribers m t)) e
      ∙ ap (told bus_id (node_status i state) s.ids) (iter_subscribers-same m s t e f)

  pub tell_nodes-keeps :
      (bus_id i : ℕ) (state : NodeState) (s : Bus)
      → SameTables s (tell_nodes x bus_id i state s)
        × ((tell_nodes x bus_id i state s).sent
            ≡ s.sent ++ notices bus_id s.message_count i state s)
  unfolding tell_nodes
  tell_nodes-keeps bus_id i state s =
      let t = record s { message_count = s.message_count + 1 } in
      let m = status_message x bus_id s.message_count i state in
      let r = send_each-keeps bus_id (node_status i state) (iter_subscribers m t) t in
      (
        record {
          sessions = r.0.sessions;
          ids = r.0.ids;
          pending = r.0.pending;
          subscribers = r.0.subscribers;
        },
        r.1
            ∙ ap (λ l. s.sent ++ told bus_id (node_status i state) s.ids l)
                (iter_subscribers-same m s t refl refl),
      )

  -- What closing a session leaves.
  pub record Closed (bus_id h : ℕ) (s t : Bus) : Type 0 where
    pub subscriptions :
        (channel : ℕ) → subscribed channel t ≡ filter (λ e. not (e.0 == h)) (subscribed channel s)
    pub sessions :
        (i : ℕ) → get_session x i t ≡ (if i == id_of h s then none else get_session x i s)
    pub lost : (id_of h s == 0) ≡ false → is_lost x (id_of h s) t ≡ true
    pub sent :
        t.sent ≡ s.sent ++ notices bus_id s.message_count (id_of h s) NodeState.disconnected s

  -- After a session is closed just its own subscriptions are gone from every channel, its id names
  -- no session and any other id the session that it named before, and a session that asks for that
  -- id, where the id is not empty, counts as one that comes back. The subscribers of the nodes whose
  -- patterns the status message has, but for any with the id of the bus itself, are told that it is
  -- disconnected, once for each subscription, in their order, and nothing else is sent.
  pub close_session-Closed :
      (bus_id h : ℕ) (s : Bus) → Closed bus_id h s (close_session x bus_id h s)
  unfolding close_session delete_subscriber
  close_session-Closed bus_id h s =
      let t = tell_nodes x bus_id (id_of h s) NodeState.disconnected s in
      let r = tell_nodes-keeps bus_id (id_of h s) NodeState.disconnected s in
      let i = id_of h s in
      record {
        subscriptions = λ channel. elim (Option-cases (lookup channel t.subscribers)) [
          | inl e ↦ ground (arith, e, lookup-delete_each h channel t.subscribers, r.0.subscribers)
          | inr (l, e) ↦ ground (
            arith,
            e,
            lookup-delete_each h channel t.subscribers,
            drop_handle-filter h l,
            r.0.subscribers,
          )
        ];
        sessions = λ k. ground (arith, lookup-insert k i none t.sessions, r.0.sessions);
        lost = λ n. ground (arith, n, lookup-insert i i none t.sessions, ==_self i);
        sent = r.1;
      }

-- A new connection counts as registered at once, where the id of an unregistered session is not
-- empty: its subscription is accepted although it has sent no connection request.
pub new_session-subscribes :
    (x : Texts) (bus_id h host port : ℕ) (m : Message) (s : Bus)
    → (x.unregistered_id host port == 0) ≡ false
    → m.kind ≡ subscribe_request
    → received_message x bus_id h m (new_session x h host port s)
      ≡ some (add_subscriber x m.destination h (new_session x h host port s))
unfolding received_message new_session
new_session-subscribes x bus_id h host port m s u k =
    rw k (ground (arith, u, lookup-insert h h (x.unregistered_id host port) s.ids, ==_self h))
