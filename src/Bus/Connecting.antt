-- ===== src/Bus/Connecting.antt =====
-- How a connection to the bus is completed.
use rmake.Base.{
  ℕ, ◌+◌, ◌≡◌, refl, sym, ap, ◌∙◌, append-nil, append_assoc, true, false, List, [], ◌∷◌, ◌++◌, ◌==◌,
  arith, some, none, if◌then◌else◌, Bool-cases, inl, inr, elem, discard, elem-discard, ==_self,
}
use rmake.Base.Dict.{lookup, insert, contains, set_default, lookup-insert, lookup-set_default}
use rmake.Bus.{
  Texts, Pattern, connected_response, Bus, NodeState, id_of, subscribed, add_subscriber,
  add_subscriptions, is_lost, get_session, register, admit, complete_connection,
}
use rmake.Bus.Sessions.{notices, notices-same, tell_nodes-keeps}

module _ (x : Texts) where
  -- The subscriptions to a channel that a list of texts asks for.
  abbrev pub asked : ℕ → ℕ → List ℕ → List (ℕ × Pattern)
  asked h channel [] = []
  asked h channel (text ∷ l) =
      let rest = asked h channel l in
      let (c, pattern) = x.split_channel text in if channel == c then (h, pattern) ∷ rest else rest

  -- Subscribing leaves all but the subscriptions.
  record Subscribed (h : ℕ) (l : List ℕ) (s t : Bus) : Type 0 where
    sessions : t.sessions ≡ s.sessions
    ids : t.ids ≡ s.ids
    pending : t.pending ≡ s.pending
    sent : t.sent ≡ s.sent
    message_count : t.message_count ≡ s.message_count
    channels : (c : ℕ) → subscribed c t ≡ subscribed c s ++ asked h c l

  add_subscriber-channels :
      (text h c : ℕ) (s : Bus)
      → subscribed c (add_subscriber x text h s) ≡ subscribed c s ++ asked h c (text ∷ [])
  unfolding add_subscriber
  add_subscriber-channels text h c s =
      let (channel, pattern) = x.split_channel text in
      ground (
        arith,
        append-nil (subscribed c s),
        lookup-insert c channel (subscribed channel s ++ (h, pattern) ∷ []) s.subscribers,
      )

  asked_first :
      (text h c : ℕ) (l : List ℕ) → asked h c (text ∷ []) ++ asked h c l ≡ asked h c (text ∷ l)
  asked_first text h c l = ground arith

  add_subscriptions-Subscribed :
      (l : List ℕ) (h : ℕ) (s : Bus) → Subscribed h l s (add_subscriptions x l h s)
  unfolding add_subscriptions add_subscriber
  add_subscriptions-Subscribed [] h s = record {
    sessions = refl;
    ids = refl;
    pending = refl;
    sent = refl;
    message_count = refl;
    channels = λ c. sym (append-nil (subscribed c s));
  }
  add_subscriptions-Subscribed (text ∷ l) h s =
      let r = add_subscriptions-Subscribed l h (add_subscriber x text h s) in
      record {
        sessions = r.sessions;
        ids = r.ids;
        pending = r.pending;
        sent = r.sent;
        message_count = r.message_count;
        channels = λ c.
            r.channels c
            ∙ (ap (λ k. k ++ asked h c l) (add_subscriber-channels text h c s)
                ∙ (append_assoc (subscribed c s) (asked h c (text ∷ [])) (asked h c l)
                    ∙ ap (λ k. subscribed c s ++ k) (asked_first text h c l)));
      }

  -- The session of a handle has the id, its id names it, it waits no longer, it has the
  -- subscriptions that it asked for behind those that there were, and it is answered last, after
  -- the subscribers of the nodes were told of it.
  pub record IsRegistered (bus_id h i : ℕ) (state : NodeState) (l : List ℕ) (s t : Bus)
      : Type 0 where
    pub has_id : id_of h t ≡ i
    pub is_named : get_session x i t ≡ some h
    pub waits_not : elem h t.pending ≡ false
    pub channels : (c : ℕ) → subscribed c t ≡ subscribed c s ++ asked h c l
    pub sent :
        t.sent
        ≡ s.sent ++ (notices x bus_id s.message_count i state t ++ (h, connected_response i) ∷ [])

  register-IsRegistered :
      (bus_id h i : ℕ) (state : NodeState) (l : List ℕ) (s : Bus)
      → IsRegistered bus_id h i state l s (register x bus_id h i state l s)
  unfolding register
  register-IsRegistered bus_id h i state l s =
      let t = record s {
        ids = insert h i s.ids;
        sessions = insert i (some h) s.sessions;
        pending = discard h s.pending;
      } in
      let a = add_subscriptions-Subscribed l h t in
      let u = add_subscriptions x l h t in
      let (b, said) = tell_nodes-keeps x bus_id i state u in
      let v = register x bus_id h i state l s in
      let note = notices x bus_id s.message_count i state in
      record {
        has_id = ground (arith, b.ids, a.ids, lookup-insert h h i s.ids, ==_self h);
        is_named =
            ground
              (arith, b.sessions, a.sessions, lookup-insert i i (some h) s.sessions, ==_self i);
        waits_not = ground (arith, b.pending, a.pending, elem-discard h h s.pending, ==_self h);
        channels = λ c. ground (arith, b.subscribers, a.channels c);
        sent =
            ap (λ k. k ++ (h, connected_response i) ∷ [])
              (said
                ∙ (ap (λ k. k ++ notices x bus_id u.message_count i state u) a.sent
                    ∙ ap (λ n. s.sent ++ notices x bus_id n i state u) a.message_count))
            ∙ (append_assoc s.sent (note u) ((h, connected_response i) ∷ [])
                ∙ ap (λ k. s.sent ++ (k ++ (h, connected_response i) ∷ []))
                    (sym (notices-same x bus_id s.message_count i state u v b.ids b.subscribers)));
      }

  -- The number that the next session of a host is given.
  abbrev pub next_number : ℕ → Bus → ℕ
  next_number host s = elim (lookup host s.session_count) [ none ↦ 1 | some n ↦ n ]

  abbrev pub class_of : ℕ → ℕ
  class_of class = if class == 0 then x.anonymous else class

  -- What the nodes are told of a session that asks for an id.
  abbrev pub state_of : ℕ → Bus → NodeState
  state_of requested s =
      if is_lost x requested s then NodeState.reconnected else NodeState.connected

  -- What a connection request from a host is answered with.
  pub record Completed (bus_id h requested class host : ℕ) (l : List ℕ) (s : Bus) : Type 0 where
    pub after : Bus
    pub returned : complete_connection x bus_id h requested class l s ≡ some after
    pub registered :
        IsRegistered bus_id h
          (if is_lost x requested s
            then requested
            else x.numbered_id (class_of class) host (next_number host s))
          (state_of requested s)
          l
          s
          after

  admit-IsRegistered :
      (bus_id h requested class host count : ℕ) (l : List ℕ) (s : Bus)
      → IsRegistered bus_id h
          (if is_lost x requested s then requested else x.numbered_id class host count)
          (state_of requested s)
          l
          s
          (admit x bus_id h requested class host count l s)
  unfolding admit
  admit-IsRegistered bus_id h requested class host count l s =
      elim (Bool-cases (is_lost x requested s)) [
        | inl e ↦ rw e (register-IsRegistered bus_id h requested NodeState.reconnected l s)
        | inr e ↦
            let t = record s { session_count = insert host (count + 1) s.session_count } in
            let r =
              register-IsRegistered bus_id h (x.numbered_id class host count) NodeState.connected l
                t in
            rw e (record {
              has_id = r.has_id;
              is_named = r.is_named;
              waits_not = r.waits_not;
              channels = r.channels;
              sent = r.sent;
            })
      ]

  -- The connection request of a session that waits and that has no id of a session that the bus
  -- knows is handled without an exception. If it asks for the id of a session that was lost, it has
  -- that id again; otherwise it has the id of its class, its host and the next number of that host.
  -- Either way its id names it, it waits no longer, it has the subscriptions that the request lists,
  -- in their order and behind those that there were, and all that is sent is the status of the
  -- session (reconnected or connected), to the subscribers of the nodes that it fits but for any
  -- with the id of the bus itself, and then, last, the response to the session with its id.
  pub complete_connection_total :
      (bus_id h requested class host port : ℕ) (l : List ℕ) (s : Bus)
      → lookup h s.hosts ≡ some (host, port)
      → elem h s.pending ≡ true
      → contains (id_of h s) s.sessions ≡ false
      → Completed bus_id h requested class host l s
  unfolding complete_connection
  complete_connection_total bus_id h requested class host port l s known waits new =
      let t = record s {
        session_count = set_default host 1 s.session_count;
        classes = insert h (class_of class) s.classes;
      } in
      let counted : lookup host (set_default host 1 s.session_count) ≡ some (next_number host s) =
        ground (arith, lookup-set_default host host 1 s.session_count, ==_self host) in
      record {
        after = admit x bus_id h requested (class_of class) host (next_number host s) l t;
        returned = ground (arith, known, waits, new, counted);
        registered =
            let r =
              admit-IsRegistered bus_id h requested (class_of class) host (next_number host s) l
                t in
            record {
              has_id = r.has_id;
              is_named = r.is_named;
              waits_not = r.waits_not;
              channels = r.channels;
              sent = r.sent;
            };
      }
