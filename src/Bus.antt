-- ===== src/Bus.antt =====
-- rmake/multinode/server/messagebus.py: the sessions of the message bus and the channels that they
-- subscribe to. A session object is known by a handle; `ids` has its session id, 0 where it has
-- none, and `hosts` its host name and port. A text is a number: which number a word or a formatted
-- text of the code has, the clock, and the reading of a channel by urllib are the parameter `Texts`.
-- What is queued for a session is kept in `sent`.
pub mod Sessions
pub mod Connecting
mod Tests
use rmake.Base.{
  ℕ, ◌+◌, Bool, true, false, not, ◌&&◌, ◌||◌, Option, none, some, List, [], ◌∷◌, ◌++◌, ◌==◌, elem,
  discard, filter, all, if◌then◌else◌, is_some, ◌>>=◌,
}
use rmake.Base.Dict.{Dict, lookup, contains, insert, set_default}

-- The names of headers and the words that the headers of a NodeStatus have.
pub data Word : Type 0 where
  message_type message_id session_id time_stamp destination status_id status : Word
  node_status_type is_connected is_reconnected is_disconnected : Word

-- The pattern of a subscription; a name without a value has None.
abbrev pub Pattern : Type 0
Pattern = Dict (Option ℕ)

pub record Texts : Type 0 where
  pub word : Word → ℕ
  -- `'messagebus:%s'` of a count, and `time.time()` when that message is stamped
  pub message_number : ℕ → ℕ
  pub clock : ℕ → ℕ
  pub unregistered_id : (host port : ℕ) → ℕ
  pub numbered_id : (session_class host count : ℕ) → ℕ
  -- `urllib.splitquery` and `splitattr` of a channel: its name and its pattern
  pub split_channel : ℕ → ℕ × Pattern
  pub anonymous : ℕ
  pub node_channel : ℕ

pub data NodeState : Type 0 where
  connected reconnected disconnected : NodeState

abbrev pub word_of : NodeState → Word
word_of connected = is_connected
word_of reconnected = is_reconnected
word_of disconnected = is_disconnected

pub data Kind : Type 0 where
  connection_request : (requested session_class : ℕ) → (subscriptions : List ℕ) → Kind
  subscribe_request method_message ordinary : Kind

pub record Message : Type 0 where
  pub kind : Kind
  pub destination : ℕ
  pub target_id : ℕ
  pub session_id : ℕ
  pub headers : Dict ℕ

pub data Out : Type 0 where
  node_status : ℕ → NodeState → Out
  connected_response : ℕ → Out
  forwarded : Message → Out
  local_call : Message → Out
  bad_request unknown_session : Out

pub record Bus : Type 0 where
  pub hosts : Dict (ℕ × ℕ)
  pub ids : Dict ℕ
  pub classes : Dict ℕ
  pub session_count : Dict ℕ
  pub message_count : ℕ
  pub pending : List ℕ
  pub sessions : Dict (Option ℕ)
  pub subscribers : Dict (List (ℕ × Pattern))
  pub sent : List (ℕ × Out)

abbrev pub id_of : ℕ → Bus → ℕ
id_of h s = elim (lookup h s.ids) [ none ↦ 0 | some i ↦ i ]

abbrev pub subscribed : ℕ → Bus → List (ℕ × Pattern)
subscribed channel s = elim (lookup channel s.subscribers) [ none ↦ [] | some l ↦ l ]

-- `a == b`, where None is a value
abbrev pub same_value : Option ℕ → Option ℕ → Bool
same_value none b = not (is_some b)
same_value (some v) none = false
same_value (some v) (some w) = v == w

-- `getattr(m.headers, key, None) == value`
abbrev pub has_header : Dict ℕ → ℕ × Option ℕ → Bool
has_header headers (key, value) = same_value (lookup key headers) value

-- The two tests of `iterSubscribers` on one subscriber.
unfoldable pub is_addressed : Message → Bus → ℕ × Pattern → Bool
is_addressed m s (h, pattern) =
    (m.target_id == 0 || m.target_id == id_of h s) && all (has_header m.headers) pattern

unfoldable pub iter_subscribers : Message → Bus → List (ℕ × Pattern)
iter_subscribers m s = filter (is_addressed m s) (subscribed m.destination s)

unfoldable pub drop_handle : ℕ → List (ℕ × Pattern) → List (ℕ × Pattern)
drop_handle h [] = []
drop_handle h ((g, p) ∷ rest) = let l = drop_handle h rest in if g == h then l else (g, p) ∷ l

unfoldable pub delete_each : ℕ → Dict (List (ℕ × Pattern)) → Dict (List (ℕ × Pattern))
delete_each h [] = []
delete_each h ((channel, l) ∷ rest) = (channel, drop_handle h l) ∷ delete_each h rest

unfoldable pub delete_subscriber : ℕ → Bus → Bus
delete_subscriber h s = record s { subscribers = delete_each h s.subscribers }

-- Every subscriber but the one whose session id is `except` is sent the message.
unfoldable pub send_each : ℕ → Out → List (ℕ × Pattern) → Bus → Bus
send_each except out [] s = s
send_each except out ((h, _) ∷ rest) s =
    let t = if id_of h s == except then s else record s { sent = s.sent ++ (h, out) ∷ [] } in
    send_each except out rest t

module _ (x : Texts) where
  unfoldable pub add_subscriber : ℕ → ℕ → Bus → Bus
  add_subscriber text h s =
      let (channel, pattern) = x.split_channel text in
      record s {
        subscribers = insert channel (subscribed channel s ++ (h, pattern) ∷ []) s.subscribers;
      }

  unfoldable pub add_subscriptions : List ℕ → ℕ → Bus → Bus
  add_subscriptions [] h s = s
  add_subscriptions (text ∷ rest) h s = add_subscriptions rest h (add_subscriber text h s)

  -- The NodeStatus that `sendMessage('/internal/nodes', m)` directs and stamps, with its headers:
  -- the bus itself is the sender.
  unfoldable pub status_message : (bus_id count session_id : ℕ) → NodeState → Message
  status_message bus_id count i state = record {
    kind = ordinary;
    destination = x.node_channel;
    target_id = 0;
    session_id = bus_id;
    headers =
        (x.word message_type, x.word node_status_type)
        ∷ (x.word message_id, x.message_number count)
        ∷ (x.word session_id, bus_id)
        ∷ (x.word time_stamp, x.clock count)
        ∷ (x.word destination, x.node_channel)
        ∷ (x.word status_id, i)
        ∷ (x.word status, x.word (word_of state))
        ∷ [];
  }

  unfoldable pub tell_nodes : (bus_id session_id : ℕ) → NodeState → Bus → Bus
  tell_nodes bus_id i state s =
      let t = record s { message_count = s.message_count + 1 } in
      send_each bus_id (node_status i state)
        (iter_subscribers (status_message bus_id s.message_count i state) t) t

  unfoldable pub new_session : (handle host port : ℕ) → Bus → Bus
  new_session h host port s = record s {
    hosts = insert h (host, port) s.hosts;
    ids = insert h (x.unregistered_id host port) s.ids;
    pending = s.pending ++ h ∷ [];
  }

  -- Whether a session that asks for an id had it and has lost its connection.
  abbrev pub is_lost : ℕ → Bus → Bool
  is_lost requested s =
      not (requested == 0)
      && elim (lookup requested s.sessions) [ none ↦ false | some o ↦ not (is_some o) ]

  -- What `completeConnection` does once the session id is known.
  unfoldable pub register : (bus_id h i : ℕ) → NodeState → List ℕ → Bus → Bus
  register bus_id h i state subscriptions s =
      let t = record s {
        ids = insert h i s.ids;
        sessions = insert i (some h) s.sessions;
        pending = discard h s.pending;
      } in
      let u = tell_nodes bus_id i state (add_subscriptions subscriptions h t) in
      record u { sent = u.sent ++ (h, connected_response i) ∷ [] }

  -- A session that comes back keeps its id; any other is given the next number of its host.
  unfoldable pub admit : (bus_id h requested class host count : ℕ) → List ℕ → Bus → Bus
  admit bus_id h requested class host count subscriptions s =
      if is_lost requested s
      then register bus_id h requested reconnected subscriptions s
      else register bus_id h (x.numbered_id class host count) connected subscriptions
          (record s { session_count = insert host (count + 1) s.session_count })

  -- A session that is not pending makes `self._pendingSessions.remove` raise.
  unfoldable pub complete_connection :
      (bus_id h requested session_class : ℕ) → List ℕ → Bus → Option Bus
  complete_connection bus_id h requested session_class subscriptions s =
      let class = if session_class == 0 then x.anonymous else session_class in
      if not (id_of h s == 0) && contains (id_of h s) s.sessions then some s else (do
        (host, port) ← lookup h s.hosts
        count ← lookup host (set_default host 1 s.session_count)
        (if elem h s.pending
            then some (
                admit bus_id h requested class host count subscriptions (record s {
                  session_count = set_default host 1 s.session_count;
                  classes = insert h class s.classes;
                }))
            else none))

  unfoldable pub close_session : (bus_id h : ℕ) → Bus → Bus
  close_session bus_id h s =
      let t = tell_nodes bus_id (id_of h s) disconnected s in
      delete_subscriber h (record t { sessions = insert (id_of h s) none t.sessions })

  -- `getSession(m.getTargetId())`
  abbrev pub get_session : ℕ → Bus → Option ℕ
  get_session i s = elim (lookup i s.sessions) [ none ↦ none | some o ↦ o ]

  -- `receivedMessage`; `none` is the exception that closes the session of the sender.
  unfoldable pub received_message : (bus_id h : ℕ) → Message → Bus → Option Bus
  received_message bus_id h m s = elim m.kind [
    | connection_request requested session_class subscriptions ↦
        complete_connection bus_id h requested session_class subscriptions s
    | subscribe_request ↦ some (
        if id_of h s == 0
        then record s { sent = s.sent ++ (h, bad_request) ∷ [] }
        else add_subscriber m.destination h s)
    | method_message ↦ some (
        if id_of h s == 0
        then record s { sent = s.sent ++ (h, bad_request) ∷ [] }
        else if m.target_id == 0
        then record s { sent = s.sent ++ (h, local_call m) ∷ [] }
        else elim (get_session m.target_id s) [
          | none ↦ record s { sent = s.sent ++ (h, unknown_session) ∷ [] }
          | some g ↦ record s { sent = s.sent ++ (g, forwarded m) ∷ [] }
        ])
    | ordinary ↦ some (
        if id_of h s == 0
        then record s { sent = s.sent ++ (h, bad_request) ∷ [] }
        else send_each m.session_id (forwarded m) (iter_subscribers m s) s)
  ]
