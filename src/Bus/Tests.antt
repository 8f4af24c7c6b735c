-- ===== src/Bus/Tests.antt =====
-- A bus with one connection that waits.
use rmake.Base.{◌+◌, ◌-◌, ◌*◌, ◌≡◌, refl, some, [], ◌∷◌, ltb, if◌then◌else◌}
use rmake.Base.Dict.{lookup, insert}
use rmake.Bus.{
  Texts, message_type, message_id, session_id, time_stamp, destination, status_id, status,
  node_status_type, is_connected, is_reconnected, is_disconnected, Message, subscribe_request,
  node_status, Bus, NodeState, new_session, close_session, received_message, add_subscriber,
  tell_nodes, send_each, iter_subscribers, is_addressed, status_message, delete_subscriber,
}
use rmake.Bus.Sessions.{Closed, close_session-Closed, new_session-subscribes}
use rmake.Bus.Connecting.{Completed, complete_connection_total}

-- The channel 770 + n is the channel of the nodes with the pattern `statusId=n`.
abbrev texts : Texts
texts = record {
  word = λ w. elim w [
    | message_type ↦ 1
    | message_id ↦ 2
    | session_id ↦ 3
    | time_stamp ↦ 4
    | destination ↦ 5
    | status_id ↦ 6
    | status ↦ 7
    | node_status_type ↦ 11
    | is_connected ↦ 12
    | is_reconnected ↦ 13
    | is_disconnected ↦ 14
  ];
  message_number = λ n. 5000 + n;
  clock = λ n. 9000 + n;
  unregistered_id = λ host port. 1000 * host + port;
  numbered_id = λ class host count. 100 * class + 10 * host + count;
  split_channel = λ text. if ltb text 770 then (text, []) else (77, (6, some (text - 770)) ∷ []);
  anonymous = 9;
  node_channel = 77;
}

abbrev empty_bus : Bus
empty_bus = record {
  hosts = [];
  ids = [];
  classes = [];
  session_count = [];
  message_count = 0;
  pending = [];
  sessions = [];
  subscribers = [];
  sent = [];
}

abbrev waiting : Bus
waiting = new_session texts 5 2 80 empty_bus

complete_connection_example : Completed texts 1 5 0 4 2 (77 ∷ 1391 ∷ []) waiting
unfolding new_session lookup insert
complete_connection_example =
    complete_connection_total texts 1 5 0 4 2 80 (77 ∷ 1391 ∷ []) waiting refl refl refl

-- Session 6 watches the node 441, session 7 the node 442; session 5 is 441.
abbrev watched : Bus
watched = record {
  hosts = (5, (4, 80)) ∷ (6, (4, 81)) ∷ (7, (4, 82)) ∷ [];
  ids = (5, 441) ∷ (6, 900) ∷ (7, 901) ∷ [];
  classes = [];
  session_count = (4, 2) ∷ [];
  message_count = 3;
  pending = [];
  sessions = (441, some 5) ∷ (900, some 6) ∷ (901, some 7) ∷ [];
  subscribers = (77, (5, []) ∷ (6, (6, some 441) ∷ []) ∷ (7, (6, some 442) ∷ []) ∷ []) ∷ [];
  sent = [];
}

-- Of the patterns only the one that names the session fits.
close_session_test :
    (close_session texts 1 5 watched).sent
    ≡ (5, node_status 441 NodeState.disconnected) ∷ (6, node_status 441 NodeState.disconnected) ∷ []
unfolding close_session tell_nodes send_each iter_subscribers is_addressed status_message lookup
    delete_subscriber insert
close_session_test = refl

close_session_example : Closed texts 1 5 watched (close_session texts 1 5 watched)
close_session_example = close_session-Closed texts 1 5 watched

abbrev subscribe_me : Message
subscribe_me = record {
  kind = subscribe_request;
  destination = 77;
  target_id = 0;
  session_id = 0;
  headers = [];
}

new_session_example :
    received_message texts 1 5 subscribe_me (new_session texts 5 2 80 empty_bus)
    ≡ some (add_subscriber texts 77 5 (new_session texts 5 2 80 empty_bus))
new_session_example = new_session-subscribes texts 1 5 2 80 subscribe_me empty_bus refl refl
