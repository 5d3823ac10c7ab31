-- ===== src/Sessions.antt =====
-- source/server/io_wally/dispatch/mqtt_client_session.cpp, and the state and the inner operations
-- of mqtt_client_session_manager.cpp. A connection is a number; what a handler does to a connection
-- is an output, in order.
pub mod Manager
pub mod Delivery
pub mod Publishing
pub mod Invariant
pub mod Publications
pub mod Retaining
pub mod Remaining
pub mod Departures
pub mod Quiet
pub mod Subscribing
pub mod Acknowledgements
pub mod Sendable
pub mod Sending
pub mod Answering
use wally_io.Prelude.{
  ℕ, Bytes, List, [], ◌∷◌, ◌++◌, map, Bool, true, false, if◌then◌else◌, Option, none, some, Result,
  ok, err, ◌>>=◌, empty_optional, find_name, replace_name, erase_name,
}
use wally_io.Protocol.{QoS}
use wally_io.Packet.{Connect, Publish, PublishAck, MqttPacket, contains_last_will, last_will_qos}
use wally_io.Packet.PublishPacket.{create}
use wally_io.Subscriptions.{SubscriptionContainer, ResolvedSubscriber, resolve_subscribers}
use wally_io.Retained.{RetainedMessages}
use wally_io.Tx.{Effect, send}
use wally_io.Tx.Table as Tx
use wally_io.Tx.Table.{TxInFlight}
use wally_io.Rx.Table as Rx
use wally_io.Rx.Table.{RxInFlight}

-- `mqtt_packet_sender`: whether the weak pointer to a connection can be locked, and the connection's
-- client identifier.
pub record Senders : Type 0 where
  pub is_there : ℕ → Bool
  pub client_id : ℕ → Option Bytes

pub record Session : Type 0 where
  pub client_id : Bytes
  pub connection : ℕ
  pub tx : TxInFlight
  pub rx : RxInFlight
  pub lwt_message : Option Connect

pub record SessionManager : Type 0 where
  pub sessions : List (Bytes × Session)
  pub subscriptions : List SubscriptionContainer
  pub retained_messages : RetainedMessages

abbrev pub Output : Type 0
Output = List (ℕ × Effect)

abbrev pub on : ℕ → List Effect → Output
on connection effects = map (λ e. (connection, e)) effects

-- The constructor of `mqtt_client_session`.
unfoldable pub make_session : Connect → ℕ → Session
unfolding contains_last_will
make_session connect connection = record {
  client_id = connect.client_id;
  connection = connection;
  tx = record { publications = []; packet_identifier = 0 };
  rx = [];
  lwt_message = if contains_last_will connect.con_flags then some connect else none;
}

-- `mqtt_client_session_manager::destroy`, and `mqtt_client_session::destroy` behind it.
unfoldable pub destroy : Bytes → SessionManager → SessionManager
destroy client_id manager = record manager { sessions = erase_name client_id manager.sessions }

-- `mqtt_client_session::send`
unfoldable pub session_send :
    Senders → MqttPacket → Session → SessionManager → SessionManager × Output
unfolding destroy
session_send senders packet session manager =
    if senders.is_there session.connection
    then (manager, (session.connection, send packet) ∷ [])
    else (destroy session.client_id manager, [])

-- `mqtt_client_session::publish`, with the PUBLISH that is shared.
unfoldable pub session_publish :
    Senders → Publish → QoS → Session → Result (Session × Publish × Output)
unfolding Tx.publish
session_publish senders incoming_publish maximum_qos session =
    Tx.publish (senders.is_there session.connection) incoming_publish maximum_qos session.tx
    >>= λ r. ok (record session { tx = r.0 }, r.1, on session.connection r.2)

-- The loop of `mqtt_client_session_manager::publish`.
unfoldable pub publish_all :
    Senders
    → List ResolvedSubscriber
    → Publish
    → List (Bytes × Session)
    → Result (List (Bytes × Session) × Publish × Output)
unfolding session_publish
publish_all senders [] incoming_publish sessions = ok (sessions, incoming_publish, [])
publish_all senders ((client, maximum_qos) ∷ subscribers) incoming_publish sessions =
    elim (find_name client sessions) [
      | none ↦ publish_all senders subscribers incoming_publish sessions
      | some session ↦
          (session_publish senders incoming_publish maximum_qos session >>= λ r.
          publish_all senders subscribers r.1 (replace_name client r.0 sessions) >>= λ rest.
          ok (rest.0, rest.1, r.2 ++ rest.2))
    ]

unfoldable pub publish :
    Senders → Publish → SessionManager → Result (SessionManager × Publish × Output)
unfolding publish_all
publish senders incoming_publish manager =
    publish_all senders (resolve_subscribers incoming_publish manager.subscriptions)
      incoming_publish manager.sessions
    >>= λ r. ok (record manager { sessions = r.0 }, r.1, r.2)

-- `mqtt_client_session::client_sent_publish`, of the session that stands under `key`.
unfoldable pub session_client_sent_publish :
    Senders
    → Bytes
    → Publish
    → Session
    → SessionManager
    → Result (SessionManager × Publish × Output)
unfolding Rx.client_sent_publish publish
session_client_sent_publish senders key incoming_publish session manager =
    Rx.client_sent_publish (senders.is_there session.connection) incoming_publish session.rx
    >>= λ r.
        let manager' = record manager {
          sessions = replace_name key (record session { rx = r.0 }) manager.sessions;
        } in
        let answers = on session.connection r.1 in
        if r.2
        then (publish senders incoming_publish manager' >>= λ t. ok (t.0, t.1, answers ++ t.2))
        else ok (manager', incoming_publish, answers)

-- The three acknowledgements that a session passes to its `tx_in_flight_publications`.
unfoldable pub session_response_received :
    Senders → PublishAck → Session → Result (Session × Output)
unfolding Tx.response_received
session_response_received senders ack session =
    Tx.response_received (senders.is_there session.connection) ack session.tx >>= λ r.
    ok (record session { tx = r.0 }, on session.connection r.1)

unfoldable pub session_client_released_publish :
    Senders → PublishAck → Session → Result (Session × Output)
unfolding Rx.client_sent_pubrel
session_client_released_publish senders pubrel session =
    Rx.client_sent_pubrel (senders.is_there session.connection) pubrel session.rx >>= λ r.
    ok (record session { rx = r.0 }, on session.connection r.1)

-- The last will, as a PUBLISH. A will topic or message that is not there is read all the same.
unfoldable pub lwt_publish : Connect → Result Publish
unfolding last_will_qos create
lwt_publish connect = elim connect.will_topic [
  | none ↦ err empty_optional
  | some will_topic ↦ elim connect.will_message [
    | none ↦ err empty_optional
    | some will_message ↦
        ok (create false (last_will_qos connect.con_flags) false will_topic 0x0000 will_message)
  ]
]

-- `mqtt_client_session::client_disconnected_ungracefully`
unfoldable pub session_disconnected_ungracefully :
    Senders → Session → SessionManager → Result (SessionManager × Output)
unfolding lwt_publish publish
session_disconnected_ungracefully senders session manager = elim session.lwt_message [
  | none ↦ ok (manager, [])
  | some connect ↦ (lwt_publish connect >>= λ p. publish senders p manager >>= λ r. ok (r.0, r.2))
]
