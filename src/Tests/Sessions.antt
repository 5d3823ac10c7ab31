-- ===== src/Tests/Sessions.antt =====
-- A session manager with two clients, and the handlers on it.
use wally_io.Prelude.{
  ℕ, ◌≡◌, refl, ◌⊎◌, Bytes, [], ◌∷◌, true, false, ◌==◌, Option, none, some, ok, length, find_name,
  Named, find_name-Named, if◌then◌else◌, arith,
}
use wally_io.Protocol.{at_most_once, at_least_once, exactly_once, qos_of}
use wally_io.Packet.{Connect, MqttPacket, succeed, last_will_qos}
use wally_io.Packet.PublishPacket.{retain, set_retain}
use wally_io.Subscriptions.{subscribe}
use wally_io.Tx.{send}
use wally_io.Tx.Table.{next_packet_identifier}
use wally_io.Tx.Table.Deliveries.{HasRoom}
use wally_io.Tx.Table.Identifiers.{HasRoomFor}
use wally_io.Rx.Events.{present}
use wally_io.Retained.{messages_for, resolve_messages, resolve_subscriptions, resolve_message}
use wally_io.Topic.{topic_filter_matches_topic, match_from}
use wally_io.Sessions.{Senders, Session, SessionManager, Output}
use wally_io.Sessions.Manager.{
  client_published, client_subscribed, client_disconnected_ungracefully,
}
use wally_io.Sessions.Invariant.{IsManager, HasRooms}
use wally_io.Sessions.Publications.{IsDispatched}
use wally_io.Sessions.Delivery.{sent_on}
use wally_io.Sessions.Retaining.{unretained, IsRetaining, client_published_lem}
use wally_io.Sessions.Departures.{
  IsWill, IsWillOf, IsParting, will_of, client_disconnected_ungracefully_lem,
}
use wally_io.Sessions.Subscribing.{IsAnswered, client_subscribed_lem}
use wally_io.Sessions.Acknowledgements.{IsHandled}
use wally_io.Dispatcher.{PacketContainer, not_a_disconnect, handle_packet_received}
use wally_io.Dispatcher.Invariant.{handle_packet_received_lem}
use wally_io.Tests.Codec.{topic}
use wally_io.Tests.Tables.{kept, kept-IsRelayable, messages, messages-IsStored, request}

abbrev pub alice : Bytes
alice = b'A' ∷ []

abbrev bob : Bytes
bob = b'B' ∷ []

-- Alice leaves a will with QoS 1.
abbrev pub connect : Connect
connect = record {
  header = record { type_and_flags = 0x10; remaining_length = 24 };
  prot_name = b'M' ∷ b'Q' ∷ b'T' ∷ b'T' ∷ [];
  prot_level = 4;
  con_flags = 0x0C;
  keep_alive_secs = 10;
  client_id = alice;
  will_topic = some topic;
  will_message = some (1 ∷ 2 ∷ []);
  username = none;
  password = none;
}

abbrev session_of : Bytes → ℕ → Option Connect → Session
session_of client connection lwt = record {
  client_id = client;
  connection = connection;
  tx = record { publications = []; packet_identifier = 0 };
  rx = [];
  lwt_message = lwt;
}

abbrev pub first : Session
first = session_of alice 1 (some connect)

abbrev pub manager : SessionManager
manager = record {
  sessions = (alice, first) ∷ (bob, session_of bob 2 none) ∷ [];
  subscriptions =
      record { topic_filter = topic; maximum_qos = at_most_once; client_id = alice }
      ∷ record { topic_filter = b'#' ∷ []; maximum_qos = exactly_once; client_id = bob }
      ∷ [];
  retained_messages = messages;
}

abbrev pub senders : Senders
senders = record { is_there = λ c. true; client_id = λ c. if c == 1 then some alice else some bob }

pub manager-IsManager : IsManager manager
manager-IsManager = record {
  sessions = (refl, (refl, tt, tt), (refl, (refl, tt, tt), tt));
  distinct = (refl, (refl, tt));
  unreserved = (λ e. cc e, (λ e. cc e, tt));
  retained = messages-IsStored;
}

manager-room : Named (λ c s. HasRoom s.tx) manager.sessions
unfolding next_packet_identifier
manager-room = (refl, refl, (refl, refl, tt))

pub manager-HasRooms : HasRooms manager
manager-HasRooms client s e =
    find_name-Named (λ c t. HasRoom t.tx) client s manager.sessions manager-room e

client_published_example :
    (m' : SessionManager) × (output : Output) × (client_published senders alice kept manager
      ≡ ok (m', output))
    × IsManager m'
    × IsDispatched senders (present kept.packet_identifier []) (unretained kept) manager output
    × (retain (unretained kept) ≡ false)
    × IsRetaining (retain kept) kept manager.retained_messages m'.retained_messages
client_published_example =
    client_published_lem senders alice kept first manager manager-IsManager manager-HasRooms
      kept-IsRelayable refl refl

connect-qos : last_will_qos 0x0C ≡ at_least_once
unfolding last_will_qos qos_of
connect-qos = refl

pub connect-IsWillOf : IsWillOf first.lwt_message (some (will_of connect topic (1 ∷ 2 ∷ [])))
connect-IsWillOf = (topic, 1 ∷ 2 ∷ [], connect-IsWill, refl)
  where
    connect-IsWill : IsWill connect topic (1 ∷ 2 ∷ [])
    connect-IsWill = record {
      has_topic = refl;
      has_message = refl;
      unreserved = λ e. cc (connect-qos, e);
      fits = omega arith;
      room = omega arith;
    }

client_disconnected_ungracefully_example :
    (m' : SessionManager) × (output : Output) × (client_disconnected_ungracefully senders alice
        manager
      ≡ ok (m', output))
    × IsManager m'
    × IsParting senders alice manager (some (will_of connect topic (1 ∷ 2 ∷ []))) m' output
client_disconnected_ungracefully_example =
    client_disconnected_ungracefully_lem senders alice first
      (some (will_of connect topic (1 ∷ 2 ∷ []))) manager manager-IsManager manager-HasRooms refl
      connect-IsWillOf

one : length (messages_for request messages) ≡ 1
unfolding messages_for resolve_messages resolve_subscriptions resolve_message
    topic_filter_matches_topic match_from set_retain
one = refl

first-HasRoomFor : HasRoomFor (length (messages_for request messages)) first.tx
first-HasRoomFor = rw one (record { small = omega arith; few = omega arith; free = (refl, tt) })

client_subscribed_example :
    let resolved = messages_for request messages in
    (m' : SessionManager) × (output : Output) × (client_subscribed senders alice request manager
      ≡ ok (m', output))
    × IsManager m'
    × (m'.subscriptions ≡ (subscribe alice request manager.subscriptions).0)
    × ((true ≡ true)
          × ((rest : Output) × (output ≡ (1, send (MqttPacket.suback (succeed request))) ∷ rest)
              × IsAnswered (some 1) resolved (sent_on rest))
        ⊎ ((true ≡ false) × (find_name alice m'.sessions ≡ none)))
client_subscribed_example =
    client_subscribed_lem senders alice first request manager manager-IsManager refl
      (λ e. cc e, (λ e. cc e, tt)) first-HasRoomFor

abbrev published : PacketContainer
published = record {
  client_id = alice;
  rx_connection = 1;
  packet = MqttPacket.publish kept;
  disconnect_reason = not_a_disconnect;
}

handle_packet_received_example : IsHandled (handle_packet_received senders published manager)
handle_packet_received_example =
    handle_packet_received_lem senders published manager manager-IsManager
      (kept-IsRelayable, manager-HasRooms, λ s e. refl)
