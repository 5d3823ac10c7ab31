-- ===== src/Tests/Connections.antt =====
-- Connections to that session manager.
use wally_io.Prelude.{ℕ, ◌≡◌, refl, arith, All, [], ◌∷◌, ◌++◌, true, none, some, ok}
use wally_io.Packet.{MqttPacket, succeed, contains_last_will, retain_last_will}
use wally_io.Sessions.{SessionManager, Output}
use wally_io.Sessions.Invariant.{IsManager}
use wally_io.Sessions.Departures.{IsParting, will_of}
use wally_io.Dispatcher.{
  PacketContainer, client_disconnect, keep_alive_timeout_expired, handle_packet,
  handle_packet_received,
}
use wally_io.Dispatcher.Reachable.{Reachable, started, received, Reachable-IsManager}
use wally_io.Sessions.Manager.{client_connected, client_subscribed, publish_retained}
use wally_io.Dispatcher.Invariant.{IsWelcome}
use wally_io.Dispatcher.Sendable.{Emits, on_packet, IsEncoded, Reachable-IsEncoded}
use wally_io.Retained.{messages_for, resolve_messages}
use wally_io.Subscriptions.{subscribe}
use wally_io.Tx.{Effect, send}
use wally_io.Tests.Tables.{request}
use wally_io.Sessions.{make_session, session_send}
use wally_io.Connection.{
  request_stop, Connection, Server, known, effects, connection_close_requested,
}
use wally_io.Connection.Closing.{connection_close_requested_lem}
use wally_io.Tests.Codec.{topic}
use wally_io.Tests.Sessions.{
  alice, connect, first, manager, senders, manager-IsManager, manager-HasRooms, connect-IsWillOf,
}

abbrev pub fresh : Connection
fresh = record { id = 1; client_id = none; is_open = true; keep_alive = none }

abbrev pub connected : Connection
connected = record { id = 1; client_id = some alice; is_open = true; keep_alive = some 10 }

abbrev pub server : Server
server = record { senders = senders; authenticate = λ username password. true }

connection_close_requested_example :
    let will = will_of connect topic (1 ∷ 2 ∷ []) in
    (m' : SessionManager) × (output : Output) × (connection_close_requested server
        keep_alive_timeout_expired connected manager
      ≡ ok (connected, m', effects output ++ request_stop ∷ []))
    × IsManager m'
    × IsParting (known connected senders) alice manager (some will) m' output
connection_close_requested_example =
    connection_close_requested_lem server keep_alive_timeout_expired connected alice first
      (some (will_of connect topic (1 ∷ 2 ∷ []))) manager manager-IsManager manager-HasRooms refl
      refl connect-IsWillOf

abbrev arrival : PacketContainer
arrival = record {
  client_id = alice;
  rx_connection = 1;
  packet = MqttPacket.connect connect;
  disconnect_reason = client_disconnect;
}

abbrev one_client : SessionManager
one_client = record { sessions = (alice, first) ∷ []; subscriptions = []; retained_messages = [] }

-- Alice has connected.
one_client-Reachable : Reachable one_client
unfolding handle_packet_received handle_packet client_connected make_session contains_last_will
    retain_last_will
one_client-Reachable = received senders arrival started (refl, refl) refl

Reachable-IsManager_example : IsManager one_client
Reachable-IsManager_example = Reachable-IsManager one_client-Reachable

-- Alice subscribes.
abbrev asking : PacketContainer
asking = record {
  client_id = alice;
  rx_connection = 1;
  packet = MqttPacket.subscribe request;
  disconnect_reason = client_disconnect;
}

asking-IsWelcome : IsWelcome senders alice 1 one_client (MqttPacket.subscribe request)
unfolding messages_for resolve_messages
asking-IsWelcome = (
  (λ e. cc e, (λ e. cc e, tt)),
  λ s found.
      let same : first ≡ s = cc found in
      rw (← same) (record { small = omega arith; few = omega arith; free = tt }),
)

one_client-Emits : Emits one_client ((1, send (MqttPacket.suback (succeed request))) ∷ [])
unfolding handle_packet_received handle_packet client_subscribed subscribe session_send messages_for
    publish_retained resolve_messages
one_client-Emits = on_packet senders asking asking-IsWelcome (omega arith) refl

Reachable-IsEncoded_example :
    All (λ (e : ℕ × Effect). IsEncoded e.1) ((1, send (MqttPacket.suback (succeed request))) ∷ [])
Reachable-IsEncoded_example = Reachable-IsEncoded one_client-Reachable one_client-Emits
