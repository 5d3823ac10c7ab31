-- ===== src/Connection/Lifecycle.antt =====
-- A connection at its CONNECT (`process_connect_packet` of mqtt_connection.cpp).
use wally_io.Prelude.{
  ◌≡◌, Bytes, List, ◌++◌, false, ◌&&◌, if◌then◌else◌, none, some, find_name, same_bytes,
}
use wally_io.Packet.{Connect, MqttPacket, connection_accepted, make_connack}
use wally_io.Sessions.{SessionManager, make_session}
use wally_io.Sessions.Invariant.{IsManager}
use wally_io.Connection.{Action, Connection, Server, write_packet}

-- The first CONNECT is accepted.
pub record IsAccepted (server : Server) (connect : Connect) (connection : Connection)
    (m : SessionManager) (r : Connection × SessionManager × List Action) : Type 0 where
  pub has_client_id : r.0.client_id ≡ some connect.client_id
  pub valid : IsManager r.1
  pub sessions :
      (client : Bytes)
      → find_name client r.1.sessions ≡ (
          if server.senders.is_there connection.id && same_bytes connect.client_id client
          then elim (find_name connect.client_id m.sessions) [
            | none ↦ some (make_session connect connection.id)
            | some earlier ↦ some earlier
          ]
          else find_name client m.sessions)
  pub first : List Action
  pub answered :
      r.2
      ≡ first
        ++ write_packet (MqttPacket.connack (make_connack false connection_accepted)) connection
