-- ===== src/Connection/Closing.antt =====
-- The end of a connection (`connection_close_requested` of mqtt_connection.cpp).
use wally_io.Prelude.{
  ◌≡◌, refl, inl, inr, Bytes, [], ◌∷◌, ◌++◌, Bool-cases, if◌then◌else◌, Option, none, some, ok,
  find_name,
}
use wally_io.Packet.{Publish}
use wally_io.Sessions.{Session, SessionManager, Output}
use wally_io.Sessions.Invariant.{IsManager, HasRooms}
use wally_io.Sessions.Manager.{client_disconnected}
use wally_io.Sessions.Departures.{
  IsWillOf, IsParting, client_disconnected_lem, client_disconnected_ungracefully_lem,
}
use wally_io.Dispatcher.{
  DisconnectReason, handle_packet, handle_packet_received, client_disconnected_ungracefully,
}
use wally_io.Connection.{
  request_stop, Connection, Server, known, effects, is_ungraceful, dispatch_as,
  dispatch_disconnect_packet, connection_close_requested,
}

-- In a well-formed state a connection with a client and its session is closed, for any reason, when the next packet
-- identifier of every session is free and the session has no last will or one that can be sent to
-- every client. Afterwards there is no session under the client's identifier, the other sessions stay, and are as
-- they were but for the publications in flight to their clients; the subscriptions and the retained
-- messages are as they were, a stop is requested and the state stays well formed. After a network failure, a protocol violation or a keep alive timeout the last will goes to
-- the connected subscribers of its topic, the client itself not among them; after a DISCONNECT or a
-- failed authentication, or without a last will, nothing is sent.
pub connection_close_requested_lem :
    (server : Server) (reason : DisconnectReason) (connection : Connection) (client : Bytes)
    (s : Session) (will : Option Publish) (m : SessionManager)
    → IsManager m
    → HasRooms m
    → connection.client_id ≡ some client
    → find_name client m.sessions ≡ some s
    → IsWillOf s.lwt_message will
    → (m' : SessionManager) × (output : Output) × (connection_close_requested server reason
          connection m
        ≡ ok (connection, m', effects output ++ request_stop ∷ []))
      × IsManager m'
      × IsParting
          (known connection server.senders)
          client
          m
          (if is_ungraceful reason then will else none)
          m'
          output
unfolding connection_close_requested dispatch_disconnect_packet dispatch_as handle_packet_received
    handle_packet client_disconnected_ungracefully
connection_close_requested_lem server reason connection client s will m v rooms known_as found is =
    let senders = known connection server.senders in
    elim (Bool-cases (is_ungraceful reason)) [
      | inl ungraceful ↦
          let (m', output, e, v', parting) =
            client_disconnected_ungracefully_lem senders client s will m v rooms found is in
          (
            m',
            output,
            simp (
              connection_close_requested, known_as, ungraceful, client_disconnected_ungracefully, e,
            ),
            v',
            rw ungraceful parting,
          )
      | inr graceful ↦
          let (removed, removal, subscribed, retained) = client_disconnected_lem client m v in
          (
            client_disconnected client m,
            [],
            simp (connection_close_requested, known_as, graceful, dispatch_as),
            removed,
            rw graceful (refl, removal, subscribed, retained),
          )
    ]
