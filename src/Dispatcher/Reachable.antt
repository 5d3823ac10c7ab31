-- ===== src/Dispatcher/Reachable.antt =====
-- The states that the session manager comes to by packets, by clients that leave and by timers, in
-- any order (dispatch/dispatcher.cpp and the timers of dispatch/tx_publication.cpp and
-- rx_publication.cpp).
use wally_io.Prelude.{
  ℕ, ◌≡◌, sym, ◌∙◌, Bytes, List, [], Option, some, ok, ok-injective, find_name, replace_name,
  find_name-Named, Named-replace,
}
use wally_io.Packet.{Publish}
use wally_io.Tx.{Effect}
use wally_io.Tx.Table as Tx
use wally_io.Tx.Table.{TxInFlight}
use wally_io.Tx.Table.Responses.{tx_timeout_expired_lem}
use wally_io.Rx.Table as Rx
use wally_io.Rx.Table.{RxInFlight}
use wally_io.Rx.Events as Events
use wally_io.Sessions.{Senders, Session, SessionManager, Output}
use wally_io.Sessions.Manager as Manager
use wally_io.Sessions.Delivery.{IsSession}
use wally_io.Sessions.Invariant.{IsManager, HasRooms}
use wally_io.Sessions.Departures.{IsWillOf, client_disconnected_ungracefully_lem}
use wally_io.Dispatcher.{
  DisconnectReason, PacketContainer, handle_packet_received, client_disconnected_ungracefully, stop,
}
use wally_io.Dispatcher.Invariant.{IsWelcome, handle_packet_received_lem}

abbrev pub initial : SessionManager
initial = record { sessions = []; subscriptions = []; retained_messages = [] }

-- The session of a client has changed.
abbrev pub with_table : Bytes → Session → SessionManager → SessionManager
with_table client s m = record m { sessions = replace_name client s m.sessions }

-- Which connections are there may be different at each step.
pub data Reachable : SessionManager → Type 0 where
  started : Reachable initial
  received :
      (senders : Senders) (container : PacketContainer) {m m' : SessionManager} {output : Output}
      → Reachable m
      → IsWelcome senders container.client_id container.rx_connection m container.packet
      → handle_packet_received senders container m ≡ ok (m', output)
      → Reachable m'
  left :
      (senders : Senders) (client : Bytes) (reason : DisconnectReason) (s : Session)
      (will : Option Publish) {m m' : SessionManager} {output : Output}
      → Reachable m
      → HasRooms m
      → find_name client m.sessions ≡ some s
      → IsWillOf s.lwt_message will
      → client_disconnected_ungracefully senders client reason m ≡ ok (m', output)
      → Reachable m'
  tx_timeout :
      (max_retries id : ℕ) (client : Bytes) (s : Session) {table : TxInFlight}
      {effects : List Effect} {m : SessionManager}
      → Reachable m
      → find_name client m.sessions ≡ some s
      → Tx.timeout_expired max_retries id s.tx ≡ ok (table, effects)
      → Reachable (with_table client (record s { tx = table }) m)
  rx_timeout :
      (max_retries id : ℕ) (client : Bytes) (s : Session) {table : RxInFlight}
      {effects : List Effect} {m : SessionManager}
      → Reachable m
      → find_name client m.sessions ≡ some s
      → Rx.timeout_expired max_retries id s.rx ≡ ok (table, effects)
      → Reachable (with_table client (record s { rx = table }) m)
  stopped : {m : SessionManager} → Reachable m → Reachable (stop m)

initial-IsManager : IsManager initial
initial-IsManager = record { sessions = tt; distinct = tt; unreserved = tt; retained = tt }

IsManager-with_table :
    (client : Bytes) (s : Session) (m : SessionManager)
    → IsManager m
    → IsSession client s
    → IsManager (with_table client s m)
IsManager-with_table client s m v valid = record {
  sessions = Named-replace IsSession client s m.sessions valid v.sessions;
  distinct = v.distinct;
  unreserved = v.unreserved;
  retained = v.retained;
}

-- In every state that the session manager comes to from the empty one, by packets that no assertion
-- stands against, by clients that leave with a last will that can be sent or none while packet
-- identifiers are free, by expired timers and by a stop, in any order: each session stands once and
-- under its own client identifier, each publication in flight stands once and under its own packet
-- identifier and waits for an answer, each subscription stands once, and each topic has at most one
-- retained message, which is its own, not empty, and can be handed on.
pub Reachable-IsManager : {m : SessionManager} → Reachable m → IsManager m
unfolding client_disconnected_ungracefully stop Manager.destroy_all
Reachable-IsManager started = initial-IsManager
Reachable-IsManager (received senders container h w e) =
    let (m'', output', e', v') =
      handle_packet_received_lem senders container _ (Reachable-IsManager h) w in
    rw ((ok-injective (sym e ∙ e')).0) v'
Reachable-IsManager (left senders client reason s will h rooms found is e) =
    let (m'', output', e', v', _) =
      client_disconnected_ungracefully_lem senders client s will _ (Reachable-IsManager h) rooms
        found is in
    rw ((ok-injective (sym e ∙ e')).0) v'
Reachable-IsManager (tx_timeout max_retries id client s {m = m} h found e) =
    let v = Reachable-IsManager h in
    let (own, tx_valid, rx_valid) =
      find_name-Named IsSession client s m.sessions v.sessions found in
    let (table', effects', e', tx_valid') = tx_timeout_expired_lem max_retries id s.tx tx_valid in
    let is : table' ≡ _ = (ok-injective (sym e' ∙ e)).0 in
    IsManager-with_table client _ m v (own, rw is at tx_valid', rx_valid)
Reachable-IsManager (rx_timeout max_retries id client s {m = m} h found e) =
    let v = Reachable-IsManager h in
    let (own, tx_valid, rx_valid) =
      find_name-Named IsSession client s m.sessions v.sessions found in
    let (table', effects', e', rx_valid', _) =
      Events.timeout_expired_lem max_retries id s.rx rx_valid in
    let is : table' ≡ _ = (ok-injective (sym e' ∙ e)).0 in
    IsManager-with_table client _ m v (own, tx_valid, rw is at rx_valid')
Reachable-IsManager (stopped {m = m} h) =
    let v = Reachable-IsManager h in
    record {
      sessions = tt;
      distinct = v.distinct;
      unreserved = v.unreserved;
      retained = v.retained;
    }
