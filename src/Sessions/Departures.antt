-- ===== src/Sessions/Departures.antt =====
-- A client that leaves: `client_disconnected`, `client_disconnected_ungracefully` and `destroy_all`
-- of dispatch/mqtt_client_session_manager.cpp.
use wally_io.Prelude.{
  ◌+◌, ◌≤◌, ◌≡◌, ◌≢◌, refl, ap, sym, ◌∙◌, inl, inr, Bytes, [], false, Bool-cases, length, Option,
  none, some, ok, subst, find_name, erase_name, same_bytes, same_bytes_refl, same_bytes-eq,
  Named-erase, find_name-erase_same, find_name-erase_other, find_name-erase, if◌then◌else◌,
}
use wally_io.Protocol.{reserved, max_allowed_packet_length}
use wally_io.Wire.{max_string_length}
use wally_io.Packet.{Connect, Publish, last_will_qos}
use wally_io.Packet.PublishPacket.{create, dup, retain}
use wally_io.Encoder.Retention.{create_lem}
use wally_io.Subscriptions.{resolve_subscribers}
use wally_io.Sessions.Remaining.{Stays, Stays-none, publish-Stays}
use wally_io.Sessions.{
  publish, Senders, Session, SessionManager, Output, lwt_publish, session_disconnected_ungracefully,
}
use wally_io.Sessions.Manager.{client_disconnected, client_disconnected_ungracefully}
use wally_io.Sessions.Delivery.{IsSession, sent_on, receiver, IsDelivered}
use wally_io.Sessions.Invariant.{IsManager, HasRooms, publish-ok}

-- A last will that can be sent to every client.
pub record IsWill (connect : Connect) (topic message : Bytes) : Type 0 where
  pub has_topic : connect.will_topic ≡ some topic
  pub has_message : connect.will_message ≡ some message
  pub unreserved : last_will_qos connect.con_flags ≢ reserved
  pub fits : length topic ≤ max_string_length
  pub room : length topic + length message + 4 ≤ max_allowed_packet_length

abbrev pub will_of : Connect → Bytes → Bytes → Publish
will_of connect topic message =
    create false (last_will_qos connect.con_flags) false topic 0x0000 message

abbrev pub without : Bytes → SessionManager → SessionManager
without client m = record m { sessions = erase_name client m.sessions }

pub IsManager-without :
    (client : Bytes) (m : SessionManager) → IsManager m → IsManager (without client m)
IsManager-without client m v = record {
  sessions = Named-erase IsSession client m.sessions v.sessions;
  distinct = v.distinct;
  unreserved = v.unreserved;
  retained = v.retained;
}

HasRooms-without : (client : Bytes) (m : SessionManager) → HasRooms m → HasRooms (without client m)
HasRooms-without client m rooms other s e = elim (Bool-cases (same_bytes client other)) [
  | inl same ↦
      let k = same_bytes-eq client other same in
      cc (
        find_name-erase_same client m.sessions,
        e,
        ap (λ c. find_name c (erase_name client m.sessions)) k,
      )
  | inr differs ↦
      let ne : client ≢ other =
        λ eq. cc (differs, same_bytes_refl client, ap (same_bytes client) eq) in
      rooms other s (sym (find_name-erase_other client other m.sessions ne) ∙ e)
]

-- The last will of a session, as a PUBLISH that can be sent to every client.
abbrev pub IsWillOf : Option Connect → Option Publish → Type 0
IsWillOf none none = Unit {0}
IsWillOf none (some will) = ⊥
IsWillOf (some connect) none = ⊥
IsWillOf (some connect) (some will) =
    (topic : Bytes) × (message : Bytes) × IsWill connect topic message
    × (will ≡ will_of connect topic message)

-- The client's session is gone, and the others are as they were.
abbrev pub IsRemoval : Bytes → SessionManager → SessionManager → Type 0
IsRemoval client m m' =
    (other : Bytes)
    → find_name other m'.sessions
      ≡ (if same_bytes client other then none else find_name other m.sessions)

-- The client's session is gone, and the others stay, but for the publications in flight to them.
abbrev pub HasLeft : Bytes → SessionManager → SessionManager → Type 0
HasLeft client m m' =
    (find_name client m'.sessions ≡ none)
    × ((other : Bytes)
        → Stays (if same_bytes client other then none else find_name other m.sessions)
            (find_name other m'.sessions))

-- The client has left, and its will, if any, goes to the subscribers. What is subscribed to and
-- what is retained stay.
abbrev pub IsParting :
    Senders → Bytes → SessionManager → Option Publish → SessionManager → Output → Type 0
IsParting senders client m none m' output =
    (output ≡ [])
    × IsRemoval client m m'
    × (m'.subscriptions ≡ m.subscriptions)
    × (m'.retained_messages ≡ m.retained_messages)
IsParting senders client m (some will) m' output =
    HasLeft client m m'
    × (m'.subscriptions ≡ m.subscriptions)
    × (m'.retained_messages ≡ m.retained_messages)
    × (receiver senders client (without client m).sessions ≡ none)
    × IsDelivered senders will (without client m).sessions
        (resolve_subscribers will m.subscriptions) (sent_on output)
    × (dup will ≡ false)
    × (retain will ≡ false)

-- A DISCONNECT removes the session under the client's identifier and no other, and nothing else
-- changes; the client's subscriptions stay, and its last will is not sent.
pub client_disconnected_lem :
    (client : Bytes) (m : SessionManager)
    → IsManager m
    → let m' = client_disconnected client m in
      IsManager m'
      × IsRemoval client m m'
      × (m'.subscriptions ≡ m.subscriptions)
      × (m'.retained_messages ≡ m.retained_messages)
unfolding client_disconnected
client_disconnected_lem client m v =
    (IsManager-without client m v, λ other. find_name-erase client other m.sessions, refl, refl)

-- Publishing the will brings no session back.
HasLeft-publish :
    (senders : Senders) (client : Bytes) (p : Publish) (m : SessionManager)
    (r : SessionManager × Publish × Output)
    → publish senders p (without client m) ≡ ok r
    → HasLeft client m r.0
HasLeft-publish senders client p m r e =
    let stays : (other : Bytes)
        → Stays (find_name other (without client m).sessions) (find_name other r.0.sessions) =
      λ other. publish-Stays senders other p (without client m) r e in
    (
      Stays-none (find_name client r.0.sessions) (
          subst (λ t. Stays t (find_name client r.0.sessions))
            (find_name-erase_same client m.sessions) (stays client)),
      λ other.
          subst (λ t. Stays t (find_name other r.0.sessions))
            (find_name-erase client other m.sessions) (stays other),
    )

session_disconnected_ungracefully-IsParting :
    (senders : Senders) (client : Bytes) (s : Session) (m : SessionManager)
    → IsManager m
    → HasRooms m
    → (lwt : Option Connect) (will : Option Publish) → s.lwt_message ≡ lwt
    → IsWillOf lwt will
    → (m' : SessionManager) × (output : Output) × (session_disconnected_ungracefully senders s
          (without client m)
        ≡ ok (m', output))
      × IsManager m'
      × IsParting senders client m will m' output
unfolding session_disconnected_ungracefully lwt_publish
session_disconnected_ungracefully-IsParting senders client s m v rooms none none e h = (
  without client m,
  [],
  rw (session_disconnected_ungracefully, e),
  IsManager-without client m v,
  (refl, λ other. find_name-erase client other m.sessions, refl, refl),
)
session_disconnected_ungracefully-IsParting senders client s m v rooms (some connect) (some p) e
      (topic, message, w, is_p) =
    let q = last_will_qos connect.con_flags in
    let (relayable, is_dup, is_qos, is_retain) =
      create_lem false q false topic 0 message w.unreserved w.fits w.room in
    let (r, published, h) =
      publish-ok senders (will_of connect topic message) (without client m)
        (IsManager-without client m v) (HasRooms-without client m rooms) relayable in
    (
      r.0,
      r.2,
      rw (session_disconnected_ungracefully, e, w.has_topic, w.has_message, published),
      h.valid,
      rw is_p (
        HasLeft-publish senders client (will_of connect topic message) m r published,
        h.subscriptions,
        h.retained_messages,
        rw (receiver, find_name-erase_same client m.sessions),
        h.delivered,
        is_dup,
        is_retain,
      ),
    )
session_disconnected_ungracefully-IsParting senders client s m v rooms none (some _) e h =
    elim h [ ]
session_disconnected_ungracefully-IsParting senders client s m v rooms (some _) none e h =
    elim h [ ]

-- In a well-formed state a client with a session leaves without a DISCONNECT, when the next packet
-- identifier of every session is free, and the session has no last will or one that can be sent to
-- every client. Afterwards there is no session under its identifier, the state stays well formed, and the
-- subscriptions and the retained messages are as they were. Without a last will nothing is sent and
-- the other sessions are as they were. With one the other sessions stay, and are as they were but for
-- the publications in flight to their clients; and a PUBLISH with the will's topic, message and QoS,
-- without DUP and RETAIN, goes to every client that is resolved for that topic and connected, and
-- the client that left is not one of them.
pub client_disconnected_ungracefully_lem :
    (senders : Senders) (client : Bytes) (s : Session) (will : Option Publish) (m : SessionManager)
    → IsManager m
    → HasRooms m
    → find_name client m.sessions ≡ some s
    → IsWillOf s.lwt_message will
    → (m' : SessionManager) × (output : Output) × (client_disconnected_ungracefully senders client m
        ≡ ok (m', output))
      × IsManager m'
      × IsParting senders client m will m' output
unfolding client_disconnected_ungracefully
client_disconnected_ungracefully_lem senders client s will m v rooms found is =
    let (m', output, e, v', parting) =
      session_disconnected_ungracefully-IsParting senders client s m v rooms s.lwt_message will refl
        is in
    (m', output, rw (client_disconnected_ungracefully, found) e, v', parting)
