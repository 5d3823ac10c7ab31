-- ===== src/Sessions/Retaining.antt =====
-- `client_published` of dispatch/mqtt_client_session_manager.cpp: a PUBLISH is dispatched without
-- its RETAIN flag, and retained with it.
use wally_io.Prelude.{
  ◌≡◌, refl, inl, inr, Bytes, Bool, true, false, ltb, length, Bool-cases, if◌then◌else◌, Option,
  none, some, ok, same_bytes, find_name, put_name, erase_name, Named, Named-put, Named-erase,
  find_name-put, find_name-erase,
}
use wally_io.Packet.{Publish}
use wally_io.Packet.PublishPacket.{retain, set_retain}
use wally_io.Encoder.Publications.{IsRelayable}
use wally_io.Encoder.Retention.{set_retain_lem}
use wally_io.Rx.Events.{present}
use wally_io.Retained.{RetainedMessages, retain_message}
use wally_io.Sessions.{Senders, Session, SessionManager, Output}
use wally_io.Sessions.Manager.{client_published}
use wally_io.Sessions.Invariant.{IsManager, IsStored, HasRooms}
use wally_io.Sessions.Publications.{IsDispatched, session_client_sent_publish-ok}

-- The PUBLISH as the subscribers get it.
abbrev pub unretained : Publish → Publish
unretained p = if retain p then set_retain false p else p

-- A message that is not empty is kept, and one that is removes what was.
abbrev pub IsKept : Bool → Publish → Option Publish → Type 0
IsKept true p kept =
    (p' : Publish) × (kept ≡ some p') × (p'.application_message ≡ p.application_message)
IsKept false p kept = kept ≡ none

abbrev pub IsRetaining : Bool → Publish → RetainedMessages → RetainedMessages → Type 0
IsRetaining true p messages messages' =
    (kept : Option Publish) × IsKept (ltb 0 (length p.application_message)) p kept
    × ((topic : Bytes)
        → find_name topic messages'
          ≡ (if same_bytes p.topic topic then kept else find_name topic messages))
IsRetaining false p messages messages' = messages' ≡ messages

-- What is retained is a later copy of the PUBLISH that came.
retain_message-copy :
    (p p' : Publish) (messages : RetainedMessages)
    → p'.topic ≡ p.topic
    → p'.application_message ≡ p.application_message
    → retain p' ≡ true
    → IsRelayable p'
    → Named IsStored messages
    → (messages' : RetainedMessages) × (retain_message p' messages ≡ ok messages')
      × Named IsStored messages'
      × IsRetaining true p messages messages'
unfolding retain_message
retain_message-copy p p' messages same_topic same_message r relayable v =
    elim (Bool-cases (ltb 0 (length p'.application_message))) [
      | inl there ↦ (
        put_name p'.topic p' messages,
        rw (retain_message, r, there),
        Named-put IsStored p'.topic p' messages ((refl, r, there), relayable) v,
        (
          some p',
          rw (← same_message, there) (p', refl, refl),
          λ topic. rw (← same_topic) (find_name-put p'.topic topic p' messages),
        ),
      )
      | inr empty ↦ (
        erase_name p'.topic messages,
        rw (retain_message, r, empty),
        Named-erase IsStored p'.topic messages v,
        (
          none,
          rw (← same_message, empty) refl,
          λ topic. rw (← same_topic) (find_name-erase p'.topic topic messages),
        ),
      )
    ]

-- A consistent PUBLISH, with an unreserved QoS and room for a packet identifier, from a client that is
-- connected, in a well-formed state in which the next packet identifier of every session is free: it
-- is handled, and the state stays well formed. If the
-- client has a QoS 2 PUBLISH of that identifier in flight no PUBLISH is sent; else every client that
-- is resolved for its topic and connected gets one, with the QoS it is resolved with and with the
-- RETAIN flag off. If the flag was on the message is retained for its topic, or what was is removed
-- if it is empty; else what is retained stays.
pub client_published_lem :
    (senders : Senders) (client : Bytes) (p : Publish) (s : Session) (m : SessionManager)
    → IsManager m
    → HasRooms m
    → IsRelayable p
    → find_name client m.sessions ≡ some s
    → senders.is_there s.connection ≡ true
    → (m' : SessionManager) × (output : Output) × (client_published senders client p m
        ≡ ok (m', output))
      × IsManager m'
      × IsDispatched senders (present p.packet_identifier s.rx) (unretained p) m output
      × (retain (unretained p) ≡ false)
      × IsRetaining (retain p) p m.retained_messages m'.retained_messages
unfolding client_published set_retain
client_published_lem senders client p s m v rooms relayable found there =
    elim (Bool-cases (retain p)) [
      | inl on ↦
          let (bare, off, _, _) = set_retain_lem false p relayable in
          let (r, e, v', relayable', copy, dispatched, same_messages, same_subscriptions) =
            session_client_sent_publish-ok senders client (set_retain false p) s m v rooms bare
              found there in
          let (marked, on', _, _) = set_retain_lem true r.1 relayable' in
          let (messages, e', stored, retaining) =
            retain_message-copy p (set_retain true r.1) r.0.retained_messages copy.topic
              copy.message on' marked v'.retained in
          (
            record r.0 { retained_messages = messages },
            r.2,
            rw (client_published, found, on, e, e'),
            record {
              sessions = v'.sessions;
              distinct = v'.distinct;
              unreserved = v'.unreserved;
              retained = stored;
            },
            rw on dispatched,
            rw on off,
            rw on (rw (← same_messages) retaining),
          )
      | inr off ↦
          let (r, e, v', relayable', copy, dispatched, same_messages, same_subscriptions) =
            session_client_sent_publish-ok senders client p s m v rooms relayable found there in
          (
            r.0,
            r.2,
            rw (client_published, found, off, e),
            v',
            rw off dispatched,
            rw off off,
            rw off same_messages,
          )
    ]
