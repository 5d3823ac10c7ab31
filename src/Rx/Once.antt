-- ===== src/Rx/Once.antt =====
-- A session at work: which PUBLISHes it dispatches (dispatch/mqtt_client_session.cpp asks
-- `client_sent_publish` whether to).
use wally_io.Prelude.{
  ℕ, ◌+◌, ◌≡◌, refl, List, [], ◌∷◌, Bool, true, false, ◌&&◌, not, ◌==◌, if◌then◌else◌, Result, ok,
  ◌>>=◌, arith, inl, inr,
}
use wally_io.Protocol.{same_qos, exactly_once}
use wally_io.Packet.{Publish, PublishAck}
use wally_io.Packet.PublishPacket.{qos}
use wally_io.Rx.Table.{RxInFlight, client_sent_publish, client_sent_pubrel, timeout_expired}
use wally_io.Rx.Events.{
  IsValid, present, client_sent_publish_lem, client_sent_pubrel_lem, timeout_expired_lem,
}

pub data Event : Type 0 where
  publish : Publish → Event
  pubrel : PublishAck → Event
  timeout : ℕ → Event

-- The table behind the event, and whether a PUBLISH is to be dispatched. The client is connected.
abbrev pub handle : ℕ → Event → RxInFlight → Result (RxInFlight × Bool)
handle max_retries (publish p) table = client_sent_publish true p table >>= λ r. ok (r.0, r.2)
handle max_retries (pubrel ack) table = client_sent_pubrel true ack table >>= λ r. ok (r.0, false)
handle max_retries (timeout id) table =
    timeout_expired max_retries id table >>= λ r. ok (r.0, false)

abbrev pub bit : Bool → ℕ
bit b = if b then 1 else 0

-- A PUBLISH with QoS 2 and the identifier.
abbrev pub is_about : ℕ → Event → Bool
is_about id (publish p) = id == p.packet_identifier && same_qos (qos p) exactly_once
is_about id _ = false

-- How often such a PUBLISH is dispatched, how often the publication under the identifier leaves the
-- table, and the last table.
abbrev pub run : ℕ → ℕ → List Event → RxInFlight → Result (ℕ × ℕ × RxInFlight)
run max_retries id [] table = ok (0, 0, table)
run max_retries id (event ∷ events) table = handle max_retries event table >>= λ r.
    run max_retries id events r.0 >>= λ rest. ok (
      bit (r.1 && is_about id event) + rest.0,
      bit (present id table && not (present id r.0)) + rest.1,
      rest.2,
    )

handle_lem :
    (max_retries id : ℕ) (event : Event) (table : RxInFlight)
    → IsValid table
    → (table' : RxInFlight) × (dispatched : Bool) × (handle max_retries event table
        ≡ ok (table', dispatched))
      × IsValid table'
      × (bit (present id table) + bit (dispatched && is_about id event)
          ≡ bit (present id table && not (present id table')) + bit (present id table'))
handle_lem max_retries id (publish p) table v =
    let (table', effects, e, v', after) = client_sent_publish_lem p table v in
    (table', not (present p.packet_identifier table), rw e, v', ground (arith, after id))
handle_lem max_retries id (pubrel ack) table v =
    let (table', effects, e, v', after) = client_sent_pubrel_lem ack table v in
    (table', false, rw e, v', ground (arith, after id))
handle_lem max_retries id (timeout other) table v =
    let (table', effects, e, v', after) = timeout_expired_lem max_retries other table v in
    (
      table',
      false,
      rw e,
      v',
      elim after [ inl same ↦ ground (arith, same id) | inr gone ↦ ground (arith, gone id) ],
    )

-- Whatever a connected client sends and whichever timers expire, from a table whose entries wait
-- under their own identifiers no assertion fails and the table stays so. A PUBLISH with QoS 2 is
-- dispatched exactly once until its publication has left the table: of one identifier, as many are
-- dispatched as publications leave the table or are in it more than before.
pub run_lem :
    (max_retries id : ℕ) (events : List Event) (table : RxInFlight)
    → IsValid table
    → (dispatched left : ℕ) × (table' : RxInFlight) × (run max_retries id events table
        ≡ ok (dispatched, left, table'))
      × IsValid table'
      × (bit (present id table) + dispatched ≡ left + bit (present id table'))
run_lem max_retries id [] table v = (0, 0, table, refl, v, omega arith)
run_lem max_retries id (event ∷ events) table v =
    let (next, now, e, v', step) = handle_lem max_retries id event table v in
    let (dispatched, left, table', e', v'', rest) = run_lem max_retries id events next v' in
    (
      bit (now && is_about id event) + dispatched,
      bit (present id table && not (present id next)) + left,
      table',
      rw (e, e'),
      v'',
      omega (arith, step, rest),
    )
