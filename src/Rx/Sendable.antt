-- ===== src/Rx/Sendable.antt =====
-- The answers to the PUBLISHes of a client can be encoded (dispatch/rx_publication.cpp and
-- rx_in_flight_publications.cpp).
use wally_io.Prelude.{
  ℕ, inl, inr, List, [], ◌∷◌, Bool, false, ltb, leb, ◌==◌, Option-cases, All, assert, find_key,
  assign, Yields, ok-Yields, bind-Yields, chain-Yields, if-Yields, if-both,
}
use wally_io.Protocol.{same_qos, at_least_once, exactly_once}
use wally_io.Packet.{Publish, PublishAck}
use wally_io.Packet.PublishPacket.{qos}
use wally_io.Encoder.Lengths.{IsSendable}
use wally_io.Tx.{Effect, stop, next_retry}
use wally_io.Tx.Log.{releases}
use wally_io.Tx.Sendable.{CanSend}
use wally_io.Rx.{
  RxPublication, rx_value, make_rx_publication, start, start_pubrel_timeout, complete,
  pubrel_timeout_expired,
}
use wally_io.Rx.Table.{
  RxInFlight, release_publication, update, client_sent_publish, client_sent_pubrel, timeout_expired,
}

abbrev RxSends : RxPublication × List Effect → Type 0
RxSends r = All CanSend r.1

abbrev pub AnswersSend : RxInFlight × List Effect → Type 0
AnswersSend r = All CanSend r.1

-- The same with whether to dispatch the PUBLISH.
abbrev pub ReceiptSends : RxInFlight × List Effect × Bool → Type 0
ReceiptSends r = All CanSend r.1

start-RxSends : (r : RxPublication) → RxSends (start r)
unfolding start start_pubrel_timeout
start-RxSends r = (IsSendable.pubrec r.publish_id, (tt, tt))

pub client_sent_publish-Yields :
    (connected : Bool) (p : Publish) (table : RxInFlight)
    → Yields ReceiptSends (client_sent_publish connected p table)
unfolding client_sent_publish
client_sent_publish-Yields connected p table =
    elim (Option-cases (find_key p.packet_identifier table)) [
      | inr (seen, found) ↦
          rw (client_sent_publish, found) (ok-Yields ReceiptSends (table, [], false) tt)
      | inl absent ↦
          rw (client_sent_publish, absent)
            (ok-Yields ReceiptSends _ (
              if-both ReceiptSends (same_qos (qos p) at_least_once)
                (if-both (λ effects. All CanSend effects) connected
                  (IsSendable.puback p.packet_identifier, tt) tt)
                (if-both ReceiptSends (same_qos (qos p) exactly_once)
                  (if-both ReceiptSends connected (start-RxSends (make_rx_publication p)) tt) tt)))
    ]

complete-Yields : (pubrel : PublishAck) (r : RxPublication) → Yields RxSends (complete pubrel r)
unfolding complete
complete-Yields pubrel r = bind-Yields (assert (rx_value r.state == 1)) (λ _ _.
    bind-Yields (assert (pubrel.packet_identifier == r.publish_id))
      (λ _ _. ok-Yields RxSends _ (IsSendable.pubcomp r.publish_id, (tt, (tt, tt)))))

update-Yields :
    (id : ℕ) (table : RxInFlight) (next : RxPublication × List Effect)
    → RxSends next
    → Yields AnswersSend (update id table next)
unfolding update
update-Yields id table (r, effects) h =
    if-Yields (ltb 0 (releases effects))
      (bind-Yields (release_publication r.publish_id (assign id r table))
        (λ rest _. ok-Yields AnswersSend _ h))
      (ok-Yields AnswersSend _ h)

pub client_sent_pubrel-Yields :
    (connected : Bool) (pubrel : PublishAck) (table : RxInFlight)
    → Yields AnswersSend (client_sent_pubrel connected pubrel table)
unfolding client_sent_pubrel
client_sent_pubrel-Yields connected pubrel table =
    if-Yields connected
      (elim (Option-cases (find_key pubrel.packet_identifier table)) [
        | inl absent ↦ rw absent (ok-Yields AnswersSend (table, stop ∷ []) (tt, tt))
        | inr (r, found) ↦ rw found (
            chain-Yields RxSends (complete pubrel r) (complete-Yields pubrel r)
              (λ next h. update-Yields pubrel.packet_identifier table next h))
      ])
      (ok-Yields AnswersSend (table, []) tt)

pub timeout_expired-Sends :
    (max_retries id : ℕ) (table : RxInFlight)
    → Yields AnswersSend (timeout_expired max_retries id table)
unfolding timeout_expired pubrel_timeout_expired
timeout_expired-Sends max_retries id table = elim (Option-cases (find_key id table)) [
  | inl absent ↦ rw (timeout_expired, absent) (ok-Yields AnswersSend (table, []) tt)
  | inr (r, found) ↦
      rw (timeout_expired, found)
        (chain-Yields RxSends (pubrel_timeout_expired max_retries r)
          (bind-Yields (assert (rx_value r.state == 1)) (λ _ _. ok-Yields RxSends _ (
            if-both RxSends (leb (next_retry r.retry_count) max_retries)
              (start-RxSends (record r { retry_count = next_retry r.retry_count })) (tt, tt))))
          (λ next h. update-Yields id table next h))
]
