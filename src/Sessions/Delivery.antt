-- ===== src/Sessions/Delivery.antt =====
-- A PUBLISH to all of its subscribers (`mqtt_client_session_manager::publish`).
use wally_io.Prelude.{
  ℕ, ◌≡◌, ◌≢◌, refl, ap, sym, ◌∙◌, inl, inr, Bytes, List, [], ◌∷◌, ◌++◌, map, append_assoc,
  Bool-cases, if◌then◌else◌, Option, none, some, ok, same_bytes, same_bytes_refl, same_bytes-eq,
  find_name, replace_name, find_name-replace_same, find_name-replace_other,
}
use wally_io.Protocol.{QoS, reserved}
use wally_io.Packet.{Publish}
use wally_io.Packet.PublishPacket.{qos}
use wally_io.Encoder.Publications.{IsRelayable}
use wally_io.Subscriptions.{ResolvedSubscriber}
use wally_io.Tx.{Effect}
use wally_io.Tx.Table as Tx
use wally_io.Tx.Table.Responses as Responses
use wally_io.Tx.Table.Deliveries.{
  publish_of, sent, IsCopy, IsCopy-refl, IsCopy-trans, HasRoom, IsGrown, publish_lem,
}
use wally_io.Rx.Events as Events
use wally_io.Sessions.{Senders, Session, Output, on, session_publish}

-- A session stands under its own client identifier, and its tables are as they are to be.
abbrev pub IsSession : Bytes → Session → Type 0
IsSession key s = (s.client_id ≡ key) × Responses.IsValid s.tx × Events.IsValid s.rx

-- The PUBLISH packets of an output, with the connections they go to.
abbrev pub sent_on : Output → List (ℕ × Publish)
sent_on [] = []
sent_on ((connection, e) ∷ output) = map (λ p. (connection, p)) (publish_of e) ++ sent_on output

pub sent_on-append : (a b : Output) → sent_on (a ++ b) ≡ sent_on a ++ sent_on b
sent_on-append [] b = refl
sent_on-append ((c, e) ∷ a) b =
    ap (λ rest. map (λ p. (c, p)) (publish_of e) ++ rest) (sent_on-append a b)
    ∙ sym (append_assoc (map (λ p. (c, p)) (publish_of e)) (sent_on a) (sent_on b))

pub sent_on-on :
    (connection : ℕ) (effects : List Effect)
    → sent_on (on connection effects) ≡ map (λ p. (connection, p)) (sent effects)
sent_on-on c [] = refl
sent_on-on c (e ∷ effects) =
    ap (λ rest. map (λ p. (c, p)) (publish_of e) ++ rest) (sent_on-on c effects)
    ∙ sym (map-append (λ p. (c, p)) (publish_of e) (sent effects))
  where
    map-append :
        (f : Publish → ℕ × Publish) (xs ys : List Publish) → map f (xs ++ ys) ≡ map f xs ++ map f ys
    map-append f [] ys = refl
    map-append f (x ∷ xs) ys = ap (◌∷◌ (f x)) (map-append f xs ys)

-- What one client gets of a PUBLISH `p`: nothing without a connection, else one copy with QoS `q`.
abbrev pub Receipt : Publish → QoS → Option ℕ → List (ℕ × Publish) → Type 0
Receipt p q none out = out ≡ []
Receipt p q (some connection) out =
    (packet : Publish) × (out ≡ (connection, packet) ∷ []) × (qos packet ≡ q) × IsCopy p packet

module _ (senders : Senders) where
  abbrev pub connection_of : Session → Option ℕ
  connection_of s = if senders.is_there s.connection then some s.connection else none

  -- The connection by which a client can be reached.
  abbrev pub receiver : Bytes → List (Bytes × Session) → Option ℕ
  receiver client sessions = elim (find_name client sessions) [
    | none ↦ none
    | some s ↦ connection_of s
  ]

  -- The clients get the PUBLISH in order, each with its QoS.
  abbrev pub IsDelivered :
      Publish → List (Bytes × Session) → List ResolvedSubscriber → List (ℕ × Publish) → Type 0
  IsDelivered p sessions [] out = out ≡ []
  IsDelivered p sessions ((client, q) ∷ subscribers) out =
      (first : List (ℕ × Publish)) × (later : List (ℕ × Publish)) × (out ≡ first ++ later)
      × Receipt p q (receiver client sessions) first
      × IsDelivered p sessions subscribers later

  pub session_publish_lem :
      (p : Publish) (q : QoS) (key : Bytes) (s : Session)
      → IsSession key s
      → HasRoom s.tx
      → IsRelayable p
      → q ≢ reserved
      → (r : Session × Publish × Output) × (session_publish senders p q s ≡ ok r)
        × IsSession key r.0
        × IsGrown s.tx r.0.tx
        × (r.0.connection ≡ s.connection)
        × IsRelayable r.1
        × IsCopy p r.1
        × Receipt p q (connection_of s) (sent_on r.2)
  unfolding session_publish Tx.publish
  session_publish_lem p q key s (own, tx_valid, rx_valid) room relayable m =
      elim (Bool-cases (senders.is_there s.connection)) [
        | inl there ↦
            let (next, e, d) = publish_lem p q s.tx tx_valid room relayable m in
            let out : sent_on (on s.connection next.2) ≡ (s.connection, d.packet) ∷ [] =
              sent_on-on s.connection next.2 ∙ ap (map (λ x. (s.connection, x))) d.is_sent in
            (
              (record s { tx = next.0 }, next.1, on s.connection next.2),
              rw (session_publish, there, e),
              (own, d.valid, rx_valid),
              d.grown,
              refl,
              d.relayable,
              d.shared,
              rw there (d.packet, out, d.has_qos, d.is_copy),
            )
        | inr gone ↦ (
          (s, p, []),
          rw (session_publish, gone),
          (own, tx_valid, rx_valid),
          inl refl,
          refl,
          relayable,
          IsCopy-refl p,
          rw gone refl,
        )
      ]

  Receipt-trans :
      (p p' : Publish) (q : QoS) (to : Option ℕ) (out : List (ℕ × Publish))
      → IsCopy p p'
      → Receipt p' q to out
      → Receipt p q to out
  Receipt-trans p p' q none out c h = h
  Receipt-trans p p' q (some connection) out c (packet, e, is_q, c') =
      (packet, e, is_q, IsCopy-trans p p' packet c c')

  pub IsDelivered-trans :
      (p p' : Publish) (sessions sessions' : List (Bytes × Session))
      (subscribers : List ResolvedSubscriber) (out : List (ℕ × Publish))
      → IsCopy p p'
      → ((client : Bytes) → receiver client sessions' ≡ receiver client sessions)
      → IsDelivered p' sessions' subscribers out
      → IsDelivered p sessions subscribers out
  IsDelivered-trans p p' sessions sessions' [] out c same h = h
  IsDelivered-trans p p' sessions sessions' ((client, q) ∷ subscribers) out c same
        (first, later, e, receipt, rest) =
      (
        first,
        later,
        e,
        Receipt-trans p p' q _ first c (rw (same client) at receipt),
        IsDelivered-trans p p' sessions sessions' subscribers later c same rest,
      )

  pub receiver-replace :
      (key : Bytes) (s s' : Session) (sessions : List (Bytes × Session))
      → find_name key sessions ≡ some s
      → connection_of s' ≡ connection_of s
      → (client : Bytes) → receiver client (replace_name key s' sessions) ≡ receiver client sessions
  receiver-replace key s s' sessions found e client = elim (Bool-cases (same_bytes key client)) [
    | inl same ↦
        let k = same_bytes-eq key client same in
        let now = find_name-replace_same key s' s sessions found in
        ap (λ c. receiver c (replace_name key s' sessions)) (sym k)
        ∙ (ap (λ o. elim o [ none ↦ none | some x ↦ connection_of x ]) now
            ∙ (e
                ∙ (ap (λ o. elim o [ none ↦ none | some x ↦ connection_of x ]) (sym found)
                    ∙ ap (λ c. receiver c sessions) k)))
    | inr other ↦
        let ne : key ≢ client = λ eq. cc (other, same_bytes_refl key, ap (same_bytes key) eq) in
        ap (λ o. elim o [ none ↦ none | some x ↦ connection_of x ])
          (find_name-replace_other key client s' sessions ne)
  ]
