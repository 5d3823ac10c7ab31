-- ===== src/Sessions/Publishing.antt =====
-- The loop of `mqtt_client_session_manager::publish` (dispatch/mqtt_client_session_manager.cpp).
use wally_io.Prelude.{
  ◌≡◌, ◌≢◌, refl, ap, sym, ◌∙◌, inl, inr, Bytes, List, [], ◌∷◌, ◌++◌, Bool-cases, Option-cases,
  if◌then◌else◌, All, none, some, ok, same_bytes, same_bytes_refl, find_name, replace_name, Named,
  find_name-Named, find_name-replace_other, Named-replace,
}
use wally_io.Protocol.{reserved}
use wally_io.Packet.{Publish}
use wally_io.Encoder.Publications.{IsRelayable}
use wally_io.Subscriptions.{ResolvedSubscriber}
use wally_io.Subscriptions.Resolve.{granted, IsOnce}
use wally_io.Tx.Table.Deliveries.{IsCopy, IsCopy-refl, IsCopy-trans, HasRoom}
use wally_io.Sessions.{Senders, Session, Output, publish_all}
use wally_io.Sessions.Delivery.{
  IsSession, sent_on, sent_on-append, receiver, receiver-replace, IsDelivered, IsDelivered-trans,
  session_publish_lem,
}

-- The next packet identifier of each of the clients is free.
abbrev pub IsReady : List (Bytes × Session) → List ResolvedSubscriber → Type 0
IsReady sessions subscribers =
    All (λ r. (s : Session) → find_name r.0 sessions ≡ some s → HasRoom s.tx) subscribers

IsReady-replace :
    (client : Bytes) (s : Session) (sessions : List (Bytes × Session))
    (subscribers : List ResolvedSubscriber)
    → granted client subscribers ≡ none
    → IsReady sessions subscribers
    → IsReady (replace_name client s sessions) subscribers
IsReady-replace client s sessions [] fresh h = tt
IsReady-replace client s sessions ((c, q) ∷ subscribers) fresh (h, hs) =
    elim (Bool-cases (same_bytes c client)) [
      | inl same ↦ cc (rw same at fresh)
      | inr other ↦
          let ne : client ≢ c = λ e. cc (other, same_bytes_refl c, ap (same_bytes c) e) in
          (
            λ s' e. h s' (sym (find_name-replace_other client c s sessions ne) ∙ e),
            IsReady-replace client s sessions subscribers (rw other at fresh) hs,
          )
    ]

module _ (senders : Senders) where
  -- What has become of the sessions by a PUBLISH to the subscribers.
  pub record IsRelay (p : Publish) (subscribers : List ResolvedSubscriber)
      (sessions : List (Bytes × Session)) (r : List (Bytes × Session) × Publish × Output)
      : Type 0 where
    pub valid : Named IsSession r.0
    pub relayable : IsRelayable r.1
    pub shared : IsCopy p r.1
    pub delivered : IsDelivered senders p sessions subscribers (sent_on r.2)
    pub reached : (c : Bytes) → receiver senders c r.0 ≡ receiver senders c sessions

  pub publish_all_lem :
      (subscribers : List ResolvedSubscriber) (p : Publish) (sessions : List (Bytes × Session))
      → Named IsSession sessions
      → IsRelayable p
      → IsOnce subscribers
      → All (λ r. r.1 ≢ reserved) subscribers
      → IsReady sessions subscribers
      → (r : List (Bytes × Session) × Publish × Output) × (publish_all senders subscribers p
            sessions
          ≡ ok r)
        × IsRelay p subscribers sessions r
  unfolding publish_all
  publish_all_lem [] p sessions v relayable once unreserved ready = (
    (sessions, p, []),
    refl,
    record {
      valid = v;
      relayable = relayable;
      shared = IsCopy-refl p;
      delivered = refl;
      reached = λ c. refl;
    },
  )
  publish_all_lem ((client, q) ∷ subscribers) p sessions v relayable (fresh, once) (m, unreserved)
        (room, ready) =
      elim (Option-cases (find_name client sessions)) [
        | inl absent ↦
            let (r, e, relay) =
              publish_all_lem subscribers p sessions v relayable once unreserved ready in
            (
              r,
              rw (publish_all, absent) e,
              record {
                valid = relay.valid;
                relayable = relay.relayable;
                shared = relay.shared;
                delivered = ([], sent_on r.2, refl, rw (receiver, absent) refl, relay.delivered);
                reached = relay.reached;
              },
            )
        | inr (s, found) ↦
            let valid_s = find_name-Named IsSession client s sessions v found in
            let (r, e, valid_r, grown, same_connection, relayable_r, copy, receipt) =
              session_publish_lem senders p q client s valid_s (room s found) relayable m in
            let sessions' = replace_name client r.0 sessions in
            let (rest, e', relay) =
              publish_all_lem subscribers r.1 sessions'
                (Named-replace IsSession client r.0 sessions valid_r v) relayable_r once unreserved
                (IsReady-replace client r.0 sessions subscribers fresh ready) in
            let reached =
              receiver-replace senders client s r.0 sessions found
                (ap (λ c. if senders.is_there c then some c else none) same_connection) in
            (
              (rest.0, rest.1, r.2 ++ rest.2),
              rw (publish_all, found, e, e'),
              record {
                valid = relay.valid;
                relayable = relay.relayable;
                shared = IsCopy-trans p r.1 rest.1 copy relay.shared;
                delivered = (
                  sent_on r.2,
                  sent_on rest.2,
                  sent_on-append r.2 rest.2,
                  rw (receiver, found) receipt,
                  IsDelivered-trans senders p r.1 sessions sessions' subscribers (sent_on rest.2)
                      copy reached relay.delivered,
                );
                reached = λ c. relay.reached c ∙ reached c;
              },
            )
      ]
