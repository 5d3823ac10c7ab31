-- ===== src/Tx/Table/Entries.antt =====
-- An entry of the table of publications, at an answer and at a timeout
-- (dispatch/tx_publication.cpp).
use wally_io.Prelude.{
  ℕ, ◌≡◌, refl, ◌⊎◌, inl, inr, List, [], ◌∷◌, Bool, true, false, ◌||◌, leb, ◌==◌, Bool-cases, ok,
  err, assertion_failed, arith,
}
use wally_io.Protocol.{PacketType, same_type}
use wally_io.Packet.{PublishAck, MqttPacket}
use wally_io.Packet.PublishPacket.{set_dup}
use wally_io.Tx.{
  Effect, send, start_timer, cancel_timer, release, stop, Qos1State, waiting_for_ack, Qos2State,
  waiting_for_rec, waiting_for_comp, qos2_value, Qos2TxPublication, ack_type, next_retry,
}
use wally_io.Tx.Log.{releases}
use wally_io.Tx.Qos1
use wally_io.Tx.Qos2
use wally_io.Tx.Table.{
  TxEntry, qos1, qos2, entry_identifier, entry_response_received, entry_timeout_expired,
}

-- An entry stands under its own identifier, and waits for an answer.
abbrev pub EntryWaiting : ℕ → TxEntry → Type 0
EntryWaiting key (qos1 t) = (t.publish.packet_identifier ≡ key) × (t.state ≡ waiting_for_ack)
EntryWaiting key (qos2 t) =
    (t.publish.packet_identifier ≡ key)
    × ((t.state ≡ waiting_for_rec) ⊎ (t.state ≡ waiting_for_comp))

-- The acknowledgements that an entry takes. One that waits for a PUBREC takes all three.
abbrev pub expects : TxEntry → PacketType → Bool
expects (qos1 t) type = same_type type PacketType.puback
expects (qos2 t) type =
    qos2_value t.state == 1
    || (same_type type PacketType.pubrec || same_type type PacketType.pubcomp)

abbrev pub is_ack : PacketType → Bool
is_ack type =
    same_type type PacketType.puback
    || (same_type type PacketType.pubrec || same_type type PacketType.pubcomp)

-- Behind a step an entry has asked to be released, once, or waits on.
abbrev pub Goes : ℕ → TxEntry × List Effect → Type 0
Goes key (entry, effects) =
    ((releases effects ≡ 1) × (entry_identifier entry ≡ key))
    ⊎ ((releases effects ≡ 0) × EntryWaiting key entry)

pub entry_response_received-Goes :
    (ack : PublishAck) (key : ℕ) (entry : TxEntry)
    → EntryWaiting key entry
    → ack.packet_identifier ≡ key
    → expects entry (ack_type ack) ≡ true
    → (next : TxEntry × List Effect) × (entry_response_received ack entry ≡ ok next) × Goes key next
unfolding entry_response_received Qos1.response_received Qos2.response_received Qos2.send_and_wait
    Qos2.start_ack_timeout
entry_response_received-Goes ack key (qos1 t) (own, waiting) e h =
    let same : (ack.packet_identifier == t.publish.packet_identifier) ≡ true =
      ground (arith, e, own) in
    (
      (qos1 (record t { state = Qos1State.completed }), cancel_timer ∷ release ∷ []),
      rw (entry_response_received, waiting, h, same),
      inl (refl, own),
    )
entry_response_received-Goes ack key (qos2 t) (own, inl in_rec) e h =
    let same : (ack.packet_identifier == t.publish.packet_identifier) ≡ true =
      ground (arith, e, own) in
    elim (Bool-cases (same_type (ack_type ack) PacketType.pubrec)) [
      | inl pubrec ↦ (
        (
          qos2 (record t { state = waiting_for_comp }),
          cancel_timer ∷ send (Qos2.pubrel t) ∷ start_timer ∷ [],
        ),
        rw (entry_response_received, Qos2.response_received, in_rec, pubrec, same),
        inr (refl, (own, inr refl)),
      )
      | inr other ↦ (
        (qos2 t, cancel_timer ∷ stop ∷ []),
        rw (entry_response_received, Qos2.response_received, in_rec, other),
        inr (refl, (own, inl in_rec)),
      )
    ]
entry_response_received-Goes ack key (qos2 t) (own, inr in_comp) e h =
    elim (Bool-cases (same_type (ack_type ack) PacketType.pubrec)) [
      | inl pubrec ↦ (
        (
          qos2 (record t { state = waiting_for_comp }),
          cancel_timer ∷ send (Qos2.pubrel t) ∷ start_timer ∷ [],
        ),
        rw (entry_response_received, Qos2.response_received, in_comp, pubrec),
        inr (refl, (own, inr refl)),
      )
      | inr other ↦
          let pubcomp : same_type (ack_type ack) PacketType.pubcomp ≡ true =
            rw (in_comp, other) at h in
          (
            (qos2 (record t { state = Qos2State.completed }), cancel_timer ∷ release ∷ []),
            rw (entry_response_received, Qos2.response_received, in_comp, other, pubcomp),
            inl (refl, own),
          )
    ]

-- What an entry does not take fails an assertion.
pub entry_response_received-unexpected :
    (ack : PublishAck) (key : ℕ) (entry : TxEntry)
    → EntryWaiting key entry
    → expects entry (ack_type ack) ≡ false
    → entry_response_received ack entry ≡ err assertion_failed
unfolding entry_response_received Qos1.response_received Qos2.response_received
entry_response_received-unexpected ack key (qos1 t) (own, waiting) h =
    rw (entry_response_received, waiting, h)
entry_response_received-unexpected ack key (qos2 t) (own, inl in_rec) h = cc (rw in_rec at h)
entry_response_received-unexpected ack key (qos2 t) (own, inr in_comp) h =
    elim (Bool-cases (same_type (ack_type ack) PacketType.pubrec)) [
      | inl pubrec ↦ cc (rw (in_comp, pubrec) at h)
      | inr other ↦
          let not_pubcomp : same_type (ack_type ack) PacketType.pubcomp ≡ false =
            rw (in_comp, other) at h in
          rw (entry_response_received, Qos2.response_received, in_comp, other, not_pubcomp)
    ]

pub entry_timeout_expired-Goes :
    (max_retries key : ℕ) (entry : TxEntry)
    → EntryWaiting key entry
    → (next : TxEntry × List Effect) × (entry_timeout_expired max_retries entry ≡ ok next)
      × Goes key next
unfolding entry_timeout_expired Qos1.ack_timeout_expired Qos2.ack_timeout_expired Qos1.start
    Qos1.start_ack_timeout Qos2.send_and_wait Qos2.start_ack_timeout
entry_timeout_expired-Goes max_retries key (qos1 t) (own, waiting) =
    let n = next_retry t.retry_count in
    elim (Bool-cases (leb n max_retries)) [
      | inl again ↦ (
        (
          qos1 (record t { retry_count = n; state = waiting_for_ack }),
          send (MqttPacket.publish t.publish) ∷ start_timer ∷ [],
        ),
        rw (entry_timeout_expired, Qos1.ack_timeout_expired, waiting, again),
        inr (refl, (own, refl)),
      )
      | inr last ↦ (
        (qos1 (record t { retry_count = n; state = Qos1State.terminally_failed }), release ∷ []),
        rw (entry_timeout_expired, Qos1.ack_timeout_expired, waiting, last),
        inl (refl, own),
      )
    ]
entry_timeout_expired-Goes max_retries key (qos2 t) (own, state) =
    let n = next_retry t.retry_count in
    let failed : Qos2TxPublication = record t {
      retry_count = n;
      state = Qos2State.terminally_failed;
    } in
    let p = set_dup true t.publish in
    elim (Bool-cases (leb n max_retries)) [
      | inl again ↦ elim state [
        | inl in_rec ↦ (
          (
            qos2 (record t { retry_count = n; state = waiting_for_comp; publish = p }),
            send (MqttPacket.publish p) ∷ start_timer ∷ [],
          ),
          rw (entry_timeout_expired, Qos2.ack_timeout_expired, in_rec, again),
          inr (refl, ((unfold set_dup in own), inr refl)),
        )
        | inr in_comp ↦ (
          (
            qos2 (record t { retry_count = n; state = waiting_for_comp }),
            send (Qos2.pubrel t) ∷ start_timer ∷ [],
          ),
          rw (entry_timeout_expired, Qos2.ack_timeout_expired, in_comp, again),
          inr (refl, (own, inr refl)),
        )
      ]
      | inr last ↦ elim state [
        | inl in_rec ↦ (
          (qos2 failed, release ∷ []),
          rw (entry_timeout_expired, Qos2.ack_timeout_expired, in_rec, last),
          inl (refl, own),
        )
        | inr in_comp ↦ (
          (qos2 failed, release ∷ []),
          rw (entry_timeout_expired, Qos2.ack_timeout_expired, in_comp, last),
          inl (refl, own),
        )
      ]
    ]
