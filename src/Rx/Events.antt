-- ===== src/Rx/Events.antt =====
-- What a client sends, and expired timers, in any order (dispatch/rx_in_flight_publications.cpp).
use wally_io.Prelude.{
  ℕ, ◌≡◌, refl, ◌∙◌, ap, ◌⊎◌, inl, inr, List, [], ◌∷◌, Bool, true, false, ◌&&◌, ◌||◌, not, leb,
  ◌==◌, ==_iff, Bool-cases, Option-cases, Option, none, some, ok, find_key, assign, erase_key,
  Entries, find_key-assign, find_key-erase_other, find_key-Entries, find_key-erase_same,
  erase_key-assign, Entries-erase_key, Entries-assign, arith,
}
use wally_io.Protocol.{QoS, same_qos, at_most_once, at_least_once, exactly_once, reserved}
use wally_io.Packet.{Publish, PublishAck, MqttPacket, make_puback, make_pubrec, make_pubcomp}
use wally_io.Packet.PublishPacket.{qos}
use wally_io.Tx.{Effect, send, start_timer, cancel_timer, release, stop, next_retry}
use wally_io.Tx.Log.{releases}
use wally_io.Rx.{
  RxPublication, waiting_for_rel, completed, terminally_failed, make_rx_publication, start,
  start_pubrel_timeout, complete, pubrel_timeout_expired,
}
use wally_io.Rx.Table.{
  RxInFlight, release_publication, update, client_sent_publish, client_sent_pubrel, timeout_expired,
}

-- An entry stands under its own identifier, and waits for the PUBREL.
abbrev pub IsWaiting : ℕ → RxPublication → Type 0
IsWaiting key r = (r.publish_id ≡ key) × (r.state ≡ waiting_for_rel)

abbrev pub IsValid : RxInFlight → Type 0
IsValid table = Entries IsWaiting table

abbrev is_some : Option RxPublication → Bool
is_some none = false
is_some (some r) = true

abbrev pub present : ℕ → RxInFlight → Bool
present id table = is_some (find_key id table)

present-erase_key :
    (id other : ℕ) (table : RxInFlight)
    → IsValid table
    → present other (erase_key id table) ≡ (present other table && not (other == id))
present-erase_key id other table v = elim (Bool-cases (other == id)) [
  | inl same ↦
      let e : other ≡ id = (==_iff other id).0 same in
      let gone : find_key other (erase_key id table) ≡ none =
        rw e (find_key-erase_same IsWaiting id table v) in
      rw (present, gone, same) (ground arith)
  | inr ne ↦ rw (present, find_key-erase_other id other table ne, ne) (ground arith)
]

present-assign :
    (id other : ℕ) (r : RxPublication) (table : RxInFlight)
    → present other (assign id r table) ≡ present other table
present-assign id other r table = elim (Bool-cases (other == id)) [
  | inl same ↦
      let e : find_key other table ≡ find_key id table =
        ap (λ k. find_key k table) ((==_iff other id).0 same) in
      rw (present, find_key-assign id other r table, same, e) (ground arith)
  | inr ne ↦ rw (present, find_key-assign id other r table, ne)
]

QoS-cases :
    (q : QoS) → (q ≡ at_least_once) ⊎ (q ≡ exactly_once) ⊎ (q ≡ at_most_once) ⊎ (q ≡ reserved)
QoS-cases at_least_once = inl refl
QoS-cases exactly_once = inr (inl refl)
QoS-cases at_most_once = inr (inr (inl refl))
QoS-cases reserved = inr (inr (inr refl))

-- A PUBLISH is dispatched unless one with its identifier is in flight; with QoS 2 it is then in
-- flight itself.
pub client_sent_publish_lem :
    (publish : Publish) (table : RxInFlight)
    → IsValid table
    → (table' : RxInFlight) × (effects : List Effect) × (client_sent_publish true publish table
        ≡ ok (table', effects, not (present publish.packet_identifier table)))
      × IsValid table'
      × ((id : ℕ)
          → present id table' ≡ (
              present id table
              || (id == publish.packet_identifier && same_qos (qos publish) exactly_once)))
unfolding client_sent_publish start start_pubrel_timeout make_rx_publication
client_sent_publish_lem publish table v =
    let id = publish.packet_identifier in
    elim (Option-cases (find_key id table)) [
      | inr (r, seen) ↦ (
        table,
        [],
        rw (client_sent_publish, seen),
        v,
        λ other. elim (Bool-cases (other == id)) [
          | inl same ↦ let e : other ≡ id = (==_iff other id).0 same in rw (e, seen)
          | inr ne ↦ rw ne (ground arith)
        ],
      )
      | inl unseen ↦ elim (QoS-cases (qos publish)) [
        | inl once ↦ (
          table,
          send (MqttPacket.puback (make_puback id)) ∷ [],
          rw (client_sent_publish, unseen, once),
          v,
          λ other. rw once (ground arith),
        )
        | inr (inl twice) ↦
            let (r, effects) = start (make_rx_publication publish) in
            (
              (id, r) ∷ table,
              effects,
              rw (client_sent_publish, unseen, twice),
              (unseen, (refl, refl), v),
              λ other. rw twice (ground arith),
            )
        | inr (inr (inl never)) ↦ (
          table,
          [],
          rw (client_sent_publish, unseen, never),
          v,
          λ other. rw never (ground arith),
        )
        | inr (inr (inr odd)) ↦
            (table, [], rw (client_sent_publish, unseen, odd), v, λ other. rw odd (ground arith))
      ]
    ]

update-release :
    (id : ℕ) (r r' : RxPublication) (table : RxInFlight) (effects : List Effect)
    → find_key id table ≡ some r
    → r'.publish_id ≡ id
    → releases effects ≡ 1
    → update id table (r', effects) ≡ ok (erase_key id table, effects)
unfolding update release_publication
update-release id r r' table effects found own one =
    let same : (id == id) ≡ true = ground arith in
    let there : find_key id (assign id r' table) ≡ some r' =
      rw (find_key-assign id id r' table, found, same) in
    let erased : release_publication id (assign id r' table) ≡ ok (erase_key id table) =
      rw (release_publication, there, erase_key-assign id r' table) in
    let released : release_publication r'.publish_id (assign id r' table)
        ≡ ok (erase_key id table) =
      ap (λ k. release_publication k (assign id r' table)) own ∙ erased in
    rw (update, one, released)

-- A PUBREL removes the publication with its identifier and no other.
pub client_sent_pubrel_lem :
    (pubrel : PublishAck) (table : RxInFlight)
    → IsValid table
    → (table' : RxInFlight) × (effects : List Effect) × (client_sent_pubrel true pubrel table
        ≡ ok (table', effects))
      × IsValid table'
      × ((id : ℕ) → present id table' ≡ (present id table && not (id == pubrel.packet_identifier)))
unfolding client_sent_pubrel complete
client_sent_pubrel_lem pubrel table v =
    let id = pubrel.packet_identifier in
    elim (Option-cases (find_key id table)) [
      | inl unseen ↦ (
        table,
        stop ∷ [],
        rw (client_sent_pubrel, unseen),
        v,
        λ other. elim (Bool-cases (other == id)) [
          | inl same ↦ let e : other ≡ id = (==_iff other id).0 same in rw (e, present, unseen)
          | inr ne ↦ rw ne (ground arith)
        ],
      )
      | inr (r, found) ↦
          let (own, waiting) = find_key-Entries IsWaiting id r table v found in
          let effects =
            send (MqttPacket.pubcomp (make_pubcomp r.publish_id)) ∷ cancel_timer ∷ release ∷ [] in
          let own' : (id == r.publish_id) ≡ true = ground (arith, own) in
          (
            erase_key id table,
            effects,
            rw (client_sent_pubrel, found, complete, waiting, own')
                (update-release id r (record r { state = completed }) table effects found own refl),
            Entries-erase_key IsWaiting id table v,
            λ other. present-erase_key id other table v,
          )
    ]

-- An expired timer removes its own publication, or leaves it, and removes no other.
pub timeout_expired_lem :
    (max_retries id : ℕ) (table : RxInFlight)
    → IsValid table
    → (table' : RxInFlight) × (effects : List Effect) × (timeout_expired max_retries id table
        ≡ ok (table', effects))
      × IsValid table'
      × (((other : ℕ) → present other table' ≡ present other table)
          ⊎ ((other : ℕ) → present other table' ≡ (present other table && not (other == id))))
unfolding timeout_expired pubrel_timeout_expired start start_pubrel_timeout update
timeout_expired_lem max_retries id table v = elim (Option-cases (find_key id table)) [
  | inl unseen ↦ (table, [], rw (timeout_expired, unseen), v, inl (λ other. refl))
  | inr (r, found) ↦
      let (own, waiting) = find_key-Entries IsWaiting id r table v found in
      let n = next_retry r.retry_count in
      elim (Bool-cases (leb n max_retries)) [
        | inl again ↦
            let r' : RxPublication = record r { retry_count = n; state = waiting_for_rel } in
            let pubrec = send (MqttPacket.pubrec (make_pubrec r.publish_id)) in
            (
              assign id r' table,
              pubrec ∷ start_timer ∷ [],
              rw (timeout_expired, found, pubrel_timeout_expired, waiting, again),
              Entries-assign IsWaiting id r' table (own, refl) v,
              inl (λ other. present-assign id other r' table),
            )
        | inr last ↦
            let r' : RxPublication = record r { retry_count = n; state = terminally_failed } in
            (
              erase_key id table,
              release ∷ [],
              rw (timeout_expired, found, pubrel_timeout_expired, waiting, last)
                  (update-release id r r' table (release ∷ []) found own refl),
              Entries-erase_key IsWaiting id table v,
              inr (λ other. present-erase_key id other table v),
            )
      ]
]
