-- ===== src/Tx/Table/Responses.antt =====
-- Answers and expired timers at the table (dispatch/tx_in_flight_publications.cpp).
use wally_io.Prelude.{
  ℕ, ◌≡◌, refl, ap, ◌∙◌, ◌⊎◌, inl, inr, List, [], ◌∷◌, true, false, ◌==◌, Bool-cases, Option-cases,
  none, some, ok, err, assertion_failed, find_key, assign, erase_key, Entries, find_key-assign,
  find_key-Entries, erase_key-assign, Entries-erase_key, Entries-assign, arith,
}
use wally_io.Packet.{PublishAck}
use wally_io.Tx.{Effect, stop, ack_type}
use wally_io.Tx.Table.{
  TxEntry, TxInFlight, entry_identifier, release_entry, update_entry, response_received,
  timeout_expired,
}
use wally_io.Tx.Table.Entries.{
  EntryWaiting, expects, is_ack, Goes, entry_response_received-Goes,
  entry_response_received-unexpected, entry_timeout_expired-Goes,
}

abbrev pub IsValid : TxInFlight → Type 0
IsValid table = Entries EntryWaiting table.publications

update_entry-Goes :
    (id : ℕ) (table : TxInFlight) (old : TxEntry) (next : TxEntry × List Effect)
    → IsValid table
    → find_key id table.publications ≡ some old
    → Goes id next
    → (table' : TxInFlight) × (update_entry id table next ≡ ok (table', next.1)) × IsValid table'
unfolding update_entry release_entry
update_entry-Goes id table old (entry, effects) v found (inl (one, own)) =
    let same : (id == id) ≡ true = ground arith in
    let there : find_key id (assign id entry table.publications) ≡ some entry =
      rw (find_key-assign id id entry table.publications, found, same) in
    let erased : release_entry id (assign id entry table.publications)
        ≡ ok (erase_key id table.publications) =
      rw (release_entry, there, erase_key-assign id entry table.publications) in
    let released : release_entry (entry_identifier entry) (assign id entry table.publications)
        ≡ ok (erase_key id table.publications) =
      ap (λ k. release_entry k (assign id entry table.publications)) own ∙ erased in
    (
      record table { publications = erase_key id table.publications },
      rw (update_entry, one, released),
      Entries-erase_key EntryWaiting id table.publications v,
    )
update_entry-Goes id table old (entry, effects) v found (inr (zero_releases, waits)) = (
  record table { publications = assign id entry table.publications },
  rw (update_entry, zero_releases),
  Entries-assign EntryWaiting id entry table.publications waits v,
)

-- An acknowledgement from a connected client, at a table whose entries wait under their own
-- identifiers: it is handled and the table stays so if its entry takes it; if there is no entry the
-- connection is stopped; and if the entry does not take it an assertion fails.
pub response_received_lem :
    (ack : PublishAck) (table : TxInFlight)
    → IsValid table
    → is_ack (ack_type ack) ≡ true
    → ((entry : TxEntry) × (find_key ack.packet_identifier table.publications ≡ some entry)
        × (((expects entry (ack_type ack) ≡ true)
              × ((table' : TxInFlight) × (effects : List Effect) × (response_received true ack table
                    ≡ ok (table', effects))
                  × IsValid table'))
            ⊎ ((expects entry (ack_type ack) ≡ false)
                × (response_received true ack table ≡ err assertion_failed))))
      ⊎ ((find_key ack.packet_identifier table.publications ≡ none)
          × (response_received true ack table ≡ ok (table, stop ∷ [])))
unfolding response_received
response_received_lem ack table v h =
    let id = ack.packet_identifier in
    elim (Option-cases (find_key id table.publications)) [
      | inl absent ↦ inr (absent, rw (response_received, h, absent))
      | inr (entry, found) ↦
          let waits = find_key-Entries EntryWaiting id entry table.publications v found in
          inl (
            entry,
            found,
            elim (Bool-cases (expects entry (ack_type ack))) [
              | inl taken ↦
                  let (next, e, goes) =
                    entry_response_received-Goes ack id entry waits refl taken in
                  let (table', e', v') = update_entry-Goes id table entry next v found goes in
                  inl (taken, (table', next.1, rw (response_received, h, found, e) e', v'))
              | inr refused ↦
                  let e = entry_response_received-unexpected ack id entry waits refused in
                  inr (refused, rw (response_received, h, found, e))
            ],
          )
    ]

-- At a table whose entries wait under their own identifiers, the timer of any publication expires:
-- this is handled and the table stays so.
pub tx_timeout_expired_lem :
    (max_retries id : ℕ) (table : TxInFlight)
    → IsValid table
    → (table' : TxInFlight) × (effects : List Effect) × (timeout_expired max_retries id table
        ≡ ok (table', effects))
      × IsValid table'
unfolding timeout_expired
tx_timeout_expired_lem max_retries id table v =
    elim (Option-cases (find_key id table.publications)) [
      | inl absent ↦ (table, [], rw (timeout_expired, absent), v)
      | inr (entry, found) ↦
          let waits = find_key-Entries EntryWaiting id entry table.publications v found in
          let (next, e, goes) = entry_timeout_expired-Goes max_retries id entry waits in
          let (table', e', v') = update_entry-Goes id table entry next v found goes in
          (table', next.1, rw (timeout_expired, found, e) e', v')
    ]
