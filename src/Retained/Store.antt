-- ===== src/Retained/Store.antt =====
-- The retained messages against a function from the topics (dispatch/retained_messages.cpp).
use wally_io.Prelude.{
  ◌≡◌, refl, ap, ◌∙◌, inl, inr, Bytes, List, [], ◌∷◌, true, ltb, length, Bool-cases, if◌then◌else◌,
  Option, none, some, Result, ok, ◌>>=◌, same_bytes, find_name, put_name, erase_name, Named,
  find_name-put, find_name-erase, Named-put, Named-erase, All,
}
use wally_io.Packet.{Publish}
use wally_io.Packet.PublishPacket.{retain}
use wally_io.Retained.{RetainedMessages, retain_message}

-- Each topic once, with a message that is its own, has the RETAIN flag and is not empty.
abbrev pub IsRetained : Bytes → Publish → Type 0
IsRetained topic p =
    (p.topic ≡ topic) × (retain p ≡ true) × (ltb 0 (length p.application_message) ≡ true)

-- A run of `retained_messages::retain`.
unfoldable pub retain_all : List Publish → RetainedMessages → Result RetainedMessages
retain_all [] messages = ok messages
retain_all (p ∷ ps) messages = retain_message p messages >>= retain_all ps

-- What is retained for one topic, whatever the table: the last message published there, unless it
-- was empty.
abbrev pub latest : Bytes → List Publish → Option Publish → Option Publish
latest topic [] retained = retained
latest topic (p ∷ ps) retained = latest topic ps (
    if same_bytes p.topic topic
    then if ltb 0 (length p.application_message) then some p else none
    else retained)

pub retain_message-Named :
    (p : Publish) (messages : RetainedMessages)
    → retain p ≡ true
    → Named IsRetained messages
    → (messages' : RetainedMessages) × (retain_message p messages ≡ ok messages')
      × Named IsRetained messages'
      × ((topic : Bytes)
          → find_name topic messages' ≡ (
              if same_bytes p.topic topic
              then if ltb 0 (length p.application_message) then some p else none
              else find_name topic messages))
unfolding retain_message
retain_message-Named p messages r v = elim (Bool-cases (ltb 0 (length p.application_message))) [
  | inl there ↦ (
    put_name p.topic p messages,
    rw (retain_message, r, there),
    Named-put IsRetained p.topic p messages (refl, r, there) v,
    λ topic. rw there (find_name-put p.topic topic p messages),
  )
  | inr empty ↦ (
    erase_name p.topic messages,
    rw (retain_message, r, empty),
    Named-erase IsRetained p.topic messages v,
    λ topic. rw empty (find_name-erase p.topic topic messages),
  )
]

-- A run of PUBLISH packets that have the RETAIN flag, from a table that holds each topic once with
-- a nonempty message of its own: no assertion fails, the table stays so, and what it holds for any
-- topic is the last message of the run on that topic, nothing if that one was empty, and what it
-- was if there was none.
pub retain_all_lem :
    (ps : List Publish) (messages : RetainedMessages)
    → All (λ p. retain p ≡ true) ps
    → Named IsRetained messages
    → (messages' : RetainedMessages) × (retain_all ps messages ≡ ok messages')
      × Named IsRetained messages'
      × ((topic : Bytes) → find_name topic messages' ≡ latest topic ps (find_name topic messages))
unfolding retain_all
retain_all_lem [] messages r v = (messages, refl, v, λ topic. refl)
retain_all_lem (p ∷ ps) messages (r, rs) v =
    let (next, e, v', found) = retain_message-Named p messages r v in
    let (last, e', v'', found') = retain_all_lem ps next rs v' in
    (last, rw (retain_all, e) e', v'', λ topic. found' topic ∙ ap (latest topic ps) (found topic))
