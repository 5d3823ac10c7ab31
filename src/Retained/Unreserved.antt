-- ===== src/Retained/Unreserved.antt =====
-- No subscription with the reserved QoS, no retained message resolved with it
-- (dispatch/retained_messages.cpp).
use wally_io.Prelude.{◌≢◌, Bytes, List, [], ◌∷◌, All, Named}
use wally_io.Protocol.{reserved}
use wally_io.Packet.{Subscription}
use wally_io.Subscriptions.Unreserved.{unreserved-resolve_all}
use wally_io.Retained.{RetainedMessages, ResolvedPublish, resolve_messages}
use wally_io.Retained.Matching.{topics, containers, topics-resolve_subscriptions}
use wally_io.Retained.Store.{IsRetained}

unreserved-containers :
    (topic : Bytes) (subs : List Subscription)
    → All (λ s. s.maximum_qos ≢ reserved) subs
    → All (λ s. s.maximum_qos ≢ reserved) (containers topic subs)
unreserved-containers topic [] h = tt
unreserved-containers topic (s ∷ subs) (h, hs) = (h, unreserved-containers topic subs hs)

pub unreserved-topics :
    (resolved : List ResolvedPublish)
    → All (λ r. r.1 ≢ reserved) (topics resolved)
    → All (λ r. r.1 ≢ reserved) resolved
unreserved-topics [] h = tt
unreserved-topics ((p, q) ∷ resolved) (h, hs) = (h, unreserved-topics resolved hs)

pub unreserved-resolve_messages :
    (messages : RetainedMessages) (subs : List Subscription) (resolved : List ResolvedPublish)
    → Named IsRetained messages
    → All (λ s. s.maximum_qos ≢ reserved) subs
    → All (λ r. r.1 ≢ reserved) (topics resolved)
    → All (λ r. r.1 ≢ reserved) (topics (resolve_messages messages subs resolved))
unfolding resolve_messages
unreserved-resolve_messages [] subs resolved v m h = h
unreserved-resolve_messages ((topic, p) ∷ messages) subs resolved (fresh, own, v) m h =
    let greatest =
      unreserved-resolve_all topic (containers topic subs) (topics resolved)
        (unreserved-containers topic subs m) h in
    unreserved-resolve_messages messages subs _ v m
      (rw (topics-resolve_subscriptions topic p subs resolved own.0) greatest)
