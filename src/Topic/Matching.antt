-- ===== src/Topic/Matching.antt =====
-- Which topics a filter matches (topic_filter_matches_topic of dispatch/common.cpp).
use wally_io.Prelude.{
  ℕ, ◌≡◌, refl, Bytes, [], ◌∷◌, ◌++◌, append_assoc, Bool, true, false, ◌==◌, same_bytes, arith,
}
use wally_io.Topic.{ends_in_slash_hash, match_from, topic_filter_matches_topic}

-- No character of it is a wildcard.
abbrev pub IsPlain : Bytes → Type 0
IsPlain [] = Unit {0}
IsPlain (c ∷ f) = ((c == b'+') ≡ false) × ((c == b'#') ≡ false) × IsPlain f

abbrev pub slash_hash : Bytes
slash_hash = b'/' ∷ b'#' ∷ []

ends_in_slash_hash-IsPlain : (f : Bytes) → IsPlain f → ends_in_slash_hash f ≡ false
unfolding ends_in_slash_hash
ends_in_slash_hash-IsPlain [] p = refl
ends_in_slash_hash-IsPlain (a ∷ []) p = refl
ends_in_slash_hash-IsPlain (a ∷ b ∷ []) (_, _, (_, hash, _)) = ground (arith, hash)
ends_in_slash_hash-IsPlain (a ∷ b ∷ c ∷ f) (_, _, p) = ends_in_slash_hash-IsPlain (b ∷ c ∷ f) p

match_from-IsPlain : (f t : Bytes) → IsPlain f → match_from false f t ≡ same_bytes f t
unfolding match_from
match_from-IsPlain [] [] p = refl
match_from-IsPlain [] (c ∷ t) p = refl
match_from-IsPlain (c ∷ []) [] p = refl
match_from-IsPlain (c ∷ d ∷ f) [] p = refl
match_from-IsPlain (c ∷ f) (d ∷ t) (plus, hash, p) =
    ground (arith, plus, hash, match_from-IsPlain f t p)

-- A filter without wildcards matches the topic that it spells, and no other.
pub topic_filter_matches_topic-IsPlain :
    (f t : Bytes) → IsPlain f → topic_filter_matches_topic f t ≡ same_bytes f t
unfolding topic_filter_matches_topic
topic_filter_matches_topic-IsPlain f t p =
    rw (ends_in_slash_hash-IsPlain f p) (match_from-IsPlain f t p)

ends_in_slash_hash-append : (f : Bytes) → ends_in_slash_hash (f ++ slash_hash) ≡ true
unfolding ends_in_slash_hash
ends_in_slash_hash-append [] = refl
ends_in_slash_hash-append (a ∷ []) = refl
ends_in_slash_hash-append (a ∷ b ∷ []) = refl
ends_in_slash_hash-append (a ∷ b ∷ c ∷ f) = ends_in_slash_hash-append (b ∷ c ∷ f)

match_from-prefix :
    (t f : Bytes) (a b : ℕ) → IsPlain t → match_from true (t ++ (f ++ (a ∷ b ∷ []))) t ≡ true
unfolding match_from
match_from-prefix [] [] a b p = refl
match_from-prefix [] (c ∷ []) a b p = refl
match_from-prefix [] (c ∷ d ∷ f) a b p = refl
match_from-prefix (c ∷ t) f a b (plus, hash, p) =
    ground (arith, plus, hash, match_from-prefix t f a b p)

match_from-below :
    (special : Bool) (t rest : Bytes) (c : ℕ)
    → IsPlain t
    → match_from special (t ++ slash_hash) (t ++ (b'/' ∷ c ∷ rest)) ≡ true
unfolding match_from
match_from-below special [] rest c p = refl
match_from-below special (d ∷ t) rest c (plus, hash, p) =
    ground (arith, plus, hash, match_from-below special t rest c p)

match_from-empty_level :
    (special : Bool) (t : Bytes)
    → IsPlain t
    → match_from special (t ++ slash_hash) (t ++ (b'/' ∷ [])) ≡ false
unfolding match_from
match_from-empty_level special [] p = refl
match_from-empty_level special (d ∷ t) (plus, hash, p) =
    ground (arith, plus, hash, match_from-empty_level special t p)

-- For a topic `t` without wildcards: the filter `t/#` matches what is below `t`, unless that is one
-- empty level; and `t` itself is matched by every filter that begins with it and ends in `/#`, its
-- own `t/#` and any longer one.
pub topic_filter_matches_topic-hash :
    (t u rest : Bytes) (c : ℕ)
    → IsPlain t
    → (topic_filter_matches_topic (t ++ slash_hash) (t ++ (b'/' ∷ c ∷ rest)) ≡ true)
      × (topic_filter_matches_topic (t ++ slash_hash) (t ++ (b'/' ∷ [])) ≡ false)
      × (topic_filter_matches_topic (t ++ (u ++ slash_hash)) t ≡ true)
unfolding topic_filter_matches_topic
topic_filter_matches_topic-hash t u rest c p =
    let special : ends_in_slash_hash (t ++ (u ++ slash_hash)) ≡ true =
      rw (← append_assoc t u slash_hash) (ends_in_slash_hash-append (t ++ u)) in
    (
      match_from-below _ t rest c p,
      match_from-empty_level _ t p,
      rw special (match_from-prefix t u b'/' b'#' p),
    )
