-- ===== src/Topic.antt =====
-- Topic names and topic filters: the checks of protocol/subscription.hpp and
-- codec/publish_packet_decoder.hpp, and topic_filter_matches_topic of dispatch/common.cpp.
pub mod Matching
use wally_io.Prelude.{
  ℕ, Bytes, [], ◌∷◌, Bool, true, false, ◌&&◌, ◌||◌, not, ltb, ◌==◌, length, if◌then◌else◌, Option,
  none, some, Result, ok, err, ◌>>◌, throw_if, Reason, malformed, topic_empty, topic_too_long,
  topic_null, topic_plus, topic_hash, filter_4_7_3_1, filter_4_7_3_2, filter_4_7_3_3,
  filter_4_7_1_1, filter_4_7_1_2, filter_4_7_1_3,
}

-- The loop of `subscription::assert_well_formed_topic_filter`: the first fault, if there is one.
-- At the start `previous_char` is EMPTY, which is '\0'.
unfoldable pub filter_fault : ℕ → Bytes → Option Reason
filter_fault previous_char [] = none
filter_fault previous_char (cur_char ∷ rest) =
    let next = filter_fault cur_char rest in
    if cur_char == 0
    then some filter_4_7_3_2
    else if previous_char == b'#'
    then some filter_4_7_1_2
    else if cur_char == b'+' && (not (previous_char == 0) && not (previous_char == b'/'))
    then some filter_4_7_1_1
    else if cur_char == b'#' && (not (previous_char == 0) && not (previous_char == b'/'))
    then some filter_4_7_1_2
    else if not (cur_char == b'/')
        && (not (cur_char == b'+')
            && (not (cur_char == b'#') && (previous_char == b'+' || previous_char == b'#')))
    then some filter_4_7_1_3
    else next

abbrev pub fault_to_result : Option Reason → Result (Unit {0})
fault_to_result none = ok tt
fault_to_result (some reason) = err (malformed reason)

unfoldable pub assert_well_formed_topic_filter : Bytes → Result (Unit {0})
assert_well_formed_topic_filter topic_filter =
    if ltb (length topic_filter) 1
    then err (malformed filter_4_7_3_1)
    else if ltb 65535 (length topic_filter)
    then err (malformed filter_4_7_3_3)
    else fault_to_result (filter_fault 0 topic_filter)

-- `std::string::find( c ) != npos`
unfoldable pub contains : ℕ → Bytes → Bool
contains c [] = false
contains c (b ∷ bs) = b == c || contains c bs

unfoldable pub check_well_formed_topic_name : Bytes → Result (Unit {0})
check_well_formed_topic_name topic_name =
    throw_if (length topic_name == 0) topic_empty
    >> (throw_if (ltb 65535 (length topic_name)) topic_too_long
        >> (throw_if (contains 0 topic_name) topic_null
            >> (throw_if (contains b'+' topic_name) topic_plus
                >> throw_if (contains b'#' topic_name) topic_hash)))

-- `while ( ( topic[t_idx] != '/' ) && ( t_idx < topic.length( ) ) ) ++t_idx;` on the rest of the topic.
unfoldable pub skip_level : Bytes → Bytes
skip_level [] = []
skip_level (t_char ∷ topic) = if t_char == b'/' then t_char ∷ topic else skip_level topic

-- `topic_filter.compare( topic_filter.length( ) - 2, 2, "/#" ) == 0`, of a filter of two
-- characters at least.
unfoldable pub ends_in_slash_hash : Bytes → Bool
ends_in_slash_hash [] = false
ends_in_slash_hash (a ∷ []) = false
ends_in_slash_hash (a ∷ b ∷ []) = a == b'/' && b == b'#'
ends_in_slash_hash (a ∷ b ∷ c ∷ rest) = ends_in_slash_hash (b ∷ c ∷ rest)

-- The while loop, on what the indices have not passed of the filter and of the topic, with the
-- tests behind it. Each round takes a character off the filter. `special` says whether the whole
-- filter ends in "/#".
unfoldable pub match_from : Bool → Bytes → Bytes → Bool
match_from special [] [] = true
match_from special [] (t_char ∷ topic) = false
match_from special (tf_char ∷ []) [] = false
match_from special (tf_char ∷ next ∷ filter) [] = special
match_from special (tf_char ∷ filter) (t_char ∷ topic) =
    let behind_level = if t_char == b'/' then t_char ∷ topic else skip_level (t_char ∷ topic) in
    let single = match_from special filter behind_level in
    let regular = match_from special filter topic in
    if tf_char == b'+'
    then single
    else if tf_char == b'#'
    then true
    else if not (t_char == tf_char)
    then false
    else regular

-- The source throws std::out_of_range for the empty filter, which `subscription` refuses.
unfoldable pub topic_filter_matches_topic : Bytes → Bytes → Bool
topic_filter_matches_topic topic_filter topic =
    match_from (ends_in_slash_hash topic_filter) topic_filter topic
