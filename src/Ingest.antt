-- ===== src/Ingest.antt =====
-- backend/app/services/conversation.py: how an observed message is recognised as one that is stored
-- already. Times are in milliseconds.
pub mod SameText
pub mod Noise
pub mod Replay
pub mod Harvest
pub mod Observed
pub mod Inbound
use wecom_ai_agent.Prelude.{
  ℕ, ◌+◌, ◌*◌, Bool, true, false, Option, none, some, List, [], ◌∷◌, ◌++◌, ◌==◌, ◌&&◌, ◌||◌, not,
  ltb, leb, if◌then◌else◌, is_empty, any, keep, take, length, reverse_onto,
}
use wecom_ai_agent.Prelude.Order.{order_by}
use wecom_ai_agent.Prelude.Text.{Text, codes, text_eq, is_space, strip, starts_with}
use wecom_ai_agent.Store.{Message, Direction, Db}
use wecom_ai_agent.SendOrchestrator.{is_inbound, is_customer}

-- `s.split()`, after the part `word` of a word
unfoldable pub split_from : Text → Text → List Text
unfolding is_space
split_from word [] = if is_empty word then [] else word ∷ []
split_from word (c ∷ s) =
    let rest = split_from [] s in
    let longer = split_from (word ++ c ∷ []) s in
    if is_space c then (if is_empty word then rest else word ∷ rest) else longer

-- `" ".join(words)`
unfoldable pub join_words : List Text → Text
join_words [] = []
join_words (w ∷ []) = w
join_words (w ∷ v ∷ ws) = w ++ (codes " " ++ join_words (v ∷ ws))

-- `_normalize_message_content`
unfoldable pub normalize_message_content : Text → Text
unfolding split_from join_words strip
normalize_message_content content = join_words (split_from [] (strip content))

-- The comparison of two texts in normal form.
unfoldable pub same_normal : Text → Text → Bool
unfolding text_eq starts_with
same_normal left right =
    if is_empty left || is_empty right
    then false
    else if text_eq left right
    then true
    else if leb (length left) (length right)
    then leb 40 (length left) && starts_with left right
    else leb 40 (length right) && starts_with right left

-- `_looks_like_same_long_message`
unfoldable pub looks_like_same_long_message : Text → Text → Bool
looks_like_same_long_message a b =
    same_normal (normalize_message_content a) (normalize_message_content b)

abbrev pub minutes : ℕ → ℕ
minutes n = n * 60000

-- `Message.created_at > now - window`
abbrev pub is_within : ℕ → ℕ → Message → Bool
is_within window now m = ltb now (m.created_at + window)

-- `order_by(created_at.desc()).limit(n)`
unfoldable pub newest : ℕ → List Message → List Message
newest n ms = take n (reverse_onto [] (order_by (λ (m : Message). m.created_at ∷ []) ms))

abbrev pub is_recent_outbound : ℕ → ℕ → Message → Bool
is_recent_outbound conv_id now m =
    (m.conversation_id == conv_id) && (not (is_inbound m.direction) && is_within (minutes 3) now m)

-- `_has_recent_outbound_same_content`
unfoldable pub has_recent_outbound_same_content : Db → ℕ → Text → ℕ → Bool
has_recent_outbound_same_content db conv_id content now =
    any (λ m. looks_like_same_long_message m.content content)
      (newest 20 (keep (is_recent_outbound conv_id now) db.messages))

-- The prefix of an external message id, of the three that are known.
pub data Source : Type 0 where
  notif a11y a11y_self : Source

-- `s.split(":", 1)[0]`, if there is a colon
unfoldable pub before_colon : Text → Option Text
before_colon [] = none
before_colon (c ∷ s) = if c == 58 then some [] else cons_if c (before_colon s)
  where
    cons_if : ℕ → Option Text → Option Text
    cons_if x none = none
    cons_if x (some t) = some (x ∷ t)

unfoldable pub source_of_prefix : Option Text → Option Source
source_of_prefix none = none
source_of_prefix (some s) =
    if text_eq s (codes "notif")
    then some Source.notif
    else if text_eq s (codes "a11y")
    then some Source.a11y
    else if text_eq s (codes "a11y-self")
    then some Source.a11y_self
    else none

-- `_source_from_external_msg_id`
unfoldable pub source_from_external_msg_id : Option Text → Option Source
source_from_external_msg_id none = none
source_from_external_msg_id (some id) = source_of_prefix (before_colon id)

abbrev pub same_source : Source → Source → Bool
same_source Source.notif Source.notif = true
same_source Source.a11y Source.a11y = true
same_source Source.a11y_self Source.a11y_self = true
same_source _ _ = false

-- The customer's messages of the conversation with this content, in the window.
unfoldable pub is_recent_inbound : ℕ → Text → ℕ → ℕ → Message → Bool
is_recent_inbound conv_id content window now m =
    (m.conversation_id == conv_id)
    && (is_inbound m.direction
        && (is_customer m.sender_type && (text_eq m.content content && is_within window now m)))

unfoldable pub differs : Option Source → Option Source → Bool
differs (some a) (some b) = not (same_source a b)
differs _ _ = true

-- `_has_recent_inbound_same_content`. The query has LIMIT 1 and no order: which row the database
-- gives is the argument `limit_one`.
unfoldable pub has_recent_inbound_same_content :
    (List Message → Option Message) → Db → ℕ → Text → ℕ → Option Text → ℕ → Bool
has_recent_inbound_same_content limit_one db conv_id content now external_msg_id window =
    elim (limit_one (keep (is_recent_inbound conv_id content window now) db.messages)) [
      | none ↦ false
      | some m ↦
          differs (source_from_external_msg_id external_msg_id)
            (source_from_external_msg_id m.external_msg_id)
    ]

-- One of the two channels, "a11y" or "notif", against the other.
unfoldable pub is_other_channel : Option Source → Option Source → Bool
is_other_channel (some Source.a11y) (some Source.notif) = true
is_other_channel (some Source.notif) (some Source.a11y) = true
is_other_channel _ _ = false

-- `_is_cross_channel_replay`
unfoldable pub is_cross_channel_replay : Db → ℕ → Text → ℕ → Option Text → Bool
is_cross_channel_replay db conv_id content now external_msg_id =
    any
      (λ m.
        is_other_channel (source_from_external_msg_id external_msg_id)
          (source_from_external_msg_id m.external_msg_id))
      (newest 10 (keep (is_recent_inbound conv_id content (minutes 5) now) db.messages))
