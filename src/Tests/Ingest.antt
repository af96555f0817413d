-- ===== src/Tests/Ingest.antt =====
-- backend/app/services/conversation.py on concrete messages.
use wecom_ai_agent.Prelude.{◌+◌, ◌⊎◌, ◌≡◌, refl, true, false, some, [], ◌∷◌, length, Member}
use wecom_ai_agent.Prelude.Order.{order_by}
use wecom_ai_agent.Prelude.Text.{Text, codes, text_eq}
use wecom_ai_agent.Store.{Message, Feedback, MessageStatus, Db}
use wecom_ai_agent.Ingest.{
  same_normal, looks_like_same_long_message, normalize_message_content, is_cross_channel_replay,
  is_recent_inbound, minutes, source_from_external_msg_id, before_colon, source_of_prefix,
  is_other_channel, newest,
}
use wecom_ai_agent.Ingest.SameText.{looks_like_same_long_message_comm}
use wecom_ai_agent.Ingest.Replay.{AreChannels, is_cross_channel_replay_lem}
use wecom_ai_agent.Ingest.Harvest.{
  harvest_task, queue_chat_harvest, has_active_conversation_list_harvest, queue_chat_harvest_lem,
}
use wecom_ai_agent.Tests.Data.{settings, robot, conversation, inbound, outbound, db_of}

abbrev short : Text
short = codes " 1  2 "

abbrev long : Text
long = codes "0123456789 0123456789 0123456789 0123456789 and more"

looks_like_same_long_message_comm_example :
    looks_like_same_long_message short long ≡ looks_like_same_long_message long short
looks_like_same_long_message_comm_example = looks_like_same_long_message_comm short long

-- A clipped copy of a long text counts as the text; a short prefix does not.
clipped :
    looks_like_same_long_message (codes "0123456789 0123456789 0123456789 0123456789") long ≡ true
unfolding looks_like_same_long_message normalize_message_content same_normal
clipped = refl

not_clipped : looks_like_same_long_message (codes "1") (codes "12") ≡ false
unfolding looks_like_same_long_message normalize_message_content same_normal
not_clipped = refl

abbrev notified : Message
notified = record (inbound 1 (some Feedback.pending)) { external_msg_id = some (codes "notif:17") }

abbrev replay_db : Db
replay_db = db_of [] (notified ∷ outbound MessageStatus.sent ∷ [])

is_cross_channel_replay_lem_example :
    (m : Message) × Member m replay_db.messages
    × (is_recent_inbound 1 (codes "hello") (minutes 5) 1000 m ≡ true)
    × AreChannels
        (source_from_external_msg_id (some (codes "a11y:stable3")))
        (source_from_external_msg_id m.external_msg_id)
unfolding is_cross_channel_replay newest order_by is_recent_inbound is_other_channel
    source_from_external_msg_id before_colon source_of_prefix text_eq
is_cross_channel_replay_lem_example =
    is_cross_channel_replay_lem replay_db 1 (codes "hello") 1000 (some (codes "a11y:stable3")) refl

-- A harvest of the conversation is queued.
abbrev harvesting_db : Db
harvesting_db =
    db_of (harvest_task robot (conversation 1) (codes "Ann") (codes "hi") 3 replay_db ∷ []) []

queue_chat_harvest_lem_example :
    let call =
      queue_chat_harvest
        (λ s. s)
        settings
        robot
        (conversation 1)
        (codes "Ann")
        (codes "hi")
        3
        harvesting_db in
    ((has_active_conversation_list_harvest harvesting_db 1 1 ≡ true)
      × (call ≡ (harvesting_db, true)))
    ⊎ ((has_active_conversation_list_harvest harvesting_db 1 1 ≡ false)
        × (length call.0.tasks ≡ length harvesting_db.tasks + 1))
queue_chat_harvest_lem_example =
    queue_chat_harvest_lem (λ s. s) settings robot (conversation 1) (codes "Ann") (codes "hi") 3
      harvesting_db
