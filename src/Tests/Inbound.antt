-- ===== src/Tests/Inbound.antt =====
-- backend/app/services/conversation.py, `ingest_inbound_message`, on concrete messages.
use wecom_ai_agent.Prelude.{
  List, map, ◌++◌, ap, ◌≡◌, refl, true, false, Option, none, some, [], ◌∷◌, ◌&&◌, not, any, head,
  arith, if◌then◌else◌,
}
use wecom_ai_agent.Prelude.Text.{Text, codes}
use wecom_ai_agent.Store.{Conversation, Message, Db, Sender, Feedback, get_conversation}
use wecom_ai_agent.AutoReply.{is_candidate, is_active_reply, answers}
use wecom_ai_agent.Ingest.Noise.{
  clean_content, is_time_only, is_bot_echo, is_wecom_system_message, placeholder_type,
}
use wecom_ai_agent.Ingest.Harvest.{has_active_conversation_list_harvest}
use wecom_ai_agent.Ingest.Observed.{AndroidMessageReceived, Observation, Completeness}
use wecom_ai_agent.Ingest.Inbound.{
  Ingested, rejected, stored, committed, ingest_inbound_message, message_received,
}
use wecom_ai_agent.Ingest.Noise.{is_unreliable_contact}
use wecom_ai_agent.Ingest.Inbound.{
  with_rows, accept_message, identify, is_noise, needs_harvest, is_replay, store_message,
  breaks_unique, new_message, effective_type, after_commit, wakes_reply, insert_message, touched,
  age_check,
}
use wecom_ai_agent.Ingest.Observed.{find_or_create_conversation, upsert_contact}
use wecom_ai_agent.Ingest.{
  is_cross_channel_replay, newest, has_recent_inbound_same_content, is_recent_inbound,
}
use wecom_ai_agent.Prelude.Order.{order_by}
use wecom_ai_agent.AutoReply.Turn.{schedule_refresh}
use wecom_ai_agent.Ingest.Harvest.{active_goals}
use wecom_ai_agent.Ingest.Inbound.Rows.{IsSound}
use wecom_ai_agent.Ingest.Inbound.Delivery.{Step, view, message_received-refines}
use wecom_ai_agent.Ingest.Inbound.Once.{Follows, ingest-ingest}
use wecom_ai_agent.Ingest.Inbound.Wakes.{stored-wakes}
use wecom_ai_agent.Tests.Data.{settings, robot, inbound, db_of}

abbrev observed : Option Text → Text → AndroidMessageReceived
observed id content = record {
  contact = record { external_id = codes "u1"; nickname = codes "Ann"; avatar = none };
  external_msg_id = id;
  type = "text";
  content = content;
  media_json = none;
  sender_type = Sender.customer;
  observation_source = some Observation.chat_message_bubble;
  completeness = some Completeness.complete;
  unread_count = none;
}

abbrev empty_db : Db
empty_db = db_of [] []

empty_db-IsSound : IsSound empty_db
empty_db-IsSound = ground arith

abbrev ingest : AndroidMessageReceived → Db → Ingested
ingest evt db = ingest_inbound_message (λ s. s) head settings robot evt db

abbrev message_of : Ingested → Message
message_of (stored m db) = m
message_of _ = inbound 0 none

prefix_off : clean_content (codes " [ 2 条 ]  hi ") ≡ codes "hi"
unfolding clean_content
prefix_off = refl

time_only : is_time_only (codes "下午 3:07") ≡ true
unfolding is_time_only
time_only = refl

not_time_only : is_time_only (codes "at 3:07") ≡ false
unfolding is_time_only
not_time_only = refl

weekly : is_wecom_system_message (codes "Ann") (codes "请查收你的企业微信本周小结") ≡ true
unfolding is_wecom_system_message
weekly = refl

abbrev first_evt : AndroidMessageReceived
first_evt = observed (some (codes "notif:1")) (codes "[2条] hi")

abbrev first_result : Ingested
first_result = ingest first_evt empty_db

stored_first :
    (first_result ≡ stored (message_of first_result) (committed first_result empty_db))
    × ((message_of first_result).external_msg_id ≡ some (codes "notif:1"))
unfolding ingest_inbound_message clean_content is_unreliable_contact with_rows accept_message
    identify find_or_create_conversation upsert_contact is_noise is_time_only is_bot_echo
    is_wecom_system_message needs_harvest is_replay is_cross_channel_replay newest order_by
    has_recent_inbound_same_content store_message breaks_unique new_message effective_type
    placeholder_type after_commit wakes_reply insert_message touched schedule_refresh
    has_active_conversation_list_harvest active_goals is_recent_inbound age_check
stored_first = (refl, refl)

abbrev unnamed_evt : AndroidMessageReceived
unnamed_evt = observed (some []) (codes "hi")

-- A message with the empty external id is there.
abbrev unnamed_db : Db
unnamed_db =
    db_of [] (record (inbound 1 (some Feedback.replied)) { external_msg_id = some [] } ∷ [])

message_received-refines_example :
    IsSound (message_received (λ s. s) head settings 1 first_evt empty_db)
    × Step first_evt
        (view empty_db)
        (view (message_received (λ s. s) head settings 1 first_evt empty_db))
message_received-refines_example =
    message_received-refines (λ s. s) head settings 1 first_evt empty_db empty_db-IsSound

-- The same bubble, read again after three minutes.
abbrev second_evt : AndroidMessageReceived
second_evt = observed (some (codes "notif:1")) (codes "hi")

abbrev first_db : Db
first_db = committed first_result empty_db

-- The message has been answered by then, and the answer is in the table.
abbrev answered : Message → Message
answered m = record m { feedback_status = some Feedback.replied }

abbrev second_db : Db
second_db = record first_db {
  messages = map answered first_db.messages ++ inbound 2 none ∷ [];
  now = 181000;
}

second_db-Follows : Follows first_db second_db
second_db-Follows = record {
  contact = λ c. c;
  more_contacts = [];
  contacts = same_rows first_db.contacts;
  same_contact = λ c. (refl, refl, refl);
  conversation = λ c. c;
  more_conversations = [];
  conversations = same_rows first_db.conversations;
  same_conversation = λ c. (refl, refl, refl);
  message = answered;
  more_messages = inbound 2 none ∷ [];
  messages = refl;
  same_message = λ m. (refl, refl, refl);
}
  where
    same_rows : {A : Type 0} (xs : List A) → xs ≡ map (λ x. x) xs ++ []
    same_rows [] = refl
    same_rows (x ∷ xs) = ap (λ r. x ∷ r) (same_rows xs)

ingest-ingest_example : ingest second_evt second_db ≡ rejected
ingest-ingest_example =
    ingest-ingest (λ s. s) head settings robot first_evt second_evt empty_db
      (message_of first_result) first_db second_db (codes "notif:1") empty_db-IsSound stored_first.0
      refl stored_first.1 refl second_db-Follows refl refl (omega arith)

stored-wakes_example :
    (conv : Conversation) × (get_conversation
        (committed first_result empty_db)
        (message_of first_result).conversation_id
      ≡ some conv)
    × (is_candidate (committed first_result empty_db) 1 conv ≡ (
        answers conv.mode
        && not (any (is_active_reply conv.id) (committed first_result empty_db).tasks)))
    × ((committed first_result empty_db).reply_wakes ≡ (
        if settings.auto_reply_enabled
          && (not (has_active_conversation_list_harvest (committed first_result empty_db) 1 conv.id)
              && answers conv.mode)
        then 1 ∷ []
        else []))
stored-wakes_example =
    stored-wakes (λ s. s) head settings robot first_evt empty_db (message_of first_result)
      (committed first_result empty_db) empty_db-IsSound refl stored_first.0
