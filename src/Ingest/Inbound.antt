-- ===== src/Ingest/Inbound.antt =====
-- backend/app/services/conversation.py, `ingest_inbound_message`, with the session that its caller in
-- backend/app/ws/android.py opens for it: what is not committed when it returns is rolled back.
pub mod Rows
pub mod Delivery
pub mod Outcome
pub mod StoredRows
pub mod Once
pub mod Wakes
use wecom_ai_agent.Prelude.{
  ℕ, zero, suc, ◌+◌, ◌*◌, Bool, true, false, Option, none, some, List, [], ◌∷◌, ◌++◌, ◌==◌, ◌&&◌,
  ◌||◌, not, String, str_eq, ltb, leb, if◌then◌else◌, or_else, is_some, is_empty, any, first,
}
use wecom_ai_agent.Prelude.Text.{Text, codes, text_eq, strip}
use wecom_ai_agent.Prelude.Table.{update}
use wecom_ai_agent.Store.{
  Robot, Contact, Conversation, Message, Media, Mode, Direction, Sender, Feedback, Settings, Event,
  Db, contact_key, conversation_key, get_robot, emit,
}
use wecom_ai_agent.SendOrchestrator.{is_customer}
use wecom_ai_agent.AutoReply.{is_id, answers}
use wecom_ai_agent.AutoReply.Turn.{schedule_refresh}
use wecom_ai_agent.Ingest.{
  minutes, has_recent_outbound_same_content, has_recent_inbound_same_content,
  is_cross_channel_replay,
}
use wecom_ai_agent.Ingest.Observed.{
  AndroidContact, Observation, Completeness, AndroidMessageReceived, from_customer, contact_name,
  is_contact, is_conversation, new_contact, renamed, upsert_contact, new_conversation,
  find_or_create_conversation,
}
use wecom_ai_agent.Ingest.Noise.{
  clean_content, is_one_of, is_unreliable_contact, is_time_only, is_bot_echo,
  is_wecom_system_message, placeholder_type,
}
use wecom_ai_agent.Ingest.Harvest.{queue_chat_harvest, has_active_conversation_list_harvest}

abbrev pub is_text : Option Text → Text → Bool
is_text none s = false
is_text (some t) s = text_eq t s

abbrev pub has_external_id : ℕ → Text → Message → Bool
has_external_id conv_id id m = (m.conversation_id == conv_id) && is_text m.external_msg_id id

-- What the dedupe by `external_msg_id` says: the message is a duplicate, or it is stored with this id.
pub data Identity : Type 0 where
  duplicate : Identity
  stored_as : Option Text → Identity

unfoldable pub age_check : Text → ℕ → Option Message → Identity
age_check id now none = stored_as (some id)
age_check id now (some existing) =
    if leb now (existing.created_at + minutes 5) then duplicate else stored_as none

unfoldable pub identify : ℕ → Option Text → Db → Identity
unfolding age_check
identify conv_id none db = stored_as none
identify conv_id (some id) db =
    if is_empty id
    then stored_as (some id)
    else age_check id db.now (first (has_external_id conv_id id) db.messages)

-- A timestamp, an echo of our own template, or a notification of the platform.
unfoldable pub is_noise : AndroidMessageReceived → Text → Bool
is_noise evt cleaned =
    is_time_only cleaned
    || (from_customer evt
        && (is_bot_echo cleaned || is_wecom_system_message evt.contact.nickname cleaned))

abbrev pub is_preview : Option Observation → Bool
is_preview (some Observation.conversation_list_preview) = true
is_preview _ = false

abbrev pub is_preview_only : Option Completeness → Bool
is_preview_only (some Completeness.preview_only) = true
is_preview_only _ = false

unfoldable pub needs_harvest : AndroidMessageReceived → Bool
needs_harvest evt =
    from_customer evt
    && (is_preview evt.observation_source
        && (is_preview_only evt.completeness && ltb 1 (or_else evt.unread_count 0)))

-- The tests by content: of a replay for a customer, of an echo for our own side.
unfoldable pub is_replay :
    (List Message → Option Message)
    → Settings
    → AndroidMessageReceived
    → ℕ
    → Text
    → Option Text
    → Db
    → Bool
is_replay limit_one settings evt conv_id cleaned external_msg_id db =
    if from_customer evt
    then is_cross_channel_replay db conv_id cleaned db.now external_msg_id
      || (settings.inbound_content_dedupe_enabled
          && has_recent_inbound_same_content limit_one db conv_id cleaned db.now external_msg_id
              90000)
    else has_recent_outbound_same_content db conv_id cleaned db.now

unfoldable pub effective_type : AndroidMessageReceived → Text → String
effective_type evt cleaned =
    if from_customer evt && (str_eq evt.type "text" && not (is_some evt.media_json))
    then or_else (placeholder_type cleaned) evt.type
    else evt.type

unfoldable pub new_message : AndroidMessageReceived → ℕ → Text → Option Text → Db → Message
new_message evt conv_id cleaned external_msg_id db = record {
  id = db.next_message;
  conversation_id = conv_id;
  direction = if from_customer evt then Direction.inbound else Direction.outbound;
  sender_type = if from_customer evt then Sender.customer else Sender.human;
  sender_id = none;
  type = effective_type evt cleaned;
  content = cleaned;
  media_json = evt.media_json;
  status = none;
  feedback_status = if from_customer evt then some Feedback.pending else none;
  feedback_trace_id = none;
  feedback_at = none;
  feedback_reply_task_ids = none;
  external_msg_id = external_msg_id;
  task_id = none;
  created_at = db.now;
}

unfoldable pub touched : AndroidMessageReceived → Text → ℕ → Conversation → Conversation
touched evt cleaned now conv = record conv {
  unread_count = if from_customer evt then conv.unread_count + 1 else conv.unread_count;
  last_message_at = some now;
  last_message_preview = some cleaned;
}

-- The unique constraint on (conversation_id, external_msg_id); NULL is equal to nothing.
unfoldable pub breaks_unique : ℕ → Option Text → Db → Bool
breaks_unique conv_id none db = false
breaks_unique conv_id (some id) db = any (has_external_id conv_id id) db.messages

unfoldable pub insert_message : AndroidMessageReceived → Conversation → Text → Option Text → Db → Db
insert_message evt conv cleaned external_msg_id db = record db {
  messages = db.messages ++ new_message evt conv.id cleaned external_msg_id db ∷ [];
  next_message = suc db.next_message;
  conversations = update conversation_key conv.id (touched evt cleaned db.now) db.conversations;
}

abbrev pub wake_robot_of : Robot → Db → Db
wake_robot_of robot db = record db { reply_wakes = db.reply_wakes ++ robot.id ∷ [] }

-- Whether the stored message wakes the scheduler.
unfoldable pub wakes_reply : Settings → Robot → AndroidMessageReceived → Conversation → Db → Bool
wakes_reply settings robot evt conv db =
    settings.auto_reply_enabled
    && (from_customer evt
        && (not (has_active_conversation_list_harvest db robot.id conv.id) && answers conv.mode))

-- What follows the commit: two broadcasts, the wake and the refresh of the memory.
unfoldable pub after_commit :
    Settings → Robot → AndroidMessageReceived → Contact → Conversation → Message → Db → Db
after_commit settings robot evt contact conv msg db =
    let shown =
      emit (Event.conversation_updated robot.team_id conv)
        (emit (Event.message_new robot.team_id conv.id msg) db) in
    let woken =
      if wakes_reply settings robot evt conv db then wake_robot_of robot shown else shown in
    schedule_refresh settings contact conv woken

-- How a call ends. `rejected` is `None` with nothing committed, `harvested` is `None` after the commit
-- of a harvest, and `failed` is an error of the database in the commit.
pub data Ingested : Type 0 where
  rejected : Ingested
  harvested : Db → Ingested
  stored : Message → Db → Ingested
  failed : Ingested

unfoldable pub store_message :
    Settings
    → Robot
    → AndroidMessageReceived
    → Contact
    → Conversation
    → Text
    → Option Text
    → Db
    → Ingested
store_message settings robot evt contact conv cleaned external_msg_id db =
    if breaks_unique conv.id external_msg_id db
      || settings.refuses (new_message evt conv.id cleaned external_msg_id db)
    then failed
    else stored (new_message evt conv.id cleaned external_msg_id db) (
        after_commit settings robot evt contact (touched evt cleaned db.now conv)
          (new_message evt conv.id cleaned external_msg_id db)
          (insert_message evt conv cleaned external_msg_id db))

-- A harvest that is under way already commits nothing.
unfoldable pub harvest_first :
    (Text → Text) → Settings → Robot → AndroidMessageReceived → Conversation → Text → Db → Ingested
harvest_first repr settings robot evt conv cleaned db =
    if has_active_conversation_list_harvest db robot.id conv.id
    then rejected
    else harvested
        (queue_chat_harvest repr settings robot conv evt.contact.external_id cleaned
          (or_else evt.unread_count 0) db).0

-- From the dedupe by id on.
unfoldable pub accept_message :
    (Text → Text)
    → (List Message → Option Message)
    → Settings
    → Robot
    → AndroidMessageReceived
    → Contact
    → Conversation
    → Text
    → Db
    → Identity
    → Ingested
accept_message repr limit_one settings robot evt contact conv cleaned db duplicate = rejected
accept_message repr limit_one settings robot evt contact conv cleaned db (stored_as id) =
    if is_noise evt cleaned
    then rejected
    else if needs_harvest evt
    then harvest_first repr settings robot evt conv cleaned db
    else if is_replay limit_one settings evt conv.id cleaned id db
    then rejected
    else store_message settings robot evt contact conv cleaned id db

unfoldable pub with_rows :
    (Text → Text)
    → (List Message → Option Message)
    → Settings
    → Robot
    → AndroidMessageReceived
    → Text
    → Db × Contact
    → Ingested
with_rows repr limit_one settings robot evt cleaned (db, contact) =
    let (db', conv) = find_or_create_conversation robot contact db in
    accept_message repr limit_one settings robot evt contact conv cleaned db'
      (identify conv.id evt.external_msg_id db')

-- `ingest_inbound_message`; `repr` is Python's, `limit_one` a query's LIMIT 1 with no order.
unfoldable pub ingest_inbound_message :
    (Text → Text)
    → (List Message → Option Message)
    → Settings
    → Robot
    → AndroidMessageReceived
    → Db
    → Ingested
ingest_inbound_message repr limit_one settings robot evt db =
    if is_empty (clean_content evt.content) || is_unreliable_contact (contact_name evt.contact)
    then rejected
    else with_rows repr limit_one settings robot evt (clean_content evt.content)
        (upsert_contact robot evt.contact db)

-- The tables after the session has ended.
abbrev pub committed : Ingested → Db → Db
committed rejected db = db
committed (harvested db') db = db'
committed (stored m db') db = db'
committed failed db = db

-- The event "message.received" of `_handle_event`, for the robot with that key.
unfoldable pub message_received :
    (Text → Text)
    → (List Message → Option Message)
    → Settings
    → ℕ
    → AndroidMessageReceived
    → Db
    → Db
message_received repr limit_one settings robot_pk evt db = elim (get_robot db robot_pk) [
  | none ↦ db
  | some robot ↦ committed (ingest_inbound_message repr limit_one settings robot evt db) db
]
