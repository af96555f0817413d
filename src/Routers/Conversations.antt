-- ===== src/Routers/Conversations.antt =====
-- backend/app/routers/conversations.py: the handlers under /conversations. A handler maps the state to
-- the state and its response.
pub mod Links
pub mod Access
use wecom_ai_agent.Prelude.{
  ℕ, suc, String, Bool, true, false, Option, none, some, List, [], ◌∷◌, ◌++◌, ◌==◌, ◌&&◌, ◌||◌, not,
  ltb, leb, if◌then◌else◌, or_else, is_some, is_empty, any, keep, take, map, length, reverse_onto,
}
use wecom_ai_agent.Prelude.Order.{order_by}
use wecom_ai_agent.Prelude.Text.{Text, strip}
use wecom_ai_agent.Store.{
  Robot, Contact, Conversation, Message, RobotTask, RobotTaskLog, AiReplyLog, Media, Mode, Sender,
  Feedback, Settings, Event, Db, get_conversation as conversation_row, get_message, get_robot,
  get_contact, update_conversation, emit,
}
use wecom_ai_agent.SendOrchestrator.{is_inbound, is_customer}
use wecom_ai_agent.SendOrchestrator.Create.{
  Request, create_and_dispatch_send_text, create_and_dispatch_send_media,
}
use wecom_ai_agent.AutoReply.{is_id}
use wecom_ai_agent.Routers.{Response, respond, http_error, User}

-- The parameters of `list_conversations`
abbrev pub is_listed : User → Option ℕ → Bool → Conversation → Bool
is_listed user robot_id unread_only c =
    (c.team_id == user.team_id)
    && ((not (is_some robot_id) || is_id robot_id c.robot_id)
        && (not unread_only || ltb 0 c.unread_count))

-- ORDER BY last_message_at; NULL has the database's place.
abbrev pub activity_key : Bool → Conversation → List ℕ
activity_key nulls_first c = elim c.last_message_at [
  | none ↦ (if nulls_first then 0 else 1) ∷ 0 ∷ []
  | some t ↦ (if nulls_first then 1 else 0) ∷ t ∷ []
]

unfoldable pub list_conversations : Settings → User → Option ℕ → Bool → Db → List Conversation
list_conversations settings user robot_id unread_only db = take 200 (
    reverse_onto [] (
      order_by (activity_key settings.nulls_first)
        (keep (is_listed user robot_id unread_only) db.conversations)))

unfoldable pub check_team : ℕ → Option Conversation → Response Conversation
check_team team_id none = http_error 404 "conversation not found"
check_team team_id (some conv) =
    if conv.team_id == team_id then respond conv else http_error 404 "conversation not found"

-- `_get_conv`
unfoldable pub get_conv : ℕ → ℕ → Db → Response Conversation
unfolding check_team
get_conv cid team_id db = check_team team_id (conversation_row db cid)

-- What a handler does after `_get_conv`: an exception ends it.
abbrev pub with_conv {ℓ} :
    {A : Type ℓ} → Response Conversation → Db → (Conversation → Db × Response A) → Db × Response A
with_conv (http_error status detail) db f = (db, http_error status detail)
with_conv (respond conv) db f = f conv

unfoldable pub get_conversation : ℕ → User → Db → Db × Response Conversation
get_conversation cid user db =
    with_conv (get_conv cid user.team_id db) db (λ conv. (db, respond conv))

unfoldable pub patch_conversation : ℕ → Mode → User → Db → Db × Response Conversation
patch_conversation cid mode user db = with_conv (get_conv cid user.team_id db) db (λ conv. (
  update_conversation cid (λ c. record c { mode = mode }) db,
  respond (record conv { mode = mode }),
))

unfoldable pub mark_read : ℕ → User → Db → Db × Response Conversation
mark_read cid user db = with_conv (get_conv cid user.team_id db) db (λ conv.
    if conv.unread_count == 0 then (db, respond conv) else (
      emit (Event.conversation_updated user.team_id (record conv { unread_count = 0 }))
          (update_conversation cid (λ c. record c { unread_count = 0 }) db),
      respond (record conv { unread_count = 0 }),
    ))

abbrev pub is_before : Option ℕ → Message → Bool
is_before none m = true
is_before (some t) m = ltb m.created_at t

-- `Query(50, ge=1, le=200)` refuses other limits.
unfoldable pub list_messages : ℕ → Option ℕ → ℕ → User → Db → Db × Response (List Message)
list_messages cid before limit user db =
    if not (leb 1 limit && leb limit 200)
    then (db, http_error 422 "limit")
    else with_conv (get_conv cid user.team_id db) db (λ conv. (
      db,
      respond (
          reverse_onto [] (
            take limit (
              reverse_onto [] (
                order_by (λ (m : Message). m.created_at ∷ [])
                  (keep (λ m. (m.conversation_id == cid) && is_before before m) db.messages))))),
    ))

-- `update(AIReplyLog).where(AIReplyLog.message_id == mid).values(message_id=None)`
abbrev pub detach : (ℕ → Bool) → AiReplyLog → AiReplyLog
detach gone l = elim l.message_id [
  | none ↦ l
  | some id ↦ if gone id then record l { message_id = none } else l
]

-- The DELETE of messages by their keys, with the references of the AI logs taken off first.
unfoldable pub drop_messages : (ℕ → Bool) → Db → Db
drop_messages gone db = record db {
  reply_logs = map (detach gone) db.reply_logs;
  messages = keep (λ m. not (gone m.id)) db.messages;
}

unfoldable pub delete_found : ℕ → ℕ → User → Option Message → Db → Db × Response Bool
unfolding drop_messages
delete_found cid mid user none db = (db, http_error 404 "message not found")
delete_found cid mid user (some msg) db =
    if msg.conversation_id == cid
    then (
      emit (Event.message_deleted user.team_id cid mid) (drop_messages (λ id. id == mid) db),
      respond true,
    )
    else (db, http_error 404 "message not found")

unfoldable pub delete_message : ℕ → ℕ → User → Db → Db × Response Bool
delete_message cid mid user db =
    with_conv (get_conv cid user.team_id db) db
      (λ conv. delete_found cid mid user (get_message db mid) db)

abbrev pub is_task_of : ℕ → RobotTask → Bool
is_task_of cid t = is_id t.conversation_id cid

abbrev pub has_task_id : Option ℕ → List RobotTask → Bool
has_task_id none ts = false
has_task_id (some id) ts = any (λ (t : RobotTask). t.id == id) ts

-- The statements of `delete_conversation`, in their order.
unfoldable pub wipe_conversation : ℕ → Db → Db
wipe_conversation cid db =
    let tasks = keep (is_task_of cid) db.tasks in
    record db {
      reply_logs = keep (λ l. not (l.conversation_id == cid)) db.reply_logs;
      logs = keep (λ l. not (has_task_id l.task_id tasks)) db.logs;
      tasks = keep (λ t. not (is_task_of cid t)) db.tasks;
      messages = keep (λ m. not (m.conversation_id == cid)) db.messages;
      conversations = keep (λ c. not (c.id == cid)) db.conversations;
    }

unfoldable pub delete_conversation : ℕ → User → Db → Db × Response Bool
unfolding wipe_conversation
delete_conversation cid user db = with_conv (get_conv cid user.team_id db) db (λ conv.
    (emit (Event.conversation_deleted user.team_id cid) (wipe_conversation cid db), respond true))

abbrev pub is_pending_or_processing : Option Feedback → Bool
is_pending_or_processing (some Feedback.pending) = true
is_pending_or_processing (some Feedback.processing) = true
is_pending_or_processing _ = false

abbrev pub asks_answer : ℕ → Message → Bool
asks_answer conv_id m =
    (m.conversation_id == conv_id)
    && (is_inbound m.direction
        && (is_customer m.sender_type && is_pending_or_processing m.feedback_status))

unfoldable pub queued_answer : List ℕ → ℕ → Message → Message
queued_answer ids now m =
    if any (λ id. id == m.id) ids
    then record m { feedback_status = some Feedback.queued; feedback_at = some now }
    else m

-- `_pending_feedback_ids`
unfoldable pub pending_feedback_ids : ℕ → Db → Db × List ℕ
unfolding queued_answer
pending_feedback_ids conv_id db =
    let ids =
      map (λ (m : Message). m.id)
        (take 20 (
          order_by (λ (m : Message). m.created_at ∷ [])
            (keep (asks_answer conv_id) db.messages))) in
    (record db { messages = map (queued_answer ids db.now) db.messages }, ids)

-- The checks before a send.
unfoldable pub sendable : Settings → Conversation → Db → Response (Robot × Contact)
sendable settings conv db = elim (get_robot db conv.robot_id) [
  | none ↦ http_error 409 "robot or contact missing"
  | some robot ↦ elim (get_contact db conv.contact_id) [
    | none ↦ http_error 409 "robot or contact missing"
    | some contact ↦
        if settings.task_queue_enabled
        then respond (robot, contact)
        else http_error 409 "task queue disabled"
  ]
]

abbrev request_of : User → Conversation → Robot → Contact → List ℕ → Request
request_of user conv robot contact ids = record {
  robot = robot;
  conv = conv;
  contact_external_id = contact.external_id;
  sender_type = Sender.human;
  sender_id = some user.id;
  feedback_message_ids = ids;
}

-- What a send gives back; the error is the RuntimeError of a disabled queue.
abbrev sent_response : Db → Option (Db × Message × RobotTask) → Db × Response (Message × RobotTask)
sent_response db none = (db, http_error 500 "task queue disabled")
sent_response db (some (db', msg, task)) = (db', respond (msg, task))

abbrev with_peers {ℓ} :
    {A : Type ℓ}
    → Response (Robot × Contact)
    → Db
    → (Robot → Contact → Db × Response A)
    → Db × Response A
with_peers (http_error status detail) db f = (db, http_error status detail)
with_peers (respond (robot, contact)) db f = f robot contact

-- `MessageSendIn` takes a content of 1 to 4000 characters.
unfoldable pub send_message : Settings → ℕ → Text → User → Db → Db × Response (Message × RobotTask)
unfolding sendable
send_message settings cid content user db =
    if not (leb 1 (length content) && leb (length content) 4000)
    then (db, http_error 422 "content")
    else with_conv (get_conv cid user.team_id db) db (λ conv.
      with_peers (sendable settings conv db) db (λ robot contact.
        let (db', ids) = pending_feedback_ids conv.id db in
        sent_response db (
          create_and_dispatch_send_text settings (request_of user conv robot contact ids) content
            db')))

-- `upload` is what `persist_upload` does with the file.
unfoldable pub send_media_message :
    Settings → ℕ → String → Response Media → Text → User → Db → Db × Response (Message × RobotTask)
unfolding sendable
send_media_message settings cid type upload caption user db =
    with_conv (get_conv cid user.team_id db) db (λ conv.
      with_peers (sendable settings conv db) db (λ robot contact.
        if ltb 1000 (length (strip caption))
        then (db, http_error 422 "caption too long")
        else elim upload [
          | http_error status detail ↦ (db, http_error status detail)
          | respond media ↦
              let (db', ids) = pending_feedback_ids conv.id db in
              sent_response db (
                create_and_dispatch_send_media settings (request_of user conv robot contact ids)
                  type media (strip caption) db')
        ]))
