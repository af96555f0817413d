-- ===== src/SendOrchestrator/Create.antt =====
-- backend/app/services/send_orchestrator.py: `create_and_dispatch_send_text` and `_media` write the
-- message and its task and hand the task to the queue.
use wecom_ai_agent.Prelude.{
  ℕ, suc, String, Option, none, some, List, [], ◌∷◌, ◌++◌, str_eq, if◌then◌else◌, or_else, is_empty,
}
use wecom_ai_agent.Prelude.Text.{Text, codes, strip}
use wecom_ai_agent.Store.{
  Robot, Conversation, Media, Message, RobotTask, TaskStatus, MessageStatus, Direction, Sender,
  Payload, Settings, Event, Db, update_conversation, emit, add_log, empty_payload,
}
use wecom_ai_agent.TaskQueue.{enqueue, priority_auto_reply}

-- What a caller gives for a send.
pub record Request : Type 0 where
  pub robot : Robot
  pub conv : Conversation
  pub contact_external_id : Text
  pub sender_type : Sender
  pub sender_id : Option ℕ
  pub feedback_message_ids : List ℕ

-- The outbound message, with the link to its task.
unfoldable pub outbound_message : Request → String → Text → Option Media → ℕ → Db → Message
outbound_message request type content media task_id db = record {
  id = db.next_message;
  conversation_id = request.conv.id;
  direction = Direction.outbound;
  sender_type = request.sender_type;
  sender_id = request.sender_id;
  type = type;
  content = content;
  media_json = media;
  status = some MessageStatus.pending;
  feedback_status = none;
  feedback_trace_id = none;
  feedback_at = none;
  feedback_reply_task_ids = none;
  external_msg_id = none;
  task_id = some task_id;
  created_at = db.now;
}

unfoldable pub send_task : Request → String → Payload → ℕ → Db → RobotTask
send_task request type payload max_attempts db = record {
  id = db.next_task;
  robot_id = request.robot.id;
  type = type;
  payload_json = payload;
  status = TaskStatus.dispatched;
  priority = some 100;
  queue_seq = none;
  attempts = 0;
  max_attempts = max_attempts;
  last_error = none;
  conversation_id = some request.conv.id;
  message_id = some db.next_message;
  created_at = db.now;
}

unfoldable pub preview_row : ℕ → Text → Conversation → Conversation
preview_row now preview conv = record conv {
  last_message_at = some now;
  last_message_preview = some preview;
}

-- The rows of a send, in one transaction.
unfoldable pub add_send : Request → Message → RobotTask → Text → Text → Db → Db
add_send request msg task note preview db =
    update_conversation request.conv.id (preview_row msg.created_at preview) (
      add_log request.robot.id (some task.id) "info" note (record db {
        messages = db.messages ++ msg ∷ [];
        next_message = suc db.next_message;
        tasks = db.tasks ++ task ∷ [];
        next_task = suc db.next_task;
      }))

-- The hand-over to the queue, and `_broadcast_message_new`.
unfoldable pub dispatch : Settings → Request → Message → RobotTask → Db → Db
dispatch settings request msg task db =
    emit (Event.message_new request.robot.team_id request.conv.id msg)
      (enqueue settings request.robot.robot_id task.id priority_auto_reply db)

-- The check of the settings, the rows, and the hand-over; `none` is the RuntimeError "task queue
-- disabled".
unfoldable pub submit :
    Settings → Request → Message → RobotTask → Text → Text → Db → Option (Db × Message × RobotTask)
submit settings request msg task note preview db =
    if settings.task_queue_enabled
    then some
        (dispatch settings request msg task (add_send request msg task note preview db), msg, task)
    else none

unfoldable pub text_payload : Request → Text → Payload
text_payload request text = record empty_payload {
  conversation_external_id = some request.contact_external_id;
  text = some text;
  feedback_message_ids = request.feedback_message_ids;
}

-- `create_and_dispatch_send_text`
unfoldable pub create_and_dispatch_send_text :
    Settings → Request → Text → Db → Option (Db × Message × RobotTask)
create_and_dispatch_send_text settings request text db =
    let task = send_task request "send_text" (text_payload request text) 2 db in
    let msg = outbound_message request "text" text none task.id db in
    let note = codes "send_text scheduled via ReAct contact=" ++ request.contact_external_id in
    submit settings request msg task note text db

unfoldable pub kind_label : String → Text
kind_label kind = if str_eq kind "image" then codes "图片" else codes "视频"

-- `caption or str(media.get("filename") or label)`
unfoldable pub media_label : String → Media → Text → Text
unfolding kind_label
media_label kind media caption =
    let filename = or_else media.filename (codes "") in
    if is_empty caption then (if is_empty filename then kind_label kind else filename) else caption

unfoldable pub media_payload : Request → String → Media → Text → Payload
media_payload request kind media caption = record empty_payload {
  conversation_external_id = some request.contact_external_id;
  kind = some kind;
  caption = some caption;
  media = some media;
  feedback_message_ids = request.feedback_message_ids;
}

-- `create_and_dispatch_send_media`
unfoldable pub create_and_dispatch_send_media :
    Settings → Request → String → Media → Text → Db → Option (Db × Message × RobotTask)
create_and_dispatch_send_media settings request kind media caption db =
    let label = media_label kind media caption in
    let task = send_task request "send_media" (media_payload request kind media caption) 1 db in
    let msg = outbound_message request kind label (some media) task.id db in
    let note =
      codes "send_media scheduled via ReAct contact="
      ++ (request.contact_external_id ++ (codes " kind=" ++ codes kind)) in
    let preview = strip (codes "[" ++ (kind_label kind ++ (codes "] " ++ label))) in
    submit settings request msg task note preview db
