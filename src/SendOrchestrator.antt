-- ===== src/SendOrchestrator.antt =====
-- backend/app/services/send_orchestrator.py: outgoing messages, as audit rows of the task table
-- and as the writes that follow a send. The run of one task is in SendOrchestrator/Run.
pub mod Run
pub mod Create
use wecom_ai_agent.Prelude.{
  ℕ, suc, ◌+◌, String, Bool, true, false, Option, none, some, List, [], ◌∷◌, ◌++◌, ◌==◌, ◌&&◌,
  str_eq, min, ltb, if◌then◌else◌, or_else, is_empty, any, map,
}
use wecom_ai_agent.Prelude.Text.{Text, codes, show, strip}
use wecom_ai_agent.Store.{
  Robot, Message, RobotTask, TaskStatus, MessageStatus, Feedback, Direction, Sender, Payload,
  Settings, Event, Db, get_message, update_task, update_message_of, emit, add_log, truthy_id,
}
use wecom_ai_agent.TaskQueue.{enqueue, priority_background}

abbrev pub react_prefix : Text
react_prefix = codes "[react] "

-- `int(task.max_attempts or 1)`
abbrev pub attempts_or_one : ℕ → ℕ
attempts_or_one n = if n == 0 then 1 else n

-- How often a task may be tried.
abbrev pub attempt_limit : Settings → RobotTask → ℕ
attempt_limit settings task =
    min (attempts_or_one task.max_attempts) settings.react_send_max_attempts

-- `payload.get("conversation_external_id") or "目标联系人"`
contact_of : Payload → Text
contact_of payload =
    let contact = or_else payload.conversation_external_id (codes "") in
    if is_empty contact then codes "目标联系人" else contact

-- `_goal_for_task`
unfoldable pub goal_for_task : RobotTask → Option Text
unfolding contact_of
goal_for_task task =
    let contact = contact_of task.payload_json in
    let text = strip (or_else task.payload_json.text (codes "")) in
    if str_eq task.type "send_media"
    then some (codes "打开与「" ++ (contact ++ codes "」的聊天"))
    else if str_eq task.type "send_text"
    then (if is_empty text
        then none
        else some (codes "打开与「" ++ (contact ++ (codes "」的聊天，并发送下面这段文本：" ++ text))))
    else none

abbrev pub is_inbound : Direction → Bool
is_inbound Direction.inbound = true
is_inbound Direction.outbound = false

abbrev pub is_customer : Sender → Bool
is_customer Sender.customer = true
is_customer _ = false

abbrev pub is_failed : Feedback → Bool
is_failed Feedback.failed = true
is_failed _ = false

abbrev pub is_replied : Option Feedback → Bool
is_replied (some Feedback.replied) = true
is_replied _ = false

-- The rows that `_mark_feedback_messages` selects.
abbrev pub asks_feedback : List ℕ → Message → Bool
asks_feedback ids m =
    any (λ id. id == m.id) ids && (is_inbound m.direction && is_customer m.sender_type)

feedback_row : List ℕ → Feedback → ℕ → Message → Message
feedback_row ids status now m =
    if asks_feedback ids m
    then (if is_failed status && is_replied m.feedback_status
        then m
        else record m { feedback_status = some status; feedback_at = some now })
    else m

-- `_mark_feedback_messages`
unfoldable pub mark_feedback_messages : RobotTask → Feedback → Db → Db
unfolding feedback_row
mark_feedback_messages task status db = record db {
  messages = map (feedback_row task.payload_json.feedback_message_ids status db.now) db.messages;
}

abbrev pub set_message : MessageStatus → Message → Message
set_message status m = record m { status = some status }

unfoldable pub retry_row : Text → RobotTask → RobotTask
retry_row error task = record task {
  attempts = task.attempts + 1;
  last_error = some error;
  status = TaskStatus.dispatched;
}

unfoldable pub give_up_row : Text → RobotTask → RobotTask
give_up_row error task = record task {
  attempts = task.attempts + 1;
  last_error = some error;
  status = TaskStatus.failed;
}

-- "error; 将重试 1/2"
retry_note : Text → RobotTask → Text
retry_note error task =
    error ++ (codes "; 将重试 " ++ (show (task.attempts + 1) ++ (codes "/" ++ show task.max_attempts)))

-- `_handle_send_failure`: the id of a task that is to be queued again, if there is one.
unfoldable pub handle_send_failure : Settings → Robot → RobotTask → Text → Db → Db × Option ℕ
unfolding retry_row give_up_row mark_feedback_messages retry_note add_log
handle_send_failure settings robot task error db =
    if ltb (task.attempts + 1) (attempt_limit settings task)
    then (
      add_log robot.id (some task.id) "warn" (retry_note error task) (
          update_message_of task.message_id (set_message MessageStatus.pending) (
            mark_feedback_messages task Feedback.pending
              (update_task task.id (retry_row error) db))),
      some task.id,
    )
    else (
      update_message_of task.message_id (set_message MessageStatus.failed) (
          mark_feedback_messages task Feedback.failed (update_task task.id (give_up_row error) db)),
      none,
    )

unfoldable pub complete_row : RobotTask → RobotTask
complete_row task = record task { status = TaskStatus.completed; last_error = none }

-- `_broadcast_message_update`
abbrev pub broadcast_message_update : Robot → Message → Db → Db
broadcast_message_update robot msg db =
    emit (Event.message_updated robot.team_id msg.conversation_id msg) db

abbrev pub is_sent : Option MessageStatus → Bool
is_sent (some MessageStatus.sent) = true
is_sent _ = false

message_if : Db → Option ℕ → Option Message
message_if db none = none
message_if db (some id) = get_message db id

skip_message : Robot → RobotTask → Option Message → Db → Db × Bool
unfolding complete_row mark_feedback_messages add_log
skip_message robot task none db = (db, false)
skip_message robot task (some msg) db =
    if is_sent msg.status
    then (
      broadcast_message_update robot msg (
          emit (Event.task_updated robot.team_id task.id TaskStatus.completed none) (
            add_log robot.id (some task.id) "info"
              (codes "[react] skipped: outbound message is already sent")
              (mark_feedback_messages task Feedback.replied
                (update_task task.id complete_row db)))),
      true,
    )
    else (db, false)

-- `_skip_if_message_already_sent`
unfoldable pub skip_if_message_already_sent : Robot → RobotTask → Db → Db × Bool
unfolding skip_message message_if
skip_if_message_already_sent robot task db =
    skip_message robot task (message_if db (truthy_id task.message_id)) db

abbrev pub is_waiting : Option Feedback → Bool
is_waiting (some Feedback.pending) = true
is_waiting (some Feedback.processing) = true
is_waiting _ = false

-- An inbound customer message that has no reply yet.
abbrev pub is_unreplied : ℕ → Message → Bool
is_unreplied conv_id m =
    (m.conversation_id == conv_id)
    && (is_inbound m.direction && (is_customer m.sender_type && is_waiting m.feedback_status))

wake_if : ℕ → Option ℕ → Db → Db
wake_if robot_pk none db = db
wake_if robot_pk (some conv_id) db =
    if any (is_unreplied conv_id) db.messages
    then record db { reply_wakes = db.reply_wakes ++ robot_pk ∷ [] }
    else db

-- `_wake_auto_reply_if_pending`
unfoldable pub wake_auto_reply_if_pending : Settings → ℕ → Option ℕ → Db → Db
unfolding wake_if
wake_auto_reply_if_pending settings robot_pk conv_id db =
    if settings.auto_reply_enabled then wake_if robot_pk conv_id db else db
