-- ===== src/AutoReply/Turn.antt =====
-- backend/app/services/auto_reply_scheduler.py, `_process_conversation`: one turn of a conversation.
-- The AI workflow is an argument; it may write to the tables, and its own broadcasts are not part of
-- the state. The pauses of a turn are where other services run, so the state that the workflow gives
-- back is any state.
use wecom_ai_agent.Prelude.{
  ℕ, String, Option, none, some, List, [], ◌∷◌, ◌++◌, ◌&&◌, str_eq, any, ◌==◌, if◌then◌else◌,
  is_empty, last, map, take,
}
use wecom_ai_agent.Prelude.Text.{Text}
use wecom_ai_agent.Store.{
  Robot, Contact, Conversation, Message, Sender, Feedback, Settings, Db, get_robot, get_contact,
}
use wecom_ai_agent.SendOrchestrator.Create.{Request, create_and_dispatch_send_text}
use wecom_ai_agent.SendOrchestrator.Run.{Ended, result, raised, stopped}
use wecom_ai_agent.AutoReply.{pending_messages, decision_feedback_ids, mark_feedback}

-- backend/app/ai/workflow.py, `AIDecision`: the fields that the scheduler reads.
pub record Decision : Type 0 where
  pub action : String
  pub text : Text
  pub replies : List Text
  pub trace_id : Option Text
  pub feedback_message_ids : List (Option ℕ)

-- `all_texts`
unfoldable pub all_texts : Decision → List Text
all_texts decision =
    if is_empty decision.replies
    then (if is_empty decision.text then [] else decision.text ∷ [])
    else decision.replies

-- `ai_workflow.handle_inbound`
abbrev pub Workflow : Type 0
Workflow = Robot → Conversation → Message → Db → Db × Ended Decision

-- How a turn ends: it returns, an exception leaves it, or it is cancelled.
pub data Turned : Type 0 where
  returned : Db → Turned
  crashed : Db → Turned
  cancelled : Db → Turned

abbrev pub max_reply_tasks_per_conversation_turn : ℕ
max_reply_tasks_per_conversation_turn = 2

unfoldable pub reply_request : Robot → Conversation → Contact → List ℕ → Request
reply_request robot conv contact ids = record {
  robot = robot;
  conv = conv;
  contact_external_id = contact.external_id;
  sender_type = Sender.ai;
  sender_id = none;
  feedback_message_ids = ids;
}

unfoldable pub add_id : ℕ → Option (List ℕ) → Option (List ℕ)
add_id id none = none
add_id id (some ids) = some (id ∷ ids)

-- The loop over the texts of a reply: the ids of the tasks, or none where a send raises.
unfoldable pub dispatch_replies : Settings → Request → List Text → Db → Db × Option (List ℕ)
unfolding add_id
dispatch_replies settings request [] db = (db, some [])
dispatch_replies settings request (text ∷ texts) db =
    elim (create_and_dispatch_send_text settings request text db) [
      | none ↦ (db, none)
      | some (db', msg, task) ↦
          let (after, ids) = dispatch_replies settings request texts db' in
          (after, add_id task.id ids)
    ]

unfoldable pub schedule_refresh : Settings → Contact → Conversation → Db → Db
schedule_refresh settings contact conv db =
    if settings.memory_refresh_enabled
    then record db { memory_refreshes = db.memory_refreshes ++ (contact.id, conv.id) ∷ [] }
    else db

unfoldable pub queue_replies :
    Settings → Contact → Conversation → Decision → List ℕ → Db × Option (List ℕ) → Turned
queue_replies settings contact conv decision ids (db, none) = crashed db
queue_replies settings contact conv decision ids (db, some task_ids) = returned (
    schedule_refresh settings contact conv
      (mark_feedback ids Feedback.queued decision.trace_id task_ids db))

-- The three actions of a decision.
unfoldable pub act_on : Settings → Robot → Conversation → Contact → Decision → List ℕ → Db → Turned
act_on settings robot conv contact decision ids db =
    if str_eq decision.action "reply"
    then (let texts = take max_reply_tasks_per_conversation_turn (all_texts decision) in
        if is_empty texts
        then returned (mark_feedback ids Feedback.failed none [] db)
        else queue_replies settings contact conv decision ids
            (dispatch_replies settings (reply_request robot conv contact ids) texts db))
    else if str_eq decision.action "suggest"
    then returned (
        schedule_refresh settings contact conv
          (mark_feedback ids Feedback.suggested decision.trace_id [] db))
    else returned (
        schedule_refresh settings contact conv
          (mark_feedback ids Feedback.skipped decision.trace_id [] db))

unfoldable pub after_workflow :
    Settings → Robot → Conversation → Contact → List ℕ → Db × Ended Decision → Turned
after_workflow settings robot conv contact batch (db, raised e) =
    returned (mark_feedback batch Feedback.failed none [] db)
after_workflow settings robot conv contact batch (db, stopped) = cancelled db
after_workflow settings robot conv contact batch (db, result decision) =
    act_on settings robot conv contact decision
      (decision_feedback_ids decision.feedback_message_ids batch) db

unfoldable pub processing_row : List ℕ → Message → Message
processing_row ids msg =
    if any (λ id. id == msg.id) ids
    then record msg { feedback_status = some Feedback.processing }
    else msg

unfoldable pub message_ids : List Message → List ℕ
message_ids msgs = map (λ (m : Message). m.id) msgs

unfoldable pub answer_batch :
    Settings → Workflow → Robot → Conversation → Contact → List Message → Db → Turned
answer_batch settings workflow robot conv contact [] db = returned db
answer_batch settings workflow robot conv contact (m ∷ ms) db =
    let batch = message_ids (m ∷ ms) in
    after_workflow settings robot conv contact batch (
      workflow robot conv (last m ms)
        (record db { messages = map (processing_row batch) db.messages }))

unfoldable pub process_with :
    Settings → Workflow → Conversation → Option Robot → Option Contact → Db → Turned
process_with settings workflow conv (some robot) (some contact) db =
    answer_batch settings workflow robot conv contact (pending_messages db conv.id) db
process_with settings workflow conv _ _ db = returned db

-- `_process_conversation`
unfoldable pub process_conversation : Settings → Workflow → Conversation → Db → Turned
process_conversation settings workflow conv db =
    if settings.auto_reply_enabled && settings.task_queue_enabled
    then process_with settings workflow conv (get_robot db conv.robot_id)
        (get_contact db conv.contact_id) db
    else returned db
