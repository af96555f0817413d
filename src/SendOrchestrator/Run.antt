-- ===== src/SendOrchestrator/Run.antt =====
-- backend/app/services/send_orchestrator.py, `run_send_task`: one send from start to end. The device
-- and the ReAct agent, which drive the phone, are arguments; their own log rows and UI commands are
-- not part of the state.
pub mod Bounds
pub mod Writes
pub mod Quiet
pub mod Outcomes
use wecom_ai_agent.Prelude.{
  ℕ, zero, suc, ◌+◌, String, Bool, true, false, Option, none, some, List, ◌++◌, ◌&&◌, str_eq, leb,
  if◌then◌else◌, or_else, is_empty,
}
use wecom_ai_agent.Prelude.Text.{Text, codes, show}
use wecom_ai_agent.Store.{
  Robot, Message, RobotTask, TaskStatus, MessageStatus, Feedback, Settings, Event, Db, get_robot,
  get_task, get_message, update_task, update_message_of, emit, add_log, truthy_id,
}
use wecom_ai_agent.TaskQueue.{enqueue, priority_background}
use wecom_ai_agent.TaskQueue.Drain.{Outcome, returned, interrupted}
use wecom_ai_agent.SendOrchestrator.{
  react_prefix, attempt_limit, goal_for_task, mark_feedback_messages, handle_send_failure,
  set_message, complete_row, broadcast_message_update, skip_if_message_already_sent,
  wake_auto_reply_if_pending,
}

pub record ReactResult : Type 0 where
  pub ok : Bool
  pub summary : Text
  pub steps : ℕ

-- How a call that drives the phone ends: with a result, an exception or a cancellation.
pub data Ended {ℓ} (A : Type ℓ) : Type ℓ where
  result : A → Ended A
  raised : Text → Ended A
  stopped : Ended A

-- `device.stage_media`: ok, and the message of a failure
pub record StageResult : Type 0 where
  pub ok : Bool
  pub message : Text

-- The phone during one run: the ReAct call of each round, the staging of a file, and the ReAct
-- call that sends it.
pub record Phone : Type 0 where
  pub react : ℕ → Ended ReactResult
  pub stage : Ended StageResult
  pub send_media : Ended ReactResult

unfoldable pub attempt_row : Text → RobotTask → RobotTask
attempt_row summary task = record task {
  attempts = task.attempts + 1;
  last_error = some (react_prefix ++ summary);
}

unfoldable pub attempt_note : Text → RobotTask → Text
attempt_note summary task =
    (react_prefix ++ summary)
    ++ (codes "; 保持设备槽位并立即重试 "
        ++ (show (task.attempts + 1) ++ (codes "/" ++ show task.max_attempts)))

-- A failed round that is followed by another.
unfoldable pub note_attempt : Robot → RobotTask → Text → Db → Db
unfolding attempt_row attempt_note add_log
note_attempt robot task summary db =
    add_log robot.id (some task.id) "warn" (attempt_note summary task)
      (update_task task.id (attempt_row summary) db)

-- How the rounds end: with a last result, because the task is gone, or in the phone's way.
pub data Rounds : Type 0 where
  finished : ReactResult → Db → Rounds
  gone : Db → Rounds
  failed : Text → Db → Rounds
  cancelled : Db → Rounds

-- The `while True` of `run_send_task`, from round `n` on; `none` if the fuel runs out. The limit is
-- read once, before the first round.
unfoldable pub react_rounds : Phone → Robot → ℕ → ℕ → ℕ → ℕ → Db → Option Rounds
unfolding note_attempt
react_rounds phone robot task_id limit zero n db = none
react_rounds phone robot task_id limit (suc fuel) n db = elim (phone.react n) [
  | raised e ↦ some (failed e db)
  | stopped ↦ some (cancelled db)
  | result r ↦ elim r.ok [
    | true ↦ some (finished r db)
    | false ↦ elim (get_task db task_id) [
      | none ↦ some (gone db)
      | some task ↦ elim (leb limit (task.attempts + 1)) [
        | true ↦ some (finished r db)
        | false ↦
            react_rounds phone robot task_id limit fuel (suc n)
              (note_attempt robot task r.summary db)
      ]
    ]
  ]
]

unfoldable pub text_or : Text → Text → Text
text_or a b = if is_empty a then b else a

unfoldable pub media_error : Ended ReactResult → Ended (Option Text)
media_error (raised e) = raised e
media_error stopped = stopped
media_error (result r) =
    if r.ok then result none else result (some (text_or r.summary (codes "媒体发送失败")))

unfoldable pub stage_error : Ended StageResult → Ended ReactResult → Ended (Option Text)
unfolding media_error
stage_error (raised e) sent = raised e
stage_error stopped sent = stopped
stage_error (result s) sent =
    if s.ok then media_error sent else result (some (text_or s.message (codes "媒体落盘失败")))

-- The phases B and C of a media send, after the chat is open: `media_error`, or none.
unfoldable pub media_phase : Phone → RobotTask → ReactResult → Ended (Option Text)
unfolding stage_error text_or
media_phase phone task r =
    if r.ok && str_eq task.type "send_media"
    then stage_error phone.stage phone.send_media
    else result none

-- What follows the result of a run, failed or not: the requeue, the broadcasts and the wake.
unfoldable pub queue_again : Settings → Robot → RobotTask → Option ℕ → Db → Db
queue_again settings robot task none db = db
queue_again settings robot task (some id) db =
    enqueue settings robot.robot_id id priority_background db

unfoldable pub broadcast_row : Robot → Option RobotTask → Db → Db
broadcast_row robot none db = db
broadcast_row robot (some task) db =
    emit (Event.task_updated robot.team_id task.id task.status task.last_error) db

unfoldable pub broadcast_found : Robot → Option Message → Db → Db
broadcast_found robot none db = db
broadcast_found robot (some msg) db = broadcast_message_update robot msg db

unfoldable pub broadcast_message_of : Robot → Option ℕ → Db → Db
broadcast_message_of robot none db = db
broadcast_message_of robot (some id) db = broadcast_found robot (get_message db id) db

-- The broadcasts of the task, as it was in the state `seen`, and of its message, and the wake of the
-- auto-reply.
unfoldable pub announce : Settings → Robot → RobotTask → Db → Db → Db
announce settings robot task seen db =
    wake_auto_reply_if_pending settings robot.id task.conversation_id (
      broadcast_message_of robot (truthy_id task.message_id)
        (broadcast_row robot (get_task seen task.id) db))

-- A failure with its log row, committed and then queued again if there is another try.
unfoldable pub fail_send : Settings → Robot → RobotTask → Text → String → Text → Db → Db
fail_send settings robot task error level note db =
    let (db', again) = handle_send_failure settings robot task error db in
    announce settings robot task db'
      (queue_again settings robot task again (add_log robot.id (some task.id) level note db'))

-- `result ok=… steps=… summary=…`
unfoldable pub result_note : Bool → ℕ → Text → Text
result_note ok steps summary =
    codes "[react] result ok="
    ++ ((if ok then codes "True" else codes "False")
        ++ (codes " steps=" ++ (show steps ++ (codes " summary=" ++ summary))))

unfoldable pub complete_send : Settings → Robot → RobotTask → ReactResult → Db → Db
complete_send settings robot task r db =
    let db' = add_log robot.id (some task.id) "info" (result_note true r.steps r.summary) (
      update_message_of task.message_id (set_message MessageStatus.sent)
        (mark_feedback_messages task Feedback.replied (update_task task.id complete_row db))) in
    announce settings robot task db' db'

-- After the phone is done, with the row as it is then.
unfoldable pub finish_send : Settings → Robot → RobotTask → ReactResult → Option Text → Db → Db
finish_send settings robot task r (some e) db =
    fail_send settings robot task (react_prefix ++ e) "warn" (result_note false r.steps e) db
finish_send settings robot task r none db =
    if r.ok
    then complete_send settings robot task r db
    else fail_send settings robot task (react_prefix ++ r.summary) "warn"
        (result_note false r.steps r.summary) db

unfoldable pub cancelled_row : RobotTask → RobotTask
cancelled_row task = record task {
  status = TaskStatus.cancelled;
  last_error = some (codes "任务执行已中断");
}

unfoldable pub cancel_found : Settings → Robot → Option RobotTask → Db → Db
cancel_found settings robot none db = db
cancel_found settings robot (some task) db =
    let db' = add_log robot.id (some task.id) "warn" (codes "[react] cancelled by operator") (
      update_message_of task.message_id (set_message MessageStatus.cancelled)
        (mark_feedback_messages task Feedback.failed (update_task task.id cancelled_row db))) in
    announce settings robot task db' db'

-- The handler of `CancelledError`
unfoldable pub cancel_send : Settings → Robot → ℕ → Db → Db
cancel_send settings robot task_id db = cancel_found settings robot (get_task db task_id) db

unfoldable pub crash_found : Settings → Robot → Option RobotTask → Text → Db → Db
crash_found settings robot none e db = db
crash_found settings robot (some task) e db =
    let error = react_prefix ++ e in
    fail_send settings robot task error "error" (codes "[react] crashed: " ++ error) db

-- The handler of any other exception, `e` being its text.
unfoldable pub crash_send : Settings → Robot → ℕ → Text → Db → Db
crash_send settings robot task_id e db = crash_found settings robot (get_task db task_id) e db

unfoldable pub finish_found :
    Settings → Robot → Option RobotTask → ReactResult → Option Text → Db → Db
finish_found settings robot none r error db = db
finish_found settings robot (some task) r error db = finish_send settings robot task r error db

unfoldable pub after_media : Settings → Robot → ℕ → ReactResult → Ended (Option Text) → Db → Outcome
after_media settings robot task_id r (raised e) db =
    returned (crash_send settings robot task_id e db)
after_media settings robot task_id r stopped db =
    interrupted (cancel_send settings robot task_id db)
after_media settings robot task_id r (result error) db =
    returned (finish_found settings robot (get_task db task_id) r error db)

unfoldable pub after_rounds : Settings → Phone → Robot → RobotTask → Rounds → Outcome
after_rounds settings phone robot task (gone db) = returned db
after_rounds settings phone robot task (failed e db) =
    returned (crash_send settings robot task.id e db)
after_rounds settings phone robot task (cancelled db) =
    interrupted (cancel_send settings robot task.id db)
after_rounds settings phone robot task (finished r db) =
    after_media settings robot task.id r (media_phase phone task r) db

unfoldable pub outcome_if : Settings → Phone → Robot → RobotTask → Option Rounds → Option Outcome
outcome_if settings phone robot task none = none
outcome_if settings phone robot task (some rounds) =
    some (after_rounds settings phone robot task rounds)

unfoldable pub run_goal :
    Settings → Phone → Robot → RobotTask → ℕ → Option Text → Db → Option Outcome
run_goal settings phone robot task fuel none db = some (returned db)
run_goal settings phone robot task fuel (some goal) db =
    outcome_if settings phone robot task
      (react_rounds phone robot task.id (attempt_limit settings task) fuel 0 db)

unfoldable pub run_found : Settings → Phone → RobotTask → Option Robot → ℕ → Db → Option Outcome
run_found settings phone task none fuel db = some (returned db)
run_found settings phone task (some robot) fuel db =
    let (db', skipped) = skip_if_message_already_sent robot task db in
    let run = run_goal settings phone robot task fuel (goal_for_task task) db in
    if skipped then some (returned db') else run

-- `run_send_task`; `none` if the fuel of the rounds runs out.
unfoldable pub run_send_task : Settings → Phone → ℕ → ℕ → Db → Option Outcome
run_send_task settings phone fuel task_id db = elim (get_task db task_id) [
  | none ↦ some (returned db)
  | some task ↦ run_found settings phone task (get_robot db task.robot_id) fuel db
]
