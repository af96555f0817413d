-- ===== src/SendOrchestrator/Run/Writes.antt =====
-- backend/app/services/send_orchestrator.py: the writes at the end of a send set no task running.
use wecom_ai_agent.Prelude.{ℕ, ◌≡◌, refl, Option, none, some, if_elim, arith, String}
use wecom_ai_agent.Prelude.Text.{Text}
use wecom_ai_agent.Store.{Robot, RobotTask, Settings, Db, get_task, add_log}
use wecom_ai_agent.TaskQueue.Quiet.{
  Quiet, Quiet-refl, Quiet-trans, Quiet-of_eq, IsCalm, Quiet-update, enqueue-Quiet,
}
use wecom_ai_agent.SendOrchestrator.{
  mark_feedback_messages, handle_send_failure, retry_row, give_up_row, complete_row,
  wake_auto_reply_if_pending,
}
use wecom_ai_agent.SendOrchestrator.Run.{
  ReactResult, note_attempt, attempt_row, finish_found, finish_send, fail_send, complete_send,
  cancel_send, cancel_found, crash_send, crash_found, announce, queue_again, cancelled_row,
  broadcast_row, broadcast_found, broadcast_message_of,
}

retry_row-IsCalm : (error : Text) → IsCalm (retry_row error)
unfolding retry_row
retry_row-IsCalm error = record {
  same_id = λ t. refl;
  same_robot = λ t. refl;
  calm = λ t h. ground arith;
}

give_up_row-IsCalm : (error : Text) → IsCalm (give_up_row error)
unfolding give_up_row
give_up_row-IsCalm error = record {
  same_id = λ t. refl;
  same_robot = λ t. refl;
  calm = λ t h. ground arith;
}

pub complete_row-IsCalm : IsCalm complete_row
unfolding complete_row
complete_row-IsCalm = record {
  same_id = λ t. refl;
  same_robot = λ t. refl;
  calm = λ t h. ground arith;
}

cancelled_row-IsCalm : IsCalm cancelled_row
unfolding cancelled_row
cancelled_row-IsCalm = record {
  same_id = λ t. refl;
  same_robot = λ t. refl;
  calm = λ t h. ground arith;
}

attempt_row-IsCalm : (summary : Text) → IsCalm (attempt_row summary)
unfolding attempt_row
attempt_row-IsCalm summary = record { same_id = λ t. refl; same_robot = λ t. refl; calm = λ t h. h }

wake-tasks :
    (settings : Settings) (robot_pk : ℕ) (conv : Option ℕ) (db : Db)
    → (wake_auto_reply_if_pending settings robot_pk conv db).tasks ≡ db.tasks
unfolding wake_auto_reply_if_pending
wake-tasks settings robot_pk none db = ground arith
wake-tasks settings robot_pk (some conv) db = ground arith

pub announce-tasks :
    (settings : Settings) (robot : Robot) (task : RobotTask) (seen db : Db)
    → (announce settings robot task seen db).tasks ≡ db.tasks
unfolding announce broadcast_row broadcast_message_of broadcast_found
announce-tasks settings robot task seen db = rw wake-tasks (ground arith)

pub handle_send_failure-Quiet :
    (settings : Settings) (robot : Robot) (task : RobotTask) (error : Text) (db : Db)
    → Quiet db.tasks (handle_send_failure settings robot task error db).0.tasks
unfolding handle_send_failure
handle_send_failure-Quiet settings robot task error db =
    if_elim (λ (r : Db × Option ℕ). Quiet db.tasks r.0.tasks) _
      (Quiet-update task.id (retry_row error) db.tasks (retry_row-IsCalm error))
      (Quiet-update task.id (give_up_row error) db.tasks (give_up_row-IsCalm error))

queue_again-Quiet :
    (settings : Settings) (robot : Robot) (task : RobotTask) (again : Option ℕ) (db : Db)
    → Quiet db.tasks (queue_again settings robot task again db).tasks
queue_again-Quiet settings robot task none db = unfold queue_again in Quiet-refl db.tasks
queue_again-Quiet settings robot task (some id) db =
    unfold queue_again in enqueue-Quiet settings robot.robot_id id _ db

module _ (settings : Settings) (robot : Robot) (task : RobotTask) (db : Db) where
  pub fail_send-Quiet :
      (error : Text) (level : String) (note : Text)
      → Quiet db.tasks (fail_send settings robot task error level note db).tasks
  unfolding fail_send add_log
  fail_send-Quiet error level note =
      Quiet-trans (handle_send_failure-Quiet settings robot task error db) (
        Quiet-trans
          (queue_again-Quiet settings robot task
            (handle_send_failure settings robot task error db).1 _)
          (Quiet-of_eq _ _ (announce-tasks settings robot task _ _)))

  pub complete_send-Quiet :
      (r : ReactResult) → Quiet db.tasks (complete_send settings robot task r db).tasks
  unfolding complete_send mark_feedback_messages add_log
  complete_send-Quiet r =
      Quiet-trans (Quiet-update task.id complete_row db.tasks complete_row-IsCalm)
        (Quiet-of_eq _ _ (announce-tasks settings robot task _ _))

  pub finish_send-Quiet :
      (r : ReactResult) (error : Option Text)
      → Quiet db.tasks (finish_send settings robot task r error db).tasks
  unfolding finish_send
  finish_send-Quiet r (some e) = fail_send-Quiet _ _ _
  finish_send-Quiet r none =
      if_elim (λ (d : Db). Quiet db.tasks d.tasks) r.ok (complete_send-Quiet r)
        (fail_send-Quiet _ _ _)

module _ (settings : Settings) (robot : Robot) (task_id : ℕ) (db : Db) where
  cancel_found-Quiet :
      (t : Option RobotTask) → Quiet db.tasks (cancel_found settings robot t db).tasks
  unfolding cancel_found mark_feedback_messages add_log
  cancel_found-Quiet none = Quiet-refl db.tasks
  cancel_found-Quiet (some task) =
      Quiet-trans (Quiet-update task.id cancelled_row db.tasks cancelled_row-IsCalm)
        (Quiet-of_eq _ _ (announce-tasks settings robot task _ _))

  pub cancel_send-Quiet : Quiet db.tasks (cancel_send settings robot task_id db).tasks
  unfolding cancel_send
  cancel_send-Quiet = cancel_found-Quiet (get_task db task_id)

  crash_found-Quiet :
      (t : Option RobotTask) (e : Text) → Quiet db.tasks (crash_found settings robot t e db).tasks
  unfolding crash_found
  crash_found-Quiet none e = Quiet-refl db.tasks
  crash_found-Quiet (some task) e = fail_send-Quiet settings robot task db _ _ _

  pub crash_send-Quiet : (e : Text) → Quiet db.tasks (crash_send settings robot task_id e db).tasks
  unfolding crash_send
  crash_send-Quiet e = crash_found-Quiet (get_task db task_id) e

  pub finish_found-Quiet :
      (t : Option RobotTask) (r : ReactResult) (error : Option Text)
      → Quiet db.tasks (finish_found settings robot t r error db).tasks
  unfolding finish_found
  finish_found-Quiet none r error = Quiet-refl db.tasks
  finish_found-Quiet (some task) r error = finish_send-Quiet settings robot task db r error

pub note_attempt-Quiet :
    (robot : Robot) (task : RobotTask) (summary : Text) (db : Db)
    → Quiet db.tasks (note_attempt robot task summary db).tasks
unfolding note_attempt
note_attempt-Quiet robot task summary db =
    Quiet-update task.id (attempt_row summary) db.tasks (attempt_row-IsCalm summary)
