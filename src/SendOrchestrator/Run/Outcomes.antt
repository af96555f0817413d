-- ===== src/SendOrchestrator/Run/Outcomes.antt =====
-- backend/app/services/send_orchestrator.py: what a run leaves behind on its branches.
use wecom_ai_agent.Prelude.{
  ℕ, suc, ◌≡◌, refl, sym, ◌∙◌, ap, subst, true, false, none, some, [], or_else,
}
use wecom_ai_agent.Prelude.Table.{get-key, get-Member, get-update_self}
use wecom_ai_agent.Prelude.Text.{codes, strip}
use wecom_ai_agent.Store.{
  Robot, Message, RobotTask, TaskStatus, MessageStatus, Settings, Db, get_task, get_robot,
  get_message, find_robot, task_key, robot_key, truthy_id,
}
use wecom_ai_agent.TaskQueue.{claim_next}
use wecom_ai_agent.TaskQueue.Claim.{running_blocks}
use wecom_ai_agent.TaskQueue.Drain.{returned}
use wecom_ai_agent.SendOrchestrator.{
  goal_for_task, complete_row, skip_if_message_already_sent, skip_message, message_if,
}
use wecom_ai_agent.SendOrchestrator.Run.{Phone, run_send_task, run_found, run_goal}

blank_goal :
    (task : RobotTask)
    → task.type ≡ "send_text"
    → strip (or_else task.payload_json.text (codes "")) ≡ []
    → goal_for_task task ≡ none
unfolding goal_for_task
blank_goal task t b = simp (t, b)

-- A send of a blank text whose task is running and whose message is not sent is left as it is:
-- the run returns at once and changes nothing, and the robot claims no task after it, whatever
-- waits in its queue.
pub blank_send-blocks :
    (settings : Settings) (phone : Phone) (fuel id : ℕ) (db : Db) (task : RobotTask) (robot : Robot)
    → get_task db id ≡ some task
    → get_robot db task.robot_id ≡ some robot
    → find_robot db robot.robot_id ≡ some robot
    → task.type ≡ "send_text"
    → strip (or_else task.payload_json.text (codes "")) ≡ []
    → task.status ≡ TaskStatus.running
    → (skip_if_message_already_sent robot task db).1 ≡ false
    → (run_send_task settings phone fuel id db ≡ some (returned db))
      × (claim_next settings robot.robot_id db ≡ (db, none))
unfolding run_send_task run_found run_goal
blank_send-blocks settings phone fuel id db task robot t r f k b s unsent = (
  rw (t, run_send_task, r, run_found, unsent, blank_goal task k b),
  running_blocks settings robot.robot_id db robot task f (get-Member task_key id db.tasks task t)
      (sym (get-key robot_key task.robot_id db.robots robot r)) s,
)

skip_sent :
    (robot : Robot) (task : RobotTask) (msg : Message) (db : Db)
    → msg.status ≡ some MessageStatus.sent
    → get_task db task.id ≡ some task
    → ((skip_message robot task (some msg) db).1 ≡ true)
      × (get_task (skip_message robot task (some msg) db).0 task.id ≡ some (complete_row task))
unfolding skip_message complete_row
skip_sent robot task msg db s t =
    (simp s, simp s (get-update_self task_key task.id complete_row db.tasks task t refl))

skip_found :
    (robot : Robot) (task : RobotTask) (id : ℕ) (msg : Message) (db : Db)
    → task.message_id ≡ some (suc id)
    → get_message db (suc id) ≡ some msg
    → skip_if_message_already_sent robot task db ≡ skip_message robot task (some msg) db
unfolding skip_if_message_already_sent message_if
skip_found robot task id msg db i m =
    ap (λ o. skip_message robot task (message_if db (truthy_id o)) db) i
    ∙ ap (λ o. skip_message robot task o db) m

-- A send whose message was sent before never reaches the phone: every phone and every fuel give
-- one and the same state, and in it the task is completed.
pub already_sent-completes :
    (settings : Settings) (id : ℕ) (db : Db) (task : RobotTask) (robot : Robot) (message_id : ℕ)
    (msg : Message)
    → get_task db id ≡ some task
    → get_robot db task.robot_id ≡ some robot
    → task.message_id ≡ some (suc message_id)
    → get_message db (suc message_id) ≡ some msg
    → msg.status ≡ some MessageStatus.sent
    → (db' : Db) × ((phone : Phone) (fuel : ℕ)
        → run_send_task settings phone fuel id db ≡ some (returned db'))
      × (get_task db' id ≡ some (complete_row task))
already_sent-completes settings id db task robot message_id msg t r i m s =
    let k : task.id ≡ id = get-key task_key id db.tasks task t in
    let (flag, row) = skip_sent robot task msg db s (ap (get_task db) k ∙ t) in
    let e = skip_found robot task message_id msg db i m in
    (
      (skip_message robot task (some msg) db).0,
      λ phone fuel.
          unfold run_send_task in
          unfold run_found in rw (t, run_send_task, r, run_found, e, flag) refl,
      subst (λ j. get_task (skip_message robot task (some msg) db).0 j ≡ some (complete_row task)) k
          row,
    )
