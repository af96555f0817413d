-- ===== src/TaskQueue/Frame.antt =====
-- backend/app/services/task_queue.py: what the audit trail, the broadcasts and the writes of one
-- task leave alone.
use wecom_ai_agent.Prelude.{
  ℕ, ◌⊎◌, ◌≡◌, refl, String, Option, none, some, arith, Option-cases, inl, inr,
}
use wecom_ai_agent.Prelude.Table.{update, update-none, get-key}
use wecom_ai_agent.Prelude.Text.{Text}
use wecom_ai_agent.Store.{Robot, RobotTask, Db, get_task, get_robot, task_key}
use wecom_ai_agent.TaskQueue.{
  audit, audit_robot, broadcast_task, cancel_row, fail_row, mark_cancelled, cancel_found,
  mark_failed, robot_of_task,
}

audit_robot-tasks :
    (robot : Option Robot) (id : ℕ) (level : String) (message : Text) (db : Db)
    → ((audit_robot robot id level message db).tasks ≡ db.tasks)
      × ((audit_robot robot id level message db).robots ≡ db.robots)
      × ((audit_robot robot id level message db).messages ≡ db.messages)
unfolding audit_robot
audit_robot-tasks none id level message db = (refl, refl, refl)
audit_robot-tasks (some robot) id level message db = (refl, refl, refl)

module _ (id : ℕ) (level : String) (message : Text) (db : Db) where
  pub audit-tasks : (audit id level message db).tasks ≡ db.tasks
  unfolding audit
  audit-tasks = (audit_robot-tasks (robot_of_task db id) id level message db).0

  pub audit-robots : (audit id level message db).robots ≡ db.robots
  unfolding audit
  audit-robots = (audit_robot-tasks (robot_of_task db id) id level message db).1

  pub audit-messages : (audit id level message db).messages ≡ db.messages
  unfolding audit
  audit-messages = (audit_robot-tasks (robot_of_task db id) id level message db).2

module _ (id : ℕ) (db : Db) where
  pub broadcast_task-tasks : (broadcast_task id db).tasks ≡ db.tasks
  unfolding broadcast_task
  broadcast_task-tasks = ground arith

  pub broadcast_task-robots : (broadcast_task id db).robots ≡ db.robots
  unfolding broadcast_task
  broadcast_task-robots = ground arith

  pub broadcast_task-messages : (broadcast_task id db).messages ≡ db.messages
  unfolding broadcast_task
  broadcast_task-messages = ground arith

-- A write of one row, if the row and its robot are there.
cancel_found-tasks :
    (task : RobotTask) (robot : Robot) (message : Text) (db : Db)
    → ((cancel_found task (some robot) message db).tasks
        ≡ update task_key task.id (cancel_row message) db.tasks)
      × ((cancel_found task (some robot) message db).robots ≡ db.robots)
unfolding cancel_found
cancel_found-tasks task robot message db =
    (rw (broadcast_task-tasks, audit-tasks), rw (broadcast_task-robots, audit-robots))

module _ (id : ℕ) (message : Text) (db : Db) where
  pub mark_cancelled-tasks :
      (task : RobotTask) (robot : Robot)
      → get_task db id ≡ some task
      → get_robot db task.robot_id ≡ some robot
      → (mark_cancelled id message db).tasks ≡ update task_key id (cancel_row message) db.tasks
  unfolding mark_cancelled
  mark_cancelled-tasks task robot t r =
      rw (t, mark_cancelled, r)
        (rw (← get-key task_key id db.tasks task t) (cancel_found-tasks task robot message db).0)

  pub mark_cancelled-robots : (mark_cancelled id message db).robots ≡ db.robots
  unfolding mark_cancelled
  mark_cancelled-robots = elim (Option-cases (get_task db id)) [
    | inl e ↦ rw (e, mark_cancelled)
    | inr (task, e) ↦ elim (Option-cases (get_robot db task.robot_id)) [
      | inl f ↦ rw (e, mark_cancelled, f) (unfold cancel_found in refl)
      | inr (robot, f) ↦ rw (e, mark_cancelled, f) (cancel_found-tasks task robot message db).1
    ]
  ]

  pub mark_cancelled_cases :
      ((mark_cancelled id message db).tasks ≡ db.tasks)
      ⊎ ((mark_cancelled id message db).tasks ≡ update task_key id (cancel_row message) db.tasks)
  unfolding mark_cancelled
  mark_cancelled_cases = elim (Option-cases (get_task db id)) [
    | inl e ↦ inl (rw (e, mark_cancelled))
    | inr (task, e) ↦ elim (Option-cases (get_robot db task.robot_id)) [
      | inl f ↦ inl (rw (e, mark_cancelled, f) (unfold cancel_found in refl))
      | inr (robot, f) ↦ inr (mark_cancelled-tasks task robot e f)
    ]
  ]

  pub mark_failed-tasks :
      (mark_failed id message db).tasks ≡ update task_key id (fail_row message) db.tasks
  unfolding mark_failed
  mark_failed-tasks = ground (
    arith,
    update-none task_key id (fail_row message) db.tasks,
    broadcast_task-tasks id (record db { tasks = update task_key id (fail_row message) db.tasks }),
  )

  pub mark_failed-robots : (mark_failed id message db).robots ≡ db.robots
  unfolding mark_failed
  mark_failed-robots = ground (
    arith,
    broadcast_task-robots id (record db { tasks = update task_key id (fail_row message) db.tasks }),
  )
