-- ===== src/TaskQueue/Cancel.antt =====
-- backend/app/services/task_queue.py, `cancel`: when a cancellation is accepted, and what it writes.
use wecom_ai_agent.Prelude.{
  ℕ, ◌≡◌, ◌≢◌, refl, sym, ◌∙◌, ap, ◌⊎◌, inl, inr, String, Bool, true, false, Option, none, some,
  Bool-cases, ==_iff, ◌==◌, conflict,
}
use wecom_ai_agent.Prelude.Table.{get, get-update_self, get-key}
use wecom_ai_agent.Prelude.Text.{Text, codes}
use wecom_ai_agent.Store.{
  Robot, RobotTask, Db, get_task, get_robot, find_robot, task_key, TaskStatus,
}
use wecom_ai_agent.TaskQueue.{
  cancel, cancel_checked, task_of_robot, is_terminal, is_active, cancel_row, mark_cancelled,
}
use wecom_ai_agent.TaskQueue.Frame.{mark_cancelled-tasks}

abbrev cancel_message : Text
cancel_message = codes "任务已从等待队列中取消"

-- The task is there, belongs to the robot, and neither runs nor has ended.
pub record CanCancel (robot_id : String) (id : ℕ) (db : Db) : Type 0 where
  pub task : RobotTask
  pub robot : Robot
  pub row : get_task db id ≡ some task
  pub found : find_robot db robot_id ≡ some robot
  pub owner : task.robot_id ≡ robot.id
  pub open_ : is_terminal task.status ≡ false
  pub idle : is_active task.status ≡ false

some-inj : {a b : RobotTask} → some a ≡ some b → a ≡ b
some-inj p = cc

some-none : (r : RobotTask × Robot) → some r ≢ none
some-none r p = cc

task_of_robot_cases :
    (t : Option RobotTask) (r : Option Robot)
    → (task_of_robot t r ≡ none)
      ⊎ ((task : RobotTask) × (robot : Robot) × (t ≡ some task)
          × (r ≡ some robot)
          × (task.robot_id ≡ robot.id)
          × (task_of_robot t r ≡ some (task, robot)))
unfolding task_of_robot
task_of_robot_cases none r = inl refl
task_of_robot_cases (some task) none = inl refl
task_of_robot_cases (some task) (some robot) = elim (Bool-cases (task.robot_id == robot.id)) [
  | inl e ↦ inr (task, robot, refl, refl, (==_iff task.robot_id robot.id).0 e, rw e)
  | inr e ↦ inl (rw e)
]

-- The two ends of a cancellation.
abbrev pub Refused : String → ℕ → (Db → Db) → Db → Type 0
Refused robot_id id meanwhile db =
    (¬ CanCancel robot_id id db) × (cancel robot_id id meanwhile db ≡ (db, false))

abbrev pub Accepted : String → ℕ → (Db → Db) → Db → Type 0
Accepted robot_id id meanwhile db =
    CanCancel robot_id id db
    × ((cancel robot_id id meanwhile db).1 ≡ true)
    × ((task : RobotTask) (robot : Robot)
        → get_task (meanwhile db) id ≡ some task
        → get_robot (meanwhile db) task.robot_id ≡ some robot
        → get_task (cancel robot_id id meanwhile db).0 id ≡ some (cancel_row cancel_message task))

module _ (robot_id : String) (id : ℕ) (meanwhile : Db → Db) (db : Db) where
  by_row :
      {row : Option (RobotTask × Robot)}
      → task_of_robot (get_task db id) (find_robot db robot_id) ≡ row
      → cancel robot_id id meanwhile db ≡ cancel_checked id meanwhile row db
  unfolding cancel
  by_row e = ap (λ r. cancel_checked id meanwhile r db) e

  row_of :
      (c : CanCancel robot_id id db)
      → task_of_robot (get_task db id) (find_robot db robot_id) ≡ some (c.task, c.robot)
  unfolding task_of_robot
  row_of c = rw (c.row, c.found, task_of_robot, (==_iff c.task.robot_id c.robot.id).1 c.owner)

  accepted :
      CanCancel robot_id id db
      → cancel robot_id id meanwhile db ≡ (mark_cancelled id cancel_message (meanwhile db), true)
      → Accepted robot_id id meanwhile db
  unfolding cancel_row
  accepted c e = (
    c,
    ap (λ (x : Db × Bool). x.1) e,
    λ task robot h r.
        ap (λ (x : Db × Bool). get_task x.0 id) e
        ∙ (ap (get task_key id)
              (mark_cancelled-tasks id cancel_message (meanwhile db) task robot h r)
            ∙ get-update_self task_key id (cancel_row cancel_message) (meanwhile db).tasks task h
                (get-key task_key id (meanwhile db).tasks task h)),
  )

  -- A cancellation is accepted exactly if the task is there, belongs to the robot, and neither runs
  -- nor has ended when it is checked. One that is refused changes nothing. After one that is
  -- accepted, the row that is there when it is written is cancelled, with the reason as its error,
  -- whatever others have committed in between.
  pub cancel_cases : Refused robot_id id meanwhile db ⊎ Accepted robot_id id meanwhile db
  cancel_cases = elim (task_of_robot_cases (get_task db id) (find_robot db robot_id)) [
    | inl e ↦ inl (no_row e, by_row e ∙ unfold cancel_checked in refl)
    | inr (task, robot, t, r, o, e) ↦ elim (Bool-cases (is_terminal task.status)) [
      | inl d ↦ inl (
        (λ c. conflict c.open_ (same_task c t is_terminal d)),
        by_row e ∙ unfold cancel_checked in rw d,
      )
      | inr d ↦ elim (Bool-cases (is_active task.status)) [
        | inl a ↦ inl (
          (λ c. conflict c.idle (same_task c t is_active a)),
          by_row e ∙ unfold cancel_checked in rw (d, a),
        )
        | inr a ↦ inr (
            accepted
              (record {
                task = task;
                robot = robot;
                row = t;
                found = r;
                owner = o;
                open_ = d;
                idle = a;
              })
              (by_row e ∙ unfold cancel_checked in rw (d, a)))
      ]
    ]
  ]
    where
      same_task :
          {task : RobotTask} (c : CanCancel robot_id id db)
          → get_task db id ≡ some task
          → (p : TaskStatus → Bool) → p task.status ≡ true
          → p c.task.status ≡ true
      same_task c t p h = let e : some c.task ≡ some _ = sym c.row ∙ t in rw (some-inj e) h

      no_row :
          task_of_robot (get_task db id) (find_robot db robot_id) ≡ none
          → ¬ CanCancel robot_id id db
      no_row e c = some-none _ (sym (row_of c) ∙ e)
