-- ===== src/TaskQueue/Claim.antt =====
-- backend/app/services/task_queue.py, `_claim_next`: which task runs next, and when none does.
use wecom_ai_agent.Prelude.{
  ℕ, ◌≡◌, refl, ◌⊎◌, inl, inr, String, Bool, true, false, Option, none, some, List, [], ◌∷◌, arith,
  Option-cases, Bool-cases, List-cases, sym, ap, subst, ◌∙◌, any, Member, ==_refl,
}
use wecom_ai_agent.Prelude.Table.{update, get_of_Member, Keyed, Keyed-update}
use wecom_ai_agent.Prelude.Order.{lex_leb, select_first, select_none}
use wecom_ai_agent.Store.{
  Robot, RobotTask, TaskStatus, Settings, Db, get_task, find_robot, task_key,
}
use wecom_ai_agent.TaskQueue.{
  claim_next, claim_for, claim_task, pending_tasks, queue_key, runnable_of, running_of, running_row,
}
use wecom_ai_agent.TaskQueue.Frame.{
  audit-tasks, audit-robots, broadcast_task-tasks, broadcast_task-robots,
}

-- The task runs before every waiting task of its robot.
abbrev pub IsNext : Settings → Db → ℕ → RobotTask → Type 0
IsNext settings db robot_pk task =
    (t : RobotTask)
    → Member t db.tasks
    → runnable_of robot_pk t ≡ true
    → lex_leb (queue_key settings.nulls_first task) (queue_key settings.nulls_first t) ≡ true

-- The effect of a claim of one task on the table.
claim_task-tasks :
    (task : RobotTask) (db : Db)
    → ((claim_task (some task) db).0.tasks ≡ update task_key task.id running_row db.tasks)
      × ((claim_task (some task) db).1 ≡ some (task.id, task.type))
      × ((claim_task (some task) db).0.robots ≡ db.robots)
unfolding claim_task
claim_task-tasks task db =
    (rw (broadcast_task-tasks, audit-tasks), refl, rw (broadcast_task-robots, audit-robots))

-- A task that the robot may start: it is idle, and this is the next of its waiting tasks.
pub record IsPick (settings : Settings) (db : Db) (robot_pk : ℕ) (task : RobotTask) : Type 0 where
  pub member : Member task db.tasks
  pub waiting : runnable_of robot_pk task ≡ true
  pub next : IsNext settings db robot_pk task
  pub idle : any (running_of robot_pk) db.tasks ≡ false

-- The robot has a running task, or none of its tasks waits.
abbrev pub IsBlocked : Db → ℕ → Type 0
IsBlocked db robot_pk =
    (any (running_of robot_pk) db.tasks ≡ true)
    ⊎ ((t : RobotTask) → Member t db.tasks → runnable_of robot_pk t ≡ false)

module _ (settings : Settings) (robot : Robot) (db : Db) where
  IsPick-cases :
      any (running_of robot.id) db.tasks ≡ false
      → ((claim_for settings (some robot) db ≡ (db, none)) × IsBlocked db robot.id)
        ⊎ ((task : RobotTask) × IsPick settings db robot.id task
            × (claim_for settings (some robot) db ≡ claim_task (some task) db))
  unfolding pending_tasks
  IsPick-cases idle = elim (List-cases (pending_tasks settings db robot.id)) [
    | inl e ↦ inl (
      unfold claim_for claim_task in rw (idle, e),
      inr (select_none (queue_key settings.nulls_first) (runnable_of robot.id) db.tasks e),
    )
    | inr (task, rest, e) ↦
        let picked =
          select_first (queue_key settings.nulls_first) (runnable_of robot.id) db.tasks task rest
            e in
        inr (
          task,
          record { member = picked.0; waiting = picked.1; next = picked.2; idle = idle },
          unfold claim_for in rw (idle, e),
        )
  ]

  claim_for_cases :
      ((claim_for settings (some robot) db ≡ (db, none)) × IsBlocked db robot.id)
      ⊎ ((task : RobotTask) × IsPick settings db robot.id task
          × (claim_for settings (some robot) db ≡ claim_task (some task) db))
  claim_for_cases = elim (Bool-cases (any (running_of robot.id) db.tasks)) [
    | inl busy ↦ inl (unfold claim_for in rw busy, inl busy)
    | inr idle ↦ IsPick-cases idle
  ]

by_robot :
    (settings : Settings) (robot_id : String) (db : Db) {r : Option Robot}
    → find_robot db robot_id ≡ r
    → claim_next settings robot_id db ≡ claim_for settings r db
unfolding claim_next
by_robot settings robot_id db e = ap (λ r. claim_for settings r db) e

-- What a claim of a task means: the task that was claimed and the table that is left.
pub record Claims (settings : Settings) (db db' : Db) (robot_id : String) (id : ℕ) (kind : String)
    : Type 0 where
  pub robot : Robot
  pub task : RobotTask
  pub found : find_robot db robot_id ≡ some robot
  pub pick : IsPick settings db robot.id task
  pub row : get_task db id ≡ some task
  pub kind_eq : task.type ≡ kind
  pub written : db'.tasks ≡ update task_key id running_row db.tasks
  pub same_robots : db'.robots ≡ db.robots

-- A call that claims nothing leaves the state alone.
abbrev pub ClaimsNothing : Db → Db → String → Type 0
ClaimsNothing db db' robot_id =
    (db' ≡ db)
    × ((find_robot db robot_id ≡ none)
        ⊎ ((robot : Robot) × (find_robot db robot_id ≡ some robot) × IsBlocked db robot.id))

module _ (settings : Settings) (robot_id : String) (db db' : Db) {claimed : Option (ℕ × String)}
    (call : claim_next settings robot_id db ≡ (db', claimed)) where
  claimed_by :
      (robot : Robot) (task : RobotTask)
      → Keyed task_key 0 db.tasks
      → find_robot db robot_id ≡ some robot
      → IsPick settings db robot.id task
      → claim_task (some task) db ≡ (db', claimed)
      → (id : ℕ) × (kind : String) × (claimed ≡ some (id, kind))
        × Claims settings db db' robot_id id kind
  claimed_by robot task keyed e p f = (
    task.id,
    task.type,
    sym (ap (λ (r : Db × Option (ℕ × String)). r.1) f) ∙ (claim_task-tasks task db).1,
    record {
      robot = robot;
      task = task;
      found = e;
      pick = p;
      row = get_of_Member task_key 0 db.tasks task keyed p.member;
      kind_eq = refl;
      written =
          sym (ap (λ (r : Db × Option (ℕ × String)). r.0.tasks) f) ∙ (claim_task-tasks task db).0;
      same_robots =
          sym (ap (λ (r : Db × Option (ℕ × String)). r.0.robots) f) ∙ (claim_task-tasks task db).2;
    },
  )

  claimed_nothing : claim_next settings robot_id db ≡ (db, none) → (claimed ≡ none) × (db' ≡ db)
  claimed_nothing e = (cc, cc)

  pub claim_next_cases :
      Keyed task_key 0 db.tasks
      → ((claimed ≡ none) × ClaimsNothing db db' robot_id)
        ⊎ ((id : ℕ) × (kind : String) × (claimed ≡ some (id, kind))
            × Claims settings db db' robot_id id kind)
  claim_next_cases keyed = elim (Option-cases (find_robot db robot_id)) [
    | inl e ↦
        let (c, d) = claimed_nothing (by_robot settings robot_id db e ∙ unfold claim_for in refl) in
        inl (c, (d, inl e))
    | inr (robot, e) ↦ elim (claim_for_cases settings robot db) [
      | inl (f, blocked) ↦
          let (c, d) = claimed_nothing (by_robot settings robot_id db e ∙ f) in
          inl (c, (d, inr (robot, e, blocked)))
      | inr (task, pick, f) ↦ inr (
          claimed_by robot task keyed e pick (sym f ∙ sym (by_robot settings robot_id db e) ∙ call))
    ]
  ]

-- With the task ids in order, the claimed task is the first of its robot's waiting tasks by
-- priority, then by queue number, then by id; no task of the robot was running; and the call
-- changes the status of that row alone, to running, and clears its last error.
pub claim_next-Claims :
    (settings : Settings) (robot_id : String) (db db' : Db) (id : ℕ) (kind : String)
    → Keyed task_key 0 db.tasks
    → claim_next settings robot_id db ≡ (db', some (id, kind))
    → Claims settings db db' robot_id id kind
claim_next-Claims settings robot_id db db' id kind keyed call =
    elim (claim_next_cases settings robot_id db db' call keyed) [
      | inl (e, _) ↦ cc
      | inr (i, k, e, c) ↦ let p : id ≡ i = cc in let q : kind ≡ k = cc in rw (p, q) c
    ]

-- With the task ids in order, a call claims nothing only when the robot is not known, has a task
-- running or has none waiting, and then it changes nothing.
pub claim_next-none :
    (settings : Settings) (robot_id : String) (db db' : Db)
    → Keyed task_key 0 db.tasks
    → claim_next settings robot_id db ≡ (db', none)
    → ClaimsNothing db db' robot_id
claim_next-none settings robot_id db db' keyed call =
    elim (claim_next_cases settings robot_id db db' call keyed) [
      | inl (_, c) ↦ c
      | inr (i, k, e, c) ↦ cc
    ]

pub claimed-Keyed :
    (settings : Settings) (db db' : Db) (robot_id : String) (id : ℕ) (kind : String)
    → Claims settings db db' robot_id id kind
    → Keyed task_key 0 db.tasks
    → Keyed task_key 0 db'.tasks
unfolding running_row
claimed-Keyed settings db db' robot_id id kind c keyed =
    subst (Keyed task_key 0) (sym c.written)
      (Keyed-update task_key 0 id running_row db.tasks (λ t. refl) keyed)

any_of_Member :
    {A : Type 0} (p : A → Bool) (xs : List A) (x : A) → Member x xs → p x ≡ true → any p xs ≡ true
any_of_Member p [] x m h = absurd m
any_of_Member p (y ∷ xs) x (inl e) h = ground arith
any_of_Member p (y ∷ xs) x (inr m) h = ground (arith, any_of_Member p xs x m h)

-- While a task of the robot is running, no task of the robot is claimed and nothing changes.
pub running_blocks :
    (settings : Settings) (robot_id : String) (db : Db) (robot : Robot) (task : RobotTask)
    → find_robot db robot_id ≡ some robot
    → Member task db.tasks
    → task.robot_id ≡ robot.id
    → task.status ≡ TaskStatus.running
    → claim_next settings robot_id db ≡ (db, none)
unfolding claim_next claim_for
running_blocks settings robot_id db robot task found m o s =
    let busy : any (running_of robot.id) db.tasks ≡ true =
      any_of_Member (running_of robot.id) db.tasks task m (ground (arith, ==_refl robot.id)) in
    simp (found, busy)
