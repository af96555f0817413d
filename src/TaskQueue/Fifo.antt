-- ===== src/TaskQueue/Fifo.antt =====
-- backend/app/services/task_queue.py, `enqueue` and `cancel`: the place in the queue, and who may
-- leave it.
use wecom_ai_agent.Prelude.{
  ℕ, ◌≤◌, ◌<◌, ◌≡◌, ◌≢◌, refl, sym, ◌∙◌, ap, ap₂, inl, inr, String, true, false, Option, some, List,
  [], ◌∷◌, arith, keep, Member, Member-keep_of, or_else, ==_iff, ==_refl, ◌==◌,
}
use wecom_ai_agent.Prelude.Table.{get, update, get-update_self, get-update_ne, get-key, get-Member}
use wecom_ai_agent.Prelude.Order.{lex_leb, lex_leb-cons, lex_leb-lt}
use wecom_ai_agent.Store.{Robot, RobotTask, Settings, Db, get_task, find_robot, task_key}
use wecom_ai_agent.TaskQueue.{
  enqueue, enqueue_found, task_of_robot, is_terminal, next_queue_seq, max_seq, queued_row,
  queue_key, null_rank,
}
use wecom_ai_agent.TaskQueue.Frame.{audit-tasks}

max_seq-ge :
    (t : RobotTask) (ts : List RobotTask) → Member t ts → or_else t.queue_seq 0 ≤ max_seq ts
unfolding max_seq
max_seq-ge t [] m = absurd m
max_seq-ge t (x ∷ ts) (inl e) = rw e (omega arith)
max_seq-ge t (x ∷ ts) (inr m) = omega (arith, max_seq-ge t ts m)

-- The next queue number is above the queue numbers of all tasks of the robot.
pub next_queue_seq-fresh :
    (db : Db) (robot_pk : ℕ) (t : RobotTask)
    → Member t db.tasks
    → t.robot_id ≡ robot_pk
    → or_else t.queue_seq 0 < next_queue_seq db robot_pk
unfolding next_queue_seq
next_queue_seq-fresh db robot_pk t m e = omega (
  arith,
  max_seq-ge t (keep (λ x. x.robot_id == robot_pk) db.tasks) (
      Member-keep_of (λ x. x.robot_id == robot_pk) db.tasks t m ((==_iff t.robot_id robot_pk).1 e)),
)

-- The task is there, belongs to the robot and has not ended.
pub record CanQueue (settings : Settings) (robot_id : String) (id : ℕ) (db : Db) : Type 0 where
  pub task : RobotTask
  pub robot : Robot
  pub enabled : settings.task_queue_enabled ≡ true
  pub row : get_task db id ≡ some task
  pub found : find_robot db robot_id ≡ some robot
  pub owner : task.robot_id ≡ robot.id
  pub open_ : is_terminal task.status ≡ false

owned :
    (task : RobotTask) (robot : Robot)
    → task.robot_id ≡ robot.id
    → task_of_robot (some task) (some robot) ≡ some (task, robot)
unfolding task_of_robot
owned task robot e = rw (e, ==_refl robot.id)

enqueue_found-tasks :
    (robot_id : String) (id priority : ℕ) (task : RobotTask) (robot : Robot) (db : Db)
    → is_terminal task.status ≡ false
    → (enqueue_found robot_id id priority (some (task, robot)) db).tasks
      ≡ update task_key id (queued_row priority (next_queue_seq db robot.id)) db.tasks
unfolding enqueue_found
enqueue_found-tasks robot_id id priority task robot db o =
    rw (o, enqueue_found) (audit-tasks id "info" _ _)

module _ (settings : Settings) (robot_id : String) (id priority : ℕ) (db : Db)
    (c : CanQueue settings robot_id id db) where
  enqueued :
      (enqueue settings robot_id id priority db).tasks
      ≡ update task_key id (queued_row priority (next_queue_seq db c.robot.id)) db.tasks
  unfolding enqueue
  enqueued =
      rw (c.enabled, enqueue)
        (ap (λ (r : Option (RobotTask × Robot)). (enqueue_found robot_id id priority r db).tasks)
            (ap₂ task_of_robot c.row c.found ∙ owned c.task c.robot c.owner)
          ∙ enqueue_found-tasks robot_id id priority c.task c.robot db c.open_)

  -- A task of the robot that has not ended is accepted, with the queue enabled: its row becomes
  -- queued, with the given priority, the next queue number of the robot and no error.
  pub enqueue-row :
      get_task (enqueue settings robot_id id priority db) id
      ≡ some (queued_row priority (next_queue_seq db c.robot.id) c.task)
  unfolding queued_row
  enqueue-row =
      ap (get task_key id) enqueued
      ∙ get-update_self task_key id (queued_row priority (next_queue_seq db c.robot.id)) db.tasks
          c.task c.row (get-key task_key id db.tasks c.task c.row)

  pub enqueue-others :
      (j : ℕ) → id ≢ j → get_task (enqueue settings robot_id id priority db) j ≡ get_task db j
  unfolding queued_row
  enqueue-others j h =
      ap (get task_key j) enqueued
      ∙ get-update_ne task_key id j (queued_row priority (next_queue_seq db c.robot.id)) db.tasks
          (λ t. refl) h

behind :
    (i p a b x y : ℕ)
    → a < b
    → (lex_leb (i ∷ p ∷ i ∷ a ∷ x ∷ []) (i ∷ p ∷ i ∷ b ∷ y ∷ []) ≡ true)
      × (lex_leb (i ∷ p ∷ i ∷ b ∷ y ∷ []) (i ∷ p ∷ i ∷ a ∷ x ∷ []) ≡ false)
behind i p a b x y h =
    let (l, g) = lex_leb-lt a b (x ∷ []) (y ∷ []) h in (simp lex_leb-cons l, simp lex_leb-cons g)

-- Two tasks of a robot that can be queued, and are queued one after the other with one priority,
-- run in that order: the first comes strictly before the second in the queue.
pub enqueue-enqueue_fifo :
    (settings : Settings) (robot_id : String) (a b priority : ℕ) (db : Db)
    (first : CanQueue settings robot_id a db)
    (second : CanQueue settings robot_id b (enqueue settings robot_id a priority db))
    → a ≢ b
    → first.robot.id ≡ second.robot.id
    → let db' = enqueue settings robot_id b priority (enqueue settings robot_id a priority db) in
      (s : RobotTask) × (t : RobotTask) × (get_task db' a ≡ some s)
      × (get_task db' b ≡ some t)
      × (lex_leb (queue_key settings.nulls_first s) (queue_key settings.nulls_first t) ≡ true)
      × (lex_leb (queue_key settings.nulls_first t) (queue_key settings.nulls_first s) ≡ false)
unfolding queue_key queued_row null_rank
enqueue-enqueue_fifo settings robot_id a b priority db first second h e =
    let mid = enqueue settings robot_id a priority db in
    let s = queued_row priority (next_queue_seq db first.robot.id) first.task in
    let row_a : get_task mid a ≡ some s = enqueue-row settings robot_id a priority db first in
    let below : next_queue_seq db first.robot.id < next_queue_seq mid second.robot.id =
      next_queue_seq-fresh mid second.robot.id s (get-Member task_key a mid.tasks s row_a)
        (first.owner ∙ e) in
    let order =
      behind (null_rank settings.nulls_first (some 0)) priority _ _ s.id second.task.id below in
    (
      s,
      queued_row priority (next_queue_seq mid second.robot.id) second.task,
      enqueue-others settings robot_id b priority mid second a (λ p. h (sym p)) ∙ row_a,
      enqueue-row settings robot_id b priority mid second,
      order.0,
      order.1,
    )
