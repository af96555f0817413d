-- ===== src/TaskQueue.antt =====
-- backend/app/services/task_queue.py: the queue of device tasks of each robot. A function that
-- awaits the database runs as one step; the interleaving of such steps is in Serial.
pub mod Chats
pub mod Labels
pub mod Drain
pub mod Frame
pub mod Quiet
pub mod Claim
pub mod Fifo
pub mod Cancel
use wecom_ai_agent.Prelude.{
  ℕ, ◌+◌, String, Bool, true, false, Option, none, some, List, [], ◌∷◌, ◌++◌, ◌==◌, ◌&&◌, max,
  if◌then◌else◌, or_else, is_some, head, keep, any, leb,
}
use wecom_ai_agent.Prelude.Order.{order_by}
use wecom_ai_agent.Prelude.Text.{Text, codes, show}
use wecom_ai_agent.Store.{
  Robot, Message, RobotTask, TaskStatus, MessageStatus, Settings, Event, Db, get_robot, get_task,
  get_message, find_robot, update_task, update_message_of, emit, add_log, truthy_id,
}

abbrev pub priority_operator : ℕ
priority_operator = 0

abbrev pub priority_auto_reply : ℕ
priority_auto_reply = 50

abbrev pub priority_background : ℕ
priority_background = 200

-- RUNNABLE_STATUSES
abbrev pub is_runnable : TaskStatus → Bool
is_runnable TaskStatus.dispatched = true
is_runnable TaskStatus.queued = true
is_runnable _ = false

-- ACTIVE_STATUSES
abbrev pub is_active : TaskStatus → Bool
is_active TaskStatus.running = true
is_active _ = false

-- TERMINAL_STATUSES
abbrev pub is_terminal : TaskStatus → Bool
is_terminal TaskStatus.completed = true
is_terminal TaskStatus.failed = true
is_terminal TaskStatus.cancelled = true
is_terminal TaskStatus.timeout = true
is_terminal _ = false

-- services/send_orchestrator.py, `append_task_log`: an id that is no task's is stored as NULL.
safe_task_id : Option ℕ → Db → Option ℕ
safe_task_id none db = none
safe_task_id (some id) db =
    if leb id 0 then none else if is_some (get_task db id) then some id else none

unfoldable pub append_task_log : Robot → Option ℕ → String → Text → Db → Db
unfolding safe_task_id add_log
append_task_log robot task_id level message db =
    emit (Event.task_log robot.team_id robot.robot_id task_id level message)
      (add_log robot.id (safe_task_id task_id db) level message db)

-- The robot of a task, by the join of `_audit`.
robot_of_task : Db → ℕ → Option Robot
robot_of_task db task_id = elim (get_task db task_id) [
  | none ↦ none
  | some task ↦ get_robot db task.robot_id
]

audit_robot : Option Robot → ℕ → String → Text → Db → Db
unfolding append_task_log
audit_robot none task_id level message db = db
audit_robot (some robot) task_id level message db =
    append_task_log robot (some task_id) level (codes "[queue] " ++ message) db

-- `_audit`
unfoldable pub audit : ℕ → String → Text → Db → Db
unfolding robot_of_task audit_robot
audit task_id level message db = audit_robot (robot_of_task db task_id) task_id level message db

broadcast_message : Robot → Option ℕ → Option Message → Db → Db
broadcast_message robot (some conversation_id) (some msg) db =
    emit (Event.message_updated robot.team_id conversation_id msg) db
broadcast_message robot _ _ db = db

message_of : Db → Option ℕ → Option Message
message_of db none = none
message_of db (some id) = get_message db id

broadcast_found : RobotTask → Option Robot → Db → Db
unfolding broadcast_message message_of
broadcast_found task none db = db
broadcast_found task (some robot) db =
    broadcast_message robot (truthy_id task.conversation_id)
      (message_of db (truthy_id task.message_id))
      (emit (Event.task_updated robot.team_id task.id task.status task.last_error) db)

-- `_broadcast_task`
unfoldable pub broadcast_task : ℕ → Db → Db
unfolding broadcast_found
broadcast_task task_id db = elim (get_task db task_id) [
  | none ↦ db
  | some task ↦ broadcast_found task (get_robot db task.robot_id) db
]

unfoldable pub cancel_row : Text → RobotTask → RobotTask
cancel_row message task = record task { status = TaskStatus.cancelled; last_error = some message }

cancel_found : RobotTask → Option Robot → Text → Db → Db
unfolding cancel_row audit broadcast_task
cancel_found task none message db = db
cancel_found task (some robot) message db = broadcast_task task.id (
    audit task.id "warn" message (
      update_message_of task.message_id
        (λ msg. record msg { status = some MessageStatus.cancelled })
        (update_task task.id (cancel_row message) db)))

-- `_mark_cancelled`
unfoldable pub mark_cancelled : ℕ → Text → Db → Db
unfolding cancel_found
mark_cancelled task_id message db = elim (get_task db task_id) [
  | none ↦ db
  | some task ↦ cancel_found task (get_robot db task.robot_id) message db
]

unfoldable pub fail_row : Text → RobotTask → RobotTask
fail_row message task = record task { status = TaskStatus.failed; last_error = some message }

-- `_mark_failed`
unfoldable pub mark_failed : ℕ → Text → Db → Db
unfolding fail_row broadcast_task
mark_failed task_id message db = elim (get_task db task_id) [
  | none ↦ db
  | some task ↦ broadcast_task task_id (update_task task_id (fail_row message) db)
]

max_seq : List RobotTask → ℕ
max_seq [] = 0
max_seq (t ∷ ts) = max (or_else t.queue_seq 0) (max_seq ts)

-- `_next_queue_seq`: `func.max` skips NULL, and no row gives 0.
unfoldable pub next_queue_seq : Db → ℕ → ℕ
unfolding max_seq
next_queue_seq db robot_pk = max_seq (keep (λ t. t.robot_id == robot_pk) db.tasks) + 1

unfoldable pub queued_row : ℕ → ℕ → RobotTask → RobotTask
queued_row priority seq task = record task {
  status = TaskStatus.queued;
  priority = some priority;
  queue_seq = some seq;
  last_error = none;
}

-- The rows that `enqueue` and `cancel` ask for, if the task belongs to the robot.
task_of_robot : Option RobotTask → Option Robot → Option (RobotTask × Robot)
task_of_robot (some task) (some robot) =
    if task.robot_id == robot.id then some (task, robot) else none
task_of_robot _ _ = none

enqueue_found : String → ℕ → ℕ → Option (RobotTask × Robot) → Db → Db
unfolding queued_row next_queue_seq audit
enqueue_found robot_id task_id priority none db = db
enqueue_found robot_id task_id priority (some (task, robot)) db =
    if is_terminal task.status
    then db
    else (let db' = update_task task_id (queued_row priority (next_queue_seq db robot.id)) db in
        let audited = audit task_id "info" (codes "已入队 priority=" ++ show priority) db' in
        record audited { celery_wakes = audited.celery_wakes ++ robot_id ∷ [] })

unfoldable pub enqueue : Settings → String → ℕ → ℕ → Db → Db
unfolding enqueue_found task_of_robot mark_cancelled
enqueue settings robot_id task_id priority db =
    if settings.task_queue_enabled
    then enqueue_found robot_id task_id priority
        (task_of_robot (get_task db task_id) (find_robot db robot_id)) db
    else mark_cancelled task_id (codes "任务队列已禁用，当前仅记录消息回调") db

cancel_checked : ℕ → (Db → Db) → Option (RobotTask × Robot) → Db → Db × Bool
unfolding mark_cancelled
cancel_checked task_id meanwhile none db = (db, false)
cancel_checked task_id meanwhile (some (task, robot)) db =
    if is_terminal task.status
    then (db, false)
    else if is_active task.status
    then (db, false)
    else (mark_cancelled task_id (codes "任务已从等待队列中取消") (meanwhile db), true)

-- `cancel` checks in one session and writes in another; `meanwhile` is what others commit in between.
unfoldable pub cancel : String → ℕ → (Db → Db) → Db → Db × Bool
unfolding cancel_checked task_of_robot
cancel robot_id task_id meanwhile db =
    cancel_checked task_id meanwhile (task_of_robot (get_task db task_id) (find_robot db robot_id))
      db

null_rank : Bool → Option ℕ → ℕ
null_rank nulls_first none = if nulls_first then 0 else 1
null_rank nulls_first (some n) = if nulls_first then 1 else 0

-- `order_by(priority.asc(), queue_seq.asc(), id.asc())`
unfoldable pub queue_key : Bool → RobotTask → List ℕ
unfolding null_rank
queue_key nulls_first t =
    null_rank nulls_first t.priority
    ∷ or_else t.priority 0
    ∷ null_rank nulls_first t.queue_seq
    ∷ or_else t.queue_seq 0
    ∷ t.id
    ∷ []

abbrev pub runnable_of : ℕ → RobotTask → Bool
runnable_of robot_pk t = (t.robot_id == robot_pk) && is_runnable t.status

abbrev pub running_of : ℕ → RobotTask → Bool
running_of robot_pk t = (t.robot_id == robot_pk) && is_active t.status

-- The waiting tasks of a robot, in the order in which they run.
unfoldable pub pending_tasks : Settings → Db → ℕ → List RobotTask
unfolding queue_key
pending_tasks settings db robot_pk =
    order_by (queue_key settings.nulls_first) (keep (runnable_of robot_pk) db.tasks)

unfoldable pub running_row : RobotTask → RobotTask
running_row task = record task { status = TaskStatus.running; last_error = none }

claim_task : Option RobotTask → Db → Db × Option (ℕ × String)
unfolding running_row audit broadcast_task
claim_task none db = (db, none)
claim_task (some task) db = (
  broadcast_task task.id (
      audit task.id "info" (codes "开始执行 kind=" ++ codes task.type)
        (update_task task.id running_row db)),
  some (task.id, task.type),
)

claim_for : Settings → Option Robot → Db → Db × Option (ℕ × String)
unfolding claim_task pending_tasks
claim_for settings none db = (db, none)
claim_for settings (some robot) db =
    if any (running_of robot.id) db.tasks
    then (db, none)
    else claim_task (head (pending_tasks settings db robot.id)) db

-- `_claim_next`: the id and the kind of the task that is to run.
unfoldable pub claim_next : Settings → String → Db → Db × Option (ℕ × String)
unfolding claim_for
claim_next settings robot_id db = claim_for settings (find_robot db robot_id) db
