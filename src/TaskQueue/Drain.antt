-- ===== src/TaskQueue/Drain.antt =====
-- backend/app/services/task_queue.py: the loop that runs the tasks of a robot, and the recovery of
-- the queue at startup. The runners, which drive the device, are arguments.
use wecom_ai_agent.Prelude.{
  ℕ, zero, suc, String, Bool, Option, none, some, List, [], ◌∷◌, ◌++◌, ◌||◌, ◌&&◌, str_eq,
  if◌then◌else◌, or_else, is_some, keep, any, length,
}
use wecom_ai_agent.Prelude.Order.{order_by}
use wecom_ai_agent.Prelude.Text.{Text, codes}
use wecom_ai_agent.Store.{Robot, RobotTask, TaskStatus, Settings, Db, get_robot, update_task}
use wecom_ai_agent.TaskQueue.{
  claim_next, audit, mark_failed, mark_cancelled, next_queue_seq, is_runnable, is_active,
}
use wecom_ai_agent.TaskQueue.Labels.{default_priority}

-- How a runner ends: it returns, raises an exception with a text, or is cancelled.
pub data Outcome : Type 0 where
  returned : Db → Outcome
  crashed : Text → Db → Outcome
  interrupted : Db → Outcome

-- Whether the loop goes on after a task.
pub data Settled : Type 0 where
  proceed : Db → Settled
  abort : Db → Settled

abbrev pub Runner : Type 0
Runner = ℕ → Db → Outcome

-- `_REGISTRY.get(kind)`
unfoldable pub find_runner : String → List (String × Runner) → Option Runner
find_runner kind [] = none
find_runner kind ((k, r) ∷ rest) = if str_eq k kind then some r else find_runner kind rest

-- `register_runner`
unfoldable pub register_runner : String → Runner → List (String × Runner) → List (String × Runner)
register_runner kind runner registry = (kind, runner) ∷ registry

settle : ℕ → Outcome → Settled
unfolding audit mark_failed mark_cancelled
settle task_id (returned db) = proceed db
settle task_id (interrupted db) = abort (mark_cancelled task_id (codes "任务执行已中断") db)
settle task_id (crashed e db) = proceed (
    mark_failed task_id (codes "runner crashed: " ++ e)
      (audit task_id "error" (codes "执行崩溃：" ++ e) db))

run_found : ℕ → String → Option Runner → Db → Settled
unfolding settle
run_found task_id kind none db = proceed (
    mark_failed task_id (codes "unknown task kind: " ++ codes kind)
      (audit task_id "warn" (codes "未知 kind=" ++ (codes kind ++ codes "，跳过")) db))
run_found task_id kind (some runner) db = settle task_id (runner task_id db)

-- One round of the loop, for the task that was claimed.
unfoldable pub run_claimed : List (String × Runner) → ℕ → String → Db → Settled
unfolding run_found find_runner
run_claimed registry task_id kind db = run_found task_id kind (find_runner kind registry) db

-- `drain_robot` ends with True, False (another drain holds the lock) or the cancellation, which it
-- passes on.
pub data Drained : Type 0 where
  emptied : Db → Drained
  refused : Db → Drained
  aborted : Db → Drained

module _ (settings : Settings) (registry : List (String × Runner)) (robot_id : String) where
  -- The `while True` of `drain_robot`; `none` if the fuel runs out.
  unfoldable pub drain_loop : ℕ → Db → Option Drained
  drain_loop zero db = none
  drain_loop (suc fuel) db =
      let (db', claimed) = claim_next settings robot_id db in
      elim claimed [
        | none ↦ some (emptied db')
        | some (task_id, kind) ↦ elim (run_claimed registry task_id kind db') [
          | proceed after ↦ drain_loop fuel after
          | abort after ↦ some (aborted after)
        ]
      ]

  -- `drain_robot`, where `locked` says whether a drain of this robot is under way.
  unfoldable pub drain_robot : Bool → ℕ → Db → Option Drained
  unfolding drain_loop
  drain_robot locked fuel db = if locked then some (refused db) else drain_loop fuel db

-- The rows of `recover_pending_tasks`: the tasks to wake, of a robot that is there.
abbrev pub is_pending : TaskStatus → Bool
is_pending status = is_runnable status || is_active status

recovered_status : TaskStatus → TaskStatus
recovered_status TaskStatus.running = TaskStatus.queued
recovered_status TaskStatus.dispatched = TaskStatus.queued
recovered_status status = status

unfoldable pub recovered_row : ℕ → RobotTask → RobotTask
unfolding recovered_status default_priority
recovered_row seq task = record task {
  status = recovered_status task.status;
  priority = some (or_else task.priority (default_priority task.type));
  queue_seq = some (or_else task.queue_seq seq);
}

unfoldable pub recover_rows : List RobotTask → Db → Db
unfolding recovered_row next_queue_seq
recover_rows [] db = db
recover_rows (t ∷ ts) db =
    recover_rows ts (update_task t.id (recovered_row (next_queue_seq db t.robot_id)) db)

unfoldable pub pending_rows : Db → List RobotTask
pending_rows db =
    order_by (λ t. t.created_at ∷ t.id ∷ [])
      (keep (λ t. is_pending t.status && is_some (get_robot db t.robot_id)) db.tasks)

-- The set of the robots to wake, in the order in which they are met.
add_wake : Option Robot → List String → List String
add_wake none ids = ids
add_wake (some robot) ids =
    if any (str_eq robot.robot_id) ids then ids else ids ++ robot.robot_id ∷ []

robots_to_wake : Db → List RobotTask → List String → List String
unfolding add_wake
robots_to_wake db [] ids = ids
robots_to_wake db (t ∷ ts) ids = robots_to_wake db ts (add_wake (get_robot db t.robot_id) ids)

-- `recover_pending_tasks`: the state and the number of recovered tasks
unfoldable pub recover_pending_tasks : Settings → Db → Db × ℕ
unfolding pending_rows recover_rows robots_to_wake
recover_pending_tasks settings db =
    if settings.task_queue_enabled
    then (let rows = pending_rows db in
        let db' = recover_rows rows db in
        (record db' { celery_wakes = db'.celery_wakes ++ robots_to_wake db rows [] }, length rows))
    else (db, 0)
