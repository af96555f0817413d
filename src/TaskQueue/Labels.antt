-- ===== src/TaskQueue/Labels.antt =====
-- backend/app/services/task_queue.py: what an operator sees of the queue of a robot.
use wecom_ai_agent.Prelude.{
  ℕ, ◌-◌, String, Bool, Option, none, some, List, ◌++◌, map, ◌||◌, not, str_eq, if◌then◌else◌,
  or_else, is_empty, head, keep, length,
}
use wecom_ai_agent.Prelude.Text.{Text, codes, show, strip}
use wecom_ai_agent.Store.{Robot, RobotTask, Media, Settings, Db, find_robot}
use wecom_ai_agent.TaskQueue.{
  priority_operator, priority_auto_reply, priority_background, is_active, pending_tasks, running_of,
}

-- `_default_priority`
unfoldable pub default_priority : String → ℕ
default_priority kind =
    if str_eq kind "agent_goal"
    then priority_operator
    else if str_eq kind "send_text" || str_eq kind "send_media"
    then priority_auto_reply
    else priority_background

-- `a or b` of texts: the empty text is false
abbrev pub text_or : Text → Text → Text
text_or a b = if is_empty a then b else a

abbrev non_empty : Text → Option Text
non_empty a = if is_empty a then none else some a

-- `str(payload.get(key) or default).strip()`
label_of : Option Text → Text → Text
label_of value default = strip (text_or (or_else value (codes "")) default)

filename_of : Option Media → Option Text
filename_of none = none
filename_of (some media) = media.filename

is_image : Option String → Bool
is_image none = Bool.false
is_image (some kind) = str_eq kind "image"

-- `_task_labels_from_payload`: a title and a detail
unfoldable pub task_labels : RobotTask → Text × Option Text
unfolding label_of filename_of is_image
task_labels task =
    let payload = task.payload_json in
    let contact = label_of payload.conversation_external_id (codes "目标联系人") in
    if str_eq task.type "agent_goal"
    then (text_or (label_of payload.goal (codes "")) (codes "语义指令 #" ++ show task.id), none)
    else if str_eq task.type "send_text"
    then (codes "发送给「" ++ (contact ++ codes "」"), non_empty (label_of payload.text (codes "")))
    else if str_eq task.type "send_media"
    then (
      codes "发送"
          ++ ((if is_image payload.kind then codes "图片" else codes "视频")
              ++ (codes "给「" ++ (contact ++ codes "」"))),
      non_empty (label_of (filename_of payload.media) (codes "")),
    )
    else (codes task.type ++ (codes " #" ++ show task.id), none)

pub record TaskView : Type 0 where
  pub kind : String
  pub task_id : ℕ
  pub title : Text
  pub detail : Option Text
  pub priority : ℕ
  pub waited_ms : ℕ
  pub cancellable : Bool
  pub warning : Option Text

-- `_task_snapshot`
unfoldable pub task_snapshot : ℕ → RobotTask → TaskView
unfolding task_labels default_priority
task_snapshot now task = record {
  kind = task.type;
  task_id = task.id;
  title = (task_labels task).0;
  detail = (task_labels task).1;
  priority = or_else task.priority (default_priority task.type);
  waited_ms = now - task.created_at;
  cancellable = not (is_active task.status);
  warning = task.last_error;
}

pub record Snapshot : Type 0 where
  pub robot_id : String
  pub running : Option TaskView
  pub depth : ℕ
  pub pending : List TaskView

abbrev view_if : ℕ → Option RobotTask → Option TaskView
view_if now none = none
view_if now (some task) = some (task_snapshot now task)

snapshot_of : Settings → String → Option Robot → Db → Snapshot
unfolding task_snapshot pending_tasks
snapshot_of settings robot_id none db = record {
  robot_id = robot_id;
  running = none;
  depth = 0;
  pending = List.[];
}
snapshot_of settings robot_id (some robot) db =
    let pending = pending_tasks settings db robot.id in
    record {
      robot_id = robot_id;
      running = view_if db.now (head (keep (running_of robot.id) db.tasks));
      depth = length pending;
      pending = map (task_snapshot db.now) pending;
    }

-- `snapshot`; of several running tasks the source takes the one longest untouched, and there is
-- never more than one.
unfoldable pub snapshot : Settings → String → Db → Snapshot
unfolding snapshot_of
snapshot settings robot_id db = snapshot_of settings robot_id (find_robot db robot_id) db
