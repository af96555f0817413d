-- ===== src/TaskQueue/Chats.antt =====
-- backend/app/services/task_queue.py: queueing and cancelling a task shows nothing in the chats.
use wecom_ai_agent.Prelude.{
  ℕ, String, Option, none, some, arith, if_elim, refl, Option-cases, inl, inr,
}
use wecom_ai_agent.Prelude.Text.{Text}
use wecom_ai_agent.Store.{Robot, RobotTask, Message, Settings, Db, get_task}
use wecom_ai_agent.Store.Chats.{
  SameChats, SameChats-refl, SameChats-trans, update_message_of-SameChats, emit-SameChats,
  tasks-SameChats, wakes-SameChats,
}
use wecom_ai_agent.TaskQueue.{
  audit, audit_robot, broadcast_task, broadcast_found, broadcast_message, mark_cancelled,
  cancel_found, enqueue, enqueue_found, is_terminal,
}

audit_robot-SameChats :
    (robot : Option Robot) (id : ℕ) (level : String) (message : Text) (db : Db)
    → SameChats db (audit_robot robot id level message db)
unfolding audit_robot
audit_robot-SameChats none id level message db = SameChats-refl db
audit_robot-SameChats (some robot) id level message db = ground arith

pub audit-SameChats :
    (id : ℕ) (level : String) (message : Text) (db : Db) → SameChats db (audit id level message db)
unfolding audit
audit-SameChats id level message db = audit_robot-SameChats _ id level message db

broadcast_message-SameChats :
    (robot : Robot) (conv_id : Option ℕ) (msg : Option Message) (db : Db)
    → SameChats db (broadcast_message robot conv_id msg db)
unfolding broadcast_message
broadcast_message-SameChats robot none msg db = ground arith
broadcast_message-SameChats robot (some id) none db = ground arith
broadcast_message-SameChats robot (some id) (some msg) db = ground arith

broadcast_found-SameChats :
    (task : RobotTask) (robot : Option Robot) (db : Db)
    → SameChats db (broadcast_found task robot db)
unfolding broadcast_found
broadcast_found-SameChats task none db = SameChats-refl db
broadcast_found-SameChats task (some robot) db =
    SameChats-trans (emit-SameChats _ db) (broadcast_message-SameChats robot _ _ _)

pub broadcast_task-SameChats : (id : ℕ) (db : Db) → SameChats db (broadcast_task id db)
unfolding broadcast_task
broadcast_task-SameChats id db = elim (Option-cases (get_task db id)) [
  | inl e ↦ rw (e, broadcast_task) (SameChats-refl db)
  | inr (task, e) ↦ rw (e, broadcast_task) (broadcast_found-SameChats task _ db)
]

cancel_found-SameChats :
    (task : RobotTask) (robot : Option Robot) (message : Text) (db : Db)
    → SameChats db (cancel_found task robot message db)
unfolding cancel_found
cancel_found-SameChats task none message db = SameChats-refl db
cancel_found-SameChats task (some robot) message db =
    SameChats-trans
      (SameChats-trans
        (SameChats-trans (tasks-SameChats _ db)
          (update_message_of-SameChats task.message_id _ _ (λ m. refl)))
        (audit-SameChats task.id "warn" message _))
      (broadcast_task-SameChats task.id _)

pub mark_cancelled-SameChats :
    (id : ℕ) (message : Text) (db : Db) → SameChats db (mark_cancelled id message db)
unfolding mark_cancelled
mark_cancelled-SameChats id message db = elim (Option-cases (get_task db id)) [
  | inl e ↦ rw (e, mark_cancelled) (SameChats-refl db)
  | inr (task, e) ↦ rw (e, mark_cancelled) (cancel_found-SameChats task _ message db)
]

enqueue_found-SameChats :
    (robot_id : String) (id priority : ℕ) (row : Option (RobotTask × Robot)) (db : Db)
    → SameChats db (enqueue_found robot_id id priority row db)
unfolding enqueue_found
enqueue_found-SameChats robot_id id priority none db = SameChats-refl db
enqueue_found-SameChats robot_id id priority (some (task, robot)) db =
    if_elim (SameChats db) (is_terminal task.status) (SameChats-refl db) (
      SameChats-trans (SameChats-trans (tasks-SameChats _ db) (audit-SameChats id "info" _ _))
        (wakes-SameChats _ _))

pub enqueue-SameChats :
    (settings : Settings) (robot_id : String) (id priority : ℕ) (db : Db)
    → SameChats db (enqueue settings robot_id id priority db)
unfolding enqueue
enqueue-SameChats settings robot_id id priority db =
    if_elim (SameChats db) settings.task_queue_enabled
      (enqueue_found-SameChats robot_id id priority _ db) (mark_cancelled-SameChats id _ db)
