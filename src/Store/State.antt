-- ===== src/Store/State.antt =====
-- The state of the backend: the tables, the clock, and what has been sent to the web clients, to
-- Celery and to the auto-reply scheduler. Every function of a service maps a state to a state.
use wecom_ai_agent.Prelude.{
  ℕ, zero, suc, String, Bool, Option, none, some, List, [], ◌∷◌, ◌++◌, str_eq, first,
}
use wecom_ai_agent.Prelude.Table.{get, update}
use wecom_ai_agent.Prelude.Text.{Text}
use wecom_ai_agent.Store.Models.{
  Robot, Contact, Conversation, Message, RobotTask, RobotTaskLog, AiReplyLog, TaskStatus, Payload,
}

-- backend/app/core/config.py. `nulls_first` is the database's place for NULL under ORDER BY ASC:
-- true for SQLite, false for PostgreSQL.
pub record Settings : Type 0 where
  pub task_queue_enabled : Bool
  pub auto_reply_enabled : Bool
  pub inbound_content_dedupe_enabled : Bool
  pub memory_refresh_enabled : Bool
  pub react_send_max_attempts : ℕ
  pub auto_reply_concurrency_per_robot : ℕ
  pub message_retention_days : ℕ
  pub nulls_first : Bool
  -- What the database refuses to store besides a breach of a constraint by the rows that are there: a value
  -- that is longer than its column, or an external id that another session commits at the same time.
  pub refuses : Message → Bool

-- What `hub.broadcast_web` sends to the web clients of a team.
pub data Event : Type 0 where
  task_updated : ℕ → ℕ → TaskStatus → Option Text → Event
  task_log : ℕ → String → Option ℕ → String → Text → Event
  message_new : ℕ → ℕ → Message → Event
  message_updated : ℕ → ℕ → Message → Event
  conversation_updated : ℕ → Conversation → Event
  message_deleted : ℕ → ℕ → ℕ → Event
  conversation_deleted : ℕ → ℕ → Event

pub record Db : Type 0 where
  pub robots : List Robot
  pub contacts : List Contact
  pub conversations : List Conversation
  pub messages : List Message
  pub tasks : List RobotTask
  pub logs : List RobotTaskLog
  pub reply_logs : List AiReplyLog
  -- the next value of each autoincrement key
  pub next_contact : ℕ
  pub next_conversation : ℕ
  pub next_message : ℕ
  pub next_task : ℕ
  pub next_log : ℕ
  -- `utcnow()`, in milliseconds
  pub now : ℕ
  pub events : List Event
  pub celery_wakes : List String
  pub reply_wakes : List ℕ
  pub memory_refreshes : List (ℕ × ℕ)

abbrev pub robot_key : Robot → ℕ
robot_key r = r.id

abbrev pub contact_key : Contact → ℕ
contact_key c = c.id

abbrev pub conversation_key : Conversation → ℕ
conversation_key c = c.id

abbrev pub message_key : Message → ℕ
message_key m = m.id

abbrev pub task_key : RobotTask → ℕ
task_key t = t.id

abbrev pub get_robot : Db → ℕ → Option Robot
get_robot db id = get robot_key id db.robots

abbrev pub get_contact : Db → ℕ → Option Contact
get_contact db id = get contact_key id db.contacts

abbrev pub get_conversation : Db → ℕ → Option Conversation
get_conversation db id = get conversation_key id db.conversations

abbrev pub get_message : Db → ℕ → Option Message
get_message db id = get message_key id db.messages

abbrev pub get_task : Db → ℕ → Option RobotTask
get_task db id = get task_key id db.tasks

-- `select(Robot).where(Robot.robot_id == robot_id)`; the column is unique.
abbrev pub find_robot : Db → String → Option Robot
find_robot db robot_id = first (λ r. str_eq r.robot_id robot_id) db.robots

abbrev pub update_task : ℕ → (RobotTask → RobotTask) → Db → Db
update_task id f db = record db { tasks = update task_key id f db.tasks }

abbrev pub update_message : ℕ → (Message → Message) → Db → Db
update_message id f db = record db { messages = update message_key id f db.messages }

abbrev pub update_conversation : ℕ → (Conversation → Conversation) → Db → Db
update_conversation id f db = record db {
  conversations = update conversation_key id f db.conversations;
}

abbrev pub emit : Event → Db → Db
emit e db = record db { events = db.events ++ e ∷ [] }

-- `if id:` of an optional id; 0 is false.
abbrev pub truthy_id : Option ℕ → Option ℕ
truthy_id none = none
truthy_id (some zero) = none
truthy_id (some (suc n)) = some (suc n)

abbrev update_message_if : Option ℕ → (Message → Message) → List Message → List Message
update_message_if none f messages = messages
update_message_if (some id) f messages = update message_key id f messages

-- An update of the message of a task, if it names one that is there.
abbrev pub update_message_of : Option ℕ → (Message → Message) → Db → Db
update_message_of id f db = record db { messages = update_message_if (truthy_id id) f db.messages }

-- `db.add(RobotTaskLog(...))`
unfoldable pub add_log : ℕ → Option ℕ → String → Text → Db → Db
add_log robot task level message db = record db {
  logs = db.logs ++ row ∷ [];
  next_log = suc db.next_log;
}
  where
    row : RobotTaskLog
    row = record {
      id = db.next_log;
      robot_id = robot;
      task_id = task;
      level = level;
      message = message;
    }

abbrev pub empty_payload : Payload
empty_payload = record {
  goal = none;
  max_steps = none;
  reason = none;
  unread_count = none;
  preview_text = none;
  conversation_external_id = none;
  text = none;
  kind = none;
  caption = none;
  media = none;
  feedback_message_ids = [];
}
