-- ===== src/Tests/Data.antt =====
-- Concrete rows of the tables of backend/app/models.py.
use wecom_ai_agent.Prelude.{ℕ, ltb, length, or_else, true, false, Option, none, some, List, [], ◌∷◌}
use wecom_ai_agent.Prelude.Text.{Text, codes}
use wecom_ai_agent.Store.{
  Robot, Contact, Conversation, Message, Mode, RobotTask, TaskStatus, MessageStatus, Feedback,
  Direction, Sender, Payload, Settings, Db, empty_payload,
}

abbrev pub settings : Settings
settings = record {
  task_queue_enabled = true;
  auto_reply_enabled = true;
  inbound_content_dedupe_enabled = true;
  memory_refresh_enabled = true;
  react_send_max_attempts = 2;
  auto_reply_concurrency_per_robot = 2;
  message_retention_days = 30;
  nulls_first = false;
  refuses = λ m. ltb 128 (length (or_else m.external_msg_id []));
}

abbrev pub robot : Robot
robot = record { id = 1; team_id = 1; robot_id = "r1" }

abbrev pub contact : Contact
contact = record {
  id = 1;
  team_id = 1;
  robot_id = 1;
  external_id = codes "u1";
  nickname = codes "Ann";
  avatar = none;
}

abbrev pub conversation : ℕ → Conversation
conversation id = record {
  id = id;
  team_id = 1;
  robot_id = 1;
  contact_id = 1;
  mode = Mode.ai;
  unread_count = 0;
  last_message_at = none;
  last_message_preview = none;
}

abbrev pub payload : Text → Payload
payload text = record empty_payload { text = some text; feedback_message_ids = 1 ∷ 2 ∷ [] }

abbrev pub task : ℕ → TaskStatus → Option ℕ → RobotTask
task id status seq = record {
  id = id;
  robot_id = 1;
  type = "send_text";
  payload_json = payload (codes "hi");
  status = status;
  priority = some 50;
  queue_seq = seq;
  attempts = 0;
  max_attempts = 2;
  last_error = none;
  conversation_id = some 1;
  message_id = some 3;
  created_at = 0;
}

abbrev pub inbound : ℕ → Option Feedback → Message
inbound id feedback = record {
  id = id;
  conversation_id = 1;
  direction = Direction.inbound;
  sender_type = Sender.customer;
  sender_id = none;
  type = "text";
  content = codes "hello";
  media_json = none;
  status = none;
  feedback_status = feedback;
  feedback_trace_id = none;
  feedback_at = none;
  feedback_reply_task_ids = none;
  external_msg_id = none;
  task_id = none;
  created_at = id;
}

abbrev pub outbound : MessageStatus → Message
outbound status = record (inbound 3 none) {
  direction = Direction.outbound;
  sender_type = Sender.ai;
  status = some status;
  task_id = some 1;
}

abbrev pub db_of : List RobotTask → List Message → Db
db_of tasks messages = record {
  robots = robot ∷ [];
  contacts = contact ∷ [];
  conversations = conversation 1 ∷ conversation 2 ∷ [];
  messages = messages;
  tasks = tasks;
  logs = [];
  reply_logs = [];
  next_contact = 2;
  next_conversation = 3;
  next_message = 4;
  next_task = 9;
  next_log = 1;
  now = 1000;
  events = [];
  celery_wakes = [];
  reply_wakes = [];
  memory_refreshes = [];
}

-- Two tasks of the robot wait, one has ended.
abbrev pub waiting_db : Db
waiting_db =
    db_of
      (task 1 TaskStatus.queued (some 2)
        ∷ task 2 TaskStatus.queued (some 1)
        ∷ task 3 TaskStatus.completed (some 0)
        ∷ task 4 TaskStatus.dispatched none
        ∷ [])
      (inbound 1 (some Feedback.replied)
        ∷ inbound 2 (some Feedback.pending)
        ∷ outbound MessageStatus.pending
        ∷ [])
