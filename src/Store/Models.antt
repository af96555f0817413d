-- ===== src/Store/Models.antt =====
-- backend/app/models.py: the rows of the tables, with the columns that the services read or write.
use wecom_ai_agent.Prelude.{ℕ, String, Option, List}
use wecom_ai_agent.Prelude.Text.{Text}

-- `RobotTask.status`
pub data TaskStatus : Type 0 where
  pending dispatched queued running completed failed cancelled timeout : TaskStatus

-- `Message.status`, of outbound messages
pub data MessageStatus : Type 0 where
  pending sent failed cancelled : MessageStatus

-- `Message.feedback_status`, of messages from customers
pub data Feedback : Type 0 where
  pending processing queued suggested skipped replied failed : Feedback

-- `Message.direction`: "in" and "out"
pub data Direction : Type 0 where
  inbound outbound : Direction

-- `Message.sender_type`
pub data Sender : Type 0 where
  customer ai human system : Sender

-- `Conversation.mode`
pub data Mode : Type 0 where
  ai human mixed : Mode

pub record Robot : Type 0 where
  pub id : ℕ
  pub team_id : ℕ
  pub robot_id : String

pub record Contact : Type 0 where
  pub id : ℕ
  pub team_id : ℕ
  pub robot_id : ℕ
  pub external_id : Text
  pub nickname : Text
  pub avatar : Option Text

pub record Conversation : Type 0 where
  pub id : ℕ
  pub team_id : ℕ
  pub robot_id : ℕ
  pub contact_id : ℕ
  pub mode : Mode
  pub unread_count : ℕ
  pub last_message_at : Option ℕ
  pub last_message_preview : Option Text

-- The `media` dict of a media message.
pub record Media : Type 0 where
  pub url : Option Text
  pub mime : Option Text
  pub filename : Option Text
  pub bytes : Option ℕ

pub record Message : Type 0 where
  pub id : ℕ
  pub conversation_id : ℕ
  pub direction : Direction
  pub sender_type : Sender
  pub sender_id : Option ℕ
  pub type : String
  pub content : Text
  pub media_json : Option Media
  pub status : Option MessageStatus
  pub feedback_status : Option Feedback
  pub feedback_trace_id : Option Text
  pub feedback_at : Option ℕ
  pub feedback_reply_task_ids : Option (List ℕ)
  pub external_msg_id : Option Text
  pub task_id : Option ℕ
  pub created_at : ℕ

-- `RobotTask.payload_json`: the keys that the program writes. A key that is absent is `none`.
pub record Payload : Type 0 where
  pub goal : Option Text
  pub max_steps : Option ℕ
  pub reason : Option String
  pub unread_count : Option ℕ
  pub preview_text : Option Text
  pub conversation_external_id : Option Text
  pub text : Option Text
  pub kind : Option String
  pub caption : Option Text
  pub media : Option Media
  pub feedback_message_ids : List ℕ

pub record RobotTask : Type 0 where
  pub id : ℕ
  pub robot_id : ℕ
  pub type : String
  pub payload_json : Payload
  pub status : TaskStatus
  pub priority : Option ℕ
  pub queue_seq : Option ℕ
  pub attempts : ℕ
  pub max_attempts : ℕ
  pub last_error : Option Text
  pub conversation_id : Option ℕ
  pub message_id : Option ℕ
  pub created_at : ℕ

pub record RobotTaskLog : Type 0 where
  pub id : ℕ
  pub robot_id : ℕ
  pub task_id : Option ℕ
  pub level : String
  pub message : Text

pub record AiReplyLog : Type 0 where
  pub id : ℕ
  pub team_id : ℕ
  pub conversation_id : ℕ
  pub message_id : Option ℕ
