-- ===== src/Ingest/Observed.antt =====
-- backend/app/services/conversation.py: an observed message (backend/app/schemas.py), and the rows of its
-- contact and its conversation.
use wecom_ai_agent.Prelude.{
  ℕ, suc, Bool, Option, none, some, [], ◌∷◌, ◌++◌, ◌==◌, ◌&&◌, String, if◌then◌else◌, is_empty,
  first,
}
use wecom_ai_agent.Prelude.Text.{Text, text_eq, strip}
use wecom_ai_agent.Prelude.Table.{update}
use wecom_ai_agent.Store.{Robot, Contact, Conversation, Media, Mode, Sender, Db, contact_key}
use wecom_ai_agent.SendOrchestrator.{is_customer}

-- `AndroidContact` and `AndroidMessageReceived` of backend/app/schemas.py
pub record AndroidContact : Type 0 where
  pub external_id : Text
  pub nickname : Text
  pub avatar : Option Text

pub data Observation : Type 0 where
  system_notification conversation_list_preview chat_message_bubble : Observation

pub data Completeness : Type 0 where
  wake_only preview_only complete : Completeness

pub record AndroidMessageReceived : Type 0 where
  pub contact : AndroidContact
  pub external_msg_id : Option Text
  pub type : String
  pub content : Text
  pub media_json : Option Media
  pub sender_type : Sender
  pub observation_source : Option Observation
  pub completeness : Option Completeness
  pub unread_count : Option ℕ

abbrev pub from_customer : AndroidMessageReceived → Bool
from_customer evt = is_customer evt.sender_type

abbrev pub contact_name : AndroidContact → Text
contact_name c = strip (if is_empty c.external_id then c.nickname else c.external_id)

-- The rows of one contact and of its conversation; both pairs of columns are unique.
abbrev pub is_contact : Robot → AndroidContact → Contact → Bool
is_contact robot observed c = (c.robot_id == robot.id) && text_eq c.external_id observed.external_id

abbrev pub is_conversation : Robot → Contact → Conversation → Bool
is_conversation robot contact c = (c.robot_id == robot.id) && (c.contact_id == contact.id)

abbrev pub new_contact : Robot → AndroidContact → Db → Contact
new_contact robot observed db = record {
  id = db.next_contact;
  team_id = robot.team_id;
  robot_id = robot.id;
  external_id = observed.external_id;
  nickname = observed.nickname;
  avatar = observed.avatar;
}

abbrev pub renamed : AndroidContact → Contact → Contact
renamed observed c =
    if is_empty observed.nickname then c else record c { nickname = observed.nickname }

unfoldable pub upsert_contact : Robot → AndroidContact → Db → Db × Contact
upsert_contact robot observed db = elim (first (is_contact robot observed) db.contacts) [
  | none ↦ (
    record db {
      contacts = db.contacts ++ new_contact robot observed db ∷ [];
      next_contact = suc db.next_contact;
    },
    new_contact robot observed db,
  )
  | some c ↦ (
    record db { contacts = update contact_key c.id (renamed observed) db.contacts },
    renamed observed c,
  )
]

abbrev pub new_conversation : Robot → Contact → Db → Conversation
new_conversation robot contact db = record {
  id = db.next_conversation;
  team_id = robot.team_id;
  robot_id = robot.id;
  contact_id = contact.id;
  mode = Mode.mixed;
  unread_count = 0;
  last_message_at = none;
  last_message_preview = none;
}

unfoldable pub find_or_create_conversation : Robot → Contact → Db → Db × Conversation
find_or_create_conversation robot contact db =
    elim (first (is_conversation robot contact) db.conversations) [
      | none ↦ (
        record db {
          conversations = db.conversations ++ new_conversation robot contact db ∷ [];
          next_conversation = suc db.next_conversation;
        },
        new_conversation robot contact db,
      )
      | some c ↦ (db, c)
    ]
