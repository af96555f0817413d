-- ===== src/Store/Chats.antt =====
-- backend/app/models.py: what the tables show of the chats, apart from the delivery status of the
-- messages.
use wecom_ai_agent.Prelude.{
  ℕ, zero, suc, some, ◌≡◌, refl, ◌∙◌, Option, none, List, [], ◌∷◌, String, arith, map,
}
use wecom_ai_agent.Prelude.Table.{update}
use wecom_ai_agent.Store.Models.{Message, RobotTask}
use wecom_ai_agent.Store.State.{Db, Event, emit, message_key, update_message_of}

-- A message, without its delivery status.
abbrev pub entry : Message → Message
entry m = record m { status = none }

pub record SameChats (old db : Db) : Type 0 where
  pub messages : map entry db.messages ≡ map entry old.messages
  pub conversations : db.conversations ≡ old.conversations
  pub contacts : db.contacts ≡ old.contacts
  pub next_message : db.next_message ≡ old.next_message
  pub next_conversation : db.next_conversation ≡ old.next_conversation
  pub next_contact : db.next_contact ≡ old.next_contact
  pub now : db.now ≡ old.now

pub SameChats-refl : (db : Db) → SameChats db db
SameChats-refl db = record {
  messages = refl;
  conversations = refl;
  contacts = refl;
  next_message = refl;
  next_conversation = refl;
  next_contact = refl;
  now = refl;
}

pub SameChats-trans : {a b c : Db} → SameChats a b → SameChats b c → SameChats a c
SameChats-trans p q = record {
  messages = q.messages ∙ p.messages;
  conversations = q.conversations ∙ p.conversations;
  contacts = q.contacts ∙ p.contacts;
  next_message = q.next_message ∙ p.next_message;
  next_conversation = q.next_conversation ∙ p.next_conversation;
  next_contact = q.next_contact ∙ p.next_contact;
  now = q.now ∙ p.now;
}

entries-update :
    (id : ℕ) (f : Message → Message) (ms : List Message)
    → ((m : Message) → entry (f m) ≡ entry m)
    → map entry (update message_key id f ms) ≡ map entry ms
entries-update id f [] h = refl
entries-update id f (m ∷ ms) h = ground (arith, h m, entries-update id f ms h)

-- A write of the delivery status does not show.
pub update_message_of-SameChats :
    (id : Option ℕ) (f : Message → Message) (db : Db)
    → ((m : Message) → entry (f m) ≡ entry m)
    → SameChats db (update_message_of id f db)
update_message_of-SameChats none f db h = ground arith
update_message_of-SameChats (some zero) f db h = ground arith
update_message_of-SameChats (some (suc id)) f db h =
    ground (arith, entries-update (suc id) f db.messages h)

pub emit-SameChats : (e : Event) (db : Db) → SameChats db (emit e db)
emit-SameChats e db = ground arith

pub tasks-SameChats : (ts : List RobotTask) (db : Db) → SameChats db (record db { tasks = ts })
tasks-SameChats ts db = ground arith

pub wakes-SameChats : (ws : List String) (db : Db) → SameChats db (record db { celery_wakes = ws })
wakes-SameChats ws db = ground arith
