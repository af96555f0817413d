-- ===== src/Ingest/Inbound/Once.antt =====
-- backend/app/services/conversation.py, `ingest_inbound_message`: the device may report a message again.
use wecom_ai_agent.Prelude.{
  ℕ, ◌+◌, ◌≤◌, ◌≡◌, ◌∙◌, sym, ap, subst, false, Option, some, List, ◌++◌, ◌==◌, ◌&&◌, arith,
  is_empty, first, first-map-append, map,
}
use wecom_ai_agent.Prelude.Text.{Text, text_eq}
use wecom_ai_agent.Store.{Robot, Contact, Conversation, Message, Settings, Db}
use wecom_ai_agent.Ingest.{minutes}
use wecom_ai_agent.Ingest.Noise.{clean_content}
use wecom_ai_agent.Ingest.Observed.{AndroidMessageReceived, is_contact, is_conversation}
use wecom_ai_agent.Ingest.Inbound.{
  duplicate, identify, touched, rejected, stored, has_external_id, ingest_inbound_message,
}
use wecom_ai_agent.Ingest.Inbound.Rows.{IsSound, upsert_contact-SameRest}
use wecom_ai_agent.Ingest.Inbound.Outcome.{found, placed, id_check, IsStored, ingest-IsStored}
use wecom_ai_agent.Ingest.Inbound.StoredRows.{
  upsert_contact_known, find_known, identify-duplicate, rejected_of_duplicate, stored_contact,
  stored_conversation, stored_fields, known_message,
}

-- A state that has come after another one: rows may have been added, and changed in what does not
-- identify them; none has been deleted.
pub record Follows (old db : Db) : Type 0 where
  pub contact : Contact → Contact
  pub more_contacts : List Contact
  pub contacts : db.contacts ≡ map contact old.contacts ++ more_contacts
  pub same_contact :
      (c : Contact)
      → ((contact c).id ≡ c.id)
        × ((contact c).robot_id ≡ c.robot_id)
        × ((contact c).external_id ≡ c.external_id)
  pub conversation : Conversation → Conversation
  pub more_conversations : List Conversation
  pub conversations : db.conversations ≡ map conversation old.conversations ++ more_conversations
  pub same_conversation :
      (c : Conversation)
      → ((conversation c).id ≡ c.id)
        × ((conversation c).robot_id ≡ c.robot_id)
        × ((conversation c).contact_id ≡ c.contact_id)
  pub message : Message → Message
  pub more_messages : List Message
  pub messages : db.messages ≡ map message old.messages ++ more_messages
  pub same_message :
      (m : Message)
      → ((message m).conversation_id ≡ m.conversation_id)
        × ((message m).external_msg_id ≡ m.external_msg_id)
        × ((message m).created_at ≡ m.created_at)

module _ (settings : Settings) (robot : Robot) (evt : AndroidMessageReceived) (db : Db)
    (m : Message) (db' : Db) (sound : IsSound db) (st : IsStored settings robot evt db m db') where
  -- The same contact reports the same external id in time, in a state that has come after.
  module _ (id : Text) (evt' : AndroidMessageReceived) (later : Db) (f : Follows db' later)
      (given : evt.external_msg_id ≡ some id) (kept : m.external_msg_id ≡ some id)
      (nonempty : is_empty id ≡ false)
      (same_contact : evt'.contact.external_id ≡ evt.contact.external_id)
      (same_id : evt'.external_msg_id ≡ some id) (in_time : later.now ≤ db.now + minutes 5) where
    abbrev old_contact : Contact
    old_contact = (found robot evt db).1

    abbrev old_conversation : Conversation
    old_conversation =
        touched evt (clean_content evt.content) (placed robot evt db).0.now (placed robot evt db).1

    known_contact :
        first (is_contact robot evt'.contact) later.contacts ≡ some (f.contact old_contact)
    known_contact =
        ap (first (is_contact robot evt'.contact)) f.contacts
        ∙ first-map-append (is_contact robot evt'.contact) f.contact db'.contacts f.more_contacts
            old_contact (λ c. let (i, r, x) = f.same_contact c in rw (r, x))
            (subst
              (λ (e : Text).
                first (λ (c : Contact). (c.robot_id == robot.id) && text_eq c.external_id e)
                  db'.contacts
                ≡ some old_contact)
              (sym same_contact) (stored_contact settings robot evt db m db' sound st))

    contact_rows :
        ((found robot evt' later).1.id ≡ old_contact.id)
        × ((found robot evt' later).0.conversations ≡ later.conversations)
    contact_rows =
        let (ids, rows) =
          upsert_contact_known robot evt'.contact later (f.contact old_contact) known_contact in
        let (i, r, x) = f.same_contact old_contact in (ids ∙ i, rows)

    known_conversation :
        first
          (is_conversation robot (found robot evt' later).1)
          (found robot evt' later).0.conversations
        ≡ some (f.conversation old_conversation)
    known_conversation =
        ap (first (is_conversation robot (found robot evt' later).1))
          (contact_rows.1 ∙ f.conversations)
        ∙ first-map-append (is_conversation robot (found robot evt' later).1) f.conversation
            db'.conversations f.more_conversations old_conversation
            (λ c. let (i, r, x) = f.same_conversation c in rw (r, x))
            (subst
              (λ (k : ℕ).
                first (λ (c : Conversation). (c.robot_id == robot.id) && (c.contact_id == k))
                  db'.conversations
                ≡ some old_conversation)
              (sym contact_rows.0) (stored_conversation settings robot evt db m db' sound st))

    known_rows :
        placed robot evt' later ≡ ((found robot evt' later).0, f.conversation old_conversation)
    known_rows =
        find_known robot (found robot evt' later).1 (found robot evt' later).0 _ known_conversation

    seen :
        first (has_external_id (placed robot evt db).1.id id) (found robot evt' later).0.messages
        ≡ some (f.message m)
    seen =
        ap (first (has_external_id (placed robot evt db).1.id id))
          ((upsert_contact-SameRest robot evt'.contact later).messages ∙ f.messages)
        ∙ first-map-append (has_external_id (placed robot evt db).1.id id) f.message db'.messages
            f.more_messages m (λ x. let (c, e, t) = f.same_message x in rw (c, e))
            (known_message settings robot evt db m db' sound st id given kept nonempty)

    again : id_check robot evt' later ≡ duplicate
    unfolding touched
    again =
        let (i, r, x) = f.same_conversation old_conversation in
        let (c, e, t) = f.same_message m in
        ap (λ (p : Db × Conversation). identify p.1.id evt'.external_msg_id p.0) known_rows
        ∙ (ap (λ (k : ℕ). identify k evt'.external_msg_id (found robot evt' later).0) i
            ∙ (ap
                  (λ (e : Option Text).
                    identify (placed robot evt db).1.id e (found robot evt' later).0)
                  same_id
                ∙ identify-duplicate (placed robot evt db).1.id id (found robot evt' later).0
                    (f.message m) nonempty seen
                    (omega (
                      arith,
                      (upsert_contact-SameRest robot evt'.contact later).now,
                      (stored_fields settings robot evt db m db' sound st).2,
                      t,
                      in_time,
                    ))))

-- A message with an external id is stored once: if the same contact reports the id again, with
-- whatever text, in any later state whose clock shows no more than five minutes after the message was
-- stored with it, then the call stores and changes nothing. By then contacts, conversations and
-- messages may have been added and changed in what does not identify them, and none may have been
-- deleted.
pub ingest-ingest :
    (repr : Text → Text) (limit_one : List Message → Option Message) (settings : Settings)
    (robot : Robot) (evt evt' : AndroidMessageReceived) (db : Db) (m : Message) (db' later : Db)
    (id : Text)
    → IsSound db
    → ingest_inbound_message repr limit_one settings robot evt db ≡ stored m db'
    → evt.external_msg_id ≡ some id
    → m.external_msg_id ≡ some id
    → is_empty id ≡ false
    → Follows db' later
    → evt'.contact.external_id ≡ evt.contact.external_id
    → evt'.external_msg_id ≡ some id
    → later.now ≤ db.now + minutes 5
    → ingest_inbound_message repr limit_one settings robot evt' later ≡ rejected
ingest-ingest repr limit_one settings robot evt evt' db m db' later id s h given kept k f c i t =
    rejected_of_duplicate repr limit_one settings robot evt' later (
      again settings robot evt db m db' s
        (ingest-IsStored settings robot evt db repr limit_one m db' h) id evt' later f given kept k
        c i t)
