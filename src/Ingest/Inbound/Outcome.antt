-- ===== src/Ingest/Inbound/Outcome.antt =====
-- backend/app/services/conversation.py, `ingest_inbound_message`: what a stored message says of the
-- call, and when the commit fails.
use wecom_ai_agent.Prelude.{
  ◌⊎◌, if_cases, ◌≡◌, refl, subst, inl, inr, true, false, Option, none, some, List, ◌||◌,
  Bool-cases, if_elim, is_empty, any,
}
use wecom_ai_agent.Prelude.Text.{Text}
use wecom_ai_agent.Store.{Robot, Contact, Conversation, Message, Settings, Db}
use wecom_ai_agent.Ingest.Noise.{clean_content, is_unreliable_contact}
use wecom_ai_agent.Ingest.Harvest.{has_active_conversation_list_harvest}
use wecom_ai_agent.Ingest.Observed.{
  AndroidMessageReceived, contact_name, upsert_contact, find_or_create_conversation,
}
use wecom_ai_agent.Ingest.Inbound.{
  Identity, duplicate, stored_as, identify, is_noise, needs_harvest, is_replay, new_message,
  touched, breaks_unique, insert_message, after_commit, Ingested, rejected, harvested, stored,
  failed, has_external_id, store_message, harvest_first, accept_message, with_rows,
  ingest_inbound_message,
}

-- The rows that the call works with, and the state in which they are there.
abbrev pub found : Robot → AndroidMessageReceived → Db → Db × Contact
found robot evt db = upsert_contact robot evt.contact db

abbrev pub placed : Robot → AndroidMessageReceived → Db → Db × Conversation
placed robot evt db =
    find_or_create_conversation robot (found robot evt db).1 (found robot evt db).0

abbrev pub id_check : Robot → AndroidMessageReceived → Db → Identity
id_check robot evt db =
    identify (placed robot evt db).1.id evt.external_msg_id (placed robot evt db).0

pub record IsStored (settings : Settings) (robot : Robot) (evt : AndroidMessageReceived) (db : Db)
    (m : Message) (db' : Db) : Type 0 where
  pub id : Option Text
  pub identity : id_check robot evt db ≡ stored_as id
  pub unique : breaks_unique (placed robot evt db).1.id id (placed robot evt db).0 ≡ false
  pub message :
      m
      ≡ new_message evt
          (placed robot evt db).1.id
          (clean_content evt.content)
          id
          (placed robot evt db).0
  pub state :
      db'
      ≡ after_commit settings robot evt
          (found robot evt db).1
          (touched evt
            (clean_content evt.content)
            (placed robot evt db).0.now
            (placed robot evt db).1)
          m
          (insert_message evt
            (placed robot evt db).1
            (clean_content evt.content)
            id
            (placed robot evt db).0)

-- The database refuses the message for another reason than the rows that are there.
abbrev pub Refuses : Settings → Robot → AndroidMessageReceived → Db → Type 0
Refuses settings robot evt db =
    (id : Option Text) × (settings.refuses (
        new_message evt (placed robot evt db).1.id (clean_content evt.content) id
          (placed robot evt db).0)
      ≡ true)

-- What is known of a call by how it ends.
abbrev Explains : Settings → Robot → AndroidMessageReceived → Db → Ingested → Type 0
Explains settings robot evt db rejected = Unit {0}
Explains settings robot evt db (harvested db') = Unit {0}
Explains settings robot evt db (stored m db') = IsStored settings robot evt db m db'
Explains settings robot evt db failed =
    ((id : Text) × (id_check robot evt db ≡ stored_as (some id))
      × (any (has_external_id (placed robot evt db).1.id id) (placed robot evt db).0.messages
          ≡ true))
    ⊎ Refuses settings robot evt db

failed_id :
    (settings : Settings) (robot : Robot) (evt : AndroidMessageReceived) (db : Db)
    (id : Option Text)
    → id_check robot evt db ≡ stored_as id
    → breaks_unique (placed robot evt db).1.id id (placed robot evt db).0 ≡ true
    → Explains settings robot evt db failed
unfolding breaks_unique
failed_id settings robot evt db none e b = cc
failed_id settings robot evt db (some id) e b = inl (id, e, b)

module _ (settings : Settings) (robot : Robot) (evt : AndroidMessageReceived) (db : Db) where
  store_message-Explains :
      (id : Option Text)
      → id_check robot evt db ≡ stored_as id
      → Explains settings robot evt db (
          store_message settings robot evt
            (found robot evt db).1
            (placed robot evt db).1
            (clean_content evt.content)
            id
            (placed robot evt db).0)
  unfolding store_message breaks_unique
  store_message-Explains id e =
      elim (Bool-cases (breaks_unique (placed robot evt db).1.id id (placed robot evt db).0)) [
        | inl b ↦ rw b (failed_id settings robot evt db id e b)
        | inr b ↦ rw b (
            if_cases (Explains settings robot evt db)
              (settings.refuses (
                new_message evt (placed robot evt db).1.id (clean_content evt.content) id
                  (placed robot evt db).0))
              (λ r. inr (id, r))
              (λ r. record { id = id; identity = e; unique = b; message = refl; state = refl }))
      ]

  accept_message-Explains :
      (repr : Text → Text) (limit_one : List Message → Option Message) (i : Identity)
      → id_check robot evt db ≡ i
      → Explains settings robot evt db (
          accept_message repr limit_one settings robot evt
            (found robot evt db).1
            (placed robot evt db).1
            (clean_content evt.content)
            (placed robot evt db).0
            i)
  unfolding accept_message harvest_first
  accept_message-Explains repr limit_one duplicate e = tt
  accept_message-Explains repr limit_one (stored_as id) e =
      if_elim (Explains settings robot evt db) (is_noise evt (clean_content evt.content)) tt (
        if_elim (Explains settings robot evt db) (needs_harvest evt)
          (if_elim (Explains settings robot evt db)
            (has_active_conversation_list_harvest (placed robot evt db).0 robot.id
              (placed robot evt db).1.id)
            tt tt)
          (if_elim (Explains settings robot evt db)
            (is_replay limit_one settings evt (placed robot evt db).1.id (clean_content evt.content)
              id (placed robot evt db).0)
            tt (store_message-Explains id e)))

  ingest-Explains :
      (repr : Text → Text) (limit_one : List Message → Option Message)
      → Explains settings robot evt db (ingest_inbound_message repr limit_one settings robot evt db)
  unfolding ingest_inbound_message with_rows
  ingest-Explains repr limit_one =
      if_elim (Explains settings robot evt db)
        (is_empty (clean_content evt.content) || is_unreliable_contact (contact_name evt.contact))
        tt (accept_message-Explains repr limit_one (id_check robot evt db) refl)

  -- A stored message came this way.
  pub ingest-IsStored :
      (repr : Text → Text) (limit_one : List Message → Option Message) (m : Message) (db' : Db)
      → ingest_inbound_message repr limit_one settings robot evt db ≡ stored m db'
      → IsStored settings robot evt db m db'
  ingest-IsStored repr limit_one m db' h =
      subst (Explains settings robot evt db) h (ingest-Explains repr limit_one)
