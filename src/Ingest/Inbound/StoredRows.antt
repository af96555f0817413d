-- ===== src/Ingest/Inbound/StoredRows.antt =====
-- backend/app/services/conversation.py, `ingest_inbound_message`: the rows that a
-- stored message leaves.
use wecom_ai_agent.Prelude.{
  ℕ, ◌+◌, ◌≤◌, ◌≡◌, refl, ◌∙◌, sym, ap, subst, inl, inr, false, Option, none, some, List, [], ◌∷◌,
  ◌++◌, ◌||◌, arith, Option-cases, is_empty, first, first-snoc, first-passes, if_elim, ==_refl,
}
use wecom_ai_agent.Prelude.Table.{first-update_self}
use wecom_ai_agent.Prelude.Text.{Text, text_eq_refl}
use wecom_ai_agent.Store.{Robot, Contact, Conversation, Message, Settings, Db, conversation_key}
use wecom_ai_agent.Store.Chats.{SameChats}
use wecom_ai_agent.AutoReply.Turn.{schedule_refresh}
use wecom_ai_agent.Ingest.{minutes}
use wecom_ai_agent.Ingest.Noise.{clean_content, is_unreliable_contact}
use wecom_ai_agent.Ingest.Observed.{
  AndroidContact, AndroidMessageReceived, contact_name, upsert_contact, find_or_create_conversation,
  is_contact, is_conversation,
}
use wecom_ai_agent.Ingest.Inbound.{
  duplicate, stored_as, identify, age_check, new_message, touched, insert_message, after_commit,
  Ingested, rejected, has_external_id, accept_message, with_rows, ingest_inbound_message,
}
use wecom_ai_agent.Ingest.Inbound.Rows.{
  IsSound, upsert_contact-SameRest, upsert_contact-IsSound, upsert_contact-first, renamed-id,
  find_or_create_conversation-SameRest, find_or_create_conversation-IsSound,
  find_or_create_conversation-first,
}
use wecom_ai_agent.Ingest.Inbound.Delivery.{after_commit-SameChats}
use wecom_ai_agent.Ingest.Inbound.Outcome.{found, placed, id_check, IsStored}

pub after_commit-messages :
    (settings : Settings) (robot : Robot) (evt : AndroidMessageReceived) (contact : Contact)
    (conv : Conversation) (m : Message) (db : Db)
    → (after_commit settings robot evt contact conv m db).messages ≡ db.messages
unfolding after_commit schedule_refresh
after_commit-messages settings robot evt contact conv m db = ground arith

pub find_or_create_conversation-contacts :
    (robot : Robot) (contact : Contact) (db : Db)
    → (find_or_create_conversation robot contact db).0.contacts ≡ db.contacts
unfolding find_or_create_conversation
find_or_create_conversation-contacts robot contact db = ground arith

-- The rows of a contact that is there already.
pub upsert_contact_known :
    (robot : Robot) (o : AndroidContact) (db : Db) (c : Contact)
    → first (is_contact robot o) db.contacts ≡ some c
    → ((upsert_contact robot o db).1.id ≡ c.id)
      × ((upsert_contact robot o db).0.conversations ≡ db.conversations)
unfolding upsert_contact
upsert_contact_known robot o db c e = rw (e, upsert_contact) (renamed-id o c, refl)

pub find_known :
    (robot : Robot) (contact : Contact) (db : Db) (c : Conversation)
    → first (is_conversation robot contact) db.conversations ≡ some c
    → find_or_create_conversation robot contact db ≡ (db, c)
unfolding find_or_create_conversation
find_known robot contact db c e = rw (e, find_or_create_conversation)

-- An id that is stored with its message was not there before.
pub identify-fresh :
    (conv_id : ℕ) (id : Text) (db : Db)
    → is_empty id ≡ false
    → identify conv_id (some id) db ≡ stored_as (some id)
    → first (has_external_id conv_id id) db.messages ≡ none
unfolding identify age_check
identify-fresh conv_id id db h e =
    elim (Option-cases (first (has_external_id conv_id id) db.messages)) [
      | inl f ↦ f
      | inr (m, f) ↦ absurd (ground arith)
    ]

pub identify-duplicate :
    (conv_id : ℕ) (id : Text) (db : Db) (m : Message)
    → is_empty id ≡ false
    → first (has_external_id conv_id id) db.messages ≡ some m
    → db.now ≤ m.created_at + minutes 5
    → identify conv_id (some id) db ≡ duplicate
unfolding identify age_check
identify-duplicate conv_id id db m h e l = ground (arith)

pub rejected_of_duplicate :
    (repr : Text → Text) (limit_one : List Message → Option Message) (settings : Settings)
    (robot : Robot) (evt : AndroidMessageReceived) (db : Db)
    → id_check robot evt db ≡ duplicate
    → ingest_inbound_message repr limit_one settings robot evt db ≡ rejected
unfolding ingest_inbound_message with_rows accept_message
rejected_of_duplicate repr limit_one settings robot evt db e =
    if_elim (λ (r : Ingested). r ≡ rejected)
      (is_empty (clean_content evt.content) || is_unreliable_contact (contact_name evt.contact))
      refl
      (subst
        (λ i.
          accept_message repr limit_one settings robot evt (found robot evt db).1
            (placed robot evt db).1 (clean_content evt.content) (placed robot evt db).0 i
          ≡ rejected)
        (sym e) refl)

module _ (settings : Settings) (robot : Robot) (evt : AndroidMessageReceived) (db : Db)
    (m : Message) (db' : Db) (sound : IsSound db) (st : IsStored settings robot evt db m db') where
  found-IsSound : IsSound (found robot evt db).0
  found-IsSound = upsert_contact-IsSound robot evt.contact db sound

  placed-IsSound : IsSound (placed robot evt db).0
  placed-IsSound =
      find_or_create_conversation-IsSound robot (found robot evt db).1 (found robot evt db).0
        found-IsSound

  now_same : (placed robot evt db).0.now ≡ db.now
  now_same =
      (find_or_create_conversation-SameRest robot (found robot evt db).1 (found robot evt db).0
        found-IsSound).now
      ∙ (upsert_contact-SameRest robot evt.contact db).now

  abbrev pub inserted : Db
  inserted =
      insert_message evt (placed robot evt db).1 (clean_content evt.content) st.id
        (placed robot evt db).0

  pub shown : SameChats inserted db'
  shown = rw st.state (after_commit-SameChats settings robot evt _ _ m _)

  pub stored_fields :
      (m.conversation_id ≡ (placed robot evt db).1.id)
      × (m.external_msg_id ≡ st.id)
      × (m.created_at ≡ db.now)
  unfolding new_message
  stored_fields = (
    ap (λ (x : Message). x.conversation_id) st.message,
    ap (λ (x : Message). x.external_msg_id) st.message,
    ap (λ (x : Message). x.created_at) st.message ∙ now_same,
  )

  pub stored_messages : db'.messages ≡ (placed robot evt db).0.messages ++ m ∷ []
  unfolding insert_message
  stored_messages =
      ap (λ (d : Db). d.messages) st.state
      ∙ (after_commit-messages settings robot evt _ _ m inserted
          ∙ ap (λ (x : Message). (placed robot evt db).0.messages ++ x ∷ []) (sym st.message))

  pub stored_contact :
      first (is_contact robot evt.contact) db'.contacts ≡ some (found robot evt db).1
  unfolding insert_message
  stored_contact =
      ap (first (is_contact robot evt.contact)) (
        shown.contacts
        ∙ find_or_create_conversation-contacts robot (found robot evt db).1 (found robot evt db).0)
      ∙ upsert_contact-first robot evt.contact db sound

  pub stored_conversation :
      first (is_conversation robot (found robot evt db).1) db'.conversations
      ≡ some (
          touched evt
            (clean_content evt.content)
            (placed robot evt db).0.now
            (placed robot evt db).1)
  unfolding insert_message touched
  stored_conversation =
      ap (first (is_conversation robot (found robot evt db).1)) shown.conversations
      ∙ first-update_self conversation_key 0 (is_conversation robot (found robot evt db).1)
          (touched evt (clean_content evt.content) (placed robot evt db).0.now)
          (placed robot evt db).0.conversations (placed robot evt db).1 placed-IsSound.conversations
          place
          (first-passes (is_conversation robot (found robot evt db).1)
            (placed robot evt db).0.conversations (placed robot evt db).1 place)
    where
      place :
          first (is_conversation robot (found robot evt db).1) (placed robot evt db).0.conversations
          ≡ some (placed robot evt db).1
      place = find_or_create_conversation-first robot (found robot evt db).1 (found robot evt db).0

  pub known_message :
      (id : Text)
      → evt.external_msg_id ≡ some id
      → m.external_msg_id ≡ some id
      → is_empty id ≡ false
      → first (has_external_id (placed robot evt db).1.id id) db'.messages ≡ some m
  known_message id given kept nonempty =
      ap (first (has_external_id (placed robot evt db).1.id id)) stored_messages
      ∙ first-snoc (has_external_id (placed robot evt db).1.id id) (placed robot evt db).0.messages
          m
          (identify-fresh (placed robot evt db).1.id id (placed robot evt db).0 nonempty (
            ap (λ e. identify (placed robot evt db).1.id e (placed robot evt db).0) (sym given)
            ∙ (st.identity ∙ ap stored_as (sym stored_fields.1 ∙ kept))))
          (ground (arith, stored_fields.0, ==_refl (placed robot evt db).1.id, text_eq_refl id))
