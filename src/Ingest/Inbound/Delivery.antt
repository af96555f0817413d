-- ===== src/Ingest/Inbound/Delivery.antt =====
-- backend/app/services/conversation.py, `ingest_inbound_message`, as an implementation of an abstract
-- inbox: a list of messages and the number of unread ones of each conversation.
use wecom_ai_agent.Prelude.{
  ◌||◌, ℕ, ◌+◌, ◌<◌, ◌≡◌, refl, ◌∙◌, ap, ap₂, subst, inl, inr, Bool, false, Option, none, some,
  List, [], ◌∷◌, ◌++◌, ◌==◌, ◌&&◌, arith, map, map-snoc, Option-cases, Bool-cases, if_elim,
  is_empty, or_else, if◌then◌else◌, ==_iff, ==_refl,
}
use mathlib.Core.Path.{fun_ext}
use wecom_ai_agent.Prelude.Table.{get, Keyed-update, All-update, get-update_self, get-update_ne}
use wecom_ai_agent.Prelude.Text.{Text}
use wecom_ai_agent.Store.{
  Robot, Contact, Conversation, Message, Settings, Db, Feedback, conversation_key, get_conversation,
  get_robot,
}
use wecom_ai_agent.Store.Chats.{entry, SameChats, SameChats-trans, emit-SameChats}
use wecom_ai_agent.SendOrchestrator.{is_inbound}
use wecom_ai_agent.AutoReply.Turn.{schedule_refresh}
use wecom_ai_agent.Ingest.Noise.{clean_content, is_unreliable_contact}
use wecom_ai_agent.Ingest.Harvest.{
  has_active_conversation_list_harvest, queue_chat_harvest, queue_chat_harvest-SameChats,
}
use wecom_ai_agent.Ingest.Observed.{
  AndroidMessageReceived, from_customer, contact_name, upsert_contact, find_or_create_conversation,
}
use wecom_ai_agent.Ingest.Inbound.{
  breaks_unique, new_message, Identity, duplicate, stored_as, is_noise, needs_harvest, is_replay,
  touched, insert_message, wakes_reply, wake_robot_of, after_commit, Ingested, rejected, committed,
  store_message, harvest_first, accept_message, with_rows, ingest_inbound_message, message_received,
}
use wecom_ai_agent.Ingest.Inbound.Rows.{
  IsSound, unread, SameRest, upsert_contact-SameRest, upsert_contact-IsSound,
  find_or_create_conversation-SameRest, find_or_create_conversation-IsSound,
  find_or_create_conversation-get,
}

pub record Inbox : Type 0 where
  pub entries : List Message
  pub unread_of : ℕ → ℕ

abbrev pub inbox : List Message → (ℕ → ℕ) → Inbox
inbox entries unread_of = record { entries = entries; unread_of = unread_of }

-- What the tables show of it.
abbrev pub view : Db → Inbox
view db = inbox (map entry db.messages) (unread db)

-- The abstract operation: one more message, and one more unread if it is a customer's.
abbrev pub deliver : Message → Inbox → Inbox
deliver e a = inbox (a.entries ++ e ∷ []) (λ id.
    if is_inbound e.direction && (e.conversation_id == id)
    then a.unread_of id + 1
    else a.unread_of id)

-- The message shows the observed text without the noise around it, on the observed side, and waits
-- for a reply exactly if a customer wrote it.
pub record IsFaithful (evt : AndroidMessageReceived) (e : Message) : Type 0 where
  pub content : e.content ≡ clean_content evt.content
  pub nonblank : is_empty e.content ≡ false
  pub no_noise : is_noise evt e.content ≡ false
  pub direction : is_inbound e.direction ≡ from_customer evt
  pub feedback : e.feedback_status ≡ (if from_customer evt then some Feedback.pending else none)

-- What one observed message may do to the inbox.
pub data Step (evt : AndroidMessageReceived) (a b : Inbox) : Type 0 where
  nothing : b ≡ a → Step evt a b
  delivered : (e : Message) → IsFaithful evt e → b ≡ deliver e a → Step evt a b

unread_in : List Conversation → ℕ → ℕ
unread_in cs id = elim (get conversation_key id cs) [ none ↦ 0 | some c ↦ c.unread_count ]

view-SameChats : {a b : Db} → SameChats a b → view b ≡ view a
unfolding unread_in
view-SameChats s = ap₂ inbox s.messages (ap unread_in s.conversations)

view-SameRest : {a b : Db} → SameRest a b → view b ≡ view a
view-SameRest s = ap₂ inbox (ap (map entry) s.messages) (fun_ext s.unread)

IsSound-SameChats : {a b : Db} → SameChats a b → IsSound a → IsSound b
IsSound-SameChats {a} {b} s v = record {
  contacts = rw s.contacts v.contacts;
  contacts_below = rw (s.contacts, s.next_contact) v.contacts_below;
  conversations = rw s.conversations v.conversations;
  conversations_below = rw (s.conversations, s.next_conversation) v.conversations_below;
}

schedule_refresh-SameChats :
    (settings : Settings) (contact : Contact) (conv : Conversation) (db : Db)
    → SameChats db (schedule_refresh settings contact conv db)
unfolding schedule_refresh
schedule_refresh-SameChats settings contact conv db = ground arith

wake-SameChats :
    (b : Bool) (robot : Robot) (db : Db) → SameChats db (if b then wake_robot_of robot db else db)
wake-SameChats b robot db = ground arith

pub after_commit-SameChats :
    (settings : Settings) (robot : Robot) (evt : AndroidMessageReceived) (contact : Contact)
    (conv : Conversation) (m : Message) (db : Db)
    → SameChats db (after_commit settings robot evt contact conv m db)
unfolding after_commit
after_commit-SameChats settings robot evt contact conv m db =
    SameChats-trans
      (SameChats-trans (SameChats-trans (emit-SameChats _ db) (emit-SameChats _ _))
        (wake-SameChats (wakes_reply settings robot evt conv db) robot _))
      (schedule_refresh-SameChats settings contact conv _)

module _ (evt : AndroidMessageReceived) (conv : Conversation) (cleaned : Text) (id : Option Text)
    (db : Db) (at : get_conversation db conv.id ≡ some conv) where
  abbrev made : Message
  made = new_message evt conv.id cleaned id db

  counted :
      (j : ℕ)
      → unread (insert_message evt conv cleaned id db) j
        ≡ (deliver (entry made) (view db)).unread_of j
  unfolding insert_message new_message touched
  counted j = elim (Bool-cases (conv.id == j)) [
    | inl e ↦
        let same = (==_iff conv.id j).0 e in
        subst
          (λ k.
            unread (insert_message evt conv cleaned id db) k
            ≡ (deliver (entry made) (view db)).unread_of k)
          same
          (ground (
            arith,
            at,
            get-update_self conversation_key conv.id (touched evt cleaned db.now) db.conversations
                conv at refl,
            ==_refl conv.id,
          ))
    | inr e ↦ ground (
      arith,
      get-update_ne conversation_key conv.id j (touched evt cleaned db.now) db.conversations
          (λ c. refl) (λ h. ground (arith, (==_iff conv.id j).1 h)),
    )
  ]

  insert_message-view :
      view (insert_message evt conv cleaned id db) ≡ deliver (entry made) (view db)
  unfolding insert_message new_message touched
  insert_message-view = ap₂ inbox (map-snoc entry db.messages made) (fun_ext counted)

  insert_message-IsSound : IsSound db → IsSound (insert_message evt conv cleaned id db)
  unfolding insert_message touched
  insert_message-IsSound s = record {
    contacts = s.contacts;
    contacts_below = s.contacts_below;
    conversations =
        Keyed-update conversation_key 0 conv.id (touched evt cleaned db.now) db.conversations
          (λ c. refl) s.conversations;
    conversations_below =
        All-update conversation_key {P = λ (x : Conversation). x.id < db.next_conversation} conv.id
          (touched evt cleaned db.now) db.conversations (λ x h. h) s.conversations_below;
  }

-- How a call ends, seen from the state `old` in which it started.
abbrev Refines : AndroidMessageReceived → Db → Ingested → Type 0
Refines evt old r = IsSound (committed r old) × Step evt (view old) (view (committed r old))

refuse : (evt : AndroidMessageReceived) (old : Db) → IsSound old → Refines evt old rejected
refuse evt old s = (s, nothing refl)

-- The rest of a call, after the rows of the contact and of the conversation are there in `db`.
module _ (evt : AndroidMessageReceived) (old : Db) (sound : IsSound old) (contact : Contact)
    (conv : Conversation) (db : Db) (now_sound : IsSound db) (same : view db ≡ view old)
    (at : get_conversation db conv.id ≡ some conv) (settings : Settings) (robot : Robot)
    (nonblank : is_empty (clean_content evt.content) ≡ false) where
  store_message-Refines :
      (id : Option Text)
      → is_noise evt (clean_content evt.content) ≡ false
      → Refines evt old
          (store_message settings robot evt contact conv (clean_content evt.content) id db)
  unfolding store_message new_message
  store_message-Refines id quiet =
      if_elim (Refines evt old)
        (breaks_unique conv.id id db
          || settings.refuses (new_message evt conv.id (clean_content evt.content) id db))
        (sound, nothing refl)
        (
          IsSound-SameChats shown
              (insert_message-IsSound evt conv (clean_content evt.content) id db at now_sound),
          delivered (entry m)
              (record {
                content = refl;
                nonblank = nonblank;
                no_noise = quiet;
                direction = ground arith;
                feedback = refl;
              })
              (view-SameChats shown
                ∙ (insert_message-view evt conv (clean_content evt.content) id db at
                    ∙ ap (deliver (entry m)) same)),
        )
    where
      m : Message
      m = new_message evt conv.id (clean_content evt.content) id db

      shown : SameChats (insert_message evt conv (clean_content evt.content) id db) (
          after_commit settings robot evt contact
            (touched evt (clean_content evt.content) db.now conv)
            m
            (insert_message evt conv (clean_content evt.content) id db))
      shown = after_commit-SameChats settings robot evt contact _ m _

  harvest_first-Refines :
      (repr : Text → Text)
      → Refines evt old (harvest_first repr settings robot evt conv (clean_content evt.content) db)
  unfolding harvest_first
  harvest_first-Refines repr =
      if_elim (Refines evt old) (has_active_conversation_list_harvest db robot.id conv.id)
        (refuse evt old sound)
        (IsSound-SameChats kept now_sound, nothing (view-SameChats kept ∙ same))
    where
      kept :
          SameChats db
            (queue_chat_harvest repr settings robot conv evt.contact.external_id
              (clean_content evt.content)
              (or_else evt.unread_count 0)
              db).0
      kept =
          queue_chat_harvest-SameChats repr settings robot conv evt.contact.external_id
            (clean_content evt.content) (or_else evt.unread_count 0) db

  accept_message-Refines :
      (repr : Text → Text) (limit_one : List Message → Option Message) (i : Identity)
      → Refines evt old (
          accept_message repr limit_one settings robot evt contact conv
            (clean_content evt.content)
            db
            i)
  unfolding accept_message
  accept_message-Refines repr limit_one duplicate = refuse evt old sound
  accept_message-Refines repr limit_one (stored_as id) =
      elim (Bool-cases (is_noise evt (clean_content evt.content))) [
        | inl e ↦ rw e (refuse evt old sound)
        | inr e ↦ rw e (
            if_elim (Refines evt old) (needs_harvest evt) (harvest_first-Refines repr) (
              if_elim (Refines evt old)
                (is_replay limit_one settings evt conv.id (clean_content evt.content) id db)
                (refuse evt old sound) (store_message-Refines id e)))
      ]

ingest_inbound_message-Refines :
    (repr : Text → Text) (limit_one : List Message → Option Message) (settings : Settings)
    (robot : Robot) (evt : AndroidMessageReceived) (db : Db)
    → IsSound db
    → Refines evt db (ingest_inbound_message repr limit_one settings robot evt db)
unfolding ingest_inbound_message with_rows
ingest_inbound_message-Refines repr limit_one settings robot evt db s =
    elim (Bool-cases (is_empty (clean_content evt.content))) [
      | inl e ↦ rw (e, ingest_inbound_message) (refuse evt db s)
      | inr e ↦
          rw (e, ingest_inbound_message)
            (if_elim (Refines evt db) (is_unreliable_contact (contact_name evt.contact))
              (refuse evt db s)
              (accept_message-Refines evt db s found.1 placed.1 placed.0
                (find_or_create_conversation-IsSound robot found.1 found.0 found-IsSound)
                (view-SameRest
                    (find_or_create_conversation-SameRest robot found.1 found.0 found-IsSound)
                  ∙ view-SameRest (upsert_contact-SameRest robot evt.contact db))
                (find_or_create_conversation-get robot found.1 found.0 found-IsSound) settings robot
                e repr limit_one _))
    ]
  where
    found : Db × Contact
    found = upsert_contact robot evt.contact db

    found-IsSound : IsSound found.0
    found-IsSound = upsert_contact-IsSound robot evt.contact db s

    placed : Db × Conversation
    placed = find_or_create_conversation robot found.1 found.0

-- A message that the device reports is dropped, and then no message and no unread count changes, or
-- it is one more message of the abstract inbox: the observed text without its prefix and the blanks
-- around it, neither blank nor noise, on the observed side, as waiting for a reply exactly if a
-- customer wrote it, with one more unread message in its conversation in that case and no other
-- change. The keys of contacts and conversations stay in order.
pub message_received-refines :
    (repr : Text → Text) (limit_one : List Message → Option Message) (settings : Settings)
    (robot_pk : ℕ) (evt : AndroidMessageReceived) (db : Db)
    → IsSound db
    → IsSound (message_received repr limit_one settings robot_pk evt db)
      × Step evt (view db) (view (message_received repr limit_one settings robot_pk evt db))
unfolding message_received
message_received-refines repr limit_one settings robot_pk evt db s =
    elim (Option-cases (get_robot db robot_pk)) [
      | inl e ↦ rw (e, message_received) (refuse evt db s)
      | inr (robot, e) ↦
          rw (e, message_received)
            (ingest_inbound_message-Refines repr limit_one settings robot evt db s)
    ]
