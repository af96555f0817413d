-- ===== src/Ingest/Inbound/Rows.antt =====
-- backend/app/services/conversation.py: the contact and the conversation of an observed message are
-- in the tables, and the keys stay unique.
use wecom_ai_agent.Prelude.{
  ℕ, suc, ◌<◌, ◌≡◌, ◌⊎◌, refl, ◌∙◌, inl, inr, none, some, List, [], ◌∷◌, ◌++◌, arith, All,
  All-append, Option-cases, first, first-passes, first-Member, first-snoc, ==_refl,
}
use wecom_ai_agent.Prelude.Table.{
  Keyed, Keyed-snoc, Keyed-update, All-update, get_of_Member, get-snoc_old, get-snoc_new,
  get-none_of_below, first-update_self,
}
use wecom_ai_agent.Prelude.Text.{text_eq_refl}
use wecom_ai_agent.Store.{
  Robot, Contact, Conversation, Db, contact_key, conversation_key, get_conversation,
}
use wecom_ai_agent.Ingest.Observed.{
  AndroidContact, is_contact, is_conversation, renamed, new_contact, new_conversation,
  upsert_contact, find_or_create_conversation,
}

-- The primary keys grow and are below the next ones.
pub record IsSound (db : Db) : Type 0 where
  pub contacts : Keyed contact_key 0 db.contacts
  pub contacts_below : All (λ (c : Contact). c.id < db.next_contact) db.contacts
  pub conversations : Keyed conversation_key 0 db.conversations
  pub conversations_below : All (λ (c : Conversation). c.id < db.next_conversation) db.conversations

-- `unread_count` of the conversation with that key; 0 if there is none.
abbrev pub unread : Db → ℕ → ℕ
unread db id = elim (get_conversation db id) [ none ↦ 0 | some c ↦ c.unread_count ]

-- What the two look-ups leave alone.
pub record SameRest (old db : Db) : Type 0 where
  pub messages : db.messages ≡ old.messages
  pub tasks : db.tasks ≡ old.tasks
  pub next_message : db.next_message ≡ old.next_message
  pub now : db.now ≡ old.now
  pub reply_wakes : db.reply_wakes ≡ old.reply_wakes
  pub unread : (id : ℕ) → unread db id ≡ unread old id

pub renamed-id : (o : AndroidContact) (c : Contact) → (renamed o c).id ≡ c.id
renamed-id o c = ground arith

-- A new row with the next key.
contacts-snoc :
    (robot : Robot) (o : AndroidContact) (db : Db)
    → IsSound db
    → IsSound (record db {
      contacts = db.contacts ++ new_contact robot o db ∷ [];
      next_contact = suc db.next_contact;
    })
contacts-snoc robot o db s = record {
  contacts =
      Keyed-snoc contact_key 0 db.contacts (new_contact robot o db) s.contacts s.contacts_below
        (omega arith);
  contacts_below =
      All-append (λ (c : Contact). c.id < suc db.next_contact) db.contacts _
        (All-below db.contacts s.contacts_below) (omega arith);
  conversations = s.conversations;
  conversations_below = s.conversations_below;
}
  where
    All-below :
        (cs : List Contact)
        → All (λ (c : Contact). c.id < db.next_contact) cs
        → All (λ (c : Contact). c.id < suc db.next_contact) cs
    All-below [] h = tt
    All-below (c ∷ cs) h = (omega arith, All-below cs h.1)

conversations-snoc :
    (robot : Robot) (contact : Contact) (db : Db)
    → IsSound db
    → IsSound (record db {
      conversations = db.conversations ++ new_conversation robot contact db ∷ [];
      next_conversation = suc db.next_conversation;
    })
conversations-snoc robot contact db s = record {
  contacts = s.contacts;
  contacts_below = s.contacts_below;
  conversations =
      Keyed-snoc conversation_key 0 db.conversations (new_conversation robot contact db)
        s.conversations s.conversations_below (omega arith);
  conversations_below =
      All-append (λ (c : Conversation). c.id < suc db.next_conversation) db.conversations _
        (All-below db.conversations s.conversations_below) (omega arith);
}
  where
    All-below :
        (cs : List Conversation)
        → All (λ (c : Conversation). c.id < db.next_conversation) cs
        → All (λ (c : Conversation). c.id < suc db.next_conversation) cs
    All-below [] h = tt
    All-below (c ∷ cs) h = (omega arith, All-below cs h.1)

module _ (robot : Robot) (observed : AndroidContact) (db : Db) where
  abbrev found : Db × Contact
  found = upsert_contact robot observed db

  pub upsert_contact-SameRest : SameRest db found.0
  unfolding upsert_contact
  upsert_contact-SameRest = elim (Option-cases (first (is_contact robot observed) db.contacts)) [
    | inl e ↦ rw (e, upsert_contact) (ground arith)
    | inr (c, e) ↦ rw (e, upsert_contact) (ground arith)
  ]

  pub upsert_contact-IsSound : IsSound db → IsSound found.0
  unfolding upsert_contact
  upsert_contact-IsSound s = elim (Option-cases (first (is_contact robot observed) db.contacts)) [
    | inl e ↦ rw (e, upsert_contact) (contacts-snoc robot observed db s)
    | inr (c, e) ↦
        rw (e, upsert_contact)
          (record {
            contacts =
                Keyed-update contact_key 0 c.id (renamed observed) db.contacts (renamed-id observed)
                  s.contacts;
            contacts_below =
                All-update contact_key {P = λ (x : Contact). x.id < db.next_contact} c.id
                  (renamed observed) db.contacts (λ x h. ground (arith, renamed-id observed x))
                  s.contacts_below;
            conversations = s.conversations;
            conversations_below = s.conversations_below;
          })
  ]

  pub upsert_contact-first :
      IsSound db → first (is_contact robot observed) found.0.contacts ≡ some found.1
  unfolding upsert_contact
  upsert_contact-first s = elim (Option-cases (first (is_contact robot observed) db.contacts)) [
    | inl e ↦
        rw (e, upsert_contact)
          (first-snoc (is_contact robot observed) db.contacts _ e
            (ground (arith, ==_refl robot.id, text_eq_refl observed.external_id)))
    | inr (c, e) ↦
        rw (e, upsert_contact)
          (first-update_self contact_key 0 (is_contact robot observed) (renamed observed)
            db.contacts c s.contacts e
            (ground (arith, first-passes (is_contact robot observed) db.contacts c e)))
  ]

module _ (robot : Robot) (contact : Contact) (db : Db) where
  abbrev placed : Db × Conversation
  placed = find_or_create_conversation robot contact db

  pub find_or_create_conversation-SameRest : IsSound db → SameRest db placed.0
  unfolding find_or_create_conversation
  find_or_create_conversation-SameRest s =
      elim (Option-cases (first (is_conversation robot contact) db.conversations)) [
        | inl e ↦
            rw (e, find_or_create_conversation)
              (record {
                messages = refl;
                tasks = refl;
                next_message = refl;
                now = refl;
                reply_wakes = refl;
                unread = λ id. unread-snoc id (Option-cases (get_conversation db id));
              })
        | inr (c, e) ↦ rw (e, find_or_create_conversation) (ground arith)
      ]
    where
      made : Conversation
      made = new_conversation robot contact db

      unread-snoc :
          (id : ℕ)
          → (get_conversation db id ≡ none)
            ⊎ ((c : Conversation) × (get_conversation db id ≡ some c))
          → unread (record db { conversations = db.conversations ++ made ∷ [] }) id ≡ unread db id
      unread-snoc id (inl h) =
          ground (arith, h, get-snoc_new conversation_key id db.conversations made h)
      unread-snoc id (inr (c, h)) =
          ground (arith, h, get-snoc_old conversation_key id db.conversations made c h)

  pub find_or_create_conversation-IsSound : IsSound db → IsSound placed.0
  unfolding find_or_create_conversation
  find_or_create_conversation-IsSound s =
      elim (Option-cases (first (is_conversation robot contact) db.conversations)) [
        | inl e ↦ rw (e, find_or_create_conversation) (conversations-snoc robot contact db s)
        | inr (c, e) ↦ rw (e, find_or_create_conversation) s
      ]

  pub find_or_create_conversation-get :
      IsSound db → get_conversation placed.0 placed.1.id ≡ some placed.1
  unfolding find_or_create_conversation
  find_or_create_conversation-get s =
      elim (Option-cases (first (is_conversation robot contact) db.conversations)) [
        | inl e ↦
            rw (e, find_or_create_conversation)
              (get-snoc_new conversation_key db.next_conversation db.conversations _ (
                  get-none_of_below conversation_key db.next_conversation db.next_conversation
                    db.conversations s.conversations_below (omega arith))
                ∙ ground (arith, ==_refl db.next_conversation))
        | inr (c, e) ↦
            rw (e, find_or_create_conversation)
              (get_of_Member conversation_key 0 db.conversations c s.conversations
                (first-Member (is_conversation robot contact) db.conversations c e))
      ]

  pub find_or_create_conversation-first :
      first (is_conversation robot contact) placed.0.conversations ≡ some placed.1
  unfolding find_or_create_conversation
  find_or_create_conversation-first =
      elim (Option-cases (first (is_conversation robot contact) db.conversations)) [
        | inl e ↦
            rw (e, find_or_create_conversation)
              (first-snoc (is_conversation robot contact) db.conversations _ e
                (ground (arith, ==_refl robot.id, ==_refl contact.id)))
        | inr (c, e) ↦ rw (e, find_or_create_conversation) e
      ]
