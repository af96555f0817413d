-- ===== src/AutoReply/Marking.antt =====
-- backend/app/services/auto_reply_scheduler.py: `_pending_messages`, `_decision_feedback_ids` and
-- `_mark_feedback`.
use wecom_ai_agent.Prelude.{
  ℕ, All, All-of, take, ◌≤◌, ◌≡◌, refl, ◌∙◌, ap, inl, inr, true, false, Option, none, some, List,
  [], ◌∷◌, arith, ◌==◌, not, any, count, keep, length, map, Member, Member-keep, Member-take,
  length-take-le, ==_iff, Bool-cases, Option-cases, if◌then◌else◌,
}
use wecom_ai_agent.Prelude.Table.{get, get-map, get-key}
use wecom_ai_agent.Prelude.Text.{Text}
use wecom_ai_agent.Prelude.Order.{order_by, Member-order_by}
use wecom_ai_agent.Store.{
  Conversation, Message, Feedback, Event, Db, emit, message_key, get_message, get_conversation,
}
use wecom_ai_agent.SendOrchestrator.{is_unreplied}
use wecom_ai_agent.AutoReply.{
  pending_messages, distinct, feedback_fields, marked_row, mark_feedback, broadcast_messages,
  broadcast_conversations, broadcast_conversation, announce_rows, broadcast_message_feedback,
}

-- A turn reads at most twenty messages, each a customer's message of that conversation that has no
-- reply yet.
pub pending_messages_lem :
    (db : Db) (conv_id : ℕ)
    → (length (pending_messages db conv_id) ≤ 20)
      × All
          (λ m. Member m db.messages × (is_unreplied conv_id m ≡ true))
          (pending_messages db conv_id)
unfolding pending_messages
pending_messages_lem db conv_id = (
  length-take-le 20 (order_by age (keep (is_unreplied conv_id) db.messages)),
  All-of (λ m. Member m db.messages × (is_unreplied conv_id m ≡ true))
      (take 20 (order_by age (keep (is_unreplied conv_id) db.messages)))
      (λ m h. Member-keep (is_unreplied conv_id) db.messages m (
        Member-order_by age m (keep (is_unreplied conv_id) db.messages)
          (Member-take 20 (order_by age (keep (is_unreplied conv_id) db.messages)) m h))),
)
  where
    age : Message → List ℕ
    age m = m.created_at ∷ []

abbrev occurs : ℕ → List ℕ → ℕ
occurs id ids = count (λ x. x == id) ids

occurs-drop_self : (j : ℕ) (ids : List ℕ) → occurs j (keep (λ x. not (x == j)) ids) ≡ 0
occurs-drop_self j [] = refl
occurs-drop_self j (x ∷ xs) = ground (arith, occurs-drop_self j xs)

occurs-drop_ne :
    (id j : ℕ) (ids : List ℕ)
    → (j == id) ≡ false
    → occurs id (keep (λ x. not (x == j)) ids) ≡ occurs id ids
occurs-drop_ne id j [] h = refl
occurs-drop_ne id j (x ∷ xs) h = ground (arith, occurs-drop_ne id j xs h)

any-drop_ne :
    (id j : ℕ) (ids : List ℕ)
    → (j == id) ≡ false
    → any (λ x. x == id) (keep (λ x. not (x == j)) ids) ≡ any (λ x. x == id) ids
any-drop_ne id j [] h = refl
any-drop_ne id j (x ∷ xs) h = ground (arith, any-drop_ne id j xs h)

-- No id occurs twice in the list without duplicates, and an id is in it exactly if it is in the
-- given list.
pub distinct_lem :
    (ids : List ℕ) (id : ℕ)
    → (count (λ x. x == id) (distinct ids) ≤ 1)
      × (any (λ x. x == id) (distinct ids) ≡ any (λ x. x == id) ids)
unfolding distinct
distinct_lem [] id = (omega arith, refl)
distinct_lem (x ∷ xs) id = elim (Bool-cases (x == id)) [
  | inl e ↦ ground (arith, e, ==_iff x id, occurs-drop_self x (distinct xs))
  | inr e ↦
      let (once, same) = distinct_lem xs id in
      ground (
        arith,
        e,
        once,
        same,
        occurs-drop_ne id x (distinct xs) e,
        any-drop_ne id x (distinct xs) e,
      )
]

-- What no event changes, the broadcasts do not change.
module _ {A : Type 0} (part : Db → A)
    (kept : (e : Event) (db : Db) → part (emit e db) ≡ part db) where
  broadcast_message_feedback-keeps :
      (m : Message) (db : Db) → part (broadcast_message_feedback m db) ≡ part db
  unfolding broadcast_message_feedback
  broadcast_message_feedback-keeps m db =
      elim (Option-cases (get_conversation db m.conversation_id)) [
        | inl e ↦ rw (e, broadcast_message_feedback) refl
        | inr (conv, e) ↦ rw (e, broadcast_message_feedback) (kept _ db)
      ]

  broadcast_messages-keeps :
      (ms : List Message) (db : Db) → part (broadcast_messages ms db) ≡ part db
  unfolding broadcast_messages
  broadcast_messages-keeps [] db = refl
  broadcast_messages-keeps (m ∷ ms) db =
      broadcast_messages-keeps ms (broadcast_message_feedback m db)
      ∙ broadcast_message_feedback-keeps m db

  broadcast_conversation-keeps :
      (conv : Option Conversation) (db : Db) → part (broadcast_conversation conv db) ≡ part db
  unfolding broadcast_conversation
  broadcast_conversation-keeps none db = refl
  broadcast_conversation-keeps (some conv) db = kept _ db

  broadcast_conversations-keeps :
      (ids : List ℕ) (db : Db) → part (broadcast_conversations ids db) ≡ part db
  unfolding broadcast_conversations
  broadcast_conversations-keeps [] db = refl
  broadcast_conversations-keeps (id ∷ ids) db =
      broadcast_conversations-keeps ids (broadcast_conversation (get_conversation db id) db)
      ∙ broadcast_conversation-keeps (get_conversation db id) db

  announce_rows-keeps : (rows : List Message) (db : Db) → part (announce_rows rows db) ≡ part db
  unfolding announce_rows
  announce_rows-keeps rows db =
      broadcast_conversations-keeps (distinct (map (λ (m : Message). m.conversation_id) rows))
        (broadcast_messages rows db)
      ∙ broadcast_messages-keeps rows db

marked_row-key :
    (ids : List ℕ) (status : Feedback) (trace : Option Text) (tasks : List ℕ) (now : ℕ)
    (m : Message)
    → message_key (marked_row ids status trace tasks now m) ≡ message_key m
unfolding marked_row
marked_row-key ids status trace tasks now m = ground arith

-- The messages that are named get the status, the trace, the time and the tasks, and no other message
-- changes.
pub mark_feedback_lem :
    (ids : List ℕ) (status : Feedback) (trace : Option Text) (tasks : List ℕ) (db : Db) (id : ℕ)
    (m : Message)
    → get_message db id ≡ some m
    → get_message (mark_feedback ids status trace tasks db) id
      ≡ some (if any (λ i. i == id) ids then feedback_fields status trace tasks db.now m else m)
unfolding mark_feedback marked_row feedback_fields
mark_feedback_lem [] status trace tasks db id m g = g
mark_feedback_lem (i ∷ is) status trace tasks db id m g =
    ap (get message_key id) (announce_rows-keeps (λ (d : Db). d.messages) (λ e d. refl) _ _)
    ∙ get-map message_key (marked_row (i ∷ is) status trace tasks db.now)
        (λ a. marked_row-key (i ∷ is) status trace tasks db.now a) id db.messages m g
    ∙ ap
        (λ j.
          some
            (if any (λ x. x == j) (i ∷ is) then feedback_fields status trace tasks db.now m else m))
        (get-key message_key id db.messages m g)

pub mark_feedback-tasks :
    (ids : List ℕ) (status : Feedback) (trace : Option Text) (tasks : List ℕ) (db : Db)
    → (mark_feedback ids status trace tasks db).tasks ≡ db.tasks
unfolding mark_feedback
mark_feedback-tasks [] status trace tasks db = refl
mark_feedback-tasks (i ∷ is) status trace tasks db =
    announce_rows-keeps (λ (d : Db). d.tasks) (λ e d. refl) _ _
