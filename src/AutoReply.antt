-- ===== src/AutoReply.antt =====
-- backend/app/services/auto_reply_scheduler.py: which conversation is answered next, and what one
-- turn of it reads and writes. The dispatcher and its workers are in AutoReply/Dispatcher.
pub mod Turn
pub mod Fairness
pub mod Marking
pub mod Dispatcher
pub mod Workers
pub mod Bounded
pub mod TurnLaws
pub mod States
use wecom_ai_agent.Prelude.{
  ℕ, String, Bool, true, false, Option, none, some, List, [], ◌∷◌, ◌==◌, ◌&&◌, ◌||◌, not, str_eq,
  min, leb, if◌then◌else◌, or_else, is_some, is_empty, any, keep, first, head, length, map, take,
}
use wecom_ai_agent.Prelude.Order.{order_by}
use wecom_ai_agent.Prelude.Text.{Text}
use wecom_ai_agent.Store.{
  Robot, Conversation, Message, Mode, RobotTask, Feedback, Settings, Event, Db, get_conversation,
  emit,
}
use wecom_ai_agent.TaskQueue.{is_runnable, is_active}
use wecom_ai_agent.SendOrchestrator.{is_unreplied}

-- The fields of `_RobotState` that the choice of a conversation reads.
pub record Turns : Type 0 where
  pub last_conv_id : Option ℕ
  pub same_conv_turns : ℕ

abbrev pub is_id : Option ℕ → ℕ → Bool
is_id none id = false
is_id (some a) id = a == id

-- The WHERE of `active_reply_exists`
abbrev pub is_active_reply : ℕ → RobotTask → Bool
is_active_reply conv_id t =
    is_id t.conversation_id conv_id
    && (str_eq t.type "send_text" && (is_runnable t.status || is_active t.status))

abbrev pub answers : Mode → Bool
answers Mode.ai = true
answers Mode.mixed = true
answers Mode.human = false

-- The conversations that the query of `_next_pending_conversation` selects.
abbrev pub is_candidate : Db → ℕ → Conversation → Bool
is_candidate db robot_pk conv =
    (conv.robot_id == robot_pk)
    && (answers conv.mode
        && (any (is_unreplied conv.id) db.messages && not (any (is_active_reply conv.id) db.tasks)))

-- `func.min(Message.created_at)` over the messages that wait; `m` is the first of them.
oldest : ℕ → List Message → ℕ
oldest t [] = t
oldest t (m ∷ ms) = oldest (min t m.created_at) ms

unfoldable pub oldest_pending_at : Db → Conversation → ℕ
unfolding oldest
oldest_pending_at db conv = elim (keep (is_unreplied conv.id) db.messages) [
  | [] ↦ 0
  | m ∷ ms ↦ oldest m.created_at ms
]

-- A candidate that no worker is on.
abbrev pub is_eligible : Db → ℕ → List ℕ → Conversation → Bool
is_eligible db robot_pk excluded conv =
    is_candidate db robot_pk conv && not (any (λ id. id == conv.id) excluded)

-- The candidates by the age of their oldest waiting message. The database may give those of one age
-- in any order; here it is the order of the table.
unfoldable pub ordered_conversations : Db → ℕ → List ℕ → List Conversation
unfolding oldest_pending_at
ordered_conversations db robot_pk excluded =
    order_by (λ conv. oldest_pending_at db conv ∷ [])
      (keep (is_eligible db robot_pk excluded) db.conversations)

-- The first conversation but the one of the last two turns.
unfoldable pub step_back : Option ℕ → ℕ → List Conversation → Option Conversation
step_back none turns cs = none
step_back (some last) turns cs = if leb 2 turns then first (λ c. not (c.id == last)) cs else none

unfoldable pub choose : Turns → List Conversation → Option Conversation
unfolding step_back
choose turns [] = none
choose turns (c ∷ []) = some c
choose turns (c ∷ d ∷ cs) =
    some (or_else (step_back turns.last_conv_id turns.same_conv_turns (c ∷ d ∷ cs)) c)

-- `_next_pending_conversation`
unfoldable pub next_pending_conversation : Db → ℕ → Turns → List ℕ → Option Conversation
unfolding choose ordered_conversations
next_pending_conversation db robot_pk turns excluded =
    choose turns (ordered_conversations db robot_pk excluded)

-- `_pending_messages`: the oldest twenty.
unfoldable pub pending_messages : Db → ℕ → List Message
pending_messages db conv_id =
    take 20 (order_by (λ m. m.created_at ∷ []) (keep (is_unreplied conv_id) db.messages))

-- `list(dict.fromkeys(ids))`
unfoldable pub distinct : List ℕ → List ℕ
distinct [] = []
distinct (id ∷ ids) = id ∷ keep (λ x. not (x == id)) (distinct ids)

not_none : List (Option ℕ) → List ℕ
not_none [] = []
not_none (none ∷ ids) = not_none ids
not_none (some id ∷ ids) = id ∷ not_none ids

-- `_decision_feedback_ids`
unfoldable pub decision_feedback_ids : List (Option ℕ) → List ℕ → List ℕ
unfolding not_none distinct
decision_feedback_ids ids fallback =
    let known = not_none ids in distinct (if is_empty known then fallback else known)

unfoldable pub feedback_fields : Feedback → Option Text → List ℕ → ℕ → Message → Message
feedback_fields status trace_id task_ids now msg = record msg {
  feedback_status = some status;
  feedback_trace_id = trace_id;
  feedback_at = some now;
  feedback_reply_task_ids = some task_ids;
}

unfoldable pub marked_row : List ℕ → Feedback → Option Text → List ℕ → ℕ → Message → Message
unfolding feedback_fields
marked_row ids status trace_id task_ids now msg =
    if any (λ id. id == msg.id) ids then feedback_fields status trace_id task_ids now msg else msg

-- `_broadcast_message_feedback`
unfoldable pub broadcast_message_feedback : Message → Db → Db
broadcast_message_feedback msg db = elim (get_conversation db msg.conversation_id) [
  | none ↦ db
  | some conv ↦ emit (Event.message_updated conv.team_id conv.id msg) db
]

unfoldable pub broadcast_messages : List Message → Db → Db
broadcast_messages [] db = db
broadcast_messages (m ∷ ms) db = broadcast_messages ms (broadcast_message_feedback m db)

-- `_broadcast_conversation`
unfoldable pub broadcast_conversation : Option Conversation → Db → Db
broadcast_conversation none db = db
broadcast_conversation (some conv) db = emit (Event.conversation_updated conv.team_id conv) db

-- of each conversation that changed
unfoldable pub broadcast_conversations : List ℕ → Db → Db
broadcast_conversations [] db = db
broadcast_conversations (id ∷ ids) db =
    broadcast_conversations ids (broadcast_conversation (get_conversation db id) db)

-- The broadcasts of the messages that changed, and of their conversations: a set in the source, here in
-- the order of the messages.
unfoldable pub announce_rows : List Message → Db → Db
announce_rows rows db =
    broadcast_conversations (distinct (map (λ (m : Message). m.conversation_id) rows))
      (broadcast_messages rows db)

-- `_mark_feedback`
unfoldable pub mark_feedback : List ℕ → Feedback → Option Text → List ℕ → Db → Db
mark_feedback [] status trace_id task_ids db = db
mark_feedback (i ∷ is) status trace_id task_ids db =
    let db' = record db {
      messages = map (marked_row (i ∷ is) status trace_id task_ids db.now) db.messages;
    } in
    announce_rows (keep (λ m. any (λ id. id == m.id) (i ∷ is)) db'.messages) db'
