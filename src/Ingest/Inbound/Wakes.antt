-- ===== src/Ingest/Inbound/Wakes.antt =====
-- backend/app/services/conversation.py, `ingest_inbound_message`, with the choice of a conversation of
-- backend/app/services/auto_reply_scheduler.py: what a stored message makes the scheduler do.
use wecom_ai_agent.Prelude.{
  ℕ, ◌≡◌, refl, ◌∙◌, sym, ap, Bool, true, Option, some, List, [], ◌∷◌, ◌++◌, ◌==◌, ◌&&◌, not, arith,
  any, any-append, first-passes, if◌then◌else◌, take, keep, reverse_onto, ==_refl, &&-true,
}
use wecom_ai_agent.Prelude.Order.{order_by}
use wecom_ai_agent.Prelude.Table.{get, get-update_self}
use wecom_ai_agent.Prelude.Text.{Text}
use wecom_ai_agent.Store.{
  Robot, Contact, Conversation, Message, RobotTask, Settings, Db, conversation_key,
  get_conversation,
}
use wecom_ai_agent.SendOrchestrator.{is_unreplied}
use wecom_ai_agent.AutoReply.{answers, is_candidate, is_active_reply}
use wecom_ai_agent.AutoReply.Turn.{schedule_refresh}
use wecom_ai_agent.Ingest.Noise.{clean_content}
use wecom_ai_agent.Ingest.Harvest.{
  has_active_conversation_list_harvest, active_goals, is_reason, is_active_goal,
}
use wecom_ai_agent.Ingest.Observed.{AndroidMessageReceived, from_customer, is_conversation}
use wecom_ai_agent.Ingest.Inbound.{
  new_message, touched, insert_message, after_commit, wakes_reply, stored, ingest_inbound_message,
}
use wecom_ai_agent.Ingest.Inbound.Rows.{
  IsSound, upsert_contact-SameRest, upsert_contact-IsSound, find_or_create_conversation-SameRest,
  find_or_create_conversation-first, find_or_create_conversation-get,
}
use wecom_ai_agent.Ingest.Inbound.Outcome.{found, placed, IsStored, ingest-IsStored}
use wecom_ai_agent.Ingest.Inbound.StoredRows.{inserted, stored_messages, stored_fields, shown}

has_active-tasks :
    (a b : Db) (r c : ℕ)
    → a.tasks ≡ b.tasks
    → has_active_conversation_list_harvest a r c ≡ has_active_conversation_list_harvest b r c
unfolding has_active_conversation_list_harvest active_goals
has_active-tasks a b r c e =
    ap
      (λ (ts : List RobotTask).
        any (λ (t : RobotTask). is_reason t.payload_json.reason)
          (take 10 (
            reverse_onto []
              (order_by (λ (t : RobotTask). t.created_at ∷ []) (keep (is_active_goal r c) ts)))))
      e

module _ (settings : Settings) (robot : Robot) (evt : AndroidMessageReceived) (contact : Contact)
    (conv : Conversation) (m : Message) (db : Db) where
  after_commit-tasks : (after_commit settings robot evt contact conv m db).tasks ≡ db.tasks
  unfolding after_commit schedule_refresh
  after_commit-tasks = ground arith

  after_commit-wakes : (after_commit settings robot evt contact conv m db).reply_wakes ≡ (
      if wakes_reply settings robot evt conv db
      then db.reply_wakes ++ robot.id ∷ []
      else db.reply_wakes)
  unfolding after_commit schedule_refresh
  after_commit-wakes = ground arith

module _ (settings : Settings) (robot : Robot) (evt : AndroidMessageReceived) (db : Db)
    (m : Message) (db' : Db) (sound : IsSound db) (st : IsStored settings robot evt db m db') where
  -- The row of the conversation, after the message.
  abbrev row : Conversation
  row = touched evt (clean_content evt.content) (placed robot evt db).0.now (placed robot evt db).1

  abbrev db1 : Db
  db1 = inserted settings robot evt db m db' sound st

  row-get : get_conversation db' m.conversation_id ≡ some row
  unfolding touched insert_message
  row-get =
      ap (get conversation_key m.conversation_id)
        (shown settings robot evt db m db' sound st).conversations
      ∙ (ap (λ (id : ℕ). get conversation_key id db1.conversations)
            (stored_fields settings robot evt db m db' sound st).0
          ∙ get-update_self conversation_key (placed robot evt db).1.id
              (touched evt (clean_content evt.content) (placed robot evt db).0.now)
              (placed robot evt db).0.conversations (placed robot evt db).1
              (find_or_create_conversation-get robot (found robot evt db).1 (found robot evt db).0
                (upsert_contact-IsSound robot evt.contact db sound))
              refl)

  row_robot : (row.robot_id == robot.id) ≡ true
  unfolding touched
  row_robot =
      (&&-true _ _ (
        first-passes (is_conversation robot (found robot evt db).1)
          (placed robot evt db).0.conversations (placed robot evt db).1
          (find_or_create_conversation-first robot (found robot evt db).1
            (found robot evt db).0))).0

  row_waits : from_customer evt ≡ true → any (is_unreplied row.id) db'.messages ≡ true
  unfolding touched new_message
  row_waits c =
      ap (any (is_unreplied row.id)) (stored_messages settings robot evt db m db' sound st)
      ∙ (any-append (is_unreplied row.id) (placed robot evt db).0.messages (m ∷ [])
          ∙ rw st.message (ground (arith, ==_refl (placed robot evt db).1.id)))

  row_candidate :
      from_customer evt ≡ true
      → is_candidate db' robot.id row
        ≡ (answers row.mode && not (any (is_active_reply row.id) db'.tasks))
  row_candidate c = rw (row_robot, row_waits c)

  tasks_same : db'.tasks ≡ db1.tasks
  tasks_same = ap (λ (d : Db). d.tasks) st.state ∙ after_commit-tasks settings robot evt _ _ m db1

  test_same :
      from_customer evt ≡ true
      → wakes_reply settings robot evt row db1 ≡ (
          settings.auto_reply_enabled
          && (not (has_active_conversation_list_harvest db' robot.id row.id) && answers row.mode))
  unfolding wakes_reply
  test_same c = rw c (
      ap (λ (b : Bool). settings.auto_reply_enabled && (not b && answers row.mode))
        (has_active-tasks db1 db' robot.id row.id (sym tasks_same)))

  wakes_same : db1.reply_wakes ≡ db.reply_wakes
  unfolding insert_message
  wakes_same =
      (find_or_create_conversation-SameRest robot (found robot evt db).1 (found robot evt db).0
        (upsert_contact-IsSound robot evt.contact db sound)).reply_wakes
      ∙ (upsert_contact-SameRest robot evt.contact db).reply_wakes

  row_wakes :
      from_customer evt ≡ true
      → db'.reply_wakes ≡ (
          if settings.auto_reply_enabled
            && (not (has_active_conversation_list_harvest db' robot.id row.id) && answers row.mode)
          then db.reply_wakes ++ robot.id ∷ []
          else db.reply_wakes)
  unfolding insert_message
  row_wakes c =
      ap (λ (d : Db). d.reply_wakes) st.state
      ∙ (after_commit-wakes settings robot evt (found robot evt db).1 row m db1
          ∙ (ap (λ (b : Bool). if b then db1.reply_wakes ++ robot.id ∷ [] else db1.reply_wakes)
                (test_same c)
              ∙ ap
                  (λ (ws : List ℕ).
                    if settings.auto_reply_enabled
                      && (not (has_active_conversation_list_harvest db' robot.id row.id)
                          && answers row.mode)
                    then ws ++ robot.id ∷ []
                    else ws)
                  wakes_same))

-- A stored message of a customer makes its conversation a candidate for a turn of the auto-reply,
-- unless the conversation is left to humans or a reply to it is under way. The call of
-- wake_robot for the robot is recorded once exactly if the auto-reply is enabled, the conversation is
-- not left to humans and no harvest of it is under way; else no call is recorded.
pub stored-wakes :
    (repr : Text → Text) (limit_one : List Message → Option Message) (settings : Settings)
    (robot : Robot) (evt : AndroidMessageReceived) (db : Db) (m : Message) (db' : Db)
    → IsSound db
    → from_customer evt ≡ true
    → ingest_inbound_message repr limit_one settings robot evt db ≡ stored m db'
    → (conv : Conversation) × (get_conversation db' m.conversation_id ≡ some conv)
      × (is_candidate db' robot.id conv
          ≡ (answers conv.mode && not (any (is_active_reply conv.id) db'.tasks)))
      × (db'.reply_wakes ≡ (
          if settings.auto_reply_enabled
            && (not (has_active_conversation_list_harvest db' robot.id conv.id)
                && answers conv.mode)
          then db.reply_wakes ++ robot.id ∷ []
          else db.reply_wakes))
stored-wakes repr limit_one settings robot evt db m db' sound c h =
    let st = ingest-IsStored settings robot evt db repr limit_one m db' h in
    (
      row settings robot evt db m db' sound st,
      row-get settings robot evt db m db' sound st,
      row_candidate settings robot evt db m db' sound st c,
      row_wakes settings robot evt db m db' sound st c,
    )
