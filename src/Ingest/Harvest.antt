-- ===== src/Ingest/Harvest.antt =====
-- backend/app/services/conversation.py: the task that opens a chat on the device so that all of its
-- unread messages are collected.
use wecom_ai_agent.Prelude.{
  ℕ, suc, ◌+◌, ◌≡◌, ◌∙◌, ◌⊎◌, inl, inr, Bool, true, false, Option, none, some, List, [], ◌∷◌, ◌++◌,
  ◌==◌, ◌&&◌, ◌||◌, String, arith, str_eq, if◌then◌else◌, is_some, any, first, keep, take, length,
  reverse_onto, length-append, Bool-cases, if_elim, first-any,
}
use wecom_ai_agent.Prelude.Order.{order_by}
use wecom_ai_agent.Prelude.Text.{Text, codes, show}
use wecom_ai_agent.Store.{
  Robot, Conversation, RobotTask, TaskStatus, Settings, Db, add_log, empty_payload,
}
use wecom_ai_agent.TaskQueue.{enqueue, priority_auto_reply, is_runnable, is_active}
use wecom_ai_agent.TaskQueue.Quiet.{enqueue-Quiet}
use wecom_ai_agent.Store.Chats.{SameChats, SameChats-refl, SameChats-trans}
use wecom_ai_agent.TaskQueue.Chats.{enqueue-SameChats}
use wecom_ai_agent.AutoReply.{is_id}

abbrev pub harvest_reason : String
harvest_reason = "conversation_list_preview_multiple_unread"

abbrev pub is_unfinished : TaskStatus → Bool
is_unfinished TaskStatus.pending = true
is_unfinished status = is_runnable status || is_active status

-- The WHERE of the query for active tasks.
abbrev pub is_active_goal : ℕ → ℕ → RobotTask → Bool
is_active_goal robot_pk conv_id t =
    (t.robot_id == robot_pk)
    && (is_id t.conversation_id conv_id && (str_eq t.type "agent_goal" && is_unfinished t.status))

-- The last ten of them.
unfoldable pub active_goals : Db → ℕ → ℕ → List RobotTask
active_goals db robot_pk conv_id = take 10 (
    reverse_onto [] (
      order_by (λ (t : RobotTask). t.created_at ∷ [])
        (keep (is_active_goal robot_pk conv_id) db.tasks)))

abbrev pub is_reason : Option String → Bool
is_reason none = false
is_reason (some reason) = str_eq reason harvest_reason

-- `_has_active_conversation_list_harvest`
unfoldable pub has_active_conversation_list_harvest : Db → ℕ → ℕ → Bool
has_active_conversation_list_harvest db robot_pk conv_id =
    any (λ (t : RobotTask). is_reason t.payload_json.reason) (active_goals db robot_pk conv_id)

unfoldable pub harvest_task : Robot → Conversation → Text → Text → ℕ → Db → RobotTask
harvest_task robot conv contact_name preview unread_count db = record {
  id = db.next_task;
  robot_id = robot.id;
  type = "agent_goal";
  payload_json = record empty_payload {
    goal = some (codes "打开与「" ++ (contact_name ++ codes "」的聊天，等待当前聊天页消息采集完成；不要发送任何内容。"));
    max_steps = some 6;
    reason = some harvest_reason;
    unread_count = some unread_count;
    preview_text = some preview;
  };
  status = TaskStatus.dispatched;
  priority = some 50;
  queue_seq = none;
  attempts = 0;
  max_attempts = 2;
  last_error = none;
  conversation_id = some conv.id;
  message_id = none;
  created_at = db.now;
}

unfoldable pub harvest_note : (Text → Text) → Text → ℕ → Text
harvest_note repr preview unread_count =
    codes "会话列表预览显示多条未读，先打开聊天页采集完整消息气泡 unread_count="
    ++ (show unread_count ++ (codes " preview_text=" ++ repr preview))

unfoldable pub add_harvest : (Text → Text) → Robot → RobotTask → Text → ℕ → Db → Db
add_harvest repr robot task preview unread_count db =
    add_log robot.id (some task.id) "info" (harvest_note repr preview unread_count)
      (record db { tasks = db.tasks ++ task ∷ []; next_task = suc db.next_task })

-- `_queue_chat_harvest_for_conversation_list_preview`; `repr` is Python's.
unfoldable pub queue_chat_harvest :
    (Text → Text) → Settings → Robot → Conversation → Text → Text → ℕ → Db → Db × Bool
queue_chat_harvest repr settings robot conv contact_name preview unread_count db =
    let task = harvest_task robot conv contact_name preview unread_count db in
    let existing =
      first (λ (t : RobotTask). is_reason t.payload_json.reason)
        (active_goals db robot.id conv.id) in
    if is_some existing then (db, true) else (
      enqueue settings robot.robot_id task.id priority_auto_reply
          (add_harvest repr robot task preview unread_count db),
      true,
    )

-- A chat whose harvest is under way, among the last ten goals of the conversation that have not ended,
-- gets no second one and nothing changes; else one task is added.
pub queue_chat_harvest_lem :
    (repr : Text → Text) (settings : Settings) (robot : Robot) (conv : Conversation)
    (contact_name preview : Text) (unread_count : ℕ) (db : Db)
    → let call = queue_chat_harvest repr settings robot conv contact_name preview unread_count db in
      ((has_active_conversation_list_harvest db robot.id conv.id ≡ true) × (call ≡ (db, true)))
      ⊎ ((has_active_conversation_list_harvest db robot.id conv.id ≡ false)
          × (length call.0.tasks ≡ length db.tasks + 1))
unfolding queue_chat_harvest has_active_conversation_list_harvest add_harvest add_log
queue_chat_harvest_lem repr settings robot conv contact_name preview unread_count db =
    elim (Bool-cases (any reasoned goals)) [
      | inl e ↦ let found = first-any reasoned goals ∙ e in inl (e, simp found)
      | inr e ↦
          let missing = first-any reasoned goals ∙ e in
          inr (
            e,
            simp missing (
                omega (
                  arith,
                  (enqueue-Quiet settings robot.robot_id task.id priority_auto_reply
                      (add_harvest repr robot task preview unread_count db)).size,
                  length-append db.tasks (task ∷ []),
                )),
          )
    ]
  where
    reasoned : RobotTask → Bool
    reasoned t = is_reason t.payload_json.reason

    goals : List RobotTask
    goals = active_goals db robot.id conv.id

    task : RobotTask
    task = harvest_task robot conv contact_name preview unread_count db

add_harvest-SameChats :
    (repr : Text → Text) (robot : Robot) (task : RobotTask) (preview : Text) (unread_count : ℕ)
    (db : Db)
    → SameChats db (add_harvest repr robot task preview unread_count db)
unfolding add_harvest add_log
add_harvest-SameChats repr robot task preview unread_count db = ground arith

-- The queueing of a harvest shows nothing in the chats.
pub queue_chat_harvest-SameChats :
    (repr : Text → Text) (settings : Settings) (robot : Robot) (conv : Conversation)
    (contact_name preview : Text) (unread_count : ℕ) (db : Db)
    → SameChats db
        (queue_chat_harvest repr settings robot conv contact_name preview unread_count db).0
unfolding queue_chat_harvest
queue_chat_harvest-SameChats repr settings robot conv contact_name preview unread_count db =
    if_elim (λ (r : Db × Bool). SameChats db r.0)
      (is_some (
        first (λ (t : RobotTask). is_reason t.payload_json.reason)
          (active_goals db robot.id conv.id)))
      (SameChats-refl db)
      (SameChats-trans (add_harvest-SameChats repr robot _ preview unread_count db)
        (enqueue-SameChats settings robot.robot_id _ priority_auto_reply _))
