-- ===== src/Tests/Http.antt =====
-- backend/app/routers/conversations.py and backend/app/services/retention.py on concrete tables.
use wecom_ai_agent.Prelude.{
  ◌≡◌, refl, inl, none, some, [], ◌∷◌, ◌+◌, map, not, keep, length, arith, leb, ◌&&◌, if◌then◌else◌,
}
use wecom_ai_agent.Prelude.Text.{codes}
use wecom_ai_agent.Store.{Message, Mode, Feedback, MessageStatus, TaskStatus, Db}
use wecom_ai_agent.Routers.{http_error, User}
use wecom_ai_agent.Routers.Conversations.{
  get_conversation, patch_conversation, mark_read, list_messages, delete_message, drop_messages,
  delete_conversation, send_message, send_media_message,
}
use wecom_ai_agent.Routers.Conversations.Links.{IsLinked}
use wecom_ai_agent.Routers.Conversations.Access.{
  IsGone, foreign-unchanged, delete_conversation-IsGone, delete_message-IsLinked,
}
use wecom_ai_agent.Retention.{days, expired_ids, sweep_ids, is_expired, sweep_once, sweep_once_lem}
use wecom_ai_agent.Tests.Data.{settings, conversation, task, inbound, outbound, db_of}

abbrev user : User
user = record { id = 1; team_id = 1 }

abbrev stranger : User
stranger = record { id = 2; team_id = 9 }

-- Two messages of the first conversation and the task of one of them.
abbrev chat_db : Db
chat_db =
    record (db_of (task 1 TaskStatus.completed (some 0) ∷ [])
      (inbound 1 (some Feedback.replied) ∷ outbound MessageStatus.sent ∷ [])) {
        reply_logs = record { id = 1; team_id = 1; conversation_id = 1; message_id = some 1 } ∷ [];
      }

chat_db-IsLinked : IsLinked chat_db
chat_db-IsLinked = record {
  messages = λ m h. (conversation 1, inl refl, ground arith);
  message_tasks =
      λ m id h e. (task 1 TaskStatus.completed (some 0), inl refl, ground arith, ground arith);
  tasks = λ t id h e. (conversation 1, inl refl, ground arith);
  logs = λ l id h. absurd h;
  reply_logs = λ l h. (conversation 1, inl refl, ground arith);
  reply_messages =
      λ l id h e. (inbound 1 (some Feedback.replied), inl refl, ground arith, ground arith);
}

foreign-unchanged_example :
    (get_conversation 1 stranger chat_db ≡ (chat_db, http_error 404 "conversation not found"))
    × (patch_conversation 1 Mode.human stranger chat_db
        ≡ (chat_db, http_error 404 "conversation not found"))
    × (mark_read 1 stranger chat_db ≡ (chat_db, http_error 404 "conversation not found"))
    × (delete_message 1 1 stranger chat_db ≡ (chat_db, http_error 404 "conversation not found"))
    × (delete_conversation 1 stranger chat_db ≡ (chat_db, http_error 404 "conversation not found"))
    × (send_media_message settings 1 "image"
          (http_error 415 "unsupported media type")
          []
          stranger
          chat_db
        ≡ (chat_db, http_error 404 "conversation not found"))
    × (list_messages 1 none 50 stranger chat_db ≡ (
      chat_db,
      if not (leb 1 50 && leb 50 200)
          then http_error 422 "limit"
          else http_error 404 "conversation not found",
    ))
    × (send_message settings 1 (codes "hi") stranger chat_db ≡ (
      chat_db,
      if not (leb 1 2 && leb 2 4000)
          then http_error 422 "content"
          else http_error 404 "conversation not found",
    ))
foreign-unchanged_example =
    foreign-unchanged settings 1 1 50 Mode.human none "image"
      (http_error 415 "unsupported media type") (codes "hi") [] stranger chat_db
      (λ c e. ground (arith))

delete_conversation-IsGone_example :
    IsGone 1 (delete_conversation 1 user chat_db).0
    × IsLinked (delete_conversation 1 user chat_db).0
delete_conversation-IsGone_example =
    delete_conversation-IsGone 1 user chat_db (conversation 1) refl refl chat_db-IsLinked

delete_message-IsLinked_example : IsLinked (delete_message 1 1 user chat_db).0
delete_message-IsLinked_example = delete_message-IsLinked 1 1 user chat_db chat_db-IsLinked

-- The message of the customer expires here, the other one a moment later.
abbrev aged_db : Db
aged_db = record chat_db { now = days 30 + 2 }

aged_db-IsLinked : IsLinked aged_db
aged_db-IsLinked = record {
  messages = chat_db-IsLinked.messages;
  message_tasks = chat_db-IsLinked.message_tasks;
  tasks = chat_db-IsLinked.tasks;
  logs = chat_db-IsLinked.logs;
  reply_logs = chat_db-IsLinked.reply_logs;
  reply_messages = chat_db-IsLinked.reply_messages;
}

aged_db-expires :
    (map (λ (m : Message). m.id) (sweep_once settings aged_db).0.messages ≡ 3 ∷ [])
    × ((sweep_once settings aged_db).1 ≡ 1)
unfolding sweep_once expired_ids sweep_ids drop_messages
aged_db-expires = (refl, refl)

sweep_once_lem_example :
    let swept = sweep_once settings aged_db in
    (swept.0.messages ≡ keep (λ m. not (is_expired 30 aged_db.now m)) aged_db.messages)
    × (swept.1 ≡ length (keep (is_expired 30 aged_db.now) aged_db.messages))
    × IsLinked swept.0
sweep_once_lem_example =
    sweep_once_lem settings aged_db (omega arith) (omega arith) aged_db-IsLinked
