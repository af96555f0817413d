-- ===== src/Routers/Conversations/Links.antt =====
-- backend/app/routers/conversations.py and backend/app/models.py: the foreign keys that the two
-- deletions and the retention sweep must keep.
use wecom_ai_agent.Prelude.{
  ℕ, ◌≡◌, refl, ◌∙◌, sym, ap, subst, inl, inr, Bool, true, false, some, List, [], ◌∷◌, ◌==◌, not,
  arith, Member, keep, map, Member-keep, Member-keep_of, any_of_Member, ==_refl, Bool-cases,
}
use wecom_ai_agent.Store.{
  Conversation, Message, RobotTask, RobotTaskLog, AiReplyLog, Event, Db, emit,
}
use wecom_ai_agent.Routers.Conversations.{
  detach, drop_messages, wipe_conversation, is_task_of, has_task_id,
}

-- The row that a foreign key names.
abbrev pub HasConversation : Db → ℕ → Type 0
HasConversation db id = (c : Conversation) × Member c db.conversations × (c.id ≡ id)

abbrev pub HasTask : Db → ℕ → Type 0
HasTask db id = (t : RobotTask) × Member t db.tasks × (t.id ≡ id)

-- A reference from a row of a conversation to a task or a message of the same conversation.
abbrev pub HasTaskIn : Db → ℕ → ℕ → Type 0
HasTaskIn db conv_id id =
    (t : RobotTask) × Member t db.tasks × (t.id ≡ id) × (t.conversation_id ≡ some conv_id)

abbrev pub HasMessageIn : Db → ℕ → ℕ → Type 0
HasMessageIn db conv_id id =
    (m : Message) × Member m db.messages × (m.id ≡ id) × (m.conversation_id ≡ conv_id)

pub record IsLinked (db : Db) : Type 0 where
  pub messages : (m : Message) → Member m db.messages → HasConversation db m.conversation_id
  pub message_tasks :
      (m : Message) (id : ℕ)
      → Member m db.messages
      → m.task_id ≡ some id
      → HasTaskIn db m.conversation_id id
  pub tasks :
      (t : RobotTask) (id : ℕ)
      → Member t db.tasks
      → t.conversation_id ≡ some id
      → HasConversation db id
  pub logs : (l : RobotTaskLog) (id : ℕ) → Member l db.logs → l.task_id ≡ some id → HasTask db id
  pub reply_logs : (l : AiReplyLog) → Member l db.reply_logs → HasConversation db l.conversation_id
  pub reply_messages :
      (l : AiReplyLog) (id : ℕ)
      → Member l db.reply_logs
      → l.message_id ≡ some id
      → HasMessageIn db l.conversation_id id

Member-map :
    {A B : Type 0} (f : A → B) (xs : List A) (b : B)
    → Member b (map f xs)
    → (a : A) × Member a xs × (b ≡ f a)
Member-map f [] b h = absurd h
Member-map f (x ∷ xs) b (inl e) = (x, inl refl, e)
Member-map f (x ∷ xs) b (inr h) = let (a, m, e) = Member-map f xs b h in (a, inr m, e)

module _ (gone : ℕ → Bool) (db : Db) (k : IsLinked db) where
  -- The reference of an AI log that is left names a message that is left.
  detached :
      (l : AiReplyLog) (id : ℕ)
      → (detach gone l).message_id ≡ some id
      → (l.message_id ≡ some id)
        × (gone id ≡ false)
        × ((detach gone l).conversation_id ≡ l.conversation_id)
  detached l id e = ground arith

  detached_conversation : (l : AiReplyLog) → (detach gone l).conversation_id ≡ l.conversation_id
  detached_conversation l = ground arith

  pub drop_messages-IsLinked : IsLinked (drop_messages gone db)
  unfolding drop_messages
  drop_messages-IsLinked = record {
    messages =
        λ m h. k.messages m (Member-keep (λ (x : Message). not (gone x.id)) db.messages m h).0;
    message_tasks = λ m id h.
        k.message_tasks m id (Member-keep (λ (x : Message). not (gone x.id)) db.messages m h).0;
    tasks = k.tasks;
    logs = k.logs;
    reply_logs = λ l h.
        let (o, m, e) = Member-map (detach gone) db.reply_logs l h in
        subst (HasConversation db)
          (sym (ap (λ (x : AiReplyLog). x.conversation_id) e ∙ detached_conversation o))
          (k.reply_logs o m);
    reply_messages = λ l id h n.
        let (o, m, e) = Member-map (detach gone) db.reply_logs l h in
        let (p, q, r) = detached o id (sym (ap (λ (x : AiReplyLog). x.message_id) e) ∙ n) in
        let (msg, here, named, placed) = k.reply_messages o id m p in
        (
          msg,
          Member-keep_of (λ (x : Message). not (gone x.id)) db.messages msg here (rw (named, q)),
          named,
          placed ∙ sym (ap (λ (x : AiReplyLog). x.conversation_id) e ∙ r),
        );
  }

module _ (cid : ℕ) (db : Db) (k : IsLinked db) where
  other :
      (id : ℕ)
      → not (id == cid) ≡ true
      → HasConversation db id
      → HasConversation (wipe_conversation cid db) id
  unfolding wipe_conversation
  other id d (c, m, e) =
      (c, Member-keep_of (λ (x : Conversation). not (x.id == cid)) db.conversations c m (rw e d), e)

  -- What is left of the tasks belongs to no conversation or to another one.
  left :
      (t : RobotTask) (id : ℕ)
      → not (is_task_of cid t) ≡ true
      → t.conversation_id ≡ some id
      → not (id == cid) ≡ true
  left t id d e = ground arith

  kept_task :
      (l : RobotTaskLog) (id : ℕ) (t : RobotTask)
      → not (has_task_id l.task_id (keep (is_task_of cid) db.tasks)) ≡ true
      → l.task_id ≡ some id
      → Member t db.tasks
      → t.id ≡ id
      → not (is_task_of cid t) ≡ true
  kept_task l id t d e m i = elim (Bool-cases (is_task_of cid t)) [
    | inr other_task ↦ ap not other_task
    | inl own ↦
        let found =
          any_of_Member (λ (x : RobotTask). x.id == id) (keep (is_task_of cid) db.tasks) t
            (Member-keep_of (is_task_of cid) db.tasks t m own) (rw i (==_refl id)) in
        (let bad = rw (e, found) at d in cc)
  ]

  pub wipe_conversation-IsLinked : IsLinked (wipe_conversation cid db)
  unfolding wipe_conversation
  wipe_conversation-IsLinked = record {
    messages = λ m h.
        let (a, b) =
          Member-keep (λ (x : Message). not (x.conversation_id == cid)) db.messages m h in
        other m.conversation_id b (k.messages m a);
    message_tasks = λ m id h e.
        let (a, b) =
          Member-keep (λ (x : Message). not (x.conversation_id == cid)) db.messages m h in
        let (t, here, named, placed) = k.message_tasks m id a e in
        (
          t,
          Member-keep_of (λ (x : RobotTask). not (is_task_of cid x)) db.tasks t here
              (rw (placed) b),
          named,
          placed,
        );
    tasks = λ t id h e.
        let (a, b) = Member-keep (λ (x : RobotTask). not (is_task_of cid x)) db.tasks t h in
        other id (left t id b e) (k.tasks t id a e);
    logs = λ l id h e.
        let (a, b) =
          Member-keep
            (λ (x : RobotTaskLog). not (has_task_id x.task_id (keep (is_task_of cid) db.tasks)))
            db.logs l h in
        let (t, here, named) = k.logs l id a e in
        (
          t,
          Member-keep_of (λ (x : RobotTask). not (is_task_of cid x)) db.tasks t here
              (kept_task l id t b e here named),
          named,
        );
    reply_logs = λ l h.
        let (a, b) =
          Member-keep (λ (x : AiReplyLog). not (x.conversation_id == cid)) db.reply_logs l h in
        other l.conversation_id b (k.reply_logs l a);
    reply_messages = λ l id h e.
        let (a, b) =
          Member-keep (λ (x : AiReplyLog). not (x.conversation_id == cid)) db.reply_logs l h in
        let (m, here, named, placed) = k.reply_messages l id a e in
        (
          m,
          Member-keep_of (λ (x : Message). not (x.conversation_id == cid)) db.messages m here
              (rw placed b),
          named,
          placed,
        );
  }

pub emit-IsLinked : (e : Event) (db : Db) → IsLinked db → IsLinked (emit e db)
emit-IsLinked e db k = record {
  messages = k.messages;
  message_tasks = k.message_tasks;
  tasks = k.tasks;
  logs = k.logs;
  reply_logs = k.reply_logs;
  reply_messages = k.reply_messages;
}
