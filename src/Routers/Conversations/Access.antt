-- ===== src/Routers/Conversations/Access.antt =====
-- backend/app/routers/conversations.py: what the handlers do to a conversation of another team, and
-- what a deletion leaves.
use wecom_ai_agent.Prelude.{
  ℕ, ◌≡◌, ◌≢◌, refl, inl, inr, String, Bool, true, false, Option, none, some, List, [], ◌∷◌, ◌==◌,
  not, arith, any, keep, if_elim, if◌then◌else◌, leb, ◌&&◌, length, Option-cases, Bool-cases,
  ==_iff,
}
use wecom_ai_agent.Prelude.Table.{get}
use wecom_ai_agent.Prelude.Text.{Text}
use wecom_ai_agent.Store.{
  Conversation, Message, AiReplyLog, Media, Mode, Settings, Db,
  get_conversation as conversation_row, get_message, conversation_key,
}
use wecom_ai_agent.Routers.{Response, respond, http_error, User}
use wecom_ai_agent.Routers.Conversations.{
  check_team, get_conv, with_conv, get_conversation, patch_conversation, mark_read, list_messages,
  delete_message, delete_found, delete_conversation, wipe_conversation, send_message,
  send_media_message, is_task_of,
}
use wecom_ai_agent.Routers.Conversations.Links.{
  IsLinked, emit-IsLinked, drop_messages-IsLinked, wipe_conversation-IsLinked,
}

-- The conversation is the user's, or not.
abbrev pub IsForeign : ℕ → User → Db → Type 0
IsForeign cid user db =
    (c : Conversation) → conversation_row db cid ≡ some c → c.team_id ≢ user.team_id

refuse :
    {A : Type 0} (b : Bool) (e f : Response A) (db : Db)
    → ◌≡◌ {A = Db × Response A} (if b then (db, e) else (db, f)) (db, if b then e else f)
refuse true e f db = refl
refuse false e f db = refl

not_found :
    (cid : ℕ) (user : User) (db : Db)
    → IsForeign cid user db
    → get_conv cid user.team_id db ≡ http_error 404 "conversation not found"
unfolding get_conv check_team
not_found cid user db f = elim (Option-cases (conversation_row db cid)) [
  | inl e ↦ rw e
  | inr (c, e) ↦ elim (Bool-cases (c.team_id == user.team_id)) [
    | inl t ↦ absurd (f c e ((==_iff c.team_id user.team_id).0 t))
    | inr t ↦ rw (e, check_team, t)
  ]
]

-- A conversation that is not there, or is another team's, is reported as missing by every handler, and
-- no handler changes anything then; a limit or a text out of bounds is reported first.
pub foreign-unchanged :
    (settings : Settings) (cid mid limit : ℕ) (mode : Mode) (before : Option ℕ) (type : String)
    (upload : Response Media) (content caption : Text) (user : User) (db : Db)
    → IsForeign cid user db
    → (get_conversation cid user db ≡ (db, http_error 404 "conversation not found"))
      × (patch_conversation cid mode user db ≡ (db, http_error 404 "conversation not found"))
      × (mark_read cid user db ≡ (db, http_error 404 "conversation not found"))
      × (delete_message cid mid user db ≡ (db, http_error 404 "conversation not found"))
      × (delete_conversation cid user db ≡ (db, http_error 404 "conversation not found"))
      × (send_media_message settings cid type upload caption user db
          ≡ (db, http_error 404 "conversation not found"))
      × (list_messages cid before limit user db ≡ (
        db,
        if not (leb 1 limit && leb limit 200)
            then http_error 422 "limit"
            else http_error 404 "conversation not found",
      ))
      × (send_message settings cid content user db ≡ (
        db,
        if not (leb 1 (length content) && leb (length content) 4000)
            then http_error 422 "content"
            else http_error 404 "conversation not found",
      ))
unfolding get_conversation patch_conversation mark_read delete_message delete_conversation
    send_media_message list_messages send_message
foreign-unchanged settings cid mid limit mode before type upload content caption user db f =
    let e = not_found cid user db f in
    (rw e, rw e, rw e, rw e, rw e, rw e, rw e (refuse _ _ _ db), rw e (refuse _ _ _ db))

-- What is left of a conversation in the tables.
pub record IsGone (cid : ℕ) (db : Db) : Type 0 where
  pub row : conversation_row db cid ≡ none
  pub messages : any (λ (m : Message). m.conversation_id == cid) db.messages ≡ false
  pub tasks : any (is_task_of cid) db.tasks ≡ false
  pub reply_logs : any (λ (l : AiReplyLog). l.conversation_id == cid) db.reply_logs ≡ false

any-keep-not {ℓ} :
    {A : Type ℓ} (p : A → Bool) (xs : List A) → any p (keep (λ x. not (p x)) xs) ≡ false
any-keep-not p [] = refl
any-keep-not p (x ∷ xs) = ground (arith, any-keep-not p xs)

get-keep-not :
    (cid : ℕ) (cs : List Conversation)
    → get conversation_key cid (keep (λ c. not (c.id == cid)) cs) ≡ none
get-keep-not cid [] = refl
get-keep-not cid (c ∷ cs) = ground (arith, get-keep-not cid cs)

wipe_conversation-IsGone : (cid : ℕ) (db : Db) → IsGone cid (wipe_conversation cid db)
unfolding wipe_conversation
wipe_conversation-IsGone cid db = record {
  row = get-keep-not cid db.conversations;
  messages = any-keep-not (λ (m : Message). m.conversation_id == cid) db.messages;
  tasks = any-keep-not (is_task_of cid) db.tasks;
  reply_logs = any-keep-not (λ (l : AiReplyLog). l.conversation_id == cid) db.reply_logs;
}

own :
    (cid : ℕ) (user : User) (db : Db) (c : Conversation)
    → conversation_row db cid ≡ some c
    → c.team_id ≡ user.team_id
    → get_conv cid user.team_id db ≡ respond c
unfolding get_conv check_team
own cid user db c e t = rw (e, check_team, (==_iff c.team_id user.team_id).1 t)

-- The deletion of one's own conversation takes its row, its messages, its tasks and its AI logs out of
-- the tables and leaves no foreign key without its row.
pub delete_conversation-IsGone :
    (cid : ℕ) (user : User) (db : Db) (c : Conversation)
    → conversation_row db cid ≡ some c
    → c.team_id ≡ user.team_id
    → IsLinked db
    → IsGone cid (delete_conversation cid user db).0 × IsLinked (delete_conversation cid user db).0
unfolding delete_conversation
delete_conversation-IsGone cid user db c e t k = rw (own cid user db c e t) (
  record {
    row = gone.row;
    messages = gone.messages;
    tasks = gone.tasks;
    reply_logs = gone.reply_logs;
  },
  emit-IsLinked _ _ (wipe_conversation-IsLinked cid db k),
)
  where
    gone : IsGone cid (wipe_conversation cid db)
    gone = wipe_conversation-IsGone cid db

delete_found-IsLinked :
    (cid mid : ℕ) (user : User) (o : Option Message) (db : Db)
    → IsLinked db
    → IsLinked (delete_found cid mid user o db).0
unfolding delete_found
delete_found-IsLinked cid mid user none db k = k
delete_found-IsLinked cid mid user (some m) db k =
    if_elim (λ (r : Db × Response Bool). IsLinked r.0) (m.conversation_id == cid)
      (emit-IsLinked _ _ (drop_messages-IsLinked (λ id. id == mid) db k)) k

-- The deletion of a message, granted or refused, leaves no foreign key without its row.
pub delete_message-IsLinked :
    (cid mid : ℕ) (user : User) (db : Db)
    → IsLinked db
    → IsLinked (delete_message cid mid user db).0
unfolding delete_message
delete_message-IsLinked cid mid user db k = with_conv-keeps (get_conv cid user.team_id db)
  where
    with_conv-keeps :
        (r : Response Conversation)
        → IsLinked (with_conv r db (λ conv. delete_found cid mid user (get_message db mid) db)).0
    with_conv-keeps (respond c) = delete_found-IsLinked cid mid user (get_message db mid) db k
    with_conv-keeps (http_error status detail) = k
