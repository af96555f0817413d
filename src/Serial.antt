-- ===== src/Serial.antt =====
-- backend/app/services/task_queue.py, send_orchestrator.py and conversation.py together: any
-- interleaving of the steps of the queue, of the producers and of the runners of sends. A step is a
-- transaction that the code commits, except that a send is created, and finished, in one step each,
-- which the code commits in several sessions. The enqueue and the cancellation among these, and the
-- write of a cancel whose check lies before, are steps of their own too.
use wecom_ai_agent.Prelude.{
  ℕ, ◌≤◌, ◌<◌, ◌≡◌, refl, sym, subst, inl, inr, String, Bool, false, Option, some, List, [], ◌∷◌,
  arith, count, any, All, count-append, ==_iff, Bool-cases, ◌==◌,
}
use wecom_ai_agent.Prelude.Table.{Keyed, update, count-update, count_one, Keyed-snoc}
use wecom_ai_agent.Prelude.Text.{Text}
use wecom_ai_agent.Store.{
  add_log, Robot, Conversation, Media, Message, RobotTask, Settings, Db, task_key,
}
use wecom_ai_agent.TaskQueue.{
  enqueue, cancel, claim_next, mark_failed, mark_cancelled, running_of, running_row, is_active,
}
use wecom_ai_agent.TaskQueue.Drain.{recover_pending_tasks}
use wecom_ai_agent.TaskQueue.Claim.{Claims, claim_next_cases, claimed-Keyed}
use wecom_ai_agent.TaskQueue.Quiet.{
  Quiet, enqueue-Quiet, cancel-Quiet, mark_failed-Quiet, mark_cancelled-Quiet,
  recover_pending_tasks-Quiet, Quiet-of_eq,
}
use wecom_ai_agent.Ingest.Harvest.{harvest_task, add_harvest}
use wecom_ai_agent.SendOrchestrator.{skip_if_message_already_sent}
use wecom_ai_agent.SendOrchestrator.Create.{
  Request, create_and_dispatch_send_text, create_and_dispatch_send_media, add_send, dispatch,
  send_task, submit,
}
use wecom_ai_agent.SendOrchestrator.Run.{
  ReactResult, note_attempt, finish_send, cancel_send, crash_send,
}
use wecom_ai_agent.SendOrchestrator.Run.Writes.{
  note_attempt-Quiet, finish_send-Quiet, cancel_send-Quiet, crash_send-Quiet,
}
use wecom_ai_agent.SendOrchestrator.Run.Quiet.{skip-Quiet}

-- The key that the database is about to give is above every key of the table.
abbrev pub NextIsFresh : Db → Type 0
NextIsFresh db = All (λ t. t.id < db.next_task) db.tasks

pub data Step (settings : Settings) : Db → Db → Type 0 where
  enqueues :
      (robot_id : String) (id priority : ℕ) (db : Db)
      → Step settings db (enqueue settings robot_id id priority db)
  cancels :
      (robot_id : String) (id : ℕ) (db : Db) → Step settings db (cancel robot_id id (λ d. d) db).0
  claims : (robot_id : String) (db : Db) → Step settings db (claim_next settings robot_id db).0
  recovers : (db : Db) → Step settings db (recover_pending_tasks settings db).0
  fails : (id : ℕ) (message : Text) (db : Db) → Step settings db (mark_failed id message db)
  aborts : (id : ℕ) (message : Text) (db : Db) → Step settings db (mark_cancelled id message db)
  creates_text :
      (request : Request) (text : Text) (db db' : Db) (msg : Message) (task : RobotTask)
      → NextIsFresh db
      → create_and_dispatch_send_text settings request text db ≡ some (db', msg, task)
      → Step settings db db'
  creates_media :
      (request : Request) (kind : String) (media : Media) (caption : Text) (db db' : Db)
      (msg : Message) (task : RobotTask)
      → NextIsFresh db
      → create_and_dispatch_send_media settings request kind media caption db
        ≡ some (db', msg, task)
      → Step settings db db'
  harvests :
      (repr : Text → Text) (robot : Robot) (conv : Conversation) (contact_name preview : Text)
      (unread_count : ℕ) (db : Db)
      → NextIsFresh db
      → Step settings db (
          add_harvest repr robot
            (harvest_task robot conv contact_name preview unread_count db)
            preview
            unread_count
            db)
  skips :
      (robot : Robot) (task : RobotTask) (db : Db)
      → Step settings db (skip_if_message_already_sent robot task db).0
  notes :
      (robot : Robot) (task : RobotTask) (summary : Text) (db : Db)
      → Step settings db (note_attempt robot task summary db)
  finishes :
      (robot : Robot) (task : RobotTask) (r : ReactResult) (error : Option Text) (db : Db)
      → Step settings db (finish_send settings robot task r error db)
  crashes :
      (robot : Robot) (id : ℕ) (e : Text) (db : Db)
      → Step settings db (crash_send settings robot id e db)
  interrupts :
      (robot : Robot) (id : ℕ) (db : Db) → Step settings db (cancel_send settings robot id db)
  -- what else the backend does, which does not write to the task table
  others : (db db' : Db) → db'.tasks ≡ db.tasks → Step settings db db'

pub data Reach (settings : Settings) (db : Db) : Db → Type 0 where
  here : Reach settings db db
  next : {b c : Db} → Reach settings db b → Step settings b c → Reach settings db c

-- The task ids grow in the order of insertion, and no robot has two tasks running.
pub record IsSerial (db : Db) : Type 0 where
  pub keyed : Keyed task_key 0 db.tasks
  pub serial : (robot_pk : ℕ) → count (running_of robot_pk) db.tasks ≤ 1

Quiet-IsSerial : {db db' : Db} → Quiet db.tasks db'.tasks → IsSerial db → IsSerial db'
Quiet-IsSerial q v = record {
  keyed = q.keyed 0 v.keyed;
  serial = λ r. omega (arith, q.serial r, v.serial r);
}

none_counted : (p : RobotTask → Bool) (xs : List RobotTask) → any p xs ≡ false → count p xs ≡ 0
none_counted p [] h = refl
none_counted p (x ∷ xs) h = ground (arith, none_counted p xs)

-- A claim takes the robot from no running task to one, and no other robot is touched.
module _ (settings : Settings) (db db' : Db) (robot_id : String) (id : ℕ) (kind : String)
    (c : Claims settings db db' robot_id id kind) where
  claimed_count :
      (r : ℕ)
      → count (running_of r) db.tasks ≤ 1
      → count (running_of r) (update task_key id running_row db.tasks) ≤ 1
  unfolding running_row
  claimed_count r h = elim (Bool-cases (r == c.robot.id)) [
    | inl same ↦ ground (
      arith,
      count-update task_key (running_of r) id running_row db.tasks c.task c.row,
      none_counted (running_of c.robot.id) db.tasks c.pick.idle,
      count_one task_key (running_of r) (running_row c.task),
      ==_iff r c.robot.id,
    )
    | inr other ↦ ground (
      arith,
      count-update task_key (running_of r) id running_row db.tasks c.task c.row,
      c.pick.waiting,
    )
  ]

  claimed-IsSerial : IsSerial db → IsSerial db'
  unfolding running_row
  claimed-IsSerial v = record {
    keyed = claimed-Keyed settings db db' robot_id id kind c v.keyed;
    serial = λ r.
        subst (λ ts. count (running_of r) ts ≤ 1) (sym c.written) (claimed_count r (v.serial r));
  }

claim_next-IsSerial :
    (settings : Settings) (robot_id : String) (db : Db)
    → IsSerial db
    → IsSerial (claim_next settings robot_id db).0
claim_next-IsSerial settings robot_id db v =
    let (db', claimed) = claim_next settings robot_id db in
    elim (claim_next_cases settings robot_id db db' {claimed = claimed} refl v.keyed) [
      | inl (_, c) ↦ subst IsSerial (sym c.0) v
      | inr (id, kind, _, c) ↦ claimed-IsSerial settings db db' robot_id id kind c v
    ]

add_harvest-IsSerial :
    (repr : Text → Text) (robot : Robot) (task : RobotTask) (preview : Text) (unread_count : ℕ)
    (db : Db)
    → NextIsFresh db
    → task.id ≡ db.next_task
    → is_active task.status ≡ false
    → IsSerial db
    → IsSerial (add_harvest repr robot task preview unread_count db)
unfolding add_harvest add_log
add_harvest-IsSerial repr robot task preview unread_count db fresh e idle v = record {
  keyed =
      Keyed-snoc task_key 0 db.tasks task v.keyed
        (subst (λ n. All (λ t. t.id < n) db.tasks) (sym e) fresh) (omega arith);
  serial = λ r. ground (arith, v.serial r, count-append (running_of r) db.tasks (task ∷ []));
}

-- The rows of a send: one more task, not running, behind the others.
module _ (settings : Settings) (request : Request) (msg : Message) (db : Db) where
  add_send-IsSerial :
      (task : RobotTask) (note preview : Text)
      → NextIsFresh db
      → task.id ≡ db.next_task
      → is_active task.status ≡ false
      → IsSerial db
      → IsSerial (add_send request msg task note preview db)
  unfolding add_send add_log
  add_send-IsSerial task note preview fresh e idle v = record {
    keyed =
        Keyed-snoc task_key 0 db.tasks task v.keyed
          (subst (λ n. All (λ t. t.id < n) db.tasks) (sym e) fresh) (omega arith);
    serial = λ r. ground (arith, v.serial r, count-append (running_of r) db.tasks (task ∷ []));
  }

  dispatch-IsSerial :
      (task : RobotTask) → IsSerial db → IsSerial (dispatch settings request msg task db)
  unfolding dispatch
  dispatch-IsSerial task v =
      Quiet-IsSerial (enqueue-Quiet settings request.robot.robot_id task.id _ db) v

module _ (settings : Settings) (request : Request) (db db' : Db) (msg m : Message)
    (task t : RobotTask) (note preview : Text) where
  submit-IsSerial :
      NextIsFresh db
      → task.id ≡ db.next_task
      → is_active task.status ≡ false
      → submit settings request msg task note preview db ≡ some (db', m, t)
      → IsSerial db
      → IsSerial db'
  unfolding submit
  submit-IsSerial fresh e idle call v = elim (Bool-cases settings.task_queue_enabled) [
    | inl on ↦ subst IsSerial (ground arith) (
        dispatch-IsSerial settings request msg _ task
          (add_send-IsSerial settings request msg db task note preview fresh e idle v))
    | inr off ↦ absurd (ground arith)
  ]

Step-IsSerial :
    {settings : Settings} {db db' : Db} → Step settings db db' → IsSerial db → IsSerial db'
Step-IsSerial {settings} (enqueues robot_id id priority db) v =
    Quiet-IsSerial (enqueue-Quiet settings robot_id id priority db) v
Step-IsSerial (cancels robot_id id db) v = Quiet-IsSerial (cancel-Quiet robot_id id db) v
Step-IsSerial {settings} (claims robot_id db) v = claim_next-IsSerial settings robot_id db v
Step-IsSerial {settings} (recovers db) v =
    Quiet-IsSerial (recover_pending_tasks-Quiet settings db) v
Step-IsSerial (fails id message db) v = Quiet-IsSerial (mark_failed-Quiet id message db) v
Step-IsSerial (aborts id message db) v = Quiet-IsSerial (mark_cancelled-Quiet id message db) v
Step-IsSerial {settings} (creates_text request text db db' msg task fresh e) v =
    unfold create_and_dispatch_send_text send_task in
    submit-IsSerial settings request db db' _ msg _ task _ _ fresh refl refl e v
Step-IsSerial {settings} (creates_media request kind media caption db db' msg task fresh e) v =
    unfold create_and_dispatch_send_media send_task in
    submit-IsSerial settings request db db' _ msg _ task _ _ fresh refl refl e v
Step-IsSerial (harvests repr robot conv contact_name preview unread_count db fresh) v =
    unfold harvest_task in
    add_harvest-IsSerial repr robot _ preview unread_count db fresh refl refl v
Step-IsSerial (skips robot task db) v = Quiet-IsSerial (skip-Quiet task db robot) v
Step-IsSerial (notes robot task summary db) v =
    Quiet-IsSerial (note_attempt-Quiet robot task summary db) v
Step-IsSerial {settings} (finishes robot task r error db) v =
    Quiet-IsSerial (finish_send-Quiet settings robot task db r error) v
Step-IsSerial {settings} (crashes robot id e db) v =
    Quiet-IsSerial (crash_send-Quiet settings robot id db e) v
Step-IsSerial {settings} (interrupts robot id db) v =
    Quiet-IsSerial (cancel_send-Quiet settings robot id db) v
Step-IsSerial (others db db' e) v = Quiet-IsSerial (Quiet-of_eq db.tasks db'.tasks e) v

-- If at the start no robot has two tasks running and the task ids are in order, then so it is
-- after any sequence of the steps of the queue, of the producers and of the runner of sends, in
-- whatever order they are taken.
pub Reach-IsSerial :
    {settings : Settings} {db db' : Db} → IsSerial db → Reach settings db db' → IsSerial db'
Reach-IsSerial v here = v
Reach-IsSerial v (next r st) = Step-IsSerial st (Reach-IsSerial v r)
