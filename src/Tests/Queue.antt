-- ===== src/Tests/Queue.antt =====
-- backend/app/services/task_queue.py on concrete tables.
use wecom_ai_agent.Prelude.{◌<◌, ◌≡◌, refl, ◌⊎◌, inl, true, false, none, some, [], ◌∷◌, arith}
use wecom_ai_agent.Prelude.Order.{lex_leb, order_by}
use wecom_ai_agent.Store.{RobotTask, TaskStatus, Db, get_task}
use wecom_ai_agent.TaskQueue.{enqueue, claim_next, next_queue_seq, queue_key, queued_row}
use wecom_ai_agent.TaskQueue.Claim.{
  Claims, ClaimsNothing, claim_next-Claims, claim_next-none, running_blocks,
}
use wecom_ai_agent.TaskQueue.Fifo.{
  CanQueue, enqueue-row, next_queue_seq-fresh, enqueue-enqueue_fifo,
}
use wecom_ai_agent.TaskQueue.Cancel.{Refused, Accepted, cancel_cases}
use wecom_ai_agent.Serial.{IsSerial, Reach-IsSerial, next, here, enqueues, claims}
use wecom_ai_agent.Tests.Data.{settings, robot, task, db_of, waiting_db}

waiting-IsSerial : IsSerial waiting_db
waiting-IsSerial = record { keyed = ground arith; serial = λ r. ground arith }

Reach-IsSerial_example :
    IsSerial (claim_next settings "r1" (enqueue settings "r1" 4 0 waiting_db)).0
Reach-IsSerial_example = Reach-IsSerial waiting-IsSerial (
    next (next here (enqueues "r1" 4 0 waiting_db))
      (claims "r1" (enqueue settings "r1" 4 0 waiting_db)))

abbrev claimed_db : Db
claimed_db = (claim_next settings "r1" waiting_db).0

claim_next-Claims_example : Claims settings waiting_db claimed_db "r1" 2 "send_text"
unfolding claim_next order_by
claim_next-Claims_example =
    claim_next-Claims settings "r1" waiting_db claimed_db 2 "send_text" waiting-IsSerial.keyed refl

abbrev busy_db : Db
busy_db = db_of (task 1 TaskStatus.running (some 2) ∷ task 2 TaskStatus.queued (some 1) ∷ []) []

claim_next-none_example : ClaimsNothing busy_db busy_db "r1"
unfolding claim_next
claim_next-none_example = claim_next-none settings "r1" busy_db busy_db (ground arith) refl

next_queue_seq-fresh_example : 2 < next_queue_seq waiting_db 1
next_queue_seq-fresh_example =
    next_queue_seq-fresh waiting_db 1 (task 1 TaskStatus.queued (some 2)) (inl refl) refl

abbrev can_queue : CanQueue settings "r1" 4 waiting_db
can_queue = record {
  task = task 4 TaskStatus.dispatched none;
  robot = robot;
  enabled = refl;
  row = refl;
  found = refl;
  owner = refl;
  open_ = refl;
}

enqueue-row_example :
    get_task (enqueue settings "r1" 4 50 waiting_db) 4
    ≡ some (queued_row 50 (next_queue_seq waiting_db 1) (task 4 TaskStatus.dispatched none))
enqueue-row_example = enqueue-row settings "r1" 4 50 waiting_db can_queue

abbrev second_queue : CanQueue settings "r1" 1 (enqueue settings "r1" 4 50 waiting_db)
unfolding enqueue
second_queue = record {
  task = task 1 TaskStatus.queued (some 2);
  robot = robot;
  enabled = refl;
  row = refl;
  found = refl;
  owner = refl;
  open_ = refl;
}

enqueue-enqueue_fifo_example :
    let db' = enqueue settings "r1" 1 50 (enqueue settings "r1" 4 50 waiting_db) in
    (s : RobotTask) × (t : RobotTask) × (get_task db' 4 ≡ some s)
    × (get_task db' 1 ≡ some t)
    × (lex_leb (queue_key false s) (queue_key false t) ≡ true)
    × (lex_leb (queue_key false t) (queue_key false s) ≡ false)
unfolding second_queue
enqueue-enqueue_fifo_example =
    enqueue-enqueue_fifo settings "r1" 4 1 50 waiting_db can_queue second_queue
      (λ e. absurd (omega arith)) refl

-- The robot claims the task between the check and the write.
abbrev claimed_meanwhile : Db → Db
claimed_meanwhile db = (claim_next settings "r1" db).0

cancel_cases_example :
    Refused "r1" 1 claimed_meanwhile waiting_db ⊎ Accepted "r1" 1 claimed_meanwhile waiting_db
cancel_cases_example = cancel_cases "r1" 1 claimed_meanwhile waiting_db

running_blocks_example : claim_next settings "r1" busy_db ≡ (busy_db, none)
running_blocks_example =
    running_blocks settings "r1" busy_db robot (task 1 TaskStatus.running (some 2)) refl (inl refl)
      refl refl
