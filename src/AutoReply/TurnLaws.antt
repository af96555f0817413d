-- ===== src/AutoReply/TurnLaws.antt =====
-- backend/app/services/auto_reply_scheduler.py, `_process_conversation`: what a turn does on every
-- decision of the workflow.
use wecom_ai_agent.Prelude.{
  ℕ, ◌+◌, ◌≤◌, ◌≡◌, refl, sym, ◌∙◌, ap, subst, true, Option, none, some, List, [], ◌∷◌, arith,
  length, take, is_empty, str_eq, length-append, length-take-le, if_elim,
}
use wecom_ai_agent.Prelude.Text.{Text}
use wecom_ai_agent.Store.{
  Robot, Contact, Conversation, Message, RobotTask, Feedback, Settings, Db, add_log,
}
use wecom_ai_agent.TaskQueue.{priority_auto_reply}
use wecom_ai_agent.TaskQueue.Quiet.{enqueue-Quiet}
use wecom_ai_agent.SendOrchestrator.Create.{
  Request, create_and_dispatch_send_text, submit, send_task, outbound_message, text_payload,
  dispatch, add_send,
}
use wecom_ai_agent.AutoReply.{mark_feedback}
use wecom_ai_agent.AutoReply.Marking.{mark_feedback-tasks}
use wecom_ai_agent.AutoReply.Turn.{
  Decision, Turned, returned, act_on, dispatch_replies, queue_replies, schedule_refresh, all_texts,
  reply_request, add_id,
}

module _ (settings : Settings) (enabled : settings.task_queue_enabled ≡ true) where
  dispatch-size :
      (request : Request) (msg : Message) (task : RobotTask) (db : Db)
      → length (dispatch settings request msg task db).tasks ≡ length db.tasks
  unfolding dispatch
  dispatch-size request msg task db =
      (enqueue-Quiet settings request.robot.robot_id task.id priority_auto_reply db).size

  submit_lem :
      (request : Request) (msg : Message) (task : RobotTask) (note preview : Text) (db : Db)
      → (db' : Db) × (submit settings request msg task note preview db ≡ some (db', msg, task))
        × (length db'.tasks ≡ length db.tasks + 1)
  unfolding submit add_send add_log
  submit_lem request msg task note preview db = (
    dispatch settings request msg task (add_send request msg task note preview db),
    simp enabled,
    omega (
      arith,
      dispatch-size request msg task (add_send request msg task note preview db),
      length-append db.tasks (task ∷ []),
    ),
  )

  create_lem :
      (request : Request) (text : Text) (db : Db)
      → (db' : Db) × (msg : Message) × (task : RobotTask) × (create_and_dispatch_send_text settings
            request text db
          ≡ some (db', msg, task))
        × (length db'.tasks ≡ length db.tasks + 1)
  unfolding create_and_dispatch_send_text
  create_lem request text db =
      let task = send_task request "send_text" (text_payload request text) 2 db in
      let msg = outbound_message request "text" text none task.id db in
      let (db', e, n) = submit_lem request msg task _ text db in (db', msg, task, e, n)

  -- With the queue enabled no text of a reply is refused, and each brings one task.
  dispatch_replies_lem :
      (request : Request) (texts : List Text) (db : Db)
      → (db' : Db) × (ids : List ℕ) × (dispatch_replies settings request texts db ≡ (db', some ids))
        × (length db'.tasks ≡ length db.tasks + length texts)
        × (length ids ≡ length texts)
  unfolding dispatch_replies add_id
  dispatch_replies_lem request [] db = (db, [], refl, omega arith, refl)
  dispatch_replies_lem request (text ∷ texts) db =
      let (mid, msg, task, e, n) = create_lem request text db in
      let (db', ids, f, k, l) = dispatch_replies_lem request texts mid in
      (db', task.id ∷ ids, rw (e, dispatch_replies, f) refl, omega arith, omega arith)

  schedule_refresh-tasks :
      (contact : Contact) (conv : Conversation) (db : Db)
      → (schedule_refresh settings contact conv db).tasks ≡ db.tasks
  unfolding schedule_refresh
  schedule_refresh-tasks contact conv db = ground arith

  -- Where a turn ends, and how many tasks it has added.
  abbrev Adds : ℕ → Db → Turned → Type 0
  Adds n db t = (db' : Db) × (t ≡ returned db') × (length db'.tasks ≤ length db.tasks + n)

  marked-Adds :
      (contact : Contact) (conv : Conversation) (ids : List ℕ) (status : Feedback)
      (trace : Option Text) (tasks : List ℕ) (n : ℕ) (db mid : Db)
      → length mid.tasks ≤ length db.tasks + n
      → Adds n db (
          returned
            (schedule_refresh settings contact conv (mark_feedback ids status trace tasks mid)))
  marked-Adds contact conv ids status trace tasks n db mid h = (
    schedule_refresh settings contact conv (mark_feedback ids status trace tasks mid),
    refl,
    subst (λ ts. length ts ≤ length db.tasks + n)
        (sym (
          schedule_refresh-tasks contact conv (mark_feedback ids status trace tasks mid)
          ∙ mark_feedback-tasks ids status trace tasks mid))
        h,
  )

  -- A turn with a decision always ends, with the queue enabled, and adds at most two tasks, however
  -- many texts the decision has.
  pub act_on-bounded :
      (robot : Robot) (conv : Conversation) (contact : Contact) (decision : Decision) (ids : List ℕ)
      (db : Db)
      → (db' : Db) × (act_on settings robot conv contact decision ids db ≡ returned db')
        × (length db'.tasks ≤ length db.tasks + 2)
  unfolding act_on queue_replies
  act_on-bounded robot conv contact decision ids db =
      if_elim (Adds 2 db) (str_eq decision.action "reply")
        (if_elim (Adds 2 db) (is_empty texts)
          (
            mark_feedback ids Feedback.failed none [] db,
            refl,
            omega (arith, ap length (mark_feedback-tasks ids Feedback.failed none [] db)),
          )
          replied)
        (if_elim (Adds 2 db) (str_eq decision.action "suggest")
          (marked-Adds contact conv ids Feedback.suggested decision.trace_id [] 2 db db
            (omega arith))
          (marked-Adds contact conv ids Feedback.skipped decision.trace_id [] 2 db db
            (omega arith)))
    where
      texts : List Text
      texts = take 2 (all_texts decision)

      replied : Adds 2 db (
          queue_replies settings contact conv decision ids
            (dispatch_replies settings (reply_request robot conv contact ids) texts db))
      replied =
          let (mid, tasks, e, n, l) =
            dispatch_replies_lem (reply_request robot conv contact ids) texts db in
          subst (λ r. Adds 2 db (queue_replies settings contact conv decision ids r)) (sym e)
            (marked-Adds contact conv ids Feedback.queued decision.trace_id tasks 2 db mid
              (omega (arith, n, length-take-le 2 (all_texts decision))))
