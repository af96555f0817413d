-- ===== src/Tests/Send.antt =====
-- backend/app/services/send_orchestrator.py on concrete tables.
use wecom_ai_agent.Prelude.{
  ℕ, zero, suc, ◌≤◌, ◌<◌, ◌≡◌, refl, true, false, none, some, [], ◌∷◌, arith,
}
use wecom_ai_agent.Prelude.Text.{codes, strip}
use wecom_ai_agent.Store.{RobotTask, TaskStatus, MessageStatus, Feedback, Db, get_task}
use wecom_ai_agent.TaskQueue.{claim_next}
use wecom_ai_agent.TaskQueue.Drain.{Outcome, returned}
use wecom_ai_agent.SendOrchestrator.{complete_row, skip_if_message_already_sent}
use wecom_ai_agent.SendOrchestrator.Run.{
  Phone, Ended, ReactResult, result, stopped, react_rounds, run_send_task,
}
use wecom_ai_agent.SendOrchestrator.Run.Bounds.{run_send_task-total, react_rounds-bounded}
use wecom_ai_agent.SendOrchestrator.Run.Outcomes.{blank_send-blocks, already_sent-completes}
use wecom_ai_agent.Tests.Data.{settings, robot, task, payload, inbound, outbound, db_of}

-- A phone that fails in every round, and one that is never asked beyond the second.
abbrev failing : Ended ReactResult
failing = result (record { ok = false; summary = codes "no chat"; steps = 3 })

abbrev phone : (ℕ → Ended ReactResult) → Phone
phone react = record {
  react = react;
  stage = result (record { ok = true; message = [] });
  send_media = failing;
}

abbrev twice_failing : ℕ → Ended ReactResult
twice_failing (suc (suc n)) = stopped
twice_failing _ = failing

abbrev send_db : MessageStatus → TaskStatus → Db
send_db message_status status = db_of (task 1 status (some 2) ∷ []) (
    inbound 1 (some Feedback.replied)
    ∷ inbound 2 (some Feedback.queued)
    ∷ outbound message_status
    ∷ [])

abbrev running_db : Db
running_db = send_db MessageStatus.pending TaskStatus.running

run_send_task-total_example :
    (o : Outcome) × (run_send_task settings (phone twice_failing) 3 1 running_db ≡ some o)
run_send_task-total_example = run_send_task-total settings (phone twice_failing) 1 running_db

react_rounds-bounded_example :
    react_rounds (phone (λ n. failing)) robot 1 2 5 0 running_db
    ≡ react_rounds (phone twice_failing) robot 1 2 5 0 running_db
react_rounds-bounded_example =
    react_rounds-bounded (phone (λ n. failing)) (phone twice_failing) robot 1 2 5 0
      (task 1 TaskStatus.running (some 2)) running_db refl agree
  where
    agree : (i : ℕ) → 0 ≤ i → i < 2 → failing ≡ twice_failing i
    agree zero l h = refl
    agree (suc zero) l h = refl
    agree (suc (suc i)) l h = absurd (omega arith)

already_sent-completes_example :
    (db' : Db) × ((p : Phone) (fuel : ℕ)
      → run_send_task settings p fuel 1 (send_db MessageStatus.sent TaskStatus.running)
        ≡ some (returned db'))
    × (get_task db' 1 ≡ some (complete_row (task 1 TaskStatus.running (some 2))))
already_sent-completes_example =
    already_sent-completes settings 1 (send_db MessageStatus.sent TaskStatus.running)
      (task 1 TaskStatus.running (some 2)) robot 2 (outbound MessageStatus.sent) refl refl refl refl
      refl

abbrev blank_task : RobotTask
blank_task = record (task 1 TaskStatus.running (some 2)) { payload_json = payload (codes " ") }

-- A task with a blank text runs, another waits behind it.
abbrev blank_db : Db
blank_db =
    db_of (blank_task ∷ task 2 TaskStatus.queued (some 3) ∷ [])
      (outbound MessageStatus.pending ∷ [])

blank_send-blocks_example :
    (run_send_task settings (phone twice_failing) 3 1 blank_db ≡ some (returned blank_db))
    × (claim_next settings "r1" blank_db ≡ (blank_db, none))
unfolding strip skip_if_message_already_sent
blank_send-blocks_example =
    blank_send-blocks settings (phone twice_failing) 3 1 blank_db blank_task robot refl refl refl
      refl refl refl refl
