-- ===== src/Tests/Reply.antt =====
-- backend/app/services/auto_reply_scheduler.py on concrete tables.
use wecom_ai_agent.Prelude.{
  ℕ, All, ◌≤◌, ◌≡◌, refl, inl, inr, true, false, none, some, [], ◌∷◌, ◌==◌, arith, length, count,
  any, Member, if◌then◌else◌,
}
use wecom_ai_agent.Prelude.Order.{order_by}
use wecom_ai_agent.Prelude.Text.{codes}
use wecom_ai_agent.Store.{Message, Feedback, Db, get_message}
use wecom_ai_agent.SendOrchestrator.{is_unreplied}
use wecom_ai_agent.AutoReply.{
  Turns, next_pending_conversation, is_eligible, pending_messages, distinct, mark_feedback,
  feedback_fields,
}
use wecom_ai_agent.AutoReply.Fairness.{
  IsChosen, next_pending_conversation-IsChosen, next_pending_conversation-none,
}
use wecom_ai_agent.AutoReply.Marking.{pending_messages_lem, distinct_lem, mark_feedback_lem}
use wecom_ai_agent.AutoReply.Turn.{Decision, returned, act_on}
use wecom_ai_agent.AutoReply.TurnLaws.{act_on-bounded}
use wecom_ai_agent.AutoReply.Dispatcher.{
  start_dispatcher, after_look, id_of, new_state, wake_robot, look, launch, finish_worker, next,
  here, wakes, looks, launches, finishes,
}
use wecom_ai_agent.AutoReply.States.{runs, recover_pending, recover_pending-runs}
use wecom_ai_agent.AutoReply.Bounded.{IsBounded, Reach-IsBounded}
use wecom_ai_agent.Tests.Data.{settings, robot, contact, conversation, inbound, db_of}

abbrev waiting_in : ℕ → ℕ → Message
waiting_in id conv_id = record (inbound id (some Feedback.pending)) { conversation_id = conv_id }

-- Both conversations wait, the first for longer.
abbrev two_db : Db
two_db = db_of [] (waiting_in 1 1 ∷ waiting_in 2 2 ∷ waiting_in 3 1 ∷ [])

abbrev twice : Turns
twice = record { last_conv_id = some 1; same_conv_turns = 2 }

next_pending_conversation-IsChosen_example : IsChosen two_db 1 twice [] (conversation 2)
unfolding next_pending_conversation order_by
next_pending_conversation-IsChosen_example =
    next_pending_conversation-IsChosen two_db 1 twice [] (conversation 2) refl

next_pending_conversation-none_example : is_eligible two_db 1 (1 ∷ 2 ∷ []) (conversation 2) ≡ false
unfolding next_pending_conversation order_by
next_pending_conversation-none_example =
    next_pending_conversation-none two_db 1 twice (1 ∷ 2 ∷ []) (conversation 2) refl
      (inr (inl refl))

pending_messages_lem_example :
    (length (pending_messages two_db 1) ≤ 20)
    × All (λ m. Member m two_db.messages × (is_unreplied 1 m ≡ true)) (pending_messages two_db 1)
pending_messages_lem_example = pending_messages_lem two_db 1

distinct_lem_example :
    (count (λ x. x == 3) (distinct (3 ∷ 1 ∷ 3 ∷ [])) ≤ 1)
    × (any (λ x. x == 3) (distinct (3 ∷ 1 ∷ 3 ∷ [])) ≡ any (λ x. x == 3) (3 ∷ 1 ∷ 3 ∷ []))
distinct_lem_example = distinct_lem (3 ∷ 1 ∷ 3 ∷ []) 3

mark_feedback_lem_example :
    get_message (mark_feedback (1 ∷ 3 ∷ []) Feedback.queued none (7 ∷ []) two_db) 3
    ≡ some (
        if any (λ i. i == 3) (1 ∷ 3 ∷ [])
        then feedback_fields Feedback.queued none (7 ∷ []) 1000 (waiting_in 3 1)
        else waiting_in 3 1)
mark_feedback_lem_example =
    mark_feedback_lem (1 ∷ 3 ∷ []) Feedback.queued none (7 ∷ []) two_db 3 (waiting_in 3 1) refl

-- A decision with three texts.
abbrev talkative : Decision
talkative = record {
  action = "reply";
  text = codes "a";
  replies = codes "a" ∷ codes "b" ∷ codes "c" ∷ [];
  trace_id = none;
  feedback_message_ids = [];
}

act_on-bounded_example :
    (db' : Db) × (act_on settings robot (conversation 1) contact talkative (1 ∷ 3 ∷ []) two_db
      ≡ returned db')
    × (length db'.tasks ≤ 2)
act_on-bounded_example =
    act_on-bounded settings refl robot (conversation 1) contact talkative (1 ∷ 3 ∷ []) two_db

Reach-IsBounded_example :
    IsBounded settings
      (finish_worker 1 (launch 1 (look 1 two_db (wake_robot settings (new_state settings)))))
unfolding wake_robot look next_pending_conversation order_by launch start_dispatcher after_look
    id_of
Reach-IsBounded_example = Reach-IsBounded {robot_pk = 1} (
    next
      (next
        (next (next here (wakes (new_state settings)))
          (looks two_db (wake_robot settings (new_state settings)) refl))
        (launches 1 (look 1 two_db (wake_robot settings (new_state settings))) refl (omega arith)))
      (finishes 1 (launch 1 (look 1 two_db (wake_robot settings (new_state settings))))
        (omega arith)))

recover_pending-runs_example : runs settings 1 (recover_pending settings two_db []) ≡ true
recover_pending-runs_example =
    recover_pending-runs settings refl two_db [] (conversation 2) (inr (inl refl)) refl
