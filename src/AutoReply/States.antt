-- ===== src/AutoReply/States.antt =====
-- backend/app/services/auto_reply_scheduler.py: `_STATES`, the wake-ups by robot, and the recovery of
-- waiting messages at startup.
use wecom_ai_agent.Prelude.{
  ℕ, ◌≡◌, refl, ◌∙◌, ap, subst, inl, inr, Bool, true, false, List, [], ◌∷◌, arith, ◌==◌, ◌&&◌,
  if◌then◌else◌, or_else, any, map, keep, Member, ==_iff, ==_refl, Bool-cases, Member-keep_of,
}
use wecom_ai_agent.Prelude.Assoc.{find, put, find-put_self, find-put_ne}
use wecom_ai_agent.Store.{Conversation, Settings, Db}
use wecom_ai_agent.SendOrchestrator.{is_unreplied}
use wecom_ai_agent.AutoReply.{distinct}
use wecom_ai_agent.AutoReply.Marking.{distinct_lem}
use wecom_ai_agent.AutoReply.Dispatcher.{Phase, RobotState, new_state, wake_robot, start_dispatcher}

abbrev pub States : Type 0
States = List (ℕ × RobotState)

-- `_STATES.setdefault(robot_pk, _RobotState())`
abbrev pub state_of : Settings → ℕ → States → RobotState
state_of settings robot_pk states = or_else (find ◌==◌ robot_pk states) (new_state settings)

unfoldable pub wake : Settings → ℕ → States → States
wake settings robot_pk states =
    if settings.auto_reply_enabled && settings.task_queue_enabled
    then put ◌==◌ robot_pk (wake_robot settings (state_of settings robot_pk states)) states
    else states

unfoldable pub wake_all : Settings → List ℕ → States → States
unfolding wake
wake_all settings [] states = states
wake_all settings (r ∷ rs) states = wake_all settings rs (wake settings r states)

-- The robots of the conversations with a message that waits.
unfoldable pub pending_robots : Db → List ℕ
pending_robots db = distinct (
    map (λ (c : Conversation). c.robot_id)
      (keep (λ c. any (is_unreplied c.id) db.messages) db.conversations))

unfoldable pub recover_pending : Settings → Db → States → States
recover_pending settings db states =
    if settings.auto_reply_enabled && settings.task_queue_enabled
    then wake_all settings (pending_robots db) states
    else states

abbrev pub is_running : Phase → Bool
is_running Phase.idle = false
is_running _ = true

abbrev pub runs : Settings → ℕ → States → Bool
runs settings robot_pk states = is_running (state_of settings robot_pk states).phase

start-runs :
    (settings : Settings) (s : RobotState) (p : Phase)
    → s.phase ≡ p
    → is_running (start_dispatcher settings s).phase ≡ true
unfolding start_dispatcher
start-runs settings s Phase.idle e = rw (e, start_dispatcher) refl
start-runs settings s Phase.looking e = rw (e, start_dispatcher) (ap is_running e)
start-runs settings s (Phase.acquiring c) e = rw (e, start_dispatcher) (ap is_running e)
start-runs settings s Phase.waiting e = rw (e, start_dispatcher) (ap is_running e)

module _ (settings : Settings)
    (on : (settings.auto_reply_enabled && settings.task_queue_enabled) ≡ true) where
  wake_robot-runs : (s : RobotState) → is_running (wake_robot settings s).phase ≡ true
  unfolding wake_robot
  wake_robot-runs s = simp on (start-runs settings _ s.phase refl)

  wake-runs :
      (robot_pk : ℕ) (states : States)
      → runs settings robot_pk (wake settings robot_pk states) ≡ true
  unfolding wake
  wake-runs robot_pk states =
      simp
        (
          on,
          find-put_self ◌==◌ ==_iff robot_pk
              (wake_robot settings (state_of settings robot_pk states)) states,
        )
        (wake_robot-runs (state_of settings robot_pk states))

  wake-keeps :
      (robot_pk r : ℕ) (states : States)
      → runs settings r states ≡ true
      → runs settings r (wake settings robot_pk states) ≡ true
  wake-keeps robot_pk r states h = elim (Bool-cases (robot_pk == r)) [
    | inl e ↦
        subst (λ x. runs settings x (wake settings robot_pk states) ≡ true)
          ((==_iff robot_pk r).0 e) (wake-runs robot_pk states)
    | inr e ↦
        unfold wake in
        simp
          (
            on,
            find-put_ne ◌==◌ ==_iff robot_pk r
                (wake_robot settings (state_of settings robot_pk states)) states e,
          )
          h
  ]

  wake_all-keeps :
      (rs : List ℕ) (r : ℕ) (states : States)
      → runs settings r states ≡ true
      → runs settings r (wake_all settings rs states) ≡ true
  unfolding wake_all
  wake_all-keeps [] r states h = h
  wake_all-keeps (x ∷ rs) r states h =
      wake_all-keeps rs r (wake settings x states) (wake-keeps x r states h)

  wake_all-runs :
      (rs : List ℕ) (r : ℕ) (states : States)
      → any (λ x. x == r) rs ≡ true
      → runs settings r (wake_all settings rs states) ≡ true
  unfolding wake_all
  wake_all-runs [] r states h = cc
  wake_all-runs (x ∷ rs) r states h = elim (Bool-cases (x == r)) [
    | inl e ↦ wake_all-keeps rs r (wake settings x states) (
        subst (λ y. runs settings y (wake settings x states) ≡ true) ((==_iff x r).0 e)
          (wake-runs x states))
    | inr e ↦ wake_all-runs rs r (wake settings x states) (ground arith)
  ]

  robot_listed :
      (cs : List Conversation) (c : Conversation)
      → Member c cs
      → any (λ x. x == c.robot_id) (map (λ (d : Conversation). d.robot_id) cs) ≡ true
  robot_listed [] c m = absurd m
  robot_listed (d ∷ ds) c (inl e) = rw (← e) (ground (arith, ==_refl c.robot_id))
  robot_listed (d ∷ ds) c (inr m) = ground (arith, robot_listed ds c m)

  -- With auto-reply and the queue enabled, after the recovery at startup a dispatcher runs for the
  -- robot of every conversation that has a customer's message whose mark is pending or processing.
  pub recover_pending-runs :
      (db : Db) (states : States) (conv : Conversation)
      → Member conv db.conversations
      → any (is_unreplied conv.id) db.messages ≡ true
      → runs settings conv.robot_id (recover_pending settings db states) ≡ true
  unfolding recover_pending pending_robots
  recover_pending-runs db states conv m h = simp on (
      wake_all-runs (distinct robots) conv.robot_id states (
        (distinct_lem robots conv.robot_id).1
        ∙ robot_listed convs conv
            (Member-keep_of (λ c. any (is_unreplied c.id) db.messages) db.conversations conv m h)))
    where
      convs : List Conversation
      convs = keep (λ c. any (is_unreplied c.id) db.messages) db.conversations

      robots : List ℕ
      robots = map (λ (c : Conversation). c.robot_id) convs
