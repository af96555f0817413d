-- ===== src/SendOrchestrator/Run/Quiet.antt =====
-- backend/app/services/send_orchestrator.py: no run of a send sets a task running.
use wecom_ai_agent.Prelude.{Bool, Option, none, some, if_elim}
use wecom_ai_agent.Prelude.Text.{Text}
use wecom_ai_agent.Store.{Robot, Message, RobotTask, Db}
use wecom_ai_agent.TaskQueue.Quiet.{Quiet, Quiet-refl, Quiet-update}
use wecom_ai_agent.TaskQueue.Drain.{Outcome, returned, crashed, interrupted}
use wecom_ai_agent.SendOrchestrator.{
  complete_row, skip_if_message_already_sent, skip_message, is_sent,
}
use wecom_ai_agent.SendOrchestrator.Run.{Rounds}
use wecom_ai_agent.SendOrchestrator.Run.Writes.{complete_row-IsCalm}

-- The state that a runner leaves.
abbrev pub state_of : Outcome → Db
state_of (returned db) = db
state_of (crashed e db) = db
state_of (interrupted db) = db

abbrev rounds_state : Rounds → Db
rounds_state (Rounds.finished r db) = db
rounds_state (Rounds.gone db) = db
rounds_state (Rounds.failed e db) = db
rounds_state (Rounds.cancelled db) = db

abbrev RoundsQuiet : Db → Option Rounds → Type 0
RoundsQuiet db none = Unit {0}
RoundsQuiet db (some r) = Quiet db.tasks (rounds_state r).tasks

abbrev pub OutcomeQuiet : Db → Option Outcome → Type 0
OutcomeQuiet db none = Unit {0}
OutcomeQuiet db (some o) = Quiet db.tasks (state_of o).tasks

module _ (task : RobotTask) (db : Db) where
  skip_message-Quiet :
      (robot : Robot) (m : Option Message) → Quiet db.tasks (skip_message robot task m db).0.tasks
  unfolding skip_message
  skip_message-Quiet robot none = Quiet-refl db.tasks
  skip_message-Quiet robot (some msg) =
      if_elim (λ (r : Db × Bool). Quiet db.tasks r.0.tasks) (is_sent msg.status)
        (Quiet-update task.id complete_row db.tasks complete_row-IsCalm) (Quiet-refl db.tasks)

  pub skip-Quiet :
      (robot : Robot) → Quiet db.tasks (skip_if_message_already_sent robot task db).0.tasks
  unfolding skip_if_message_already_sent
  skip-Quiet robot = skip_message-Quiet robot _
