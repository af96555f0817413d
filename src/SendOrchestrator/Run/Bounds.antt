-- ===== src/SendOrchestrator/Run/Bounds.antt =====
-- backend/app/services/send_orchestrator.py, the retry loop of `run_send_task`: it ends, and the
-- phone is asked no more often than the attempts allow.
use wecom_ai_agent.Prelude.{
  ℕ, zero, suc, ◌+◌, ◌-◌, ◌≤◌, ◌<◌, ◌≡◌, refl, inl, inr, true, false, Option, none, some, max, sym,
  subst, ◌∙◌, arith, leb, Bool-cases, Option-cases,
}
use wecom_ai_agent.Prelude.Text.{Text}
use wecom_ai_agent.Prelude.Table.{get-update_row, get-key}
use wecom_ai_agent.Store.{Robot, RobotTask, Settings, Db, get_task, get_robot, task_key}
use wecom_ai_agent.TaskQueue.Drain.{Outcome}
use wecom_ai_agent.SendOrchestrator.{attempt_limit, goal_for_task, skip_if_message_already_sent}
use wecom_ai_agent.SendOrchestrator.Run.{
  Phone, Rounds, Ended, ReactResult, result, raised, stopped, react_rounds, note_attempt,
  attempt_row, run_send_task, run_found, run_goal, outcome_if, after_rounds,
}

module _ (phone : Phone) (robot : Robot) (task_id limit : ℕ) where
  noted :
      (task : RobotTask) (summary : Text) (db : Db)
      → get_task db task_id ≡ some task
      → get_task (note_attempt robot task summary db) task_id ≡ some (attempt_row summary task)
  unfolding note_attempt
  noted task summary db e =
      get-update_row task_key task_id (attempt_row summary) db.tasks task e refl

  -- A round that fails below the limit leads to the next one.
  next_round :
      (fuel n : ℕ) (r : ReactResult) (task : RobotTask) (db : Db)
      → phone.react n ≡ result r
      → r.ok ≡ false
      → get_task db task_id ≡ some task
      → leb limit (task.attempts + 1) ≡ false
      → react_rounds phone robot task_id limit (suc fuel) n db
        ≡ react_rounds phone robot task_id limit fuel (suc n) (note_attempt robot task r.summary db)
  unfolding react_rounds
  next_round fuel n r task db p o t l = rw (p, react_rounds, o, t, l)

  last_round :
      (fuel n : ℕ) (r : ReactResult) (task : RobotTask) (db : Db)
      → phone.react n ≡ result r
      → get_task db task_id ≡ some task
      → leb limit (task.attempts + 1) ≡ true
      → react_rounds phone robot task_id limit (suc fuel) n db ≡ some (Rounds.finished r db)
  unfolding react_rounds
  last_round fuel n r task db p t l = ground arith

  abbrev Ends : ℕ → ℕ → Db → Type 0
  Ends fuel n db = (r : Rounds) × (react_rounds phone robot task_id limit fuel n db ≡ some r)

  Ends-after :
      (fuel n : ℕ) (task : RobotTask) (db : Db)
      → get_task db task_id ≡ some task
      → ((r : ReactResult)
          → leb limit (task.attempts + 1) ≡ false
          → Ends fuel (suc n) (note_attempt robot task r.summary db))
      → (e : Ended ReactResult) → phone.react n ≡ e
      → Ends (suc fuel) n db
  unfolding react_rounds
  Ends-after fuel n task db t next (raised x) e = (Rounds.failed x db, rw (e, react_rounds))
  Ends-after fuel n task db t next stopped e = (Rounds.cancelled db, rw (e, react_rounds))
  Ends-after fuel n task db t next (result r) e = elim (Bool-cases r.ok) [
    | inl o ↦ (Rounds.finished r db, ground arith)
    | inr o ↦ elim (Bool-cases (leb limit (task.attempts + 1))) [
      | inl l ↦ (Rounds.finished r db, last_round fuel n r task db e t l)
      | inr l ↦ let (q, p) = next r l in (q, next_round fuel n r task db e o t l ∙ p)
    ]
  ]

  -- The loop ends within the fuel that covers the tries that are left, at least one.
  pub react_rounds-total :
      (fuel n : ℕ) (task : RobotTask) (db : Db)
      → get_task db task_id ≡ some task
      → 0 < fuel
      → limit ≤ fuel + task.attempts
      → Ends fuel n db
  unfolding attempt_row
  react_rounds-total zero n task db t h k = absurd (omega arith)
  react_rounds-total (suc fuel) n task db t h k =
      Ends-after fuel n task db t
        (λ r l.
          react_rounds-total fuel (suc n) (attempt_row r.summary task)
            (note_attempt robot task r.summary db) (noted task r.summary db t) (ground arith)
            (ground arith))
        (phone.react n) refl

-- How often the phone may still be asked: once for each try that is left, at least once.
abbrev pub tries_left : ℕ → RobotTask → ℕ
tries_left limit task = max 1 (limit - task.attempts)

-- The two phones answer alike in `k` rounds from `n` on.
abbrev pub AgreeOn : Phone → Phone → ℕ → ℕ → Type 0
AgreeOn p q n k = (i : ℕ) → n ≤ i → i < n + k → p.react i ≡ q.react i

module _ (p q : Phone) (robot : Robot) (task_id limit : ℕ) where
  same_next :
      (fuel n : ℕ) (task : RobotTask) (db : Db)
      → get_task db task_id ≡ some task
      → ((r : ReactResult)
          → leb limit (task.attempts + 1) ≡ false
          → react_rounds p robot task_id limit fuel (suc n) (note_attempt robot task r.summary db)
            ≡ react_rounds q robot task_id limit fuel
                (suc n)
                (note_attempt robot task r.summary db))
      → (e : Ended ReactResult) → p.react n ≡ e
      → q.react n ≡ e
      → react_rounds p robot task_id limit (suc fuel) n db
        ≡ react_rounds q robot task_id limit (suc fuel) n db
  unfolding react_rounds
  same_next fuel n task db t next (raised x) e f = rw (e, react_rounds, f)
  same_next fuel n task db t next stopped e f = rw (e, react_rounds, f)
  same_next fuel n task db t next (result r) e f = elim (Bool-cases r.ok) [
    | inl o ↦ rw (e, react_rounds, f, o)
    | inr o ↦ elim (Bool-cases (leb limit (task.attempts + 1))) [
      | inl l ↦
          last_round p robot task_id limit fuel n r task db e t l
          ∙ sym (last_round q robot task_id limit fuel n r task db f t l)
      | inr l ↦
          next_round p robot task_id limit fuel n r task db e o t l
          ∙ next r l
          ∙ sym (next_round q robot task_id limit fuel n r task db f o t l)
    ]
  ]

  -- The loop asks the phone in no round beyond the tries that are left: answers that agree on those
  -- rounds give the same end.
  pub react_rounds-bounded :
      (fuel n : ℕ) (task : RobotTask) (db : Db)
      → get_task db task_id ≡ some task
      → AgreeOn p q n (tries_left limit task)
      → react_rounds p robot task_id limit fuel n db ≡ react_rounds q robot task_id limit fuel n db
  unfolding attempt_row
  react_rounds-bounded zero n task db t agree = unfold react_rounds in refl
  react_rounds-bounded (suc fuel) n task db t agree =
      same_next fuel n task db t
        (λ r l.
          react_rounds-bounded fuel (suc n) (attempt_row r.summary task)
            (note_attempt robot task r.summary db) (noted p robot task_id limit task r.summary db t)
            (λ i lo hi. agree i (omega arith) (ground arith)))
        (p.react n) refl (sym (agree n (omega arith) (omega arith)))

attempt_limit-le :
    (settings : Settings) (task : RobotTask)
    → attempt_limit settings task ≤ settings.react_send_max_attempts
attempt_limit-le settings task = omega arith

module _ (settings : Settings) (phone : Phone) (task : RobotTask) (db : Db) where
  abbrev fuel_enough : ℕ
  fuel_enough = suc settings.react_send_max_attempts

  run_goal-total :
      (robot : Robot) (goal : Option Text)
      → get_task db task.id ≡ some task
      → (o : Outcome) × (run_goal settings phone robot task fuel_enough goal db ≡ some o)
  unfolding run_goal
  run_goal-total robot none t = (Outcome.returned db, refl)
  run_goal-total robot (some goal) t =
      let (r, e) =
        react_rounds-total phone robot task.id (attempt_limit settings task) fuel_enough 0 task db t
          (omega arith) (omega (arith, attempt_limit-le settings task)) in
      (after_rounds settings phone robot task r, unfold outcome_if in rw e)

  run_found-total :
      (robot : Option Robot)
      → get_task db task.id ≡ some task
      → (o : Outcome) × (run_found settings phone task robot fuel_enough db ≡ some o)
  unfolding run_found
  run_found-total none t = (Outcome.returned db, refl)
  run_found-total (some robot) t =
      elim (Bool-cases (skip_if_message_already_sent robot task db).1) [
        | inl s ↦
            (Outcome.returned (skip_if_message_already_sent robot task db).0, rw (s, run_found))
        | inr s ↦
            let (o, e) = run_goal-total robot (goal_for_task task) t in (o, rw (s, run_found) e)
      ]

-- A send always comes to an end: as many rounds as the settings allow attempts, and one, are fuel
-- enough, whatever the phone does and whatever the tables hold.
pub run_send_task-total :
    (settings : Settings) (phone : Phone) (task_id : ℕ) (db : Db)
    → (o : Outcome) × (run_send_task settings phone
          (suc settings.react_send_max_attempts)
          task_id
          db
        ≡ some o)
unfolding run_send_task
run_send_task-total settings phone task_id db = elim (Option-cases (get_task db task_id)) [
  | inl e ↦ (Outcome.returned db, rw (e, run_send_task))
  | inr (task, e) ↦
      let t : get_task db task.id ≡ some task =
        subst (λ j. get_task db j ≡ some task) (sym (get-key task_key task_id db.tasks task e)) e in
      let (o, p) = run_found-total settings phone task db (get_robot db task.robot_id) t in
      (o, rw (e, run_send_task) p)
]
