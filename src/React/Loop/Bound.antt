-- ===== src/React/Loop/Bound.antt =====
-- backend/app/ai/react_agent.py, `_run_react_inner`: how long a run gets.
use wecom_ai_agent.Prelude.{
  ◌≤◌, ◌≡◌, refl, ap, subst, length, arith, if_elim, option_elim, ℕ, suc, zero, ◌+◌, true, Option,
  none, some, not, is_some,
}
use wecom_ai_agent.Prelude.Text.{codes, text_eq, strip}
use wecom_ai_agent.React.{AgentObservation, Args, AgentDecision}
use wecom_ai_agent.React.FastDecide.{FastDecision, Source}
use wecom_ai_agent.React.Locators.{Data}
use wecom_ai_agent.React.Locators.Cache.{locator_match}
use wecom_ai_agent.React.Locators.Roles.{one_of}
use wecom_ai_agent.React.Verdicts.{guard_decision, Observed, seen, timed_out, raised}
use wecom_ai_agent.React.Execute.Waiting.{wait_ui, wait_ui-some}
use wecom_ai_agent.React.Loop.{
  Answer, Setting, Run, tools, verified, stop_reason, decided, broken, ill_typed,
}
use wecom_ai_agent.React.Loop.Typed.{AreTyped, is_typed, ask_models-typed}
use wecom_ai_agent.React.Loop.Act.{execute, take_action}
use wecom_ai_agent.React.Loop.Rounds.{
  begin, heard, ask_and_act, follow, react_to, round_on, one_round, out_of_rounds, rounds,
  run_react_inner,
}
use wecom_ai_agent.React.Loop.Steps.{
  length-snoc, Adds, acted-Adds, guard_decision-steps, length-of_steps, length-verified,
  some-not_none, turn_elim, execute-some, fast_decide-total, EndsWithin, out_of_rounds-steps, grown,
}

plain : (n : ℕ) → 0 + n ≡ n
plain n = omega arith

module _ {W : Type 0} (setting : Setting W)
    (now-observe : (w : W) → setting.phone.now w ≤ setting.phone.now (setting.phone.observe w).0)
    (now-sleep : (w : W) (ms : ℕ)
      → setting.phone.now w + ms ≤ setting.phone.now (setting.phone.sleep w ms))
    (typed : AreTyped setting.models) where
  may_wait : (a : Args) (x : W) → is_some (wait_ui setting.py setting.phone a x) ≡ true
  may_wait a x = wait_ui-some setting.py setting.phone now-observe now-sleep a x

  take_action-Adds :
      (from : Source) (d : AgentDecision) (obs : AgentObservation) (run : Run W)
      → Adds (length run.steps) (take_action setting from d obs run)
  unfolding Adds take_action
  take_action-Adds from d obs run =
      option_elim (Adds (length run.steps)) (guard_decision d run.steps)
        (λ _.
          if_elim (Adds (length run.steps)) (text_eq (strip d.action) (codes "done"))
            (omega (arith, length-snoc run.steps _))
            (if_elim (Adds (length run.steps)) (not (one_of tools (strip d.action))) (omega arith) (
              option_elim (Adds (length run.steps))
                (execute setting (strip d.action) d.args obs run.world)
                (λ e.
                  some-not_none (execute setting (strip d.action) d.args obs run.world)
                    (execute-some setting (strip d.action) d.args obs run.world may_wait) e)
                (λ outcome _. acted-Adds setting from (strip d.action) d.args obs run outcome))))
        (λ r e. length-of_steps r.steps run.steps (guard_decision-steps d run.steps r e))

  heard-Adds :
      (obs : AgentObservation) (run : Run W) (answer : W × Answer)
      → is_typed answer.1 ≡ true
      → Adds (length run.steps) (heard setting obs run answer)
  unfolding Adds heard
  heard-Adds obs run (w, ill_typed i) h = cc
  heard-Adds obs run (w, broken e) h = omega arith
  heard-Adds obs run (w, decided d) h =
      take_action-Adds Source.no_source d obs (record run { world = w })

  follow-Adds :
      (obs : AgentObservation) (run : Run W) (o : Option FastDecision)
      → is_some o ≡ true
      → Adds (length run.steps) (follow setting obs run o)
  unfolding follow ask_and_act
  follow-Adds obs run none h = absurd cc
  follow-Adds obs run (some fd) h =
      option_elim (Adds (length run.steps)) fd.decision
        (λ _. heard-Adds obs _ _ (ask_models-typed setting.models setting.goal obs _ _ typed))
        (λ d _. take_action-Adds fd.source d obs _)

  react_to-Adds :
      (obs : AgentObservation) (run : Run W) → Adds (length run.steps) (react_to setting obs run)
  unfolding react_to Adds ask_and_act
  react_to-Adds obs run =
      option_elim (Adds (length run.steps)) (stop_reason run.steps obs)
        (λ _.
          if_elim (Adds (length run.steps)) setting.force_llm
            (heard-Adds obs run _ (ask_models-typed setting.models setting.goal obs _ _ typed))
            (follow-Adds obs run _ (
              fast_decide-total setting.py (locator_match setting.robot run.learned) setting.goal
                obs run.steps)))
        (λ reason _. omega arith)

  round_on-Adds : (run : Run W) (o : Observed) → Adds (length run.steps) (round_on setting run o)
  unfolding round_on Adds
  round_on-Adds run (timed_out e) = omega arith
  round_on-Adds run (raised e) = omega arith
  round_on-Adds run (seen obs) =
      subst (λ n. Adds n (react_to setting obs (verified setting obs run)))
        (length-verified setting obs run) (react_to-Adds obs (verified setting obs run))

  one_round-Adds : (run : Run W) → Adds (length run.steps) (one_round setting run)
  unfolding one_round
  one_round-Adds run = round_on-Adds _ _

  rounds-EndsWithin :
      (max_steps left : ℕ) (run : Run W)
      → EndsWithin (length run.steps + left) (rounds setting max_steps left run)
  unfolding rounds EndsWithin Adds
  rounds-EndsWithin max_steps zero run = (
    out_of_rounds setting max_steps run,
    refl,
    omega (arith, ap length (out_of_rounds-steps setting max_steps run)),
  )
  rounds-EndsWithin max_steps (suc left) run =
      turn_elim (EndsWithin (length run.steps + suc left)) (one_round setting run)
        (λ r e. (r, refl, omega (arith, subst (Adds (length run.steps)) e (one_round-Adds run))))
        (λ e. absurd (subst (Adds (length run.steps)) e (one_round-Adds run)))
        (λ next e.
          grown run left next (subst (Adds (length run.steps)) e (one_round-Adds run))
            (rounds setting max_steps left next) (rounds-EndsWithin max_steps left next))

  -- A run ends with a result after at most `max_steps` steps, whatever its goal is and whatever the phone
  -- shows, if looking at the screen takes no negative time, a sleep lasts at least as long as it is asked
  -- to, and each answer of the models is an error or a decision of the types that the prompt asks for.
  pub run_react_inner-EndsWithin :
      (max_steps : ℕ) (w : W) (learned : Data)
      → EndsWithin max_steps (run_react_inner setting max_steps w learned)
  unfolding run_react_inner begin
  run_react_inner-EndsWithin max_steps w learned =
      subst (λ n. EndsWithin n (rounds setting max_steps max_steps (begin w learned)))
        (plain max_steps) (rounds-EndsWithin max_steps max_steps (begin w learned))
