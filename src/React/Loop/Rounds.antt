-- ===== src/React/Loop/Rounds.antt =====
-- backend/app/ai/react_agent.py, `_run_react_inner`: its rounds, and their end.
use wecom_ai_agent.Prelude.{
  ℕ, suc, zero, Bool, Option, ◌||◌, not, is_some, none, some, List, [], ◌∷◌, ◌++◌, if◌then◌else◌,
  reverse_onto,
}
use wecom_ai_agent.Prelude.Text.{Text, codes, show, text_eq, strip}
use wecom_ai_agent.React.{AgentObservation, AgentDecision, AgentStep}
use wecom_ai_agent.React.FastDecide.{FastDecision, Source, no_args}
use wecom_ai_agent.React.Locators.Roles.{one_of}
use wecom_ai_agent.React.FastDecide.Decide.{fast_decide}
use wecom_ai_agent.React.Locators.{Data}
use wecom_ai_agent.React.Locators.Cache.{locator_match, remember_failure}
use wecom_ai_agent.React.Verdicts.{
  guard_decision, AgentResult, Observed, seen, timed_out, raised, pressed_send, final_verdict,
}
use wecom_ai_agent.React.Loop.{
  Answer, Setting, Run, Turn, fails, verified, stop_reason, ask_models, goes_on, finished, crashed,
  decided, broken, ill_typed, IllTyped, no_object, no_text, null_args, no_dict, no_number, tools,
}
use wecom_ai_agent.React.Loop.Act.{take_action}

-- A decision of other types: the errors it raises outside the `try` leave the run.
unfoldable pub misheard : {W : Type 0} → Setting W → AgentObservation → Run W → IllTyped → Turn W
misheard setting obs run (no_object e) = crashed
misheard setting obs run no_text = crashed
misheard setting obs run (null_args e action) =
    take_action setting Source.no_source (record { action = action; args = no_args }) obs run
misheard setting obs run (no_dict e action) =
    let d : AgentDecision = record { action = action; args = no_args } in
    if is_some (guard_decision d run.steps)
      || not (text_eq (strip action) (codes "done") || one_of tools (strip action))
    then take_action setting Source.no_source d obs run
    else crashed
misheard setting obs run (no_number d) =
    if is_some (guard_decision d run.steps)
      || (text_eq (strip d.action) (codes "done") || not (one_of tools (strip d.action)))
    then take_action setting Source.no_source d obs run
    else crashed

-- What the model has answered
unfoldable pub heard : {W : Type 0} → Setting W → AgentObservation → Run W → W × Answer → Turn W
heard setting obs run (w, broken e) = finished (fails (codes "LLM 调用失败：" ++ e) run.steps)
heard setting obs run (w, ill_typed i) = misheard setting obs (record run { world = w }) i
heard setting obs run (w, decided d) =
    take_action setting Source.no_source d obs (record run { world = w })

-- The model's turn, when no rule decides
unfoldable pub ask_and_act : {W : Type 0} → Setting W → AgentObservation → Run W → Turn W
ask_and_act setting obs run =
    heard setting obs run (ask_models setting.models setting.goal obs run.steps run.world)

-- What `_fast_decide` has decided, with the failure it has remembered
unfoldable pub follow :
    {W : Type 0} → Setting W → AgentObservation → Run W → Option FastDecision → Turn W
follow setting obs run none = crashed
follow setting obs run (some fd) =
    let next = record run {
      learned = elim fd.failed_role [
        | none ↦ run.learned
        | some role ↦ remember_failure run.learned role (setting.phone.now run.world)
      ];
    } in
    elim fd.decision [
      | none ↦ ask_and_act setting obs next
      | some d ↦ take_action setting fd.source d obs next
    ]

-- A round on a screen, the last step verified
unfoldable pub react_to : {W : Type 0} → Setting W → AgentObservation → Run W → Turn W
react_to setting obs run = elim (stop_reason run.steps obs) [
  | some reason ↦ finished (fails reason run.steps)
  | none ↦
      if setting.force_llm
      then ask_and_act setting obs run
      else follow setting obs run (
          fast_decide setting.py (locator_match setting.robot run.learned) setting.goal obs
            run.steps)
]

-- A round, by what it observes
unfoldable pub round_on : {W : Type 0} → Setting W → Run W → Observed → Turn W
round_on setting run (timed_out e) = finished (fails (codes "observe 超时：" ++ e) run.steps)
round_on setting run (raised e) = finished (fails (codes "observe 失败：" ++ e) run.steps)
round_on setting run (seen obs) = react_to setting obs (verified setting obs run)

unfoldable pub one_round : {W : Type 0} → Setting W → Run W → Turn W
one_round setting run =
    let sight = setting.phone.observe run.world in
    round_on setting (record run { world = sight.0 }) sight.1

-- The result by the verdict on the last step
unfoldable pub concluded : List AgentStep → Bool × Text → AgentResult
concluded steps (ok, summary) = record { ok = ok; summary = summary; steps = steps }

-- `_final_send_verdict`, on the history from its end and what is observed then
unfoldable pub final_send_verdict : Text → List AgentStep → Observed → Option (Bool × Text)
final_send_verdict goal [] o = none
final_send_verdict goal (s ∷ before) o =
    if pressed_send s then some (final_verdict goal s o) else none

-- The end of a run that has used all its rounds
unfoldable pub out_of_rounds : {W : Type 0} → Setting W → ℕ → Run W → AgentResult
out_of_rounds setting max_steps run =
    elim (final_send_verdict setting.goal (reverse_onto [] run.steps)
      (setting.phone.observe run.world).1) [
        | some final ↦ concluded run.steps final
        | none ↦ fails (codes "达到最大步数 " ++ (show max_steps ++ codes "，未完成目标")) run.steps
      ]

-- The loop, with so many rounds left of `max_steps`; none is an error that leaves the run.
unfoldable pub rounds : {W : Type 0} → Setting W → ℕ → ℕ → Run W → Option AgentResult
rounds setting max_steps zero run = some (out_of_rounds setting max_steps run)
rounds setting max_steps (suc left) run = elim (one_round setting run) [
  | finished result ↦ some result
  | crashed ↦ none
  | goes_on next ↦ rounds setting max_steps left next
]

-- The state that a run starts in
unfoldable pub begin : {W : Type 0} → W → Data → Run W
begin w learned = record { world = w; learned = learned; steps = []; media_chat_anchor = none }

-- `_run_react_inner`
unfoldable pub run_react_inner : {W : Type 0} → Setting W → ℕ → W → Data → Option AgentResult
run_react_inner setting max_steps w learned = rounds setting max_steps max_steps (begin w learned)
