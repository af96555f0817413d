-- ===== src/React/Loop/Act.antt =====
-- backend/app/ai/react_agent.py, `_run_react_inner`: how a decision is carried out and learned from.
use wecom_ai_agent.Prelude.{
  ℕ, Bool, Option, none, some, [], ◌∷◌, ◌++◌, ◌&&◌, not, if◌then◌else◌, or_else, is_some, is_empty,
}
use wecom_ai_agent.Prelude.Text.{Text, codes, text_eq, strip}
use wecom_ai_agent.React.{Python, UiNode, AgentObservation, Args, AgentDecision}
use wecom_ai_agent.React.Tree.{root_page}
use wecom_ai_agent.React.Nodes.{lookup_node, node_with_label_inside, search_node_inside}
use wecom_ai_agent.React.Goals.{parse_send_goal}
use wecom_ai_agent.React.FastDecide.{Source}
use wecom_ai_agent.React.Locators.{Data}
use wecom_ai_agent.React.Locators.Cache.{remember_success, remember_failure}
use wecom_ai_agent.React.Locators.Roles.{one_of, infer_locator_role}
use wecom_ai_agent.React.Verdicts.{guard_decision, sent_echo_before}
use wecom_ai_agent.React.Execute.Plans.{plan, carry_out}
use wecom_ai_agent.React.Execute.Waiting.{wait_ui}
use wecom_ai_agent.React.Loop.{Setting, Run, Turn, fails, tools, goes_on, finished, crashed}

-- The node that a locator is learned from
unfoldable pub learn_node : Python → Text → Text → AgentObservation → UiNode → UiNode
learn_node py goal role obs used =
    if text_eq role (codes "chat_target") && is_some (parse_send_goal goal)
    then elim (parse_send_goal goal) [
      | none ↦ used
      | some parsed ↦ or_else (node_with_label_inside obs used parsed.target) used
    ]
    else if text_eq role (codes "send_button")
    then or_else (node_with_label_inside obs used (codes "发送"))
        (or_else (node_with_label_inside obs used (codes "Send")) used)
    else if text_eq role (codes "search_entry")
    then or_else (search_node_inside py obs used) used
    else used

-- What a step teaches: a locator after a success of the model's, a failure of a learned locator's
unfoldable pub taught :
    {W : Type 0} → Setting W → Source → Text → Args → Bool → AgentObservation → ℕ → Data → Data
taught setting source action args ok obs now learned =
    let used = lookup_node obs args.node_id in
    let explicit = or_else args.locator_role [] in
    let role =
      if is_empty explicit
      then or_else (infer_locator_role setting.py action args used setting.goal obs) []
      else explicit in
    elim source [
      | Source.no_source ↦ elim used [
        | none ↦ learned
        | some node ↦
            if ok && not (is_empty role)
            then remember_success setting.robot learned role action
                (learn_node setting.py setting.goal role obs node) (codes "llm") obs now
            else learned
      ]
      | Source.cache ↦ if ok then learned else remember_failure learned role now
      | Source.rule ↦ learned
    ]

-- `_execute`; none is an end of the fuel of `wait_ui`.
unfoldable pub execute :
    {W : Type 0} → Setting W → Text → Args → AgentObservation → W → Option (W × (Bool × Text))
execute setting action args obs w =
    if text_eq action (codes "wait_ui")
    then wait_ui setting.py setting.phone args w
    else some (carry_out setting.phone w (plan setting.py action args obs))

abbrev pub or_default : Text → Text → Text
or_default s default = if is_empty s then default else s

-- The step of an action that was carried out
unfoldable pub acted :
    {W : Type 0}
    → Setting W
    → Source
    → Text
    → Args
    → AgentObservation
    → Run W
    → W × (Bool × Text)
    → Turn W
acted setting source action args obs run (w, (ok, msg)) = goes_on (record {
  world = setting.phone.sleep w 400;
  learned = taught setting source action args ok obs (setting.phone.now w) run.learned;
  steps =
      run.steps
      ++ (record {
        action = action;
        args = args;
        ok = ok;
        message = msg;
        before_page = some (root_page obs.tree);
        sent_echo_before = sent_echo_before action args obs setting.goal;
      }
          ∷ []);
  media_chat_anchor = run.media_chat_anchor;
})

-- A decision with the source it came from: guarded, the end, or an action
unfoldable pub take_action :
    {W : Type 0} → Setting W → Source → AgentDecision → AgentObservation → Run W → Turn W
take_action setting source decision obs run =
    let action = strip decision.action in
    let args = decision.args in
    let summary = or_else args.summary [] in
    elim (guard_decision decision run.steps) [
      | some result ↦ finished result
      | none ↦
          if text_eq action (codes "done")
          then finished (record {
            ok = args.success;
            summary = or_default summary (codes "agent done");
            steps =
                run.steps
                ++ (record {
                  action = action;
                  args = args;
                  ok = args.success;
                  message = summary;
                  before_page = none;
                  sent_echo_before = none;
                }
                    ∷ []);
          })
          else if not (one_of tools action)
          then finished (fails (codes "未知动作 " ++ action) run.steps)
          else elim (execute setting action args obs run.world) [
            | none ↦ crashed
            | some outcome ↦ acted setting source action args obs run outcome
          ]
    ]
