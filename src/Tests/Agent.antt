-- ===== src/Tests/Agent.antt =====
-- Runs of the agent of backend/app/ai/react_agent.py, and of its locators.
use wecom_ai_agent.Prelude.{
  is_empty, Member, ℕ, ◌+◌, ◌≡◌, ◌≤◌, refl, true, false, none, some, [], ◌∷◌, ◌++◌, inl, arith,
  is_some,
}
use wecom_ai_agent.Prelude.Text.{
  lstrip, rstrip, is_space, starts_with, Text, codes, text_eq, strip, contains,
}
use wecom_ai_agent.Store.{RobotTask, TaskStatus}
use wecom_ai_agent.SendOrchestrator.{goal_for_task}
use wecom_ai_agent.React.{UiNode, AgentObservation, AgentDecision, AgentStep, node_label}
use wecom_ai_agent.React.Tree.{
  first_line, take_while, is_line_break, value_of, value_here, message_field, message_bool,
  root_package,
}
use wecom_ai_agent.React.Nodes.{values}
use wecom_ai_agent.React.Echo.{is_action}
use wecom_ai_agent.React.Goals.{parse_send_goal, kind_for_goal, GoalKind}
use wecom_ai_agent.React.Goals.Roundtrip.{parse_send_goal-goal_for_task, kind_for_goal-media}
use wecom_ai_agent.React.FastDecide.{no_args}
use wecom_ai_agent.React.Locators.{Device, Data, spec_from_node, score_node}
use wecom_ai_agent.React.Locators.Cache.{match, remember_success, remember_failure}
use wecom_ai_agent.React.Locators.Learning.{match-remember_success}
use wecom_ai_agent.React.Locators.Forgetting.{match-remember_failure}
use wecom_ai_agent.React.Verdicts.{
  panel_visible, AgentResult, guard_decision, post_back_verdict, annotated, seen,
}
use wecom_ai_agent.React.Verdicts.Guard.{guard_decision-post_back_verdict}
use wecom_ai_agent.React.Execute.{Phone, acked}
use wecom_ai_agent.React.Execute.Waiting.{wait_ui, wait_ui-some}
use wecom_ai_agent.React.Loop.{Setting, decided}
use wecom_ai_agent.React.Loop.Rounds.{run_react_inner}
use wecom_ai_agent.React.Loop.Steps.{EndsWithin}
use wecom_ai_agent.React.Loop.Bound.{run_react_inner-EndsWithin}
use wecom_ai_agent.Tests.Data.{task, payload}
use wecom_ai_agent.Tests.React.{plain_python, goal, title, chat, step}

abbrev device : Device
device = record {
  device_type = none;
  manufacturer = some (codes "X");
  model = none;
  app_version = none;
}

abbrev no_locators : Data
no_locators = record { device_fingerprint = none; locators = [] }

on_screen : Member title (values (chat []).nodes)
unfolding values
on_screen = inl refl

is_labelled :
    text_eq (codes "chat_target") (codes "chat_target") ≡ true → node_label title ≡ codes "A"
unfolding node_label strip lstrip rstrip is_space
is_labelled _ = refl

match-remember_success_example :
    (m : UiNode) × (match device
        (remember_success device no_locators
          (codes "chat_target")
          (codes "tap_node")
          title
          (codes "llm")
          (chat [])
          5)
        (codes "chat_target")
        (codes "A")
        (chat [])
      ≡ some m)
    × (score_node (spec_from_node (codes "chat_target") title (chat [])) title (codes "A") (chat [])
        ≤ score_node (spec_from_node (codes "chat_target") title (chat [])) m (codes "A") (chat []))
match-remember_success_example =
    match-remember_success device no_locators (codes "chat_target") (codes "tap_node") title
      (codes "llm") (codes "A") (chat []) 5 on_screen refl is_labelled

abbrev one_locator : Data
one_locator =
    remember_success device no_locators (codes "send_button") (codes "tap_node") title (codes "llm")
      (chat []) 5

match-remember_failure_example :
    match device
      (remember_failure
        (remember_failure
          (remember_failure one_locator (codes "send_button") 6)
          (codes "send_button")
          7)
        (codes "send_button")
        8)
      (codes "send_button")
      (codes "A")
      (chat [])
    ≡ none
match-remember_failure_example =
    match-remember_failure device one_locator (codes "send_button") (codes "A") (chat []) 6 7 8 refl

-- A phone that always shows the contact's chat, and a clock that only sleeping moves
abbrev phone : Phone ℕ
phone = record {
  observe = λ w. (w, seen (chat []));
  perform = λ w c. (w, acked true []);
  now = λ w. w;
  sleep = λ w ms. w + ms;
}

wait_ui-some_example :
    is_some (wait_ui plain_python phone (record no_args { text = some (codes "B") }) 1) ≡ true
wait_ui-some_example =
    wait_ui-some plain_python phone (λ w. omega arith) (λ w ms. omega arith)
      (record no_args { text = some (codes "B") }) 1

abbrev setting : Setting ℕ
setting = record {
  py = plain_python;
  phone = phone;
  models = record {
    primary = λ w g o s. (w, decided (record { action = codes "home"; args = no_args }));
    fallback = none;
  };
  robot = device;
  goal = goal;
  force_llm = false;
}

run_react_inner-EndsWithin_example : EndsWithin 3 (run_react_inner setting 3 1 no_locators)
run_react_inner-EndsWithin_example =
    run_react_inner-EndsWithin setting (λ w. omega arith) (λ w ms. omega arith)
      (λ w g o s. refl, λ ask e. absurd cc) 3 1 no_locators

kind_for_goal-media_example :
    kind_for_goal (goal ++ (codes "文件名" ++ (98 ∷ []))) ≡ some GoalKind.send_media_phase2
kind_for_goal-media_example = kind_for_goal-media goal 98 [] refl

abbrev back_step : AgentStep
back_step = record (step (codes "back") []) {
  message = codes "ok (before_pkg=app before_page=P before_input_panel=true)";
}

abbrev back_decision : AgentDecision
back_decision = record { action = codes "back"; args = no_args }

abbrev closed : AgentObservation
closed = record (chat []) { input_panel_visible = some false }

decides_back : text_eq (strip back_decision.action) (codes "back") ≡ true
unfolding text_eq strip lstrip rstrip is_space
decides_back = refl

was_back : is_action (codes "back") back_step ≡ true
unfolding text_eq
was_back = refl

unjudged : contains (codes "[验证]") back_step.message ≡ false
unfolding contains starts_with
unjudged = refl

had_panel : message_bool plain_python back_step.message (codes "before_input_panel") ≡ some true
unfolding message_bool message_field value_of value_here text_eq is_space
had_panel = refl

no_panel : panel_visible closed ≡ false
unfolding panel_visible
no_panel = refl

was_in_app : message_field plain_python back_step.message (codes "before_pkg") ≡ some (codes "app")
unfolding message_bool message_field value_of value_here text_eq is_space
was_in_app = refl

has_package : is_empty (root_package closed.tree) ≡ false
unfolding root_package value_of value_here first_line take_while is_line_break is_space
has_package = refl

another_package : text_eq (codes "app") (root_package closed.tree) ≡ false
unfolding root_package value_of value_here first_line take_while is_line_break is_space text_eq
another_package = refl

guard_decision-post_back_verdict_example :
    (r : AgentResult) × (guard_decision back_decision
        ([] ++ (annotated back_step (post_back_verdict plain_python back_step closed) ∷ []))
      ≡ some r)
    × (r.ok ≡ true)
guard_decision-post_back_verdict_example =
    guard_decision-post_back_verdict plain_python back_decision [] back_step closed (codes "app")
      decides_back was_back refl unjudged had_panel no_panel was_in_app refl has_package
      another_package

abbrev send_task : RobotTask
send_task = record (task 1 TaskStatus.running (some 0)) {
  payload_json = record (payload (codes "hi")) { conversation_external_id = some (codes "ext") };
}

named : is_empty (strip (codes "ext")) ≡ false
unfolding strip lstrip rstrip is_space
named = refl

spoken : is_empty (strip (codes "hi")) ≡ false
unfolding strip lstrip rstrip is_space
spoken = refl

parse_send_goal-goal_for_task_example :
    (goal : Text) × (goal_for_task send_task ≡ some goal)
    × (parse_send_goal goal
        ≡ some (record { target = strip (codes "ext"); text = strip (codes "hi") }))
parse_send_goal-goal_for_task_example =
    parse_send_goal-goal_for_task send_task 101 (codes "xt") (codes "hi") refl refl refl
      (refl, (refl, tt)) named spoken
