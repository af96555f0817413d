-- ===== src/React/Loop.antt =====
-- backend/app/ai/react_agent.py, `_run_react_inner`: observe, judge the last step, decide, act, learn. The
-- model's answers come from outside; screenshots, playbooks, artifacts and logs are left out.
pub mod Act
pub mod Rounds
pub mod Steps
pub mod Typed
pub mod Bound
use wecom_ai_agent.Prelude.{
  ℕ, suc, zero, ◌+◌, Bool, true, false, Option, none, some, List, [], ◌∷◌, ◌++◌, ◌&&◌, ◌||◌, not,
  if◌then◌else◌, or_else, is_some, is_empty, any, reverse_onto,
}
use wecom_ai_agent.Prelude.Text.{Text, codes, text_eq, strip, show}
use wecom_ai_agent.React.{Python, UiNode, AgentObservation, Args, AgentDecision, AgentStep}
use wecom_ai_agent.React.Tree.{root_page, is_chat_page}
use wecom_ai_agent.React.Nodes.{
  chat_title, lookup_node, degraded_wecom_observation, node_with_label_inside, search_node_inside,
}
use wecom_ai_agent.React.Goals.{parse_send_goal, kind_for_goal, GoalKind}
use wecom_ai_agent.React.Echo.{is_action, stuck_opening_wecom, stuck_repeating}
use wecom_ai_agent.React.FastDecide.{FastDecision, Source}
use wecom_ai_agent.React.FastDecide.Decide.{fast_decide}
use wecom_ai_agent.React.Locators.{Device, Data}
use wecom_ai_agent.React.Locators.Cache.{locator_match, remember_success, remember_failure}
use wecom_ai_agent.React.Locators.Roles.{one_of, infer_locator_role, decay_no_op_locator}
use wecom_ai_agent.React.Verdicts.{
  AgentResult, post_tap_verdict, post_back_verdict, annotated, guard_decision, sent_echo_before,
  Observed, seen, timed_out, raised, pressed_send, final_verdict,
}
use wecom_ai_agent.React.Execute.{Phone}
use wecom_ai_agent.React.Execute.Plans.{plan, carry_out}
use wecom_ai_agent.React.Execute.Waiting.{wait_ui}

-- What `_decide` gives, for one of the two providers, is JSON that nothing has checked. These answers
-- have not the types that the prompt asks for; `e` are the words of the error of `decision.get` or of
-- `args.get` on them.
pub data IllTyped : Type 0 where
  -- no object
  no_object : (e : Text) → IllTyped
  -- the action is a number, a list or an object, and neither 0 nor empty
  no_text : IllTyped
  -- the arguments are null, or something that is no object and counts as false
  null_args : (e action : Text) → IllTyped
  -- the arguments are anything else that is no object
  no_dict : (e action : Text) → IllTyped
  -- the node's id is a number that `int` refuses with an OverflowError, Infinity
  no_number : AgentDecision → IllTyped

-- The answer of a provider: a decision, an error with its words, or a decision of other types. Any other
-- argument of another type at most makes the action itself fail, inside the `try`.
pub data Answer : Type 0 where
  decided : AgentDecision → Answer
  broken : Text → Answer
  ill_typed : IllTyped → Answer

-- The two providers; the second may not be there.
pub record Models (W : Type 0) : Type 0 where
  pub primary : W → Text → AgentObservation → List AgentStep → W × Answer
  pub fallback : Option (W → Text → AgentObservation → List AgentStep → W × Answer)

-- What surrounds a run
pub record Setting (W : Type 0) : Type 0 where
  pub py : Python
  pub phone : Phone W
  pub models : Models W
  pub robot : Device
  pub goal : Text
  pub force_llm : Bool

-- The state of a run
pub record Run (W : Type 0) : Type 0 where
  pub world : W
  pub learned : Data
  pub steps : List AgentStep
  pub media_chat_anchor : Option Text

-- How a round ends; `crashed` is an error that leaves the run.
pub data Turn (W : Type 0) : Type 0 where
  finished : AgentResult → Turn W
  crashed : Turn W
  goes_on : Run W → Turn W

abbrev pub fails : Text → List AgentStep → AgentResult
fails summary steps = record { ok = false; summary = summary; steps = steps }

-- `TOOL_SCHEMA`
abbrev pub tools : List Text
tools =
    codes "tap_node"
    ∷ codes "long_press_node"
    ∷ codes "double_tap_node"
    ∷ codes "drag_node"
    ∷ codes "input_text"
    ∷ codes "swipe"
    ∷ codes "wait_ui"
    ∷ codes "back"
    ∷ codes "home"
    ∷ codes "open_wecom"
    ∷ codes "done"
    ∷ []

abbrev pub is_media_kind : Option GoalKind → Bool
is_media_kind (some GoalKind.send_media_phase2) = true
is_media_kind _ = false

-- The anchor: the title of the first chat page that a media send sees
unfoldable pub anchored : Text → AgentObservation → Option Text → Option Text
anchored goal obs (some anchor) = some anchor
anchored goal obs none =
    if is_media_kind (kind_for_goal goal) && is_chat_page obs then chat_title obs else none

-- The history with its last step changed
unfoldable pub change_last : (AgentStep → AgentStep) → List AgentStep → List AgentStep
change_last f [] = []
change_last f (s ∷ []) = f s ∷ []
change_last f (s ∷ t ∷ ss) = s ∷ change_last f (t ∷ ss)

-- The verdict on a step, by the next screen
unfoldable pub judged : Python → Text → Option Text → AgentObservation → AgentStep → AgentStep
judged py goal anchor obs s =
    if is_action (codes "tap_node") s
    then annotated s (post_tap_verdict s obs goal anchor)
    else if is_action (codes "back") s
    then annotated s (post_back_verdict py s obs)
    else s

-- The locators after the last step's tap has shown whether it moved the page
unfoldable pub decayed : List AgentStep → AgentObservation → Data → ℕ → Data
decayed steps obs learned now = elim (reverse_onto [] steps) [
  | [] ↦ learned
  | s ∷ _ ↦
      if is_action (codes "tap_node") s then decay_no_op_locator s obs learned now else learned
]

-- "Post-action verification"
unfoldable pub verified : {W : Type 0} → Setting W → AgentObservation → Run W → Run W
verified setting obs run =
    let anchor = anchored setting.goal obs run.media_chat_anchor in
    record {
      world = run.world;
      learned = decayed run.steps obs run.learned (setting.phone.now run.world);
      steps = change_last (judged setting.py setting.goal anchor obs) run.steps;
      media_chat_anchor = anchor;
    }

-- "Loop detection": the reason to stop, if there is one
unfoldable pub stop_reason : List AgentStep → AgentObservation → Option Text
stop_reason steps obs =
    if stuck_opening_wecom steps
    then some (codes "已多次请求打开企业微信但无障碍树仍不可用，请检查手机前台、锁屏/悬浮窗/无障碍状态")
    else if stuck_repeating steps
    then some (codes "检测到连续重复操作未生效，提前结束（请人工核实 UI 状态）")
    else if degraded_wecom_observation obs
    then some (codes "企业微信 UI 树不完整（UNKNOWN/节点过少），停止盲操作并等待重试")
    else none

abbrev pub gives_up : AgentDecision → Bool
gives_up d = text_eq d.action (codes "done") && not d.args.success

-- The check for a failure, which may itself raise: the arguments are read only for the action "done".
unfoldable pub checked : Answer → Answer
checked (decided d) = decided d
checked (broken e) = broken e
checked (ill_typed (no_object e)) = broken e
checked (ill_typed no_text) = ill_typed no_text
checked (ill_typed (null_args e action)) =
    if text_eq action (codes "done") then broken e else ill_typed (null_args e action)
checked (ill_typed (no_dict e action)) =
    if text_eq action (codes "done") then broken e else ill_typed (no_dict e action)
checked (ill_typed (no_number d)) = ill_typed (no_number d)

-- The second provider's answer to a failure that the first has answered
unfoldable pub or_fallback : {W : Type 0} → AgentDecision → W × Answer → W × Answer
unfolding checked
or_fallback first (w, answer) = (
  w,
  elim (checked answer) [
    | decided second ↦ decided (if gives_up second then first else second)
    | broken e ↦ broken e
    | ill_typed i ↦ ill_typed i
  ],
)

-- After an error of the first provider, or of the second that was asked for a better answer, the second is
-- asked (again).
unfoldable pub recovered :
    {W : Type 0}
    → (W → Text → AgentObservation → List AgentStep → W × Answer)
    → Text
    → AgentObservation
    → List AgentStep
    → W × Answer
    → W × Answer
recovered ask goal obs steps (w, decided d) = (w, decided d)
recovered ask goal obs steps (w, ill_typed i) = (w, ill_typed i)
recovered ask goal obs steps (w, broken e) =
    let second = ask w goal obs steps in
    (
      second.0,
      elim second.1 [
        | decided d ↦ decided d
        | broken f ↦ broken (e ++ (codes "; fallback=" ++ f))
        | ill_typed i ↦ ill_typed i
      ],
    )

-- The model's decision
unfoldable pub ask_models :
    {W : Type 0} → Models W → Text → AgentObservation → List AgentStep → W → W × Answer
unfolding checked or_fallback recovered
ask_models models goal obs steps w =
    let first = models.primary w goal obs steps in
    elim models.fallback [
      | none ↦ first
      | some ask ↦ recovered ask goal obs steps (elim (checked first.1) [
        | broken e ↦ (first.0, broken e)
        | ill_typed i ↦ (first.0, ill_typed i)
        | decided d ↦ if gives_up d then or_fallback d (ask first.0 goal obs steps) else first
      ])
    ]
