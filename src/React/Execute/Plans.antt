-- ===== src/React/Execute/Plans.antt =====
-- backend/app/ai/react_agent.py, `_execute`: the command of each action.
use wecom_ai_agent.Prelude.{Bool, false, none, some, [], ◌++◌, if◌then◌else◌, or_else}
use wecom_ai_agent.Prelude.Text.{Text, codes, text_eq, show}
use wecom_ai_agent.React.{Python, AgentObservation, Args, center}
use wecom_ai_agent.React.Tree.{root_package, root_page}
use wecom_ai_agent.React.Verdicts.{panel_visible}
use wecom_ai_agent.React.Execute.Swipes.{says, swipe_plan}
use wecom_ai_agent.React.Execute.{
  Command, Reply, Phone, coerce_duration_ms, coerce_input_mode, show_point, pressed, arrow, Plan,
  on_node, acked, late, failed, refused, sends,
}

unfoldable pub tap_plan : Python → Args → AgentObservation → Plan
tap_plan py args obs =
    on_node obs (codes "node_id") args.node_id
      (λ n. sends (Command.tap_node n (center n)) (arrow (pressed py (codes "tap_node") n)))

unfoldable pub long_press_plan : Python → Args → AgentObservation → Plan
long_press_plan py args obs =
    let duration_ms = coerce_duration_ms args.duration_ms 650 350 3000 in
    on_node obs (codes "node_id") args.node_id (λ n.
      sends (Command.long_press_node n (center n) duration_ms) (
        arrow (
          pressed py (codes "long_press_node") n
          ++ (codes " duration=" ++ (show duration_ms ++ codes "ms")))))

unfoldable pub double_tap_plan : Python → Args → AgentObservation → Plan
double_tap_plan py args obs = on_node obs (codes "node_id") args.node_id (λ n.
    sends (Command.double_tap_node n (center n)) (arrow (pressed py (codes "double_tap_node") n)))

unfoldable pub drag_plan : Args → AgentObservation → Plan
drag_plan args obs =
    let duration_ms = coerce_duration_ms args.duration_ms 450 120 5000 in
    on_node obs (codes "from_node_id") args.from_node_id (λ a.
      on_node obs (codes "to_node_id") args.to_node_id (λ b.
        sends (Command.drag_xy (center a) (center b) duration_ms) (
          arrow (
            codes "drag_node("
            ++ (show a.id
                ++ (codes "->"
                    ++ (show b.id
                        ++ (codes ") xy="
                            ++ (show_point (center a)
                                ++ (codes "->"
                                    ++ (show_point (center b)
                                        ++ (codes " duration="
                                            ++ (show duration_ms ++ codes "ms")))))))))))))

unfoldable pub input_plan : Python → Args → AgentObservation → Plan
input_plan py args obs =
    let mode = coerce_input_mode py args.mode in
    let text = or_else args.text [] in
    let said = arrow (codes "input_text(mode=" ++ (mode ++ codes ")")) in
    elim args.node_id [
      | none ↦ sends (Command.input_text text none mode) said
      | some id ↦ on_node obs (codes "node_id") (some id) (λ n.
          if n.editable
          then sends (Command.input_text text (some n) mode) said
          else refused (codes "node " ++ (show id ++ (codes " 不可编辑（cls=" ++ (n.cls ++ codes "）")))))
    ]

abbrev pub bool_text : Bool → Text
bool_text b = if b then codes "true" else codes "false"

unfoldable pub back_plan : AgentObservation → Plan
back_plan obs = sends Command.back (λ message.
    message
    ++ (codes " (before_pkg="
        ++ (root_package obs.tree
            ++ (codes " before_page="
                ++ (root_page obs.tree
                    ++ (codes " before_input_panel="
                        ++ (bool_text (panel_visible obs) ++ codes ")")))))))

-- `_execute` up to its command, for the actions but `wait_ui`
unfoldable pub plan : Python → Text → Args → AgentObservation → Plan
plan py action args obs =
    if text_eq action (codes "tap_node")
    then tap_plan py args obs
    else if text_eq action (codes "long_press_node")
    then long_press_plan py args obs
    else if text_eq action (codes "double_tap_node")
    then double_tap_plan py args obs
    else if text_eq action (codes "drag_node")
    then drag_plan args obs
    else if text_eq action (codes "input_text")
    then input_plan py args obs
    else if text_eq action (codes "swipe")
    then swipe_plan py args obs
    else if text_eq action (codes "back")
    then back_plan obs
    else if text_eq action (codes "home")
    then sends Command.home says
    else if text_eq action (codes "open_wecom")
    then sends Command.open_wecom says
    else refused (codes "unhandled action: " ++ action)

-- The outcome, with the errors that `_run_react_inner` catches
unfoldable pub told : (Text → Text) → Reply → Bool × Text
told words (acked ok message) = (ok, words message)
told words (late e) = (false, codes "timeout: " ++ e)
told words (failed e) = (false, codes "exec error: " ++ e)

unfoldable pub carry_out : {W : Type 0} → Phone W → W → Plan → W × (Bool × Text)
carry_out phone w (refused message) = (w, (false, message))
carry_out phone w (sends command words) =
    let answer = phone.perform w command in (answer.0, told words answer.1)
