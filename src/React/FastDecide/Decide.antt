-- ===== src/React/FastDecide/Decide.antt =====
-- backend/app/ai/react_agent.py, `_fast_decide`: the order of its rules.
use wecom_ai_agent.Prelude.{
  Bool, Option, none, some, List, [], ◌∷◌, ◌++◌, ◌&&◌, ◌||◌, not, if◌then◌else◌, or_else, is_some,
}
use wecom_ai_agent.Prelude.Text.{Text, codes, show}
use wecom_ai_agent.React.{Python, AgentObservation, AgentStep}
use wecom_ai_agent.React.Tree.{is_wecom_tree, is_chat_page}
use wecom_ai_agent.React.Nodes.{find_message_input, find_launcher_icon, in_target_chat}
use wecom_ai_agent.React.Goals.{parse_send_goal, parse_open_chat_goal}
use wecom_ai_agent.React.Echo.{last_success, last_success_step, verify_send_cleared, SendVerdict}
use wecom_ai_agent.React.FastDecide.{
  LocatorMatch, Source, FastDecision, no_args, undecided, forget, decide, done, has_tapped,
  tap_target, enter_target, enter_message, press_send, look_for_target,
}

unfoldable pub opened : Python → Text → FastDecision
opened py target = done py (codes "已打开与 " ++ (target ++ codes " 的聊天。"))

-- The part for a goal that only opens a chat
unfoldable pub decide_open :
    Python → LocatorMatch → Text → AgentObservation → List AgentStep → FastDecision
decide_open py store target obs history =
    if is_some (find_message_input obs)
      && (in_target_chat obs target || has_tapped (codes "chat_target") history)
    then opened py target
    else if has_tapped (codes "chat_target") history && is_some (find_message_input obs)
    then opened py target
    else if last_success history (codes "input_text") (some (codes "search_input"))
    then or_else (tap_target store target obs history) undecided
    else if has_tapped (codes "search_entry") history
    then or_else (enter_target py store target obs history) undecided
    else look_for_target py store target obs history

-- The baseline that the step which pressed the button has kept
unfoldable pub send_verdict : Text → AgentObservation → List AgentStep → SendVerdict
send_verdict text obs history =
    verify_send_cleared obs text
      (elim (last_success_step history (codes "tap_node") (some (codes "send_button"))) [
        | none ↦ none
        | some s ↦ s.sent_echo_before
      ])

-- What the verdict means for a send: the input area may be hidden for a moment after a send, but only a
-- chat page is trusted then.
unfoldable pub by_verdict : Python → Text → AgentObservation → SendVerdict → FastDecision
by_verdict py target obs SendVerdict.sent_echo = done py (codes "已向 " ++ (target ++ codes " 发送消息。"))
by_verdict py target obs SendVerdict.cleared = done py (codes "已向 " ++ (target ++ codes " 发送消息。"))
by_verdict py target obs SendVerdict.still_filled = forget (codes "send_button")
by_verdict py target obs SendVerdict.unknown =
    if is_wecom_tree obs.tree && is_chat_page obs
    then done py (codes "已向 " ++ (target ++ codes " 发送消息。"))
    else forget (codes "send_button")

-- The part of a send after the send button was pressed
unfoldable pub after_send : Python → Text → Text → AgentObservation → List AgentStep → FastDecision
after_send py target text obs history = by_verdict py target obs (send_verdict text obs history)

-- The part of a send before it
unfoldable pub before_send :
    Python → LocatorMatch → Text → Text → AgentObservation → List AgentStep → FastDecision
before_send py store target text obs history =
    if last_success history (codes "input_text") none
    then if last_success history (codes "input_text") (some (codes "search_input"))
      then or_else (tap_target store target obs history) undecided
      else or_else (press_send store target obs history) undecided
    else or_else
        (if has_tapped (codes "chat_target") history
          then enter_message py store target text obs history
          else none)
        (if has_tapped (codes "search_entry") history
          then or_else (enter_target py store target obs history) undecided
          else or_else (enter_message py store target text obs history)
              (look_for_target py store target obs history))

-- Outside WeCom: its icon, or the intent that brings it to the front
unfoldable pub go_to_wecom : AgentObservation → FastDecision
go_to_wecom obs = elim (find_launcher_icon obs (codes "企业微信" ∷ codes "WeCom" ∷ [])) [
  | none ↦ decide Source.rule (codes "open_wecom") no_args
  | some icon ↦ decide Source.rule (codes "tap_node") (record no_args {
    node_id = some icon.id;
    shown = codes "{'node_id': " ++ (show icon.id ++ codes "}");
  })
]

-- Another contact's chat is on the screen, and this run has not opened the target's.
unfoldable pub in_wrong_chat : Text → AgentObservation → List AgentStep → Bool
in_wrong_chat target obs history =
    is_some (find_message_input obs)
    && (not (has_tapped (codes "chat_target") history) && not (in_target_chat obs target))

-- The guards that opening and sending share; `text` is none for a goal that only opens a chat.
unfoldable pub decide_towards :
    Python → LocatorMatch → Text → Option Text → AgentObservation → List AgentStep → FastDecision
decide_towards py store target text obs history =
    if not (is_wecom_tree obs.tree)
    then go_to_wecom obs
    else if in_wrong_chat target obs history
    then decide Source.rule (codes "back") no_args
    else if is_chat_page obs
        && (in_target_chat obs target && not (is_some (find_message_input obs)))
    then elim text [ none ↦ opened py target | some message ↦ forget (codes "chat_target") ]
    else elim text [
      | none ↦ decide_open py store target obs history
      | some message ↦
          if has_tapped (codes "send_button") history
          then after_send py target message obs history
          else before_send py store target message obs history
    ]

-- `_fast_decide`; none is the failed assertion that a goal of a send is one that opens a chat.
unfoldable pub fast_decide :
    Python → LocatorMatch → Text → AgentObservation → List AgentStep → Option FastDecision
fast_decide py store goal obs history = elim (parse_open_chat_goal goal) [
  | none ↦ if is_some (parse_send_goal goal) then none else some undecided
  | some open_target ↦ some (elim (parse_send_goal goal) [
    | none ↦ decide_towards py store open_target none obs history
    | some parsed ↦ decide_towards py store parsed.target (some parsed.text) obs history
  ])
]
