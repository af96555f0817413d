-- ===== src/React/Verdicts.antt =====
-- backend/app/ai/react_agent.py: what the agent writes to its last step once it sees the next screen, and
-- the guard over its decisions.
pub mod Guard
use wecom_ai_agent.Prelude.{
  ℕ, Bool, true, false, Option, none, some, List, [], ◌∷◌, ◌++◌, ◌==◌, ◌&&◌, ◌||◌, not,
  if◌then◌else◌, or_else, is_some, is_empty, any, keep, first, leb, length, reverse_onto,
}
use wecom_ai_agent.Prelude.Text.{Text, codes, text_eq, strip, contains}
use wecom_ai_agent.React.{Python, AgentObservation, Args, AgentDecision, EchoStats, AgentStep}
use wecom_ai_agent.React.Tree.{root_package, root_page, is_chat_page, message_field, message_bool}
use wecom_ai_agent.React.Nodes.{find_message_input, chat_title}
use wecom_ai_agent.React.Goals.{parse_send_goal, parse_send_media_goal}
use wecom_ai_agent.React.Echo.{
  find_new_sent_message_echo, sent_message_echo_stats, verify_send_cleared, SendVerdict, is_action,
  role_is, last_steps,
}

-- `AgentResult`
pub record AgentResult : Type 0 where
  pub ok : Bool
  pub summary : Text
  pub steps : List AgentStep

-- `_input_panel_visible`
unfoldable pub panel_visible : AgentObservation → Bool
panel_visible obs = or_else obs.input_panel_visible false

-- `_media_post_tap_verdict`
unfoldable pub media_post_tap_verdict : AgentStep → AgentObservation → Option Text → Option Text
media_post_tap_verdict prev_step obs anchor =
    let before_page = or_else prev_step.before_page [] in
    let title = or_else (chat_title obs) [] in
    let expected = or_else anchor [] in
    if not (is_action (codes "tap_node") prev_step)
      || (is_empty before_page || text_eq before_page (codes "CHAT"))
    then none
    else if is_chat_page obs
    then if not (is_empty expected) && (not (is_empty title) && not (text_eq title expected))
      then some (
          codes "已落到 CHAT 页但顶栏是「"
          ++ (title
              ++ (codes "」而非起始的「"
                  ++ (expected
                      ++ (codes "」——这不是目标聊天，发送没有发生（或发到了错误对象）。请先 back 回到会话列表，重新打开「"
                          ++ (expected ++ codes "」核实是否需要重发，不要直接 done(success=true)。"))))))
      else some (codes "页面已从 picker 回到原聊天主页 → 图片已离开选择器，发送已生效，请立刻调用 done(success=true)")
    else some (codes "已点击媒体发送按钮，但页面仍在 picker/预览/上传状态。请使用 wait_ui 等待 UI 切回原聊天，不要按 back，也不要再点其它入口。")

-- `looks_like_send`
unfoldable pub looks_like_send : AgentStep → Bool
looks_like_send prev_step =
    role_is (codes "send_button") prev_step.args.locator_role
    || (contains (codes "发送") prev_step.args.shown || contains (codes "发送") prev_step.message)

-- What the input box says of a send of the text
unfoldable pub input_verdict : Text → AgentObservation → Text
input_verdict text obs = elim (find_message_input obs) [
  | none ↦ codes "未找到输入框，无法验证"
  | some input ↦
      let cur = strip input.text in
      if is_empty cur
      then codes "输入框已清空，发送已生效"
      else if contains (strip text) cur
      then codes "输入框仍含待发送文本「" ++ (cur ++ codes "」—— 此次点击未触发发送，请换一个节点尝试或确认按钮是否可用")
      else codes "输入框内容已不再匹配待发送文本，发送可能已生效"
]

-- `_post_tap_verdict`
unfoldable pub post_tap_verdict : AgentStep → AgentObservation → Text → Option Text → Option Text
post_tap_verdict prev_step obs goal anchor =
    if not (role_is (codes "send_button") prev_step.args.locator_role)
      && not (is_action (codes "tap_node") prev_step)
    then none
    else if is_some (parse_send_media_goal goal)
    then media_post_tap_verdict prev_step obs anchor
    else elim (parse_send_goal goal) [
      | none ↦ none
      | some parsed ↦
          if not (looks_like_send prev_step)
          then none
          else if is_some (find_new_sent_message_echo obs parsed.text prev_step.sent_echo_before)
          then some (codes "已看到自己发送的消息气泡，发送已生效")
          else some (input_verdict parsed.text obs)
    ]

-- What a `back` did to the keyboard
unfoldable pub panel_verdict : Option Bool → Bool → Text
panel_verdict (some true) false = codes "输入面板已消失"
panel_verdict (some false) false = codes "执行前后均未检测到输入面板"
panel_verdict (some true) true = codes "输入面板仍存在"
panel_verdict _ _ = []

-- What it did to the page
unfoldable pub page_verdict : Text → Text → Text → Text → Text
page_verdict before_pkg cur_pkg before_page cur_page =
    if not (is_empty before_pkg) && (not (is_empty cur_pkg) && not (text_eq before_pkg cur_pkg))
    then codes "上下文从 pkg=" ++ (before_pkg ++ (codes " 变为 pkg=" ++ cur_pkg))
    else if not (is_empty before_page)
        && (not (is_empty cur_page) && not (text_eq before_page cur_page))
    then codes "上下文从 page=" ++ (before_page ++ (codes " 变为 page=" ++ cur_page))
    else []

-- `"；".join(parts)`, for two parts of which one may be missing
unfoldable pub join_parts : Text → Text → Option Text
join_parts [] [] = none
join_parts [] (c ∷ s) = some (c ∷ s)
join_parts (c ∷ s) [] = some (c ∷ s)
join_parts (c ∷ s) (d ∷ t) = some ((c ∷ s) ++ (codes "；" ++ (d ∷ t)))

-- `_post_back_verdict`
unfoldable pub post_back_verdict : Python → AgentStep → AgentObservation → Option Text
post_back_verdict py prev_step obs =
    join_parts
      (panel_verdict (message_bool py prev_step.message (codes "before_input_panel"))
        (panel_visible obs))
      (page_verdict (or_else (message_field py prev_step.message (codes "before_pkg")) [])
        (root_package obs.tree)
        (or_else (message_field py prev_step.message (codes "before_page")) [])
        (root_page obs.tree))

-- The step with the verdict, once
unfoldable pub annotated : AgentStep → Option Text → AgentStep
annotated prev_step none = prev_step
annotated prev_step (some verdict) =
    if contains (codes "[验证]") prev_step.message
    then prev_step
    else record prev_step { message = prev_step.message ++ (codes "  [验证] " ++ verdict) }

abbrev pub is_back : AgentStep → Bool
is_back s = is_action (codes "back") s && s.ok

-- What the guard says to a second `back`, by the message of the last one that succeeded
unfoldable pub guard_back : Text → List AgentStep → Option AgentResult
guard_back msg steps =
    let page_changed = contains (codes "上下文从") msg in
    let panel_collapsed = contains (codes "输入面板已消失") msg in
    if panel_collapsed && page_changed
    then some (record { ok = true; summary = codes "返回键已收起输入面板，停止继续返回。"; steps = steps })
    else if panel_collapsed && not page_changed
    then none
    else if contains (codes "执行前后均未检测到输入面板") msg || page_changed
    then some (record { ok = false; summary = codes "连续返回没有明确收益，已阻止继续返回。"; steps = steps })
    else if leb 2 (length (keep is_back (last_steps 3 steps)))
    then some (record { ok = false; summary = codes "检测到连续返回操作，已阻止继续返回。"; steps = steps })
    else none

-- `_guard_decision`
unfoldable pub guard_decision : AgentDecision → List AgentStep → Option AgentResult
guard_decision decision steps =
    if text_eq (strip decision.action) (codes "back")
    then elim (first is_back (reverse_onto [] steps)) [
      | none ↦ none
      | some last_back ↦ guard_back last_back.message steps
    ]
    else none

-- `_action_observation_meta`, its "sent_echo_before"
unfoldable pub sent_echo_before : Text → Args → AgentObservation → Text → Option EchoStats
sent_echo_before action args obs goal =
    if text_eq action (codes "tap_node") && role_is (codes "send_button") args.locator_role
    then elim (parse_send_goal goal) [
      | none ↦ none
      | some parsed ↦ some (sent_message_echo_stats obs parsed.text)
    ]
    else none

-- What `_observe` gives: the screen, a time-out or another error, with its words
pub data Observed : Type 0 where
  seen : AgentObservation → Observed
  timed_out : Text → Observed
  raised : Text → Observed

abbrev pub error_of : Observed → Text
error_of (seen obs) = []
error_of (timed_out e) = e
error_of (raised e) = e

-- The contact of a send, in the summaries
abbrev pub target_of : Text → Text
target_of goal = elim (parse_send_goal goal) [ none ↦ codes "目标联系人" | some parsed ↦ parsed.target ]

abbrev pub text_of : Text → Text
text_of goal = elim (parse_send_goal goal) [ none ↦ [] | some parsed ↦ parsed.text ]

-- Was the last step a tap that pressed a send button?
unfoldable pub pressed_send : AgentStep → Bool
pressed_send s =
    is_action (codes "tap_node") s
    && (s.ok
        && (role_is (codes "send_button") s.args.locator_role || contains (codes "发送") s.message))

-- The verdict of `_final_send_verdict` on what it observes after a last step that pressed a send button
unfoldable pub final_verdict : Text → AgentStep → Observed → Bool × Text
final_verdict goal s (seen obs) = elim (verify_send_cleared obs (text_of goal) s.sent_echo_before) [
  | SendVerdict.sent_echo ↦ (true, codes "已向 " ++ (target_of goal ++ codes " 发送消息。"))
  | SendVerdict.still_filled ↦ (false, codes "已点击发送按钮，但输入框仍含待发送文本，发送未确认。")
  | SendVerdict.cleared ↦ (true, codes "已向 " ++ (target_of goal ++ codes " 发送消息。"))
  | SendVerdict.unknown ↦ (true, codes "已向 " ++ (target_of goal ++ codes " 发送消息。"))
]
final_verdict goal s o = (
  true,
  codes "已点击发送按钮，但最终确认失败："
      ++ (error_of o ++ (codes "；按已发送处理，避免重复发送给 " ++ (target_of goal ++ codes "。"))),
)
