-- ===== src/Tests/React.antt =====
-- Screens, and what the agent of backend/app/ai/react_agent.py makes of them.
use wecom_ai_agent.Prelude.{◌≡◌, ◌≢◌, refl, true, false, none, some, List, [], ◌∷◌}
use wecom_ai_agent.Prelude.Int.{pos}
use wecom_ai_agent.Prelude.Pattern.{drop_prefix}
use wecom_ai_agent.Prelude.Text.{
  lstrip, rstrip, is_space, starts_with, Text, codes, text_eq, strip, contains,
}
use wecom_ai_agent.React.{Python, UiNode, AgentObservation, AgentStep, node_label}
use wecom_ai_agent.React.Tree.{
  first_line, take_while, is_line_break, root_page, value_of, value_here, is_wecom_tree,
}
use wecom_ai_agent.React.Nodes.{values, find_message_input, least, least_from, in_target_chat}
use wecom_ai_agent.React.Echo.{
  last_success, last_of, last_success_step, verify_send_cleared, find_new_sent_message_echo,
}
use wecom_ai_agent.React.Goals.{
  send_of, search_goal, match_here, shortest, after_opening, after_send_words, parse_open_chat_goal,
  open_of, after_open_words, ParsedSendGoal, parse_send_goal,
}
use wecom_ai_agent.React.FastDecide.{
  in_failed_cache_roles, done, decide, enter_message, found, cached, enter, LocatorMatch, no_args,
}
use wecom_ai_agent.React.FastDecide.Decide.{
  decide_towards, before_send, after_send, by_verdict, fast_decide, in_wrong_chat, send_verdict,
}
use wecom_ai_agent.React.FastDecide.Signs.{MayType}
use wecom_ai_agent.React.FastDecide.Delivered.{Delivered}
use wecom_ai_agent.React.FastDecide.Sends.{
  fast_decide-done, fast_decide-untouched, fast_decide-input_text,
}
use wecom_ai_agent.React.FastDecide.Parts.{acts, touches, returns}

abbrev pub plain_python : Python
plain_python = record { lower = λ s. s; is_word = λ _. false; repr = λ s. s }

abbrev pub goal : Text
goal = codes "打开与「A」的聊天，并发送下面这段文本：hi"

abbrev pub parsed : ParsedSendGoal
parsed = record { target = codes "A"; text = codes "hi" }

abbrev pub input_box : Text → UiNode
input_box text = record {
  id = 7;
  cls = codes "EditText";
  view_id = [];
  text = text;
  desc = [];
  clickable = true;
  focusable = true;
  editable = true;
  scrollable = false;
  bounds = some (record { left = pos 0; top = pos 900; right = pos 90; bottom = pos 990 });
}

abbrev pub title : UiNode
title = record {
  id = 1;
  cls = codes "TextView";
  view_id = [];
  text = codes "A";
  desc = [];
  clickable = false;
  focusable = false;
  editable = false;
  scrollable = false;
  bounds = some (record { left = pos 0; top = pos 10; right = pos 90; bottom = pos 20 });
}

-- The contact's chat, with a text in its input box
abbrev pub chat : Text → AgentObservation
chat text = record {
  tree = codes "pkg=com.tencent.wework page=CHAT";
  nodes = (1, title) ∷ (7, input_box text) ∷ [];
  screen_width = 100;
  screen_height = 1000;
  input_panel_visible = some true;
}

abbrev pub nothing_learned : LocatorMatch
nothing_learned = record { match = λ _ _ _. none }

abbrev pub step : Text → Text → AgentStep
step action role = record {
  action = action;
  args = record no_args { locator_role = some role };
  ok = true;
  message = [];
  before_page = some (codes "CHAT");
  sent_echo_before = none;
}

-- A run that has typed the text and pressed the button
abbrev pub sent_history : List AgentStep
sent_history =
    step (codes "input_text") (codes "message_input")
    ∷ step (codes "tap_node") (codes "send_button")
    ∷ []

goal-parsed : parse_send_goal goal ≡ some parsed
unfolding parse_send_goal send_of search_goal match_here shortest after_opening after_send_words
    drop_prefix strip lstrip rstrip is_space
goal-parsed = refl

in_front : is_wecom_tree (chat []).tree ≡ true
unfolding is_wecom_tree first_line take_while is_line_break contains starts_with
in_front = refl

decided_done :
    returns
      (acts (codes "done"))
      (fast_decide plain_python nothing_learned goal (chat []) sent_history)
    ≡ true
unfolding returns acts fast_decide parse_send_goal send_of search_goal match_here shortest
    after_opening after_send_words drop_prefix strip lstrip rstrip is_space parse_open_chat_goal
    open_of after_open_words text_eq last_success last_of is_wecom_tree first_line take_while
    is_line_break contains starts_with decide_towards in_wrong_chat find_message_input values least
    least_from in_target_chat node_label root_page value_of value_here after_send by_verdict
    send_verdict last_success_step verify_send_cleared find_new_sent_message_echo done decide
decided_done = refl

decided_input :
    returns (acts (codes "input_text")) (fast_decide plain_python nothing_learned goal (chat []) [])
    ≡ true
unfolding returns acts fast_decide parse_send_goal send_of search_goal match_here shortest
    after_opening after_send_words drop_prefix strip lstrip rstrip is_space parse_open_chat_goal
    open_of after_open_words text_eq last_success last_of is_wecom_tree first_line take_while
    is_line_break contains starts_with decide_towards in_wrong_chat find_message_input values least
    least_from in_target_chat node_label root_page value_of value_here before_send enter_message
    found cached enter decide last_success_step in_failed_cache_roles
decided_input = refl

fast_decide-done_example : Delivered (codes "hi") (chat []) sent_history
fast_decide-done_example =
    fast_decide-done plain_python nothing_learned goal (chat []) sent_history parsed goal-parsed
      decided_done

fast_decide-untouched_example :
    returns touches (
      fast_decide plain_python nothing_learned goal (chat []) (
        step (codes "input_text") (codes "message_input")
        ∷ step (codes "tap_node") (codes "send_button")
        ∷ []))
    ≢ true
unfolding text_eq
fast_decide-untouched_example =
    fast_decide-untouched plain_python nothing_learned goal (chat [])
      (step (codes "input_text") (codes "message_input") ∷ []) []
      (step (codes "tap_node") (codes "send_button")) parsed goal-parsed in_front (refl, refl, refl)
      refl

fast_decide-input_text_example : MayType (codes "A") (chat []) []
fast_decide-input_text_example =
    fast_decide-input_text plain_python nothing_learned goal (chat []) [] parsed goal-parsed
      decided_input
