-- ===== src/React/FastDecide.antt =====
-- backend/app/ai/react_agent.py, `_fast_decide`: the next action towards a chat or a send, from learned
-- locators and from rules, without the language model. A decision's thought, which the code only logs
-- and shows to the model, is left out.
pub mod Decide
pub mod Parts
pub mod Signs
pub mod Delivered
pub mod Sends
use wecom_ai_agent.Prelude.{
  ℕ, Bool, true, false, Option, none, some, List, [], ◌∷◌, ◌++◌, ◌&&◌, ◌||◌, not, if◌then◌else◌,
  or_else, is_some, any,
}
use wecom_ai_agent.Prelude.Text.{Text, codes, text_eq, show}
use wecom_ai_agent.React.{Python, UiNode, AgentObservation, Args, AgentDecision, AgentStep}
use wecom_ai_agent.React.Tree.{is_wecom_tree, is_chat_page}
use wecom_ai_agent.React.Nodes.{
  find_text_node, find_message_input, find_search_input, find_search_entry, find_send_button,
  find_launcher_icon, in_target_chat, looks_like_list,
}
use wecom_ai_agent.React.Goals.{parse_send_goal, parse_open_chat_goal}
use wecom_ai_agent.React.Echo.{
  last_success, last_success_step, verify_send_cleared, SendVerdict, is_action, role_is,
}

-- What the agent asks of its `LocatorStore`: the node that a learned locator of the role finds for the
-- contact on the screen.
pub record LocatorMatch : Type 0 where
  pub match : Text → Text → AgentObservation → Option UiNode

pub data Source : Type 0 where
  no_source rule cache : Source

-- What `_fast_decide` returns, with the role whose failure it remembers in the store.
pub record FastDecision : Type 0 where
  pub decision : Option AgentDecision
  pub source : Source
  pub failed_role : Option Text

abbrev pub no_args : Args
no_args = record {
  node_id = none;
  from_node_id = none;
  to_node_id = none;
  text = none;
  locator_role = none;
  direction = none;
  mode = none;
  duration_ms = none;
  timeout_ms = none;
  absent = false;
  success = false;
  summary = none;
  shown = codes "{}";
}

-- `return None, "none"`
abbrev pub undecided : FastDecision
undecided = record { decision = none; source = Source.no_source; failed_role = none }

-- `locator_store.remember_failure(role=...)` before it
unfoldable pub forget : Text → FastDecision
forget role = record { decision = none; source = Source.no_source; failed_role = some role }

unfoldable pub decide : Source → Text → Args → FastDecision
decide source action args = record {
  decision = some (record { action = action; args = args });
  source = source;
  failed_role = none;
}

unfoldable pub tap : Text → Source → UiNode → FastDecision
tap role source node = decide source (codes "tap_node") (record no_args {
  node_id = some node.id;
  locator_role = some role;
  shown =
      codes "{'node_id': "
      ++ (show node.id ++ (codes ", '_locator_role': '" ++ (role ++ codes "'}")));
})

unfoldable pub enter : Python → Text → Text → Source → UiNode → FastDecision
enter py role text source node = decide source (codes "input_text") (record no_args {
  node_id = some node.id;
  text = some text;
  locator_role = some role;
  shown =
      codes "{'node_id': "
      ++ (show node.id
          ++ (codes ", 'text': "
              ++ (py.repr text ++ (codes ", '_locator_role': '" ++ (role ++ codes "'}")))));
})

unfoldable pub done : Python → Text → FastDecision
done py summary = decide Source.rule (codes "done") (record no_args {
  success = true;
  summary = some summary;
  shown = codes "{'success': True, 'summary': " ++ (py.repr summary ++ codes "}");
})

unfoldable pub swipe_up : FastDecision
swipe_up =
    decide Source.rule (codes "swipe")
      (record no_args { direction = some (codes "up"); shown = codes "{'direction': 'up'}" })

-- `"role" in failed_cache_roles`
unfoldable pub in_failed_cache_roles : Text → List AgentStep → Bool
in_failed_cache_roles role history = any (λ s. not s.ok && role_is role s.args.locator_role) history

-- The node of a learned locator, unless the role has failed in this run.
unfoldable pub cached :
    LocatorMatch → List AgentStep → Text → Text → AgentObservation → Option UiNode
cached store history role target obs =
    if in_failed_cache_roles role history then none else store.match role target obs

-- The learned locator's node first, then the rule's.
unfoldable pub found :
    Option UiNode → Option UiNode → (Source → UiNode → FastDecision) → Option FastDecision
found (some node) by_rule act = some (act Source.cache node)
found none (some node) act = some (act Source.rule node)
found none none act = none

abbrev pub has_tapped : Text → List AgentStep → Bool
has_tapped role history = last_success history (codes "tap_node") (some role)

unfoldable pub tap_target :
    LocatorMatch → Text → AgentObservation → List AgentStep → Option FastDecision
tap_target store target obs history =
    found (cached store history (codes "chat_target") target obs) (find_text_node obs target)
      (tap (codes "chat_target"))

unfoldable pub enter_target :
    Python → LocatorMatch → Text → AgentObservation → List AgentStep → Option FastDecision
enter_target py store target obs history =
    found (cached store history (codes "search_input") target obs) (find_search_input obs)
      (enter py (codes "search_input") target)

unfoldable pub enter_message :
    Python → LocatorMatch → Text → Text → AgentObservation → List AgentStep → Option FastDecision
enter_message py store target text obs history =
    found (cached store history (codes "message_input") target obs) (find_message_input obs)
      (enter py (codes "message_input") text)

unfoldable pub press_send :
    LocatorMatch → Text → AgentObservation → List AgentStep → Option FastDecision
press_send store target obs history =
    found (cached store history (codes "send_button") target obs) (find_send_button obs)
      (tap (codes "send_button"))

unfoldable pub tap_search :
    Python → LocatorMatch → Text → AgentObservation → List AgentStep → Option FastDecision
tap_search py store target obs history =
    found (cached store history (codes "search_entry") target obs) (find_search_entry py obs)
      (tap (codes "search_entry"))

-- One scroll, if none has succeeded yet and the screen looks like a list.
unfoldable pub scroll_once : AgentObservation → List AgentStep → FastDecision
scroll_once obs history =
    if not (any (λ s. is_action (codes "swipe") s && s.ok) history) && looks_like_list obs
    then swipe_up
    else undecided

-- The contact in the list, then the search, then one scroll.
unfoldable pub look_for_target :
    Python → LocatorMatch → Text → AgentObservation → List AgentStep → FastDecision
look_for_target py store target obs history =
    or_else (tap_target store target obs history)
      (or_else (tap_search py store target obs history) (scroll_once obs history))
