-- ===== src/React/Locators/Roles.antt =====
-- backend/app/ai/react_locators.py, `role_for_decision`, and react_agent.py, `_infer_locator_role` and
-- `_decay_no_op_locator`: the role that an action is learned or forgotten under.
use wecom_ai_agent.Prelude.{
  ℕ, Bool, Option, none, some, List, [], ◌∷◌, ◌++◌, ◌&&◌, ◌||◌, not, if◌then◌else◌, or_else,
  is_some, is_empty, any,
}
use wecom_ai_agent.Prelude.Text.{Text, codes, text_eq, strip, contains}
use wecom_ai_agent.React.{Python, UiNode, AgentObservation, Args, AgentStep, node_label}
use wecom_ai_agent.React.Tree.{root_page}
use wecom_ai_agent.React.Nodes.{is_label, node_with_label_inside, search_node_inside}
use wecom_ai_agent.React.Goals.{parse_send_goal, parse_send_media_goal}
use wecom_ai_agent.React.Locators.{Data}
use wecom_ai_agent.React.Locators.Cache.{remember_failure}

abbrev pub one_of : List Text → Text → Bool
one_of names role = any (λ t. text_eq role t) names

-- `MEDIA_LOCATOR_ROLES`
abbrev pub media_locator_roles : List Text
media_locator_roles =
    codes "compose_plus"
    ∷ codes "media_picker_entry"
    ∷ codes "gallery_first_item"
    ∷ codes "gallery_send_button"
    ∷ []

-- `_ALL_LOCATOR_ROLES`
abbrev pub all_locator_roles : List Text
all_locator_roles =
    codes "chat_target"
    ∷ codes "message_input"
    ∷ codes "send_button"
    ∷ codes "search_entry"
    ∷ codes "search_input"
    ∷ media_locator_roles

-- `_looks_like_search_label`
unfoldable pub looks_like_search_label : Python → Text → Bool
looks_like_search_label py label =
    one_of (codes "搜索" ∷ codes "搜一搜" ∷ codes "Search" ∷ []) label
    || (contains (codes "搜索") label || contains (codes "search") (py.lower label))

-- `_looks_like_search_node` of react_locators.py
unfoldable pub search_in_node : Python → UiNode → Bool
search_in_node py n =
    let haystack = py.lower (n.view_id ++ (32 ∷ n.cls ++ (32 ∷ n.desc ++ (32 ∷ n.text)))) in
    contains (codes "search") haystack || contains (codes "搜索") haystack

-- The role of a tapped node by its label
unfoldable pub role_by_label : Python → Text → UiNode → Option Text
role_by_label py target node =
    let label = node_label node in
    if one_of (codes "发送" ∷ codes "Send" ∷ []) label
    then some (codes "send_button")
    else if text_eq label target
    then some (codes "chat_target")
    else if looks_like_search_label py label || search_in_node py node
    then some (codes "search_entry")
    else none

-- `role_for_decision`
unfoldable pub role_for_decision : Python → Text → Args → Option UiNode → Text → Option Text
role_for_decision py action args node goal =
    let explicit = strip (or_else args.locator_role []) in
    if is_some (parse_send_media_goal goal)
    then if one_of media_locator_roles explicit then some explicit else none
    else elim (parse_send_goal goal) [
      | none ↦ none
      | some parsed ↦
          if one_of all_locator_roles explicit
          then some explicit
          else if text_eq action (codes "input_text")
          then some (
              if text_eq (or_else args.text []) parsed.target
              then codes "search_input"
              else codes "message_input")
          else if text_eq action (codes "tap_node")
          then elim node [ none ↦ none | some n ↦ role_by_label py parsed.target n ]
          else none
    ]

-- The role of a tapped node by what stands inside its bounds
unfoldable pub role_by_inside : Python → Text → UiNode → AgentObservation → Option Text
role_by_inside py target node obs =
    if is_some (node_with_label_inside obs node target)
    then some (codes "chat_target")
    else if is_some (node_with_label_inside obs node (codes "发送"))
        || is_some (node_with_label_inside obs node (codes "Send"))
    then some (codes "send_button")
    else if wecom_ai_agent.React.Nodes.looks_like_search_node py node
        || is_some (search_node_inside py obs node)
    then some (codes "search_entry")
    else none

-- `_infer_locator_role`
unfoldable pub infer_locator_role :
    Python → Text → Args → Option UiNode → Text → AgentObservation → Option Text
infer_locator_role py action args none goal obs = role_for_decision py action args none goal
infer_locator_role py action args (some node) goal obs =
    elim (role_for_decision py action args (some node) goal) [
      | some role ↦ some role
      | none ↦ elim (parse_send_goal goal) [
        | none ↦ none
        | some parsed ↦
            if text_eq action (codes "tap_node")
            then role_by_inside py parsed.target node obs
            else none
      ]
    ]

-- `_NAV_ROLES`
abbrev pub nav_roles : List Text
nav_roles =
    codes "chat_target"
    ∷ codes "search_entry"
    ∷ codes "compose_plus"
    ∷ codes "media_picker_entry"
    ∷ codes "gallery_send_button"
    ∷ []

-- `_decay_no_op_locator`
unfoldable pub decay_no_op_locator : AgentStep → AgentObservation → Data → ℕ → Data
decay_no_op_locator prev_step obs learned now =
    let role = or_else prev_step.args.locator_role [] in
    let before_page = or_else prev_step.before_page [] in
    if prev_step.ok
      && (one_of nav_roles role
          && (not (is_empty before_page) && text_eq (root_page obs.tree) before_page))
    then remember_failure learned role now
    else learned
