-- ===== src/React/Nodes.antt =====
-- backend/app/ai/react_agent.py: the nodes that the agent looks for on the screen. A product with a
-- decimal, such as `screen_h * 0.15`, is taken exact.
use wecom_ai_agent.Prelude.{
  ℕ, ◌*◌, ◌/◌, Bool, false, Option, none, some, List, [], ◌∷◌, ◌++◌, ◌==◌, ◌&&◌, ◌||◌, not,
  if◌then◌else◌, or_else, is_some, is_empty, any, keep, first, leb, ltb, length,
}
use wecom_ai_agent.Prelude.Int.{pos, lebℤ, ltbℤ, ◌-ℤ◌, at_least_zero}
use wecom_ai_agent.Prelude.Assoc.{find}
use wecom_ai_agent.Prelude.Text.{Text, codes, text_eq, contains}
use wecom_ai_agent.React.{Python, UiNode, Box, AgentObservation, node_label}
use wecom_ai_agent.React.Tree.{root_page, is_wecom_tree}

-- `obs.nodes.values()`
unfoldable pub values : List (ℕ × UiNode) → List UiNode
values [] = []
values ((id, n) ∷ rest) = n ∷ values rest

-- `min(pool, key=...)`, the first of the least; `before a b` says that `a` has the smaller key.
unfoldable pub least_from : (UiNode → UiNode → Bool) → UiNode → List UiNode → UiNode
least_from before n [] = n
least_from before n (m ∷ ms) = least_from before (if before m n then m else n) ms

unfoldable pub least : (UiNode → UiNode → Bool) → List UiNode → Option UiNode
unfolding least_from
least before [] = none
least before (n ∷ ns) = some (least_from before n ns)

-- `clickable or candidates`
unfoldable pub prefer_clickable : List UiNode → List UiNode
prefer_clickable ns =
    let clickable = keep (λ (n : UiNode). n.clickable) ns in
    if is_empty clickable then ns else clickable

abbrev no_box : Box
no_box = record { left = pos 0; top = pos 0; right = pos 0; bottom = pos 0 }

-- The bounds of a node that has them.
abbrev pub box_of : UiNode → Box
box_of n = or_else n.bounds no_box

abbrev pub is_above : UiNode → UiNode → Bool
is_above m n = ltbℤ (box_of m).top (box_of n).top

abbrev pub is_below : UiNode → UiNode → Bool
is_below m n = ltbℤ (box_of n).top (box_of m).top

-- The order of `(n.bounds[1], n.bounds[0])`
abbrev pub reads_before : UiNode → UiNode → Bool
reads_before m n = is_above m n || (not (is_below m n) && ltbℤ (box_of m).left (box_of n).left)

-- `_find_text_node`
unfoldable pub find_text_node : AgentObservation → Text → Option UiNode
unfolding values least prefer_clickable node_label text_eq
find_text_node obs text = least reads_before (
    prefer_clickable
      (keep (λ n. text_eq (node_label n) text && is_some n.bounds) (values obs.nodes)))

-- `_find_message_input`
unfoldable pub find_message_input : AgentObservation → Option UiNode
unfolding values least
find_message_input obs =
    least is_below (keep (λ n. n.editable && is_some n.bounds) (values obs.nodes))

-- `_find_search_input`
unfoldable pub find_search_input : AgentObservation → Option UiNode
unfolding values least
find_search_input obs =
    least reads_before (keep (λ n. n.editable && is_some n.bounds) (values obs.nodes))

abbrev pub is_label : List Text → UiNode → Bool
is_label names n = any (λ t. text_eq (node_label n) t) names

-- `_looks_like_search_node`
unfoldable pub looks_like_search_node : Python → UiNode → Bool
unfolding node_label text_eq contains
looks_like_search_node py n =
    is_label (codes "搜索" ∷ codes "搜一搜" ∷ codes "Search" ∷ []) n
    || (contains (codes "搜索") (node_label n)
        || contains (codes "search")
            (py.lower (n.view_id ++ (32 ∷ n.cls ++ (32 ∷ n.desc ++ (32 ∷ n.text))))))

-- `_find_search_entry`
unfoldable pub find_search_entry : Python → AgentObservation → Option UiNode
unfolding values least prefer_clickable looks_like_search_node
find_search_entry py obs = least reads_before (
    prefer_clickable
      (keep (λ n. looks_like_search_node py n && is_some n.bounds) (values obs.nodes)))

-- `_find_send_button`
unfoldable pub find_send_button : AgentObservation → Option UiNode
find_send_button obs = elim (find_text_node obs (codes "发送")) [
  | some n ↦ some n
  | none ↦ find_text_node obs (codes "Send")
]

unfoldable pub area : UiNode → ℕ
area n =
    at_least_zero ((box_of n).right -ℤ (box_of n).left)
    * at_least_zero ((box_of n).bottom -ℤ (box_of n).top)

-- `_find_launcher_icon`
unfoldable pub find_launcher_icon : AgentObservation → List Text → Option UiNode
unfolding values least prefer_clickable node_label text_eq area
find_launcher_icon obs names =
    least (λ m n. ltb (area m) (area n))
      (prefer_clickable (keep (λ n. is_some n.bounds && is_label names n) (values obs.nodes)))

-- `int(screen_h * 0.15)`
abbrev pub title_cutoff : AgentObservation → ℕ
title_cutoff obs = obs.screen_height * 15 / 100

abbrev pub in_title : AgentObservation → UiNode → Bool
in_title obs n = is_some n.bounds && ltbℤ (box_of n).top (pos (title_cutoff obs))

-- `_chat_title`
unfoldable pub chat_title : AgentObservation → Option Text
unfolding values node_label
chat_title obs =
    if leb obs.screen_height 0
    then none
    else elim (first (λ n. in_title obs n && not (is_empty (node_label n))) (values obs.nodes)) [
      | none ↦ none
      | some n ↦ some (node_label n)
    ]

-- `_in_target_chat`
unfoldable pub in_target_chat : AgentObservation → Text → Bool
unfolding values node_label text_eq
in_target_chat obs target =
    if is_empty target || leb obs.screen_height 0
    then false
    else any (λ n. in_title obs n && text_eq (node_label n) target) (values obs.nodes)

-- `_looks_like_list`
unfoldable pub looks_like_list : AgentObservation → Bool
unfolding values contains
looks_like_list obs =
    any (λ n. n.scrollable) (values obs.nodes) || contains (codes "RecyclerView") obs.tree

-- `_recoverable_unknown_observation`
unfoldable pub recoverable_unknown_observation : AgentObservation → Bool
unfolding values node_label text_eq
recoverable_unknown_observation obs =
    any
      (λ n.
        is_label
          (codes "发送"
            ∷ codes "完成"
            ∷ codes "确定"
            ∷ codes "确认"
            ∷ codes "Send"
            ∷ codes "Done"
            ∷ codes "OK"
            ∷ [])
          n
        || (text_eq n.cls (codes "CheckBox") && (n.clickable || n.focusable)))
      (values obs.nodes)

-- `_degraded_wecom_observation`
unfoldable pub degraded_wecom_observation : AgentObservation → Bool
unfolding recoverable_unknown_observation is_wecom_tree root_page
degraded_wecom_observation obs =
    is_wecom_tree obs.tree
    && (text_eq (root_page obs.tree) (codes "UNKNOWN")
        && (leb (length obs.nodes) 12
            && (not (any (λ n. n.editable || n.scrollable) (values obs.nodes))
                && (not (recoverable_unknown_observation obs)
                    && leb (length (keep (λ n. not (is_empty (node_label n))) (values obs.nodes)))
                        2))))

-- `_lookup_node`; an argument that is no number finds nothing.
unfoldable pub lookup_node : AgentObservation → Option ℕ → Option UiNode
lookup_node obs none = none
lookup_node obs (some id) = find ◌==◌ id obs.nodes

-- Is the node inside the parent's bounds?
unfoldable pub is_inside : UiNode → UiNode → Bool
is_inside parent n =
    is_some n.bounds
    && (lebℤ (box_of parent).left (box_of n).left
        && (lebℤ (box_of parent).top (box_of n).top
            && (lebℤ (box_of n).right (box_of parent).right
                && lebℤ (box_of n).bottom (box_of parent).bottom)))

-- `_node_with_label_inside`
unfoldable pub node_with_label_inside : AgentObservation → UiNode → Text → Option UiNode
unfolding values is_inside
node_with_label_inside obs parent label =
    if is_some parent.bounds
    then first (λ n. text_eq (node_label n) label && is_inside parent n) (values obs.nodes)
    else none

-- `_search_node_inside`
unfoldable pub search_node_inside : Python → AgentObservation → UiNode → Option UiNode
unfolding values is_inside
search_node_inside py obs parent =
    if is_some parent.bounds
    then first (λ n. looks_like_search_node py n && is_inside parent n) (values obs.nodes)
    else none
