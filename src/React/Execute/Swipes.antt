-- ===== src/React/Execute/Swipes.antt =====
-- backend/app/ai/react_agent.py, `_execute`: where a swipe goes.
use wecom_ai_agent.Prelude.{
  ◌*◌, ◌/◌, Option, none, some, List, [], ◌∷◌, ◌&&◌, not, if◌then◌else◌, or_else, is_empty, leb,
}
use wecom_ai_agent.Prelude.Int.{ℤ, pos, ◌+ℤ◌, ◌-ℤ◌, floor_div, minℤ, maxℤ, at_least_zero}
use wecom_ai_agent.Prelude.Text.{Text, codes, text_eq}
use wecom_ai_agent.React.{Python, UiNode, Box, AgentObservation, Args}
use wecom_ai_agent.React.Nodes.{values, lookup_node}
use wecom_ai_agent.React.Execute.{Command, Plan, refused, sends}

-- The least box around both
unfoldable pub around : Option Box → Option Box → Option Box
around none rest = rest
around (some a) none = some a
around (some a) (some b) = some (record {
  left = minℤ a.left b.left;
  top = minℤ a.top b.top;
  right = maxℤ a.right b.right;
  bottom = maxℤ a.bottom b.bottom;
})

-- The least box around all nodes that have bounds
unfoldable pub hull : List UiNode → Option Box
hull [] = none
hull (n ∷ ns) = around n.bounds (hull ns)

-- `_swipe_region`
unfoldable pub swipe_region : AgentObservation → Box
swipe_region obs =
    if not (leb obs.screen_width 0) && not (leb obs.screen_height 0)
    then record {
      left = pos 0;
      top = pos (obs.screen_height * 15 / 100);
      right = pos obs.screen_width;
      bottom = pos (obs.screen_height * 85 / 100);
    }
    else elim (hull (values obs.nodes)) [
      | none ↦ record { left = pos 0; top = pos 0; right = pos 1; bottom = pos 1 }
      | some b ↦
          let height = at_least_zero (maxℤ (pos 1) (b.bottom -ℤ b.top)) in
          record {
            left = b.left;
            top = b.top +ℤ pos (height * 15 / 100);
            right = b.right;
            bottom = b.top +ℤ pos (height * 85 / 100);
          }
    ]

-- `_swipe_coords`, of the box to swipe inside
unfoldable pub swipe_coords : Text → Box → (ℤ × ℤ) × (ℤ × ℤ)
swipe_coords direction b =
    let cx = floor_div (b.left +ℤ b.right) 2 in
    let cy = floor_div (b.top +ℤ b.bottom) 2 in
    let dx = floor_div (b.right -ℤ b.left) 3 in
    let dy = floor_div (b.bottom -ℤ b.top) 3 in
    if text_eq direction (codes "up")
    then ((cx, cy +ℤ dy), (cx, cy -ℤ dy))
    else if text_eq direction (codes "down")
    then ((cx, cy -ℤ dy), (cx, cy +ℤ dy))
    else if text_eq direction (codes "left")
    then ((cx +ℤ dx, cy), (cx -ℤ dx, cy))
    else if text_eq direction (codes "right")
    then ((cx -ℤ dx, cy), (cx +ℤ dx, cy))
    else ((cx, cy +ℤ dy), (cx, cy -ℤ dy))

abbrev pub says : Text → Text
says message = message

abbrev pub swipe_inside : Text → Box → Plan
swipe_inside direction b =
    let ends = swipe_coords direction b in sends (Command.swipe ends.0 ends.1 280) says

-- A node without four bounds is the error of an unpacking, whose words are left out.
unfoldable pub swipe_plan : Python → Args → AgentObservation → Plan
swipe_plan py args obs =
    let given = or_else args.direction [] in
    let direction = py.lower (if is_empty given then codes "up" else given) in
    elim (lookup_node obs args.node_id) [
      | none ↦ swipe_inside direction (swipe_region obs)
      | some n ↦ elim n.bounds [
        | none ↦ refused (codes "exec error: ")
        | some b ↦ swipe_inside direction b
      ]
    ]
