-- ===== src/React/Execute.antt =====
-- backend/app/ai/react_agent.py, `_execute`, with the calls of backend/app/device/client.py as commands to
-- a phone whose answers are not the code's. A product with a
-- decimal is taken exact.
pub mod Swipes
pub mod Plans
pub mod Waiting
use wecom_ai_agent.Prelude.{
  ℕ, suc, zero, ◌+◌, ◌*◌, ◌/◌, Bool, true, false, Option, none, some, List, [], ◌∷◌, ◌++◌, ◌&&◌,
  ◌||◌, not, if◌then◌else◌, or_else, is_some, is_empty, any, leb,
}
use wecom_ai_agent.Prelude.Int.{
  ℤ, pos, negsuc, ◌+ℤ◌, ◌-ℤ◌, floor_div, clamp, minℤ, maxℤ, at_least_zero,
}
use wecom_ai_agent.Prelude.Text.{Text, codes, text_eq, strip, contains, show}
use wecom_ai_agent.React.{Python, UiNode, Box, AgentObservation, Args, center, node_label}
use wecom_ai_agent.React.Tree.{root_package, root_page}
use wecom_ai_agent.React.Nodes.{values, lookup_node, box_of}
use wecom_ai_agent.React.Verdicts.{Observed, panel_visible}

-- The calls of `DeviceClient`; a node is given with what it is expected to be.
pub data Command : Type 0 where
  tap_node : UiNode → ℤ × ℤ → Command
  long_press_node : UiNode → ℤ × ℤ → ℕ → Command
  double_tap_node : UiNode → ℤ × ℤ → Command
  drag_xy : ℤ × ℤ → ℤ × ℤ → ℕ → Command
  input_text : Text → Option UiNode → Text → Command
  swipe : ℤ × ℤ → ℤ × ℤ → ℕ → Command
  back home open_wecom : Command

-- The acknowledgement of a command, a time-out or another error, with its words
pub data Reply : Type 0 where
  acked : Bool → Text → Reply
  late : Text → Reply
  failed : Text → Reply

-- The phone and the clock, over the states `W` of what is outside the program. `sleep` waits for so
-- many milliseconds.
pub record Phone (W : Type 0) : Type 0 where
  pub observe : W → W × Observed
  pub perform : W → Command → W × Reply
  pub now : W → ℕ
  pub sleep : W → ℕ → W

-- `_coerce_duration_ms`; what is no number is none.
unfoldable pub coerce_duration_ms : Option ℤ → ℕ → ℕ → ℕ → ℕ
coerce_duration_ms value default min_ms max_ms = clamp min_ms max_ms (or_else value (pos default))

-- `_coerce_input_mode`
unfoldable pub coerce_input_mode : Python → Option Text → Text
coerce_input_mode py value =
    let given = or_else value [] in
    let mode = py.lower (strip (if is_empty given then codes "replace" else given)) in
    if text_eq mode (codes "replace")
      || (text_eq mode (codes "append") || text_eq mode (codes "clear"))
    then mode
    else codes "replace"

-- `_tree_has_text`
unfoldable pub tree_has_text : AgentObservation → Text → Bool
tree_has_text obs text =
    let needle = strip text in
    not (is_empty needle)
    && (any (λ (n : UiNode). contains needle n.text || contains needle n.desc) (values obs.nodes)
        || contains needle obs.tree)

abbrev pub show_int : ℤ → Text
show_int (pos n) = show n
show_int (negsuc n) = 45 ∷ show (suc n)

-- "(x,y)"
abbrev pub show_point : ℤ × ℤ → Text
show_point p = codes "(" ++ (show_int p.0 ++ (codes "," ++ (show_int p.1 ++ codes ")")))

abbrev pub show_id : Option ℕ → Text
show_id none = codes "None"
show_id (some id) = show id

-- f"tap_node({node.id}{label_part}) node_action_or_xy=({cx},{cy})", for the name of the action
unfoldable pub pressed : Python → Text → UiNode → Text
pressed py name n =
    name
    ++ (codes "("
        ++ (show n.id
            ++ ((if is_empty (node_label n) then [] else codes " label=" ++ py.repr (node_label n))
                ++ (codes ") node_action_or_xy=" ++ show_point (center n)))))

abbrev pub arrow : Text → Text → Text
arrow before message = before ++ (codes " -> " ++ message)

-- What an action does: it is refused, or a command is sent and its acknowledgement put into words.
pub data Plan : Type 0 where
  refused : Text → Plan
  sends : Command → (Text → Text) → Plan

-- A plan for the node with the id, if it is on the screen
unfoldable pub on_node : AgentObservation → Text → Option ℕ → (UiNode → Plan) → Plan
on_node obs name id plan = elim (lookup_node obs id) [
  | none ↦ refused (name ++ (codes "=" ++ (show_id id ++ codes " 不在 UI tree 中")))
  | some n ↦ plan n
]
