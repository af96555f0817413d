-- ===== src/React.antt =====
-- backend/app/ai/react_agent.py: the agent that drives a phone towards a goal, step by step, with what
-- it sees (backend/app/device/protocol.py), what it has done and what it decides.
pub mod Tree
pub mod Nodes
pub mod Goals
pub mod Echo
pub mod FastDecide
pub mod Locators
pub mod Verdicts
pub mod Execute
pub mod Loop
use wecom_ai_agent.Prelude.{ℕ, Bool, Option, none, some, List, is_empty, if◌then◌else◌}
use wecom_ai_agent.Prelude.Int.{ℤ, ◌+ℤ◌, floor_div, pos}
use wecom_ai_agent.Prelude.Text.{Text, strip}

-- Of Python, what depends on the tables of Unicode: `str.lower`, `\w` and `repr`.
pub record Python : Type 0 where
  pub lower : Text → Text
  pub is_word : ℕ → Bool
  pub repr : Text → Text

-- Four bounds: left, top, right, bottom.
pub record Box : Type 0 where
  pub left : ℤ
  pub top : ℤ
  pub right : ℤ
  pub bottom : ℤ

-- `UiNode`; `bounds` is none if it has not four numbers.
pub record UiNode : Type 0 where
  pub id : ℕ
  pub cls : Text
  pub view_id : Text
  pub text : Text
  pub desc : Text
  pub clickable : Bool
  pub focusable : Bool
  pub editable : Bool
  pub scrollable : Bool
  pub bounds : Option Box

-- `UiNode.center`
unfoldable pub center : UiNode → ℤ × ℤ
center n = elim n.bounds [
  | none ↦ (pos 0, pos 0)
  | some box ↦ (floor_div (box.left +ℤ box.right) 2, floor_div (box.top +ℤ box.bottom) 2)
]

-- `_Observation`; `nodes` is the dict by id.
pub record AgentObservation : Type 0 where
  pub tree : Text
  pub nodes : List (ℕ × UiNode)
  pub screen_width : ℕ
  pub screen_height : ℕ
  pub input_panel_visible : Option Bool

-- The arguments of a decision that the code reads; a node id that is no number is one that no node has. `shown` is Python's `str` of the whole dict.
pub record Args : Type 0 where
  pub node_id : Option ℕ
  pub from_node_id : Option ℕ
  pub to_node_id : Option ℕ
  pub text : Option Text
  pub locator_role : Option Text
  pub direction : Option Text
  pub mode : Option Text
  pub duration_ms : Option ℤ
  pub timeout_ms : Option ℤ
  pub absent : Bool
  pub success : Bool
  pub summary : Option Text
  pub shown : Text

pub record AgentDecision : Type 0 where
  pub action : Text
  pub args : Args

pub record EchoStats : Type 0 where
  pub count : ℕ
  pub max_bottom : ℤ

-- `AgentStep`, with the two keys of `obs_meta`
pub record AgentStep : Type 0 where
  pub action : Text
  pub args : Args
  pub ok : Bool
  pub message : Text
  pub before_page : Option Text
  pub sent_echo_before : Option EchoStats

-- `(node.text or node.desc or "").strip()`
unfoldable pub node_label : UiNode → Text
node_label n = strip (if is_empty n.text then n.desc else n.text)
