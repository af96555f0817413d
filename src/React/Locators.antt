-- ===== src/React/Locators.antt =====
-- backend/app/ai/react_locators.py, `LocatorStore`: the locators that the agent has learned on a device.
-- A ratio to the screen is kept as the code rounds it, in ten-thousandths; ratios and their differences
-- are taken exact. The cache's file, the artifacts and what an entry holds only for people are left out.
pub mod Cache
pub mod Roles
pub mod Forgetting
pub mod Best
pub mod Learning
use wecom_ai_agent.Prelude.{
  ℕ, suc, ◌+◌, ◌*◌, ◌/◌, ◌%◌, Bool, true, false, Option, none, some, List, [], ◌∷◌, ◌++◌, ◌==◌,
  ◌&&◌, ◌||◌, not, if◌then◌else◌, or_else, is_some, is_empty, any, keep, first, leb, ltb, take, map,
}
use wecom_ai_agent.Prelude.Int.{ℤ, pos, negsuc, ◌-ℤ◌, lebℤ, ltbℤ, times, pos_part, neg_part}
use wecom_ai_agent.Prelude.Text.{Text, codes, text_eq, strip, contains}
use wecom_ai_agent.React.{Python, UiNode, Box, AgentObservation, Args, node_label}
use wecom_ai_agent.React.Nodes.{values, is_label}
use wecom_ai_agent.React.Goals.{ParsedSendGoal, parse_send_goal, parse_send_media_goal}

-- The columns of a robot that its fingerprint is read from, `_HARD_FP_FIELDS`
pub record Device : Type 0 where
  pub device_type : Option Text
  pub manufacturer : Option Text
  pub model : Option Text
  pub app_version : Option Text

-- `_norm_str`
unfoldable pub norm_str : Option Text → Option Text
norm_str none = none
norm_str (some value) = if is_empty (strip value) then none else some (strip value)

-- `_device_fingerprint`, its hard part
unfoldable pub device_fingerprint : Device → Device
device_fingerprint robot = record {
  device_type = norm_str robot.device_type;
  manufacturer = norm_str robot.manufacturer;
  model = norm_str robot.model;
  app_version = norm_str robot.app_version;
}

abbrev pub same : Option Text → Option Text → Bool
same none none = true
same (some s) (some t) = text_eq s t
same _ _ = false

-- `_fingerprint_matches`; a cached fingerprint that is no dict is none.
unfoldable pub fingerprint_matches : Option Device → Device → Bool
fingerprint_matches none current = false
fingerprint_matches (some cached) current =
    same cached.device_type current.device_type
    && (same cached.manufacturer current.manufacturer
        && (same cached.model current.model && same cached.app_version current.app_version))

-- The part "match" of a locator; `goal_target` says that `text_mode` is "goal_target".
pub record Spec : Type 0 where
  pub cls : Text
  pub view_id : Text
  pub text : Text
  pub goal_target : Bool
  pub editable : Bool
  pub clickable : Bool
  pub focusable : Bool
  pub scrollable : Bool
  pub bounds_ratio : Option Box

pub record Locator : Type 0 where
  pub role : Text
  pub action : Text
  pub source : Text
  pub enabled : Bool
  pub created_at : ℕ
  pub updated_at : ℕ
  pub success_count : ℕ
  pub failure_count : ℕ
  pub spec : Spec
  pub device_fingerprint : Device

-- `LocatorStore.data`
pub record Data : Type 0 where
  pub device_fingerprint : Option Device
  pub locators : List Locator

-- `round(10000 * n / w)`, half to even
unfoldable pub rounded : ℕ → ℕ → ℕ
rounded n w =
    let q = 10000 * n / w in
    let r = 10000 * n % w in if ltb (2 * r) w || ((2 * r == w) && (q % 2 == 0)) then q else suc q

unfoldable pub ratio : ℤ → ℕ → ℤ
ratio (pos n) w = pos (rounded n w)
ratio (negsuc n) w = pos 0 -ℤ pos (rounded (suc n) w)

-- `_to_ratio`, of bounds that are [0, 0, 0, 0] for a node without
unfoldable pub to_ratio : Box → ℕ → ℕ → Option Box
to_ratio b w h =
    if leb w 0 || leb h 0
    then none
    else some (record {
      left = ratio b.left w;
      top = ratio b.top h;
      right = ratio b.right w;
      bottom = ratio b.bottom h;
    })

abbrev pub distance : ℤ → ℤ → ℕ
distance a b = pos_part (a -ℤ b) + neg_part (a -ℤ b)

-- `_bounds_close`
unfoldable pub bounds_close : Option Box → Option Box → ℕ → ℕ → Bool
bounds_close (some e) (some a) w h =
    not (leb w 0 || leb h 0)
    && (not (any (λ v. ltbℤ (pos 15000) v) (e.left ∷ e.top ∷ e.right ∷ e.bottom ∷ []))
        && leb
            (h
                * (distance (times w e.left) (times 10000 a.left)
                    + distance (times w e.right) (times 10000 a.right))
              + w
                * (distance (times h e.top) (times 10000 a.top)
                    + distance (times h e.bottom) (times 10000 a.bottom)))
            (1200 * (w * h)))
bounds_close _ _ w h = false

abbrev pub weight : Bool → ℕ → ℕ
weight b n = if b then n else 0

abbrev pub agree : Bool → Bool → Bool
agree true b = b
agree false b = not b

-- The text that a node must have, if it is not blank: the goal's contact, or the learned label
abbrev pub expected_text : Spec → Text → Text
expected_text spec target = if spec.goal_target then target else spec.text

-- Something learned, and neither the class nor the view's id is the same
abbrev pub is_unanchored : Spec → UiNode → Bool
is_unanchored spec node =
    (not (is_empty spec.cls) || not (is_empty spec.view_id))
    && (not (not (is_empty spec.cls) && text_eq node.cls spec.cls)
        && not (not (is_empty spec.view_id) && text_eq node.view_id spec.view_id))

-- The score beyond the text's
unfoldable pub structure_score : Spec → UiNode → AgentObservation → ℕ
structure_score spec node obs =
    weight (not (is_empty spec.view_id) && text_eq node.view_id spec.view_id) 30
    + weight (not (is_empty spec.cls) && text_eq node.cls spec.cls) 18
    + weight (agree spec.editable node.editable) 25
    + weight (agree spec.clickable node.clickable) 12
    + weight (agree spec.focusable node.focusable) 8
    + weight (agree spec.scrollable node.scrollable) 8
    + weight (bounds_close spec.bounds_ratio node.bounds obs.screen_width obs.screen_height) 16

-- `_score_node`
unfoldable pub score_node : Spec → UiNode → Text → AgentObservation → ℕ
score_node spec node target obs =
    let texted = not (is_empty (expected_text spec target)) in
    if texted && not (text_eq (node_label node) (expected_text spec target))
    then 0
    else if is_unanchored spec node
    then 0
    else weight texted 45 + structure_score spec node obs

-- `_TEXTUAL_ROLES`
abbrev pub is_textual : Text → Bool
is_textual role =
    any (λ t. text_eq role t)
      (codes "send_button"
        ∷ codes "chat_target"
        ∷ codes "search_entry"
        ∷ codes "media_picker_entry"
        ∷ codes "gallery_send_button"
        ∷ [])

abbrev pub zero_box : Box
zero_box = record { left = pos 0; top = pos 0; right = pos 0; bottom = pos 0 }

-- `_locator_from_node`, its part "match"
unfoldable pub spec_from_node : Text → UiNode → AgentObservation → Spec
spec_from_node role node obs = record {
  cls = node.cls;
  view_id = node.view_id;
  text = if is_textual role then node_label node else [];
  goal_target = text_eq role (codes "chat_target");
  editable = node.editable;
  clickable = node.clickable;
  focusable = node.focusable;
  scrollable = node.scrollable;
  bounds_ratio = to_ratio (or_else node.bounds zero_box) obs.screen_width obs.screen_height;
}

-- The node, or a later one that scores higher or as high and stands higher on the screen
unfoldable pub prefer : Spec → Text → AgentObservation → UiNode → Option UiNode → Option UiNode
prefer spec target obs n none = some n
prefer spec target obs n (some m) =
    if ltb (score_node spec n target obs) (score_node spec m target obs)
      || ((score_node spec n target obs == score_node spec m target obs)
          && ltbℤ (or_else m.bounds zero_box).top (or_else n.bounds zero_box).top)
    then some m
    else some n

-- The first, in the order of `scored.sort(...)`, of the nodes that score 70 or more
unfoldable pub best : Spec → Text → AgentObservation → List UiNode → Option UiNode
best spec target obs [] = none
best spec target obs (n ∷ ns) =
    let rest = best spec target obs ns in
    if ltb (score_node spec n target obs) 70 then rest else prefer spec target obs n rest

-- `_match_entry`
unfoldable pub match_entry : Locator → Text → AgentObservation → Option UiNode
match_entry entry target obs = best entry.spec target obs (values obs.nodes)
