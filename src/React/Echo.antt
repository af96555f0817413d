-- ===== src/React/Echo.antt =====
-- backend/app/ai/react_agent.py: the signs by which the agent tells whether a message went out, and
-- whether it is stuck.
use wecom_ai_agent.Prelude.{
  ℕ, ◌*◌, Bool, true, false, Option, none, some, List, [], ◌∷◌, ◌==◌, ◌&&◌, ◌||◌, not,
  if◌then◌else◌, or_else, is_some, is_empty, any, keep, ltb, length, reverse_onto, take,
}
use wecom_ai_agent.Prelude.Int.{pos, ltbℤ, lebℤ, ◌+ℤ◌, times}
use wecom_ai_agent.Prelude.Text.{Text, codes, text_eq, strip, contains}
use wecom_ai_agent.React.{UiNode, AgentObservation, AgentStep, EchoStats}
use wecom_ai_agent.React.Nodes.{values, least, box_of, find_message_input}

-- Where our own bubbles stand: right of 42% of the width, and between 10% and 94% of the height.
abbrev pub in_own_region : AgentObservation → UiNode → Bool
in_own_region obs n =
    not (ltb 0 obs.screen_width && ltb 0 obs.screen_height)
    || (lebℤ (pos (84 * obs.screen_width)) (times 100 ((box_of n).left +ℤ (box_of n).right))
        && (lebℤ (pos obs.screen_height) (times 10 (box_of n).top)
            && lebℤ (times 100 (box_of n).bottom) (pos (94 * obs.screen_height))))

-- `_sent_message_echo_candidates`
unfoldable pub sent_message_echo_candidates : AgentObservation → Text → List UiNode
unfolding values strip text_eq ◌+ℤ◌
sent_message_echo_candidates obs sent_text =
    if is_empty (strip sent_text)
    then []
    else keep
        (λ n. is_some n.bounds && (text_eq (strip n.text) (strip sent_text) && in_own_region obs n))
        (values obs.nodes)

abbrev pub is_lower : UiNode → UiNode → Bool
is_lower m n = ltbℤ (box_of n).bottom (box_of m).bottom

-- `_sent_message_echo_stats`
unfoldable pub sent_message_echo_stats : AgentObservation → Text → EchoStats
unfolding sent_message_echo_candidates least
sent_message_echo_stats obs sent_text =
    let candidates = sent_message_echo_candidates obs sent_text in
    elim (least is_lower candidates) [
      | none ↦ record { count = 0; max_bottom = pos 0 }
      | some n ↦ record { count = length candidates; max_bottom = (box_of n).bottom }
    ]

-- `_find_new_sent_message_echo`
unfoldable pub find_new_sent_message_echo :
    AgentObservation → Text → Option EchoStats → Option UiNode
unfolding sent_message_echo_candidates least
find_new_sent_message_echo obs sent_text none = none
find_new_sent_message_echo obs sent_text (some baseline) =
    let candidates = sent_message_echo_candidates obs sent_text in
    elim (least is_lower candidates) [
      | none ↦ none
      | some newest ↦
          if ltb baseline.count (length candidates)
            || (ltb 0 baseline.count && ltbℤ (baseline.max_bottom +ℤ pos 16) (box_of newest).bottom)
          then some newest
          else none
    ]

pub data SendVerdict : Type 0 where
  sent_echo cleared still_filled unknown : SendVerdict

-- `_verify_send_cleared`
unfoldable pub verify_send_cleared : AgentObservation → Text → Option EchoStats → SendVerdict
verify_send_cleared obs sent_text baseline =
    if is_some (find_new_sent_message_echo obs sent_text baseline)
    then sent_echo
    else elim (find_message_input obs) [
      | none ↦ unknown
      | some node ↦
          if is_empty (strip node.text)
          then cleared
          else if not (is_empty (strip sent_text)) && contains (strip sent_text) (strip node.text)
          then still_filled
          else cleared
    ]

abbrev pub is_action : Text → AgentStep → Bool
is_action action s = text_eq s.action action

abbrev pub role_is : Text → Option Text → Bool
role_is role none = false
role_is role (some r) = text_eq r role

-- The last step with that action that has the role, up to the last one that failed; `steps` is the
-- history from its end. `role` is none for any role.
unfoldable pub last_of : Text → Option Text → List AgentStep → Option AgentStep
unfolding text_eq
last_of action role [] = none
last_of action role (s ∷ steps) =
    let rest = last_of action role steps in
    if not (is_action action s)
    then rest
    else if not s.ok
    then none
    else if is_some role && not (role_is (or_else role []) s.args.locator_role)
    then rest
    else some s

-- `_last_success_step`
unfoldable pub last_success_step : List AgentStep → Text → Option Text → Option AgentStep
unfolding last_of
last_success_step history action role = last_of action role (reverse_onto [] history)

-- `_last_success`
unfoldable pub last_success : List AgentStep → Text → Option Text → Bool
last_success history action role = is_some (last_success_step history action role)

abbrev pub last_steps : ℕ → List AgentStep → List AgentStep
last_steps n steps = take n (reverse_onto [] steps)

-- `_stuck_opening_wecom`
unfoldable pub stuck_opening_wecom : List AgentStep → Bool
stuck_opening_wecom history =
    let recent = last_steps 2 history in
    (length recent == 2)
    && not (any (λ s. not (is_action (codes "open_wecom") s && not s.ok)) recent)

abbrev same_id : Option ℕ → Option ℕ → Bool
same_id none none = true
same_id (some a) (some b) = a == b
same_id _ _ = false

abbrev same_page : Option Text → Option Text → Bool
same_page (some a) (some b) = text_eq a b
same_page _ _ = false

-- `_stuck_repeating`, for the last three steps
unfoldable pub stuck_repeating : List AgentStep → Bool
unfolding text_eq
stuck_repeating steps = repeats (last_steps 3 steps)
  where
    same_step : AgentStep → AgentStep → Bool
    same_step a b =
        text_eq a.action b.action
        && (same_id a.args.node_id b.args.node_id && same_page a.before_page b.before_page)

    repeats : List AgentStep → Bool
    repeats (a ∷ b ∷ c ∷ []) = same_step a b && same_step a c
    repeats _ = false
