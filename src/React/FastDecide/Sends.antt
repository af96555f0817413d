-- ===== src/React/FastDecide/Sends.antt =====
-- backend/app/ai/react_agent.py, `_fast_decide`: what the rules and the learned locators do for a send.
use wecom_ai_agent.Prelude.{
  any, ◌++◌, ◌∷◌, conflict, ◌≡◌, ◌≢◌, refl, ap, true, false, some, List, ◌&&◌, not, arith, is_some,
  if_elim, if_cases,
}
use wecom_ai_agent.Prelude.Text.{Text, codes}
use wecom_ai_agent.React.{Python, AgentObservation, AgentStep}
use wecom_ai_agent.React.Tree.{is_wecom_tree, is_chat_page}
use wecom_ai_agent.React.Nodes.{find_message_input, in_target_chat}
use wecom_ai_agent.React.Goals.{ParsedSendGoal, parse_send_goal}
use wecom_ai_agent.React.FastDecide.{LocatorMatch, FastDecision, has_tapped, decide, forget}
use wecom_ai_agent.React.FastDecide.Decide.{
  after_send, before_send, send_verdict, go_to_wecom, in_wrong_chat, decide_towards, fast_decide,
}
use wecom_ai_agent.React.FastDecide.Signs.{
  IsTap, is_failed_tap, has_tapped_of, MayType, in_wrong_chat-MayType,
}
use wecom_ai_agent.React.FastDecide.Delivered.{Delivered, send_verdict-Delivered, parsed_text}
use wecom_ai_agent.React.FastDecide.Parts.{
  acts, touches, returns, decided-of_parsed, by_verdict-untouched, is_success, before_send-not_done,
  go_to_wecom-not_done, send_or-not_done,
}

pub decide_towards-done :
    (py : Python) (store : LocatorMatch) (target text : Text) (obs : AgentObservation)
    (history : List AgentStep)
    → acts (codes "done") (decide_towards py store target (some text) obs history) ≡ true
    → (has_tapped (codes "send_button") history ≡ true)
      × (is_success obs (send_verdict text obs history) ≡ true)
unfolding decide_towards acts decide forget after_send
decide_towards-done py store target text obs history =
    if_elim ends (not (is_wecom_tree obs.tree)) (λ h. conflict (go_to_wecom-not_done obs) h)
      (if_elim ends (in_wrong_chat target obs history) (λ h. conflict refl h)
        (if_elim ends
          (is_chat_page obs
            && (in_target_chat obs target && not (is_some (find_message_input obs))))
          (λ h. conflict refl h)
          (λ h.
            send_or-not_done py target obs (has_tapped (codes "send_button") history)
              (send_verdict text obs history) (before_send py store target text obs history)
              (before_send-not_done py store target text obs history) h)))
  where
    ends : FastDecision → Type 0
    ends fd =
        acts (codes "done") fd ≡ true
        → (has_tapped (codes "send_button") history ≡ true)
          × (is_success obs (send_verdict text obs history) ≡ true)

pub decide_towards-untouched :
    (py : Python) (store : LocatorMatch) (target text : Text) (obs : AgentObservation)
    (history : List AgentStep)
    → is_wecom_tree obs.tree ≡ true
    → has_tapped (codes "send_button") history ≡ true
    → touches (decide_towards py store target (some text) obs history) ≡ false
unfolding decide_towards touches acts decide forget after_send
decide_towards-untouched py store target text obs history w t =
    if_cases (λ fd. touches fd ≡ false) (not (is_wecom_tree obs.tree)) (λ n. conflict (ap not w) n)
      (λ _.
        if_elim (λ fd. touches fd ≡ false) (in_wrong_chat target obs history) refl
          (if_elim (λ fd. touches fd ≡ false)
            (is_chat_page obs
              && (in_target_chat obs target && not (is_some (find_message_input obs))))
            refl
            (if_cases (λ fd. touches fd ≡ false) (has_tapped (codes "send_button") history)
              (λ _. by_verdict-untouched py target obs (send_verdict text obs history))
              (λ f. conflict f t))))

pub go_to_wecom-input_text :
    (obs : AgentObservation) → acts (codes "input_text") (go_to_wecom obs) ≡ false
unfolding acts go_to_wecom decide
go_to_wecom-input_text obs = ground arith

pub decide_towards-input_text :
    (py : Python) (store : LocatorMatch) (target text : Text) (obs : AgentObservation)
    (history : List AgentStep)
    → acts (codes "input_text") (decide_towards py store target (some text) obs history) ≡ true
    → in_wrong_chat target obs history ≡ false
unfolding decide_towards acts decide
decide_towards-input_text py store target text obs history =
    if_elim types (not (is_wecom_tree obs.tree)) (λ h. conflict (go_to_wecom-input_text obs) h)
      (if_cases types (in_wrong_chat target obs history) (λ _ h. conflict refl h) (λ n h. n))
  where
    types : FastDecision → Type 0
    types fd = acts (codes "input_text") fd ≡ true → in_wrong_chat target obs history ≡ false

-- The rules end a send of a text as done only after a tap on the send button that succeeded, and only if
-- the screen shows a new bubble of our own side with the text (more of them than when the button was
-- pressed, or one that stands lower), or an input box that is empty or does not hold the text, or no
-- input box on a page that is a chat.
pub fast_decide-done :
    (py : Python) (store : LocatorMatch) (goal : Text) (obs : AgentObservation)
    (history : List AgentStep) (parsed : ParsedSendGoal)
    → parse_send_goal goal ≡ some parsed
    → returns (acts (codes "done")) (fast_decide py store goal obs history) ≡ true
    → Delivered parsed.text obs history
fast_decide-done py store goal obs history parsed e h =
    let (t, v) =
      decide_towards-done py store parsed.target parsed.text obs history
        (decided-of_parsed (acts (codes "done")) py store goal obs history parsed e h) in
    send_verdict-Delivered parsed.text obs history (parsed_text goal parsed e) t v

-- After a tap on the send button that succeeded, with no tap that failed since then, no rule and no
-- learned locator taps, types or swipes again for that send while WeCom is in front.
pub fast_decide-untouched :
    (py : Python) (store : LocatorMatch) (goal : Text) (obs : AgentObservation)
    (before after : List AgentStep) (s : AgentStep) (parsed : ParsedSendGoal)
    → parse_send_goal goal ≡ some parsed
    → is_wecom_tree obs.tree ≡ true
    → IsTap (codes "send_button") s
    → any is_failed_tap after ≡ false
    → returns touches (fast_decide py store goal obs (before ++ s ∷ after)) ≢ true
fast_decide-untouched py store goal obs before after s parsed e w t f h =
    conflict
      (decide_towards-untouched py store parsed.target parsed.text obs (before ++ s ∷ after) w
        (has_tapped_of (codes "send_button") before after s t f))
      (decided-of_parsed touches py store goal obs (before ++ s ∷ after) parsed e h)

-- For a send, the rules and the learned locators type a text only with no input box in sight, or after a
-- tap of this run on the contact that succeeded, or with a node in the title that is named as the
-- contact.
pub fast_decide-input_text :
    (py : Python) (store : LocatorMatch) (goal : Text) (obs : AgentObservation)
    (history : List AgentStep) (parsed : ParsedSendGoal)
    → parse_send_goal goal ≡ some parsed
    → returns (acts (codes "input_text")) (fast_decide py store goal obs history) ≡ true
    → MayType parsed.target obs history
fast_decide-input_text py store goal obs history parsed e h =
    in_wrong_chat-MayType parsed.target obs history (
      decide_towards-input_text py store parsed.target parsed.text obs history
        (decided-of_parsed (acts (codes "input_text")) py store goal obs history parsed e h))
