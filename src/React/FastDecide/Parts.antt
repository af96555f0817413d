-- ===== src/React/FastDecide/Parts.antt =====
-- backend/app/ai/react_agent.py, `_fast_decide`: which parts of a send touch the screen, and which end it.
use wecom_ai_agent.Prelude.{
  conflict, ◌≡◌, refl, sym, ◌∙◌, ap, inl, inr, Bool, true, false, Option, none, some, List, ◌||◌,
  arith, if◌then◌else◌, or_else, Option-cases, if_elim,
}
use wecom_ai_agent.Prelude.Text.{Text, codes, text_eq}
use wecom_ai_agent.React.{Python, UiNode, AgentObservation, AgentStep}
use wecom_ai_agent.React.Tree.{is_chat_page}
use wecom_ai_agent.React.Goals.{ParsedSendGoal, parse_send_goal, parse_open_chat_goal}
use wecom_ai_agent.React.Echo.{last_success, SendVerdict}
use wecom_ai_agent.React.FastDecide.{
  LocatorMatch, Source, FastDecision, undecided, has_tapped, found, enter, tap_target, enter_target,
  enter_message, press_send, tap_search, scroll_once, look_for_target, decide, forget, done,
  swipe_up, tap,
}
use wecom_ai_agent.React.FastDecide.Decide.{
  before_send, by_verdict, go_to_wecom, decide_towards, fast_decide,
}

-- Does the decision take the action?
unfoldable pub acts : Text → FastDecision → Bool
unfolding text_eq
acts action fd = elim fd.decision [ none ↦ false | some d ↦ text_eq d.action action ]

-- Does the decision touch the screen: a tap, a text typed or a swipe?
unfoldable pub touches : FastDecision → Bool
unfolding acts
touches fd = acts (codes "tap_node") fd || (acts (codes "input_text") fd || acts (codes "swipe") fd)

-- Does the decision hold of what `_fast_decide` returns?
unfoldable pub returns : (FastDecision → Bool) → Option FastDecision → Bool
returns test none = false
returns test (some fd) = test fd

pub fast_decide-failed :
    (py : Python) (store : LocatorMatch) (goal : Text) (obs : AgentObservation)
    (history : List AgentStep) (parsed : ParsedSendGoal)
    → parse_send_goal goal ≡ some parsed
    → parse_open_chat_goal goal ≡ none
    → fast_decide py store goal obs history ≡ none
unfolding fast_decide
fast_decide-failed py store goal obs history parsed e f = rw (f, fast_decide, e)

pub fast_decide-some :
    (py : Python) (store : LocatorMatch) (goal : Text) (obs : AgentObservation)
    (history : List AgentStep) (parsed : ParsedSendGoal) (target : Text)
    → parse_send_goal goal ≡ some parsed
    → parse_open_chat_goal goal ≡ some target
    → fast_decide py store goal obs history
      ≡ some (decide_towards py store parsed.target (some parsed.text) obs history)
unfolding fast_decide
fast_decide-some py store goal obs history parsed target e f = rw (f, fast_decide, e)

-- A goal of a send is decided by its contact and its text, unless the assertion fails.
pub decided-of_parsed :
    (test : FastDecision → Bool) (py : Python) (store : LocatorMatch) (goal : Text)
    (obs : AgentObservation) (history : List AgentStep) (parsed : ParsedSendGoal)
    → parse_send_goal goal ≡ some parsed
    → returns test (fast_decide py store goal obs history) ≡ true
    → test (decide_towards py store parsed.target (some parsed.text) obs history) ≡ true
unfolding returns
decided-of_parsed test py store goal obs history parsed e h =
    elim (Option-cases (parse_open_chat_goal goal)) [
      | inl f ↦
          conflict (ap (returns test) (fast_decide-failed py store goal obs history parsed e f)) h
      | inr f ↦
          ap (returns test) (sym (fast_decide-some py store goal obs history parsed f.0 e f.1)) ∙ h
    ]

pub by_verdict-untouched :
    (py : Python) (target : Text) (obs : AgentObservation) (v : SendVerdict)
    → touches (by_verdict py target obs v) ≡ false
unfolding touches by_verdict done forget decide
by_verdict-untouched py target obs SendVerdict.sent_echo = refl
by_verdict-untouched py target obs SendVerdict.cleared = refl
by_verdict-untouched py target obs SendVerdict.still_filled = refl
by_verdict-untouched py target obs SendVerdict.unknown = ground arith

-- What holds of a verdict that is taken for a success.
unfoldable pub is_success : AgentObservation → SendVerdict → Bool
is_success obs SendVerdict.sent_echo = true
is_success obs SendVerdict.cleared = true
is_success obs SendVerdict.still_filled = false
is_success obs SendVerdict.unknown = is_chat_page obs

pub by_verdict-success :
    (py : Python) (target : Text) (obs : AgentObservation) (v : SendVerdict)
    → acts (codes "done") (by_verdict py target obs v) ≡ true
    → is_success obs v ≡ true
unfolding acts by_verdict done forget decide is_success
by_verdict-success py target obs SendVerdict.sent_echo h = refl
by_verdict-success py target obs SendVerdict.cleared h = refl
by_verdict-success py target obs SendVerdict.still_filled h = h
by_verdict-success py target obs SendVerdict.unknown h = ground arith

pub or_else-found :
    (action : Text) (c r : Option UiNode) (act : Source → UiNode → FastDecision)
    (rest : FastDecision)
    → ((by : Source) (n : UiNode) → acts action (act by n) ≡ false)
    → acts action rest ≡ false
    → acts action (or_else (found c r act) rest) ≡ false
unfolding found
or_else-found action (some n) r act rest f g = f Source.cache n
or_else-found action none (some n) act rest f g = f Source.rule n
or_else-found action none none act rest f g = g

pub tap-not_done :
    (role : Text) (by : Source) (n : UiNode) → acts (codes "done") (tap role by n) ≡ false
unfolding acts tap decide
tap-not_done role by n = refl

pub enter-not_done :
    (py : Python) (role text : Text) (by : Source) (n : UiNode)
    → acts (codes "done") (enter py role text by n) ≡ false
unfolding acts enter decide
enter-not_done py role text by n = refl

pub scroll_once-not_done :
    (obs : AgentObservation) (history : List AgentStep)
    → acts (codes "done") (scroll_once obs history) ≡ false
unfolding acts scroll_once swipe_up decide
scroll_once-not_done obs history = ground arith

pub look_for_target-not_done :
    (py : Python) (store : LocatorMatch) (target : Text) (obs : AgentObservation)
    (history : List AgentStep)
    → acts (codes "done") (look_for_target py store target obs history) ≡ false
unfolding look_for_target tap_target tap_search
look_for_target-not_done py store target obs history =
    or_else-found (codes "done") _ _ _ _ (tap-not_done (codes "chat_target")) (
      or_else-found (codes "done") _ _ _ _ (tap-not_done (codes "search_entry"))
        (scroll_once-not_done obs history))

pub or_else-enter_message-not_done :
    (py : Python) (store : LocatorMatch) (target text : Text) (obs : AgentObservation)
    (history : List AgentStep) (rest : FastDecision)
    → acts (codes "done") rest ≡ false
    → acts (codes "done") (or_else (enter_message py store target text obs history) rest) ≡ false
unfolding enter_message
or_else-enter_message-not_done py store target text obs history rest r =
    or_else-found (codes "done") _ _ _ rest (enter-not_done py (codes "message_input") text) r

pub or_else-enter_target-not_done :
    (py : Python) (store : LocatorMatch) (target : Text) (obs : AgentObservation)
    (history : List AgentStep)
    → acts (codes "done") (or_else (enter_target py store target obs history) undecided) ≡ false
unfolding enter_target acts
or_else-enter_target-not_done py store target obs history =
    or_else-found (codes "done") _ _ _ undecided (enter-not_done py (codes "search_input") target)
      refl

pub before_chat-not_done :
    (py : Python) (store : LocatorMatch) (target text : Text) (obs : AgentObservation)
    (history : List AgentStep) (searching : Bool)
    → acts (codes "done") (
        if searching
        then or_else (enter_target py store target obs history) undecided
        else or_else
            (enter_message py store target text obs history)
            (look_for_target py store target obs history))
      ≡ false
before_chat-not_done py store target text obs history true =
    or_else-enter_target-not_done py store target obs history
before_chat-not_done py store target text obs history false =
    or_else-enter_message-not_done py store target text obs history _
      (look_for_target-not_done py store target obs history)

pub or_else-if-not_done :
    (py : Python) (store : LocatorMatch) (target text : Text) (obs : AgentObservation)
    (history : List AgentStep) (in_chat : Bool) (rest : FastDecision)
    → acts (codes "done") rest ≡ false
    → acts
        (codes "done")
        (or_else (if in_chat then enter_message py store target text obs history else none) rest)
      ≡ false
or_else-if-not_done py store target text obs history true rest r =
    or_else-enter_message-not_done py store target text obs history rest r
or_else-if-not_done py store target text obs history false rest r = r

pub before_send-not_done :
    (py : Python) (store : LocatorMatch) (target text : Text) (obs : AgentObservation)
    (history : List AgentStep)
    → acts (codes "done") (before_send py store target text obs history) ≡ false
unfolding before_send tap_target press_send acts
before_send-not_done py store target text obs history =
    if_elim (λ fd. acts (codes "done") fd ≡ false) (last_success history (codes "input_text") none)
      (if_elim (λ fd. acts (codes "done") fd ≡ false)
        (last_success history (codes "input_text") (some (codes "search_input")))
        (or_else-found (codes "done") _ _ _ undecided (tap-not_done (codes "chat_target")) refl)
        (or_else-found (codes "done") _ _ _ undecided (tap-not_done (codes "send_button")) refl))
      (or_else-if-not_done py store target text obs history
        (has_tapped (codes "chat_target") history) _
        (before_chat-not_done py store target text obs history
          (has_tapped (codes "search_entry") history)))

pub go_to_wecom-not_done : (obs : AgentObservation) → acts (codes "done") (go_to_wecom obs) ≡ false
unfolding acts go_to_wecom decide
go_to_wecom-not_done obs = ground arith

pub send_or-not_done :
    (py : Python) (target : Text) (obs : AgentObservation) (b : Bool) (v : SendVerdict)
    (before : FastDecision)
    → acts (codes "done") before ≡ false
    → acts (codes "done") (if b then by_verdict py target obs v else before) ≡ true
    → (b ≡ true) × (is_success obs v ≡ true)
send_or-not_done py target obs true v before n h = (refl, by_verdict-success py target obs v h)
send_or-not_done py target obs false v before n h = conflict n h
