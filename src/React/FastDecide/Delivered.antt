-- ===== src/React/FastDecide/Delivered.antt =====
-- backend/app/ai/react_agent.py, `_verify_send_cleared`: what it says of the screen when a send counts as
-- done.
use wecom_ai_agent.Prelude.{
  ◌≡◌, refl, sym, ◌∙◌, ap, ◌⊎◌, inl, inr, Bool, true, false, Option, none, some, List, [], ◌∷◌,
  ◌&&◌, ◌||◌, arith, is_some, is_empty, length, ltb, Member, Member-keep, Bool-cases, Option-cases,
  subst, if_elim, if◌then◌else◌,
}
use wecom_ai_agent.Prelude.Int.{pos, ltbℤ, ◌+ℤ◌}
use wecom_ai_agent.Prelude.Text.{Text, codes, text_eq, strip, contains, strip_idem}
use wecom_ai_agent.React.{UiNode, AgentObservation, AgentStep, EchoStats}
use wecom_ai_agent.React.Tree.{is_chat_page}
use wecom_ai_agent.React.Nodes.{values, least, least_from, box_of, find_message_input}
use wecom_ai_agent.React.Goals.{
  ParsedSendGoal, parse_send_goal, send_of, search_goal, after_send_words,
}
use wecom_ai_agent.React.Echo.{
  in_own_region, is_lower, sent_message_echo_candidates, find_new_sent_message_echo,
  verify_send_cleared,
}
use wecom_ai_agent.React.FastDecide.{has_tapped}
use wecom_ai_agent.React.FastDecide.Decide.{send_verdict}
use wecom_ai_agent.React.FastDecide.Parts.{is_success}
use wecom_ai_agent.React.FastDecide.Signs.{IsTap, has_tapped-IsTap}

least_from-Member :
    (before : UiNode → UiNode → Bool) (n a : UiNode) (ns : List UiNode)
    → least_from before n ns ≡ a
    → Member a (n ∷ ns)
unfolding least_from
least_from-Member before n a [] e = inl (sym e)
least_from-Member before n a (m ∷ ms) e = elim (Bool-cases (before m n)) [
  | inl b ↦ inr (least_from-Member before m a ms (simp b at e))
  | inr b ↦ elim (least_from-Member before n a ms (simp b at e)) [
    | inl p ↦ inl p
    | inr p ↦ inr (inr p)
  ]
]

least-Member :
    (before : UiNode → UiNode → Bool) (a : UiNode) (ns : List UiNode)
    → least before ns ≡ some a
    → Member a ns
unfolding least
least-Member before a [] e = cc
least-Member before a (n ∷ ns) e = least_from-Member before n a ns (node-inj e)
  where
    node-inj : {x y : UiNode} → some x ≡ some y → x ≡ y
    node-inj p = cc

-- A bubble of our own side that shows the text and was not there when the button was pressed: there are
-- more of them than then, or the lowest one stands lower.
pub record IsNewBubble (obs : AgentObservation) (text : Text) (n : UiNode) (baseline : EchoStats)
    : Type 0 where
  pub member : Member n (values obs.nodes)
  pub same_text : text_eq (strip n.text) (strip text) ≡ true
  pub own_side : in_own_region obs n ≡ true
  pub new :
      (ltb baseline.count (length (sent_message_echo_candidates obs text))
        || (ltb 0 baseline.count && ltbℤ (baseline.max_bottom +ℤ pos 16) (box_of n).bottom))
      ≡ true

candidate :
    (obs : AgentObservation) (text : Text) (n : UiNode)
    → Member n (sent_message_echo_candidates obs text)
    → Member n (values obs.nodes)
      × (text_eq (strip n.text) (strip text) ≡ true)
      × (in_own_region obs n ≡ true)
unfolding sent_message_echo_candidates
candidate obs text n m =
    if_elim ends (is_empty (strip text)) (λ k. absurd k)
      (λ k.
        let (q, h) = Member-keep passes (values obs.nodes) n k in (q, ground arith, ground arith))
      m
  where
    passes : UiNode → Bool
    passes x = is_some x.bounds && (text_eq (strip x.text) (strip text) && in_own_region obs x)

    ends : List UiNode → Type 0
    ends ns =
        Member n ns
        → Member n (values obs.nodes)
          × (text_eq (strip n.text) (strip text) ≡ true)
          × (in_own_region obs n ≡ true)

-- What `_find_new_sent_message_echo` finds.
found_echo :
    (obs : AgentObservation) (text : Text) (o : Option EchoStats) (n : UiNode)
    → find_new_sent_message_echo obs text o ≡ some n
    → (baseline : EchoStats) × (o ≡ some baseline) × IsNewBubble obs text n baseline
unfolding find_new_sent_message_echo
found_echo obs text none n e = cc
found_echo obs text (some baseline) n e =
    elim (Option-cases (least is_lower (sent_message_echo_candidates obs text))) [
      | inl f ↦ absurd (ground (arith, f, e))
      | inr (newest, f) ↦
          (baseline, refl, bubble newest f (simp (find_new_sent_message_echo, f) at e))
    ]
  where
    is_new : UiNode → Bool
    is_new x =
        ltb baseline.count (length (sent_message_echo_candidates obs text))
        || (ltb 0 baseline.count && ltbℤ (baseline.max_bottom +ℤ pos 16) (box_of x).bottom)

    node-inj : {x y : UiNode} → some x ≡ some y → x ≡ y
    node-inj p = cc

    bubble :
        (newest : UiNode)
        → least is_lower (sent_message_echo_candidates obs text) ≡ some newest
        → (if is_new newest then some newest else none) ≡ some n
        → IsNewBubble obs text n baseline
    bubble newest f h = elim (Bool-cases (is_new newest)) [
      | inr b ↦ absurd (ground (arith, b, h))
      | inl b ↦
          let (m, t, o) =
            candidate obs text newest
              (least-Member is_lower newest (sent_message_echo_candidates obs text) f) in
          let same : newest ≡ n = node-inj (simp b at h) in
          subst (λ x. IsNewBubble obs text x baseline) same
            (record { member = m; same_text = t; own_side = o; new = b })
    ]

-- The signs on the screen that a text was sent: its new bubble, an input box that is empty or no longer
-- holds it, or a chat page with no input box in sight.
abbrev pub Shows : AgentObservation → Text → Option EchoStats → Type 0
Shows obs text o =
    ((n : UiNode) × (baseline : EchoStats) × (o ≡ some baseline) × IsNewBubble obs text n baseline)
    ⊎ (((n : UiNode) × (find_message_input obs ≡ some n)
          × ((is_empty (strip n.text) ≡ true) ⊎ (contains (strip text) (strip n.text) ≡ false)))
        ⊎ ((find_message_input obs ≡ none) × (is_chat_page obs ≡ true)))

verify_send_cleared-Shows :
    (obs : AgentObservation) (text : Text) (o : Option EchoStats)
    → is_empty (strip text) ≡ false
    → is_success obs (verify_send_cleared obs text o) ≡ true
    → Shows obs text o
unfolding verify_send_cleared is_success
verify_send_cleared-Shows obs text o k h =
    elim (Option-cases (find_new_sent_message_echo obs text o)) [
      | inr (n, e) ↦ let (baseline, p, b) = found_echo obs text o n e in inl (n, baseline, p, b)
      | inl e ↦ elim (Option-cases (find_message_input obs)) [
        | inl f ↦ inr (inr (f, simp (verify_send_cleared, e, f, is_success) at h))
        | inr (n, f) ↦ elim (Bool-cases (is_empty (strip n.text))) [
          | inl b ↦ inr (inl (n, f, inl b))
          | inr b ↦ elim (Bool-cases (contains (strip text) (strip n.text))) [
            | inr c ↦ inr (inl (n, f, inr c))
            | inl c ↦ absurd (ground (arith, e, f, b, c, k, h))
          ]
        ]
      ]
    ]

of_match :
    (o : Option (Text × Text)) (parsed : ParsedSendGoal)
    → send_of o ≡ some parsed
    → is_empty (strip parsed.text) ≡ false
unfolding send_of
of_match none parsed e = cc
of_match (some (target, text)) parsed e = elim (Bool-cases (is_empty (strip text))) [
  | inl b ↦ ground (arith, b, e)
  | inr b ↦ elim (Bool-cases (is_empty (strip target))) [
    | inl c ↦ absurd (ground (arith, c, e))
    | inr c ↦
        let p : parsed.text ≡ strip text = text_of (simp (c, b) at e) in
        rw p (ap is_empty (strip_idem text) ∙ b)
  ]
]
  where
    text_of :
        some (record { target = strip target; text = strip text }) ≡ some parsed
        → parsed.text ≡ strip text
    text_of p = cc

-- The text of a goal is not blank.
pub parsed_text :
    (goal : Text) (parsed : ParsedSendGoal)
    → parse_send_goal goal ≡ some parsed
    → is_empty (strip parsed.text) ≡ false
unfolding parse_send_goal
parsed_text goal parsed e = of_match (search_goal after_send_words goal) parsed e

-- What a run that ends as done has done and sees.
abbrev pub Delivered : Text → AgentObservation → List AgentStep → Type 0
Delivered text obs history =
    (s : AgentStep) × Member s history
    × IsTap (codes "send_button") s
    × Shows obs text s.sent_echo_before

pub send_verdict-Delivered :
    (text : Text) (obs : AgentObservation) (history : List AgentStep)
    → is_empty (strip text) ≡ false
    → has_tapped (codes "send_button") history ≡ true
    → is_success obs (send_verdict text obs history) ≡ true
    → Delivered text obs history
unfolding send_verdict
send_verdict-Delivered text obs history k t h =
    let (s, e, m, p) = has_tapped-IsTap (codes "send_button") history t in
    (s, m, p, verify_send_cleared-Shows obs text s.sent_echo_before k (simp e at h))
