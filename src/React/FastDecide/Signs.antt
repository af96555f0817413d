-- ===== src/React/FastDecide/Signs.antt =====
-- backend/app/ai/react_agent.py: what the signs that `_fast_decide` goes by say of the history and of the
-- screen.
use wecom_ai_agent.Prelude.{
  ◌≡◌, refl, ◌⊎◌, inl, inr, Bool, true, false, none, some, List, [], ◌∷◌, ◌++◌, ◌&&◌, not, arith,
  is_some, any, Member, Member-reverse_onto, reverse_onto, any-Member, Bool-cases, Option-cases,
  conflict,
}
use wecom_ai_agent.Prelude.Text.{Text, codes, text_eq}
use wecom_ai_agent.React.{UiNode, AgentObservation, AgentStep, node_label}
use wecom_ai_agent.React.Nodes.{values, find_message_input, in_target_chat, in_title}
use wecom_ai_agent.React.Echo.{is_action, role_is, last_of, last_success, last_success_step}
use wecom_ai_agent.React.FastDecide.{has_tapped}
use wecom_ai_agent.React.FastDecide.Decide.{in_wrong_chat}

-- A tap on the element with that role that succeeded.
abbrev pub IsTap : Text → AgentStep → Type 0
IsTap role s =
    (is_action (codes "tap_node") s ≡ true)
    × (s.ok ≡ true)
    × (role_is role s.args.locator_role ≡ true)

last_of-Member :
    (action role : Text) (steps : List AgentStep) (s : AgentStep)
    → last_of action (some role) steps ≡ some s
    → Member s steps
      × (is_action action s ≡ true)
      × (s.ok ≡ true)
      × (role_is role s.args.locator_role ≡ true)
unfolding last_of
last_of-Member action role [] s e = cc
last_of-Member action role (x ∷ xs) s e = ground (arith, last_of-Member action role xs s)

last_success_step-IsTap :
    (role : Text) (history : List AgentStep) (s : AgentStep)
    → last_success_step history (codes "tap_node") (some role) ≡ some s
    → Member s history × IsTap role s
unfolding last_success_step
last_success_step-IsTap role history s e =
    let (m, a, o, r) = last_of-Member (codes "tap_node") role (reverse_onto [] history) s e in
    elim (Member-reverse_onto [] history s m) [ inl n ↦ absurd n | inr n ↦ (n, (a, o, r)) ]

-- The step that `_last_success` goes by.
pub has_tapped-IsTap :
    (role : Text) (history : List AgentStep)
    → has_tapped role history ≡ true
    → (s : AgentStep) × (last_success_step history (codes "tap_node") (some role) ≡ some s)
      × Member s history
      × IsTap role s
unfolding last_success
has_tapped-IsTap role history h =
    elim (Option-cases (last_success_step history (codes "tap_node") (some role))) [
      | inl e ↦ absurd (ground arith)
      | inr (s, e) ↦ let (m, t) = last_success_step-IsTap role history s e in (s, e, m, t)
    ]

-- A tap that failed.
abbrev pub is_failed_tap : AgentStep → Bool
is_failed_tap s = is_action (codes "tap_node") s && not s.ok

last_of-kept :
    (role : Text) (acc after : List AgentStep)
    → any is_failed_tap after ≡ false
    → is_some (last_of (codes "tap_node") (some role) acc) ≡ true
    → is_some (last_of (codes "tap_node") (some role) (reverse_onto acc after)) ≡ true
last_of-kept role acc [] h k = k
last_of-kept role acc (s ∷ after) h k =
    last_of-kept role (s ∷ acc) after (ground arith) (unfold last_of in ground arith)

reverse_onto-append :
    {A : Type 0} (acc xs ys : List A)
    → reverse_onto acc (xs ++ ys) ≡ reverse_onto (reverse_onto acc xs) ys
reverse_onto-append acc [] ys = refl
reverse_onto-append acc (x ∷ xs) ys = reverse_onto-append (x ∷ acc) xs ys

-- A tap that succeeded counts as long as none has failed since.
pub has_tapped_of :
    (role : Text) (before after : List AgentStep) (s : AgentStep)
    → IsTap role s
    → any is_failed_tap after ≡ false
    → has_tapped role (before ++ s ∷ after) ≡ true
unfolding last_success last_success_step
has_tapped_of role before after s (a, o, r) h =
    rw (reverse_onto-append [] before (s ∷ after))
      (last_of-kept role (s ∷ reverse_onto [] before) after h (unfold last_of in rw (a, o, r)))

-- A node of the screen's title that is named as the contact.
abbrev pub InTitle : AgentObservation → Text → Type 0
InTitle obs target =
    (n : UiNode) × Member n (values obs.nodes)
    × (in_title obs n ≡ true)
    × (text_eq (node_label n) target ≡ true)

in_target_chat-InTitle :
    (obs : AgentObservation) (target : Text) → in_target_chat obs target ≡ true → InTitle obs target
unfolding in_target_chat
in_target_chat-InTitle obs target h =
    let (n, m, p) =
      any-Member (λ n. in_title obs n && text_eq (node_label n) target) (values obs.nodes)
        (ground arith) in
    (n, m, ground arith, ground arith)

-- Where a message may be typed: with no input box in sight, after a tap on the contact that succeeded, or
-- with the contact in the title.
abbrev pub MayType : Text → AgentObservation → List AgentStep → Type 0
MayType target obs history =
    (find_message_input obs ≡ none)
    ⊎ (((s : AgentStep) × Member s history × IsTap (codes "chat_target") s) ⊎ InTitle obs target)

pub in_wrong_chat-MayType :
    (target : Text) (obs : AgentObservation) (history : List AgentStep)
    → in_wrong_chat target obs history ≡ false
    → MayType target obs history
unfolding in_wrong_chat
in_wrong_chat-MayType target obs history h = elim (Option-cases (find_message_input obs)) [
  | inl e ↦ inl e
  | inr (n, e) ↦ elim (Bool-cases (has_tapped (codes "chat_target") history)) [
    | inl t ↦
        let (s, _, m, p) = has_tapped-IsTap (codes "chat_target") history t in inr (inl (s, m, p))
    | inr t ↦ elim (Bool-cases (in_target_chat obs target)) [
      | inl c ↦ inr (inr (in_target_chat-InTitle obs target c))
      | inr c ↦ conflict h (rw (e, t, c))
    ]
  ]
]
