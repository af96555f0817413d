-- ===== src/React/Loop/Steps.antt =====
-- backend/app/ai/react_agent.py, `_run_react_inner`: what each part of a round adds to the history.
use wecom_ai_agent.Prelude.{
  leb, keep, Option-cases, inl, inr, first, ◌≤◌, ◌≡◌, refl, ap, subst, length, arith, if_elim,
  option_elim, length-append, ℕ, suc, ◌+◌, Bool, true, false, Option, none, some, List, [], ◌∷◌,
  ◌++◌, ◌&&◌, ◌||◌, not, is_some, reverse_onto,
}
use wecom_ai_agent.Prelude.Text.{contains, Text, codes, text_eq, strip}
use wecom_ai_agent.React.{Python, AgentObservation, Args, AgentDecision, AgentStep}
use wecom_ai_agent.React.Goals.{ParsedSendGoal, parse_open_chat_goal, parse_send_goal}
use wecom_ai_agent.React.Echo.{last_steps}
use wecom_ai_agent.React.FastDecide.{LocatorMatch, Source}
use wecom_ai_agent.React.FastDecide.Decide.{fast_decide}
use wecom_ai_agent.React.Verdicts.{is_back, guard_back, AgentResult, guard_decision}
use wecom_ai_agent.React.Execute.Waiting.{wait_ui}
use wecom_ai_agent.React.Loop.{
  Setting, Run, Turn, change_last, verified, goes_on, finished, crashed,
}
use wecom_ai_agent.React.Loop.Act.{execute, acted}
use wecom_ai_agent.React.Loop.Rounds.{concluded, final_send_verdict, out_of_rounds}

pub length-change_last :
    (f : AgentStep → AgentStep) (steps : List AgentStep)
    → length (change_last f steps) ≡ length steps
unfolding change_last
length-change_last f [] = refl
length-change_last f (s ∷ []) = refl
length-change_last f (s ∷ t ∷ ss) = ap suc (length-change_last f (t ∷ ss))

pub length-snoc :
    (steps : List AgentStep) (s : AgentStep) → length (steps ++ (s ∷ [])) ≡ suc (length steps)
length-snoc steps s = omega (arith, length-append steps (s ∷ []))

-- A round is not left by an error, and adds at most one step.
unfoldable pub Adds : {W : Type 0} → ℕ → Turn W → Type 0
Adds n (finished result) = length result.steps ≤ suc n
Adds n crashed = ⊥
Adds n (goes_on next) = length next.steps ≡ suc n

pub acted-Adds :
    {W : Type 0} (setting : Setting W) (from : Source) (action : Text) (args : Args)
    (obs : AgentObservation) (run : Run W) (outcome : W × (Bool × Text))
    → Adds (length run.steps) (acted setting from action args obs run outcome)
unfolding Adds acted
acted-Adds setting from action args obs run outcome = length-snoc run.steps _

-- A result that holds the given history
unfoldable pub Keeps : List AgentStep → Option AgentResult → Type 0
Keeps steps none = 0 ≤ 0
Keeps steps (some r) = r.steps ≡ steps

pub none-Keeps : (steps : List AgentStep) → Keeps steps none
unfolding Keeps
none-Keeps steps = omega arith

pub result-Keeps :
    (ok : Bool) (summary : Text) (steps : List AgentStep)
    → Keeps steps (some (record { ok = ok; summary = summary; steps = steps }))
unfolding Keeps
result-Keeps ok summary steps = refl

pub guard_back-Keeps : (msg : Text) (steps : List AgentStep) → Keeps steps (guard_back msg steps)
unfolding guard_back
guard_back-Keeps msg steps =
    let changed = contains (codes "上下文从") msg in
    let collapsed = contains (codes "输入面板已消失") msg in
    if_elim (Keeps steps) (collapsed && changed) (result-Keeps _ _ steps) (
      if_elim (Keeps steps) (collapsed && not changed) (none-Keeps steps) (
        if_elim (Keeps steps) (contains (codes "执行前后均未检测到输入面板") msg || changed)
          (result-Keeps _ _ steps)
          (if_elim (Keeps steps) (leb 2 (length (keep is_back (last_steps 3 steps))))
            (result-Keeps _ _ steps) (none-Keeps steps))))

pub guard_decision-Keeps :
    (d : AgentDecision) (steps : List AgentStep) → Keeps steps (guard_decision d steps)
unfolding guard_decision
guard_decision-Keeps d steps =
    if_elim (Keeps steps) (text_eq (strip d.action) (codes "back"))
      (option_elim (Keeps steps) (first is_back (reverse_onto [] steps)) (λ _. none-Keeps steps)
        (λ (s : AgentStep) _. guard_back-Keeps s.message steps))
      (none-Keeps steps)

pub guard_decision-steps :
    (d : AgentDecision) (steps : List AgentStep) (r : AgentResult)
    → guard_decision d steps ≡ some r
    → r.steps ≡ steps
unfolding Keeps
guard_decision-steps d steps r e = subst (Keeps steps) e (guard_decision-Keeps d steps)

pub length-of_steps : (a b : List AgentStep) → a ≡ b → length a ≤ suc (length b)
length-of_steps a b e = ground (arith, e, ap length e)

pub length-verified :
    {W : Type 0} (setting : Setting W) (obs : AgentObservation) (run : Run W)
    → length (verified setting obs run).steps ≡ length run.steps
unfolding verified
length-verified setting obs run = length-change_last _ run.steps

abbrev pub Ends : {W : Type 0} → Option (W × (Bool × Text)) → Type 0
Ends o = is_some o ≡ true

pub some-not_none : {A : Type 0} (o : Option A) → is_some o ≡ true → o ≡ none → ⊥
some-not_none none h e = absurd cc
some-not_none (some a) h e = absurd cc

pub turn_elim :
    {W B : Type 0} (P : B → Type 0) (t : Turn W) {f : AgentResult → B} {x : B} {g : Run W → B}
    → ((r : AgentResult) → t ≡ finished r → P (f r))
    → (t ≡ crashed → P x)
    → ((next : Run W) → t ≡ goes_on next → P (g next))
    → P (elim t [ finished r ↦ f r | crashed ↦ x | goes_on next ↦ g next ])
turn_elim P (finished r) p q h = p r refl
turn_elim P crashed p q h = q refl
turn_elim P (goes_on next) p q h = h next refl

pub execute-some :
    {W : Type 0} (setting : Setting W) (action : Text) (args : Args) (obs : AgentObservation)
    (w : W)
    → ((a : Args) (x : W) → is_some (wait_ui setting.py setting.phone a x) ≡ true)
    → is_some (execute setting action args obs w) ≡ true
unfolding execute
execute-some setting action args obs w h =
    if_elim Ends (text_eq action (codes "wait_ui")) (h args w) refl

opens-if_sends :
    (o : Option ParsedSendGoal) (otherwise : Option Text)
    → (is_some o && not (is_some (elim o [ some parsed ↦ some parsed.target | none ↦ otherwise ])))
      ≡ false
opens-if_sends none otherwise = refl
opens-if_sends (some parsed) otherwise = refl

-- The assertion of `_fast_decide` holds: a goal of a send is one that opens a chat.
is_consistent :
    (goal : Text)
    → (is_some (parse_send_goal goal) && not (is_some (parse_open_chat_goal goal))) ≡ false
unfolding parse_open_chat_goal parse_send_goal
is_consistent goal = opens-if_sends (parse_send_goal goal) _

pub fast_decide-total :
    (py : Python) (store : LocatorMatch) (goal : Text) (obs : AgentObservation)
    (steps : List AgentStep)
    → is_some (fast_decide py store goal obs steps) ≡ true
unfolding fast_decide
fast_decide-total py store goal obs steps = elim (Option-cases (parse_open_chat_goal goal)) [
  | inr f ↦ rw (f.1, fast_decide)
  | inl f ↦ rw (f, fast_decide, sent f)
]
  where
    h : (is_some (parse_send_goal goal) && not (is_some (parse_open_chat_goal goal))) ≡ false
    h = is_consistent goal

    sent : parse_open_chat_goal goal ≡ none → is_some (parse_send_goal goal) ≡ false
    sent f = ground (arith, f, h)

-- There is a result, with at most so many steps.
unfoldable pub EndsWithin : ℕ → Option AgentResult → Type 0
EndsWithin n o = (r : AgentResult) × (o ≡ some r) × (length r.steps ≤ n)

pub out_of_rounds-steps :
    {W : Type 0} (setting : Setting W) (max_steps : ℕ) (run : Run W)
    → (out_of_rounds setting max_steps run).steps ≡ run.steps
unfolding out_of_rounds concluded
out_of_rounds-steps setting max_steps run =
    option_elim (λ (r : AgentResult). r.steps ≡ run.steps)
      (final_send_verdict setting.goal (reverse_onto [] run.steps)
        (setting.phone.observe run.world).1)
      (λ _. refl) (λ final _. refl)

pub grown :
    {W : Type 0} (run : Run W) (left : ℕ) (next : Run W)
    → length next.steps ≡ suc (length run.steps)
    → (o : Option AgentResult) → EndsWithin (length next.steps + left) o
    → EndsWithin (length run.steps + suc left) o
unfolding EndsWithin
grown run left next e o (r, h, b) = (r, h, omega (arith, e, b))
