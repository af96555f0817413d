-- ===== src/React/Verdicts/Guard.antt =====
-- backend/app/ai/react_agent.py, `_guard_decision`: a second way back after one that has left the page.
use wecom_ai_agent.Prelude.{
  ◌≡◌, refl, ap, ◌∙◌, true, false, some, List, [], ◌∷◌, ◌++◌, is_empty, reverse_onto, arith,
}
use wecom_ai_agent.Prelude.Text.{
  Text, codes, text_eq, strip, contains, contains-append, contains-later,
}
use wecom_ai_agent.React.{Python, AgentObservation, AgentDecision, AgentStep}
use wecom_ai_agent.React.Tree.{root_package, message_field, message_bool}
use wecom_ai_agent.React.Echo.{is_action}
use wecom_ai_agent.React.Verdicts.{
  AgentResult, panel_visible, panel_verdict, page_verdict, join_parts, post_back_verdict, annotated,
  is_back, guard_back, guard_decision,
}

-- The words of the verdict on a `back` that closed the keyboard and left the package.
left_words : Text → Text → Text
left_words before_pkg cur_pkg =
    codes "输入面板已消失"
    ++ (codes "；" ++ (codes "上下文从 pkg=" ++ (before_pkg ++ (codes " 变为 pkg=" ++ cur_pkg))))

post_back_verdict-left :
    (py : Python) (s : AgentStep) (obs : AgentObservation) (before_pkg : Text)
    → message_bool py s.message (codes "before_input_panel") ≡ some true
    → panel_visible obs ≡ false
    → message_field py s.message (codes "before_pkg") ≡ some before_pkg
    → is_empty before_pkg ≡ false
    → is_empty (root_package obs.tree) ≡ false
    → text_eq before_pkg (root_package obs.tree) ≡ false
    → post_back_verdict py s obs ≡ some (left_words before_pkg (root_package obs.tree))
unfolding post_back_verdict left_words panel_verdict page_verdict join_parts
post_back_verdict-left py s obs before_pkg a b c d e f =
    rw (post_back_verdict, a, b, c, panel_verdict, page_verdict, d, e, f, join_parts)

guard_back-left :
    (m before_pkg cur_pkg : Text) (steps : List AgentStep)
    → guard_back (m ++ (codes "  [验证] " ++ left_words before_pkg cur_pkg)) steps
      ≡ some (record { ok = true; summary = codes "返回键已收起输入面板，停止继续返回。"; steps = steps })
unfolding guard_back left_words
guard_back-left m before_pkg cur_pkg steps = rw (closed, left, guard_back)
  where
    pkg_words : Text
    pkg_words = before_pkg ++ (codes " 变为 pkg=" ++ cur_pkg)

    closed :
        contains (codes "输入面板已消失") (m ++ (codes "  [验证] " ++ left_words before_pkg cur_pkg)) ≡ true
    closed =
        contains-later m (codes "输入面板已消失") (codes "  [验证] " ++ left_words before_pkg cur_pkg)
          (contains-append (codes "  [验证] ") (codes "输入面板已消失") (codes "；上下文从 pkg=" ++ pkg_words))

    left : contains (codes "上下文从") (m ++ (codes "  [验证] " ++ left_words before_pkg cur_pkg)) ≡ true
    left =
        contains-later m (codes "上下文从") (codes "  [验证] " ++ left_words before_pkg cur_pkg)
          (contains-append (codes "  [验证] 输入面板已消失；") (codes "上下文从") (codes " pkg=" ++ pkg_words))

reverse_onto-snoc :
    (acc steps : List AgentStep) (s : AgentStep)
    → reverse_onto acc (steps ++ (s ∷ [])) ≡ s ∷ reverse_onto acc steps
reverse_onto-snoc acc [] s = refl
reverse_onto-snoc acc (x ∷ steps) s = reverse_onto-snoc (x ∷ acc) steps s

-- The step with the verdict that `post_back_verdict-left` gives
left_step : AgentStep → Text → Text → AgentStep
left_step s before_pkg cur_pkg = record s {
  message = s.message ++ (codes "  [验证] " ++ left_words before_pkg cur_pkg);
}

annotated-left :
    (s : AgentStep) (before_pkg cur_pkg : Text)
    → contains (codes "[验证]") s.message ≡ false
    → annotated s (some (left_words before_pkg cur_pkg)) ≡ left_step s before_pkg cur_pkg
unfolding annotated left_step
annotated-left s before_pkg cur_pkg h = rw (h, annotated)

guard_decision-last :
    (d : AgentDecision) (steps : List AgentStep) (s : AgentStep)
    → text_eq (strip d.action) (codes "back") ≡ true
    → is_back s ≡ true
    → guard_decision d (steps ++ (s ∷ [])) ≡ guard_back s.message (steps ++ (s ∷ []))
unfolding guard_decision
guard_decision-last d steps s a b = rw (a, reverse_onto-snoc [] steps s, b, guard_decision)

is_back-left :
    (s : AgentStep) (before_pkg cur_pkg : Text)
    → is_action (codes "back") s ≡ true
    → s.ok ≡ true
    → is_back (left_step s before_pkg cur_pkg) ≡ true
unfolding left_step
is_back-left s before_pkg cur_pkg b c = ground (arith, b, c)

guard_decision-left :
    (d : AgentDecision) (steps : List AgentStep) (s : AgentStep) (before_pkg cur_pkg : Text)
    → text_eq (strip d.action) (codes "back") ≡ true
    → is_action (codes "back") s ≡ true
    → s.ok ≡ true
    → guard_decision d (steps ++ (left_step s before_pkg cur_pkg ∷ []))
      ≡ some (record {
        ok = true;
        summary = codes "返回键已收起输入面板，停止继续返回。";
        steps = steps ++ (left_step s before_pkg cur_pkg ∷ []);
      })
unfolding left_step
guard_decision-left d steps s before_pkg cur_pkg a b c =
    guard_decision-last d steps (left_step s before_pkg cur_pkg) a
      (is_back-left s before_pkg cur_pkg b c)
    ∙ guard_back-left s.message before_pkg cur_pkg (steps ++ (left_step s before_pkg cur_pkg ∷ []))

-- Once a `back` that succeeded, and has no verdict yet, has closed the keyboard and left the app
-- that was in front for another that is known, deciding a second `back` ends the run as a success,
-- whatever its goal is and whatever was done for it before.
pub guard_decision-post_back_verdict :
    (py : Python) (d : AgentDecision) (before : List AgentStep) (s : AgentStep)
    (obs : AgentObservation) (before_pkg : Text)
    → text_eq (strip d.action) (codes "back") ≡ true
    → is_action (codes "back") s ≡ true
    → s.ok ≡ true
    → contains (codes "[验证]") s.message ≡ false
    → message_bool py s.message (codes "before_input_panel") ≡ some true
    → panel_visible obs ≡ false
    → message_field py s.message (codes "before_pkg") ≡ some before_pkg
    → is_empty before_pkg ≡ false
    → is_empty (root_package obs.tree) ≡ false
    → text_eq before_pkg (root_package obs.tree) ≡ false
    → (r : AgentResult) × (guard_decision d
          (before ++ (annotated s (post_back_verdict py s obs) ∷ []))
        ≡ some r)
      × (r.ok ≡ true)
guard_decision-post_back_verdict py d before s obs before_pkg act b c m a p f n1 n2 n3 = (
  _,
  ap (λ v. guard_decision d (before ++ (annotated s v ∷ [])))
        (post_back_verdict-left py s obs before_pkg a p f n1 n2 n3)
      ∙ (ap (λ t. guard_decision d (before ++ (t ∷ [])))
            (annotated-left s before_pkg (root_package obs.tree) m)
          ∙ guard_decision-left d before s before_pkg (root_package obs.tree) act b c),
  refl,
)
