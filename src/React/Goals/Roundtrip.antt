-- ===== src/React/Goals/Roundtrip.antt =====
-- backend/app/ai/react_locators.py with backend/app/services/send_orchestrator.py, `_goal_for_task`: the
-- agent reads from a goal what the orchestrator has written into it.
use wecom_ai_agent.Prelude.{
  ℕ, ◌≡◌, refl, ◌∙◌, ap, true, false, Option, none, some, [], ◌∷◌, ◌++◌, arith, All, is_some,
  is_empty, append_assoc,
}
use wecom_ai_agent.Prelude.Text.{Text, codes, strip, strip_idem}
use wecom_ai_agent.Prelude.Pattern.{drop_prefix, drop_while}
use wecom_ai_agent.Store.{RobotTask}
use wecom_ai_agent.SendOrchestrator.{goal_for_task}
use wecom_ai_agent.React.Tree.{take_while}
use wecom_ai_agent.React.Goals.{
  closes, after_opening, after_send_words, shortest, match_here, search_goal, send_of,
  parse_send_goal, filename_here, parse_send_media_goal, is_name_char, kind_for_goal, GoalKind,
}

shortest-skip :
    (after : Text → Option Text) (seen : Text) (c : ℕ) (s : Text)
    → after s ≡ none
    → shortest after seen (c ∷ s) ≡ shortest after (seen ++ c ∷ []) s
unfolding shortest
shortest-skip after seen c s e = rw (e, shortest)

after_send_words-none : (d : ℕ) (s : Text) → closes d ≡ false → after_send_words (d ∷ s) ≡ none
unfolding after_send_words
after_send_words-none d s e = rw e

-- Up to the first closing bracket nothing is taken for the end of the target.
shortest-words :
    (seen : Text) (c : ℕ) (name rest : Text)
    → All (λ x. closes x ≡ false) name
    → shortest after_send_words seen ((c ∷ name) ++ (codes "」的聊天，并发送下面这段文本：" ++ rest))
      ≡ some (seen ++ c ∷ name, rest)
unfolding shortest after_send_words drop_prefix
shortest-words seen c [] rest a = refl
shortest-words seen c (d ∷ name) rest a =
    shortest-skip after_send_words seen c (d ∷ (name ++ (codes "」的聊天，并发送下面这段文本：" ++ rest)))
      (after_send_words-none d (name ++ (codes "」的聊天，并发送下面这段文本：" ++ rest)) a.0)
    ∙ (shortest-words (seen ++ c ∷ []) d name rest a.1
        ∙ ap (λ (s : Text). some (s, rest)) (append_assoc seen (c ∷ []) (d ∷ name)))

send_of-some :
    (target text : Text)
    → is_empty (strip target) ≡ false
    → is_empty (strip text) ≡ false
    → send_of (some (target, text)) ≡ some (record { target = strip target; text = strip text })
unfolding send_of
send_of-some target text a b = rw (a, b)

search_goal-here :
    (after : Text → Option Text) (c : ℕ) (s r : Text) (m : Text × Text)
    → after_opening (c ∷ s) ≡ some r
    → shortest after [] r ≡ some m
    → search_goal after (c ∷ s) ≡ some m
unfolding search_goal match_here
search_goal-here after c s r m e f = rw (e, search_goal, match_here, f)

search_goal-words :
    (c : ℕ) (name text : Text)
    → All (λ x. closes x ≡ false) name
    → search_goal after_send_words
        (codes "打开与「" ++ ((c ∷ name) ++ (codes "」的聊天，并发送下面这段文本：" ++ text)))
      ≡ some (c ∷ name, text)
unfolding after_opening drop_prefix
search_goal-words c name text a =
    search_goal-here after_send_words 25171 _ ((c ∷ name) ++ (codes "」的聊天，并发送下面这段文本：" ++ text))
      (c ∷ name, text) refl (shortest-words [] c name text a)

-- The goal of a send of a text, given to the agent, is read back as the contact and the text of the
-- task, both without the blanks around them, if the contact's id has no closing bracket or quote
-- after its first character and neither it nor the text is blank.
pub parse_send_goal-goal_for_task :
    (task : RobotTask) (c : ℕ) (name text : Text)
    → task.type ≡ "send_text"
    → task.payload_json.conversation_external_id ≡ some (c ∷ name)
    → task.payload_json.text ≡ some text
    → All (λ x. closes x ≡ false) name
    → is_empty (strip (c ∷ name)) ≡ false
    → is_empty (strip text) ≡ false
    → (goal : Text) × (goal_for_task task ≡ some goal)
      × (parse_send_goal goal ≡ some (record { target = strip (c ∷ name); text = strip text }))
unfolding goal_for_task parse_send_goal
parse_send_goal-goal_for_task task c name text k e f a b d = (
  codes "打开与「" ++ ((c ∷ name) ++ (codes "」的聊天，并发送下面这段文本：" ++ strip text)),
  simp (k, e, f, d),
  ap send_of (search_goal-words c name (strip text) a)
      ∙ (send_of-some (c ∷ name) (strip text) b (rw (strip_idem text) d)
          ∙ ap (λ (t : Text). some (record { target = strip (c ∷ name); text = t }))
              (strip_idem text)),
)

filename_here-name :
    (c : ℕ) (s : Text)
    → is_name_char c ≡ true
    → is_some (filename_here (codes "文件名" ++ (c ∷ s))) ≡ true
unfolding filename_here drop_prefix drop_while take_while
filename_here-name c s h = ground arith

parse_send_media_goal-name :
    (before : Text) (c : ℕ) (s : Text)
    → is_name_char c ≡ true
    → is_some (parse_send_media_goal (before ++ (codes "文件名" ++ (c ∷ s)))) ≡ true
unfolding parse_send_media_goal
parse_send_media_goal-name [] c s h = ground (arith, filename_here-name c s h)
parse_send_media_goal-name (b ∷ before) c s h =
    ground (arith, parse_send_media_goal-name before c s h)

-- A goal in which the words for a file name stand right before a letter, a digit, a dot, a dash or an
-- underscore is of the kind of the second phase of a media send, whatever stands around them.
pub kind_for_goal-media :
    (before : Text) (c : ℕ) (s : Text)
    → is_name_char c ≡ true
    → kind_for_goal (before ++ (codes "文件名" ++ (c ∷ s))) ≡ some GoalKind.send_media_phase2
unfolding kind_for_goal
kind_for_goal-media before c s h = rw (parse_send_media_goal-name before c s h)
