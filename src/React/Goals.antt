-- ===== src/React/Goals.antt =====
-- backend/app/ai/react_locators.py and react_playbooks.py: what a goal in words asks for.
pub mod Roundtrip
use wecom_ai_agent.Prelude.{
  ℕ, Bool, true, false, Option, none, some, List, [], ◌∷◌, ◌++◌, ◌==◌, ◌&&◌, ◌||◌, if◌then◌else◌,
  is_some, is_empty, leb,
}
use wecom_ai_agent.Prelude.Text.{Text, codes, strip, is_space}
use wecom_ai_agent.Prelude.Pattern.{drop_prefix, drop_while}
use wecom_ai_agent.React.Tree.{take_while}

pub record ParsedSendGoal : Type 0 where
  pub target : Text
  pub text : Text

-- The brackets of the patterns: `[「"]` and `[」"]`
abbrev pub opens : ℕ → Bool
opens c = c == 12300 || c == 34

abbrev pub closes : ℕ → Bool
closes c = c == 12301 || c == 34

abbrev pub is_colon : ℕ → Bool
is_colon c = c == 58 || c == 65306

-- `打开与[「"]` at the start: what follows it
unfoldable pub after_opening : Text → Option Text
unfolding drop_prefix
after_opening s = elim (drop_prefix (codes "打开与") s) [
  | none ↦ none
  | some [] ↦ none
  | some (c ∷ r) ↦ if opens c then some r else none
]

-- `[」"]的聊天，并发送下面这段文本[:：]` at the start: what follows it
unfoldable pub after_send_words : Text → Option Text
unfolding drop_prefix
after_send_words [] = none
after_send_words (q ∷ s) =
    if closes q
    then elim (drop_prefix (codes "的聊天，并发送下面这段文本") s) [
      | none ↦ none
      | some [] ↦ none
      | some (c ∷ r) ↦ if is_colon c then some r else none
    ]
    else none

-- `[」"]的聊天(?:$|[，,].*)` at the start
unfoldable pub after_open_words : Text → Option Text
unfolding drop_prefix
after_open_words [] = none
after_open_words (q ∷ s) =
    if closes q
    then elim (drop_prefix (codes "的聊天") s) [
      | none ↦ none
      | some [] ↦ some []
      | some (c ∷ r) ↦ if c == 65292 || c == 44 || (c == 10 && is_empty r) then some [] else none
    ]
    else none

-- `(.+?)` before what `after` takes: the shortest text of one character or more, after the part `seen`
unfoldable pub shortest : (Text → Option Text) → Text → Text → Option (Text × Text)
shortest after seen [] = none
shortest after seen (c ∷ s) =
    let longer = shortest after (seen ++ c ∷ []) s in
    elim (after s) [ none ↦ longer | some r ↦ some (seen ++ c ∷ [], r) ]

unfoldable pub match_here : (Text → Option Text) → Text → Option (Text × Text)
unfolding after_opening shortest
match_here after s = elim (after_opening s) [ none ↦ none | some r ↦ shortest after [] r ]

-- `re.search`: the first place with a match
unfoldable pub search_goal : (Text → Option Text) → Text → Option (Text × Text)
unfolding match_here
search_goal after [] = none
search_goal after (c ∷ s) =
    let rest = search_goal after s in
    elim (match_here after (c ∷ s)) [ none ↦ rest | some m ↦ some m ]

unfoldable pub send_of : Option (Text × Text) → Option ParsedSendGoal
send_of none = none
send_of (some (target, text)) =
    if is_empty (strip target) || is_empty (strip text)
    then none
    else some (record { target = strip target; text = strip text })

-- `parse_send_goal`
unfoldable pub parse_send_goal : Text → Option ParsedSendGoal
unfolding search_goal after_send_words send_of
parse_send_goal goal = send_of (search_goal after_send_words goal)

unfoldable pub open_of : Option (Text × Text) → Option Text
open_of none = none
open_of (some (target, r)) = if is_empty (strip target) then none else some (strip target)

-- `parse_open_chat_goal`: the target
unfoldable pub parse_open_chat_goal : Text → Option Text
unfolding parse_send_goal search_goal after_open_words open_of
parse_open_chat_goal goal = elim (parse_send_goal goal) [
  | some parsed ↦ some parsed.target
  | none ↦ open_of (search_goal after_open_words goal)
]

-- `[A-Za-z0-9._-]`
abbrev pub is_name_char : ℕ → Bool
is_name_char c =
    (leb 65 c && leb c 90)
    || (leb 97 c && leb c 122)
    || (leb 48 c && leb c 57)
    || c == 46
    || c == 95
    || c == 45

abbrev pub skip_colon : Text → Text
skip_colon [] = []
skip_colon (c ∷ s) = if is_colon c then s else c ∷ s

abbrev some_name : Text → Option Text
some_name name = if is_empty name then none else some name

-- `文件名[:：]?\s*([A-Za-z0-9._-]+)` at the start: the name
unfoldable pub filename_here : Text → Option Text
unfolding drop_prefix drop_while take_while is_space
filename_here s = elim (drop_prefix (codes "文件名") s) [
  | none ↦ none
  | some r ↦ some_name (take_while is_name_char (drop_while is_space (skip_colon r)))
]

-- `parse_send_media_goal`: the file name
unfoldable pub parse_send_media_goal : Text → Option Text
unfolding filename_here
parse_send_media_goal [] = none
parse_send_media_goal (c ∷ s) =
    let rest = parse_send_media_goal s in
    elim (filename_here (c ∷ s)) [ none ↦ rest | some name ↦ some name ]

pub data GoalKind : Type 0 where
  send_media_phase2 send_text open_chat : GoalKind

-- `kind_for_goal`
unfoldable pub kind_for_goal : Text → Option GoalKind
kind_for_goal goal =
    if is_some (parse_send_media_goal goal)
    then some GoalKind.send_media_phase2
    else if is_some (parse_send_goal goal)
    then some GoalKind.send_text
    else if is_some (parse_open_chat_goal goal)
    then some GoalKind.open_chat
    else none
