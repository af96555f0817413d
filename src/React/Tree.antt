-- ===== src/React/Tree.antt =====
-- backend/app/ai/react_agent.py: what is read from the text of a UI tree and of a message.
use wecom_ai_agent.Prelude.{
  ℕ, Bool, true, false, Option, none, some, List, [], ◌∷◌, ◌++◌, ◌==◌, ◌&&◌, ◌||◌, not,
  if◌then◌else◌, or_else, is_empty, leb, ltb, keep, take, length,
}
use wecom_ai_agent.Prelude.Text.{Text, codes, strip, text_eq, is_space, starts_with, contains}
use wecom_ai_agent.Prelude.Pattern.{drop_prefix}
use wecom_ai_agent.React.{Python, AgentObservation}

-- A line boundary of `str.splitlines`
unfoldable pub is_line_break : ℕ → Bool
is_line_break c =
    (leb 10 c && leb c 13) || (leb 28 c && leb c 30) || c == 133 || c == 8232 || c == 8233

-- `[class]*` at the start
unfoldable pub take_while : (ℕ → Bool) → Text → Text
take_while p [] = []
take_while p (c ∷ s) = let rest = take_while p s in if p c then c ∷ rest else []

-- `tree.splitlines()[0] if tree else ""`
unfoldable pub first_line : Text → Text
unfolding take_while is_line_break
first_line tree = take_while (λ c. not (is_line_break c)) tree

-- `key([class]+)` at the start of the text: the group
unfoldable pub value_here : Text → (ℕ → Bool) → Text → Option Text
unfolding drop_prefix take_while
value_here key p s = elim (drop_prefix key s) [
  | none ↦ none
  | some rest ↦ (let value = take_while p rest in if is_empty value then none else some value)
]

-- `re.search` for it; `starts` says, of the character before, if any, whether the key may start.
unfoldable pub value_of : Text → (ℕ → Bool) → (Option ℕ → Bool) → Option ℕ → Text → Option Text
unfolding value_here
value_of key p starts before [] = none
value_of key p starts before (c ∷ s) =
    let rest = value_of key p starts (some c) s in
    if starts before
    then elim (value_here key p (c ∷ s)) [ none ↦ rest | some value ↦ some value ]
    else rest

abbrev pub anywhere : Option ℕ → Bool
anywhere before = true

-- `_root_package`
unfoldable pub root_package : Text → Text
unfolding first_line value_of is_space
root_package tree =
    or_else (value_of (codes "pkg=") (λ c. not (is_space c)) anywhere none (first_line tree))
      (codes "unknown")

-- `_root_page`
unfoldable pub root_page : Text → Text
unfolding first_line value_of is_space
root_page tree =
    or_else
      (value_of (codes "page=") (λ c. not (is_space c || c == 61)) anywhere none (first_line tree))
      (codes "unknown")

-- `_is_wecom_tree`
unfoldable pub is_wecom_tree : Text → Bool
unfolding first_line contains
is_wecom_tree tree = contains (codes "pkg=com.tencent.wework") (first_line tree)

abbrev pub is_chat_page : AgentObservation → Bool
is_chat_page obs = text_eq (root_page obs.tree) (codes "CHAT")

-- `\b` before a key that starts with a letter
abbrev pub at_word_start : Python → Option ℕ → Bool
at_word_start py none = true
at_word_start py (some c) = not (py.is_word c)

-- `_message_field`
unfoldable pub message_field : Python → Text → Text → Option Text
unfolding value_of is_space
message_field py message key =
    value_of (key ++ codes "=") (λ c. not (is_space c || c == 41)) (at_word_start py) none message

-- `_message_bool`
unfoldable pub message_bool : Python → Text → Text → Option Bool
unfolding message_field text_eq
message_bool py message key = elim (message_field py message key) [
  | none ↦ none
  | some value ↦
      if text_eq value (codes "true")
      then some true
      else if text_eq value (codes "false")
      then some false
      else none
]

-- `str.splitlines`, after the part `line` of a line; "\r\n" is one boundary.
unfoldable pub split_lines : Text → Text → List Text
unfolding is_line_break
split_lines line [] = if is_empty line then [] else line ∷ []
split_lines line (c ∷ []) = if is_line_break c then line ∷ [] else (line ++ c ∷ []) ∷ []
split_lines line (c ∷ d ∷ s) =
    let after_pair = split_lines [] s in
    let after_break = split_lines [] (d ∷ s) in
    let longer = split_lines (line ++ c ∷ []) (d ∷ s) in
    if is_line_break c
    then line ∷ (if c == 13 && d == 10 then after_pair else after_break)
    else longer

-- A character of `[CFES]`
abbrev is_flag : ℕ → Bool
is_flag c = c == 67 || c == 70 || c == 69 || c == 83

-- `re.search(r"\b[CFES]+$", s)` on a stripped line: its last word is made of these letters.
unfoldable pub ends_in_flags : Python → Option ℕ → Text → Bool
ends_in_flags py before [] = false
ends_in_flags py before (c ∷ s) =
    let rest = ends_in_flags py (some c) s in (at_word_start py before && all_flags (c ∷ s)) || rest
  where
    all_flags : Text → Bool
    all_flags [] = true
    all_flags (x ∷ xs) = is_flag x && all_flags xs

-- The lines that `_shrink_tree` keeps
unfoldable pub keeps_line : Python → Text → Bool
unfolding ends_in_flags strip starts_with contains
keeps_line py line =
    not (is_empty (strip line))
    && (starts_with (codes "===") (strip line)
        || (contains (codes "txt=") line
            || (contains (codes "desc=") line
                || (contains (codes " id=") line || ends_in_flags py none (strip line)))))

-- `"\n".join(lines)`
unfoldable pub join_lines : List Text → Text
join_lines [] = []
join_lines (l ∷ []) = l
join_lines (l ∷ k ∷ ls) = l ++ (10 ∷ join_lines (k ∷ ls))

abbrev max_tree_chars : ℕ
max_tree_chars = 4500

-- `_shrink_tree`
unfoldable pub shrink_tree : Python → Text → Text
unfolding split_lines keeps_line join_lines
shrink_tree py tree =
    let out = join_lines (keep (keeps_line py) (split_lines [] tree)) in
    if ltb max_tree_chars (length out)
    then take max_tree_chars out ++ (10 ∷ codes "…(truncated)")
    else out
