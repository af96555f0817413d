-- ===== src/Prelude/Pattern.antt =====
-- Python's `re`, as far as the program uses it: a sequence of runs of a class of characters, choices
-- of literal texts and the end of the text. Times of backtracking are left out; whether there is a
-- match is what counts.
use Prim.Native.Nat.{ℕ, ◌+◌, ◌-◌}
use mathlib.Core.Bool.{Bool, true, false, ◌&&◌, ◌||◌, not}
use mathlib.Core.Option.{Option, none, some}
use mathlib.Core.List.{List, [], ◌∷◌}
use wecom_ai_agent.Prelude.Tests.{ltb, leb, ◌==◌, if◌then◌else◌}
use wecom_ai_agent.Prelude.Lists.{any}
use wecom_ai_agent.Prelude.Text.{Text}

-- `\d`: the decimal digits of Unicode come in blocks of ten, from these on.
abbrev digit_zeros : List ℕ
digit_zeros =
    48 ∷ 1632 ∷ 1776 ∷ 1984 ∷ 2406 ∷ 2534 ∷ 2662 ∷ 2790 ∷ 2918 ∷ 3046 ∷ 3174 ∷ 3302 ∷ 3430 ∷ 3558
    ∷ 3664 ∷ 3792 ∷ 3872 ∷ 4160 ∷ 4240 ∷ 6112 ∷ 6160 ∷ 6470 ∷ 6608 ∷ 6784 ∷ 6800 ∷ 6992 ∷ 7088
    ∷ 7232 ∷ 7248 ∷ 42528 ∷ 43216 ∷ 43264 ∷ 43472 ∷ 43504 ∷ 43600 ∷ 44016 ∷ 65296 ∷ 66720 ∷ 68912
    ∷ 69734 ∷ 69872 ∷ 69942 ∷ 70096 ∷ 70384 ∷ 70736 ∷ 70864 ∷ 71248 ∷ 71360 ∷ 71472 ∷ 71904 ∷ 72016
    ∷ 72784 ∷ 73040 ∷ 73120 ∷ 92768 ∷ 92864 ∷ 93008 ∷ 120782 ∷ 120792 ∷ 120802 ∷ 120812 ∷ 120822
    ∷ 123200 ∷ 123632 ∷ 125264 ∷ 130032 ∷ []

unfoldable pub is_digit : ℕ → Bool
is_digit c = any (λ z. leb z c && ltb c (z + 10)) digit_zeros

-- `.`: any character but the line feed
abbrev pub is_dot : ℕ → Bool
is_dot c = not (c == 10)

-- One part of a pattern: `[class]{lo,hi}`, where no `hi` is no bound, `(a|b)`, and `$`.
pub data Part : Type 0 where
  run : (ℕ → Bool) → ℕ → Option ℕ → Part
  one_of : List Text → Part
  ends : Part

abbrev pub literal : Text → Part
literal t = one_of (t ∷ [])

-- What is left of `s` after `t`
unfoldable pub drop_prefix : Text → Text → Option Text
drop_prefix [] s = some s
drop_prefix (a ∷ t) [] = none
drop_prefix (a ∷ t) (b ∷ s) = let rest = drop_prefix t s in if a == b then rest else none

abbrev pub may_go_on : Option ℕ → Bool
may_go_on none = true
may_go_on (some hi) = ltb 0 hi

abbrev pub one_less : Option ℕ → Option ℕ
one_less none = none
one_less (some hi) = some (hi - 1)

unfoldable pub run_then : (ℕ → Bool) → (Text → Bool) → ℕ → Option ℕ → Text → Bool
run_then p k lo hi [] = lo == 0 && k []
run_then p k lo hi (c ∷ s) =
    let longer = run_then p k (lo - 1) (one_less hi) s in
    (lo == 0 && k (c ∷ s)) || (may_go_on hi && (p c && longer))

unfoldable pub one_then : (Text → Bool) → List Text → Text → Bool
one_then k [] s = false
one_then k (t ∷ ts) s = elim (drop_prefix t s) [ none ↦ false | some r ↦ k r ] || one_then k ts s

-- `$` holds at the end, and before a line feed at the end.
unfoldable pub at_end : Text → Bool
at_end [] = true
at_end (c ∷ []) = c == 10
at_end (c ∷ d ∷ s) = false

-- `re.match`: is there a match that starts where the text starts?
unfoldable pub matches : List Part → Text → Bool
unfolding run_then one_then at_end drop_prefix
matches [] s = true
matches (run p lo hi ∷ ps) s = run_then p (matches ps) lo hi s
matches (one_of ts ∷ ps) s = one_then (matches ps) ts s
matches (ends ∷ ps) s = at_end s && matches ps s

-- `re.search`
unfoldable pub finds : List Part → Text → Bool
finds ps [] = matches ps []
finds ps (c ∷ s) = matches ps (c ∷ s) || finds ps s

-- `[class]*` at the start, all that there is of it
unfoldable pub drop_while : (ℕ → Bool) → Text → Text
drop_while p [] = []
drop_while p (c ∷ s) = if p c then drop_while p s else c ∷ s
