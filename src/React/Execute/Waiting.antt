-- ===== src/React/Execute/Waiting.antt =====
-- backend/app/ai/react_agent.py, `_wait_ui`: it polls the screen until a text is there, or gone, or the
-- time is up.
use wecom_ai_agent.Prelude.{
  ℕ, suc, zero, ◌+◌, ◌*◌, ◌≤◌, ◌≡◌, refl, Bool, true, false, Option, none, some, [], ◌++◌, not,
  if◌then◌else◌, or_else, is_empty, leb, arith, if_elim, if_cases, is_some,
}
use wecom_ai_agent.Prelude.Int.{ℤ, pos, clamp}
use wecom_ai_agent.Prelude.Text.{Text, codes, strip, show}
use wecom_ai_agent.React.{Python, Args}
use wecom_ai_agent.React.Verdicts.{Observed, seen, timed_out, raised}
use wecom_ai_agent.React.Execute.{Phone, coerce_duration_ms, tree_has_text}

abbrev pub same_bool : Bool → Bool → Bool
same_bool true b = b
same_bool false b = not b

-- The words of the end, after so many attempts
unfoldable pub wait_text : Python → Text → Text → Text → ℕ → Text
wait_text py prefix text state attempts =
    prefix ++ (py.repr text ++ (state ++ (codes " attempts=" ++ show attempts)))

-- What one look at the screen ends with, or what the `rest` of the rounds ends with
unfoldable pub one_look :
    {W : Type 0}
    → Python
    → Text
    → Bool
    → Bool
    → ℕ
    → W
    → Option (W × (Bool × Text))
    → Observed
    → Option (W × (Bool × Text))
one_look py text absent is_late attempts w rest (timed_out e) =
    some (w, (false, codes "timeout: " ++ e))
one_look py text absent is_late attempts w rest (raised e) =
    some (w, (false, codes "exec error: " ++ e))
one_look py text absent is_late attempts w rest (seen obs) =
    let last_seen = tree_has_text obs text in
    if not (same_bool last_seen absent)
    then some (
      w,
      (
        true,
        wait_text py (codes "wait_ui text=") text (if absent then codes " 已消失" else codes " 已出现")
            attempts,
      ),
    )
    else if is_late
    then some (
      w,
      (
        false,
        wait_text py (codes "wait_ui timeout text=") text
            (if last_seen then codes " 仍存在" else codes " 仍未出现") attempts,
      ),
    )
    else rest

-- The loop, on fuel; none is an end of the fuel.
unfoldable pub polls :
    {W : Type 0} → ℕ → Python → Phone W → Text → Bool → ℕ → ℕ → W → Option (W × (Bool × Text))
polls zero py phone text absent deadline attempts w = none
polls (suc fuel) py phone text absent deadline attempts w =
    let sight = phone.observe w in
    one_look py text absent (leb deadline (phone.now sight.0)) (suc attempts) sight.0
      (polls fuel py phone text absent deadline (suc attempts) (phone.sleep sight.0 250)) sight.1

-- The rounds that 15 seconds leave room for, at 250 milliseconds each.
abbrev pub wait_fuel : ℕ
wait_fuel = 61

-- `_wait_ui`
unfoldable pub wait_ui : {W : Type 0} → Python → Phone W → Args → W → Option (W × (Bool × Text))
wait_ui py phone args w =
    let text = strip (or_else args.text []) in
    if is_empty text
    then some (w, (false, codes "wait_ui 缺少 text"))
    else polls wait_fuel py phone text args.absent
        (phone.now w + coerce_duration_ms args.timeout_ms 3000 300 15000) 0 w

abbrev Ends : {W : Type 0} → Option (W × (Bool × Text)) → Type 0
Ends o = is_some o ≡ true

one_look-some :
    {W : Type 0} (py : Python) (text : Text) (absent is_late : Bool) (attempts : ℕ) (w : W)
    (rest : Option (W × (Bool × Text))) (o : Observed)
    → (is_late ≡ false → is_some rest ≡ true)
    → is_some (one_look py text absent is_late attempts w rest o) ≡ true
unfolding one_look
one_look-some py text absent is_late attempts w rest (timed_out e) h = refl
one_look-some py text absent is_late attempts w rest (raised e) h = refl
one_look-some py text absent is_late attempts w rest (seen obs) h =
    if_cases Ends (not (same_bool (tree_has_text obs text) absent)) (λ _. refl)
      (λ _. if_cases Ends is_late (λ _. refl) h)

clamp-le : (n : ℤ) → clamp 300 15000 n ≤ 15000
clamp-le n = ground arith

module _ {W : Type 0} (py : Python) (phone : Phone W)
    (now-observe : (w : W) → phone.now w ≤ phone.now (phone.observe w).0)
    (now-sleep : (w : W) (ms : ℕ) → phone.now w + ms ≤ phone.now (phone.sleep w ms)) where
  polls-some :
      (fuel : ℕ) (text : Text) (absent : Bool) (deadline attempts : ℕ) (w : W)
      → deadline ≤ phone.now w + 250 * fuel
      → is_some (polls (suc fuel) py phone text absent deadline attempts w) ≡ true
  unfolding polls
  polls-some zero text absent deadline attempts w h =
      one_look-some py text absent (leb deadline (phone.now (phone.observe w).0)) (suc attempts)
        (phone.observe w).0 none (phone.observe w).1
        (λ f. absurd (ground (arith, f, h, now-observe w)))
  polls-some (suc fuel) text absent deadline attempts w h =
      one_look-some py text absent (leb deadline (phone.now (phone.observe w).0)) (suc attempts)
        (phone.observe w).0
        (polls (suc fuel) py phone text absent deadline (suc attempts)
          (phone.sleep (phone.observe w).0 250))
        (phone.observe w).1
        (λ _.
          polls-some fuel text absent deadline (suc attempts) (phone.sleep (phone.observe w).0 250)
            (ground (arith, h, now-observe w, now-sleep (phone.observe w).0 250)))

  -- Waiting for a text ends, found or not, within 61 looks at the screen, whatever the screen shows and
  -- whatever time limit is asked for, if looking takes no negative time and a sleep lasts at least as
  -- long as it is asked to.
  pub wait_ui-some : (args : Args) (w : W) → is_some (wait_ui py phone args w) ≡ true
  unfolding wait_ui coerce_duration_ms
  wait_ui-some args w = if_elim Ends (is_empty (strip (or_else args.text []))) refl (
      polls-some 60 (strip (or_else args.text [])) args.absent
        (phone.now w + coerce_duration_ms args.timeout_ms 3000 300 15000) 0 w
        (omega (arith, clamp-le (or_else args.timeout_ms (pos 3000)))))
