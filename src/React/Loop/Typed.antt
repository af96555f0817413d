-- ===== src/React/Loop/Typed.antt =====
-- backend/app/ai/react_agent.py, `_run_react_inner`: answers of the types that the prompt asks for.
use wecom_ai_agent.Prelude.{
  ◌≡◌, refl, Bool, true, false, some, List, ◌++◌, if◌then◌else◌, if_elim, option_elim,
}
use wecom_ai_agent.Prelude.Text.{Text, codes}
use wecom_ai_agent.React.{AgentObservation, AgentDecision, AgentStep}
use wecom_ai_agent.React.Loop.{
  Answer, Models, decided, broken, ill_typed, gives_up, checked, or_fallback, recovered, ask_models,
}

-- The answer is of the types that the prompt asks for, or an error.
abbrev pub is_typed : Answer → Bool
is_typed (decided d) = true
is_typed (broken e) = true
is_typed (ill_typed i) = false

-- All the answers of both providers are.
abbrev pub AreTyped : {W : Type 0} → Models W → Type 0
AreTyped {W} models =
    ((w : W) (goal : Text) (obs : AgentObservation) (steps : List AgentStep)
      → is_typed (models.primary w goal obs steps).1 ≡ true)
    × ((ask : W → Text → AgentObservation → List AgentStep → W × Answer)
        → models.fallback ≡ some ask
        → (w : W) (goal : Text) (obs : AgentObservation) (steps : List AgentStep)
        → is_typed (ask w goal obs steps).1 ≡ true)

is_typed-checked : (a : Answer) → is_typed a ≡ true → is_typed (checked a) ≡ true
unfolding checked
is_typed-checked (decided d) h = refl
is_typed-checked (broken e) h = refl
is_typed-checked (ill_typed i) h = cc

or_fallback-typed :
    {W : Type 0} (d : AgentDecision) (r : W × Answer)
    → is_typed r.1 ≡ true
    → is_typed (or_fallback d r).1 ≡ true
unfolding or_fallback checked
or_fallback-typed d (w, decided e) h = refl
or_fallback-typed d (w, broken e) h = refl
or_fallback-typed d (w, ill_typed i) h = cc

concluded-typed :
    (e : Text) (a : Answer)
    → is_typed a ≡ true
    → is_typed (elim a [
      | decided d ↦ decided d
      | broken f ↦ broken (e ++ (codes "; fallback=" ++ f))
      | ill_typed i ↦ ill_typed i
    ])
      ≡ true
concluded-typed e (decided d) h = refl
concluded-typed e (broken f) h = refl
concluded-typed e (ill_typed i) h = cc

module _ {W : Type 0} (goal : Text) (obs : AgentObservation) (steps : List AgentStep)
    (ask : W → Text → AgentObservation → List AgentStep → W × Answer)
    (typed : (w : W) → is_typed (ask w goal obs steps).1 ≡ true) where
  recovered-typed :
      (r : W × Answer) → is_typed r.1 ≡ true → is_typed (recovered ask goal obs steps r).1 ≡ true
  unfolding recovered
  recovered-typed (w, decided d) h = refl
  recovered-typed (w, broken e) h = concluded-typed e (ask w goal obs steps).1 (typed w)
  recovered-typed (w, ill_typed i) h = cc

  second_try-typed :
      (first : W × Answer) (a : Answer)
      → is_typed first.1 ≡ true
      → is_typed a ≡ true
      → is_typed
          (recovered ask goal obs steps (elim a [
            | broken e ↦ (first.0, broken e)
            | ill_typed i ↦ (first.0, ill_typed i)
            | decided d ↦ if gives_up d then or_fallback d (ask first.0 goal obs steps) else first
          ])).1
        ≡ true
  second_try-typed first (broken e) g h = recovered-typed (first.0, broken e) refl
  second_try-typed first (ill_typed i) g h = cc
  second_try-typed first (decided d) g h =
      if_elim (λ (r : W × Answer). is_typed (recovered ask goal obs steps r).1 ≡ true) (gives_up d)
        (recovered-typed _ (or_fallback-typed d (ask first.0 goal obs steps) (typed first.0)))
        (recovered-typed first g)

pub ask_models-typed :
    {W : Type 0} (models : Models W) (goal : Text) (obs : AgentObservation) (steps : List AgentStep)
    (w : W)
    → AreTyped models
    → is_typed (ask_models models goal obs steps w).1 ≡ true
unfolding ask_models
ask_models-typed {W} models goal obs steps w (p, q) =
    option_elim (λ (r : W × Answer). is_typed r.1 ≡ true) models.fallback (λ _. p w goal obs steps)
      (λ ask e.
        second_try-typed goal obs steps ask (λ v. q ask e v goal obs steps)
          (models.primary w goal obs steps) (checked (models.primary w goal obs steps).1)
          (p w goal obs steps)
          (is_typed-checked (models.primary w goal obs steps).1 (p w goal obs steps)))
