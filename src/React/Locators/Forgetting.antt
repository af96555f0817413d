-- ===== src/React/Locators/Forgetting.antt =====
-- backend/app/ai/react_locators.py, `remember_failure`: what is forgotten.
use wecom_ai_agent.Prelude.{
  ℕ, ◌≡◌, refl, ap, ◌∙◌, Bool, true, false, none, List, [], ◌∷◌, ◌&&◌, not, if◌then◌else◌, is_empty,
  take, map, arith, if_elim,
}
use wecom_ai_agent.Prelude.Text.{Text}
use wecom_ai_agent.React.{AgentObservation}
use wecom_ai_agent.React.Locators.{Device, Locator, Data, device_fingerprint, fingerprint_matches}
use wecom_ai_agent.React.Locators.Cache.{
  has_role, usable, match, remember_failure, failed, first_match, sort_entries,
}

-- Is every entry of the role disabled?
unfoldable pub is_disabled : Text → Locator → Bool
is_disabled role e = not (has_role role e && e.enabled)

pub failed-three :
    (role : Text) (a b c : ℕ) (e : Locator)
    → is_disabled role (failed c role (failed b role (failed a role e))) ≡ true
unfolding is_disabled failed
failed-three role a b c e = ground arith

pub usable-skip :
    (robot : Device) (role : Text) (e : Locator) (es : List Locator)
    → is_disabled role e ≡ true
    → usable robot role (e ∷ es) ≡ usable robot role es
unfolding usable is_disabled
usable-skip robot role e es h = ground arith

pub usable-disabled :
    (robot : Device) (role : Text) (a b c : ℕ) (es : List Locator)
    → usable robot role (map (failed c role) (map (failed b role) (map (failed a role) es))) ≡ []
unfolding usable
usable-disabled robot role a b c [] = refl
usable-disabled robot role a b c (e ∷ es) =
    usable-skip robot role (failed c role (failed b role (failed a role e)))
      (map (failed c role) (map (failed b role) (map (failed a role) es)))
      (failed-three role a b c e)
    ∙ usable-disabled robot role a b c es

pub remember_failure_lem :
    (learned : Data) (role : Text) (now : ℕ)
    → is_empty role ≡ false
    → (remember_failure learned role now).locators ≡ map (failed now role) learned.locators
unfolding remember_failure
remember_failure_lem learned role now e = rw e

pub match-nothing :
    (robot : Device) (learned : Data) (role target : Text) (obs : AgentObservation)
    → usable robot role learned.locators ≡ []
    → match robot learned role target obs ≡ none
unfolding match first_match sort_entries
match-nothing robot learned role target obs e =
    ap
      (λ es.
        if fingerprint_matches learned.device_fingerprint (device_fingerprint robot)
        then first_match (take 5 (sort_entries es)) target obs
        else none)
      e
    ∙ if_elim (λ o. o ≡ none)
        (fingerprint_matches learned.device_fingerprint (device_fingerprint robot)) refl refl

-- After three failures of a role that is not empty, with nothing learned between them, no locator
-- is found for the role, on any screen and for any contact.
pub match-remember_failure :
    (robot : Device) (learned : Data) (role target : Text) (obs : AgentObservation) (a b c : ℕ)
    → is_empty role ≡ false
    → match robot
        (remember_failure (remember_failure (remember_failure learned role a) role b) role c)
        role
        target
        obs
      ≡ none
match-remember_failure robot learned role target obs a b c e =
    let once = remember_failure learned role a in
    let twice = remember_failure once role b in
    match-nothing robot (remember_failure twice role c) role target obs (
      ap (usable robot role) (
        remember_failure_lem twice role c e
        ∙ ap (map (failed c role)) (
            remember_failure_lem once role b e
            ∙ ap (map (failed b role)) (remember_failure_lem learned role a e)))
      ∙ usable-disabled robot role a b c learned.locators)
