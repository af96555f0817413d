-- ===== src/React/Locators/Learning.antt =====
-- backend/app/ai/react_locators.py, `remember_success`: what is learned is found again.
use wecom_ai_agent.Prelude.{
  ℕ, ◌≤◌, ◌≡◌, refl, ap, ◌∙◌, Bool, true, false, Option, none, some, List, [], ◌∷◌, ◌++◌, not,
  if◌then◌else◌, is_empty, keep, first, take, arith, Member, if_cases,
}
use wecom_ai_agent.Prelude.Text.{Text, codes, text_eq, text_eq_refl}
use wecom_ai_agent.React.{UiNode, AgentObservation, node_label}
use wecom_ai_agent.React.Nodes.{values}
use wecom_ai_agent.React.Locators.{
  Device, Locator, Data, device_fingerprint, fingerprint_matches, spec_from_node, match_entry,
  score_node, best,
}
use wecom_ai_agent.React.Locators.Cache.{
  has_role, usable, renewed, locator_from_node, existing, match, remember_success, first_match,
  sort_entries, insert_entry,
}
use wecom_ai_agent.React.Locators.Forgetting.{is_disabled, usable-skip}
use wecom_ai_agent.React.Locators.Best.{
  best-AtLeast, fingerprint_matches_refl, score_node-spec_from_node,
}

match-one :
    (robot : Device) (learned : Data) (role target : Text) (obs : AgentObservation) (e : Locator)
    → fingerprint_matches learned.device_fingerprint (device_fingerprint robot) ≡ true
    → usable robot role learned.locators ≡ e ∷ []
    → match robot learned role target obs ≡ first_match (e ∷ []) target obs
unfolding match sort_entries insert_entry
match-one robot learned role target obs e f u =
    ap
      (λ es.
        if fingerprint_matches learned.device_fingerprint (device_fingerprint robot)
        then first_match (take 5 (sort_entries es)) target obs
        else none)
      u
    ∙ ap (λ (b : Bool). if b then first_match (e ∷ []) target obs else none) f

some-same : (o : Option UiNode) → (elim o [ none ↦ none | some node ↦ some node ]) ≡ o
some-same none = refl
some-same (some node) = refl

disabled-other :
    (role : Text) (x : Locator) → not (has_role role x) ≡ true → is_disabled role x ≡ true
unfolding is_disabled
disabled-other role x f = ground arith

usable-last :
    (robot : Device) (role : Text) (es : List Locator) (e : Locator)
    → usable robot role (e ∷ []) ≡ e ∷ []
    → usable robot role (keep (λ x. not (has_role role x)) es ++ (e ∷ [])) ≡ e ∷ []
unfolding usable
usable-last robot role [] e h = h
usable-last robot role (x ∷ es) e h =
    if_cases (λ ys. usable robot role (ys ++ (e ∷ [])) ≡ e ∷ []) (not (has_role role x))
      (λ f.
        usable-skip robot role x (keep (λ y. not (has_role role y)) es ++ (e ∷ []))
          (disabled-other role x f)
        ∙ usable-last robot role es e h)
      (λ f. usable-last robot role es e h)

usable-locator_from_node :
    (robot : Device) (role action : Text) (node : UiNode) (source : Text) (obs : AgentObservation)
    (now : ℕ) (old : Option Locator)
    → usable robot role (renewed old (locator_from_node robot role action node source obs now) ∷ [])
      ≡ renewed old (locator_from_node robot role action node source obs now) ∷ []
unfolding usable renewed locator_from_node
usable-locator_from_node robot role action node source obs now none =
    rw (text_eq_refl role, fingerprint_matches_refl (device_fingerprint robot))
usable-locator_from_node robot role action node source obs now (some old) =
    rw (text_eq_refl role, fingerprint_matches_refl (device_fingerprint robot))

first_match-renewed :
    (robot : Device) (role action : Text) (node : UiNode) (source target : Text)
    (obs seen : AgentObservation) (now : ℕ) (old : Option Locator)
    → first_match
        (renewed old (locator_from_node robot role action node source obs now) ∷ [])
        target
        seen
      ≡ best (spec_from_node role node obs) target seen (values seen.nodes)
unfolding first_match match_entry renewed locator_from_node
first_match-renewed robot role action node source target obs seen now none =
    some-same (best (spec_from_node role node obs) target seen (values seen.nodes))
first_match-renewed robot role action node source target obs seen now (some old) =
    some-same (best (spec_from_node role node obs) target seen (values seen.nodes))

-- A locator that was learned from a node with a class is found again on the same device and screen, for
-- any contact, or for the contact that is the node's label if the role is that of the contact's chat:
-- the match is a node that fits what was learned at least as well as the node it was learned from.
pub match-remember_success :
    (robot : Device) (learned : Data) (role action : Text) (node : UiNode) (source target : Text)
    (obs : AgentObservation) (now : ℕ)
    → Member node (values obs.nodes)
    → is_empty node.cls ≡ false
    → (text_eq role (codes "chat_target") ≡ true → node_label node ≡ target)
    → (m : UiNode) × (match robot
          (remember_success robot learned role action node source obs now)
          role
          target
          obs
        ≡ some m)
      × (score_node (spec_from_node role node obs) node target obs
          ≤ score_node (spec_from_node role node obs) m target obs)
unfolding remember_success
match-remember_success robot learned role action node source target obs now m c l =
    let b =
      best-AtLeast (spec_from_node role node obs) target obs node (values obs.nodes) m
        (score_node-spec_from_node role node target obs c l) in
    (
      b.0,
      match-one robot (remember_success robot learned role action node source obs now) role target
            obs _ (fingerprint_matches_refl (device_fingerprint robot))
            (usable-last robot role (existing robot learned) _ (
              usable-locator_from_node robot role action node source obs now
                (first (has_role role) (existing robot learned))))
          ∙ (first_match-renewed robot role action node source target obs obs now
                (first (has_role role) (existing robot learned))
              ∙ b.1),
      b.2,
    )
