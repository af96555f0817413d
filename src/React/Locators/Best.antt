-- ===== src/React/Locators/Best.antt =====
-- backend/app/ai/react_locators.py, `_match_entry`: the node that fits best, and the score of a node's own
-- locator.
use wecom_ai_agent.Prelude.{
  ℕ, ◌+◌, ◌≤◌, ◌≡◌, refl, sym, ap, ◌∙◌, subst, inl, inr, Bool, true, false, Option, none, some,
  List, [], ◌∷◌, ◌&&◌, not, if◌then◌else◌, is_empty, leb, ltb, arith, Member, if_cases,
}
use wecom_ai_agent.Prelude.Text.{Text, codes, text_eq, text_eq_refl}
use wecom_ai_agent.React.{UiNode, AgentObservation, node_label}
use wecom_ai_agent.React.Locators.{
  Device, fingerprint_matches, spec_from_node, score_node, best, prefer, is_unanchored, Spec, same,
  agree, structure_score, is_textual,
}

-- A node that scores at least as much.
abbrev pub AtLeast : Spec → Text → AgentObservation → ℕ → Option UiNode → Type 0
AtLeast spec target obs score o =
    (m : UiNode) × (o ≡ some m) × (score ≤ score_node spec m target obs)

pub prefer-own :
    (spec : Spec) (target : Text) (obs : AgentObservation) (n : UiNode) (rest : Option UiNode)
    → AtLeast spec target obs (score_node spec n target obs) (prefer spec target obs n rest)
unfolding prefer
prefer-own spec target obs n none = (n, refl, omega arith)
prefer-own spec target obs n (some m) =
    if_cases (AtLeast spec target obs (score_node spec n target obs)) _
      (λ h. (m, refl, ground arith)) (λ h. (n, refl, omega arith))

pub prefer-other :
    (spec : Spec) (target : Text) (obs : AgentObservation) (n m : UiNode)
    → AtLeast spec target obs (score_node spec m target obs) (prefer spec target obs n (some m))
unfolding prefer
prefer-other spec target obs n m =
    if_cases (AtLeast spec target obs (score_node spec m target obs)) _
      (λ h. (m, refl, omega arith)) (λ h. (n, refl, ground arith))

pub best-AtLeast :
    (spec : Spec) (target : Text) (obs : AgentObservation) (n : UiNode) (ns : List UiNode)
    → Member n ns
    → leb 70 (score_node spec n target obs) ≡ true
    → AtLeast spec target obs (score_node spec n target obs) (best spec target obs ns)
unfolding best
best-AtLeast spec target obs n [] m h = absurd m
best-AtLeast spec target obs n (x ∷ ns) (inl e) h =
    if_cases (AtLeast spec target obs (score_node spec n target obs))
      (ltb (score_node spec x target obs) 70) (λ f. ground (arith, e))
      (λ f.
        subst
          (λ k.
            AtLeast spec target obs (score_node spec k target obs)
              (prefer spec target obs x (best spec target obs ns)))
          (sym e) (prefer-own spec target obs x (best spec target obs ns)))
best-AtLeast spec target obs n (x ∷ ns) (inr m) h =
    let ih = best-AtLeast spec target obs n ns m h in
    if_cases (AtLeast spec target obs (score_node spec n target obs))
      (ltb (score_node spec x target obs) 70) (λ f. ih)
      (λ f.
        let other = prefer-other spec target obs x ih.0 in
        (other.0, ap (prefer spec target obs x) ih.1 ∙ other.1, ground (arith, ih.2, other.2)))

pub same_refl : (o : Option Text) → same o o ≡ true
same_refl none = refl
same_refl (some s) = text_eq_refl s

pub fingerprint_matches_refl : (d : Device) → fingerprint_matches (some d) d ≡ true
unfolding fingerprint_matches
fingerprint_matches_refl d =
    rw (
      same_refl d.device_type,
      same_refl d.manufacturer,
      same_refl d.model,
      same_refl d.app_version,
    )

pub agree_refl : (b : Bool) → agree b b ≡ true
agree_refl true = refl
agree_refl false = refl

pub texted-own :
    (is_chat is_text : Bool) (label target : Text)
    → (is_chat ≡ true → label ≡ target)
    → (not (is_empty (if is_chat then target else if is_text then label else []))
        && not (text_eq label (if is_chat then target else if is_text then label else [])))
      ≡ false
texted-own true is_text label target l = ground (arith, l refl, text_eq_refl label)
texted-own false true label target l = ground (arith, text_eq_refl label)
texted-own false false label target l = refl

pub scored :
    (a b : Bool) (t s : ℕ)
    → a ≡ false
    → b ≡ false
    → 70 ≤ s
    → leb 70 (if a then 0 else if b then 0 else t + s) ≡ true
scored a b t s p q h = ground arith

pub is_unanchored-own :
    (role : Text) (node : UiNode) (obs : AgentObservation)
    → is_empty node.cls ≡ false
    → is_unanchored (spec_from_node role node obs) node ≡ false
unfolding spec_from_node
is_unanchored-own role node obs c = rw (c, text_eq_refl node.cls)

pub structure_score-own :
    (role : Text) (node : UiNode) (obs : AgentObservation)
    → is_empty node.cls ≡ false
    → 70 ≤ structure_score (spec_from_node role node obs) node obs
unfolding spec_from_node structure_score
structure_score-own role node obs c =
    rw
      (
        c,
        text_eq_refl node.cls,
        agree_refl node.editable,
        agree_refl node.clickable,
        agree_refl node.focusable,
        agree_refl node.scrollable,
      )
      (ground arith)

-- The node scores enough for what was learned from it.
pub score_node-spec_from_node :
    (role : Text) (node : UiNode) (target : Text) (obs : AgentObservation)
    → is_empty node.cls ≡ false
    → (text_eq role (codes "chat_target") ≡ true → node_label node ≡ target)
    → leb 70 (score_node (spec_from_node role node obs) node target obs) ≡ true
unfolding score_node structure_score spec_from_node
score_node-spec_from_node role node target obs c l =
    scored _ (is_unanchored (spec_from_node role node obs) node) _ _
      (texted-own (text_eq role (codes "chat_target")) (is_textual role) (node_label node) target l)
      (is_unanchored-own role node obs c) (structure_score-own role node obs c)
