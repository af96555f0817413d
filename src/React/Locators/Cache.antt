-- ===== src/React/Locators/Cache.antt =====
-- backend/app/ai/react_locators.py, `LocatorStore`: its matches and what it remembers. `now` is the
-- clock's reading.
use wecom_ai_agent.Prelude.{
  ℕ, suc, Bool, true, false, Option, none, some, List, [], ◌∷◌, ◌++◌, ◌==◌, ◌&&◌, ◌||◌, not,
  if◌then◌else◌, is_empty, keep, first, leb, ltb, take, map,
}
use wecom_ai_agent.Prelude.Text.{Text, text_eq}
use wecom_ai_agent.React.{UiNode, AgentObservation}
use wecom_ai_agent.React.FastDecide.{LocatorMatch}
use wecom_ai_agent.React.Locators.{
  Device, Locator, Data, device_fingerprint, fingerprint_matches, spec_from_node, match_entry,
}

-- The order of `(success_count, updated_at)`
abbrev pub counts_less : Locator → Locator → Bool
counts_less a b =
    ltb a.success_count b.success_count
    || ((a.success_count == b.success_count) && ltb a.updated_at b.updated_at)

unfoldable pub insert_entry : Locator → List Locator → List Locator
insert_entry e [] = e ∷ []
insert_entry e (x ∷ xs) =
    let rest = insert_entry e xs in if counts_less e x then x ∷ rest else e ∷ x ∷ xs

-- `entries.sort(key=..., reverse=True)`, which leaves equals in their order
unfoldable pub sort_entries : List Locator → List Locator
sort_entries [] = []
sort_entries (e ∷ es) = insert_entry e (sort_entries es)

unfoldable pub first_match : List Locator → Text → AgentObservation → Option UiNode
first_match [] target obs = none
first_match (e ∷ es) target obs =
    let rest = first_match es target obs in
    elim (match_entry e target obs) [ none ↦ rest | some node ↦ some node ]

abbrev pub has_role : Text → Locator → Bool
has_role role e = text_eq e.role role

-- The entries that `match` tries, before it sorts them
unfoldable pub usable : Device → Text → List Locator → List Locator
usable robot role entries =
    keep
      (λ (e : Locator).
        has_role role e
        && (e.enabled
            && fingerprint_matches (some e.device_fingerprint) (device_fingerprint robot)))
      entries

-- `LocatorStore.match`
unfoldable pub match : Device → Data → Text → Text → AgentObservation → Option UiNode
match robot learned role target obs =
    if fingerprint_matches learned.device_fingerprint (device_fingerprint robot)
    then first_match (take 5 (sort_entries (usable robot role learned.locators))) target obs
    else none

-- What the agent sees of it
unfoldable pub locator_match : Device → Data → LocatorMatch
locator_match robot learned = record { match = match robot learned }

-- A fresh locator with the counts and the age of the one that it replaces
unfoldable pub renewed : Option Locator → Locator → Locator
renewed none fresh = fresh
renewed (some old) fresh = record fresh {
  success_count = suc old.success_count;
  failure_count = old.failure_count;
  created_at = old.created_at;
}

-- `_locator_from_node`, with the device that the locator is learned on
unfoldable pub locator_from_node :
    Device → Text → Text → UiNode → Text → AgentObservation → ℕ → Locator
locator_from_node robot role action node source obs now = record {
  role = role;
  action = action;
  source = source;
  enabled = true;
  created_at = now;
  updated_at = now;
  success_count = 1;
  failure_count = 0;
  spec = spec_from_node role node obs;
  device_fingerprint = device_fingerprint robot;
}

-- The entries that `remember_success` starts from
unfoldable pub existing : Device → Data → List Locator
existing robot learned =
    if fingerprint_matches learned.device_fingerprint (device_fingerprint robot)
    then learned.locators
    else []

-- `LocatorStore.remember_success`, for the screen of the observation
unfoldable pub remember_success :
    Device → Data → Text → Text → UiNode → Text → AgentObservation → ℕ → Data
remember_success robot learned role action node source obs now = record {
  device_fingerprint = some (device_fingerprint robot);
  locators =
      keep (λ e. not (has_role role e)) (existing robot learned)
      ++ (renewed (first (has_role role) (existing robot learned))
            (locator_from_node robot role action node source obs now)
          ∷ []);
}

unfoldable pub failed : ℕ → Text → Locator → Locator
failed now role e =
    if has_role role e
    then record e {
      failure_count = suc e.failure_count;
      updated_at = now;
      enabled = if leb 3 (suc e.failure_count) then false else e.enabled;
    }
    else e

-- `LocatorStore.remember_failure`; an empty role is none.
unfoldable pub remember_failure : Data → Text → ℕ → Data
remember_failure learned role now =
    if is_empty role
    then learned
    else record learned { locators = map (failed now role) learned.locators }
