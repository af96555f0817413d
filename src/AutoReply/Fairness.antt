-- ===== src/AutoReply/Fairness.antt =====
-- backend/app/services/auto_reply_scheduler.py, `_next_pending_conversation`: whom the scheduler
-- answers next.
use wecom_ai_agent.Prelude.{
  ℕ, ◌≡◌, ◌≢◌, refl, sym, ◌∙◌, ap, ◌⊎◌, inl, inr, Bool, true, false, Option, none, some, List, [],
  ◌∷◌, arith, ◌==◌, not, leb, or_else, first, keep, Member, first-Member, first-passes,
  Option-cases, Member-keep, Member-keep_of, subst, Bool-cases, ==_iff, conflict,
}
use wecom_ai_agent.Prelude.Order.{
  lex_leb, order_by, Sorted, Least, order_by-Sorted, first-Sorted, select_first, select_none,
  Member-order_by, Member-order_by_of,
}
use wecom_ai_agent.Store.{Conversation, Db}
use wecom_ai_agent.AutoReply.{
  Turns, choose, step_back, ordered_conversations, next_pending_conversation, oldest_pending_at,
  is_eligible,
}

first-none-all :
    (p : Conversation → Bool) (xs : List Conversation) (a : Conversation)
    → first p xs ≡ none
    → Member a xs
    → p a ≡ false
first-none-all p [] a h m = absurd m
first-none-all p (x ∷ xs) a h (inl e) = ground arith
first-none-all p (x ∷ xs) a h (inr m) = ground (arith, first-none-all p xs a)

some-inj : {a b : Conversation} → some a ≡ some b → a ≡ b
some-inj p = cc

-- The third turn in a row goes to the same conversation only if there is no other one.
step_back_lem :
    (last turns : ℕ) (x c d : Conversation) (xs : List Conversation)
    → leb 2 turns ≡ true
    → or_else (step_back (some last) turns xs) x ≡ c
    → c.id ≡ last
    → Member d xs
    → d.id ≡ last
unfolding step_back
step_back_lem last turns x c d xs t e h m = elim (Option-cases (first other xs)) [
  | inl n ↦ ground (arith, first-none-all other xs d n m)
  | inr (o, n) ↦
      let passes = first-passes other xs o n in
      let same : o ≡ c = simp (t, n) at e in
      let own : o.id ≡ last = ap (λ (z : Conversation). z.id) same ∙ h in
      absurd (ground (arith, passes, own))
]
  where
    other : Conversation → Bool
    other z = not (z.id == last)

choose_lem :
    (turns : Turns) (xs : List Conversation) (last : ℕ) (c d : Conversation)
    → turns.last_conv_id ≡ some last
    → leb 2 turns.same_conv_turns ≡ true
    → choose turns xs ≡ some c
    → c.id ≡ last
    → Member d xs
    → d.id ≡ last
unfolding choose
choose_lem turns [] last c d l t e h m = absurd m
choose_lem turns (x ∷ []) last c d l t e h (inl p) =
    ap (λ (z : Conversation). z.id) (p ∙ some-inj e) ∙ h
choose_lem turns (x ∷ []) last c d l t e h (inr m) = absurd m
choose_lem turns (x ∷ y ∷ xs) last c d l t e h m =
    step_back_lem last turns.same_conv_turns x c d (x ∷ y ∷ xs) t
      (ap (λ o. or_else (step_back o turns.same_conv_turns (x ∷ y ∷ xs)) x) (sym l) ∙ some-inj e) h
      m

step_back-Member :
    (last : Option ℕ) (turns : ℕ) (x c : Conversation) (xs : List Conversation)
    → Member x xs
    → or_else (step_back last turns xs) x ≡ c
    → Member c xs
unfolding step_back
step_back-Member none turns x c xs m e = rw (← e) m
step_back-Member (some last) turns x c xs m e = elim (Option-cases (first other xs)) [
  | inl n ↦ ground (arith, n, e, m)
  | inr (o, n) ↦ ground (arith, n, e, m, first-Member other xs o n)
]
  where
    other : Conversation → Bool
    other z = not (z.id == last)

choose-Member :
    (turns : Turns) (xs : List Conversation) (c : Conversation)
    → choose turns xs ≡ some c
    → Member c xs
unfolding choose
choose-Member turns [] c e = cc
choose-Member turns (x ∷ []) c e = inl (sym (some-inj e))
choose-Member turns (x ∷ y ∷ xs) c e =
    step_back-Member turns.last_conv_id turns.same_conv_turns x c (x ∷ y ∷ xs) (inl refl)
      (some-inj e)

choose-none : (turns : Turns) (xs : List Conversation) → choose turns xs ≡ none → xs ≡ []
unfolding choose
choose-none turns [] e = refl
choose-none turns (x ∷ []) e = cc
choose-none turns (x ∷ y ∷ xs) e = cc

-- The conversation that was answered last, and how often in a row, do not hold it back.
abbrev pub IsFree : Turns → Type 0
IsFree turns = (turns.last_conv_id ≡ none) ⊎ (leb 2 turns.same_conv_turns ≡ false)

step_back-none :
    (last : Option ℕ) (turns : ℕ) (xs : List Conversation)
    → leb 2 turns ≡ false
    → step_back last turns xs ≡ none
unfolding step_back
step_back-none none turns xs h = refl
step_back-none (some last) turns xs h = rw h

choose-head :
    (turns : Turns) (xs : List Conversation) (c : Conversation)
    → IsFree turns
    → choose turns xs ≡ some c
    → (rest : List Conversation) × (xs ≡ c ∷ rest)
unfolding choose step_back
choose-head turns [] c f e = cc
choose-head turns (x ∷ []) c f e = ([], ap (λ z. z ∷ []) (some-inj e))
choose-head turns (x ∷ y ∷ xs) c f e = (y ∷ xs, ap (λ z. z ∷ y ∷ xs) (kept f (some-inj e)))
  where
    kept :
        IsFree turns
        → or_else (step_back turns.last_conv_id turns.same_conv_turns (x ∷ y ∷ xs)) x ≡ c
        → x ≡ c
    kept (inl n) p =
        ap (λ o. or_else (step_back o turns.same_conv_turns (x ∷ y ∷ xs)) x) (sym n) ∙ p
    kept (inr n) p =
        ap (λ o. or_else o x)
          (sym (step_back-none turns.last_conv_id turns.same_conv_turns (x ∷ y ∷ xs) n))
        ∙ p

-- The choice comes before every conversation that is not the one answered last.
choose_other :
    (key : Conversation → List ℕ) (turns : Turns) (xs : List Conversation) (l : ℕ)
    (c d : Conversation)
    → Sorted key xs
    → turns.last_conv_id ≡ some l
    → choose turns xs ≡ some c
    → Member d xs
    → d.id ≢ l
    → lex_leb (key c) (key d) ≡ true
unfolding choose step_back
choose_other key turns [] l c d s t e m o = absurd m
choose_other key turns (x ∷ []) l c d s t e m o = rw (← some-inj e) (s.0 d m)
choose_other key turns (x ∷ y ∷ xs) l c d s t e m o =
    elim (Bool-cases (leb 2 turns.same_conv_turns)) [
      | inr f ↦
          let (rest, p) = choose-head turns (x ∷ y ∷ xs) c (inr f) e in
          subst (Least key) p s.0 d (subst (Member d) p m)
      | inl f ↦ elim (Option-cases (first other (x ∷ y ∷ xs))) [
        | inl n ↦
            conflict (first-none-all other (x ∷ y ∷ xs) d n m) (not_last (Bool-cases (d.id == l)))
        | inr (a, n) ↦
            let e' : or_else (step_back (some l) turns.same_conv_turns (x ∷ y ∷ xs)) x ≡ c =
              ap (λ k. or_else (step_back k turns.same_conv_turns (x ∷ y ∷ xs)) x) (sym t)
              ∙ some-inj e in
            let same : a ≡ c = simp (f, n) at e' in
            subst (λ z. lex_leb (key z) (key d) ≡ true) same
              (first-Sorted key other (x ∷ y ∷ xs) a d s n m (not_last (Bool-cases (d.id == l))))
      ]
    ]
  where
    other : Conversation → Bool
    other z = not (z.id == l)

    not_last : ((d.id == l) ≡ true) ⊎ ((d.id == l) ≡ false) → not (d.id == l) ≡ true
    not_last (inl q) = absurd (o ((==_iff d.id l).0 q))
    not_last (inr q) = rw q

-- What is known of the conversation that is answered next.
pub record IsChosen (db : Db) (robot_pk : ℕ) (turns : Turns) (excluded : List ℕ)
    (conv : Conversation) : Type 0 where
  pub member : Member conv db.conversations
  pub eligible : is_eligible db robot_pk excluded conv ≡ true
  -- a third turn in a row only where no other conversation waits
  pub fair :
      (d : Conversation)
      → turns.last_conv_id ≡ some conv.id
      → leb 2 turns.same_conv_turns ≡ true
      → Member d db.conversations
      → is_eligible db robot_pk excluded d ≡ true
      → d.id ≡ conv.id
  -- even then no other conversation has waited longer than it
  pub oldest_other :
      (l : ℕ) (d : Conversation)
      → turns.last_conv_id ≡ some l
      → Member d db.conversations
      → is_eligible db robot_pk excluded d ≡ true
      → d.id ≢ l
      → lex_leb (oldest_pending_at db conv ∷ []) (oldest_pending_at db d ∷ []) ≡ true
  -- else the one whose oldest message has waited longest
  pub oldest :
      (d : Conversation)
      → IsFree turns
      → Member d db.conversations
      → is_eligible db robot_pk excluded d ≡ true
      → lex_leb (oldest_pending_at db conv ∷ []) (oldest_pending_at db d ∷ []) ≡ true

module _ (db : Db) (robot_pk : ℕ) (turns : Turns) (excluded : List ℕ) where
  abbrev eligible : Conversation → Bool
  eligible = is_eligible db robot_pk excluded

  abbrev age : Conversation → List ℕ
  age conv = oldest_pending_at db conv ∷ []

  -- The scheduler answers a conversation of the robot that waits for a reply, has none under way and
  -- no worker on it: the one whose oldest message has waited longest; but after two turns of a
  -- conversation in a row, the one that has waited longest among the others, if there is any.
  pub next_pending_conversation-IsChosen :
      (conv : Conversation)
      → next_pending_conversation db robot_pk turns excluded ≡ some conv
      → IsChosen db robot_pk turns excluded conv
  unfolding next_pending_conversation ordered_conversations
  next_pending_conversation-IsChosen conv e =
      let list = order_by age (keep eligible db.conversations) in
      let (m, h) = Member-keep eligible db.conversations conv (
        Member-order_by age conv (keep eligible db.conversations)
          (choose-Member turns list conv e)) in
      record {
        member = m;
        eligible = h;
        fair = λ d l t n k. choose_lem turns list conv.id conv d l t e refl (
            Member-order_by_of age d (keep eligible db.conversations)
              (Member-keep_of eligible db.conversations d n k));
        oldest_other = λ l d t n k o.
            choose_other age turns list l conv d
              (order_by-Sorted age (keep eligible db.conversations)) t e
              (Member-order_by_of age d (keep eligible db.conversations)
                (Member-keep_of eligible db.conversations d n k))
              o;
        oldest = λ d f n k.
            let (rest, p) = choose-head turns list conv f e in
            (select_first age eligible db.conversations conv rest p).2 d n k;
      }

  -- The scheduler finds no conversation only when none is eligible.
  pub next_pending_conversation-none :
      (d : Conversation)
      → next_pending_conversation db robot_pk turns excluded ≡ none
      → Member d db.conversations
      → is_eligible db robot_pk excluded d ≡ false
  unfolding next_pending_conversation ordered_conversations
  next_pending_conversation-none d e m =
      select_none age eligible db.conversations
        (choose-none turns (order_by age (keep eligible db.conversations)) e) d m
