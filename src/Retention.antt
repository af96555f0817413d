-- ===== src/Retention.antt =====
-- backend/app/services/retention.py, `sweep_once`: old messages are deleted and their conversations
-- stay. Times are in milliseconds.
use wecom_ai_agent.Prelude.{
  ℕ, ◌+◌, ◌*◌, ◌<◌, ◌≡◌, refl, ◌∙◌, sym, ap, inl, inr, Bool, true, false, some, List, [], ◌∷◌, ◌==◌,
  not, ltb, leb, if◌then◌else◌, is_empty, arith, any, keep, map, length, Member, Member-keep,
  Member-keep_of, any-Member, any_of_Member, Bool-cases, ==_iff, ==_refl,
}
use wecom_ai_agent.Prelude.Table.{get, Keyed, get_of_Member}
use wecom_ai_agent.Store.{Message, Settings, Db, message_key}
use wecom_ai_agent.Routers.Conversations.{drop_messages}
use wecom_ai_agent.Routers.Conversations.Links.{IsLinked, drop_messages-IsLinked}

abbrev pub days : ℕ → ℕ
days n = n * 86400000

-- `Message.created_at < utcnow() - timedelta(days=n)`
abbrev pub is_expired : ℕ → ℕ → Message → Bool
is_expired n now m = ltb (m.created_at + days n) now

unfoldable pub expired_ids : ℕ → Db → List ℕ
expired_ids n db = map (λ (m : Message). m.id) (keep (is_expired n db.now) db.messages)

unfoldable pub sweep_ids : List ℕ → Db → Db × ℕ
sweep_ids ids db =
    if is_empty ids then (db, 0) else (drop_messages (λ id. any (λ i. i == id) ids) db, length ids)

unfoldable pub sweep_once : Settings → Db → Db × ℕ
unfolding expired_ids sweep_ids
sweep_once settings db =
    if leb settings.message_retention_days 0
    then (db, 0)
    else sweep_ids (expired_ids settings.message_retention_days db) db

keep_ext :
    (p q : Message → Bool) (xs : List Message)
    → ((m : Message) → Member m xs → p m ≡ q m)
    → keep p xs ≡ keep q xs
keep_ext p q [] h = refl
keep_ext p q (x ∷ xs) h = ground (arith, h x (inl refl), keep_ext p q xs (λ m k. h m (inr k)))

length-map : (f : Message → ℕ) (xs : List Message) → length (map f xs) ≡ length xs
length-map f [] = refl
length-map f (x ∷ xs) = omega (arith, length-map f xs)

any-map :
    (f : Message → ℕ) (p : ℕ → Bool) (xs : List Message) → any p (map f xs) ≡ any (λ m. p (f m)) xs
any-map f p [] = refl
any-map f p (x ∷ xs) = ground (arith, any-map f p xs)

module _ (n : ℕ) (db : Db) (keyed : Keyed message_key 0 db.messages) where
  clash :
      (m : Message)
      → Member m db.messages
      → is_expired n db.now m ≡ false
      → any (λ (x : Message). x.id == m.id) (keep (is_expired n db.now) db.messages) ≡ false
  clash m h e =
      elim (Bool-cases
        (any (λ (x : Message). x.id == m.id) (keep (is_expired n db.now) db.messages))) [
          | inr f ↦ f
          | inl f ↦
              let (x, mx, px) =
                any-Member (λ (x : Message). x.id == m.id) (keep (is_expired n db.now) db.messages)
                  f in
              let (old, ex) = Member-keep (is_expired n db.now) db.messages x mx in
              let same : some x ≡ some m =
                sym (get_of_Member message_key 0 db.messages x keyed old)
                ∙ (ap (λ id. get message_key id db.messages) ((==_iff x.id m.id).0 px)
                    ∙ get_of_Member message_key 0 db.messages m keyed h) in
              let one : x ≡ m = cc in
              let bad = ap (is_expired n db.now) one in absurd (ground (arith, bad, ex, e))
        ]

  -- The keys are unique, so a message goes with the expired keys exactly if it is expired.
  goes :
      (m : Message)
      → Member m db.messages
      → any (λ i. i == m.id) (expired_ids n db) ≡ is_expired n db.now m
  unfolding expired_ids
  goes m h =
      any-map (λ (x : Message). x.id) (λ i. i == m.id) (keep (is_expired n db.now) db.messages)
      ∙ elim (Bool-cases (is_expired n db.now m)) [
        | inl e ↦
            any_of_Member (λ (x : Message). x.id == m.id) (keep (is_expired n db.now) db.messages) m
              (Member-keep_of (is_expired n db.now) db.messages m h e) (==_refl m.id)
            ∙ sym e
        | inr e ↦ clash m h e ∙ sym e
      ]

  kept :
      keep (λ m. not (any (λ i. i == m.id) (expired_ids n db))) db.messages
      ≡ keep (λ m. not (is_expired n db.now m)) db.messages
  kept = keep_ext _ _ db.messages (λ m h. ap not (goes m h))

-- If nothing is expired, nothing has to go.
none_expired :
    (n : ℕ) (db : Db)
    → is_empty (expired_ids n db) ≡ true
    → (db.messages ≡ keep (λ m. not (is_expired n db.now m)) db.messages)
      × (length (keep (is_expired n db.now) db.messages) ≡ 0)
unfolding expired_ids
none_expired n db e = none_in db.messages e
  where
    none_in :
        (ms : List Message)
        → is_empty (map (λ (m : Message). m.id) (keep (is_expired n db.now) ms)) ≡ true
        → (ms ≡ keep (λ m. not (is_expired n db.now m)) ms)
          × (length (keep (is_expired n db.now) ms) ≡ 0)
    none_in [] h = (refl, refl)
    none_in (x ∷ xs) h = ground (arith, none_in xs)

-- What a sweep leaves, and the number that it gives.
abbrev Swept : ℕ → Db → Db × ℕ → Type 0
Swept n db r =
    (r.0.messages ≡ keep (λ m. not (is_expired n db.now m)) db.messages)
    × (r.1 ≡ length (keep (is_expired n db.now) db.messages))
    × IsLinked r.0

sweep_ids-Swept :
    (n : ℕ) (db : Db)
    → Keyed message_key 0 db.messages
    → IsLinked db
    → Swept n db (sweep_ids (expired_ids n db) db)
unfolding sweep_ids expired_ids drop_messages
sweep_ids-Swept n db keyed linked = elim (Bool-cases (is_empty (expired_ids n db))) [
  | inl e ↦ rw e (let (a, b) = none_expired n db e in (a, sym b, linked))
  | inr e ↦ rw e (
    kept n db keyed,
    length-map (λ (m : Message). m.id) (keep (is_expired n db.now) db.messages),
    drop_messages-IsLinked (λ id. any (λ i. i == id) (expired_ids n db)) db linked,
  )
]

-- With a retention of some days a sweep keeps exactly the messages that are not older, in their
-- order, counts those that it deletes, and leaves no foreign key without its row.
pub sweep_once_lem :
    (settings : Settings) (db : Db)
    → 0 < settings.message_retention_days
    → Keyed message_key 0 db.messages
    → IsLinked db
    → let swept = sweep_once settings db in
      (swept.0.messages
        ≡ keep (λ m. not (is_expired settings.message_retention_days db.now m)) db.messages)
      × (swept.1 ≡ length (keep (is_expired settings.message_retention_days db.now) db.messages))
      × IsLinked swept.0
unfolding sweep_once
sweep_once_lem settings db pos keyed linked =
    elim (Bool-cases (leb settings.message_retention_days 0)) [
      | inl z ↦ absurd (ground arith)
      | inr z ↦ rw z (sweep_ids-Swept settings.message_retention_days db keyed linked)
    ]
