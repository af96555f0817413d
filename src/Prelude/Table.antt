-- ===== src/Prelude/Table.antt =====
-- A table of rows with a primary key: `db.get`, an update of one row, and what they keep.
use Prim.Native.Nat.{ℕ, suc, ◌+◌, ◌≤◌, ◌<◌}
use mathlib.Core.Path.{◌≡◌, refl, subst, sym, ◌∙◌}
use mathlib.Core.Logic.{inl, inr, ◌≢◌}
use mathlib.Core.Bool.{Bool, true}
use mathlib.Core.Option.{Option, none, some}
use mathlib.Core.List.{List, [], ◌∷◌, ◌++◌, map}
use native.Mathlib.Omega.{arith}
use wecom_ai_agent.Prelude.Tests.{◌==◌, if◌then◌else◌, ==_iff, ==_refl, Bool-cases}
use wecom_ai_agent.Prelude.Lists.{Member, All, count, length, first, first-Member}

module _ {A : Type 0} (key : A → ℕ) where
  -- `await db.get(Row, id)`
  abbrev pub get : ℕ → List A → Option A
  get id [] = none
  get id (x ∷ xs) = if key x == id then some x else get id xs

  -- An assignment to attributes of the row with that primary key.
  abbrev pub update : ℕ → (A → A) → List A → List A
  update id f [] = []
  update id f (x ∷ xs) = if key x == id then f x ∷ xs else x ∷ update id f xs

  -- The primary keys grow in the order of insertion, from `n` on.
  abbrev pub Keyed : ℕ → List A → Type 0
  Keyed n [] = Unit {0}
  Keyed n (x ∷ xs) = (n ≤ key x) × Keyed (suc (key x)) xs

  pub Keyed-mono : {m n : ℕ} (xs : List A) → m ≤ n → Keyed n xs → Keyed m xs
  Keyed-mono [] h k = tt
  Keyed-mono (x ∷ xs) h k = (omega arith, k.1)

  pub Member-above : (n : ℕ) (xs : List A) (a : A) → Keyed n xs → Member a xs → n ≤ key a
  Member-above n [] a k m = absurd m
  Member-above n (x ∷ xs) a k (inl e) = ground arith
  Member-above n (x ∷ xs) a k (inr m) = omega (arith, Member-above (suc (key x)) xs a k.1 m)

  -- A row of the table is the one that its key finds.
  pub get_of_Member :
      (n : ℕ) (xs : List A) (a : A) → Keyed n xs → Member a xs → get (key a) xs ≡ some a
  get_of_Member n [] a k m = absurd m
  get_of_Member n (x ∷ xs) a k (inl e) = ground (arith, ==_refl (key x))
  get_of_Member n (x ∷ xs) a k (inr m) =
      ground (arith, Member-above (suc (key x)) xs a k.1 m, get_of_Member (suc (key x)) xs a k.1 m)

  pub get-some_of_Member : (xs : List A) (a : A) → Member a xs → (b : A) × (get (key a) xs ≡ some b)
  get-some_of_Member [] a m = absurd m
  get-some_of_Member (x ∷ xs) a (inl e) = (x, ground (arith, ==_refl (key a)))
  get-some_of_Member (x ∷ xs) a (inr m) = elim (Bool-cases (key x == key a)) [
    | inl e ↦ (x, rw e)
    | inr e ↦ let (b, h) = get-some_of_Member xs a m in (b, rw e h)
  ]

  pub get-key : (id : ℕ) (xs : List A) (a : A) → get id xs ≡ some a → key a ≡ id
  get-key id [] a h = cc
  get-key id (x ∷ xs) a h = ground (arith, get-key id xs a)

  pub get-Member : (id : ℕ) (xs : List A) (a : A) → get id xs ≡ some a → Member a xs
  get-Member id [] a h = cc
  get-Member id (x ∷ xs) a h = ground (arith, get-Member id xs a)

  pub get-update_self :
      (id : ℕ) (f : A → A) (xs : List A) (a : A)
      → get id xs ≡ some a
      → key (f a) ≡ id
      → get id (update id f xs) ≡ some (f a)
  get-update_self id f [] a h e = cc
  get-update_self id f (x ∷ xs) a h e = ground (arith, get-update_self id f xs a, ==_refl id)

  -- The same, where the update names the row by its own key.
  pub get-update_row :
      (id : ℕ) (f : A → A) (xs : List A) (a : A)
      → get id xs ≡ some a
      → key (f a) ≡ key a
      → get id (update (key a) f xs) ≡ some (f a)
  get-update_row id f xs a h e =
      subst (λ j. get id (update j f xs) ≡ some (f a)) (sym (get-key id xs a h))
        (get-update_self id f xs a h (e ∙ get-key id xs a h))

  -- The keys stay: an update changes no other row.
  pub get-update_ne :
      (id j : ℕ) (f : A → A) (xs : List A)
      → ((a : A) → key (f a) ≡ key a)
      → id ≢ j
      → get j (update id f xs) ≡ get j xs
  get-update_ne id j f [] k h = refl
  get-update_ne id j f (x ∷ xs) k h = ground (arith, k x, ==_iff id j, get-update_ne id j f xs k h)

  pub update-none : (id : ℕ) (f : A → A) (xs : List A) → get id xs ≡ none → update id f xs ≡ xs
  update-none id f [] h = refl
  update-none id f (x ∷ xs) h = ground (arith, update-none id f xs)

  pub Keyed-update :
      (n id : ℕ) (f : A → A) (xs : List A)
      → ((a : A) → key (f a) ≡ key a)
      → Keyed n xs
      → Keyed n (update id f xs)
  Keyed-update n id f [] k h = tt
  Keyed-update n id f (x ∷ xs) k h = ground (arith, k x, Keyed-update (suc (key x)) id f xs k h.1)

  -- A new row with a key above all others goes to the end.
  pub Keyed-snoc :
      (n : ℕ) (xs : List A) (a : A)
      → Keyed n xs
      → All (λ x. key x < key a) xs
      → n ≤ key a
      → Keyed n (xs ++ a ∷ [])
  Keyed-snoc n [] a k f h = (h, tt)
  Keyed-snoc n (x ∷ xs) a k f h = (k.0, Keyed-snoc (suc (key x)) xs a k.1 f.1 (omega arith))

  pub count_one : (p : A → Bool) (a : A) → count p (a ∷ []) ≤ 1
  count_one p a = ground arith

  -- An update takes the old row out of a count and puts the new one in.
  pub count-update :
      (p : A → Bool) (id : ℕ) (f : A → A) (xs : List A) (a : A)
      → get id xs ≡ some a
      → count p (update id f xs) + count p (a ∷ []) ≡ count p xs + count p (f a ∷ [])
  count-update p id f [] a h = cc
  count-update p id f (x ∷ xs) a h = ground (arith, count-update p id f xs a)

  pub All-update {κ} :
      {P : A → Type κ} (id : ℕ) (f : A → A) (xs : List A)
      → ((a : A) → P a → P (f a))
      → All P xs
      → All P (update id f xs)
  All-update id f [] k h = tt
  All-update id f (x ∷ xs) k h = ground (arith, k x h.0, All-update id f xs k h.1)

  -- A change of every row that keeps the keys changes the row that is found.
  pub get-map :
      (f : A → A)
      → ((x : A) → key (f x) ≡ key x)
      → (id : ℕ) (xs : List A) (a : A) → get id xs ≡ some a
      → get id (map f xs) ≡ some (f a)
  get-map f k id [] a h = cc
  get-map f k id (x ∷ xs) a h = ground (arith, k x, get-map f k id xs a)

  pub length-update : (id : ℕ) (f : A → A) (xs : List A) → length (update id f xs) ≡ length xs
  length-update id f [] = refl
  length-update id f (x ∷ xs) = ground (arith, length-update id f xs)

  -- A new row is found by its key, and no row that was found before is lost.
  pub get-snoc_old :
      (id : ℕ) (xs : List A) (a b : A) → get id xs ≡ some b → get id (xs ++ a ∷ []) ≡ some b
  get-snoc_old id [] a b h = cc
  get-snoc_old id (x ∷ xs) a b h = ground (arith, get-snoc_old id xs a b)

  pub get-snoc_new :
      (id : ℕ) (xs : List A) (a : A)
      → get id xs ≡ none
      → get id (xs ++ a ∷ []) ≡ (if key a == id then some a else none)
  get-snoc_new id [] a h = refl
  get-snoc_new id (x ∷ xs) a h = ground (arith, get-snoc_new id xs a)

  pub get-none_of_below :
      (n id : ℕ) (xs : List A) → All (λ x. key x < n) xs → n ≤ id → get id xs ≡ none
  get-none_of_below n id [] b h = refl
  get-none_of_below n id (x ∷ xs) b h = ground (arith, get-none_of_below n id xs b.1 h)

  -- The first row of a kind stays the first, when it is changed by its key and stays of that kind.
  pub first-update_self :
      (n : ℕ) (p : A → Bool) (f : A → A) (xs : List A) (a : A)
      → Keyed n xs
      → first p xs ≡ some a
      → p (f a) ≡ true
      → first p (update (key a) f xs) ≡ some (f a)
  first-update_self n p f [] a k h e = cc
  first-update_self n p f (x ∷ xs) a k h e = ground (
    arith,
    ==_refl (key x),
    Member-above (suc (key x)) xs a k.1,
    first-Member p xs a,
    first-update_self (suc (key x)) p f xs a k.1,
  )
