-- ===== src/Prelude/Order.antt =====
-- `ORDER BY`: rows are sorted by a list of numbers, read from the left.
use Prim.Native.Nat.{ℕ, ◌<◌}
use mathlib.Core.Path.{◌≡◌, refl, subst, sym}
use mathlib.Core.Logic.{◌⊎◌, inl, inr}
use mathlib.Core.Bool.{Bool, true, false}
use mathlib.Core.Option.{some}
use mathlib.Core.List.{List, [], ◌∷◌}
use native.Mathlib.Omega.{arith}
use wecom_ai_agent.Prelude.Tests.{◌==◌, ltb, if◌then◌else◌, or_else, Bool-cases}
use wecom_ai_agent.Prelude.Lists.{Member, keep, first, Member-keep, Member-keep_of}

-- The lexicographic order on sort keys.
pub lex_leb : List ℕ → List ℕ → Bool
lex_leb [] ks = true
lex_leb (j ∷ js) [] = false
lex_leb (j ∷ js) (k ∷ ks) = if j == k then lex_leb js ks else ltb j k

pub lex_leb_refl : (js : List ℕ) → lex_leb js js ≡ true
unfolding lex_leb
lex_leb_refl [] = refl
lex_leb_refl (j ∷ js) = ground (arith, lex_leb_refl js)

pub lex_leb-total : (js ks : List ℕ) → lex_leb js ks ≡ false → lex_leb ks js ≡ true
unfolding lex_leb
lex_leb-total [] ks h = cc
lex_leb-total (j ∷ js) [] h = refl
lex_leb-total (j ∷ js) (k ∷ ks) h = ground (arith, lex_leb-total js ks)

pub lex_leb_trans :
    (js ks ls : List ℕ) → lex_leb js ks ≡ true → lex_leb ks ls ≡ true → lex_leb js ls ≡ true
unfolding lex_leb
lex_leb_trans [] ks ls h k = refl
lex_leb_trans (j ∷ js) [] ls h k = cc
lex_leb_trans (j ∷ js) (k ∷ ks) [] h l = cc
lex_leb_trans (j ∷ js) (k ∷ ks) (l ∷ ls) h m = ground (arith, lex_leb_trans js ks ls)

pub lex_leb-cons : (k : ℕ) (js ks : List ℕ) → lex_leb (k ∷ js) (k ∷ ks) ≡ lex_leb js ks
unfolding lex_leb
lex_leb-cons k js ks = ground arith

pub lex_leb-lt :
    (j k : ℕ) (js ks : List ℕ)
    → j < k
    → (lex_leb (j ∷ js) (k ∷ ks) ≡ true) × (lex_leb (k ∷ ks) (j ∷ js) ≡ false)
unfolding lex_leb
lex_leb-lt j k js ks h = ground arith

module _ {A : Type 0} (key : A → List ℕ) where
  pub insert : A → List A → List A
  insert a [] = a ∷ []
  insert a (x ∷ xs) = if lex_leb (key a) (key x) then a ∷ x ∷ xs else x ∷ insert a xs

  -- A stable sort: of two rows with one key, the earlier comes first.
  unfoldable pub order_by : List A → List A
  unfolding insert lex_leb
  order_by [] = []
  order_by (x ∷ xs) = insert x (order_by xs)

  Member-insert : (a b : A) (xs : List A) → Member b (insert a xs) → (b ≡ a) ⊎ Member b xs
  unfolding insert
  Member-insert a b [] m = m
  Member-insert a b (x ∷ xs) m = ground (arith, Member-insert a b xs)

  Member-insert_of : (a b : A) (xs : List A) → (b ≡ a) ⊎ Member b xs → Member b (insert a xs)
  unfolding insert
  Member-insert_of a b [] m = m
  Member-insert_of a b (x ∷ xs) m = ground (arith, Member-insert_of a b xs)

  pub Member-order_by : (b : A) (xs : List A) → Member b (order_by xs) → Member b xs
  unfolding order_by
  Member-order_by b [] m = m
  Member-order_by b (x ∷ xs) m =
      ground (arith, Member-insert x b (order_by xs), Member-order_by b xs)

  pub Member-order_by_of : (b : A) (xs : List A) → Member b xs → Member b (order_by xs)
  unfolding order_by
  Member-order_by_of b (x ∷ xs) (inl e) = Member-insert_of x b (order_by xs) (inl e)
  Member-order_by_of b (x ∷ xs) (inr m) =
      Member-insert_of x b (order_by xs) (inr (Member-order_by_of b xs m))
  Member-order_by_of b [] m = m

  -- The row in front comes before every row.
  abbrev pub Least : List A → Type 0
  Least [] = Unit {0}
  Least (x ∷ xs) = (b : A) → Member b (x ∷ xs) → lex_leb (key x) (key b) ≡ true

  Least-cons :
      (a x : A) (xs : List A) → lex_leb (key a) (key x) ≡ true → Least (x ∷ xs) → Least (a ∷ x ∷ xs)
  Least-cons a x xs e h b (inl p) = rw p (lex_leb_refl (key a))
  Least-cons a x xs e h b (inr m) = lex_leb_trans (key a) (key x) (key b) e (h b m)

  Least-insert :
      (a x : A) (xs : List A)
      → lex_leb (key x) (key a) ≡ true
      → Least (x ∷ xs)
      → Least (x ∷ insert a xs)
  Least-insert a x xs e h b (inl p) = h b (inl p)
  Least-insert a x xs e h b (inr m) = elim (Member-insert a b xs m) [
    | inl p ↦ rw p e
    | inr n ↦ h b (inr n)
  ]

  insert-Least : (a : A) (xs : List A) → Least xs → Least (insert a xs)
  unfolding insert
  insert-Least a [] h = λ b m. ground (arith, lex_leb_refl (key a))
  insert-Least a (x ∷ xs) h = elim (Bool-cases (lex_leb (key a) (key x))) [
    | inl e ↦ rw (e, insert) (Least-cons a x xs e h)
    | inr e ↦ rw (e, insert) (Least-insert a x xs (lex_leb-total (key a) (key x) e) h)
  ]

  pub order_by-Least : (xs : List A) → Least (order_by xs)
  unfolding order_by
  order_by-Least [] = tt
  order_by-Least (x ∷ xs) = insert-Least x (order_by xs) (order_by-Least xs)

  -- Every row comes before the rows behind it.
  abbrev pub Sorted : List A → Type 0
  Sorted [] = Unit {0}
  Sorted (x ∷ xs) = Least (x ∷ xs) × Sorted xs

  insert-Sorted : (a : A) (xs : List A) → Sorted xs → Sorted (insert a xs)
  unfolding insert
  insert-Sorted a [] s = (insert-Least a [] tt, tt)
  insert-Sorted a (x ∷ xs) s = elim (Bool-cases (lex_leb (key a) (key x))) [
    | inl e ↦ rw (e, insert) (Least-cons a x xs e s.0, s)
    | inr e ↦
        rw (e, insert)
          (Least-insert a x xs (lex_leb-total (key a) (key x) e) s.0, insert-Sorted a xs s.1)
  ]

  pub order_by-Sorted : (xs : List A) → Sorted (order_by xs)
  unfolding order_by
  order_by-Sorted [] = tt
  order_by-Sorted (x ∷ xs) = insert-Sorted x (order_by xs) (order_by-Sorted xs)

  -- The first row that passes a test comes before every row that passes it.
  pub first-Sorted :
      (p : A → Bool) (xs : List A) (a b : A)
      → Sorted xs
      → first p xs ≡ some a
      → Member b xs
      → p b ≡ true
      → lex_leb (key a) (key b) ≡ true
  first-Sorted p [] a b s e m h = absurd m
  first-Sorted p (x ∷ xs) a b s e m h = elim (Bool-cases (p x)) [
    | inl t ↦
        let same : some x ≡ some a = simp t at e in
        subst (λ o. lex_leb (key (or_else o x)) (key b) ≡ true) same (s.0 b m)
    | inr t ↦ elim m [
      | inl q ↦ absurd (ground arith)
      | inr n ↦ first-Sorted p xs a b s.1 (simp t at e) n h
    ]
  ]

  -- `SELECT … WHERE p ORDER BY key LIMIT 1`: the row that it gives,
  pub select_first :
      (p : A → Bool) (xs : List A) (a : A) (rest : List A)
      → order_by (keep p xs) ≡ a ∷ rest
      → Member a xs
        × (p a ≡ true)
        × ((b : A) → Member b xs → p b ≡ true → lex_leb (key a) (key b) ≡ true)
  select_first p xs a rest e = (kept.0, kept.1, least)
    where
      kept : Member a xs × (p a ≡ true)
      kept =
          Member-keep p xs a (Member-order_by a (keep p xs) (subst (Member a) (sym e) (inl refl)))

      least : (b : A) → Member b xs → p b ≡ true → lex_leb (key a) (key b) ≡ true
      least b m h =
          subst Least e (order_by-Least (keep p xs)) b
            (subst (Member b) e (Member-order_by_of b (keep p xs) (Member-keep_of p xs b m h)))

  -- and no row passes the test where it gives none.
  pub select_none :
      (p : A → Bool) (xs : List A) → order_by (keep p xs) ≡ [] → (b : A) → Member b xs → p b ≡ false
  select_none p xs e b m = elim (Bool-cases (p b)) [
    | inl h ↦
        absurd (subst (Member b) e (Member-order_by_of b (keep p xs) (Member-keep_of p xs b m h)))
    | inr h ↦ h
  ]
