-- ===== src/Prelude/Lists.antt =====
-- Lists over the native numbers, with Boolean predicates.
use Prim.Native.Nat.{ℕ, zero, suc, ◌+◌, ◌≤◌}
use mathlib.Core.Path.{◌≡◌, refl, ap, sym, ◌∙◌}
use mathlib.Core.Logic.{◌⊎◌, inl, inr}
use mathlib.Core.Bool.{Bool, true, false, ◌||◌}
use mathlib.Core.Option.{Option, none, some}
use mathlib.Core.List.{List, [], ◌∷◌, ◌++◌, map}
use native.Mathlib.Omega.{arith}
use wecom_ai_agent.Prelude.Tests.{if◌then◌else◌, Bool-cases, is_some}

-- `a in xs`, with the place where it stands.
abbrev pub Member : {A : Type 0} → A → List A → Type 0
Member a [] = ⊥
Member a (x ∷ xs) = (a ≡ x) ⊎ Member a xs

abbrev pub All {ℓ κ} : {A : Type ℓ} → (A → Type κ) → List A → Type κ
All P [] = Unit
All P (x ∷ xs) = P x × All P xs

module _ {ℓ} {A : Type ℓ} where
  abbrev pub length : List A → ℕ
  length [] = 0
  length (x ∷ xs) = suc (length xs)

  abbrev pub take : ℕ → List A → List A
  take zero xs = []
  take (suc n) [] = []
  take (suc n) (x ∷ xs) = x ∷ take n xs

  abbrev pub drop : ℕ → List A → List A
  drop zero xs = xs
  drop (suc n) [] = []
  drop (suc n) (x ∷ xs) = drop n xs

  abbrev pub head : List A → Option A
  head [] = none
  head (x ∷ xs) = some x

  -- `not xs`
  abbrev pub is_empty : List A → Bool
  is_empty [] = true
  is_empty (x ∷ xs) = false

  -- `[x for x in xs if p(x)]`
  abbrev pub keep : (A → Bool) → List A → List A
  keep p [] = []
  keep p (x ∷ xs) = if p x then x ∷ keep p xs else keep p xs

  abbrev pub any : (A → Bool) → List A → Bool
  any p [] = false
  any p (x ∷ xs) = p x || any p xs

  -- `next((x for x in xs if p(x)), None)`
  abbrev pub first : (A → Bool) → List A → Option A
  first p [] = none
  first p (x ∷ xs) = if p x then some x else first p xs

  abbrev pub count : (A → Bool) → List A → ℕ
  count p [] = 0
  count p (x ∷ xs) = if p x then suc (count p xs) else count p xs

  -- `xs[-1]`, of a list that is not empty
  abbrev pub last : A → List A → A
  last d [] = d
  last d (x ∷ xs) = last x xs

  pub length-append : (xs ys : List A) → length (xs ++ ys) ≡ length xs + length ys
  length-append [] ys = omega arith
  length-append (x ∷ xs) ys = omega (arith, length-append xs ys)

  pub count-append : (p : A → Bool) (xs ys : List A) → count p (xs ++ ys) ≡ count p xs + count p ys
  count-append p [] ys = omega arith
  count-append p (x ∷ xs) ys = ground (arith, count-append p xs ys)

  pub length-keep-le : (p : A → Bool) (xs : List A) → length (keep p xs) ≤ length xs
  length-keep-le p [] = omega arith
  length-keep-le p (x ∷ xs) = ground (arith, length-keep-le p xs)

  pub length-take-le : (n : ℕ) (xs : List A) → length (take n xs) ≤ n
  length-take-le zero xs = omega arith
  length-take-le (suc n) [] = omega arith
  length-take-le (suc n) (x ∷ xs) = omega (arith, length-take-le n xs)

  pub any-append : (p : A → Bool) (xs ys : List A) → any p (xs ++ ys) ≡ (any p xs || any p ys)
  any-append p [] ys = refl
  any-append p (x ∷ xs) ys = ground (arith, any-append p xs ys)

  pub All-append {κ} : (P : A → Type κ) (xs ys : List A) → All P xs → All P ys → All P (xs ++ ys)
  All-append P [] ys h k = k
  All-append P (x ∷ xs) ys h k = (h.0, All-append P xs ys h.1 k)

  pub All-map {κ λ'} :
      {P : A → Type κ} {Q : A → Type λ'} (xs : List A) → ((x : A) → P x → Q x) → All P xs → All Q xs
  All-map [] f h = tt
  All-map (x ∷ xs) f h = (f x h.0, All-map xs f h.1)

  pub All-keep {κ} : (P : A → Type κ) (p : A → Bool) (xs : List A) → All P xs → All P (keep p xs)
  All-keep P p [] h = tt
  All-keep P p (x ∷ xs) h = ground (arith, All-keep P p xs h.1)

  pub List-cases : (xs : List A) → (xs ≡ []) ⊎ ((x : A) × (rest : List A) × (xs ≡ x ∷ rest))
  List-cases [] = inl refl
  List-cases (x ∷ xs) = inr (x, xs, refl)

  -- No element passes a test that the count finds nowhere.
  pub first-eq-none : (p : A → Bool) (xs : List A) → first p xs ≡ none → count p xs ≡ 0
  first-eq-none p [] h = refl
  first-eq-none p (x ∷ xs) h = ground (arith, first-eq-none p xs)

  pub first-passes : (p : A → Bool) (xs : List A) (a : A) → first p xs ≡ some a → p a ≡ true
  first-passes p [] a h = cc
  first-passes p (x ∷ xs) a h = ground (arith, first-passes p xs a)

module _ {A : Type 0} where
  pub Member-keep :
      (p : A → Bool) (xs : List A) (a : A) → Member a (keep p xs) → Member a xs × (p a ≡ true)
  Member-keep p [] a m = absurd m
  Member-keep p (x ∷ xs) a m = ground (arith, Member-keep p xs a)

  pub Member-keep_of :
      (p : A → Bool) (xs : List A) (a : A) → Member a xs → p a ≡ true → Member a (keep p xs)
  Member-keep_of p [] a m h = absurd m
  Member-keep_of p (x ∷ xs) a (inl e) h = ground arith
  Member-keep_of p (x ∷ xs) a (inr m) h = ground (arith, Member-keep_of p xs a m h)

  pub All-at {κ} : (P : A → Type κ) (xs : List A) (a : A) → All P xs → Member a xs → P a
  All-at P (x ∷ xs) a h (inl e) = rw e h.0
  All-at P (x ∷ xs) a h (inr m) = All-at P xs a h.1 m
  All-at P [] a h m = absurd m

  pub All-of {κ} : (P : A → Type κ) (xs : List A) → ((a : A) → Member a xs → P a) → All P xs
  All-of P [] f = tt
  All-of P (x ∷ xs) f = (f x (inl refl), All-of P xs (λ a m. f a (inr m)))

  pub first-Member : (p : A → Bool) (xs : List A) (a : A) → first p xs ≡ some a → Member a xs
  first-Member p [] a h = cc
  first-Member p (x ∷ xs) a h = ground (arith, first-Member p xs a)

  pub Member-take : (n : ℕ) (xs : List A) (a : A) → Member a (take n xs) → Member a xs
  Member-take zero xs a m = absurd m
  Member-take (suc n) [] a m = absurd m
  Member-take (suc n) (x ∷ xs) a (inl e) = inl e
  Member-take (suc n) (x ∷ xs) a (inr m) = inr (Member-take n xs a m)

  -- `reversed(xs)`, before `acc`
  abbrev pub reverse_onto : List A → List A → List A
  reverse_onto acc [] = acc
  reverse_onto acc (x ∷ xs) = reverse_onto (x ∷ acc) xs

  pub Member-reverse_onto :
      (acc xs : List A) (a : A) → Member a (reverse_onto acc xs) → Member a acc ⊎ Member a xs
  Member-reverse_onto acc [] a m = inl m
  Member-reverse_onto acc (x ∷ xs) a m = elim (Member-reverse_onto (x ∷ acc) xs a m) [
    | inl (inl e) ↦ inr (inl e)
    | inl (inr h) ↦ inl h
    | inr h ↦ inr (inr h)
  ]

  pub any-Member :
      (p : A → Bool) (xs : List A) → any p xs ≡ true → (a : A) × Member a xs × (p a ≡ true)
  any-Member p [] h = cc
  any-Member p (x ∷ xs) h = elim (Bool-cases (p x)) [
    | inl e ↦ (x, inl refl, e)
    | inr e ↦ let (a, m, k) = any-Member p xs (ground arith) in (a, inr m, k)
  ]

  pub any_of_Member :
      (p : A → Bool) (xs : List A) (a : A) → Member a xs → p a ≡ true → any p xs ≡ true
  any_of_Member p [] a m h = absurd m
  any_of_Member p (x ∷ xs) a (inl e) h = ground arith
  any_of_Member p (x ∷ xs) a (inr m) h = ground (arith, any_of_Member p xs a m h)

  pub append_assoc : (xs ys zs : List A) → (xs ++ ys) ++ zs ≡ xs ++ (ys ++ zs)
  append_assoc [] ys zs = refl
  append_assoc (x ∷ xs) ys zs = ap (λ r. x ∷ r) (append_assoc xs ys zs)

  pub append_empty : (xs : List A) → xs ≡ xs ++ []
  append_empty [] = refl
  append_empty (x ∷ xs) = ap (λ r. x ∷ r) (append_empty xs)

  pub take-drop : (n : ℕ) (xs : List A) → take n xs ++ drop n xs ≡ xs
  take-drop zero xs = refl
  take-drop (suc n) [] = refl
  take-drop (suc n) (x ∷ xs) = ap (λ r. x ∷ r) (take-drop n xs)

  abbrev pub concat : List (List A) → List A
  concat [] = []
  concat (xs ∷ xss) = xs ++ concat xss

  pub concat-snoc : (xss : List (List A)) (xs : List A) → concat (xss ++ xs ∷ []) ≡ concat xss ++ xs
  concat-snoc [] xs = sym (append_empty xs)
  concat-snoc (ys ∷ xss) xs =
      ap (λ r. ys ++ r) (concat-snoc xss xs) ∙ sym (append_assoc ys (concat xss) xs)

module _ {ℓ} {A : Type ℓ} where
  pub first-snoc :
      (p : A → Bool) (xs : List A) (a : A)
      → first p xs ≡ none
      → p a ≡ true
      → first p (xs ++ a ∷ []) ≡ some a
  first-snoc p [] a h e = ground arith
  first-snoc p (x ∷ xs) a h e = ground (arith, first-snoc p xs a)

  -- Rows that are changed without their keys and followed by more are found as before.
  pub first-map-append :
      (p : A → Bool) (f : A → A) (xs more : List A) (a : A)
      → ((x : A) → p (f x) ≡ p x)
      → first p xs ≡ some a
      → first p (map f xs ++ more) ≡ some (f a)
  first-map-append p f [] more a s e = cc
  first-map-append p f (x ∷ xs) more a s e = ground (arith, s x, first-map-append p f xs more a s)

  pub map-snoc {κ} :
      {B : Type κ} (f : A → B) (xs : List A) (a : A) → map f (xs ++ a ∷ []) ≡ map f xs ++ f a ∷ []
  map-snoc f [] a = refl
  map-snoc f (x ∷ xs) a = ap (λ r. f x ∷ r) (map-snoc f xs a)

  pub first-any : (p : A → Bool) (xs : List A) → is_some (first p xs) ≡ any p xs
  first-any p [] = refl
  first-any p (x ∷ xs) = ground (arith, first-any p xs)
