-- ===== src/Prelude/Text.antt =====
-- Python's `str` as a list of code points, with the methods that the program calls.
use Prim.Native.Nat.{ℕ, zero, suc, ◌+◌, ◌/◌, ◌%◌}
use Prim.Native.Char.{code}
use Prim.Native.String.{String}
use mathlib.Core.Path.{◌≡◌, refl}
use mathlib.Core.Logic.{◌↔◌, ◌⊎◌, inl, inr}
use mathlib.Core.Bool.{Bool, true, false, ◌&&◌, ◌||◌}
use mathlib.Core.List.{List, [], ◌∷◌, ◌++◌}
use native.Mathlib.Omega.{arith}
use wecom_ai_agent.Prelude.Tests.{ltb, leb, ◌==◌, ==_iff, ==_refl, if◌then◌else◌, Bool-cases}
use wecom_ai_agent.Prelude.Lists.{is_empty}

abbrev pub Text : Type 0
Text = List ℕ

abbrev pub codes : String → Text
codes String.[] = []
codes (String.◌∷◌ c s) = code c ∷ codes s

-- `a == b`
unfoldable pub text_eq : Text → Text → Bool
text_eq [] [] = true
text_eq (a ∷ s) (b ∷ t) = a == b && text_eq s t
text_eq _ _ = false

pub text_eq_iff : (s t : Text) → (text_eq s t ≡ true) ↔ (s ≡ t)
unfolding text_eq
text_eq_iff [] [] = (λ h. refl, λ h. refl)
text_eq_iff [] (b ∷ t) = (λ h. cc, λ h. cc)
text_eq_iff (a ∷ s) [] = (λ h. cc, λ h. cc)
text_eq_iff (a ∷ s) (b ∷ t) = ground (arith, ==_iff a b, text_eq_iff s t)

pub text_eq_refl : (s : Text) → text_eq s s ≡ true
text_eq_refl s = (text_eq_iff s s).1 refl

-- `str.isspace` of one character
unfoldable pub is_space : ℕ → Bool
is_space c =
    (leb 9 c && leb c 13)
    || (leb 28 c && leb c 32)
    || c == 133
    || c == 160
    || c == 5760
    || (leb 8192 c && leb c 8202)
    || c == 8232
    || c == 8233
    || c == 8239
    || c == 8287
    || c == 12288

unfoldable pub lstrip : Text → Text
unfolding is_space
lstrip [] = []
lstrip (c ∷ s) = if is_space c then lstrip s else c ∷ s

unfoldable pub rstrip : Text → Text
unfolding is_space
rstrip [] = []
rstrip (c ∷ s) = let r = rstrip s in if is_empty r && is_space c then [] else c ∷ r

-- `s.strip()`
unfoldable pub strip : Text → Text
unfolding lstrip rstrip
strip s = rstrip (lstrip s)

-- `t.startswith(s)`
unfoldable pub starts_with : Text → Text → Bool
starts_with [] t = true
starts_with (a ∷ s) [] = false
starts_with (a ∷ s) (b ∷ t) = a == b && starts_with s t

digits : ℕ → ℕ → Text → Text
digits zero n acc = acc
digits (suc fuel) n acc =
    let rest = digits fuel (n / 10) ((48 + n % 10) ∷ acc) in
    if ltb n 10 then (48 + n) ∷ acc else rest

-- `str(n)`; `n + 1` rounds are enough, as a round divides by ten.
unfoldable pub show : ℕ → Text
unfolding digits
show n = digits (suc n) n []

show_example : show 12045 ≡ codes "12045"
unfolding show
show_example = refl

strip_example : strip (codes "  a b \n") ≡ codes "a b"
unfolding strip
strip_example = refl

-- `t in s`
unfoldable pub contains : Text → Text → Bool
unfolding starts_with
contains t [] = is_empty t
contains t (c ∷ s) = starts_with t (c ∷ s) || contains t s

lstrip_cases :
    (s : Text)
    → (lstrip s ≡ []) ⊎ ((c : ℕ) × (t : Text) × (lstrip s ≡ c ∷ t) × (is_space c ≡ false))
unfolding lstrip
lstrip_cases [] = inl refl
lstrip_cases (c ∷ s) = elim (Bool-cases (is_space c)) [
  | inl e ↦ rw e (lstrip_cases s)
  | inr e ↦ rw e (inr (c, s, refl, e))
]

rstrip_idem : (s : Text) → rstrip (rstrip s) ≡ rstrip s
unfolding rstrip
rstrip_idem [] = refl
rstrip_idem (c ∷ s) = ground (arith, rstrip_idem s)

-- Nothing is left to strip.
pub strip_idem : (s : Text) → strip (strip s) ≡ strip s
unfolding strip lstrip rstrip
strip_idem s = elim (lstrip_cases s) [
  | inl e ↦ rw e
  | inr (c, t, e, b) ↦ rw e (ground (arith, b, rstrip_idem t))
]

starts_with-append : (n s : Text) → starts_with n (n ++ s) ≡ true
unfolding starts_with
starts_with-append [] s = refl
starts_with-append (c ∷ n) s = ground (arith, ==_refl c, starts_with-append n s)

contains-prefix : (n s : Text) → contains n (n ++ s) ≡ true
unfolding contains starts_with
contains-prefix [] [] = refl
contains-prefix [] (c ∷ s) = refl
contains-prefix (c ∷ n) s = ground (arith, ==_refl c, starts_with-append n s)

pub contains-later : (a n s : Text) → contains n s ≡ true → contains n (a ++ s) ≡ true
unfolding contains
contains-later [] n s h = h
contains-later (c ∷ a) n s h = ground (arith, contains-later a n s h)

pub contains-append : (a n s : Text) → contains n (a ++ (n ++ s)) ≡ true
contains-append a n s = contains-later a n (n ++ s) (contains-prefix n s)
