-- ===== src/AutoReply/Workers.antt =====
-- backend/app/services/auto_reply_scheduler.py: how many workers a set holds for a conversation.
use wecom_ai_agent.Prelude.{
  ℕ, ◌+◌, ◌≤◌, ◌≡◌, refl, false, List, [], ◌∷◌, arith, ◌==◌, any, count, length, ==_refl,
}
use wecom_ai_agent.AutoReply.Dispatcher.{discard, remove_one}

abbrev pub workers_on : ℕ → List ℕ → ℕ
workers_on conv_id ids = count (λ id. id == conv_id) ids

pub count-discard : (c d : ℕ) (ids : List ℕ) → workers_on d (discard c ids) ≤ workers_on d ids
unfolding discard
count-discard c d [] = omega arith
count-discard c d (x ∷ xs) = ground (arith, count-discard c d xs)

pub count-discard_self : (c : ℕ) (ids : List ℕ) → workers_on c (discard c ids) ≡ 0
unfolding discard
count-discard_self c [] = refl
count-discard_self c (x ∷ xs) = ground (arith, count-discard_self c xs)

pub length-discard : (c : ℕ) (ids : List ℕ) → length (discard c ids) + workers_on c ids ≡ length ids
unfolding discard
length-discard c [] = refl
length-discard c (x ∷ xs) = ground (arith, length-discard c xs)

pub count-remove_one :
    (c d : ℕ) (ids : List ℕ)
    → workers_on d ids ≤ workers_on d (remove_one c ids) + workers_on d (c ∷ [])
unfolding remove_one
count-remove_one c d [] = omega arith
count-remove_one c d (x ∷ xs) = ground (arith, count-remove_one c d xs)

pub count-remove_other :
    (c d : ℕ) (ids : List ℕ) → (c == d) ≡ false → workers_on d (remove_one c ids) ≡ workers_on d ids
unfolding remove_one
count-remove_other c d [] h = refl
count-remove_other c d (x ∷ xs) h = ground (arith, count-remove_other c d xs h)

pub not_active : (c : ℕ) (ids : List ℕ) → any (λ id. id == c) ids ≡ false → workers_on c ids ≡ 0
not_active c [] h = refl
not_active c (x ∷ xs) h = ground (arith, not_active c xs)

pub none_active : (ids : List ℕ) → ((c : ℕ) → workers_on c ids ≤ 0) → ids ≡ []
none_active [] h = refl
none_active (x ∷ xs) h = absurd (ground (arith, h x, ==_refl x))
