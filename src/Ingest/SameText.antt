-- ===== src/Ingest/SameText.antt =====
-- backend/app/services/conversation.py, `_looks_like_same_long_message`: when two texts count as one.
use wecom_ai_agent.Prelude.{◌≡◌, refl, ap, [], ◌∷◌, arith, ◌&&◌, ◌==◌, length}
use wecom_ai_agent.Prelude.Text.{Text, text_eq, starts_with}
use wecom_ai_agent.Ingest.{same_normal, looks_like_same_long_message, normalize_message_content}

text_eq_comm : (s t : Text) → text_eq s t ≡ text_eq t s
unfolding text_eq
text_eq_comm [] [] = refl
text_eq_comm [] (b ∷ t) = refl
text_eq_comm (a ∷ s) [] = refl
text_eq_comm (a ∷ s) (b ∷ t) = ground (arith, text_eq_comm s t)

starts_with-same_length : (s t : Text) → length s ≡ length t → starts_with s t ≡ text_eq s t
unfolding text_eq starts_with
starts_with-same_length [] [] h = refl
starts_with-same_length [] (b ∷ t) h = cc
starts_with-same_length (a ∷ s) [] h = cc
starts_with-same_length (a ∷ s) (b ∷ t) h =
    ap (λ r. a == b && r) (starts_with-same_length s t (omega arith))

same_normal_comm : (a b : Text) → same_normal a b ≡ same_normal b a
unfolding same_normal
same_normal_comm a b =
    ground (arith, text_eq_comm a b, starts_with-same_length a b, starts_with-same_length b a)

-- Whether two texts count as one does not depend on which of them came first.
pub looks_like_same_long_message_comm :
    (a b : Text) → looks_like_same_long_message a b ≡ looks_like_same_long_message b a
unfolding looks_like_same_long_message
looks_like_same_long_message_comm a b =
    same_normal_comm (normalize_message_content a) (normalize_message_content b)
