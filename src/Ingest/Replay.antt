-- ===== src/Ingest/Replay.antt =====
-- backend/app/services/conversation.py: what a message that is dropped as a replay has been matched
-- with.
use wecom_ai_agent.Prelude.{
  ℕ, ◌≡◌, refl, ◌⊎◌, inl, inr, Bool, true, Option, none, some, List, [], ◌∷◌, Member, keep, any,
  reverse_onto, Member-keep, Member-take, Member-reverse_onto, any-Member,
}
use wecom_ai_agent.Prelude.Order.{order_by, Member-order_by}
use wecom_ai_agent.Prelude.Text.{Text}
use wecom_ai_agent.Store.{Message, Db}
use wecom_ai_agent.Ingest.{
  newest, minutes, Source, source_from_external_msg_id, is_recent_inbound, is_other_channel,
  is_cross_channel_replay,
}

Member-newest : (n : ℕ) (ms : List Message) (m : Message) → Member m (newest n ms) → Member m ms
unfolding newest
Member-newest n ms m h =
    elim (Member-reverse_onto [] (order_by age ms) m
      (Member-take n (reverse_onto [] (order_by age ms)) m h)) [
        | inl x ↦ absurd x
        | inr x ↦ Member-order_by age m ms x
      ]
  where
    age : Message → List ℕ
    age x = x.created_at ∷ []

newest-any :
    (q p : Message → Bool) (n : ℕ) (ms : List Message)
    → any q (newest n (keep p ms)) ≡ true
    → (m : Message) × Member m ms × (p m ≡ true) × (q m ≡ true)
newest-any q p n ms h =
    let (m, r, s) = any-Member q (newest n (keep p ms)) h in
    let (t, u) = Member-keep p ms m (Member-newest n (keep p ms) m r) in (m, t, u, s)

-- The channels of a replay across channels.
abbrev pub AreChannels : Option Source → Option Source → Type 0
AreChannels a b =
    ((a ≡ some Source.a11y) × (b ≡ some Source.notif))
    ⊎ ((a ≡ some Source.notif) × (b ≡ some Source.a11y))

is_other_channel-AreChannels : (a b : Option Source) → is_other_channel a b ≡ true → AreChannels a b
unfolding is_other_channel
is_other_channel-AreChannels (some Source.a11y) (some Source.notif) h = inl (refl, refl)
is_other_channel-AreChannels (some Source.notif) (some Source.a11y) h = inr (refl, refl)
is_other_channel-AreChannels none b h = cc
is_other_channel-AreChannels (some Source.a11y) none h = cc
is_other_channel-AreChannels (some Source.a11y) (some Source.a11y) h = cc
is_other_channel-AreChannels (some Source.a11y) (some Source.a11y_self) h = cc
is_other_channel-AreChannels (some Source.notif) none h = cc
is_other_channel-AreChannels (some Source.notif) (some Source.notif) h = cc
is_other_channel-AreChannels (some Source.notif) (some Source.a11y_self) h = cc
is_other_channel-AreChannels (some Source.a11y_self) b h = cc

-- A message is dropped as a replay across channels only if the tables hold a customer's message of the
-- same conversation with the same content, less than five minutes old, that came by the other of the
-- channels "a11y" and "notif".
pub is_cross_channel_replay_lem :
    (db : Db) (conv_id : ℕ) (content : Text) (now : ℕ) (external_msg_id : Option Text)
    → is_cross_channel_replay db conv_id content now external_msg_id ≡ true
    → (m : Message) × Member m db.messages
      × (is_recent_inbound conv_id content (minutes 5) now m ≡ true)
      × AreChannels
          (source_from_external_msg_id external_msg_id)
          (source_from_external_msg_id m.external_msg_id)
unfolding is_cross_channel_replay
is_cross_channel_replay_lem db conv_id content now external_msg_id h =
    let (m, r, s, t) =
      newest-any
        (λ m.
          is_other_channel (source_from_external_msg_id external_msg_id)
            (source_from_external_msg_id m.external_msg_id))
        (is_recent_inbound conv_id content (minutes 5) now) 10 db.messages h in
    (m, r, s, is_other_channel-AreChannels _ _ t)
