-- ===== src/Ingest/Noise.antt =====
-- backend/app/services/conversation.py: the prefix of an aggregated notification, and the texts and
-- contacts that are no message of a customer.
use wecom_ai_agent.Prelude.{
  ℕ, Bool, false, Option, none, some, List, [], ◌∷◌, ◌==◌, ◌||◌, String, if◌then◌else◌, or_else,
  is_empty, any,
}
use wecom_ai_agent.Prelude.Text.{Text, codes, text_eq, is_space, strip}
use wecom_ai_agent.Prelude.Pattern.{
  Part, run, one_of, ends, literal, is_digit, is_dot, drop_while, matches, finds,
}

unfoldable pub expect : ℕ → Text → Option Text
expect c [] = none
expect c (d ∷ s) = if d == c then some s else none

-- `\d+`
unfoldable pub skip_digits : Text → Option Text
unfolding is_digit drop_while
skip_digits [] = none
skip_digits (c ∷ s) = if is_digit c then some (drop_while is_digit s) else none

abbrev skip_spaces : Text → Text
skip_spaces s = drop_while is_space s

infixl 5 ◌>>=◌
abbrev ◌>>=◌ : Option Text → (Text → Option Text) → Option Text
none >>= f = none
some s >>= f = f s

-- `_AGG_PREFIX_RX`: what follows the prefix, if it is there. No run of the pattern can give back a
-- character that the next part could take.
unfoldable pub after_agg_prefix : Text → Option Text
unfolding drop_while is_space expect skip_digits
after_agg_prefix text = do
  a ← expect 91 (skip_spaces text)
  b ← skip_digits (skip_spaces a)
  c ← expect 26465 (skip_spaces b)
  d ← expect 93 (skip_spaces c)
  some (skip_spaces d)

-- `_clean_content`
unfoldable pub clean_content : Text → Text
unfolding after_agg_prefix strip
clean_content text = strip (or_else (after_agg_prefix text) text)

-- `_BOT_ECHO_RX`
abbrev bot_echo_rx : List Part
bot_echo_rx =
    run is_space 0 none
    ∷ literal (codes "收到您说的")
    ∷ one_of (codes "「" ∷ (34 ∷ []) ∷ codes "'" ∷ [])
    ∷ []

-- `_TIME_ONLY_RX`
abbrev time_only_rx : List Part
time_only_rx =
    run is_space 0 none
    ∷ one_of (codes "上午" ∷ codes "下午" ∷ [] ∷ [])
    ∷ run is_space 0 none
    ∷ run is_digit 1 (some 2)
    ∷ literal (codes ":")
    ∷ run is_digit 2 (some 2)
    ∷ run is_space 0 none
    ∷ ends
    ∷ []

-- `_SYSTEM_CONTENT_PATTERNS`: those that may start anywhere, and those that start with `^`
abbrev system_search_rxs : List (List Part)
system_search_rxs =
    (literal (codes "查收")
      ∷ run is_dot 0 (some 4)
      ∷ literal (codes "企业微信")
      ∷ run is_dot 0 (some 4)
      ∷ one_of (codes "周" ∷ codes "月" ∷ codes "日" ∷ [])
      ∷ literal (codes "小结")
      ∷ [])
    ∷ (one_of (codes "群发助手" ∷ codes "审批结果" ∷ codes "打卡提醒" ∷ codes "日报提醒" ∷ []) ∷ [])
    ∷ []

abbrev system_match_rxs : List (List Part)
system_match_rxs =
    (run is_dot 0 (some 10)
      ∷ literal (codes "企业微信")
      ∷ run is_dot 0 (some 10)
      ∷ one_of (codes "更新" ∷ codes "升级" ∷ codes "发版" ∷ codes "版本" ∷ [])
      ∷ run is_dot 0 (some 30)
      ∷ ends
      ∷ [])
    ∷ (run is_dot 0 (some 10)
        ∷ one_of (codes "登录提醒" ∷ codes "安全提醒" ∷ codes "异地登录" ∷ [])
        ∷ run is_dot 0 (some 40)
        ∷ ends
        ∷ [])
    ∷ (run is_dot 0 (some 10)
        ∷ one_of (codes "账号" ∷ codes "密码" ∷ [])
        ∷ run is_dot 0 (some 4)
        ∷ one_of (codes "修改" ∷ codes "重置" ∷ codes "变更" ∷ [])
        ∷ run is_dot 0 (some 30)
        ∷ ends
        ∷ [])
    ∷ []

abbrev system_contact_names : List Text
system_contact_names =
    codes "微信团队"
    ∷ codes "企业微信"
    ∷ codes "企业微信团队"
    ∷ codes "腾讯企业微信"
    ∷ codes "腾讯客服"
    ∷ codes "系统消息"
    ∷ codes "系统通知"
    ∷ codes "微信"
    ∷ codes "Weixin Team"
    ∷ codes "WeCom"
    ∷ codes "WeCom Team"
    ∷ codes "Tencent"
    ∷ []

abbrev unreliable_contact_names : List Text
unreliable_contact_names =
    []
    ∷ codes "当前聊天"
    ∷ codes "消息"
    ∷ codes "邮件"
    ∷ codes "文档"
    ∷ codes "工作台"
    ∷ codes "通讯录"
    ∷ codes "设置"
    ∷ []

abbrev pub is_one_of : Text → List Text → Bool
is_one_of s names = any (λ name. text_eq s name) names

unfoldable pub is_unreliable_contact : Text → Bool
unfolding text_eq
is_unreliable_contact key = is_one_of key unreliable_contact_names

unfoldable pub is_time_only : Text → Bool
unfolding matches is_space is_digit
is_time_only s = matches time_only_rx s

unfoldable pub is_bot_echo : Text → Bool
unfolding matches is_space
is_bot_echo s = matches bot_echo_rx s

-- `_is_wecom_system_message`
unfoldable pub is_wecom_system_message : Text → Text → Bool
unfolding matches finds text_eq strip
is_wecom_system_message sender_name content =
    is_one_of (strip sender_name) system_contact_names
    || (if is_empty content
        then false
        else any (λ rx. finds rx content) system_search_rxs
          || any (λ rx. matches rx content) system_match_rxs)

-- `_MEDIA_PLACEHOLDER_TO_TYPE`
abbrev media_placeholders : List (Text × String)
media_placeholders =
    (codes "[图片]", "image")
    ∷ (codes "[图片消息]", "image")
    ∷ (codes "[图片表情]", "image")
    ∷ (codes "[Image]", "image")
    ∷ (codes "[视频]", "video")
    ∷ (codes "[Video]", "video")
    ∷ []

abbrev type_of : Text → List (Text × String) → Option String
type_of s [] = none
type_of s ((t, type) ∷ rest) = if text_eq t s then some type else type_of s rest

unfoldable pub placeholder_type : Text → Option String
unfolding text_eq
placeholder_type s = type_of s media_placeholders
