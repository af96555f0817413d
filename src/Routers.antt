-- ===== src/Routers.antt =====
-- backend/app/routers: the handlers of the HTTP requests. A response is a value or the status and the
-- detail of an HTTPException.
pub mod Conversations
use wecom_ai_agent.Prelude.{ℕ, String}

pub data Response {ℓ} (A : Type ℓ) : Type ℓ where
  respond : A → Response A
  http_error : ℕ → String → Response A

-- The user of a request, by `current_user`.
pub record User : Type 0 where
  pub id : ℕ
  pub team_id : ℕ
