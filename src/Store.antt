-- ===== src/Store.antt =====
-- The database of the backend (backend/app/models.py), the messages that it sends out and the
-- settings that it reads (backend/app/core/config.py).
mod Models
mod State
pub mod Chats
unfoldable pub use Models.*
unfoldable pub use State.*
