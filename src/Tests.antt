-- ===== src/Tests.antt =====
-- Concrete states, and runs of the services on them, of backend/app/services.
mod Data
mod Queue
mod Send
mod Reply
mod Hub
mod Ingest
mod Chunks
mod Inbound
mod Http
mod React
mod Agent
