-- ===== src/Api.antt =====
-- The client of the HTTP API, frontend/src/api.
pub mod Types
