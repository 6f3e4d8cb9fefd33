-- ===== src/Client.antt =====
-- The API client, frontend/src/api/client.ts.
pub mod Env
pub mod Request
pub mod Endpoints
pub mod Upload
pub mod Download
