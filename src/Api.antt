-- ===== src/Api.antt =====
-- internal/api: reports and health over HTTP.
pub mod Server
