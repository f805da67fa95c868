-- ===== src/Api.antt =====
-- client/src/api: the HTTP client and one function for each endpoint.
pub mod Client
pub mod Endpoints
