-- ===== src/Http.antt =====
-- src/service/http: the HTTP protocol of the server and its router.
pub mod Response
pub mod Query
pub mod Request
pub mod Router
mod Witnesses
