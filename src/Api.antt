-- ===== src/Api.antt =====
-- frontend/lib/api.ts: the browser session, the transport and the calls of the control plane.
pub mod Url
pub mod Json
pub mod Session
pub mod Transport
pub mod Settled
pub mod Query
pub mod Calls
pub mod Entities
