-- ===== src/Proxy.antt =====
-- internal/proxy: what the server does with a request's body.
pub mod Defender
pub mod Stream
pub mod Body
pub mod Pipeline
pub mod Headers
pub mod Endpoints
