-- ===== src/Protocol.antt =====
-- internal/protocol: client paths, request bodies and server-sent events.
pub mod Surface
pub mod Stream
pub mod Sse
