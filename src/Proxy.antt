-- ===== src/Proxy.antt =====
-- internal/proxy: the relay path. What passes between the parts is in Proxy/Types; requests are
-- admitted in Proxy/Admit and sent in Proxy/Session, replies are handled in Proxy/Reply and
-- Proxy/Pump, ServeHTTP is in Proxy/Serve, and the console's history in Proxy/Events.
pub mod Types
pub mod Errors
pub mod Admit
pub mod Session
pub mod Reply
pub mod Pump
pub mod Serve
pub mod Events
pub mod Media
