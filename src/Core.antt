-- ===== src/Core.antt =====
-- The engine under core/: data types, parser interface.
pub mod Types
pub mod Statistics
pub mod Parser
pub mod Subscriber
pub mod Dispatcher
pub mod Receiver
pub mod Engine
