-- ===== src/Tests.antt =====
-- Example engines and states, and the properties at them.
pub mod Engines
pub mod Samples
pub mod Accounts
pub mod Serving
pub mod Messaging
pub mod Bans
pub mod Creating
pub mod Listeners
pub mod Starting
pub mod Running
pub mod Backends
pub mod Threads
pub mod Chats
pub mod Sends
pub mod Working
