-- ===== src/Hub.antt =====
-- The broadcast service (services/broadcast): the hub that takes the island's events and hands
-- them to the connected listeners.
pub mod Types
pub mod Schemas
pub mod ServiceAuth
pub mod EventBus
pub mod Routes
pub mod Access
pub mod Delivery
pub mod Privilege
pub mod Publishing
pub mod Hearing
pub mod Streams
mod Examples
