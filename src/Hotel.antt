-- ===== src/Hotel.antt =====
-- The hotel service (services/hotel): rooms, reservations and their occupancy.
pub mod Types
pub mod Prisma
pub mod Clients
pub mod Reservations
pub mod Rooms
pub mod Calendar
pub mod Selection
pub mod FirstRoom
pub mod Booking
pub mod Cancelling
pub mod Announcing
pub mod Creating
pub mod Occupancy
pub mod Capacity
pub mod Stated
pub mod Seed
pub mod Clearance
pub mod IdOrder
pub mod ListDatabase
mod Examples
