-- ===== src/Mock.antt =====
-- The mock of the beach service that the web app runs with, frontend/src/mocks/handlers/beach.ts.
pub mod Store
pub mod Places
pub mod Balance
pub mod Actions
pub mod Desk
pub mod Board
pub mod Refinement
mod Examples
