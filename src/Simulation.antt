-- ===== src/Simulation.antt =====
-- The traffic simulation of the web app, frontend/src/features/simulation: synthetic guests that
-- arrive, book and cancel at random.
pub mod SyntheticGuests
pub mod GuestNames
pub mod Actions
pub mod Machine
pub mod Journeys
pub mod Requests
pub mod Generator
pub mod Loops
pub mod Interleaving
mod Examples
