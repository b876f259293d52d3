-- ===== src/Quest.antt =====
-- Kiki's burger quest, frontend/src/features/kiki-burger-quest, and the octopus oracle whose trials
-- it pays for, frontend/src/features/octopus-oracle.
pub mod Oracle
pub mod Burger
pub mod Trials
pub mod Journey
pub mod Progress
mod Examples
