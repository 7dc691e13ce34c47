-- ===== src/Dice.antt =====
-- internal/dice: the rolls that a campaign's seed determines.
pub mod Roller
pub mod Rolled
pub mod Recorded
pub mod Bands
pub mod Resolver
pub mod Totals
pub mod OneRoll
