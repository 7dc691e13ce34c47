-- ===== src/Examples.antt =====
-- A small world in which the code runs, and the theorems applied to it.
pub mod World
mod Turns
mod Payloads
mod Rolls
mod Boots
mod Effects
mod Stages
mod Rerolls
mod Stored
mod Mysteries
