-- ===== src/Turn.antt =====
-- internal/turn: the recorder that owns a turn's phase.
pub mod Identity
pub mod Transition
pub mod Reads
pub mod Pointers
pub mod Recorder
pub mod Lifecycle
pub mod Faults
pub mod Writes
pub mod Durable
pub mod Advance
pub mod Redelivery
pub mod Moves
pub mod Pointed
pub mod Accepted
