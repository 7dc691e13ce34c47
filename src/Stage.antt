-- ===== src/Stage.antt =====
-- internal/stage: the stages of a turn, each of which enters its phase and then does its work.
pub mod Entering
pub mod Resolving
pub mod Applying
pub mod Entered
pub mod Apart
pub mod Rolled
pub mod Applied
pub mod Rerolled
pub mod Committing
pub mod Reapplied
pub mod Bands
