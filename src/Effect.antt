-- ===== src/Effect.antt =====
-- internal/effect: the plan of an effect batch and its application to the graph.
pub mod Views
pub mod Fold
pub mod Plan
pub mod Writes
pub mod Applier
pub mod Reasons
pub mod Cases
pub mod Steps
pub mod Rejected
pub mod Marker
pub mod Frame
pub mod Seen
pub mod Entries
pub mod Sanctioned
