-- ===== src/Payload.antt =====
-- internal/payload: the validated records and their projections into triples.
pub mod Projection
pub mod TurnRecords
pub mod Text
pub mod PlayerAction
pub mod Written
pub mod Modifiers
pub mod RollResults
pub mod Effects
pub mod Mutations
pub mod EffectBatches
pub mod Verdicts
pub mod CaseDecisions
