-- ===== src/Vocabulary.antt =====
-- The closed vocabularies of internal/vocabulary. A Go string type with declared constants is a data
-- type with a constructor for each constant and `foreign s` for a value outside the set; the values
-- that occur are those of `of_string`, the conversion `T(s)`.
pub mod Kinds
pub mod Predicates
pub mod Phases
pub mod Resolution
pub mod Attributes
pub mod World
pub mod TurnPhase
pub mod Plausibility
pub mod Risk
pub mod ConsequenceClass
pub mod OutcomeBand
pub mod ModifierSource
pub mod EffectType
pub mod Status
pub mod Mechanic
pub mod Rng
pub mod EntityKind
pub mod Attribute
pub mod Relation
pub mod FailureReason
pub mod RollGateMapping
pub mod CasePhase
pub mod CaseLifecycleEventKind
pub mod AuthorizationReason
pub mod EvidenceRevealKind
pub mod BeliefStance
