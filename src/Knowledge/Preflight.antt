-- ===== src/Knowledge/Preflight.antt =====
-- internal/knowledge/authorize.go: the snapshot that a batch is authorized on, and the plan of its
-- grants. A map of the snapshot is its lookup. The two authorizers are interfaces of the package, and
-- the errors of their calls are a type of the caller.
use semmachina.Prelude.{
  ℕ, suc, String, Bool, true, false, if◌then◌else◌, leb, Option, none, some, List, [], ◌∷◌,
  contains, Result,
}
use semmachina.Vocabulary.AuthorizationReason.{AuthorizationReason}
use semmachina.Vocabulary.CasePhase.{
  CasePhase, cold_open, discovery, investigation, accusation, denouement, same,
}
use semmachina.Vocabulary.EvidenceRevealKind.{EvidenceRevealKind}
use semmachina.Vocabulary.BeliefStance.{BeliefStance}
use semmachina.Payload.CaseDecisions.{CaseDecision}

pub record Eligibility : Type 0 where
  pub minimum_phase : CasePhase
  pub kinds : List EvidenceRevealKind
  pub targets : List String

pub record AuthoredBelief : Type 0 where
  pub id : String
  pub holder_id : String
  pub evidence_id : String
  pub stance : BeliefStance
  pub prose : String

pub record Preflight : Type 0 where
  pub decision : Option CaseDecision
  pub acting_actor_id : String
  pub case_id : String
  pub case_phase : CasePhase
  pub case_evidence : String → Bool
  pub case_characters : String → Bool
  pub eligibility : String → Option Eligibility
  pub beliefs : String → String → Option AuthoredBelief
  pub known : String → String → Bool
  pub solution_locked : String → Bool

pub record TestimonyDraft : Type 0 where
  pub belief_id : String
  pub source_actor_id : String
  pub recipient_id : String
  pub evidence_id : String
  pub stance : BeliefStance
  pub prose : String

pub record Entry : Type 0 where
  pub recipient_id : String
  pub evidence_id : String
  pub testimony : Option TestimonyDraft

-- A refusal with its reason and the arguments of its message, or a call of an authorizer that failed.
pub data AuthorizeError (E : Type 0) : Type 0 where
  rejected : AuthorizationReason → List String → AuthorizeError E
  authorize_share_target : E → AuthorizeError E
  authorize_companion_witness : E → AuthorizeError E

-- `ShareAuthorizer.Authorized` and `WitnessAuthorizer.Witness`.
abbrev pub ShareAuthorizer : Type 0 → Type 0
ShareAuthorizer E = String → String → String → Result E Bool

abbrev pub WitnessAuthorizer : Type 0 → Type 0
WitnessAuthorizer E = String → List String → Result E (String × Bool)

-- `slices.Index`, whose -1 is `none`.
unfoldable pub index_of : List CasePhase → CasePhase → Option ℕ
index_of [] p = none
index_of (q ∷ qs) p = if same q p then some 0 else after (index_of qs p)
  where
    after : Option ℕ → Option ℕ
    after none = none
    after (some n) = some (suc n)

abbrev pub case_phases : List CasePhase
case_phases = cold_open ∷ discovery ∷ investigation ∷ accusation ∷ denouement ∷ []

abbrev ranked : Option ℕ → Option ℕ → Bool
ranked (some c) (some m) = leb m c
ranked current minimum = false

unfoldable pub phase_at_least : CasePhase → CasePhase → Bool
unfolding index_of
phase_at_least current minimum =
    ranked (index_of case_phases current) (index_of case_phases minimum)

unfoldable pub intersects : List String → List String → Bool
intersects [] right = false
intersects (x ∷ left) right = if contains right x then true else intersects left right

unfoldable pub actor_entries : String → List String → List Entry
actor_entries actor [] = []
actor_entries actor (e ∷ rest) =
    record { recipient_id = actor; evidence_id = e; testimony = none } ∷ actor_entries actor rest
