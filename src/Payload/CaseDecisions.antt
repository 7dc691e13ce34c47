-- ===== src/Payload/CaseDecisions.antt =====
-- internal/payload/casedecision.go: the decision of the casekeeper and its kinds.
use semmachina.Prelude.{String, List}

pub data CaseDecisionKind : Type 0 where
  observe investigate question share request_hint accuse other : CaseDecisionKind
  foreign : String → CaseDecisionKind

abbrev pub to_string : CaseDecisionKind → String
to_string observe = "observe"
to_string investigate = "investigate"
to_string question = "question"
to_string share = "share"
to_string request_hint = "request_hint"
to_string accuse = "accuse"
to_string other = "other"
to_string (foreign s) = s

pub record CaseDecision : Type 0 where
  pub decision_id : String
  pub turn_id : String
  pub action_id : String
  pub case_id : String
  pub actor_id : String
  pub kind : CaseDecisionKind
  pub target_refs : List String
  pub reveal_refs : List String
  pub culprit_ref : String
  pub method_ref : String
  pub motive_ref : String
