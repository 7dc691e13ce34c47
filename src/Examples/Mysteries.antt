-- ===== src/Examples/Mysteries.antt =====
-- An investigation that a companion witnesses, with the evidence that it reveals.
use semmachina.Prelude.{String, true, false, some, none, List, [], ◌∷◌, ◌≡◌, refl, ok, str_eq, All}
use semmachina.Vocabulary.CasePhase
use semmachina.Vocabulary.EvidenceRevealKind
use semmachina.Payload.CaseDecisions.{CaseDecision, investigate}
use semmachina.Knowledge.Preflight.{
  Preflight, Entry, WitnessAuthorizer, actor_entries, phase_at_least, intersects,
}
use semmachina.Knowledge.Authorize.{authorize_with_witnesses}
use semmachina.Knowledge.Grounds.{IsGranted}
use semmachina.Knowledge.Sanctioned.{authorized-IsGranted}

abbrev decision : CaseDecision
decision = record {
  decision_id = "d1";
  turn_id = "turn-a1";
  action_id = "a1";
  case_id = "case";
  actor_id = "ada";
  kind = investigate;
  target_refs = "desk" ∷ [];
  reveal_refs = "letter" ∷ [];
  culprit_ref = "";
  method_ref = "";
  motive_ref = "";
}

abbrev input : Preflight
input = record {
  decision = some decision;
  acting_actor_id = "ada";
  case_id = "case";
  case_phase = CasePhase.investigation;
  case_evidence = λ e. str_eq e "letter";
  case_characters = λ c. false;
  eligibility = λ e. some (record {
    minimum_phase = CasePhase.discovery;
    kinds = EvidenceRevealKind.investigate ∷ [];
    targets = "desk" ∷ [];
  });
  beliefs = λ a e. none;
  known = λ a e. false;
  solution_locked = λ e. str_eq e "confession";
}

abbrev companion : WitnessAuthorizer String
companion actor targets = ok ("bo", true)

abbrev granted : List Entry
granted =
    record { recipient_id = "ada"; evidence_id = "letter"; testimony = none }
    ∷ record { recipient_id = "bo"; evidence_id = "letter"; testimony = none }
    ∷ []

authorizes : authorize_with_witnesses {E = String} input none (some companion) ≡ ok granted
unfolding authorize_with_witnesses EvidenceRevealKind.of_string phase_at_least intersects
    actor_entries
authorizes = refl

authorized-IsGranted_example : All (IsGranted input decision none (some companion)) granted
authorized-IsGranted_example =
    authorized-IsGranted input decision none (some companion) granted refl authorizes
