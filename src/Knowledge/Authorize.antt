-- ===== src/Knowledge/Authorize.antt =====
-- internal/knowledge/authorize.go: AuthorizeWithWitnesses, a function for each kind of decision.
use semmachina.Prelude.{
  String, Bool, true, false, not, if◌then◌else◌, ◌&&◌, ◌||◌, Option, none, some, List, [], ◌∷◌,
  ◌++◌, str_eq, Result, ok, err, guard, wrap, ◌>>=◌, ◌>>◌,
}
use semmachina.Vocabulary.AuthorizationReason.{
  wrong_case, wrong_actor, invalid_target, ineligible_reveal, ineligible_phase, solution_locked,
  question_target_mismatch, share_source_unknown, share_target_unauthorized, witness_unauthorized,
  unsupported_kind,
}
use semmachina.Vocabulary.CasePhase.{denouement, same, to_string as phase_text}
use semmachina.Vocabulary.EvidenceRevealKind.{EvidenceRevealKind, member, of_string}
use semmachina.Payload.CaseDecisions.{
  CaseDecisionKind, CaseDecision, observe, investigate, question, share, request_hint, accuse,
  other, foreign, to_string,
}
use semmachina.Knowledge.Preflight.{
  Eligibility, AuthoredBelief, Preflight, Entry, AuthorizeError, rejected, authorize_share_target,
  authorize_companion_witness, ShareAuthorizer, WitnessAuthorizer, phase_at_least, intersects,
  actor_entries,
}

-- `kind` is `vocabulary.EvidenceRevealKind(decision.Kind)`.
abbrev pub reveal_kind : CaseDecision → EvidenceRevealKind
reveal_kind decision = of_string (to_string decision.kind)

module _ {E : Type 0} (input : Preflight) (decision : CaseDecision) where
  -- What the loops over the revealed evidence of an investigation and of a question begin with.
  unfoldable pub check_open : String → Result (AuthorizeError E) (Unit {0})
  check_open e =
      guard (not (input.solution_locked e && not (same input.case_phase denouement)))
        (rejected solution_locked (e ∷ []))
      >> guard (input.case_evidence e) (rejected ineligible_reveal (e ∷ input.case_id ∷ []))

  unfoldable pub admit : Option Eligibility → String → Result (AuthorizeError E) (Unit {0})
  admit none e = err (rejected ineligible_reveal (e ∷ to_string decision.kind ∷ []))
  admit (some eligible) e =
      guard (member eligible.kinds (reveal_kind decision))
        (rejected ineligible_reveal (e ∷ to_string decision.kind ∷ []))
      >> guard (phase_at_least input.case_phase eligible.minimum_phase) (
          rejected ineligible_phase
            (phase_text input.case_phase ∷ phase_text eligible.minimum_phase ∷ []))
      >> guard (intersects decision.target_refs eligible.targets) (rejected invalid_target (e ∷ []))

  unfoldable pub check_reveals : List String → Result (AuthorizeError E) (Unit {0})
  unfolding check_open admit
  check_reveals [] = ok tt
  check_reveals (e ∷ rest) =
      check_open e >>= λ _. admit (input.eligibility e) e >>= λ _. check_reveals rest

  unfoldable pub witnessed : String × Bool → Result (AuthorizeError E) (List Entry)
  witnessed (witness, false) = ok (actor_entries input.acting_actor_id decision.reveal_refs)
  witnessed (witness, true) =
      if str_eq witness "" || str_eq witness input.acting_actor_id
      then err (rejected witness_unauthorized [])
      else ok (
          actor_entries input.acting_actor_id decision.reveal_refs
          ++ actor_entries witness decision.reveal_refs)

  unfoldable pub with_witness :
      Option (WitnessAuthorizer E) → List String → Result (AuthorizeError E) (List Entry)
  unfolding witnessed
  with_witness none refs = ok (actor_entries input.acting_actor_id decision.reveal_refs)
  with_witness (some witness) [] = ok (actor_entries input.acting_actor_id decision.reveal_refs)
  with_witness (some witness) (e ∷ rest) =
      wrap authorize_companion_witness (witness input.acting_actor_id decision.target_refs)
      >>= witnessed

  unfoldable pub authorize_reveal :
      Option (WitnessAuthorizer E) → Result (AuthorizeError E) (List Entry)
  unfolding check_reveals with_witness
  authorize_reveal witnesses =
      check_reveals decision.reveal_refs >>= λ _. with_witness witnesses decision.reveal_refs

  unfoldable pub testify : String → String → Option AuthoredBelief → Result (AuthorizeError E) Entry
  testify target e none = err (rejected question_target_mismatch (target ∷ e ∷ []))
  testify target e (some belief) = ok (record {
    recipient_id = input.acting_actor_id;
    evidence_id = e;
    testimony = some (record {
      belief_id = belief.id;
      source_actor_id = belief.holder_id;
      recipient_id = input.acting_actor_id;
      evidence_id = e;
      stance = belief.stance;
      prose = belief.prose;
    });
  })

  unfoldable pub testimonies : String → List String → Result (AuthorizeError E) (List Entry)
  unfolding check_open testify
  testimonies target [] = ok []
  testimonies target (e ∷ rest) = check_open e >>= λ _.
      testify target e (input.beliefs target e) >>= λ entry.
      testimonies target rest >>= λ entries. ok (entry ∷ entries)

  unfoldable pub authorize_question : List String → Result (AuthorizeError E) (List Entry)
  unfolding testimonies
  authorize_question (target ∷ []) =
      guard (input.case_characters target) (rejected invalid_target []) >>= λ _.
      testimonies target decision.reveal_refs
  authorize_question targets = err (rejected invalid_target [])

  -- A missing authorizer of shares admits nothing.
  abbrev pub permitted :
      Option (ShareAuthorizer E) → String → String → Result (AuthorizeError E) Bool
  permitted none recipient e = ok false
  permitted (some shares) recipient e =
      wrap authorize_share_target (shares input.acting_actor_id recipient e)

  unfoldable pub check_shares :
      Option (ShareAuthorizer E) → String → List String → Result (AuthorizeError E) (Unit {0})
  check_shares shares recipient [] = ok tt
  check_shares shares recipient (e ∷ rest) =
      guard (input.known input.acting_actor_id e) (rejected share_source_unknown (e ∷ [])) >>= λ _.
      permitted shares recipient e >>= λ allowed.
      guard allowed (rejected share_target_unauthorized (recipient ∷ [])) >>= λ _.
      check_shares shares recipient rest

  unfoldable pub authorize_share :
      Option (ShareAuthorizer E) → List String → Result (AuthorizeError E) (List Entry)
  unfolding check_shares
  authorize_share shares (recipient ∷ []) =
      check_shares shares recipient decision.reveal_refs >>= λ _.
      ok (actor_entries recipient decision.reveal_refs)
  authorize_share shares targets = err (rejected invalid_target [])

  unfoldable pub nothing_revealed : List String → Result (AuthorizeError E) (List Entry)
  nothing_revealed [] = ok []
  nothing_revealed (e ∷ rest) = err (rejected unsupported_kind (to_string decision.kind ∷ []))

  unfoldable pub authorize_kind :
      Option (ShareAuthorizer E)
      → Option (WitnessAuthorizer E)
      → CaseDecisionKind
      → Result (AuthorizeError E) (List Entry)
  unfolding authorize_reveal authorize_question authorize_share nothing_revealed
  authorize_kind shares witnesses observe = authorize_reveal witnesses
  authorize_kind shares witnesses investigate = authorize_reveal witnesses
  authorize_kind shares witnesses question = authorize_question decision.target_refs
  authorize_kind shares witnesses share = authorize_share shares decision.target_refs
  authorize_kind shares witnesses request_hint = nothing_revealed decision.reveal_refs
  authorize_kind shares witnesses accuse = nothing_revealed decision.reveal_refs
  authorize_kind shares witnesses other = nothing_revealed decision.reveal_refs
  authorize_kind shares witnesses (foreign s) =
      err (rejected unsupported_kind (to_string decision.kind ∷ []))

module _ {E : Type 0} (input : Preflight) where
  unfoldable pub authorize_decision :
      Option (ShareAuthorizer E)
      → Option (WitnessAuthorizer E)
      → Option CaseDecision
      → Result (AuthorizeError E) (List Entry)
  unfolding authorize_kind
  authorize_decision shares witnesses none = err (rejected unsupported_kind [])
  authorize_decision shares witnesses (some d) =
      guard (str_eq d.case_id input.case_id) (rejected wrong_case (d.case_id ∷ input.case_id ∷ []))
      >>= λ _.
          guard (str_eq d.actor_id input.acting_actor_id)
            (rejected wrong_actor (d.actor_id ∷ input.acting_actor_id ∷ []))
          >>= λ _. authorize_kind input d shares witnesses d.kind

  unfoldable pub authorize_with_witnesses :
      Option (ShareAuthorizer E)
      → Option (WitnessAuthorizer E)
      → Result (AuthorizeError E) (List Entry)
  unfolding authorize_decision
  authorize_with_witnesses shares witnesses = authorize_decision shares witnesses input.decision

  unfoldable pub authorize : Option (ShareAuthorizer E) → Result (AuthorizeError E) (List Entry)
  unfolding authorize_with_witnesses
  authorize shares = authorize_with_witnesses shares none
