-- ===== src/Knowledge/Grounds.antt =====
-- internal/knowledge/authorize.go: the grounds of a grant, and those of revealed evidence.
use mathlib.Core.Path.{subst}
use semmachina.Prelude.{
  String, Bool, true, false, not, ◌&&◌, ◌||◌, Option, none, some, List, [], ◌∷◌, ◌≡◌, refl, ◌⊎◌,
  inl, inr, ok, guard, >>=-eq-ok, wrap, wrap-eq-ok, ok-injective, str_eq, All, All-append,
  Bool-cases,
}
use semmachina.Vocabulary.CasePhase.{denouement, same}
use semmachina.Vocabulary.EvidenceRevealKind.{member}
use semmachina.Payload.CaseDecisions.{CaseDecision}
use semmachina.Knowledge.Preflight.{
  Eligibility, AuthoredBelief, Preflight, Entry, ShareAuthorizer, WitnessAuthorizer, phase_at_least,
  intersects, actor_entries,
}
use semmachina.Knowledge.Authorize.{
  reveal_kind, check_open, admit, check_reveals, witnessed, with_witness, authorize_reveal,
}

pub guard-ok : {F : Type 0} (b : Bool) (f : F) (u : Unit {0}) → guard b f ≡ ok u → b ≡ true
guard-ok true f u h = refl
guard-ok false f u h = absurd (cc h)

-- Evidence of the case, which is not material of the solution before the denouement.
pub record IsOpen (input : Preflight) (e : String) : Type 0 where
  inside : input.case_evidence e ≡ true
  unlocked : (input.solution_locked e ≡ false) ⊎ (same input.case_phase denouement ≡ true)

-- The authored eligibility admits the decision.
pub record IsEligible (input : Preflight) (decision : CaseDecision) (e : String) : Type 0 where
  eligible : Eligibility
  authored : input.eligibility e ≡ some eligible
  admitted : member eligible.kinds (reveal_kind decision) ≡ true
  reached : phase_at_least input.case_phase eligible.minimum_phase ≡ true
  targeted : intersects decision.target_refs eligible.targets ≡ true

module _ {E : Type 0} (input : Preflight) (decision : CaseDecision)
    (shares : Option (ShareAuthorizer E)) (witnesses : Option (WitnessAuthorizer E)) where
  -- The receiver of revealed evidence: the actor, or another whom the witness authorizer allowed.
  pub data IsReceiver : String → Type 0 where
    actor : IsReceiver input.acting_actor_id
    companion :
        (witness : WitnessAuthorizer E) (name : String)
        → witnesses ≡ some witness
        → witness input.acting_actor_id decision.target_refs ≡ ok (name, true)
        → str_eq name input.acting_actor_id ≡ false
        → IsReceiver name

  -- Why a grant may be made.
  pub data IsGranted : Entry → Type 0 where
    revealed :
        (e : String) (receiver : String)
        → IsReceiver receiver
        → IsOpen input e
        → IsEligible input decision e
        → IsGranted (record { recipient_id = receiver; evidence_id = e; testimony = none })
    testified :
        (e : String) (target : String) (belief : AuthoredBelief)
        → decision.target_refs ≡ target ∷ []
        → input.case_characters target ≡ true
        → input.beliefs target e ≡ some belief
        → IsOpen input e
        → IsGranted (record {
          recipient_id = input.acting_actor_id;
          evidence_id = e;
          testimony = some (record {
            belief_id = belief.id;
            source_actor_id = belief.holder_id;
            recipient_id = input.acting_actor_id;
            evidence_id = e;
            stance = belief.stance;
            prose = belief.prose;
          });
        })
    shared :
        (e : String) (recipient : String) (authorizer : ShareAuthorizer E)
        → decision.target_refs ≡ recipient ∷ []
        → input.known input.acting_actor_id e ≡ true
        → shares ≡ some authorizer
        → authorizer input.acting_actor_id recipient e ≡ ok true
        → IsGranted (record { recipient_id = recipient; evidence_id = e; testimony = none })

  pub check_open-IsOpen :
      (e : String) → check_open {E = E} input decision e ≡ ok tt → IsOpen input e
  unfolding check_open
  check_open-IsOpen e h =
      let (u, first, second) = >>=-eq-ok (guard _ _) _ h in
      record {
        inside = guard-ok _ _ tt second;
        unlocked =
            unlocks (input.solution_locked e) (same input.case_phase denouement)
              (guard-ok _ _ u first);
      }
    where
      unlocks :
          (locked late : Bool) → not (locked && not late) ≡ true → (locked ≡ false) ⊎ (late ≡ true)
      unlocks false late h = inl refl
      unlocks true true h = inr refl
      unlocks true false h = absurd (cc h)

  admit-IsEligible :
      (e : String) (o : Option Eligibility)
      → input.eligibility e ≡ o
      → admit {E = E} input decision o e ≡ ok tt
      → IsEligible input decision e
  unfolding admit
  admit-IsEligible e none at h = absurd (cc h)
  admit-IsEligible e (some x) at h =
      let (u, most, third) = >>=-eq-ok _ _ h in
      let (v, first, second) = >>=-eq-ok (guard _ _) _ most in
      record {
        eligible = x;
        authored = at;
        admitted = guard-ok _ _ v first;
        reached = guard-ok _ _ u second;
        targeted = guard-ok _ _ tt third;
      }

  reveals-All :
      (receiver : String) (es : List String)
      → IsReceiver receiver
      → check_reveals {E = E} input decision es ≡ ok tt
      → All IsGranted (actor_entries receiver es)
  unfolding check_reveals actor_entries
  reveals-All receiver [] who h = tt
  reveals-All receiver (e ∷ rest) who h =
      let (u, first, others) = >>=-eq-ok (check_open input decision e) _ h in
      let (v, second, third) = >>=-eq-ok (admit input decision (input.eligibility e) e) _ others in
      (
        revealed e receiver who (check_open-IsOpen e first) (admit-IsEligible e _ refl second),
        reveals-All receiver rest who third,
      )

  witnessed-All :
      (witness : WitnessAuthorizer E) (answer : String × Bool) (plan : List Entry)
      → witnesses ≡ some witness
      → witness input.acting_actor_id decision.target_refs ≡ ok answer
      → check_reveals {E = E} input decision decision.reveal_refs ≡ ok tt
      → witnessed {E = E} input decision answer ≡ ok plan
      → All IsGranted plan
  unfolding witnessed
  witnessed-All witness (name, false) plan given asked checked h =
      subst (All IsGranted) (ok-injective h) (reveals-All _ _ actor checked)
  witnessed-All witness (name, true) plan given asked checked h =
      elim (Bool-cases (str_eq name "" || str_eq name input.acting_actor_id)) [
        | inl bad ↦ absurd (cc (rw (bad, witnessed) at h))
        | inr good ↦
            let third = companion witness name given asked (right _ _ good) in
            subst (All IsGranted) (ok-injective (rw (good, witnessed) at h)) (
              All-append IsGranted _ _ (reveals-All _ _ actor checked)
                (reveals-All _ _ third checked))
      ]
    where
      right : (a b : Bool) → (a || b) ≡ false → b ≡ false
      right false b h = h
      right true b h = absurd (cc h)

  with_witness-All :
      (o : Option (WitnessAuthorizer E)) (refs : List String) (plan : List Entry)
      → witnesses ≡ o
      → check_reveals {E = E} input decision decision.reveal_refs ≡ ok tt
      → with_witness {E = E} input decision o refs ≡ ok plan
      → All IsGranted plan
  unfolding with_witness
  with_witness-All none refs plan given checked h =
      subst (All IsGranted) (ok-injective h) (reveals-All _ _ actor checked)
  with_witness-All (some witness) [] plan given checked h =
      subst (All IsGranted) (ok-injective h) (reveals-All _ _ actor checked)
  with_witness-All (some witness) (e ∷ rest) plan given checked h =
      let (answer, asked, answered) = >>=-eq-ok (wrap _ (witness _ _)) _ h in
      witnessed-All witness answer plan given (wrap-eq-ok _ (witness _ _) asked) checked answered

  pub reveal-All :
      (plan : List Entry)
      → authorize_reveal {E = E} input decision witnesses ≡ ok plan
      → All IsGranted plan
  unfolding authorize_reveal
  reveal-All plan h =
      let (u, checked, rest) = >>=-eq-ok (check_reveals input decision decision.reveal_refs) _ h in
      with_witness-All witnesses decision.reveal_refs plan refl checked rest
