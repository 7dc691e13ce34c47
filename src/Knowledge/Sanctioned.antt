-- ===== src/Knowledge/Sanctioned.antt =====
-- internal/knowledge/authorize.go: what stands behind every grant of an authorized plan.
use mathlib.Core.Path.{subst}
use semmachina.Prelude.{
  String, Bool, true, Option, none, some, List, [], ◌∷◌, ◌≡◌, refl, ap, sym, ◌∙◌, ok, guard, ◌>>=◌,
  >>=-eq-ok, wrap-eq-ok, ok-injective, str_eq, All,
}
use semmachina.Payload.CaseDecisions.{
  CaseDecisionKind, CaseDecision, observe, investigate, question, share, request_hint, accuse,
  other, foreign,
}
use semmachina.Knowledge.Preflight.{
  AuthoredBelief, Preflight, Entry, ShareAuthorizer, WitnessAuthorizer, actor_entries,
}
use semmachina.Knowledge.Authorize.{
  check_open, testify, testimonies, authorize_question, permitted, check_shares, authorize_share,
  nothing_revealed, authorize_kind, authorize_decision, authorize_with_witnesses,
}
use semmachina.Knowledge.Grounds.{
  guard-ok, IsGranted, testified, shared, check_open-IsOpen, reveal-All,
}

module _ {E : Type 0} (input : Preflight) (decision : CaseDecision)
    (shares : Option (ShareAuthorizer E)) (witnesses : Option (WitnessAuthorizer E)) where
  abbrev Granted : Entry → Type 0
  Granted = IsGranted input decision shares witnesses

  testimony-Granted :
      (e target : String) (o : Option AuthoredBelief) (entry : Entry)
      → decision.target_refs ≡ target ∷ []
      → input.case_characters target ≡ true
      → input.beliefs target e ≡ o
      → check_open {E = E} input decision e ≡ ok tt
      → testify {E = E} input decision target e o ≡ ok entry
      → Granted entry
  unfolding testify
  testimony-Granted e target none entry one character found opens h = absurd (cc h)
  testimony-Granted e target (some belief) entry one character found opens h =
      subst Granted (ok-injective h) (
        testified e target belief one character found
          (check_open-IsOpen input decision shares witnesses e opens))

  testimonies-All :
      (target : String) (es : List String) (plan : List Entry)
      → decision.target_refs ≡ target ∷ []
      → input.case_characters target ≡ true
      → testimonies {E = E} input decision target es ≡ ok plan
      → All Granted plan
  unfolding testimonies
  testimonies-All target [] plan one character h = subst (All Granted) (ok-injective h) tt
  testimonies-All target (e ∷ rest) plan one character h =
      let (u, first, most) = >>=-eq-ok (check_open input decision e) _ h in
      let (entry, second, later) =
        >>=-eq-ok (testify input decision target e (input.beliefs target e)) _ most in
      let (entries, others, last) = >>=-eq-ok (testimonies input decision target rest) _ later in
      subst (All Granted) (ok-injective last) (
        testimony-Granted e target _ entry one character refl first second,
        testimonies-All target rest entries one character others,
      )

  question-All :
      (targets : List String) (plan : List Entry)
      → decision.target_refs ≡ targets
      → authorize_question {E = E} input decision targets ≡ ok plan
      → All Granted plan
  unfolding authorize_question
  question-All [] plan at h = absurd (cc h)
  question-All (target ∷ second ∷ rest) plan at h = absurd (cc h)
  question-All (target ∷ []) plan at h =
      let (u, first, rest) = >>=-eq-ok (guard _ _) _ h in
      testimonies-All target decision.reveal_refs plan at (guard-ok _ _ u first) rest

  permits :
      (o : Option (ShareAuthorizer E))
      → shares ≡ o
      → (e recipient : String) (allowed : Bool)
      → permitted {E = E} input decision o recipient e ≡ ok allowed
      → allowed ≡ true
      → (a : ShareAuthorizer E) × (shares ≡ some a)
        × (a input.acting_actor_id recipient e ≡ ok true)
  permits none given e recipient allowed h may = absurd (cc h)
  permits (some a) given e recipient allowed h may = (a, given, wrap-eq-ok _ _ h ∙ ap ok may)

  shares-All :
      (recipient : String) (es : List String)
      → decision.target_refs ≡ recipient ∷ []
      → check_shares {E = E} input decision shares recipient es ≡ ok tt
      → All Granted (actor_entries recipient es)
  unfolding check_shares actor_entries
  shares-All recipient [] one h = tt
  shares-All recipient (e ∷ rest) one h =
      let (u, first, most) = >>=-eq-ok (guard _ _) _ h in
      let (allowed, second, others) =
        >>=-eq-ok (permitted input decision shares recipient e) _ most in
      let (v, third, last) = >>=-eq-ok (guard _ _) _ others in
      let (authorizer, given, answered) =
        permits shares refl e recipient allowed second (guard-ok _ _ v third) in
      (
        shared e recipient authorizer one (guard-ok _ _ u first) given answered,
        shares-All recipient rest one last,
      )

  share-All :
      (targets : List String) (plan : List Entry)
      → decision.target_refs ≡ targets
      → authorize_share {E = E} input decision shares targets ≡ ok plan
      → All Granted plan
  unfolding authorize_share
  share-All [] plan at h = absurd (cc h)
  share-All (target ∷ second ∷ rest) plan at h = absurd (cc h)
  share-All (recipient ∷ []) plan at h =
      let (u, checked, rest) =
        >>=-eq-ok (check_shares input decision shares recipient decision.reveal_refs) _ h in
      subst (All Granted) (ok-injective rest) (shares-All recipient decision.reveal_refs at checked)

  nothing-All :
      (refs : List String) (plan : List Entry)
      → nothing_revealed {E = E} input decision refs ≡ ok plan
      → All Granted plan
  unfolding nothing_revealed
  nothing-All [] plan h = subst (All Granted) (ok-injective h) tt
  nothing-All (e ∷ rest) plan h = absurd (cc h)

  kind-All :
      (kind : CaseDecisionKind) (plan : List Entry)
      → authorize_kind {E = E} input decision shares witnesses kind ≡ ok plan
      → All Granted plan
  unfolding authorize_kind
  kind-All observe plan h = reveal-All input decision shares witnesses plan h
  kind-All investigate plan h = reveal-All input decision shares witnesses plan h
  kind-All question plan h = question-All _ plan refl h
  kind-All share plan h = share-All _ plan refl h
  kind-All request_hint plan h = nothing-All _ plan h
  kind-All accuse plan h = nothing-All _ plan h
  kind-All other plan h = nothing-All _ plan h
  kind-All (foreign s) plan h = absurd (cc h)

  decision-All :
      (plan : List Entry)
      → authorize_decision input shares witnesses (some decision) ≡ ok plan
      → All Granted plan
  unfolding authorize_decision
  decision-All plan h =
      let (u, one, most) =
        >>=-eq-ok (guard (str_eq decision.case_id input.case_id) _)
          (λ _. guard (str_eq decision.actor_id input.acting_actor_id) _ >>= λ _.
            authorize_kind input decision shares witnesses decision.kind)
          h in
      let (v, two, rest) =
        >>=-eq-ok (guard (str_eq decision.actor_id input.acting_actor_id) _)
          (λ _. authorize_kind input decision shares witnesses decision.kind) most in
      kind-All decision.kind plan rest

  -- Every grant of an authorized plan has its ground: revealed evidence is open and eligible and goes
  -- to the actor or an allowed witness, testimony is a belief of the one character who was questioned
  -- about open evidence, and what is shared is known to the actor and may be shared with the recipient.
  pub authorized-IsGranted :
      (plan : List Entry)
      → input.decision ≡ some decision
      → authorize_with_witnesses input shares witnesses ≡ ok plan
      → All (IsGranted input decision shares witnesses) plan
  unfolding authorize_with_witnesses
  authorized-IsGranted plan made h =
      decision-All plan (ap (authorize_decision input shares witnesses) (sym made) ∙ h)
