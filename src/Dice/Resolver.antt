-- ===== src/Dice/Resolver.antt =====
-- internal/dice/resolver.go: at most one roll for a turn. The reader of the graph is a parameter.
use semmachina.Prelude.{
  ℕ, suc, String, Bool, true, false, ◌&&◌, not, if◌then◌else◌, Option, none, some, List, [], ◌∷◌,
  length, ltb, ◌==◌, str_eq, Result, ok, err, ◌>>=◌, ◌>>◌, guard, wrap,
}
use semmachina.Prelude.Int.{ℤ}
use semmachina.Vocabulary.OutcomeBand
use semmachina.Vocabulary.Resolution.{MechanicSpec}
use semmachina.Vocabulary.Predicates.{turn_roll_band, turn_roll_total, turn_roll_ref}
use semmachina.Graph.{
  Object, text, int, int64, float64, json_number, EntityState, Store, StoreError, objects_for,
}
use semmachina.Graph.Ids.{IdRules, IdError, require_turn_entity_id}
use semmachina.Payload.Verdicts.{Verdict, VerdictError, validate_verdict}
use semmachina.Payload.RollResults.{RollResult, eq_ℤ}
use semmachina.Dice.Roller.{Seed, is_zero, Randomness, RollerError, roll}

-- The roller is the spec of its mechanic.
pub record Resolver : Type 0 where
  pub roller : MechanicSpec
  pub campaign_id : String
  pub seed : Seed

pub record Resolution : Type 0 where
  pub roll : RollResult
  pub rolled : Bool

-- `recordedRollState`.
pub record RecordedRoll : Type 0 where
  pub band : String
  pub total : ℤ

pub data ResolveError : Type 0 where
  no_seed no_campaign : ResolveError
  verdict_invalid : VerdictError → ResolveError
  turn_rejected : IdError → ResolveError
  no_roll_required : ResolveError
  turn_unreadable : StoreError → ResolveError
  roller_failed : RollerError → ResolveError
  roll_repeated : ℕ → ResolveError
  roll_partial : ℕ → ResolveError
  band_not_text total_not_number : ResolveError
  not_reproducible : RecordedRoll → ResolveError

-- `NewResolver` on a campaign's id and seed.
unfoldable pub new_resolver : MechanicSpec → String → Seed → Result ResolveError Resolver
unfolding is_zero
new_resolver roller campaign_id seed = do
  guard (not (is_zero seed)) no_seed
  guard (not (str_eq campaign_id "")) no_campaign
  ok (record { roller = roller; campaign_id = campaign_id; seed = seed })

unfoldable pub as_int : Object → Option ℤ
as_int (int v) = some v
as_int (int64 v) = some v
as_int (float64 v) = v
as_int (json_number v) = v
as_int object = none

-- The loop that counts the predicates with a value.
unfoldable pub count_present : ℕ → List (List Object) → Result ResolveError ℕ
count_present present [] = ok present
count_present present (objects ∷ rest) =
    let next = count_present (if length objects == 1 then suc present else present) rest in
    if ltb 1 (length objects) then err (roll_repeated (length objects)) else next

-- `recordedRoll` behind the count, on the values of the three predicates.
unfoldable pub read_roll : List Object → List Object → Result ResolveError RecordedRoll
unfolding as_int
read_roll (text band ∷ bands) (total ∷ totals) = elim (as_int total) [
  | none ↦ err total_not_number
  | some v ↦ ok (record { band = band; total = v })
]
read_roll bands totals = err band_not_text

unfoldable pub recorded_from :
    List Object → List Object → List Object → Result ResolveError (Option RecordedRoll)
unfolding count_present read_roll
recorded_from bands totals refs = do
  present ← count_present 0 (bands ∷ totals ∷ refs ∷ [])
  (if present == 0
      then ok none
      else if not (present == 3)
      then err (roll_partial present)
      else (read_roll bands totals >>= λ r. ok (some r)))

unfoldable pub recorded_roll : EntityState → Result ResolveError (Option RecordedRoll)
unfolding recorded_from
recorded_roll state =
    recorded_from (objects_for state.triples turn_roll_band)
      (objects_for state.triples turn_roll_total) (objects_for state.triples turn_roll_ref)

unfoldable pub agrees_with : RecordedRoll → RollResult → Result ResolveError (Unit {0})
agrees_with s r =
    guard (str_eq s.band (OutcomeBand.to_string r.band) && eq_ℤ s.total r.total)
      (not_reproducible s)

-- The end of `Resolve`: the roll, first or recorded before.
unfoldable pub resolution_of : RollResult → Option RecordedRoll → Result ResolveError Resolution
unfolding agrees_with
resolution_of r none = ok (record { roll = r; rolled = true })
resolution_of r (some recorded) = agrees_with recorded r >> ok (record { roll = r; rolled = false })

module _ {W : Type 0} (ids : IdRules) (random : Randomness) (store : Store W)
    (resolver : Resolver) where
  unfoldable pub resolve : Verdict → String → W → Result ResolveError Resolution
  unfolding resolution_of
  resolve verdict turn_entity_id w = do
    wrap verdict_invalid (validate_verdict ids verdict)
    wrap turn_rejected (require_turn_entity_id ids verdict.turn_id turn_entity_id)
    guard verdict.scalars.requires_roll no_roll_required
    state ← wrap turn_unreadable (store.get_entity w turn_entity_id)
    made ← wrap roller_failed (
        roll ids random resolver.roller resolver.seed resolver.campaign_id verdict.turn_id
          verdict.modifiers)
    recorded ← recorded_roll state
    resolution_of made recorded
