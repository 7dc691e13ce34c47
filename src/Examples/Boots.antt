-- ===== src/Examples/Boots.antt =====
-- A boot of two steps that count.
use semmachina.Prelude.{
  ℕ, ◌+◌, String, Bool, true, false, none, some, List, [], ◌∷◌, ◌≡◌, refl, Result, ok, All,
}
use semmachina.Boot.Sequence.{Step, Boot, new_sequence, run_through}
use semmachina.Boot.Order.{Sound, start, run_through-Sound}
use semmachina.Boot.Shape.{Distinct, sequence_completes}
use semmachina.Boot.Complete.{Willing, ordered_boot_succeeds}

abbrev count : ℕ → ℕ × Result String (Unit {0})
count n = (n + 1, ok tt)

abbrev graph : Step ℕ String
graph = record { id = "graph"; needs = []; check = none; work = some count }

abbrev rules : Step ℕ String
rules = record { id = "rules"; needs = "graph" ∷ []; check = some count; work = some count }

abbrev both : List (Step ℕ String)
both = graph ∷ rules ∷ []

abbrev off : Boot ℕ
off = record { world = 0; done = λ x. false; completed = [] }

abbrev never : ℕ → Bool
never n = false

off-Sound : Sound both off
off-Sound = record { agrees = λ x. refl; justified = start }

run_through-Sound_example : Sound both (run_through never both "rules" off).0
run_through-Sound_example = run_through-Sound never both "rules" off off-Sound

runs : run_through never both "" off ≡ ((run_through never both "" off).0, ok tt)
unfolding run_through semmachina.Boot.Sequence.missing
runs = refl

makes : new_sequence both ≡ ok both
unfolding new_sequence semmachina.Boot.Sequence.check_steps semmachina.Boot.Sequence.is_set
    semmachina.Boot.Sequence.check_all_needs semmachina.Boot.Sequence.check_needs
makes = refl

sequence_completes_example :
    (both ≡ both)
    × Distinct [] both
    × All (λ s. (run_through never both "" off).0.done s.id ≡ true) both
sequence_completes_example =
    sequence_completes never both both off (run_through never both "" off).0 makes runs

graph-Willing : Willing graph
unfolding semmachina.Boot.Sequence.run_check semmachina.Boot.Sequence.run_work
graph-Willing = (λ b. refl, λ b. refl)

rules-Willing : Willing rules
unfolding semmachina.Boot.Sequence.run_check semmachina.Boot.Sequence.run_work
rules-Willing = (λ b. refl, λ b. refl)

ordered_boot_succeeds_example :
    let r = run_through never both "" off in (r.1 ≡ ok tt) × All (λ s. r.0.done s.id ≡ true) both
ordered_boot_succeeds_example =
    ordered_boot_succeeds never both off (λ n. refl) (graph-Willing, (rules-Willing, tt))
      (tt, ((refl, tt), tt)) (refl, (refl, tt))
