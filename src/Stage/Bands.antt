-- ===== src/Stage/Bands.antt =====
-- internal/stage/apply.go `committedBand`: the band whose effects are committed.
use mathlib.Core.Path.{subst}
use semmachina.Prelude.{
  String, Bool, true, false, List, [], ◌∷◌, ◌≡◌, refl, sym, ap, ◌∙◌, inl, inr, ok, Bool-cases,
  ok-injective, ◌>>=◌, ◌↔◌,
}
use semmachina.Vocabulary.OutcomeBand
use semmachina.Vocabulary.OutcomeBand.{OutcomeBand, auto}
use semmachina.Vocabulary.Resolution.{is_roll_band}
use semmachina.Vocabulary.Predicates.{turn_roll_band}
use semmachina.Graph.{Object, text, EntityState, objects_for}
use semmachina.Payload.Verdicts.{Verdict}
use semmachina.Stage.Entering.{sole, sole_object}
use semmachina.Stage.Applying.{roll_band, parsed_band, band_from, committed_band}

-- The band that a gate and the recorded bands select.
pub data Selects : Bool → List Object → OutcomeBand → Type 0 where
  undiced : Selects false [] auto
  diced :
      (b : OutcomeBand)
      → is_roll_band b ≡ true
      → Selects true (text (OutcomeBand.to_string b) ∷ []) b

parsed :
    (value : String) (b : OutcomeBand)
    → parsed_band (OutcomeBand.parse value) ≡ ok b
    → (value ≡ OutcomeBand.to_string b) × (is_roll_band b ≡ true)
unfolding parsed_band roll_band OutcomeBand.parse
parsed value b h = elim (Bool-cases (OutcomeBand.valid (OutcomeBand.of_string value))) [
  | inr n ↦ absurd (cc (rw (n, parsed_band) at h))
  | inl v ↦ elim (Bool-cases (is_roll_band (OutcomeBand.of_string value))) [
    | inr n ↦ absurd (cc (rw (v, n, parsed_band, roll_band) at h))
    | inl r ↦
        let same = ok-injective (rw (v, r, parsed_band, roll_band) at h) in
        (
          sym (OutcomeBand.to_string-of_string value) ∙ ap OutcomeBand.to_string same,
          sym (ap is_roll_band same) ∙ r,
        )
  ]
]

chosen :
    (g : Bool) (os : List Object) (b : OutcomeBand)
    → (sole turn_roll_band os >>= band_from g) ≡ ok b
    → Selects g os b
unfolding sole band_from
chosen false [] b h = subst (Selects false []) (ok-injective h) undiced
chosen true [] b h = absurd (cc h)
chosen false (o ∷ []) b h = absurd (cc h)
chosen true (text value ∷ []) b h =
    let (same, rolled) = parsed value b h in
    subst (λ s. Selects true (text s ∷ []) b) (sym same) (diced b rolled)
chosen true (o ∷ []) b h = absurd (cc h)
chosen g (o ∷ p ∷ rest) b h = absurd (cc h)

parses :
    (b : OutcomeBand)
    → is_roll_band b ≡ true
    → parsed_band (OutcomeBand.parse (OutcomeBand.to_string b)) ≡ ok b
unfolding parsed_band roll_band OutcomeBand.parse is_roll_band
parses OutcomeBand.miss h = refl
parses OutcomeBand.partial h = refl
parses OutcomeBand.full h = refl
parses auto h = absurd (cc h)
parses (OutcomeBand.foreign s) h = absurd (cc h)

selected :
    (g : Bool) (os : List Object) (b : OutcomeBand)
    → Selects g os b
    → (sole turn_roll_band os >>= band_from g) ≡ ok b
unfolding sole band_from
selected _ _ _ undiced = refl
selected _ _ _ (diced c r) = parses c r

-- The band that the applier commits is exactly the one that the turn's facts select: without a roll,
-- auto, when the verdict declines the dice and the turn records no band; with a roll, the one band that
-- the turn records, when the verdict requires the dice and the dice can select it. No other band is
-- committed, and in every other case there is an error.
pub committed_band_iff :
    (state : EntityState) (v : Verdict) (b : OutcomeBand)
    → (committed_band state v ≡ ok b)
      ↔ Selects v.scalars.requires_roll (objects_for state.triples turn_roll_band) b
unfolding committed_band sole_object
committed_band_iff state v b = (
  chosen v.scalars.requires_roll (objects_for state.triples turn_roll_band) b,
  selected v.scalars.requires_roll (objects_for state.triples turn_roll_band) b,
)
