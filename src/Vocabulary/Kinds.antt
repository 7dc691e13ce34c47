-- ===== src/Vocabulary/Kinds.antt =====
-- internal/vocabulary/enum.go: the names of the closed sets and the error that a value outside one
-- gives.
use semmachina.Prelude.{String, Bool, if◌then◌else◌, Result, ok, err}

pub data Kind : Type 0 where
  plausibility risk consequence outcome_band modifier_source effect_type status attribute : Kind
  relation entity_kind turn_phase channel_adapter mechanic rng failure_reason : Kind
  authorization_reason roll_gate_mapping evidence_truth_status evidence_reveal_kind : Kind
  belief_stance companion_policy hint_level companion_trigger companion_trigger_source : Kind
  case_phase case_lifecycle_event_kind : Kind

-- The allowed values are those of the kind, and are not repeated here.
pub record UnknownValue : Type 0 where
  pub kind : Kind
  pub value : String

-- `enum.parse`: the conversion, then the membership test.
module _ {ℓ} {T : Type ℓ} where
  abbrev pub parse : Kind → (String → T) → (T → Bool) → String → Result UnknownValue T
  parse k convert valid s =
      if valid (convert s) then ok (convert s) else err (record { kind = k; value = s })
