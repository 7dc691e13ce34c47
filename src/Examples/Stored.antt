-- ===== src/Examples/Stored.antt =====
-- An artifact that is stored and read back, over objects in memory.
use semmachina.Prelude.{
  String, not, if◌then◌else◌, Option, none, some, ◌≡◌, refl, sym, ap, ◌∙◌, Result, ok, err, str_eq,
  eq_refl, arith, false,
}
use semmachina.Content.Ref.{Ref}
use semmachina.Content.Store.{
  BackendError, object_not_found, Backend, Codec, subject_turn, artifact_slot, put, get,
}
use semmachina.Content.Roundtrip.{KeepsObjects, IsFaithful, get-put}
use semmachina.Content.Distinct.{HasPlainSegments, put-distinct}
use semmachina.Payload.Text.{contains_char}
use semmachina.Graph.Ids.{IdRules, last_segment}
use semmachina.Examples.World.{ids}

abbrev Objects : Type 0
Objects = String → Option String

abbrev found : Option String → Result BackendError String
found none = err object_not_found
found (some d) = ok d

abbrev backend : Backend Objects
backend = record {
  instance_name = "store";
  put = λ w k d. ((λ j. if str_eq j k then some d else w j), none);
  get = λ w k. found (w k);
}

backend-KeepsObjects : KeepsObjects backend
backend-KeepsObjects = record {
  get-put = λ w w' k d h. ap (λ r. found (r.0 k)) (sym h) ∙ rw (eq_refl k) refl;
  get-put_other = λ w w' k d j h n. ap (λ r. found (r.0 j)) (sym h) ∙ rw n refl;
}

-- Texts are their own bytes.
abbrev codec : Codec String
codec = record { valid = λ s. not (str_eq s ""); encode = λ s. some s; decode = λ s. some s }

codec-IsFaithful : IsFaithful codec
codec-IsFaithful = record { decode-encode = λ a d h. sym h }

abbrev empty : Objects
empty k = none

abbrev ref : Ref
ref = record { instance_name = "store"; key = "turn/turn-a1/turn.narration.ref" }

abbrev kept : Objects
kept = (put ids backend codec "turn.narration.ref" subject_turn "turn-a1" "the door opens" empty).0

puts :
    (put ids backend codec "turn.narration.ref" subject_turn "turn-a1" "the door opens" empty).1
    ≡ ok ref
unfolding put semmachina.Graph.Ids.validate_id_segment semmachina.Content.Ref.validate
    semmachina.Payload.Text.contains_char semmachina.Content.Ref.to_string
puts = refl

get-put_example : get ids backend codec "turn.narration.ref" ref kept ≡ ok "the door opens"
get-put_example =
    get-put ids backend codec "turn.narration.ref" subject_turn "turn-a1" "the door opens" empty
      kept ref backend-KeepsObjects codec-IsFaithful (ap (λ r. (kept, r)) puts)

-- Rules whose segments have no separator.
abbrev strict : IdRules
strict = record {
  valid_entity_id = λ s. not (str_eq s "");
  valid_entity_id_prefix = λ s. not (contains_char b'/' s);
  max_entity_id_bytes = 255;
  parse_predicate = λ p. some (last_segment p);
  category = λ p. p;
}

strict-HasPlainSegments : HasPlainSegments strict
unfolding contains_char
strict-HasPlainSegments s h = ground (arith, h)

abbrev stored : String → Objects
stored s = (put strict backend codec "turn.narration.ref" subject_turn "turn-a1" s empty).0

stores :
    (s : String)
    → str_eq s "" ≡ false
    → (put strict backend codec "turn.narration.ref" subject_turn "turn-a1" s empty).1 ≡ ok ref
unfolding put semmachina.Graph.Ids.validate_id_segment semmachina.Content.Ref.validate contains_char
    semmachina.Content.Ref.to_string
stores s h = rw (h, put) refl

put-distinct_example :
    (subject_turn ≡ subject_turn)
    × ◌≡◌ {A = String} "turn-a1" "turn-a1"
    × (artifact_slot strict "turn.narration.ref" ≡ artifact_slot strict "turn.narration.ref")
put-distinct_example =
    put-distinct strict backend codec codec "turn.narration.ref" subject_turn "turn-a1"
      "turn.narration.ref" subject_turn "turn-a1" "the door opens" "the door shuts" empty
      (stored "the door opens") empty (stored "the door shuts") ref strict-HasPlainSegments
      (ap (λ r. (stored "the door opens", r)) (stores "the door opens" refl))
      (ap (λ r. (stored "the door shuts", r)) (stores "the door shuts" refl))
