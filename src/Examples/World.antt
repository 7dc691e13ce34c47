-- ===== src/Examples/World.antt =====
-- Rules of identifiers, a graph and an action to run the code on.
use semmachina.Prelude.{ℕ, String, not, if◌then◌else◌, none, some, [], ◌∷◌, str_eq, ok}
use semmachina.Vocabulary.Attribute
use semmachina.Vocabulary.Relation
use semmachina.Vocabulary.Status
use semmachina.Vocabulary.EffectType.{set_status}
use semmachina.Vocabulary.Predicates.{world_entity_kind, turn_phase_current, turn_verdict_ref}
use semmachina.Graph.{Object, text, Triple, full_confidence}
use semmachina.Graph.Ids.{IdRules, last_segment}
use semmachina.Payload.Effects.{EffectIntent}
use semmachina.Graph.Memory.{Memory}
use semmachina.Payload.PlayerAction.{PlayerAction}
use semmachina.Turn.Identity.{Identity}
use semmachina.Turn.Pointers.{Actions}

abbrev pub ids : IdRules
ids = record {
  valid_entity_id = λ s. not (str_eq s "");
  valid_entity_id_prefix = λ s. not (str_eq s "");
  max_entity_id_bytes = 255;
  parse_predicate = λ p. some (last_segment p);
  category = λ p. p;
}

abbrev pub clock : Memory → ℕ
clock m = 7

abbrev pub player : String
player = "c.semmachina.w.t.player.p1"

abbrev pub turn_1 : String
turn_1 = "c.semmachina.w.t.turn.turn-a1"

-- The player alone.
abbrev pub start : Memory
start id = if str_eq id player then some [] else none

abbrev pub actions : Actions Memory
actions = record { put_action = λ m id a. (m, ok "obj://actions/a1") }

abbrev pub identity : Identity
identity = record { org = "c"; world_ns = "w"; template = "t" }

abbrev pub action : PlayerAction
action = record {
  action_id = "a1";
  player_id = player;
  campaign_id = "c.semmachina.w.t.campaign.c1";
  scene_id = "c.semmachina.w.t.scene.s1";
  text = "open the door";
  arrived_at = 5;
  adapter = "websocket";
  reply_to = "reply";
}

abbrev pub hero : String
hero = "c.semmachina.w.t.character.hero"

abbrev pub fact : String → String → Object → Triple
fact subject predicate object = record {
  subject = subject;
  predicate = predicate;
  object = object;
  source = "import";
  timestamp = 1;
  confidence = full_confidence;
  context = "";
  datatype = "";
}

-- A hero, a player and a turn that was adjudicated.
abbrev pub stage_world : Memory
stage_world id =
    if str_eq id hero
    then some (fact hero world_entity_kind (text "character") ∷ [])
    else if str_eq id turn_1
    then some (
        fact turn_1 turn_phase_current (text "adjudicating")
        ∷ fact turn_1 turn_verdict_ref (text "obj://store/turn/turn-a1/verdict")
        ∷ [])
    else if str_eq id player
    then some []
    else none

-- The intent that a character is wounded.
abbrev pub wound : String → EffectIntent
wound target = record {
  kind = set_status;
  target = target;
  attribute = Attribute.foreign "";
  value = none;
  status = Status.wounded;
  location = "";
  relation = Relation.foreign "";
  object = "";
}

abbrev pub sprint : Object → String
sprint (text s) = s
sprint o = "?"
