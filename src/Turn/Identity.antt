-- ===== src/Turn/Identity.antt =====
-- internal/turn/identity.go and `ComposeEntityID` of internal/vocabulary/world.go: how a turn is
-- named after the action that it plays.
use Prim.Native.String.{◌++◌ as ◌+++◌}
use semmachina.Prelude.{String, if◌then◌else◌, Result, ok, err, ◌>>=◌, ◌>>◌}
use semmachina.Graph.Ids.{IdRules, IdError, entity_id_not_canonical, validate_id_segment}
use semmachina.Payload.PlayerAction.{turn_id_for_action}

pub record Identity : Type 0 where
  pub org : String
  pub world_ns : String
  pub template : String

module _ (ids : IdRules) where
  unfoldable pub compose_entity_id :
      String → String → String → String → String → Result IdError String
  compose_entity_id org world_ns template type_segment instance_name =
      let id =
        org
        +++ (".semmachina."
            +++ (world_ns
                +++ ("."
                    +++ (template +++ ("." +++ (type_segment +++ ("." +++ instance_name))))))) in
      if ids.valid_entity_id id then ok id else err entity_id_not_canonical

  unfoldable pub validate_identity : Identity → Result IdError (Unit {0})
  validate_identity i = do
    validate_id_segment ids i.org
    validate_id_segment ids i.world_ns
    validate_id_segment ids i.template

  unfoldable pub entity_id : Identity → String → Result IdError String
  unfolding compose_entity_id validate_identity
  entity_id i turn_id = do
    validate_identity i
    validate_id_segment ids turn_id
    compose_entity_id i.org i.world_ns i.template "turn" turn_id

  -- The turn id and the entity id of the turn that an action starts.
  unfoldable pub entity_id_for_action : Identity → String → Result IdError (String × String)
  unfolding entity_id
  entity_id_for_action i action_id = do
    validate_id_segment ids action_id
    id ← entity_id i (turn_id_for_action action_id)
    ok (turn_id_for_action action_id, id)
