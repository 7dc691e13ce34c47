-- ===== src/Payload/PlayerAction.antt =====
-- internal/payload/playeraction.go: the action that a player submits, and the 1:1 derivation of turn
-- ids from action ids.
use Prim.Native.String.{◌++◌ as ◌+++◌}
use semmachina.Prelude.{
  len, ℕ, String, false, not, if◌then◌else◌, none, some, ltb, ◌==◌, ◌≡◌, arith, str_eq, Result, ok,
  err, ◌>>=◌, ◌>>◌, guard, wrap,
}
use semmachina.Graph.Ids.{
  IdRules, IdError, validate_id_segment, require_entity_id, require_action_id,
}
use semmachina.Payload.Text.{cut_prefix, cut_prefix-append}

pub record PlayerAction : Type 0 where
  pub action_id : String
  pub player_id : String
  pub campaign_id : String
  pub scene_id : String
  pub text : String
  pub arrived_at : ℕ
  pub adapter : String
  pub reply_to : String

pub data ActionError : Type 0 where
  action_id_error : IdError → ActionError
  text_empty text_too_long no_arrival unknown_adapter no_reply_to not_a_turn_id : ActionError

abbrev max_action_text_bytes : ℕ
max_action_text_bytes = 4096

-- `websocket` is the only channel adapter.
unfoldable pub validate_player_action : IdRules → PlayerAction → Result ActionError (Unit {0})
validate_player_action ids a = do
  wrap action_id_error (require_action_id ids a.action_id)
  wrap action_id_error (require_entity_id ids a.player_id)
  wrap action_id_error (require_entity_id ids a.campaign_id)
  wrap action_id_error (require_entity_id ids a.scene_id)
  guard (not (str_eq a.text "")) text_empty
  guard (not (ltb max_action_text_bytes (len a.text))) text_too_long
  guard (not (a.arrived_at == 0)) no_arrival
  guard (str_eq a.adapter "websocket") unknown_adapter
  guard (not (str_eq a.reply_to "")) no_reply_to

unfoldable pub turn_id_for_action : String → String
turn_id_for_action action_id = if str_eq action_id "" then "" else "turn-" +++ action_id

unfoldable pub action_id_for_turn : IdRules → String → Result ActionError String
action_id_for_turn ids turn_id = wrap action_id_error (validate_id_segment ids turn_id) >>= λ _.
    elim (cut_prefix "turn-" turn_id) [
      | none ↦ err not_a_turn_id
      | some action_id ↦
          wrap action_id_error (require_action_id ids action_id) >>= λ _. ok action_id
    ]

action_id-ne-empty :
    (ids : IdRules) (s : String) → require_action_id ids s ≡ ok tt → str_eq s "" ≡ false
unfolding require_action_id
action_id-ne-empty ids s h = ground arith

turn_id-cut :
    (s : String) → str_eq s "" ≡ false → cut_prefix "turn-" (turn_id_for_action s) ≡ some s
unfolding turn_id_for_action
turn_id-cut s h = rw h (cut_prefix-append "turn-" s)

-- An action id that passes its own checks, and whose turn id is a legal segment, is recovered from
-- that turn id.
pub action_id_for_turn-turn_id_for_action :
    (ids : IdRules) (action_id : String)
    → require_action_id ids action_id ≡ ok tt
    → validate_id_segment ids (turn_id_for_action action_id) ≡ ok tt
    → action_id_for_turn ids (turn_id_for_action action_id) ≡ ok action_id
unfolding action_id_for_turn
action_id_for_turn-turn_id_for_action ids action_id h k =
    rw k (rw (turn_id-cut action_id (action_id-ne-empty ids action_id h)) (rw h))
