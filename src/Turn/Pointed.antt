-- ===== src/Turn/Pointed.antt =====
-- internal/turn/recorder.go `pointPlayerAtTurn` over a lawful store: it leaves the phases of turns.
use mathlib.Core.Path.{subst}
use semmachina.Prelude.{
  ℕ, String, true, false, some, List, [], ◌∷◌, ◌≡◌, refl, sym, ap, ◌∙◌, str_eq, Result, ok, err,
  Bool-cases, inl, inr, Result-cases,
}
use semmachina.Exec.{Post, Post-mono, Post-ok, Exec-cases}
use semmachina.Vocabulary.TurnPhase.{TurnPhase}
use semmachina.Vocabulary.Phases.{is_terminal}
use semmachina.Graph.{EntityState, Store, StoreError}
use semmachina.Graph.Targets.{predicates_of, player_current_turn}
use semmachina.Graph.Laws.{IsLawful}
use semmachina.Graph.Ids.{IdRules}
use semmachina.Payload.TurnRecords.{player_turn_triples}
use semmachina.Turn.Reads.{held_turns}
use semmachina.Turn.Pointers.{
  Acceptance, source, reconcile, turn_is_live, any_live, held_by, holds_another_live_turn,
  write_pointer, point_player_at_turn,
}
use semmachina.Turn.Durable.{InPhase, reconcile-InPhase}

module _ {W : Type 0} (ids : IdRules) (store : Store W) (now : W → ℕ) where
  -- Looking for another live turn writes nothing.
  any_live-Post :
      (except : String) (held : List String) (w : W)
      → Post (any_live ids store now except held w) (λ w' _. w' ≡ w)
  unfolding any_live turn_is_live
  any_live-Post except [] w = refl
  any_live-Post except (id ∷ held) w = elim (Bool-cases (str_eq id except)) [
    | inl e ↦ rw e (any_live-Post except held w)
    | inr n ↦ rw n (elim (Exec-cases (turn_is_live ids store now id w)) [
      | inr (v, f, k) ↦ rw k tt
      | inl (v, true, k) ↦ rw k (sym (ap (λ r. r.0) k))
      | inl (v, false, k) ↦ rw k (
          Post-mono (λ w' _. w' ≡ v) _ _ (any_live-Post except held v)
            (λ w' _ e. e ∙ sym (ap (λ r. r.0) k)))
    ])
  ]

  held_by-Post :
      (except : String) (r : Result StoreError EntityState) (w : W)
      → Post (held_by ids store now except r w) (λ w' _. w' ≡ w)
  unfolding held_by
  held_by-Post except (err StoreError.entity_not_found) w = refl
  held_by-Post except (err e) w = tt
  held_by-Post except (ok s) w = any_live-Post except (held_turns (some s)).0 w

  module _ (lawful : IsLawful store) (id : String) (p : TurnPhase) where
    write_pointer-Post :
        (player_id : String) (a : Acceptance) (w : W)
        → InPhase store w id p
        → Post (write_pointer ids store now player_id a w) (λ w' _. InPhase store w' id p)
    unfolding write_pointer predicates_of
    write_pointer-Post player_id a w at =
        elim (Result-cases (
          player_turn_triples ids
            (record {
              player_id = player_id;
              turn_id = a.turn_id;
              turn_entity_id = a.turn_entity_id;
            })
            player_id source (now w))) [
              | inr (e, h) ↦ rw h tt
              | inl (ts, h) ↦
                  rw h
                    (elim (Exec-cases
                      (reconcile ids store now player_current_turn player_id ts w)) [
                        | inr (v, e, k) ↦ rw k tt
                        | inl (v, u, k) ↦ rw k (
                            reconcile-InPhase ids store now lawful player_current_turn player_id ts
                              id p refl k at)
                      ])
            ]

    pub point_player_at_turn-Post :
        (player_id : String) (a : Acceptance) (w : W)
        → InPhase store w id p
        → Post (point_player_at_turn ids store now player_id a w) (λ w' _. InPhase store w' id p)
    unfolding point_player_at_turn holds_another_live_turn
    point_player_at_turn-Post player_id a w at = elim (Bool-cases (is_terminal a.phase)) [
      | inl t ↦ rw t at
      | inr f ↦
          rw f
            (elim (Exec-cases
              (held_by ids store now a.turn_entity_id (store.get_entity w player_id) w)) [
                | inr (v, e, k) ↦ rw k tt
                | inl (v, late, k) ↦
                    let same_world =
                      Post-ok (λ w' _. w' ≡ w) _
                        (held_by-Post a.turn_entity_id (store.get_entity w player_id) w) k in
                    let there = subst (λ x. InPhase store x id p) (sym same_world) at in
                    rw k (elim (Bool-cases late) [
                      | inl y ↦ rw y there
                      | inr n ↦ rw n (write_pointer-Post player_id a v there)
                    ])
              ])
    ]
