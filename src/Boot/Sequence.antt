-- ===== src/Boot/Sequence.antt =====
-- internal/boot/sequence.go: boot steps with declared prerequisites. What a step checks and does, and
-- the cancellation of the context, are parameters.
use semmachina.Prelude.{
  String, Bool, true, false, ◌||◌, ◌&&◌, not, if◌then◌else◌, Option, none, some, List, [], ◌∷◌,
  ◌++◌, str_eq, contains, Result, ok, err,
}
use semmachina.Exec.{Exec, pure, raise, ◌>>◌}

-- `Step`; a nil function is `none`.
pub record Step (W E : Type 0) : Type 0 where
  pub id : String
  pub needs : List String
  pub check : Option (W → W × Result E (Unit {0}))
  pub work : Option (W → W × Result E (Unit {0}))

pub data SequenceError : Type 0 where
  no_steps no_step_id : SequenceError
  declared_twice nothing_to_run requires_itself : String → SequenceError
  requires_undeclared : String → String → SequenceError

pub data BootError (E : Type 0) : Type 0 where
  undeclared_last cancelled_before : String → BootError E
  prerequisites_missing : String → List String → BootError E
  precondition_failed step_failed : String → E → BootError E
  -- A nil `Run` is called; `NewSequence` refuses such a step.
  nil_run : String → BootError E

-- A sequence's bookkeeping, with the world that its steps act on.
pub record Boot (W : Type 0) : Type 0 where
  pub world : W
  pub done : String → Bool
  pub completed : List String

unfoldable pub check_needs : List String → String → List String → Result SequenceError (Unit {0})
check_needs declared id [] = ok tt
check_needs declared id (need ∷ rest) =
    let later = check_needs declared id rest in
    if str_eq need id
    then err (requires_itself id)
    else if not (contains declared need)
    then err (requires_undeclared id need)
    else later

unfoldable pub missing : (String → Bool) → List String → List String
missing done [] = []
missing done (need ∷ rest) = if done need then missing done rest else need ∷ missing done rest

module _ {W E : Type 0} where
  unfoldable pub declared_ids : List (Step W E) → List String
  declared_ids [] = []
  declared_ids (s ∷ rest) = s.id ∷ declared_ids rest

  unfoldable pub is_set : Option (W → W × Result E (Unit {0})) → Bool
  is_set none = false
  is_set (some f) = true

  -- The first loop of `NewSequence`, with the ids declared so far.
  unfoldable pub check_steps : List String → List (Step W E) → Result SequenceError (List String)
  check_steps declared [] = ok declared
  check_steps declared (s ∷ rest) =
      let later = check_steps (s.id ∷ declared) rest in
      if str_eq s.id ""
      then err no_step_id
      else if contains declared s.id
      then err (declared_twice s.id)
      else if not (is_set s.work)
      then err (nothing_to_run s.id)
      else later

  unfoldable pub check_all_needs : List String → List (Step W E) → Result SequenceError (Unit {0})
  check_all_needs declared [] = ok tt
  check_all_needs declared (s ∷ rest) = elim (check_needs declared s.id s.needs) [
    | err e ↦ err e
    | ok _ ↦ check_all_needs declared rest
  ]

  unfoldable pub check_shape :
      List (Step W E) → Result SequenceError (List String) → Result SequenceError (List (Step W E))
  check_shape steps (err e) = err e
  check_shape steps (ok declared) = elim (check_all_needs declared steps) [
    | err e ↦ err e
    | ok _ ↦ ok steps
  ]

  -- `NewSequence`: the steps of the sequence; nothing is done yet.
  unfoldable pub new_sequence : List (Step W E) → Result SequenceError (List (Step W E))
  unfolding check_shape
  new_sequence [] = err no_steps
  new_sequence steps = check_shape steps (check_steps [] steps)

  external :
      (E → BootError E)
      → Boot W
      → W × Result E (Unit {0})
      → Boot W × Result (BootError E) (Unit {0})
  external f b (w, ok _) = (record { world = w; done = b.done; completed = b.completed }, ok tt)
  external f b (w, err e) =
      (record { world = w; done = b.done; completed = b.completed }, err (f e))

  unfoldable pub run_check : Step W E → Exec (Boot W) (BootError E) (Unit {0})
  unfolding external
  run_check s b = elim s.check [
    | none ↦ (b, ok tt)
    | some f ↦ external (precondition_failed s.id) b (f b.world)
  ]

  unfoldable pub run_work : Step W E → Exec (Boot W) (BootError E) (Unit {0})
  unfolding external
  run_work s b = elim s.work [
    | none ↦ (b, err (nil_run s.id))
    | some f ↦ external (step_failed s.id) b (f b.world)
  ]

  unfoldable pub record_done : String → Exec (Boot W) (BootError E) (Unit {0})
  record_done id b = (
    record {
      world = b.world;
      done = λ x. str_eq x id || b.done x;
      completed = b.completed ++ id ∷ [];
    },
    ok tt,
  )

  refuse_missing : String → List String → Exec (Boot W) (BootError E) (Unit {0})
  refuse_missing id [] = pure tt
  refuse_missing id (m ∷ ms) = raise (prerequisites_missing id (m ∷ ms))

  -- The body of the loop of `RunThrough` for a step that is not done.
  unfoldable pub attempt : (W → Bool) → Step W E → Exec (Boot W) (BootError E) (Unit {0})
  unfolding refuse_missing run_check run_work record_done
  attempt cancelled s b =
      (do
        (if cancelled b.world then raise (cancelled_before s.id) else pure tt)
        refuse_missing s.id (missing b.done s.needs)
        run_check s
        run_work s
        record_done s.id)
        b

  unfoldable pub run_steps :
      (W → Bool) → String → List (Step W E) → Exec (Boot W) (BootError E) (Unit {0})
  unfolding attempt
  run_steps cancelled last [] b = (b, ok tt)
  run_steps cancelled last (s ∷ rest) b =
      let later = run_steps cancelled last rest in
      if b.done s.id
      then later b
      else (attempt cancelled s >> (if str_eq s.id last then pure tt else later)) b

  -- `RunThrough`; `Run` is `run_through … ""`.
  unfoldable pub run_through :
      (W → Bool) → List (Step W E) → String → Exec (Boot W) (BootError E) (Unit {0})
  unfolding run_steps declared_ids
  run_through cancelled steps last b =
      if not (str_eq last "") && not (contains (declared_ids steps) last)
      then (b, err (undeclared_last last))
      else run_steps cancelled last steps b
