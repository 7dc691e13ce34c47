-- ===== src/Effect/Fold.antt =====
-- internal/effect/plan.go: the values that a batch writes to one entity, and how an intent is folded
-- into them. The text that fmt.Sprint gives of an object is a parameter.
use semmachina.Prelude.{
  String, Bool, true, false, not, if◌then◌else◌, Option, none, some, List, [], ◌∷◌, ◌++◌, length,
  ◌==◌, str_eq, contains, keep, Result, ok, err, ◌>>=◌,
}
use semmachina.Vocabulary.EffectType.{EffectType, remove_relationship}
use semmachina.Vocabulary.World.{is_entity_reference, is_multi_valued}
use semmachina.Graph.{Object, text, Triple, EntityState}
use semmachina.Effect.Views.{Violation, resident_not_text, set_twice, named_twice, EntityView}

-- One value, new or taken over from the entity with its triple.
pub record ObjectWrite : Type 0 where
  pub object : Object
  pub resident : Option Triple

-- `named` are the keys of the map of that name.
pub record PredicateWrite : Type 0 where
  pub predicate : String
  pub objects : List ObjectWrite
  pub reference : Bool
  pub multi : Bool
  pub named : List String

-- `writes` has the predicates in the order of their first use: `order` and the map of the same keys.
pub record TargetWrite : Type 0 where
  pub entity_id : String
  pub resident : Option EntityState
  pub writes : List PredicateWrite

abbrev pub fresh : Object → ObjectWrite
fresh object = record { object = object; resident = none }

unfoldable pub with_resident :
    String
    → Triple
    → Object
    → Result Violation (List ObjectWrite)
    → Result Violation (List ObjectWrite)
with_resident p t (text s) later =
    later >>= λ ws. ok (record { object = t.object; resident = some t } ∷ ws)
with_resident p t object later = err (resident_not_text p)

-- The objects that a multi-valued predicate has already, which are texts.
unfoldable pub residents : String → List Triple → Result Violation (List ObjectWrite)
unfolding with_resident
residents p [] = ok []
residents p (t ∷ ts) =
    let later = residents p ts in
    if str_eq t.predicate p then with_resident p t t.object later else later

unfoldable pub find_write : String → List PredicateWrite → Option PredicateWrite
find_write p [] = none
find_write p (x ∷ rest) = if str_eq x.predicate p then some x else find_write p rest

-- The changed entry stands where it stood, a new one at the end.
unfoldable pub put_write : PredicateWrite → List PredicateWrite → List PredicateWrite
put_write x [] = x ∷ []
put_write x (y ∷ rest) = if str_eq y.predicate x.predicate then x ∷ rest else y ∷ put_write x rest

abbrev pub entry : String → List ObjectWrite → PredicateWrite
entry p objects = record {
  predicate = p;
  objects = objects;
  reference = is_entity_reference p;
  multi = is_multi_valued p;
  named = [];
}

unfoldable pub new_entry : EntityView → String → Result Violation PredicateWrite
unfolding residents
new_entry target p =
    if is_multi_valued p
    then (residents p target.state.triples >>= λ ws. ok (entry p ws))
    else ok (entry p [])

-- `entryFor`, the entry that is there or a new one.
unfoldable pub entry_for :
    EntityView → String → Option PredicateWrite → Result Violation PredicateWrite
unfolding new_entry
entry_for target p (some existing) = ok existing
entry_for target p none = new_entry target p

abbrev pub is_removal : EffectType → Bool
is_removal remove_relationship = true
is_removal t = false

module _ (sprint : Object → String) where
  unfoldable pub without_object : List ObjectWrite → String → List ObjectWrite
  without_object objects key = keep (λ o. not (str_eq (sprint o.object) key)) objects

  unfoldable pub has_object : List ObjectWrite → String → Bool
  has_object [] key = false
  has_object (o ∷ rest) key = if str_eq (sprint o.object) key then true else has_object rest key

  unfoldable pub with_object : List ObjectWrite → String → Object → List ObjectWrite
  unfolding has_object
  with_object objects key object =
      if has_object objects key then objects else objects ++ fresh object ∷ []

  -- The rest of `foldValue`, on the entry.
  unfoldable pub fold_entry : PredicateWrite → Object → EffectType → Result Violation PredicateWrite
  unfolding without_object with_object
  fold_entry e object t =
      if not e.multi
      then if not (length e.named == 0)
        then err (set_twice e.predicate)
        else ok (record e { named = sprint object ∷ []; objects = fresh object ∷ [] })
      else if contains e.named (sprint object)
      then err (named_twice e.predicate)
      else ok (record e {
        named = sprint object ∷ e.named;
        objects =
            if is_removal t
            then without_object e.objects (sprint object)
            else with_object e.objects (sprint object) object;
      })

  unfoldable pub fold_value :
      EntityView → String → Object → EffectType → TargetWrite → Result Violation TargetWrite
  unfolding entry_for fold_entry find_write put_write
  fold_value target p object t write = do
    found ← entry_for target p (find_write p write.writes)
    folded ← fold_entry found object t
    ok (record write {
      resident = elim write.resident [ none ↦ some target.state | some s ↦ some s ];
      writes = put_write folded write.writes;
    })
