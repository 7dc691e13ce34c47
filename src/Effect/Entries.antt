-- ===== src/Effect/Entries.antt =====
-- internal/effect/plan.go `foldValue`: what an entry of a plan holds.
use mathlib.Core.Path.{subst}
use semmachina.Prelude.{
  String, Bool, true, false, not, if◌then◌else◌, none, some, List, [], ◌∷◌, length, ◌==◌, str_eq,
  keep, contains, ◌≡◌, refl, sym, ◌∙◌, inl, inr, Result, ok, ◌>>=◌, All, All-append, Bool-cases,
  Option-cases, eq_iff, ok-injective, >>=-eq-ok,
}
use semmachina.Vocabulary.EffectType.{EffectType}
use semmachina.Vocabulary.World.{is_multi_valued}
use semmachina.Graph.{Object, text, Triple}
use semmachina.Effect.Views.{Violation, EntityView}
use semmachina.Effect.Fold.{
  ObjectWrite, PredicateWrite, fresh, with_resident, residents, find_write, put_write, entry,
  new_entry, entry_for, is_removal, without_object, has_object, with_object, fold_entry,
}

All-keep :
    {A : Type 0} (P : A → Type 0) (test : A → Bool) (xs : List A) → All P xs → All P (keep test xs)
All-keep P test [] h = tt
All-keep P test (x ∷ xs) h = elim (Bool-cases (test x)) [
  | inl e ↦ rw e (h.0, All-keep P test xs h.1)
  | inr e ↦ rw e (All-keep P test xs h.1)
]

pub put_write-All :
    (P : PredicateWrite → Type 0) (x : PredicateWrite) (xs : List PredicateWrite)
    → P x
    → All P xs
    → All P (put_write x xs)
unfolding put_write
put_write-All P x [] h k = (h, tt)
put_write-All P x (y ∷ ys) h k = elim (Bool-cases (str_eq y.predicate x.predicate)) [
  | inl e ↦ rw (e, put_write) (h, k.1)
  | inr e ↦ rw (e, put_write) (k.0, put_write-All P x ys h k.1)
]

module _ (Good : String → Object → Type 0) where
  -- Every new value is good for the predicate.
  abbrev pub AreGood : String → List ObjectWrite → Type 0
  AreGood p objects = All (λ o. o.resident ≡ none → Good p o.object) objects

  -- An entry that values are still added to.
  pub record IsOpen (x : PredicateWrite) : Type 0 where
    pub valued : x.multi ≡ is_multi_valued x.predicate
    pub good : AreGood x.predicate x.objects

  -- An entry with its values: exactly one, and a new one, for a predicate of one value.
  pub record IsEntry (x : PredicateWrite) : Type 0 where
    pub valued : x.multi ≡ is_multi_valued x.predicate
    pub good : AreGood x.predicate x.objects
    pub single : x.multi ≡ false → (o : Object) × (x.objects ≡ fresh o ∷ [])

  with_resident-AreGood :
      (p q : String) (t : Triple) (object : Object) (later : Result Violation (List ObjectWrite))
      (os : List ObjectWrite)
      → ((ws : List ObjectWrite) → later ≡ ok ws → AreGood q ws)
      → with_resident p t object later ≡ ok os
      → AreGood q os
  unfolding with_resident
  with_resident-AreGood p q t (text s) later os g h =
      let (ws, found, last) =
        >>=-eq-ok later (λ ws. ok (record { object = t.object; resident = some t } ∷ ws)) h in
      subst (AreGood q) (ok-injective last) ((λ e. absurd (cc e)), g ws found)
  with_resident-AreGood p q t object later os g h = absurd (cc h)

  residents-AreGood :
      (p q : String) (ts : List Triple) (os : List ObjectWrite)
      → residents p ts ≡ ok os
      → AreGood q os
  unfolding residents
  residents-AreGood p q [] os = λ h. subst (AreGood q) (ok-injective h) tt
  residents-AreGood p q (t ∷ ts) os = elim (Bool-cases (str_eq t.predicate p)) [
    | inr e ↦ rw (e, residents) (residents-AreGood p q ts os)
    | inl e ↦
        rw (e, residents)
          (with_resident-AreGood p q t t.object (residents p ts) os (residents-AreGood p q ts))
  ]

  opened :
      (target : EntityView) (p : String) (x : PredicateWrite) (b : Bool)
      → (if b
          then (residents p target.state.triples >>= λ ws. ok (entry p ws))
          else ok (entry p []))
        ≡ ok x
      → IsOpen x × (x.predicate ≡ p)
  opened target p x true h =
      let (ws, found, last) =
        >>=-eq-ok (residents p target.state.triples) (λ ws. ok (entry p ws)) h in
      subst (λ x. IsOpen x × (x.predicate ≡ p)) (ok-injective last)
        (record { valued = refl; good = residents-AreGood p p target.state.triples ws found }, refl)
  opened target p x false h =
      subst (λ x. IsOpen x × (x.predicate ≡ p)) (ok-injective h)
        (record { valued = refl; good = tt }, refl)

  new_entry-IsOpen :
      (target : EntityView) (p : String) (x : PredicateWrite)
      → new_entry target p ≡ ok x
      → IsOpen x × (x.predicate ≡ p)
  unfolding new_entry
  new_entry-IsOpen target p x h = opened target p x (is_multi_valued p) h

  find_write-finds :
      (p : String) (xs : List PredicateWrite) (x : PredicateWrite)
      → All IsEntry xs
      → find_write p xs ≡ some x
      → IsOpen x × (x.predicate ≡ p)
  unfolding find_write
  find_write-finds p [] x h = λ e. absurd (cc e)
  find_write-finds p (y ∷ ys) x h = elim (Bool-cases (str_eq y.predicate p)) [
    | inr e ↦ rw (e, find_write) (find_write-finds p ys x h.1)
    | inl e ↦
        rw (e, find_write)
          (λ k.
            let same : y ≡ x = cc k in
            subst (λ x. IsOpen x × (x.predicate ≡ p)) same
              (record { valued = h.0.valued; good = h.0.good }, (eq_iff y.predicate p).0 e))
  ]

  pub entry_for-IsOpen :
      (target : EntityView) (p : String) (xs : List PredicateWrite) (x : PredicateWrite)
      → All IsEntry xs
      → entry_for target p (find_write p xs) ≡ ok x
      → IsOpen x × (x.predicate ≡ p)
  unfolding entry_for
  entry_for-IsOpen target p xs x h = elim (Option-cases (find_write p xs)) [
    | inl e ↦ rw e (new_entry-IsOpen target p x)
    | inr (y, e) ↦ rw e (λ k.
        subst (λ x. IsOpen x × (x.predicate ≡ p)) (ok-injective k) (find_write-finds p xs y h e))
  ]

  module _ (sprint : Object → String) where
    with_object-AreGood :
        (p key : String) (object : Object) (os : List ObjectWrite)
        → Good p object
        → AreGood p os
        → AreGood p (with_object sprint os key object)
    unfolding with_object
    with_object-AreGood p key object os g h = elim (Bool-cases (has_object sprint os key)) [
      | inl e ↦ rw e h
      | inr e ↦ rw e (
          All-append (λ o. o.resident ≡ none → Good p o.object) os (fresh object ∷ []) h
            ((λ _. g), tt))
    ]

    pub fold_entry-IsEntry :
        (e x : PredicateWrite) (object : Object) (t : EffectType)
        → Good e.predicate object
        → IsOpen e
        → fold_entry sprint e object t ≡ ok x
        → IsEntry x × (x.predicate ≡ e.predicate)
    unfolding fold_entry without_object
    fold_entry-IsEntry e x object t g h = elim (Bool-cases e.multi) [
      | inr m ↦ elim (Bool-cases (length e.named == 0)) [
        | inr l ↦ rw (m, l, fold_entry) (λ k. absurd (cc k))
        | inl l ↦
            rw (m, l, fold_entry)
              (λ k.
                subst (λ x. IsEntry x × (x.predicate ≡ e.predicate)) (ok-injective k)
                  (
                    record {
                      valued = sym m ∙ h.valued;
                      good = ((λ _. g), tt);
                      single = λ _. (object, refl);
                    },
                    refl,
                  ))
      ]
      | inl m ↦ elim (Bool-cases (contains e.named (sprint object))) [
        | inl l ↦ rw (m, l, fold_entry) (λ k. absurd (cc k))
        | inr l ↦
            rw (m, l, fold_entry)
              (λ k.
                subst (λ x. IsEntry x × (x.predicate ≡ e.predicate)) (ok-injective k)
                  (
                    record { valued = sym m ∙ h.valued; good = kept; single = λ f. absurd (cc f) },
                    refl,
                  ))
      ]
    ]
      where
        kept : AreGood e.predicate (
            if is_removal t
            then without_object sprint e.objects (sprint object)
            else with_object sprint e.objects (sprint object) object)
        kept = elim (Bool-cases (is_removal t)) [
          | inl r ↦ rw r (
              All-keep (λ o. o.resident ≡ none → Good e.predicate o.object)
                (λ o. not (str_eq (sprint o.object) (sprint object))) e.objects h.good)
          | inr r ↦ rw r (with_object-AreGood e.predicate (sprint object) object e.objects g h.good)
        ]
