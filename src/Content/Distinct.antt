-- ===== src/Content/Distinct.antt =====
-- internal/content/ref.go `KeyFor` and the writes of internal/content/store.go: which artifacts share a
-- reference.
use Prim.Native.String.{◌++◌ as ◌+++◌}
use mathlib.Core.Path.{subst}
use semmachina.Prelude.{
  String, Bool, true, false, Option, none, some, [], ◌∷◌, ◌≡◌, refl, sym, ap, ◌∙◌, inl, inr, ok,
  guard, wrap, contains, str_eq-cases, Result-cases, Option-cases, >>=-eq-ok, then-ok, wrap-eq-ok,
  arith, ok-injective,
}
use semmachina.Exec.{Post, Post-ok}
use semmachina.Graph.Ids.{IdRules, validate_id_segment}
use semmachina.Payload.Text.{cut_at, contains_char, cut_at-append}
use semmachina.Content.Ref.{Ref, validate, slash-append}
use semmachina.Content.Store.{
  Backend, Codec, artifact_invalid, reference_rejected, subject_turn, subject_revelation,
  artifact_slot, key_for, put_bytes, ref_for, put_at, put,
}

-- What comes before the first separator and what comes behind it.
first_cut :
    (a s : String) → contains_char b'/' a ≡ false → cut_at b'/' (a +++ ("/" +++ s)) ≡ some (a, s)
first_cut a s h = rw (slash-append s) (cut_at-append "/" a s h)

same_cut :
    (a b s t : String)
    → contains_char b'/' a ≡ false
    → contains_char b'/' b ≡ false
    → (a +++ ("/" +++ s)) ≡ (b +++ ("/" +++ t))
    → (a ≡ b) × (s ≡ t)
same_cut a b s t h k e =
    let same : ◌≡◌ {A = Option (String × String)} (some (a, s)) (some (b, t)) =
      sym (first_cut a s h) ∙ ap (cut_at b'/') e ∙ first_cut b t k in
    (
      ap (λ o. elim o [ none ↦ "" | some x ↦ x.0 ]) same,
      ap (λ o. elim o [ none ↦ "" | some x ↦ x.1 ]) same,
    )

subject-unsplit :
    (kind : String)
    → contains (subject_turn ∷ subject_revelation ∷ []) kind ≡ true
    → contains_char b'/' kind ≡ false
unfolding contains_char
subject-unsplit kind h = elim (str_eq-cases subject_turn kind) [
  | inl e ↦ subst (λ x. contains_char b'/' x ≡ false) e refl
  | inr n ↦ elim (str_eq-cases subject_revelation kind) [
    | inl e ↦ subst (λ x. contains_char b'/' x ≡ false) e refl
    | inr m ↦ absurd (cc (rw (n, m, contains) at h))
  ]
]

guard-ok : {F : Type 0} (b : Bool) (f : F) → guard b f ≡ ok tt → b ≡ true
guard-ok true f h = refl
guard-ok false f h = absurd (cc h)

-- A segment of an id is letters, digits, dashes and underscores, as internal/gateway/actionid.go says: it
-- has no separator.
abbrev pub HasPlainSegments : IdRules → Type 0
HasPlainSegments ids =
    (s : String) → ids.valid_entity_id_prefix s ≡ true → contains_char b'/' s ≡ false

segment-unsplit :
    (ids : IdRules) (s : String)
    → HasPlainSegments ids
    → validate_id_segment ids s ≡ ok tt
    → contains_char b'/' s ≡ false
unfolding validate_id_segment
segment-unsplit ids s plain h = plain s (ground arith)

-- The parts of a key.
record IsKeyOf (ids : IdRules) (p kind id key : String) : Type 0 where
  slot : String
  slotted : artifact_slot ids p ≡ ok slot
  known : contains (subject_turn ∷ subject_revelation ∷ []) kind ≡ true
  named : validate_id_segment ids id ≡ ok tt
  joined : key ≡ (kind +++ ("/" +++ (id +++ ("/" +++ slot))))

key_for-IsKeyOf :
    (ids : IdRules) (p kind id key : String)
    → key_for ids p kind id ≡ ok key
    → IsKeyOf ids p kind id key
unfolding key_for
key_for-IsKeyOf ids p kind id key h =
    let (slot, slotted, rest) = >>=-eq-ok (artifact_slot ids p) _ h in
    let (u, known, later) = >>=-eq-ok (guard _ _) _ rest in
    let (v, named, last) = >>=-eq-ok (wrap _ (validate_id_segment ids id)) _ later in
    record {
      slot = slot;
      slotted = slotted;
      known = guard-ok _ _ known;
      named = wrap-eq-ok _ (validate_id_segment ids id) named;
      joined = sym (ok-injective last);
    }

same_key :
    (ids : IdRules) (p kind id p' kind' id' key : String)
    → HasPlainSegments ids
    → IsKeyOf ids p kind id key
    → IsKeyOf ids p' kind' id' key
    → (kind ≡ kind') × (id ≡ id') × (artifact_slot ids p ≡ artifact_slot ids p')
same_key ids p kind id p' kind' id' key plain k l =
    let (subjects, rest) =
      same_cut kind kind' _ _ (subject-unsplit kind k.known) (subject-unsplit kind' l.known)
        (sym k.joined ∙ l.joined) in
    let (names, slots) =
      same_cut id id' _ _ (segment-unsplit ids id plain k.named)
        (segment-unsplit ids id' plain l.named) rest in
    (subjects, names, k.slotted ∙ ap ok slots ∙ sym l.slotted)

module _ {W A : Type 0} (ids : IdRules) (backend : Backend W) (codec : Codec A) (p kind id : String)
    (a : A) where
  put-ref_for :
      (w : W)
      → Post
          (put ids backend codec p kind id a w)
          (λ w' ref. ref_for ids backend codec p kind id a ≡ ok ref)
  unfolding put put_at put_bytes
  put-ref_for w = elim (Result-cases (ref_for ids backend codec p kind id a)) [
    | inr (e, h) ↦ rw h tt
    | inl (ref, h) ↦ elim (Option-cases (codec.encode a)) [
      | inl n ↦ rw (h, n, put_at, put_bytes) tt
      | inr (d, e) ↦ elim (Option-cases (backend.put w ref.key d).1) [
        | inr (f, k) ↦ rw (h, e, k, put_at, put_bytes) tt
        | inl k ↦ rw (h, e, k, put_at, put_bytes) refl
      ]
    ]
  ]

  ref_for-IsKeyOf :
      (ref : Ref) → ref_for ids backend codec p kind id a ≡ ok ref → IsKeyOf ids p kind id ref.key
  unfolding ref_for
  ref_for-IsKeyOf ref h =
      let rest = then-ok (guard (codec.valid a) artifact_invalid) _ h in
      let (key, made, later) = >>=-eq-ok (key_for ids p kind id) _ rest in
      let named : Ref = record { instance_name = backend.instance_name; key = key } in
      let last : ok named ≡ ok ref =
        then-ok (wrap reference_rejected (validate ids named)) (ok named) later in
      subst (λ k. IsKeyOf ids p kind id k) (ap (λ r. r.key) (ok-injective last))
        (key_for-IsKeyOf ids p kind id key made)

  put-IsKeyOf :
      (w w' : W) (ref : Ref)
      → put ids backend codec p kind id a w ≡ (w', ok ref)
      → IsKeyOf ids p kind id ref.key
  put-IsKeyOf w w' ref h =
      ref_for-IsKeyOf ref
        (Post-ok (λ w' r. ref_for ids backend codec p kind id a ≡ ok r) _ (put-ref_for w) h)

module _ {W A B : Type 0} (ids : IdRules) (backend : Backend W) (codec : Codec A)
    (codec' : Codec B) where
  -- With plain segments, two artifacts of whatever types that were stored under the same reference are of
  -- the same kind of subject, of the same subject, and in the same slot: no artifact takes another's place.
  pub put-distinct :
      (p kind id p' kind' id' : String) (a : A) (b : B) (w w' v v' : W) (ref : Ref)
      → HasPlainSegments ids
      → put ids backend codec p kind id a w ≡ (w', ok ref)
      → put ids backend codec' p' kind' id' b v ≡ (v', ok ref)
      → (kind ≡ kind') × (id ≡ id') × (artifact_slot ids p ≡ artifact_slot ids p')
  put-distinct p kind id p' kind' id' a b w w' v v' ref plain h k =
      same_key ids p kind id p' kind' id' ref.key plain
        (put-IsKeyOf ids backend codec p kind id a w w' ref h)
        (put-IsKeyOf ids backend codec' p' kind' id' b v v' ref k)
