-- ===== src/Content/Roundtrip.antt =====
-- internal/content/store.go: an artifact that was stored is read back.
use Prim.Native.String.{◌++◌ as ◌+++◌}
use text.Mathlib.TextLemmas.{cons-append, nil-append}
use mathlib.Core.Path.{subst}
use semmachina.Prelude.{
  String, true, false, none, some, [], ◌∷◌, str_eq, contains, arith, eq_refl, ◌≡◌, refl, ap, inl,
  inr, ok, Bool-cases, Result-cases, Option-cases, ok-injective,
}
use semmachina.Exec.{Post, Post-ok, Post-mono}
use semmachina.Graph.Ids.{IdRules, validate_id_segment}
use semmachina.Content.Ref.{Ref, validate}
use semmachina.Content.Store.{
  Backend, Codec, subject_turn, subject_revelation, has_suffix, artifact_slot, key_for, put_bytes,
  ref_for, put_at, put, check_reference, decoded, get,
}

has_suffix_refl : (s : String) → has_suffix s s ≡ true
unfolding has_suffix
has_suffix_refl String.[] = refl
has_suffix_refl (String.◌∷◌ c s) = rw (eq_refl (String.◌∷◌ c s)) refl

has_suffix-append : (a x s : String) → has_suffix x s ≡ true → has_suffix (a +++ x) s ≡ true
unfolding has_suffix
has_suffix-append String.[] x s h = rw nil-append h
has_suffix-append (String.◌∷◌ c a) x s h =
    rw cons-append (ground (arith, has_suffix-append a x s h))

-- A successful write replaces the object at its key and leaves the other keys alone.
pub record KeepsObjects {W : Type 0} (backend : Backend W) : Type 0 where
  pub get-put : (w w' : W) (k d : String) → backend.put w k d ≡ (w', none) → backend.get w' k ≡ ok d
  pub get-put_other :
      (w w' : W) (k d j : String)
      → backend.put w k d ≡ (w', none)
      → str_eq j k ≡ false
      → backend.get w' j ≡ backend.get w j

-- What was encoded is decoded.
pub record IsFaithful {A : Type 0} (codec : Codec A) : Type 0 where
  pub decode-encode : (a : A) (d : String) → codec.encode a ≡ some d → codec.decode d ≡ some a

module _ {W A : Type 0} (ids : IdRules) (backend : Backend W) (codec : Codec A) (p kind id : String)
    (a : A) where
  -- What the checks before a write establish of its reference.
  record IsRefOf (ref : Ref) : Type 0 where
    sound : codec.valid a ≡ true
    valid : validate ids ref ≡ ok tt
    here : ref.instance_name ≡ backend.instance_name
    slot : String
    slotted : artifact_slot ids p ≡ ok slot
    suffixed : has_suffix ref.key ("/" +++ slot) ≡ true

  key-has_suffix :
      (slot : String)
      → has_suffix (kind +++ ("/" +++ (id +++ ("/" +++ slot)))) ("/" +++ slot) ≡ true
  key-has_suffix slot =
      let suffix = "/" +++ slot in
      has_suffix-append kind ("/" +++ (id +++ suffix)) suffix (
        has_suffix-append "/" (id +++ suffix) suffix
          (has_suffix-append id suffix suffix (has_suffix_refl suffix)))

  ref_for-IsRefOf : (ref : Ref) → ref_for ids backend codec p kind id a ≡ ok ref → IsRefOf ref
  unfolding ref_for key_for
  ref_for-IsRefOf ref k = elim (Bool-cases (codec.valid a)) [
    | inr n ↦ absurd (cc (rw (n, ref_for) at k))
    | inl v ↦ elim (Result-cases (artifact_slot ids p)) [
      | inr (e, s) ↦ absurd (cc (rw (v, s, ref_for, key_for) at k))
      | inl (slot, s) ↦ elim (Bool-cases (contains (subject_turn ∷ subject_revelation ∷ []) kind)) [
        | inr n ↦ absurd (cc (rw (v, s, n, ref_for, key_for) at k))
        | inl m ↦ elim (Result-cases (validate_id_segment ids id)) [
          | inr (e, i) ↦ absurd (cc (rw (v, s, m, i, ref_for, key_for) at k))
          | inl (u, i) ↦
              let made : Ref = record {
                instance_name = backend.instance_name;
                key = kind +++ ("/" +++ (id +++ ("/" +++ slot)));
              } in
              elim (Result-cases (validate ids made)) [
                | inr (e, c) ↦ absurd (cc (rw (v, s, m, i, c, ref_for, key_for) at k))
                | inl (u, c) ↦
                    subst IsRefOf (ok-injective (rw (v, s, m, i, c, ref_for, key_for) at k))
                      (record {
                        sound = v;
                        valid = c;
                        here = refl;
                        slot = slot;
                        slotted = s;
                        suffixed = key-has_suffix slot;
                      })
              ]
        ]
      ]
    ]
  ]

  -- A reference that `put` made passes the checks of `get`.
  check_reference-ref_for :
      (ref : Ref) → IsRefOf ref → check_reference ids backend codec p ref ≡ ok tt
  unfolding check_reference
  check_reference-ref_for ref r =
      rw (r.valid, r.here, eq_refl backend.instance_name, r.slotted, r.suffixed) refl

  put_bytes-Post :
      KeepsObjects backend
      → IsFaithful codec
      → (ref : Ref) (w : W) → codec.valid a ≡ true
      → Post
          (put_bytes ids backend codec ref (codec.encode a) w)
          (λ w' r. (r ≡ ref) × (decoded ids backend codec ref (backend.get w' ref.key) ≡ ok a))
  unfolding put_bytes decoded
  put_bytes-Post keeps faithful ref w sound = elim (Option-cases (codec.encode a)) [
    | inl n ↦ rw n tt
    | inr (d, e) ↦ rw e (elim (Option-cases (backend.put w ref.key d).1) [
      | inr (f, k) ↦ rw k tt
      | inl k ↦
          let v = (backend.put w ref.key d).0 in
          rw k (
            refl,
            rw
                (
                  keeps.get-put w v ref.key d (ap (λ e. (v, e)) k),
                  faithful.decode-encode a d e,
                  sound,
                  decoded,
                )
                refl,
          )
    ])
  ]

  put_at-Post :
      KeepsObjects backend
      → IsFaithful codec
      → (w : W)
      → Post (put ids backend codec p kind id a w) (λ w' ref. get ids backend codec p ref w' ≡ ok a)
  unfolding put put_at get
  put_at-Post keeps faithful w = elim (Result-cases (ref_for ids backend codec p kind id a)) [
    | inr (e, h) ↦ rw h tt
    | inl (ref, h) ↦
        let of = ref_for-IsRefOf ref h in
        rw h (
          Post-mono
            (λ w' r. (r ≡ ref) × (decoded ids backend codec ref (backend.get w' ref.key) ≡ ok a))
            (λ w' r. get ids backend codec p r w' ≡ ok a) _
            (put_bytes-Post keeps faithful ref w of.sound)
            (λ w' r (same, read). rw (same, get) (rw (check_reference-ref_for ref of) read)))
  ]

  -- Over a backend that keeps its objects and with a faithful codec, an artifact that was stored is read
  -- back under the reference that `put` returned.
  pub get-put :
      (w w' : W) (ref : Ref)
      → KeepsObjects backend
      → IsFaithful codec
      → put ids backend codec p kind id a w ≡ (w', ok ref)
      → get ids backend codec p ref w' ≡ ok a
  get-put w w' ref keeps faithful h =
      Post-ok (λ w' ref. get ids backend codec p ref w' ≡ ok a) _ (put_at-Post keeps faithful w) h
