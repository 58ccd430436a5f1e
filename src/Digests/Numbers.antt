-- ===== src/Digests/Numbers.antt =====
-- src/digests/mod.rs: an envelope is digested only when its numbers are integers within 2^53.
use checkspan.Common.{List, [], ℕ, ◌≤◌, ◌^◌, suc, Text, ◌≡◌, ◌↔◌, ok, arith, refl, >>=_ok, true}
use checkspan.Digests.Envelope.{
  Number, Json, JsonItems, JsonFields, null, bool, number, string, array, object, nil, cons, end,
  field, positive, negative, float, is_safe, as_i64, as_u64, walk, walk_items, walk_fields,
  check_envelope_numbers, Codec, envelope_digest, envelope_bytes, jcs_bytes, digest_of,
  artifact_digest, envelope, pointer_push, decimal,
}

-- An integer from -2^53 to 2^53.
abbrev pub IsExact : Number → Type 0
IsExact (positive n) = n ≤ 2 ^ 53
IsExact (negative m) = m ≤ 2 ^ 53
IsExact (float t) = ⊥

abbrev mutual
  pub AllExact : Json → Type 0
  AllExact (number n) = IsExact n
  AllExact (array items) = ItemsExact items
  AllExact (object fields) = FieldsExact fields
  AllExact null = Unit {0}
  AllExact (bool b) = Unit {0}
  AllExact (string s) = Unit {0}

  pub ItemsExact : JsonItems → Type 0
  ItemsExact nil = Unit {0}
  ItemsExact (cons item items) = AllExact item × ItemsExact items

  pub FieldsExact : JsonFields → Type 0
  FieldsExact end = Unit {0}
  FieldsExact (field k v fields) = AllExact v × FieldsExact fields

is_safe-IsExact : (n : Number) → is_safe n ≡ true → IsExact n
unfolding is_safe as_i64 as_u64
is_safe-IsExact (positive n) h = ground arith
is_safe-IsExact (negative m) h = ground arith
is_safe-IsExact (float t) h = cc

IsExact-is_safe : (n : Number) → IsExact n → is_safe n ≡ true
unfolding is_safe as_i64 as_u64
IsExact-is_safe (positive n) h = ground arith
IsExact-is_safe (negative m) h = ground arith
IsExact-is_safe (float t) h = elim h [ ]

mutual
  unfolding walk

  walk-AllExact : (v : Json) (path : Text) → walk v path ≡ ok tt → AllExact v
  walk-AllExact (number n) path h = is_safe-IsExact n (ground (arith, h))
  walk-AllExact (array items) path h = walk_items-ItemsExact items 0 path h
  walk-AllExact (object fields) path h = walk_fields-FieldsExact fields path h
  walk-AllExact null path h = tt
  walk-AllExact (bool b) path h = tt
  walk-AllExact (string s) path h = tt

  walk_items-ItemsExact :
      (items : JsonItems) (i : ℕ) (path : Text) → walk_items items i path ≡ ok tt → ItemsExact items
  walk_items-ItemsExact nil i path h = tt
  walk_items-ItemsExact (cons item items) i path h =
      let (u, first, rest) = >>=_ok (walk item (pointer_push path (decimal i))) _ h in
      (
        walk-AllExact item (pointer_push path (decimal i)) first,
        walk_items-ItemsExact items (suc i) path rest,
      )

  walk_fields-FieldsExact :
      (fields : JsonFields) (path : Text) → walk_fields fields path ≡ ok tt → FieldsExact fields
  walk_fields-FieldsExact end path h = tt
  walk_fields-FieldsExact (field k v fields) path h =
      let (u, first, rest) = >>=_ok (walk v (pointer_push path k)) _ h in
      (walk-AllExact v (pointer_push path k) first, walk_fields-FieldsExact fields path rest)

mutual
  unfolding walk

  AllExact-walk : (v : Json) (path : Text) → AllExact v → walk v path ≡ ok tt
  AllExact-walk (number n) path h = rw (IsExact-is_safe n h) refl
  AllExact-walk (array items) path h = ItemsExact-walk_items items 0 path h
  AllExact-walk (object fields) path h = FieldsExact-walk_fields fields path h
  AllExact-walk null path h = refl
  AllExact-walk (bool b) path h = refl
  AllExact-walk (string s) path h = refl

  ItemsExact-walk_items :
      (items : JsonItems) (i : ℕ) (path : Text) → ItemsExact items → walk_items items i path ≡ ok tt
  ItemsExact-walk_items nil i path h = refl
  ItemsExact-walk_items (cons item items) i path h =
      rw (AllExact-walk item (pointer_push path (decimal i)) h.0)
        (ItemsExact-walk_items items (suc i) path h.1)

  FieldsExact-walk_fields :
      (fields : JsonFields) (path : Text) → FieldsExact fields → walk_fields fields path ≡ ok tt
  FieldsExact-walk_fields end path h = refl
  FieldsExact-walk_fields (field k v fields) path h =
      rw (AllExact-walk v (pointer_push path k) h.0) (FieldsExact-walk_fields fields path h.1)

-- Where the canonical form of an envelope is some bytes, its digest is the hash of these bytes
-- exactly when every number in its body is an integer from -2^53 to 2^53.
pub digest_of_bounds :
    (codec : Codec) (kind : Text) (body : Json) (bytes : List ℕ)
    → codec.canonical (envelope codec kind body) ≡ ok bytes
    → (digest_of codec kind body ≡ ok (codec.sha256 bytes)) ↔ AllExact body
unfolding digest_of envelope_digest envelope_bytes jcs_bytes artifact_digest check_envelope_numbers
digest_of_bounds codec kind body bytes h =
    let whole = envelope codec kind body in
    (
      λ made.
          let (read, checked, hashed) = >>=_ok (envelope_bytes codec whole) _ made in
          let (u, numbers, canonical) = >>=_ok (check_envelope_numbers whole) _ checked in
          (walk-AllExact whole [] numbers).1.1.0,
      λ exact.
          let numbers : check_envelope_numbers whole ≡ ok tt =
            AllExact-walk whole [] (tt, (tt, (exact, tt))) in
          rw (numbers, h) refl,
    )
