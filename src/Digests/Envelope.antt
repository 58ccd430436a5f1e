-- ===== src/Digests/Envelope.antt =====
-- src/digests/mod.rs: the values that an envelope may hold, and `pointer_push` of
-- src/validation/parse.rs. `Codec` is what other crates do: the canonical bytes of a value (RFC 8785)
-- and SHA-256.
use checkspan.Common.{
  ℕ, zero, suc, ◌+◌, ◌/◌, ◌%◌, Bool, false, Option, none, some, List, [], ◌∷◌, ◌++◌, Text, text,
  ◌==◌, nat_eq, leb, if◌then◌else◌, Result, ok, err, ◌>>=◌, ◌>>◌, map_err,
}
use checkspan.Contracts.Ids.{Digest}

abbrev pub algorithm : Text
algorithm = text "sha256"

abbrev pub envelope_algorithm : Text
envelope_algorithm = text "jcs-sha256@1"

-- `1 << 53`
abbrev pub max_safe_integer : ℕ
max_safe_integer = 9007199254740992

-- `serde_json::Number`: a `u64`, an `i64` below 0 by its magnitude, or a float by its text.
pub data Number : Type 0 where
  positive : ℕ → Number
  negative : ℕ → Number
  float : Text → Number

-- `serde_json::Value`
mutual
  pub data Json : Type 0 where
    null : Json
    bool : Bool → Json
    number : Number → Json
    string : Text → Json
    array : JsonItems → Json
    object : JsonFields → Json

  pub data JsonItems : Type 0 where
    nil : JsonItems
    cons : Json → JsonItems → JsonItems

  pub data JsonFields : Type 0 where
    end : JsonFields
    field : Text → Json → JsonFields → JsonFields

-- `ParseError` of the strict parser is kept by its kind and path.
pub data ParseErrorKind : Type 0 where
  syntax depth duplicate_key : ParseErrorKind

pub record ParseError : Type 0 where
  pub kind : ParseErrorKind
  pub path : Text

pub data CanonicalError : Type 0 where
  unsupported_number : Text → Number → CanonicalError
  parse : ParseError → CanonicalError
  serialize : Text → CanonicalError

-- `i.to_string()`, from the last digit on; a number has no more digits than `fuel`.
digits : ℕ → ℕ → Text → Text
digits zero n rest = rest
digits (suc fuel) n rest =
    let more = digits fuel (n / 10) ((b'0' + n % 10) ∷ rest) in
    if leb n 9 then (b'0' + n) ∷ rest else more

unfoldable pub decimal : ℕ → Text
unfolding digits
decimal n = digits (suc n) n []

-- `replace('~', "~0").replace('/', "~1")`
unfoldable pub escape : Text → Text
escape [] = []
escape (c ∷ rest) =
    (if c == b'~' then text "~0" else if c == b'/' then text "~1" else c ∷ []) ++ escape rest

unfoldable pub pointer_push : Text → Text → Text
unfolding escape
pointer_push base segment = base ++ (b'/' ∷ escape segment)

-- `as_i64().map(unsigned_abs)`, and `as_u64`
unfoldable pub as_i64 : Number → Option ℕ
as_i64 (positive n) = if leb n 9223372036854775807 then some n else none
as_i64 (negative m) = some m
as_i64 (float t) = none

unfoldable pub as_u64 : Number → Option ℕ
as_u64 (positive n) = some n
as_u64 (negative m) = none
as_u64 (float t) = none

unfoldable pub is_safe : Number → Bool
unfolding as_i64 as_u64
is_safe n = elim (as_i64 n) [
  | some i ↦ leb i max_safe_integer
  | none ↦ elim (as_u64 n) [ some u ↦ leb u max_safe_integer | none ↦ false ]
]

-- `walk` of `check_envelope_numbers`; the items of an array carry their index.
unfoldable mutual
  unfolding is_safe pointer_push decimal

  pub walk : Json → Text → Result (Unit {0}) CanonicalError
  walk (number n) path = if is_safe n then ok tt else err (unsupported_number path n)
  walk (array items) path = walk_items items 0 path
  walk (object fields) path = walk_fields fields path
  walk null path = ok tt
  walk (bool b) path = ok tt
  walk (string s) path = ok tt

  pub walk_items : JsonItems → ℕ → Text → Result (Unit {0}) CanonicalError
  walk_items nil i path = ok tt
  walk_items (cons item items) i path =
      walk item (pointer_push path (decimal i)) >> walk_items items (suc i) path

  pub walk_fields : JsonFields → Text → Result (Unit {0}) CanonicalError
  walk_fields end path = ok tt
  walk_fields (field k v fields) path = walk v (pointer_push path k) >> walk_fields fields path

unfoldable pub check_envelope_numbers : Json → Result (Unit {0}) CanonicalError
unfolding walk
check_envelope_numbers value = walk value []

pub record Codec : Type 0 where
  pub canonical : Json → Result (List ℕ) Text
  pub sha256 : List ℕ → Digest

module _ (codec : Codec) where
  unfoldable pub artifact_digest : List ℕ → Digest
  artifact_digest bytes = codec.sha256 bytes

  unfoldable pub jcs_bytes : Json → Result (List ℕ) CanonicalError
  jcs_bytes value = map_err serialize (codec.canonical value)

  unfoldable pub envelope_bytes : Json → Result (List ℕ) CanonicalError
  unfolding check_envelope_numbers jcs_bytes
  envelope_bytes value = check_envelope_numbers value >> jcs_bytes value

  unfoldable pub envelope_digest : Json → Result Digest CanonicalError
  unfolding envelope_bytes artifact_digest
  envelope_digest value = envelope_bytes value >>= λ bytes. ok (artifact_digest bytes)

  -- `digest_of`, on the value that the body is written as.
  abbrev pub envelope : Text → Json → Json
  envelope kind body = object (
      field (text "algorithm") (string envelope_algorithm)
        (field (text "kind") (string kind) (field (text "body") body end)))

  unfoldable pub digest_of : Text → Json → Result Digest CanonicalError
  unfolding envelope_digest
  digest_of kind body = envelope_digest (envelope kind body)
