-- ===== src/Contracts/Ids.antt =====
-- src/contracts/ids.rs: identifiers, positive numbers and digests. A validated newtype over a string
-- or number is the string's bytes or the number; its constructor is the check below.
pub mod Hashed
use checkspan.Common.{
  ℕ, ◌+◌, ◌-◌, ◌/◌, ◌%◌, List, ◌++◌, Bool, not, ◌&&◌, ◌||◌, none, some, [], ◌∷◌, Text, text,
  is_digit, is_lower, strip_prefix, ltb, leb, length, all, find, ◌==◌, nat_eq, if◌then◌else◌,
  Result, ok, err,
}
use mathlib.Core.Option.{get_or}

abbrev pub max_identifier_len : ℕ
max_identifier_len = 128

-- The text of `InvalidValue.reason`, one constructor for each message.
pub data Reason : Type 0 where
  empty too_long bad_start : Reason
  bad_char : ℕ → Reason
  below_one not_a_digest not_a_date_time not_a_commit_id : Reason

pub record InvalidValue : Type 0 where
  pub kind : Text
  pub reason : Reason

abbrev pub starts_well : ℕ → Bool
starts_well c = is_lower c || is_digit c

abbrev pub is_allowed : ℕ → Bool
is_allowed c = is_lower c || is_digit c || (c == b'_') || (c == b'.') || (c == b'-')

unfoldable pub check_identifier : Text → Text → Result (Unit {0}) InvalidValue
unfolding find
check_identifier kind [] = err (record { kind = kind; reason = Reason.empty })
check_identifier kind (first ∷ rest) =
    if ltb max_identifier_len (length (first ∷ rest))
    then err (record { kind = kind; reason = Reason.too_long })
    else if not (starts_well first)
    then err (record { kind = kind; reason = Reason.bad_start })
    else elim (find (λ c. not (is_allowed c)) (first ∷ rest)) [
      | some bad ↦ err (record { kind = kind; reason = Reason.bad_char bad })
      | none ↦ ok tt
    ]

abbrev pub Ident : Type 0
Ident = Text

abbrev pub GraphId : Type 0
GraphId = Text

abbrev pub NodeId : Type 0
NodeId = Text

abbrev pub RunId : Type 0
RunId = Text

abbrev pub Digest : Type 0
Digest = Text

-- `new` of the `identifier!` types.
unfoldable pub new_identifier : Text → Text → Result Text InvalidValue
unfolding check_identifier
new_identifier kind value = elim (check_identifier kind value) [ ok _ ↦ ok value | err e ↦ err e ]

-- `new` of the `positive_u32!` types: Revision, Version and AttemptNumber.
unfoldable pub new_positive : Text → ℕ → Result ℕ InvalidValue
new_positive kind value =
    if value == 0 then err (record { kind = kind; reason = Reason.below_one }) else ok value

abbrev pub is_hex : ℕ → Bool
is_hex b = is_digit b || (leb b'a' b && leb b b'f')

unfoldable pub new_digest : Text → Result Digest InvalidValue
unfolding all strip_prefix
new_digest value =
    let hex = get_or (strip_prefix (text "sha256:") value) [] in
    if (length hex == 64) && all is_hex hex
    then ok value
    else err (record { kind = text "digest"; reason = Reason.not_a_digest })

-- `format!("{byte:02x}")`
hex_digit : ℕ → ℕ
hex_digit n = if ltb n 10 then n + b'0' else n - 10 + b'a'

pub hex_bytes : List ℕ → Text
unfolding hex_digit
hex_bytes [] = []
hex_bytes (byte ∷ rest) = hex_digit (byte / 16) ∷ hex_digit (byte % 16) ∷ hex_bytes rest

-- The 32 bytes of the hash are numbers below 256.
unfoldable pub from_sha256 : List ℕ → Digest
unfolding hex_bytes
from_sha256 hash = text "sha256:" ++ hex_bytes hash
