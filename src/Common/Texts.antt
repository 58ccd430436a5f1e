-- ===== src/Common/Texts.antt =====
-- Texts as the bytes of their UTF-8 form, which is what `str::len` and byte comparison see.
use Prim.Native.Nat.{ℕ}
use Prim.Native.Char.{code}
use Prim.Native.String.{String}
use mathlib.Core.Bool.{Bool, true, false, ◌&&◌, ◌||◌}
use mathlib.Core.Option.{Option, none, some}
use mathlib.Core.List.{List, [], ◌∷◌}
use checkspan.Common.Tests.{leb, if◌then◌else◌}
use checkspan.Common.Equality.{◌==◌, nat_eq}

abbrev pub Text : Type 0
Text = List ℕ

-- The bytes of an ASCII literal.
abbrev pub text : String → Text
text String.[] = []
text (String.◌∷◌ c s) = code c ∷ text s

abbrev pub is_digit : ℕ → Bool
is_digit c = leb b'0' c && leb c b'9'

abbrev pub is_lower : ℕ → Bool
is_lower c = leb b'a' c && leb c b'z'

-- `str::strip_prefix`
unfoldable pub strip_prefix : Text → Text → Option Text
strip_prefix [] s = some s
strip_prefix (p ∷ ps) [] = none
strip_prefix (p ∷ ps) (c ∷ s) = if p == c then strip_prefix ps s else none

-- The White_Space characters of one, two and three bytes.
abbrev white_one : ℕ → Bool
white_one a = (leb 9 a && leb a 13) || (a == 32)

abbrev white_two : ℕ → ℕ → Bool
white_two a b = (a == 0xc2) && ((b == 0x85) || (b == 0xa0))

abbrev white_three : ℕ → ℕ → ℕ → Bool
white_three a b c =
    ((a == 0xe1) && (b == 0x9a) && (c == 0x80))
    || ((a == 0xe2) && (b == 0x80) && (leb 0x80 c && leb c 0x8a))
    || ((a == 0xe2) && (b == 0x80) && ((c == 0xa8) || (c == 0xa9) || (c == 0xaf)))
    || ((a == 0xe2) && (b == 0x81) && (c == 0x9f))
    || ((a == 0xe3) && (b == 0x80) && (c == 0x80))

-- `text.trim().is_empty()`
unfoldable pub is_blank : Text → Bool
is_blank [] = true
is_blank (a ∷ []) = white_one a
is_blank (a ∷ b ∷ []) = elim (white_one a) [ true ↦ white_one b | false ↦ white_two a b ]
is_blank (a ∷ b ∷ c ∷ s) = elim (white_one a) [
  | true ↦ is_blank (b ∷ c ∷ s)
  | false ↦ elim (white_two a b) [
    | true ↦ is_blank (c ∷ s)
    | false ↦ elim (white_three a b c) [ true ↦ is_blank s | false ↦ false ]
  ]
]
