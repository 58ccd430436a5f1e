-- ===== src/Contracts/Ids/Hashed.antt =====
-- src/contracts/ids.rs: the digest of a SHA-256 hash, in the form that `Digest::new` accepts.
use checkspan.Common.{ℕ, ◌*◌, ◌/◌, ◌%◌, ◌<◌, List, [], ◌∷◌, length, All, ok, ◌≡◌, refl, arith}
use checkspan.Contracts.Ids.{hex_digit, hex_bytes, from_sha256, new_digest}
use checkspan.Contracts.Valid.{IsHex, IsDigest-new_digest}

hex_digit-IsHex : (n : ℕ) → n < 16 → IsHex (hex_digit n)
unfolding hex_digit
hex_digit-IsHex n h = ground arith

hex_digit_injective : (m n : ℕ) → m < 16 → n < 16 → hex_digit m ≡ hex_digit n → m ≡ n
unfolding hex_digit
hex_digit_injective m n hm hn e = ground arith

abbrev pub IsByte : ℕ → Type 0
IsByte b = b < 256

hex_bytes-IsHex : (bytes : List ℕ) → All IsByte bytes → All IsHex (hex_bytes bytes)
unfolding hex_bytes
hex_bytes-IsHex [] h = tt
hex_bytes-IsHex (b ∷ bytes) (h, hs) = (
  hex_digit-IsHex (b / 16) (omega arith),
  (hex_digit-IsHex (b % 16) (omega arith), hex_bytes-IsHex bytes hs),
)

length-hex_bytes : (bytes : List ℕ) → length (hex_bytes bytes) ≡ 2 * length bytes
unfolding hex_bytes
length-hex_bytes [] = refl
length-hex_bytes (b ∷ bytes) = omega (arith, length-hex_bytes bytes)

hex_bytes_injective :
    (bytes others : List ℕ)
    → All IsByte bytes
    → All IsByte others
    → hex_bytes bytes ≡ hex_bytes others
    → bytes ≡ others
unfolding hex_bytes
hex_bytes_injective [] [] h h' e = refl
hex_bytes_injective [] (c ∷ others) h h' e = cc
hex_bytes_injective (b ∷ bytes) [] h h' e = cc
hex_bytes_injective (b ∷ bytes) (c ∷ others) (h, hs) (h', hs') e =
    let high = hex_digit_injective (b / 16) (c / 16) (omega arith) (omega arith) (cc e) in
    let low = hex_digit_injective (b % 16) (c % 16) (omega arith) (omega arith) (cc e) in
    let same : b ≡ c = omega (arith, high, low) in
    let rest = hex_bytes_injective bytes others hs hs' (cc e) in cc (same, rest)

-- A hash of 32 bytes has a digest that `Digest::new` accepts, and no two hashes have the same.
pub from_sha256_exact :
    (hash other : List ℕ)
    → length hash ≡ 32
    → All IsByte hash
    → All IsByte other
    → (new_digest (from_sha256 hash) ≡ ok (from_sha256 hash))
      × (from_sha256 hash ≡ from_sha256 other → hash ≡ other)
unfolding from_sha256
from_sha256_exact hash other l h h' = (
  IsDigest-new_digest (from_sha256 hash)
      (hex_bytes hash, refl, omega (arith, length-hex_bytes hash), hex_bytes-IsHex hash h),
  λ e. hex_bytes_injective hash other h h' (cc e),
)
