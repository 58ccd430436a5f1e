-- ===== src/Contracts/Valid.antt =====
-- src/contracts/ids.rs and src/contracts/patch.rs: the texts and numbers that the constructors of the
-- validated types let through.
use checkspan.Common.{
  ℕ, ◌≤◌, ◌<◌, true, not, none, some, [], ◌∷◌, ◌++◌, ◌≡◌, ◌↔◌, ◌⊎◌, inl, inr, refl, ap, sym, ◌∙◌,
  arith, Text, text, strip_prefix, length, all, find, All, ◌==◌, ==→≡, ≡→==, ==_self, nat_eq, ok,
  ◌&&◌, if◌then◌else◌, err, Bool-cases, Option-cases,
}
use checkspan.Contracts.Ids.{
  Reason, is_allowed, starts_well, is_hex, check_identifier, new_identifier, new_positive,
  new_digest,
}
use checkspan.Contracts.Patch.{new_commit_id}

-- The bytes of `0` to `9`, `a` to `z` and `a` to `f`.
abbrev pub IsDigit : ℕ → Type 0
IsDigit c = (48 ≤ c) × (c ≤ 57)

abbrev pub IsLower : ℕ → Type 0
IsLower c = (97 ≤ c) × (c ≤ 122)

abbrev pub IsHex : ℕ → Type 0
IsHex c = IsDigit c ⊎ ((97 ≤ c) × (c ≤ 102))

-- A lower-case letter, a digit, an underscore, a dot or a dash.
abbrev pub IsAllowed : ℕ → Type 0
IsAllowed c = IsLower c ⊎ (IsDigit c ⊎ ((c ≡ 95) ⊎ ((c ≡ 46) ⊎ (c ≡ 45))))

-- From 1 to 128 of these, of which the first is a letter or a digit.
pub record IsIdentifier (t : Text) : Type 0 where
  pub first : ℕ
  pub rest : Text
  pub is : t ≡ first ∷ rest
  pub starts : IsLower first ⊎ IsDigit first
  pub short : length t ≤ 128
  pub allowed : All IsAllowed t

abbrev pub IsDigest : Text → Type 0
IsDigest t = (hex : Text) × (t ≡ text "sha256:" ++ hex) × (length hex ≡ 64) × All IsHex hex

abbrev pub IsCommit : Text → Type 0
IsCommit t = ((length t ≡ 40) ⊎ (length t ≡ 64)) × All IsHex t

is_allowed-IsAllowed : (c : ℕ) → (is_allowed c ≡ true) ↔ IsAllowed c
is_allowed-IsAllowed c = ground arith

starts_well_lem : (c : ℕ) → (starts_well c ≡ true) ↔ (IsLower c ⊎ IsDigit c)
starts_well_lem c = ground arith

is_hex-IsHex : (c : ℕ) → (is_hex c ≡ true) ↔ IsHex c
is_hex-IsHex c = ground arith

all-IsHex : (t : Text) → (all is_hex t ≡ true) ↔ All IsHex t
unfolding all
all-IsHex [] = (λ _. tt, λ _. refl)
all-IsHex (c ∷ t) = (
  λ h. ((is_hex-IsHex c).0 (ground (arith, h)), (all-IsHex t).0 (ground (arith, h))),
  λ (p, ps). ground (arith, (is_hex-IsHex c).1 p, (all-IsHex t).1 ps),
)

find-IsAllowed : (t : Text) → (find (λ c. not (is_allowed c)) t ≡ none) ↔ All IsAllowed t
unfolding find
find-IsAllowed [] = (λ _. tt, λ _. refl)
find-IsAllowed (c ∷ t) = elim (Bool-cases (is_allowed c)) [
  | inl e ↦ (
    λ h. ((is_allowed-IsAllowed c).0 e, (find-IsAllowed t).0 (rw (find, e) at h)),
    λ (p, ps). rw (find, e) ((find-IsAllowed t).1 ps),
  )
  | inr e ↦
      (λ h. cc (rw (find, e) at h), λ (p, ps). ground (arith, e, (is_allowed-IsAllowed c).1 p))
]

new_positive_exact : (kind : Text) (n v : ℕ) → (new_positive kind n ≡ ok v) ↔ ((v ≡ n) × (0 < n))
unfolding new_positive
new_positive_exact kind n v = ground arith

pub new_identifier-IsIdentifier :
    (kind value v : Text) → new_identifier kind value ≡ ok v → (v ≡ value) × IsIdentifier value
unfolding new_identifier check_identifier
new_identifier-IsIdentifier kind [] v h = cc
new_identifier-IsIdentifier kind (first ∷ rest) v h =
    elim (Option-cases (find (λ c. not (is_allowed c)) (first ∷ rest))) [
      | inr (bad, e) ↦ ground (arith, h, e)
      | inl e ↦
          let starts : starts_well first ≡ true = ground (arith, h, e) in
          let short : length (first ∷ rest) ≤ 128 = ground (arith, h, e) in
          (
            ground (arith, h, e),
            record {
              first = first;
              rest = rest;
              is = refl;
              starts = (starts_well_lem first).0 starts;
              short = short;
              allowed = (find-IsAllowed (first ∷ rest)).0 e;
            },
          )
    ]

IsIdentifier-new_identifier :
    (kind value : Text) → IsIdentifier value → new_identifier kind value ≡ ok value
unfolding new_identifier check_identifier
IsIdentifier-new_identifier kind [] i = cc (i.is)
IsIdentifier-new_identifier kind (first ∷ rest) i =
    let same : i.first ≡ first = cc (i.is) in
    let starts : starts_well first ≡ true =
      ap starts_well (sym same) ∙ (starts_well_lem i.first).1 i.starts in
    let clean = (find-IsAllowed (first ∷ rest)).1 i.allowed in
    ground (arith, starts, clean, i.short)

strip_prefix_ok : (p t rest : Text) → strip_prefix p t ≡ some rest → t ≡ p ++ rest
unfolding strip_prefix
strip_prefix_ok [] t rest h = cc
strip_prefix_ok (c ∷ p) [] rest h = cc
strip_prefix_ok (c ∷ p) (d ∷ t) rest h = elim (Bool-cases (c == d)) [
  | inl e ↦
      let later = strip_prefix_ok p t rest (rw (strip_prefix, e) at h) in
      ap (λ x. x ∷ t) (sym (==→≡ c d e)) ∙ ap (λ l. c ∷ l) later
  | inr e ↦ cc (rw (strip_prefix, e) at h)
]

strip_prefix-append : (p rest : Text) → strip_prefix p (p ++ rest) ≡ some rest
unfolding strip_prefix
strip_prefix-append [] rest = refl
strip_prefix-append (c ∷ p) rest = rw (strip_prefix, ==_self c) (strip_prefix-append p rest)

new_digest-IsDigest : (value v : Text) → new_digest value ≡ ok v → (v ≡ value) × IsDigest value
unfolding new_digest
new_digest-IsDigest value v h = elim (Option-cases (strip_prefix (text "sha256:") value)) [
  | inl e ↦ cc (rw (new_digest, e) at h)
  | inr (hex, e) ↦
      let body : (if (length hex == 64) && all is_hex hex
            then ok value
            else err (record { kind = text "digest"; reason = Reason.not_a_digest }))
          ≡ ok v =
        rw (new_digest, e) at h in
      (
        ground (arith, body),
        (
          hex,
          strip_prefix_ok (text "sha256:") value hex e,
          ==→≡ (length hex) 64 (ground (arith, body)),
          (all-IsHex hex).0 (ground (arith, body)),
        ),
      )
]

pub IsDigest-new_digest : (value : Text) → IsDigest value → new_digest value ≡ ok value
unfolding new_digest
IsDigest-new_digest value (hex, e, l, h) =
    let found = ap (strip_prefix (text "sha256:")) e ∙ strip_prefix-append (text "sha256:") hex in
    let hexes = (all-IsHex hex).1 h in
    let long : (length hex == 64) ≡ true = ≡→== (length hex) 64 l in
    rw (new_digest, found, long, hexes) refl

new_commit_id-IsCommit :
    (value v : Text) → new_commit_id value ≡ ok v → (v ≡ value) × IsCommit value
unfolding new_commit_id
new_commit_id-IsCommit value v h =
    let hexes : all is_hex value ≡ true = ground (arith, h) in
    (ground (arith, h), (ground (arith, h), (all-IsHex value).0 hexes))

IsCommit-new_commit_id : (value : Text) → IsCommit value → new_commit_id value ≡ ok value
unfolding new_commit_id
IsCommit-new_commit_id value (l, h) = ground (arith, l, (all-IsHex value).1 h)

-- Each constructor of a validated type returns `v` exactly when `v` is the value it was given
-- and this is: for an identifier, 1 to 128 bytes that are lower-case letters, digits,
-- underscores, dots or dashes, of which the first is a letter or a digit; for a digest,
-- `sha256:` and 64 digits or letters from `a` to `f`; for a commit id, 40 or 64 of these; for a
-- positive number, above 0.
pub constructors_exact :
    (kind value v : Text) (n m : ℕ)
    → ((new_identifier kind value ≡ ok v) ↔ ((v ≡ value) × IsIdentifier value))
      × ((new_digest value ≡ ok v) ↔ ((v ≡ value) × IsDigest value))
      × ((new_commit_id value ≡ ok v) ↔ ((v ≡ value) × IsCommit value))
      × ((new_positive kind n ≡ ok m) ↔ ((m ≡ n) × (0 < n)))
constructors_exact kind value v n m = (
  (
    new_identifier-IsIdentifier kind value v,
    λ (e, i). IsIdentifier-new_identifier kind value i ∙ ap ok (sym e),
  ),
  (new_digest-IsDigest value v, λ (e, i). IsDigest-new_digest value i ∙ ap ok (sym e)),
  (new_commit_id-IsCommit value v, λ (e, i). IsCommit-new_commit_id value i ∙ ap ok (sym e)),
  new_positive_exact kind n m,
)
