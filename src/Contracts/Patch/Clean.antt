-- ===== src/Contracts/Patch/Clean.antt =====
-- src/contracts/patch.rs, is_clean_relative_path: a clean path is its segments, joined.
use checkspan.Common.{
  ℕ, Bool, true, false, not, ◌&&◌, ◌||◌, List, [], ◌∷◌, ◌++◌, ◌≡◌, ◌≢◌, refl, ap, ◌∙◌, sym, subst,
  arith, Text, text, ◌==◌, ==→≡, ≡→==, nat_eq, list_eq, is_empty, all, contains, All, Bool-cases,
  inl, inr,
}
use checkspan.Contracts.Patch.{push, split, is_segment, starts_with_slash, is_clean_relative_path}

abbrev is_plain : ℕ → Bool
is_plain c = not (c == b'/') && not (c == b'\\') && not (c == 0)

-- A name in a directory: not empty, neither `.` nor `..`, without a slash, a backslash or a NUL.
pub record IsSegment (segment : Text) : Type 0 where
  pub some_text : segment ≢ []
  pub not_here : segment ≢ text "."
  pub not_up : segment ≢ text ".."
  pub plain : all is_plain segment ≡ true

unfoldable pub join : List Text → Text
join [] = []
join (piece ∷ []) = piece
join (piece ∷ other ∷ rest) = piece ++ (b'/' ∷ join (other ∷ rest))

-- Names, at least one, joined by slashes.
abbrev pub IsClean : Text → Type 0
IsClean path =
    (segments : List Text) × (segments ≢ []) × All IsSegment segments × (path ≡ join segments)

push-nonempty : (c : ℕ) (ps : List Text) → push c ps ≢ []
unfolding push
push-nonempty c [] h = cc
push-nonempty c (p ∷ ps) h = cc

split-nonempty : (s : Text) → split b'/' s ≢ []
unfolding split
split-nonempty [] h = cc
split-nonempty (c ∷ s) h = elim (Bool-cases (c == b'/')) [
  | inl e ↦ cc (rw (split, e) at h)
  | inr e ↦ push-nonempty c (split b'/' s) (rw (split, e) at h)
]

join-push : (c : ℕ) (ps : List Text) → ps ≢ [] → join (push c ps) ≡ c ∷ join ps
unfolding push join
join-push c [] h = refl
join-push c (p ∷ []) h = refl
join-push c (p ∷ q ∷ ps) h = refl

join-slash : (ps : List Text) → ps ≢ [] → join ([] ∷ ps) ≡ b'/' ∷ join ps
unfolding join
join-slash [] h = absurd (h refl)
join-slash (p ∷ ps) h = refl

join-split : (s : Text) → join (split b'/' s) ≡ s
unfolding split join
join-split [] = refl
join-split (c ∷ s) = elim (Bool-cases (c == b'/')) [
  | inl e ↦
      rw (split, e)
        (join-slash (split b'/' s) (split-nonempty s)
          ∙ (ap (λ t. b'/' ∷ t) (join-split s) ∙ ap (λ d. d ∷ s) (sym (==→≡ c b'/' e))))
  | inr e ↦
      rw (split, e) (join-push c (split b'/' s) (split-nonempty s) ∙ ap (λ t. c ∷ t) (join-split s))
]

abbrev AllPlain : List Text → Type 0
AllPlain ps = All (λ p. all is_plain p ≡ true) ps

push-AllPlain : (c : ℕ) (ps : List Text) → is_plain c ≡ true → AllPlain ps → AllPlain (push c ps)
unfolding push all
push-AllPlain c [] h ps = ground (arith, h)
push-AllPlain c (p ∷ ps) h (first, rest) = (ground (arith, h, first), rest)

split-AllPlain :
    (s : Text) → contains s b'\\' ≡ false → contains s 0 ≡ false → AllPlain (split b'/' s)
unfolding split contains all
split-AllPlain [] h k = ground arith
split-AllPlain (c ∷ s) h k =
    let later = split-AllPlain s (ground (arith, h)) (ground (arith, k)) in
    elim (Bool-cases (c == b'/')) [
      | inl e ↦ rw (split, e) (refl, later)
      | inr e ↦ rw (split, e) (push-AllPlain c (split b'/' s) (ground (arith, h, k, e)) later)
    ]

segment_apart : (p : Text) → is_segment p ≡ true → (p ≢ []) × (p ≢ text ".") × (p ≢ text "..")
segment_apart p h = (
  λ e. cc (subst (λ q. is_empty q ≡ false) e (ground (arith, h))),
  λ e. ground (arith, h, ≡→== p (text ".") e),
  λ e. ground (arith, h, ≡→== p (text "..") e),
)

segment_apart_from : (p : Text) → p ≢ [] → p ≢ text "." → p ≢ text ".." → is_segment p ≡ true
segment_apart_from [] h k l = absurd (h refl)
segment_apart_from (c ∷ p) h k l = elim (Bool-cases ((c ∷ p) == text ".")) [
  | inl e ↦ absurd (k (==→≡ (c ∷ p) (text ".") e))
  | inr e ↦ elim (Bool-cases ((c ∷ p) == text "..")) [
    | inl f ↦ absurd (l (==→≡ (c ∷ p) (text "..") f))
    | inr f ↦ rw (e, f) refl
  ]
]

are_segments : (ps : List Text) → all is_segment ps ≡ true → AllPlain ps → All IsSegment ps
unfolding all
are_segments [] h plain = tt
are_segments (p ∷ ps) h (first, rest) =
    let (a, b, c) = segment_apart p (ground (arith, h)) in
    (
      record { some_text = a; not_here = b; not_up = c; plain = first },
      are_segments ps (ground (arith, h)) rest,
    )

-- Pieces without a slash are what their join splits into.
split-piece : (p s : Text) → all is_plain p ≡ true → split b'/' (p ++ (b'/' ∷ s)) ≡ p ∷ split b'/' s
unfolding split push all
split-piece [] s h = refl
split-piece (c ∷ p) s h =
    let other : (c == b'/') ≡ false = ground (arith, h) in
    rw (split, other, split-piece p s (ground (arith, h))) refl

split-plain : (p : Text) → all is_plain p ≡ true → split b'/' p ≡ p ∷ []
unfolding split push all
split-plain [] h = refl
split-plain (c ∷ p) h =
    let other : (c == b'/') ≡ false = ground (arith, h) in
    rw (split, other, split-plain p (ground (arith, h))) refl

split-join : (ps : List Text) → ps ≢ [] → All IsSegment ps → split b'/' (join ps) ≡ ps
unfolding join
split-join [] h k = absurd (h refl)
split-join (p ∷ []) h (first, rest) = split-plain p first.plain
split-join (p ∷ q ∷ ps) h (first, rest) =
    split-piece p (join (q ∷ ps)) first.plain ∙ ap (λ l. p ∷ l) (split-join (q ∷ ps) (λ e. cc) rest)

contains-append : (p s : Text) (c : ℕ) → contains (p ++ s) c ≡ (contains p c || contains s c)
unfolding contains
contains-append [] s c = ground arith
contains-append (d ∷ p) s c = ground (arith, contains-append p s c)

contains-plain :
    (p : Text) (c : ℕ) → is_plain c ≡ false → all is_plain p ≡ true → contains p c ≡ false
unfolding contains all
contains-plain [] c h k = refl
contains-plain (d ∷ p) c h k =
    ground (arith, h, k, ==→≡ d c, contains-plain p c h (ground (arith, k)))

contains-join :
    (ps : List Text) (c : ℕ)
    → is_plain c ≡ false
    → (c == b'/') ≡ false
    → All IsSegment ps
    → contains (join ps) c ≡ false
unfolding join contains
contains-join [] c h k all_plain = refl
contains-join (p ∷ []) c h k (first, rest) = contains-plain p c h first.plain
contains-join (p ∷ q ∷ ps) c h k (first, rest) =
    let here = contains-plain p c h first.plain in
    let later = contains-join (q ∷ ps) c h k rest in
    rw contains-append (ground (arith, here, later, k, ==→≡ c b'/', ==→≡ b'/' c))

join_starts :
    (ps : List Text)
    → ps ≢ []
    → All IsSegment ps
    → (is_empty (join ps) ≡ false) × (starts_with_slash (join ps) ≡ false)
unfolding join all
join_starts [] h k = absurd (h refl)
join_starts ([] ∷ ps) h (first, rest) = absurd (first.some_text refl)
join_starts ((c ∷ p) ∷ []) h (first, rest) = (refl, ground (arith, first.plain))
join_starts ((c ∷ p) ∷ q ∷ ps) h (first, rest) = (refl, ground (arith, first.plain))

all-segments : (ps : List Text) → All IsSegment ps → all is_segment ps ≡ true
unfolding all
all-segments [] h = refl
all-segments (p ∷ ps) (first, rest) =
    let here = segment_apart_from p first.some_text first.not_here first.not_up in
    ground (arith, here, all-segments ps rest)

pub is_clean_relative_path-IsClean :
    (path : Text) → is_clean_relative_path path ≡ true → IsClean path
unfolding is_clean_relative_path
is_clean_relative_path-IsClean path h = (
  split b'/' path,
  split-nonempty path,
  are_segments (split b'/' path) (ground (arith, h))
      (split-AllPlain path (ground (arith, h)) (ground (arith, h))),
  sym (join-split path),
)

pub IsClean_clean : (path : Text) → IsClean path → is_clean_relative_path path ≡ true
unfolding is_clean_relative_path
IsClean_clean path (ps, some_piece, good, joined) =
    let (full, start) = join_starts ps some_piece good in
    let slash = contains-join ps b'\\' refl refl good in
    let nul = contains-join ps 0 refl refl good in
    rw joined (
      rw (is_clean_relative_path, full, start, slash, nul, split-join ps some_piece good)
        (all-segments ps good))
