-- ===== src/Common/Indexed.antt =====
-- Vectors read and written at native indices, and how often a number stands in one.
use Prim.Native.Nat.{ℕ, zero, suc, ◌+◌, ◌≤◌, ◌<◌}
use mathlib.Core.Path.{◌≡◌, refl, sym, subst, ap}
use mathlib.Core.Bool.{Bool, true, false, ◌||◌}
use mathlib.Core.Logic.{inl, inr}
use mathlib.Core.Option.{none, some}
use mathlib.Core.List.{List, [], ◌∷◌, ◌++◌}
use native.Mathlib.Omega.{arith}
use checkspan.Common.Tests.{ltb, if◌then◌else◌, Bool-cases}
use checkspan.Common.Sorting.{place}
use checkspan.Common.Equality.{◌==◌, nat_eq, ==→≡, ==_self}
use checkspan.Common.Lists.{length, All, contains, find}

module _ {ℓ} {A : Type ℓ} where
  abbrev pub get_or : List A → ℕ → A → A
  get_or [] i d = d
  get_or (x ∷ xs) zero d = x
  get_or (x ∷ xs) (suc i) d = get_or xs i d

  abbrev pub set : List A → ℕ → A → List A
  set [] i v = []
  set (x ∷ xs) zero v = v ∷ xs
  set (x ∷ xs) (suc i) v = x ∷ set xs i v

  abbrev pub drop : ℕ → List A → List A
  drop zero xs = xs
  drop (suc n) [] = []
  drop (suc n) (x ∷ xs) = drop n xs

  -- `vec![a; n]`
  abbrev pub replicate : ℕ → A → List A
  replicate zero a = []
  replicate (suc n) a = a ∷ replicate n a

  pub get_or_past : (xs : List A) (i : ℕ) (d : A) → length xs ≤ i → get_or xs i d ≡ d
  get_or_past [] i d h = refl
  get_or_past (x ∷ xs) zero d h = absurd (omega (arith, h))
  get_or_past (x ∷ xs) (suc i) d h = get_or_past xs i d (omega (arith, h))

  pub length-set : (xs : List A) (i : ℕ) (v : A) → length (set xs i v) ≡ length xs
  length-set [] i v = refl
  length-set (x ∷ xs) zero v = refl
  length-set (x ∷ xs) (suc i) v = ap suc (length-set xs i v)

  pub length-replicate : (n : ℕ) (a : A) → length (replicate n a) ≡ n
  length-replicate zero a = refl
  length-replicate (suc n) a = ap suc (length-replicate n a)

  pub get_or-replicate : (n : ℕ) (a : A) (i : ℕ) → get_or (replicate n a) i a ≡ a
  get_or-replicate zero a i = refl
  get_or-replicate (suc n) a zero = refl
  get_or-replicate (suc n) a (suc i) = get_or-replicate n a i

  pub get_or-set :
      (xs : List A) (i j : ℕ) (v d : A)
      → i < length xs
      → get_or (set xs i v) j d ≡ (if i == j then v else get_or xs j d)
  get_or-set [] i j v d h = absurd (omega arith)
  get_or-set (x ∷ xs) zero zero v d h = refl
  get_or-set (x ∷ xs) zero (suc j) v d h = ground arith
  get_or-set (x ∷ xs) (suc i) zero v d h = ground arith
  get_or-set (x ∷ xs) (suc i) (suc j) v d h = ground (arith, get_or-set xs i j v d)

-- `0..n`
abbrev pub below : ℕ → List ℕ
below zero = []
below (suc n) = below n ++ n ∷ []

abbrev pub count : ℕ → List ℕ → ℕ
count a [] = 0
count a (x ∷ xs) = if x == a then suc (count a xs) else count a xs

pub count-append : (a : ℕ) (xs ys : List ℕ) → count a (xs ++ ys) ≡ count a xs + count a ys
count-append a [] ys = omega arith
count-append a (x ∷ xs) ys = ground (arith, count-append a xs ys)

pub count-eq-contains : (a : ℕ) (xs : List ℕ) → (0 < count a xs) → contains xs a ≡ true
unfolding contains
count-eq-contains a [] h = absurd (omega arith)
count-eq-contains a (x ∷ xs) h = ground (arith, count-eq-contains a xs)

pub contains-count : (a : ℕ) (xs : List ℕ) → contains xs a ≡ true → 0 < count a xs
unfolding contains
contains-count a [] h = cc
contains-count a (x ∷ xs) h = ground (arith, contains-count a xs)

abbrev pub Within : ℕ → List ℕ → Type 0
Within n = All (λ x. x < n)

-- How many entries stand for the numbers below `n`.
abbrev pub tally : ℕ → List ℕ → ℕ
tally zero xs = 0
tally (suc n) xs = tally n xs + count n xs

tally-cons : (n x : ℕ) (xs : List ℕ) → tally n (x ∷ xs) ≡ tally n xs + (if ltb x n then 1 else 0)
tally-cons zero x xs = ground arith
tally-cons (suc n) x xs = ground (arith, tally-cons n x xs)

tally-nil : (n : ℕ) → tally n [] ≡ 0
tally-nil zero = refl
tally-nil (suc n) = omega (arith, tally-nil n)

pub tally-eq-length : (n : ℕ) (xs : List ℕ) → Within n xs → tally n xs ≡ length xs
tally-eq-length n [] h = tally-nil n
tally-eq-length n (x ∷ xs) h = ground (arith, tally-cons n x xs, tally-eq-length n xs)

-- How many of `ps` are not among `taken`.
abbrev pub pending : List ℕ → List ℕ → ℕ
unfolding contains
pending taken [] = 0
pending taken (p ∷ ps) = if contains taken p then pending taken ps else suc (pending taken ps)

pub contains-concat :
    (xs : List ℕ) (i p : ℕ) → contains (xs ++ i ∷ []) p ≡ (contains xs p || (i == p))
unfolding contains
contains-concat [] i p = ground arith
contains-concat (x ∷ xs) i p = ground (arith, contains-concat xs i p)

pub pending-concat :
    (taken : List ℕ) (i : ℕ) (ps : List ℕ)
    → contains taken i ≡ false
    → pending (taken ++ i ∷ []) ps + count i ps ≡ pending taken ps
unfolding contains
pending-concat taken i [] h = refl
pending-concat taken i (p ∷ ps) h = elim (Bool-cases (i == p)) [
  | inl e ↦
      let same = ==→≡ i p e in
      ground (arith, same, contains-concat taken i p, pending-concat taken i ps h)
  | inr e ↦ ground (arith, e, contains-concat taken i p, pending-concat taken i ps h)
]

pub pending-zero :
    (taken ps : List ℕ) → pending taken ps ≡ 0 → All (λ p. contains taken p ≡ true) ps
unfolding contains
pending-zero taken [] h = tt
pending-zero taken (p ∷ ps) h = ground (arith, pending-zero taken ps)

pub pending-nil : (ps : List ℕ) → pending [] ps ≡ length ps
unfolding contains
pending-nil [] = refl
pending-nil (p ∷ ps) = ap suc (pending-nil ps)

-- The numbers below `n` each at most once: no more than `n` entries.
pub tally_once : (n : ℕ) (xs : List ℕ) → ((v : ℕ) → v < n → count v xs ≤ 1) → tally n xs ≤ n
tally_once zero xs h = omega arith
tally_once (suc n) xs h =
    omega (arith, h n (omega arith), tally_once n xs (λ v b. h v (omega arith)))

pub count-place :
    (before : ℕ → ℕ → Bool) (v a : ℕ) (xs : List ℕ) → count v (place before a xs) ≡ count v (a ∷ xs)
unfolding place
count-place before v a [] = refl
count-place before v a (x ∷ xs) = ground (arith, count-place before v a xs)

pub Within-counts : (n : ℕ) (xs : List ℕ) → ((v : ℕ) → n ≤ v → count v xs ≡ 0) → Within n xs
Within-counts n [] h = tt
Within-counts n (x ∷ xs) h =
    (ground (arith, h x), Within-counts n xs (λ v b. ground (arith, h v b)))

pub Within-append : (n : ℕ) (xs ys : List ℕ) → Within n xs → Within n ys → Within n (xs ++ ys)
Within-append n [] ys h k = k
Within-append n (x ∷ xs) ys h k = (h.0, Within-append n xs ys h.1 k)

pub Within-place :
    (before : ℕ → ℕ → Bool) (n a : ℕ) (xs : List ℕ)
    → a < n
    → Within n xs
    → Within n (place before a xs)
unfolding place
Within-place before n a [] h k = (h, tt)
Within-place before n a (x ∷ xs) h k = elim (Bool-cases (before x a)) [
  | inl e ↦ rw (e, place) (k.0, Within-place before n a xs h k.1)
  | inr e ↦ rw (e, place) (h, k)
]

pub tally_full : (n : ℕ) (xs : List ℕ) → ((v : ℕ) → v < n → count v xs ≡ 1) → tally n xs ≡ n
tally_full zero xs h = refl
tally_full (suc n) xs h =
    omega (arith, h n (omega arith), tally_full n xs (λ v b. h v (omega arith)))

pub contains-below : (n v : ℕ) → v < n → contains (below n) v ≡ true
unfolding contains
contains-below zero v h = absurd (omega (arith, h))
contains-below (suc n) v h = ground (arith, contains-concat (below n) n v, contains-below n v, h)

pub below-Within : (n m : ℕ) → n ≤ m → Within m (below n)
below-Within zero m h = tt
below-Within (suc n) m h =
    Within-append m (below n) (n ∷ []) (below-Within n m (omega arith)) (omega arith, tt)

pub pending_positive :
    (taken ps : List ℕ)
    → 0 < pending taken ps
    → (p : ℕ) × (contains ps p ≡ true) × (contains taken p ≡ false)
unfolding contains
pending_positive taken [] h = absurd (omega (arith, h))
pending_positive taken (p ∷ ps) h = elim (Bool-cases (contains taken p)) [
  | inl e ↦
      let (q, among, new) = pending_positive taken ps (ground (arith, h, e)) in
      (q, ground (arith, among), new)
  | inr e ↦ (p, ground (arith, ==_self p), e)
]

pub Within-contains : (n : ℕ) (xs : List ℕ) (v : ℕ) → Within n xs → contains xs v ≡ true → v < n
unfolding contains
Within-contains n [] v h k = cc
Within-contains n (x ∷ xs) v h k = ground (arith, ==→≡ x v, Within-contains n xs v h.1, h.0)

pub find-some :
    (p : ℕ → Bool) (xs : List ℕ) (a : ℕ)
    → find p xs ≡ some a
    → (contains xs a ≡ true) × (p a ≡ true)
unfolding find contains
find-some p [] a h = cc
find-some p (x ∷ xs) a h = elim (Bool-cases (p x)) [
  | inl e ↦
      let same : x ≡ a = ground (arith, h, e) in
      (ground (arith, same, ==_self x), ground (arith, same, e))
  | inr e ↦
      let later = find-some p xs a (ground (arith, h, e)) in (ground (arith, later.0), later.1)
]

pub find-none :
    (p : ℕ → Bool) (xs : List ℕ) (a : ℕ) → find p xs ≡ none → contains xs a ≡ true → p a ≡ false
unfolding find contains
find-none p [] a h k = cc
find-none p (x ∷ xs) a h k = ground (arith, ==→≡ x a, find-none p xs a)

pub contains-append :
    (xs ys : List ℕ) (v : ℕ) → contains (xs ++ ys) v ≡ (contains xs v || contains ys v)
unfolding contains
contains-append [] ys v = refl
contains-append (x ∷ xs) ys v = ground (arith, contains-append xs ys v)

pub tally_tight :
    (n : ℕ) (xs : List ℕ)
    → ((v : ℕ) → v < n → count v xs ≤ 1)
    → n ≤ tally n xs
    → (v : ℕ) → v < n
    → count v xs ≡ 1
tally_tight zero xs h k v b = absurd (omega (arith, b))
tally_tight (suc n) xs h k v b =
    let low = tally_once n xs (λ u c. h u (omega (arith, c))) in
    let last = h n (omega arith) in
    elim (Bool-cases (v == n)) [
      | inl e ↦ subst (λ (u : ℕ). count u xs ≡ 1) (sym (==→≡ v n e)) (omega (arith, low, last, k))
      | inr e ↦
          tally_tight n xs (λ u c. h u (omega (arith, c))) (omega (arith, low, last, k)) v
            (ground (arith, e, b))
    ]

pub count_outside : (n : ℕ) (xs : List ℕ) (v : ℕ) → Within n xs → n ≤ v → count v xs ≡ 0
count_outside n [] v w h = refl
count_outside n (x ∷ xs) v w h = ground (arith, w.0, count_outside n xs v w.1 h)
