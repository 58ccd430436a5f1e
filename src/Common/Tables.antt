-- ===== src/Common/Tables.antt =====
-- Tables as lists that grow at their end: what holds of every row, and keys that no two rows share.
use mathlib.Core.Path.{◌≡◌, refl, subst, sym}
use mathlib.Core.Logic.{◌⊎◌, inl, inr}
use mathlib.Core.Bool.{Bool, true, false}
use mathlib.Core.Option.{some}
use mathlib.Core.List.{Memᴰ, List, [], ◌∷◌, ◌++◌, map}
use native.Mathlib.Omega.{arith}
use checkspan.Common.Lists.{All, any, find, keep}
use checkspan.Common.Tests.{Bool-cases}

module _ {ℓ} {A : Type ℓ} where
  pub All-imp {κ μ} :
      {P : A → Type κ} {Q : A → Type μ}
      → ((a : A) → P a → Q a)
      → (rows : List A) → All P rows
      → All Q rows
  All-imp f [] p = tt
  All-imp f (row ∷ rows) (p, ps) = (f row p, All-imp f rows ps)

  pub All-Memᴰ {κ} : (P : A → Type κ) (rows : List A) (a : A) → All P rows → Memᴰ a rows → P a
  All-Memᴰ P [] a h m = elim m [ ]
  All-Memᴰ P (row ∷ rows) a (p, ps) (Memᴰ.head e) = subst P (sym e) p
  All-Memᴰ P (row ∷ rows) a (p, ps) (Memᴰ.tail m) = All-Memᴰ P rows a ps m

  pub All-tabulate {κ} :
      (P : A → Type κ) (rows : List A) → ((a : A) → Memᴰ a rows → P a) → All P rows
  All-tabulate P [] f = tt
  All-tabulate P (row ∷ rows) f =
      (f row (Memᴰ.head refl), All-tabulate P rows (λ a m. f a (Memᴰ.tail m)))

  pub any-Memᴰ :
      (p : A → Bool) (rows : List A) (a : A) → Memᴰ a rows → p a ≡ true → any p rows ≡ true
  unfolding any
  any-Memᴰ p [] a m h = elim m [ ]
  any-Memᴰ p (row ∷ rows) a (Memᴰ.head e) h =
      let here : p row ≡ true = subst (λ x. p x ≡ true) e h in ground (arith, here)
  any-Memᴰ p (row ∷ rows) a (Memᴰ.tail m) h = ground (arith, any-Memᴰ p rows a m h)

  pub Memᴰ-keep :
      (p : A → Bool) (rows : List A) (a : A) → Memᴰ a rows → p a ≡ true → Memᴰ a (keep p rows)
  unfolding keep
  Memᴰ-keep p [] a m h = elim m [ ]
  Memᴰ-keep p (row ∷ rows) a (Memᴰ.head e) h =
      let here : p row ≡ true = subst (λ x. p x ≡ true) e h in rw (keep, here) (Memᴰ.head e)
  Memᴰ-keep p (row ∷ rows) a (Memᴰ.tail m) h = elim (Bool-cases (p row)) [
    | inl e ↦ rw (keep, e) (Memᴰ.tail (Memᴰ-keep p rows a m h))
    | inr e ↦ rw (keep, e) (Memᴰ-keep p rows a m h)
  ]

  pub All_add {κ} :
      (P : A → Type κ) (rows : List A) {row : A} → All P rows → P row → All P (rows ++ row ∷ [])
  All_add P [] p q = (q, tt)
  All_add P (r ∷ rows) (p, ps) q = (p, All_add P rows ps q)

  pub any_add :
      (p : A → Bool) (rows more : List A) → any p rows ≡ true → any p (rows ++ more) ≡ true
  unfolding any
  any_add p [] more h = cc
  any_add p (r ∷ rows) more h = ground (arith, any_add p rows more)

  pub any_last :
      (p : A → Bool) (rows : List A) (row : A) → p row ≡ true → any p (rows ++ row ∷ []) ≡ true
  unfolding any
  any_last p [] row h = ground arith
  any_last p (r ∷ rows) row h = ground (arith, any_last p rows row)

  -- No row has the key of an earlier one. `clash later earlier` tells whether they share it.
  abbrev pub Unique : (A → A → Bool) → List A → Type ℓ
  Unique clash [] = Unit
  Unique clash (row ∷ rows) = All (λ later. clash later row ≡ false) rows × Unique clash rows

  pub Unique-add :
      (clash : A → A → Bool) (rows : List A) (row : A)
      → Unique clash rows
      → any (clash row) rows ≡ false
      → Unique clash (rows ++ row ∷ [])
  unfolding any
  Unique-add clash [] row u h = (tt, tt)
  Unique-add clash (r ∷ rows) row (apart, u) h =
      let both : (clash row r ≡ false) × (any (clash row) rows ≡ false) = ground arith in
      (All_add _ rows apart both.0, Unique-add clash rows row u both.1)

  -- One row that is allowed and has a new key is added.
  abbrev pub Added {κ} : (A → Type κ) → (A → A → Bool) → List A → List A → Type (ℓ ⊔ κ)
  Added Allowed clash old new =
      (row : A) × (new ≡ old ++ row ∷ []) × Allowed row × (any (clash row) old ≡ false)

  -- A table keeps its rows, or a row is added.
  abbrev pub Change {κ} : (A → Type κ) → (A → A → Bool) → List A → List A → Type (ℓ ⊔ κ)
  Change Allowed clash old new = (new ≡ old) ⊎ Added Allowed clash old new

  pub Change-All {κ μ} :
      {P : A → Type κ} {Q : A → Type μ} (clash : A → A → Bool) {old new : List A}
      → Change P clash old new
      → ((a : A) → P a → Q a)
      → All P old
      → All Q new
  Change-All {Q} clash {old} (inl e) f ps = subst (All Q) (sym e) (All-imp f old ps)
  Change-All {Q} clash {old} (inr (row, e, p, _)) f ps =
      subst (All Q) (sym e) (All_add Q old (All-imp f old ps) (f row p))

  pub Change-Unique {κ} :
      {Q : A → Type κ} (clash : A → A → Bool) {old new : List A}
      → Change Q clash old new
      → Unique clash old
      → Unique clash new
  Change-Unique clash (inl e) u = subst (Unique clash) (sym e) u
  Change-Unique clash {old} (inr (row, e, _, fresh)) u =
      subst (Unique clash) (sym e) (Unique-add clash old row u fresh)

  pub Change-any {κ} :
      {Q : A → Type κ} (clash : A → A → Bool) {old new : List A} (p : A → Bool)
      → Change Q clash old new
      → any p old ≡ true
      → any p new ≡ true
  Change-any clash p (inl e) h = subst (λ rows. any p rows ≡ true) (sym e) h
  Change-any clash {old} p (inr (row, e, _, _)) h =
      subst (λ rows. any p rows ≡ true) (sym e) (any_add p old (row ∷ []) h)

  All-map-apart :
      (clash : A → A → Bool) (f : A → A)
      → ((a b : A) → clash (f a) (f b) ≡ clash a b)
      → (r : A) (rest : List A) → All (λ later. clash later r ≡ false) rest
      → All (λ later. clash later (f r) ≡ false) (map f rest)
  All-map-apart clash f same r [] p = tt
  All-map-apart clash f same r (x ∷ rest) (p, ps) =
      (rw (same x r) p, All-map-apart clash f same r rest ps)

  -- Rows changed in place keep their keys and what holds of them.
  pub Unique-map :
      (clash : A → A → Bool) (f : A → A) (rows : List A)
      → ((a b : A) → clash (f a) (f b) ≡ clash a b)
      → Unique clash rows
      → Unique clash (map f rows)
  Unique-map clash f [] same u = tt
  Unique-map clash f (r ∷ rows) same (apart, u) =
      (All-map-apart clash f same r rows apart, Unique-map clash f rows same u)

  pub All-map {κ} :
      {P : A → Type κ} (f : A → A) (rows : List A)
      → ((a : A) → P a → P (f a))
      → All P rows
      → All P (map f rows)
  All-map f [] keeps p = tt
  All-map f (r ∷ rows) keeps (p, ps) = (keeps r p, All-map f rows keeps ps)

  pub All_member {κ} :
      (P : A → Type κ) (rows : List A) {row : A} → All P rows → Memᴰ row rows → P row
  All_member P [] all m = elim m [ ]
  All_member P (r ∷ rows) (p, ps) (Memᴰ.head e) = subst P (sym e) p
  All_member P (r ∷ rows) (p, ps) (Memᴰ.tail m) = All_member P rows ps m

  pub find-append :
      (p : A → Bool) (rows more : List A) (a : A)
      → find p rows ≡ some a
      → find p (rows ++ more) ≡ some a
  unfolding find
  find-append p [] more a h = cc
  find-append p (r ∷ rows) more a h = ground (arith, find-append p rows more a)

  pub find-member :
      (p : A → Bool) (rows : List A) (a : A) → find p rows ≡ some a → Memᴰ a rows × (p a ≡ true)
  unfolding find
  find-member p [] a h = cc
  find-member p (r ∷ rows) a h = elim (Bool-cases (p r)) [
    | inl e ↦
        let same : r ≡ a = ground arith in (Memᴰ.head (sym same), subst (λ x. p x ≡ true) same e)
    | inr e ↦
        let later : find p rows ≡ some a = ground arith in
        let (m, q) = find-member p rows a later in (Memᴰ.tail m, q)
  ]

  pub keep-member :
      (p : A → Bool) (rows : List A) (a : A) → Memᴰ a (keep p rows) → Memᴰ a rows × (p a ≡ true)
  unfolding keep
  keep-member p [] a m = elim m [ ]
  keep-member p (r ∷ rows) a m = elim (Bool-cases (p r)) [
    | inr e ↦ let (n, q) = keep-member p rows a (rw (keep, e) at m) in (Memᴰ.tail n, q)
    | inl e ↦ elim (rw (keep, e) at m) [
      | Memᴰ.head same ↦ (Memᴰ.head same, subst (λ x. p x ≡ true) (sym same) e)
      | Memᴰ.tail n ↦ let (k, q) = keep-member p rows a n in (Memᴰ.tail k, q)
    ]
  ]

  pub any-find :
      (p : A → Bool) (rows : List A) → any p rows ≡ true → (a : A) × (find p rows ≡ some a)
  unfolding any find
  any-find p [] h = cc
  any-find p (r ∷ rows) h = elim (Bool-cases (p r)) [
    | inl e ↦ (r, ground arith)
    | inr e ↦
        let later : any p rows ≡ true = ground arith in
        let (a, found) = any-find p rows later in (a, ground arith)
  ]
