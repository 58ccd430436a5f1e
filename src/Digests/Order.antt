-- ===== src/Digests/Order.antt =====
-- src/digests/mod.rs: the digest of the inputs does not depend on the order in which they stand.
use checkspan.Common.{
  Bool, true, false, not, List, [], ◌∷◌, ◌≡◌, ◌≢◌, refl, sym, ap, ◌∙◌, arith, Text, All, Bool-cases,
  inl, inr, nat_beq, subst,
}
use mathlib.Core.List.{Permᴰ}
use checkspan.Common.Sorting.{text_ltb, place, sorted}
use checkspan.Contracts.Refs.{ReceiptRef}
use checkspan.Contracts.Attempt.{EvidenceRef}
use checkspan.Digests.Bound.{Writer, manifest_of, input_manifest_digest}

text_ltb_total : (a b : Text) → a ≢ b → text_ltb a b ≡ not (text_ltb b a)
unfolding text_ltb
text_ltb_total [] [] h = absurd (h refl)
text_ltb_total [] (d ∷ b) h = refl
text_ltb_total (c ∷ a) [] h = refl
text_ltb_total (c ∷ a) (d ∷ b) h = elim (Bool-cases (nat_beq c d)) [
  | inl e ↦
      let same : c ≡ d = ground (arith, e) in
      let later = text_ltb_total a b (λ k. h (ground (arith, same, k))) in
      ground (arith, same, later)
  | inr e ↦ ground (arith, e)
]

text_ltb-below : (z y x : Text) → text_ltb z y ≡ false → text_ltb z x ≡ true → text_ltb y x ≡ true
unfolding text_ltb
text_ltb-below [] [] x h k = k
text_ltb-below [] (d ∷ y) x h k = cc
text_ltb-below (c ∷ z) y [] h k = cc
text_ltb-below (c ∷ z) [] (b ∷ x) h k = refl
text_ltb-below (c ∷ z) (d ∷ y) (b ∷ x) h k = ground (arith, text_ltb-below z y x)

All-Permᴰ : {A : Type 0} (P : A → Type 0) {xs ys : List A} (p : Permᴰ xs ys) → All P xs → All P ys
All-Permᴰ P Permᴰ.nil h = tt
All-Permᴰ P (Permᴰ.cons e p) h = (subst P e h.0, All-Permᴰ P p h.1)
All-Permᴰ P (Permᴰ.swap e f) h = (subst P f h.1.0, (subst P e h.0, h.1.1))
All-Permᴰ P (Permᴰ.trans p q) h = All-Permᴰ P q (All-Permᴰ P p h)

module _ {A : Type 0} (key : A → Text) where
  abbrev before : A → A → Bool
  before a b = text_ltb (key a) (key b)

  -- No two elements have the same key.
  abbrev pub Distinct : List A → Type 0
  Distinct [] = Unit {0}
  Distinct (x ∷ xs) = All (λ y. key x ≢ key y) xs × Distinct xs

  place_commutes :
      (x y : A) (l : List A)
      → key x ≢ key y
      → place before x (place before y l) ≡ place before y (place before x l)
  unfolding place
  place_commutes x y [] h = ground (arith, text_ltb_total (key x) (key y) h)
  place_commutes x y (z ∷ zs) h = ground (
    arith,
    text_ltb_total (key x) (key y) h,
    text_ltb-below (key z) (key y) (key x),
    text_ltb-below (key z) (key x) (key y),
    place_commutes x y zs h,
  )

  Distinct-Permᴰ : {xs ys : List A} (p : Permᴰ xs ys) → Distinct xs → Distinct ys
  Distinct-Permᴰ Permᴰ.nil h = tt
  Distinct-Permᴰ (Permᴰ.cons {a = a} {l₂ = l} e p) h = (
    subst (λ a. All (λ y. key a ≢ key y) l) e (All-Permᴰ (λ y. key a ≢ key y) p h.0),
    Distinct-Permᴰ p h.1,
  )
  Distinct-Permᴰ (Permᴰ.swap {a = a} {b = b} {b' = d'} {l = l} e f) h =
      subst (λ c. Distinct (c ∷ d' ∷ l)) f
        (subst (λ d. Distinct (b ∷ d ∷ l)) e (((λ k. h.0.0 (sym k)), h.1.0), (h.0.1, h.1.1)))
  Distinct-Permᴰ (Permᴰ.trans p q) h = Distinct-Permᴰ q (Distinct-Permᴰ p h)

  sorted-Permᴰ :
      {xs ys : List A} (p : Permᴰ xs ys) → Distinct xs → sorted before xs ≡ sorted before ys
  unfolding sorted
  sorted-Permᴰ Permᴰ.nil h = refl
  sorted-Permᴰ (Permᴰ.cons {a = a} {l₂ = l} e p) h =
      ap (place before a) (sorted-Permᴰ p h.1) ∙ ap (λ b. place before b (sorted before l)) e
  sorted-Permᴰ (Permᴰ.swap {a = a} {b = b} {a' = c} {b' = d} {l = l} e f) h =
      place_commutes a b (sorted before l) h.0.0
      ∙ ap (λ x. place before x (place before a (sorted before l))) f
      ∙ ap (λ x. place before c (place before x (sorted before l))) e
  sorted-Permᴰ (Permᴰ.trans p q) h = sorted-Permᴰ p h ∙ sorted-Permᴰ q (Distinct-Permᴰ p h)

-- The digest of an input manifest is the same for its evidence and its receipts in any other
-- order, when no two pieces of evidence have the same port and no two receipts the same id.
pub input_manifest_digest-Permᴰ :
    (w : Writer) (evidence evidence' : List EvidenceRef) (receipts receipts' : List ReceiptRef)
    → Distinct (λ (e : EvidenceRef). e.port_name) evidence
    → Distinct (λ (r : ReceiptRef). r.id) receipts
    → Permᴰ evidence evidence'
    → Permᴰ receipts receipts'
    → input_manifest_digest w evidence receipts ≡ input_manifest_digest w evidence' receipts'
unfolding input_manifest_digest manifest_of
input_manifest_digest-Permᴰ w evidence evidence' receipts receipts' d k p q =
    rw
      (
        sorted-Permᴰ (λ (e : EvidenceRef). e.port_name) p d,
        sorted-Permᴰ (λ (r : ReceiptRef). r.id) q k,
      )
      refl
