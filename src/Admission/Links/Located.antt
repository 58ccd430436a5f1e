-- ===== src/Admission/Links/Located.antt =====
-- src/graph/mod.rs: what the index of `admit` has for an id: the first node of this id.
use checkspan.Common.{
  Option, ℕ, zero, suc, ◌+◌, ◌<◌, true, some, List, [], ◌∷◌, ◌≡◌, ◌≢◌, ◌∙◌, refl, sym, subst, ap,
  arith, ◌==◌, nat_eq, list_eq, get_elem?, Bool-cases, Result-cases, inl, inr, ==→≡, ≡→==, Text,
  text,
}
use checkspan.Contracts.Ids.{NodeId, new_identifier}
use checkspan.Contracts.Node.{NodeSpec}
use checkspan.Contracts.Valid.{new_identifier-IsIdentifier}
use checkspan.Admission.Links.{locate, locate_name}

-- The node `n` stands at `v`, and is the first of this id.
pub record IsFirst (nodes : List NodeSpec) (id : NodeId) (v : ℕ) (n : NodeSpec) : Type 0 where
  pub place : get_elem? nodes v ≡ some n
  pub named : n.id ≡ id
  pub first : (u : ℕ) (m : NodeSpec) → u < v → get_elem? nodes u ≡ some m → m.id ≢ id

first_after :
    (x : NodeSpec) (nodes : List NodeSpec) (id : NodeId) (v : ℕ)
    → x.id ≢ id
    → ((u : ℕ) (m : NodeSpec) → u < v → get_elem? nodes u ≡ some m → m.id ≢ id)
    → (u : ℕ) (m : NodeSpec) → u < suc v
    → get_elem? (x ∷ nodes) u ≡ some m
    → m.id ≢ id
first_after x nodes id v other before zero m b h = λ k. let same : x ≡ m = cc in other (cc)
first_after x nodes id v other before (suc u) m b h = before u m (omega (arith, b)) h

pub locate-IsFirst :
    (i : ℕ) (id : NodeId) (nodes : List NodeSpec) (p : ℕ) (n : NodeSpec)
    → locate i id nodes ≡ some (p, n)
    → (v : ℕ) × (p ≡ i + v) × IsFirst nodes id v n
unfolding locate
locate-IsFirst i id [] p n h = cc
locate-IsFirst i id (m ∷ nodes) p n h = elim (Bool-cases (m.id == id)) [
  | inl e ↦
      let same : some (i, m) ≡ some (p, n) = rw (locate, e) at h in
      let here : i ≡ p = cc in
      let one : m ≡ n = cc in
      (
        zero,
        omega (arith, here),
        record {
          place = ap some one;
          named = subst (λ (x : NodeSpec). x.id ≡ id) one (==→≡ m.id id e);
          first = λ u k b. let never : ⊥ = omega (arith, b) in elim never [ ];
        },
      )
  | inr e ↦
      let (v, is, f) = locate-IsFirst (suc i) id nodes p n (rw (locate, e) at h) in
      let other : m.id ≢ id = λ k. cc (≡→== m.id id k, e) in
      (
        suc v,
        omega (arith, is),
        record { place = f.place; named = f.named; first = first_after m nodes id v other f.first },
      )
]

pub IsFirst-locate :
    (i : ℕ) (id : NodeId) (nodes : List NodeSpec) (v : ℕ) (n : NodeSpec)
    → IsFirst nodes id v n
    → locate i id nodes ≡ some (i + v, n)
unfolding locate
IsFirst-locate i id [] v n f = cc f.place
IsFirst-locate i id (m ∷ nodes) zero n f =
    let one : m ≡ n = cc f.place in
    let own : (m.id == id) ≡ true =
      ≡→== m.id id (subst (λ (x : NodeSpec). x.id ≡ id) (sym one) f.named) in
    let spot : i ≡ i + 0 = omega arith in rw (locate, own) (cc (one, spot))
IsFirst-locate i id (m ∷ nodes) (suc v) n f = elim (Bool-cases (m.id == id)) [
  | inl e ↦ elim (f.first zero m (omega arith) refl (==→≡ m.id id e)) [ ]
  | inr e ↦
      rw (locate, e)
        let later = IsFirst-locate (suc i) id nodes v n (record {
          place = f.place;
          named = f.named;
          first = λ u k b. f.first (suc u) k (omega (arith, b));
        }) in
          let spot : suc i + v ≡ i + suc v = omega arith in later ∙ ap (λ (k : ℕ). some (k, n)) spot
]

pub locate_name-IsFirst :
    (name : Text) (nodes : List NodeSpec) (p : ℕ) (n : NodeSpec)
    → locate_name name nodes ≡ some (p, n)
    → IsFirst nodes name p n
unfolding locate_name
locate_name-IsFirst name nodes p n h = elim (Result-cases (new_identifier (text "node_id") name)) [
  | inr (error, e) ↦ cc (rw (locate_name, e) at h)
  | inl (id, e) ↦
      let (v, is, f) = locate-IsFirst 0 id nodes p n (rw (locate_name, e) at h) in
      let same : v ≡ p = omega (arith, is) in
      let (own, _) = new_identifier-IsIdentifier (text "node_id") name id e in
      subst (λ k. IsFirst nodes name k n) same (subst (λ k. IsFirst nodes k v n) own f)
]

pub at_first :
    (nodes : List NodeSpec) (id : NodeId) (v : ℕ) (n : NodeSpec)
    → locate 0 id nodes ≡ some (v, n)
    → IsFirst nodes id v n
at_first nodes id v n h =
    let (p, is, f) = locate-IsFirst 0 id nodes v n h in
    let same : p ≡ v = omega (arith, is) in subst (λ k. IsFirst nodes id k n) same f

located_once :
    (p q : ℕ) (x y : NodeSpec) → ◌≡◌ {A = Option (ℕ × NodeSpec)} (some (p, x)) (some (q, y)) → p ≡ q
located_once p q x y h = cc

pub same_place :
    (nodes : List NodeSpec) (id : NodeId) (u v : ℕ) (m n : NodeSpec)
    → IsFirst nodes id u m
    → IsFirst nodes id v n
    → u ≡ v
same_place nodes id u v m n f g =
    let both =
      located_once (0 + u) (0 + v) m n
        (sym (IsFirst-locate 0 id nodes u m f) ∙ IsFirst-locate 0 id nodes v n g) in
    omega (arith, both)
