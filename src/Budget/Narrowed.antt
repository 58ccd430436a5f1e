-- ===== src/Budget/Narrowed.antt =====
-- src/budget/mod.rs: a narrowing only drops optional ports and only takes sources away.
use checkspan.Common.{
  Bool, true, false, not, Option, none, some, List, [], ◌∷◌, map, ◌≡◌, refl, sym, subst, ap, ◌∙◌,
  inl, inr, arith, Text, ◌==◌, ==→≡, ==_self, nat_eq, list_eq, find, keep, contains, is_empty, All,
  Memᴰ, ok, >>=_ok, or_fail, ok-injective, Bool-cases,
}
use checkspan.Common.Tables.{All-imp}
use checkspan.Contracts.Ids.{Ident}
use checkspan.Contracts.Node.{NodeSpec, PortSpec}
use checkspan.Budget.Status.{NarrowingError}
use checkspan.Budget.Narrow.{
  Narrowing, refuse_if, find_port, check_dropped, check_sources, restrict, restrict_all,
  check_narrowing,
}

-- Every text of the first list stands in the second.
abbrev pub Subset : List Text → List Text → Type 0
Subset xs ys = All (λ x. contains ys x ≡ true) xs

-- A declared port, with no source that it does not approve.
abbrev pub Narrows : List PortSpec → PortSpec → Type 0
Narrows declared p =
    (d : PortSpec) × Memᴰ d declared
    × (p ≡ record d { allowed_source_scope = p.allowed_source_scope })
    × Subset p.allowed_source_scope d.allowed_source_scope

-- A declared port that is not required.
abbrev pub Optional : List PortSpec → Ident → Type 0
Optional declared port = (d : PortSpec) × (find_port port declared ≡ some d) × (d.required ≡ false)

contains-Subset :
    (xs ys : List Text) (t : Text) → Subset xs ys → contains xs t ≡ true → contains ys t ≡ true
unfolding contains
contains-Subset [] ys t p h = cc
contains-Subset (x ∷ xs) ys t (p, ps) h = elim (Bool-cases (x == t)) [
  | inl e ↦ subst (λ y. contains ys y ≡ true) (==→≡ x t e) p
  | inr e ↦ contains-Subset xs ys t ps (ground arith)
]

Subset_trans : (xs ys zs : List Text) → Subset xs ys → Subset ys zs → Subset xs zs
Subset_trans xs ys zs p q = All-imp (λ t. contains-Subset ys zs t q) xs p

Subset_more : (xs ys : List Text) (y : Text) → Subset xs ys → Subset xs (y ∷ ys)
unfolding contains
Subset_more xs ys y p = All-imp (λ t h. ground arith) xs p

Subset_self : (xs : List Text) → Subset xs xs
unfolding contains
Subset_self [] = tt
Subset_self (x ∷ xs) = (ground (arith, ==_self x), Subset_more xs xs x (Subset_self xs))

refused_not : (b : Bool) (e : NarrowingError) (u : Unit {0}) → refuse_if b e ≡ ok u → b ≡ false
refused_not true e u h = cc
refused_not false e u h = refl

found : {A : Type 0} (o : Option A) (e : NarrowingError) (a : A) → or_fail o e ≡ ok a → o ≡ some a
found none e a h = cc
found (some x) e a h = ground arith

check_dropped-Optional :
    (declared : List PortSpec) (seen dropped : List Ident)
    → check_dropped declared seen dropped ≡ ok tt
    → All (Optional declared) dropped
unfolding check_dropped
check_dropped-Optional declared seen [] h = tt
check_dropped-Optional declared seen (port ∷ rest) h =
    let (u₁, new, h₁) = >>=_ok (refuse_if (contains seen port) _) _ h in
    let (d, known, h₂) = >>=_ok (or_fail (find_port port declared) _) _ h₁ in
    let (u₂, optional, h₃) = >>=_ok (refuse_if d.required _) _ h₂ in
    (
      (d, found _ _ d known, refused_not d.required _ u₂ optional),
      check_dropped-Optional declared (port ∷ seen) rest h₃,
    )

check_sources_subset :
    (port : Ident) (approved sources : List Text)
    → check_sources port approved sources ≡ ok tt
    → Subset sources approved
unfolding check_sources
check_sources_subset port approved [] h = tt
check_sources_subset port approved (source ∷ rest) h =
    let (u, allowed, h₁) = >>=_ok (refuse_if (not (contains approved source)) _) _ h in
    let kept = refused_not (not (contains approved source)) _ u allowed in
    (ground arith, check_sources_subset port approved rest h₁)

restrict-Narrows :
    (declared : List PortSpec) (port : Ident) (sources : List Text) (ports : List PortSpec)
    (effective : PortSpec)
    → find_port port ports ≡ some effective
    → Subset sources effective.allowed_source_scope
    → All (Narrows declared) ports
    → All (Narrows declared) (restrict port sources ports)
unfolding restrict find
restrict-Narrows declared port sources [] effective h within all = tt
restrict-Narrows declared port sources (p ∷ ports) effective h within ((d, m, same, scope), all) =
    elim (Bool-cases (p.name == port)) [
      | inl e ↦
          let is : p ≡ effective = ground arith in
          let here =
            subst (λ (q : PortSpec). Subset sources q.allowed_source_scope) (sym is) within in
          let whole =
            Subset_trans sources p.allowed_source_scope d.allowed_source_scope here scope in
          rw (restrict, e)
            (
              (
                d,
                m,
                ap (λ (q : PortSpec). record q { allowed_source_scope = sources }) same,
                whole,
              ),
              all,
            )
      | inr e ↦
          let later : find_port port ports ≡ some effective = ground arith in
          rw (restrict, e)
            (
              (d, m, same, scope),
              restrict-Narrows declared port sources ports effective later within all,
            )
    ]

restrict_names :
    (port : Ident) (sources : List Text) (ports : List PortSpec)
    → map (λ p. p.name) (restrict port sources ports) ≡ map (λ p. p.name) ports
unfolding restrict
restrict_names port sources [] = refl
restrict_names port sources (p ∷ ports) = elim (Bool-cases (p.name == port)) [
  | inl e ↦ rw (map, restrict, e) refl
  | inr e ↦ rw (map, restrict, e) (ap (λ names. p.name ∷ names) (restrict_names port sources ports))
]

restrict_all-Narrows :
    (declared : List PortSpec) (dropped restricted : List Ident) (wanted : List (Ident × List Text))
    (ports result : List PortSpec)
    → restrict_all dropped restricted wanted ports ≡ ok result
    → All (Narrows declared) ports
    → All (Narrows declared) result × (map (λ p. p.name) result ≡ map (λ p. p.name) ports)
unfolding restrict_all
restrict_all-Narrows declared dropped restricted [] ports result h all =
    let same : ports ≡ result = ok-injective h in
    (subst (All (Narrows declared)) same all, ap (map (λ p. p.name)) (sym same))
restrict_all-Narrows declared dropped restricted ((port, sources) ∷ rest) ports result h all =
    let (u₁, new, h₁) = >>=_ok (refuse_if (contains restricted port) _) _ h in
    let (u₂, kept, h₂) = >>=_ok (refuse_if (contains dropped port) _) _ h₁ in
    let (effective, known, h₃) = >>=_ok (or_fail (find_port port ports) _) _ h₂ in
    let (u₃, some_left, h₄) = >>=_ok (refuse_if (is_empty sources) _) _ h₃ in
    let (u₄, within, h₅) =
      >>=_ok (check_sources port effective.allowed_source_scope sources) _ h₄ in
    let subset = check_sources_subset port effective.allowed_source_scope sources within in
    let narrower =
      restrict-Narrows declared port sources ports effective (found _ _ effective known) subset
        all in
    let (final, names) =
      restrict_all-Narrows declared dropped (port ∷ restricted) rest (restrict port sources ports)
        result h₅ narrower in
    (final, names ∙ restrict_names port sources ports)

keep-Narrows :
    (p : PortSpec → Bool) (declared rest : List PortSpec)
    → All (λ d. Memᴰ d declared) rest
    → All (Narrows declared) (keep p rest)
unfolding keep
keep-Narrows p declared [] all = tt
keep-Narrows p declared (d ∷ rest) (m, all) = elim (Bool-cases (p d)) [
  | inl e ↦
      rw (keep, e)
        ((d, m, refl, Subset_self d.allowed_source_scope), keep-Narrows p declared rest all)
  | inr e ↦ rw (keep, e) (keep-Narrows p declared rest all)
]

all_members : (ports : List PortSpec) → All (λ d. Memᴰ d ports) ports
all_members [] = tt
all_members (d ∷ ports) = (Memᴰ.head refl, All-imp (λ x m. Memᴰ.tail m) ports (all_members ports))

-- When a narrowing passes `check_narrowing`, each port that it leaves is a declared port of the
-- node with at most the sources approved for it and nothing else changed, the ports left are the
-- declared ones that were not dropped, in their order, and every dropped port is declared and
-- not required.
pub check_narrowing-Narrows :
    (node : NodeSpec) (n : Narrowing) (ports : List PortSpec)
    → check_narrowing node n ≡ ok ports
    → All (Narrows node.evidence_ports) ports
      × (map (λ p. p.name) ports
          ≡ map
              (λ p. p.name)
              (keep (λ p. not (contains n.dropped_ports p.name)) node.evidence_ports))
      × All (Optional node.evidence_ports) n.dropped_ports
unfolding check_narrowing
check_narrowing-Narrows node n ports h =
    let (u, dropped, h₁) = >>=_ok (check_dropped node.evidence_ports [] n.dropped_ports) _ h in
    let offered =
      keep-Narrows (λ p. not (contains n.dropped_ports p.name)) node.evidence_ports
        node.evidence_ports (all_members node.evidence_ports) in
    let (narrow, names) =
      restrict_all-Narrows node.evidence_ports n.dropped_ports [] n.restricted_sources _ ports h₁
        offered in
    (narrow, names, check_dropped-Optional node.evidence_ports [] n.dropped_ports dropped)
