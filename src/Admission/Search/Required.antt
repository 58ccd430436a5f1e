-- ===== src/Admission/Search/Required.antt =====
-- src/graph/mod.rs: the loop that fills `required` ends, and collects what the targets depend on.
use checkspan.Common.{
  ℕ, zero, suc, ◌+◌, ◌≤◌, true, false, ◌||◌, some, List, [], ◌∷◌, ◌++◌, ◌≡◌, ◌↔◌, refl, sym, subst,
  ap, arith, ◌==◌, nat_eq, length, contains, if◌then◌else◌, length-append, Bool-cases, inl, inr,
  ==→≡, ==_self,
}
use checkspan.Common.Indexed.{get_or, contains-append}
use checkspan.Admission.Kahn.Counts.{entry, entry_early, entry-get_or}
use checkspan.Admission.Cycle.Closed.{Edge}
use checkspan.Admission.Search.{collect, edges_in, required_by}

-- The targets and what they depend on, directly or through others.
pub data Needed (deps_of : List (List ℕ)) (targets : List ℕ) : ℕ → Type 0 where
  target : {i : ℕ} → contains targets i ≡ true → Needed deps_of targets i
  producer : {i p : ℕ} → Needed deps_of targets i → Edge deps_of i p → Needed deps_of targets p

-- The dependencies of the nodes that are not taken yet, from the node at index `c` on.
left : ℕ → List ℕ → List (List ℕ) → ℕ
left c required [] = 0
left c required (ps ∷ rest) =
    (if contains required c then 0 else length ps) + left (suc c) required rest

left_falls :
    (c : ℕ) (required : List ℕ) (i : ℕ) (rest : List (List ℕ))
    → contains required i ≡ false
    → left c (i ∷ required) rest + length (entry c rest i) ≡ left c required rest
unfolding left entry contains
left_falls c required i [] h = refl
left_falls c required i (ps ∷ rest) h = elim (Bool-cases (i == c)) [
  | inl e ↦
      let same = ==→≡ i c e in
      let none_later = entry_early (suc c) rest i (omega (arith, same)) in
      ground (arith, h, e, same, left_falls (suc c) required i rest h, ap {B = ℕ} length none_later)
  | inr e ↦ ground (arith, e, left_falls (suc c) required i rest h)
]

entry_at : (i : ℕ) (deps_of : List (List ℕ)) → entry 0 deps_of i ≡ get_or deps_of i []
entry_at i deps_of =
    let same : 0 + i ≡ i = omega arith in
    subst (λ n. entry 0 deps_of n ≡ get_or deps_of i []) same (entry-get_or 0 deps_of i)

left_start : (c : ℕ) (rest : List (List ℕ)) → left c [] rest ≡ edges_in rest
unfolding left contains
left_start c [] = refl
left_start c (ps ∷ rest) = omega (arith, left_start (suc c) rest)

module _ (deps_of : List (List ℕ)) (targets : List ℕ) where
  -- What is collected is needed, and what it needs is collected or stands in the queue.
  pub record Collects (required queue : List ℕ) : Type 0 where
    pub sound :
        (v : ℕ) → (contains required v || contains queue v) ≡ true → Needed deps_of targets v
    pub targets_in :
        (v : ℕ) → contains targets v ≡ true → (contains required v || contains queue v) ≡ true
    pub closed :
        (u v : ℕ)
        → contains required u ≡ true
        → Edge deps_of u v
        → (contains required v || contains queue v) ≡ true

  sound_after :
      (required : List ℕ) (i : ℕ) (queue : List ℕ)
      → contains required i ≡ false
      → Collects required (i ∷ queue)
      → (v : ℕ) → (contains (i ∷ required) v || contains (queue ++ get_or deps_of i []) v) ≡ true
      → Needed deps_of targets v
  unfolding contains
  sound_after required i queue e h v k = elim (Bool-cases (contains (get_or deps_of i []) v)) [
    | inl edge ↦ Needed.producer (h.sound i (ground (arith, ==_self i))) edge
    | inr other ↦
        h.sound v (ground (arith, k, other, contains-append queue (get_or deps_of i []) v))
  ]

  closed_after :
      (required : List ℕ) (i : ℕ) (queue : List ℕ)
      → Collects required (i ∷ queue)
      → (u v : ℕ) → contains (i ∷ required) u ≡ true
      → Edge deps_of u v
      → (contains (i ∷ required) v || contains (queue ++ get_or deps_of i []) v) ≡ true
  unfolding contains
  closed_after required i queue h u v k edge = elim (Bool-cases (i == u)) [
    | inl e ↦
        let here : contains (get_or deps_of i []) v ≡ true =
          subst (λ (n : ℕ). Edge deps_of n v) (sym (==→≡ i u e)) edge in
        ground (arith, here, contains-append queue (get_or deps_of i []) v)
    | inr e ↦
        ground (arith, k, e, h.closed u v, edge, contains-append queue (get_or deps_of i []) v)
  ]

  collect_ends :
      (fuel : ℕ) (required queue : List ℕ)
      → length queue + left 0 required deps_of ≤ fuel
      → Collects required queue
      → (r : List ℕ) × (collect fuel deps_of required queue ≡ some r) × Collects r []
  unfolding collect contains
  collect_ends zero required [] m h = (required, refl, h)
  collect_ends (suc fuel) required [] m h = (required, refl, h)
  collect_ends zero required (i ∷ queue) m h =
      let impossible : ⊥ = omega (arith, m) in elim impossible [ ]
  collect_ends (suc fuel) required (i ∷ queue) m h = elim (Bool-cases (contains required i)) [
    | inl e ↦
        let (r, same, ends) = collect_ends fuel required queue (omega (arith, m)) (record {
          sound = λ v k. h.sound v (ground (arith, k));
          targets_in = λ v k. ground (arith, h.targets_in v k, ==→≡ i v, e);
          closed = λ u v k edge. ground (arith, h.closed u v k edge, ==→≡ i v, e);
        }) in
        (r, rw (e, collect) same, ends)
    | inr e ↦
        let more = get_or deps_of i [] in
        let falls = left_falls 0 required i deps_of e in
        let (r, same, ends) =
          collect_ends fuel (i ∷ required) (queue ++ more)
            (omega (
              arith,
              m,
              falls,
              ap {B = ℕ} length (entry_at i deps_of),
              length-append {0} queue more,
            ))
            (record {
              sound = λ v k. sound_after required i queue e h v k;
              targets_in = λ v k. ground (arith, h.targets_in v k, contains-append queue more v);
              closed = λ u v k edge. closed_after required i queue h u v k edge;
            }) in
        (r, rw (e, collect) same, ends)
  ]

module _ (deps_of : List (List ℕ)) (targets : List ℕ) where
  Needed-Collects :
      (r : List ℕ)
      → Collects deps_of targets r []
      → (v : ℕ) → Needed deps_of targets v
      → contains r v ≡ true
  unfolding contains
  Needed-Collects r h v (Needed.target k) = ground (arith, h.targets_in v k)
  Needed-Collects r h v (Needed.producer {i = i} n edge) =
      ground (arith, h.closed i v (Needed-Collects r h i n) edge)

  pub required_by_exact :
      (r : List ℕ) × (required_by deps_of targets ≡ some r)
      × ((v : ℕ) → (contains r v ≡ true) ↔ Needed deps_of targets v)
  unfolding required_by contains
  required_by_exact =
      let (r, same, ends) =
        collect_ends deps_of targets (length targets + edges_in deps_of) [] targets
          (omega (arith, left_start 0 deps_of))
          (record {
            sound = λ v k. Needed.target k;
            targets_in = λ v k. k;
            closed = λ u v k edge. cc;
          }) in
      (r, same, (λ v. (λ k. ends.sound v (ground (arith, k)), Needed-Collects r ends v)))
