-- ===== src/Admission/Cycle/Closed.antt =====
-- src/graph/mod.rs: the walk among the nodes left over ends, and its path is a cycle.
use checkspan.Common.{
  ℕ, zero, suc, ◌+◌, ◌≤◌, ◌<◌, true, none, some, List, [], ◌∷◌, ◌++◌, ◌≡◌, refl, sym, subst, ap,
  arith, ◌==◌, ==→≡, nat_eq, length, All, contains, find, length-append, Bool-cases, Option-cases,
  inl, inr,
}
use checkspan.Common.Indexed.{
  get_or, drop, below, count, count-append, Within, Within-append, Within-contains, tally-eq-length,
  tally_once, tally_full, pending_positive, contains-below, below-Within, find-some, find-none,
  count-eq-contains,
}
use checkspan.Admission.Kahn.{Kahn}
use checkspan.Admission.Kahn.Order.{IsSorting}
use checkspan.Admission.Cycle.{remains, place_in, CycleSearch, follow, find_cycle}

module _ (deps_of : List (List ℕ)) where
  abbrev size : ℕ
  size = length deps_of

  abbrev pub Edge : ℕ → ℕ → Type 0
  Edge a b = contains (get_or deps_of a []) b ≡ true

  -- Each node of the path depends on the next, and the last on `to`.
  abbrev pub LeadsTo : List ℕ → ℕ → Type 0
  LeadsTo [] to = ⊥
  LeadsTo (x ∷ []) to = Edge x to
  LeadsTo (x ∷ y ∷ rest) to = Edge x y × LeadsTo (y ∷ rest) to

  -- Each node depends on the next and the last depends on the first.
  abbrev pub IsCycle : List ℕ → Type 0
  IsCycle [] = ⊥
  IsCycle (x ∷ rest) = LeadsTo (x ∷ rest) x

  LeadsTo-concat :
      (path : List ℕ) (next to : ℕ)
      → LeadsTo path next
      → Edge next to
      → LeadsTo (path ++ next ∷ []) to
  LeadsTo-concat [] next to h e = elim h [ ]
  LeadsTo-concat (x ∷ []) next to h e = (h, e)
  LeadsTo-concat (x ∷ y ∷ rest) next to h e = (h.0, LeadsTo-concat (y ∷ rest) next to h.1 e)

  LeadsTo-rest :
      (x : ℕ) (rest : List ℕ) (a k : ℕ)
      → place_in a rest ≡ some k
      → LeadsTo (x ∷ rest) a
      → LeadsTo rest a
  unfolding place_in
  LeadsTo-rest x [] a k found h = cc
  LeadsTo-rest x (y ∷ rest) a k found h = h.1

  place_in-IsCycle :
      (path : List ℕ) (a position : ℕ)
      → place_in a path ≡ some position
      → LeadsTo path a
      → IsCycle (drop position path)
  unfolding place_in
  place_in-IsCycle [] a position found h = elim h [ ]
  place_in-IsCycle (x ∷ rest) a position found h = elim (Bool-cases (x == a)) [
    | inl e ↦
        let first : position ≡ 0 = ground (arith, found, e) in
        rw first (subst (LeadsTo (x ∷ rest)) (sym (==→≡ x a e)) h)
    | inr e ↦ elim (Option-cases (place_in a rest)) [
      | inl f ↦ ground (arith, found, e, f)
      | inr (k, f) ↦
          let later : position ≡ suc k = ground (arith, found, e, f) in
          rw later (place_in-IsCycle rest a k f (LeadsTo-rest x rest a k f h))
    ]
  ]

  place_in-none : (path : List ℕ) (a : ℕ) → place_in a path ≡ none → count a path ≡ 0
  unfolding place_in
  place_in-none [] a h = refl
  place_in-none (x ∷ rest) a h = ground (arith, place_in-none rest a)

  pub Within-get_or :
      (rest : List (List ℕ)) (v : ℕ) → All (Within size) rest → Within size (get_or rest v [])
  Within-get_or [] v k = tt
  Within-get_or (ps ∷ rest) zero k = k.0
  Within-get_or (ps ∷ rest) (suc v) k = Within-get_or rest v k.1

  -- The nodes that the sort leaves: each is below the number of nodes and depends on another.
  module _ (w : All (Within size) deps_of) (s : Kahn) (h : IsSorting deps_of s)
      (empty : s.ready ≡ []) where
    goes_on :
        (v : ℕ)
        → remains s.indegree v ≡ true
        → (p : ℕ) × (find (remains s.indegree) (get_or deps_of v []) ≡ some p)
          × Edge v p
          × (remains s.indegree p ≡ true)
          × (p < size)
    goes_on v r =
        let (q, among, new) =
          pending_positive s.order (get_or deps_of v []) (ground (arith, r, h.degree v)) in
        let inside =
          Within-contains size (get_or deps_of v []) q (Within-get_or deps_of v w) among in
        let left : remains s.indegree q ≡ true =
          ground (arith, h.once q inside, ap (count q) empty, new, count-eq-contains q s.order) in
        elim (Option-cases (find (remains s.indegree) (get_or deps_of v []))) [
          | inl e ↦
              ground (arith, left, find-none (remains s.indegree) (get_or deps_of v []) q e among)
          | inr (p, e) ↦
              let found = find-some (remains s.indegree) (get_or deps_of v []) p e in
              (
                p,
                e,
                found.0,
                found.1,
                Within-contains size (get_or deps_of v []) p (Within-get_or deps_of v w) found.0,
              )
        ]

    follow_closes :
        (fuel : ℕ) (path : List ℕ) (current : ℕ)
        → Within size path
        → ((v : ℕ) → count v path ≤ 1)
        → ((to : ℕ) → Edge current to → LeadsTo path to)
        → remains s.indegree current ≡ true
        → size < fuel + length path
        → (found : List ℕ) × (follow fuel deps_of s.indegree path current
            ≡ CycleSearch.closed found)
          × IsCycle found
    unfolding follow
    follow_closes zero path current inside once leads r enough =
        let few = tally_once size path (λ v b. once v) in
        let impossible : ⊥ = omega (arith, enough, few, tally-eq-length size path inside) in
        elim impossible [ ]
    follow_closes (suc fuel) path current inside once leads r enough =
        let (next, found, edge, remaining, below_size) = goes_on current r in
        elim (Option-cases (place_in next path)) [
          | inr (position, e) ↦ (
            drop position path,
            rw (found, e, follow) refl,
            place_in-IsCycle path next position e (leads next edge),
          )
          | inl e ↦
              let longer = path ++ next ∷ [] in
              let (cycle, same, closes) =
                follow_closes fuel longer next
                  (Within-append size path (next ∷ []) inside (below_size, tt))
                  (λ v.
                    ground
                      (arith, once v, place_in-none path next e, count-append v path (next ∷ [])))
                  (λ to out. LeadsTo-concat path next to (leads next edge) out) remaining
                  (omega (arith, enough, length-append {0} path (next ∷ []))) in
              (cycle, rw (found, e, follow) same, closes)
        ]

    pub find_cycle_closes :
        length s.order < size
        → (found : List ℕ) × (find_cycle deps_of s.indegree ≡ CycleSearch.closed found)
          × IsCycle found
    unfolding find_cycle
    find_cycle_closes fewer = elim (Option-cases (find (remains s.indegree) (below size))) [
      | inl e ↦
          let placed = λ (v : ℕ) (b : v < size).
            let gone = find-none (remains s.indegree) (below size) v e (contains-below size v b) in
            let one : count v s.order ≡ 1 = ground (arith, gone, h.once v b, ap (count v) empty) in
            one in
          let full = tally_full size s.order placed in
          let impossible : ⊥ =
            omega (arith, fewer, full, tally-eq-length size s.order h.placed_inside) in
          elim impossible [ ]
      | inr (first, e) ↦
          let found = find-some (remains s.indegree) (below size) first e in
          let below_size =
            Within-contains size (below size) first (below-Within size size (omega arith))
              found.0 in
          let (cycle, same, closes) =
            follow_closes size (first ∷ []) first (below_size, tt) (λ v. ground arith)
              (λ to out. out) found.1 (omega arith) in
          (cycle, rw (e, find_cycle) same, closes)
    ]
