-- ===== src/Admission/Kahn/Order.antt =====
-- src/graph/mod.rs: the sort of `admit` ends, and what it leaves.
use checkspan.Common.{
  ℕ, zero, suc, ◌+◌, ◌-◌, ◌≤◌, ◌<◌, true, false, some, List, [], ◌∷◌, ◌++◌, ◌≡◌, refl, subst, ap,
  arith, ◌==◌, nat_eq, ltb, length, All, contains, if◌then◌else◌, length-append, List-cases, inl,
  inr,
}
use checkspan.Common.Indexed.{
  get_or, set, length-set, get_or-set, count, count-append, count-place, Within, Within-append,
  Within-place, Within-counts, tally-eq-length, tally_once, pending, pending-concat, pending-zero,
  pending-nil, contains-count, get_or_past,
}
use checkspan.Common.Sorting.{place}
use checkspan.Admission.Kahn.{Kahn, degrees, roots, release, kahn, start, sort_nodes}
use checkspan.Admission.Kahn.Counts.{degrees-Counted}

-- Each node stands after all its producers.
pub data Topological (deps_of : List (List ℕ)) : List ℕ → Type 0 where
  nothing : Topological deps_of []
  next :
      {order after : List ℕ} (i : ℕ)
      → Topological deps_of order
      → All (λ p. contains order p ≡ true) (get_or deps_of i [])
      → after ≡ order ++ i ∷ []
      → Topological deps_of after

abbrev pub at_zero : ℕ → ℕ
at_zero k = if k == 0 then 1 else 0

-- Taking the nodes `ds` off the counters: each falls by how often the node stands in `ds`, and a node
-- becomes ready when its counter falls to 0.
record Released (ds : List ℕ) (s t : Kahn) : Type 0 where
  size : length t.indegree ≡ length s.indegree
  order : t.order ≡ s.order
  inside : Within (length s.indegree) t.ready
  degree : (v : ℕ) → get_or t.indegree v 0 ≡ get_or s.indegree v 0 - count v ds
  ready :
      (v : ℕ)
      → count v t.ready + at_zero (get_or s.indegree v 0)
        ≡ count v s.ready + at_zero (get_or t.indegree v 0)

release-Released :
    (ds : List ℕ) (s : Kahn)
    → Within (length s.indegree) ds
    → Within (length s.indegree) s.ready
    → ((v : ℕ) → count v ds ≤ get_or s.indegree v 0)
    → Released ds s (release ds s)
unfolding release
release-Released [] s w r h = record {
  size = refl;
  order = refl;
  inside = r;
  degree = λ v. omega arith;
  ready = λ v. refl;
}
release-Released (d ∷ ds) s w r h =
    let fewer = get_or s.indegree d 0 - 1 in
    let one : Kahn = record s {
      indegree = set s.indegree d fewer;
      ready = if fewer == 0 then place ltb d s.ready else s.ready;
    } in
    let size : length one.indegree ≡ length s.indegree = length-set s.indegree d fewer in
    let ready : Within (length s.indegree) one.ready =
      ground (arith, Within-place ltb (length s.indegree) d s.ready w.0 r, r) in
    let later =
      release-Released ds one (rw size w.1) (rw size ready)
        (λ v. ground (arith, w.0, h v, get_or-set s.indegree d v fewer 0)) in
    record {
      size = omega (arith, size, later.size);
      order = later.order;
      inside = rw (← size) later.inside;
      degree = λ v. ground (arith, w.0, h v, later.degree v, get_or-set s.indegree d v fewer 0);
      ready = λ v. ground (
        arith,
        w.0,
        h v,
        h d,
        later.ready v,
        get_or-set s.indegree d v fewer 0,
        count-place ltb v d s.ready,
      );
    }

module _ (deps_of : List (List ℕ)) where
  abbrev size : ℕ
  size = length deps_of

  -- The counters count the producers that are still to come; a node is ready or placed, once, when
  -- its counter is 0.
  pub record IsSorting (s : Kahn) : Type 0 where
    pub degrees_size : length s.indegree ≡ size
    pub placed_inside : Within size s.order
    pub ready_inside : Within size s.ready
    pub degree : (v : ℕ) → get_or s.indegree v 0 ≡ pending s.order (get_or deps_of v [])
    pub once :
        (v : ℕ) → v < size → count v s.order + count v s.ready ≡ at_zero (get_or s.indegree v 0)
    pub order : Topological deps_of s.order

  roots_early : (i : ℕ) (indegree : List ℕ) (v : ℕ) → v < i → count v (roots i indegree) ≡ 0
  unfolding roots
  roots_early i [] v h = refl
  roots_early i (k ∷ indegree) v h = ground (arith, roots_early (suc i) indegree v)

  count-roots :
      (i : ℕ) (indegree : List ℕ) (v : ℕ)
      → count (i + v) (roots i indegree)
        ≡ (if ltb v (length indegree) then at_zero (get_or indegree v 0) else 0)
  unfolding roots
  count-roots i [] v = ground arith
  count-roots i (k ∷ indegree) zero = ground (arith, roots_early (suc i) indegree (i + 0))
  count-roots i (k ∷ indegree) (suc v) =
      let moved : i + suc v ≡ suc i + v = omega arith in
      rw moved (ground (arith, count-roots (suc i) indegree v))

  Within-roots :
      (n i : ℕ) (indegree : List ℕ) → i + length indegree ≤ n → Within n (roots i indegree)
  unfolding roots
  Within-roots n i [] h = tt
  Within-roots n i (k ∷ indegree) h =
      let later = Within-roots n (suc i) indegree (omega (arith, h)) in ground (arith, later, h)

  start-IsSorting : All (Within size) deps_of → IsSorting (start (degrees deps_of))
  unfolding start
  start-IsSorting w =
      let d = degrees deps_of in
      let counted = degrees-Counted deps_of w in
      record {
        degrees_size = counted.degrees_size;
        placed_inside = tt;
        ready_inside = Within-roots size 0 d.indegree (omega (arith, counted.degrees_size));
        degree = λ v. ground (arith, counted.degree v, pending-nil (get_or deps_of v []));
        once = λ v b. ground (arith, count-roots 0 d.indegree v, counted.degrees_size, b);
        order = Topological.nothing;
      }

  order-release : (ds : List ℕ) (s : Kahn) → (release ds s).order ≡ s.order
  unfolding release
  order-release [] s = refl
  order-release (d ∷ ds) s = order-release ds (record s {
    indegree = set s.indegree d (get_or s.indegree d 0 - 1);
    ready = if get_or s.indegree d 0 - 1 == 0 then place ltb d s.ready else s.ready;
  })

  module _ (w : All (Within size) deps_of) where
    abbrev after : ℕ → List ℕ
    after i = get_or (degrees deps_of).dependents i []

    after_inside : (i : ℕ) → Within size (after i)
    after_inside i = Within-counts size (after i) (λ v b.
        ground (arith, (degrees-Counted deps_of w).dependent v i, get_or_past deps_of v [], b))

    abbrev taken : Kahn → ℕ → List ℕ → Kahn
    taken s i rest = record s { ready = rest; order = s.order ++ i ∷ [] }

    round_keeps :
        (s : Kahn) (i : ℕ) (rest : List ℕ)
        → s.ready ≡ i ∷ rest
        → IsSorting s
        → IsSorting (release (after i) (taken s i rest))
    round_keeps s i rest e h =
        let counted = degrees-Counted deps_of w in
        let inside : Within size (i ∷ rest) = subst (Within size) e h.ready_inside in
        let here : count i s.order + suc (count i rest) ≡ at_zero (get_or s.indegree i 0) =
          ground (arith, h.once i inside.0, e) in
        let done : get_or s.indegree i 0 ≡ 0 = ground (arith, here) in
        let new : contains s.order i ≡ false = ground (arith, here, contains-count i s.order) in
        let falls = λ (v : ℕ). pending-concat s.order i (get_or deps_of v []) new in
        let t = taken s i rest in
        let same = h.degrees_size in
        let released =
          release-Released (after i) t (rw same (after_inside i)) (rw same inside.1)
            (λ v. omega (arith, counted.dependent v i, falls v, h.degree v)) in
        record {
          degrees_size = omega (arith, released.size, same);
          placed_inside =
              rw released.order
                (Within-append size s.order (i ∷ []) h.placed_inside (inside.0, tt));
          ready_inside = rw (← same) released.inside;
          degree = λ v.
              rw released.order
                (omega (arith, released.degree v, counted.dependent v i, falls v, h.degree v));
          once = λ v b.
              let before : count v s.order + count v (i ∷ rest) ≡ at_zero (get_or s.indegree v 0) =
                rw e at (h.once v b) in
              rw released.order
                (ground (arith, before, released.ready v, count-append v s.order (i ∷ [])));
          order =
              Topological.next i h.order
                (pending-zero s.order (get_or deps_of i []) (omega (arith, done, h.degree i)))
                released.order;
        }

    room : (s : Kahn) → IsSorting s → length s.order + length s.ready ≤ size
    room s h =
        let all = s.order ++ s.ready in
        let inside = Within-append size s.order s.ready h.placed_inside h.ready_inside in
        let few =
          tally_once size all (λ v b. ground (arith, h.once v b, count-append v s.order s.ready)) in
        omega (arith, few, tally-eq-length size all inside, length-append {0} s.order s.ready)

    kahn_ends :
        (fuel : ℕ) (s : Kahn)
        → IsSorting s
        → size ≤ fuel + length s.order
        → (t : Kahn) × (kahn fuel (degrees deps_of).dependents s ≡ some t)
          × IsSorting t
          × (t.ready ≡ [])
    unfolding kahn
    kahn_ends zero s h enough = elim (List-cases s.ready) [
      | inl e ↦ (s, simp (e, kahn), h, e)
      | inr (i, rest, e) ↦
          let impossible : ⊥ = omega (arith, enough, room s h, ap length e) in elim impossible [ ]
    ]
    kahn_ends (suc fuel) s h enough = elim (List-cases s.ready) [
      | inl e ↦ (s, simp (e, kahn), h, e)
      | inr (i, rest, e) ↦
          let t = release (after i) (taken s i rest) in
          let longer : length t.order ≡ suc (length s.order) = omega (
            arith,
            ap length (order-release (after i) (taken s i rest)),
            length-append {0} s.order (i ∷ []),
          ) in
          let (u, ends, kept, empty) =
            kahn_ends fuel t (round_keeps s i rest e h) (omega (arith, enough, longer)) in
          (u, rw (e, kahn) ends, kept, empty)
    ]

    pub sort_ends : (t : Kahn) × (sort_nodes deps_of ≡ some t) × IsSorting t × (t.ready ≡ [])
    unfolding sort_nodes start
    sort_ends = kahn_ends size (start (degrees deps_of)) (start-IsSorting w) (omega arith)
