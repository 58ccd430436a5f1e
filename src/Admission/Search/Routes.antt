-- ===== src/Admission/Search/Routes.antt =====
-- src/graph/mod.rs: `dependency_path` ends, with a chain of dependencies or where there is none.
use checkspan.Common.{
  ℕ, zero, suc, ◌+◌, ◌≤◌, ◌<◌, true, false, ◌||◌, List, [], ◌∷◌, ◌++◌, ◌≡◌, ◌≢◌, ◌⊎◌, refl, sym,
  subst, ap, arith, ◌==◌, nat_eq, length, All, contains, length-append, Bool-cases, List-cases, inl,
  inr, ==→≡, ==_self,
}
use mathlib.Core.List.{reverse, reverse-cons}
use checkspan.Common.Indexed.{
  get_or, contains-append, Within, count, tally_once, tally-eq-length, count-eq-contains,
}
use checkspan.Admission.Cycle.Closed.{Edge, Within-get_or}
use checkspan.Admission.Search.{
  Search, Scanned, climb, scan, PathSearch, search_path, dependency_path,
}

-- A chain from `a` to `b`: each node depends on the next.
abbrev pub Goes : (deps_of : List (List ℕ)) → ℕ → List ℕ → ℕ → Type 0
Goes deps_of x [] b = x ≡ b
Goes deps_of x (y ∷ rest) b = Edge deps_of x y × Goes deps_of y rest b

abbrev pub IsRoute : (deps_of : List (List ℕ)) → ℕ → List ℕ → ℕ → Type 0
IsRoute deps_of a [] b = ⊥
IsRoute deps_of a (x ∷ rest) b = (x ≡ a) × Goes deps_of x rest b

pub data DependsOn (deps_of : List (List ℕ)) (a : ℕ) : ℕ → Type 0 where
  direct : {b : ℕ} → Edge deps_of a b → DependsOn deps_of a b
  through : {b c : ℕ} → DependsOn deps_of a b → Edge deps_of b c → DependsOn deps_of a c

Scanned-cases :
    (r : Scanned)
    → ((path : List ℕ) × (r ≡ Scanned.reached path)) ⊎ ((t : Search) × (r ≡ Scanned.missed t))
Scanned-cases (Scanned.reached path) = inl (path, refl)
Scanned-cases (Scanned.missed t) = inr (t, refl)

module _ (deps_of : List (List ℕ)) where
  Goes-concat :
      (x : ℕ) (rest : List ℕ) (p v : ℕ)
      → Goes deps_of x rest p
      → Edge deps_of p v
      → Goes deps_of x (rest ++ v ∷ []) v
  Goes-concat x [] p v h e = (subst (λ (n : ℕ). Edge deps_of n v) (sym h) e, refl)
  Goes-concat x (y ∷ rest) p v h e = (h.0, Goes-concat y rest p v h.1 e)

  IsRoute-concat :
      (a : ℕ) (path : List ℕ) (p v : ℕ)
      → IsRoute deps_of a path p
      → Edge deps_of p v
      → IsRoute deps_of a (path ++ v ∷ []) v
  IsRoute-concat a [] p v h e = elim h [ ]
  IsRoute-concat a (x ∷ rest) p v h e = (h.0, Goes-concat x rest p v h.1 e)

  module _ (a to : ℕ) (apart : a ≢ to) where
    abbrev pub size : ℕ
    size = length deps_of

    record IsSearching (s : Search) : Type 0 where
      routes :
          (v : ℕ)
          → contains s.seen v ≡ true
          → IsRoute deps_of a (reverse (v ∷ climb s.previous v)) v
      once : (v : ℕ) → count v s.seen ≤ 1
      inside : Within size s.seen
      missing : contains s.seen to ≡ false
      source : contains s.seen a ≡ true
      queued : (v : ℕ) → contains s.queue v ≡ true → contains s.seen v ≡ true

    -- What the loop over the dependencies of `current` leaves, when it does not reach `to`.
    record Scans (deps : List ℕ) (s t : Search) : Type 0 where
      keeps : IsSearching t
      grown : length t.seen + length s.queue ≡ length s.seen + length t.queue
      seen_before : (v : ℕ) → contains s.seen v ≡ true → contains t.seen v ≡ true
      covered : (v : ℕ) → contains deps v ≡ true → contains t.seen v ≡ true
      still_queued : (v : ℕ) → contains s.queue v ≡ true → contains t.queue v ≡ true
      new_queued :
          (v : ℕ) → contains t.seen v ≡ true → (contains s.seen v || contains t.queue v) ≡ true

    abbrev Scan-Result : ℕ → List ℕ → Search → Scanned → Type 0
    Scan-Result current deps s (Scanned.reached path) = IsRoute deps_of a path to
    Scan-Result current deps s (Scanned.missed t) = Scans deps s t

    abbrev seeing : ℕ → ℕ → Search → Search
    seeing next current s = record {
      previous = (next, current) ∷ s.previous;
      queue = s.queue ++ next ∷ [];
      seen = next ∷ s.seen;
    }

    IsRoute-to_new :
        (s : Search) (current next : ℕ)
        → IsSearching s
        → contains s.seen current ≡ true
        → Edge deps_of current next
        → IsRoute deps_of a (reverse (next ∷ climb ((next, current) ∷ s.previous) next)) next
    unfolding climb
    IsRoute-to_new s current next h k edge =
        rw (==_self next, climb)
          (rw (reverse-cons next (current ∷ climb s.previous current)) (
            IsRoute-concat a (reverse (current ∷ climb s.previous current)) current next
              (h.routes current k) edge))

    seeing-IsSearching :
        (s : Search) (current next : ℕ)
        → IsSearching s
        → contains s.seen current ≡ true
        → Edge deps_of current next
        → next < size
        → contains s.seen next ≡ false
        → (next == to) ≡ false
        → IsSearching (seeing next current s)
    unfolding contains climb
    seeing-IsSearching s current next h k edge inside new other = record {
      routes = λ v m. elim (Bool-cases (next == v)) [
        | inl e ↦
            subst
              (λ (n : ℕ).
                IsRoute deps_of a (reverse (n ∷ climb ((next, current) ∷ s.previous) n)) n)
              (==→≡ next v e) (IsRoute-to_new s current next h k edge)
        | inr e ↦ rw (e, climb) (h.routes v (ground (arith, m, e)))
      ];
      once = λ v. ground (arith, h.once v, new, count-eq-contains v s.seen);
      inside = (inside, h.inside);
      missing = ground (arith, other, h.missing);
      source = ground (arith, h.source);
      queued = λ v q. ground (arith, q, contains-append s.queue (next ∷ []) v, h.queued v);
    }

    after_known :
        (current next : ℕ) (rest : List ℕ) (s : Search) (r : Scanned)
        → contains s.seen next ≡ true
        → Scan-Result current rest s r
        → Scan-Result current (next ∷ rest) s r
    unfolding contains
    after_known current next rest s (Scanned.reached path) e h = h
    after_known current next rest s (Scanned.missed t) e h = record {
      keeps = h.keeps;
      grown = h.grown;
      seen_before = h.seen_before;
      covered = λ v m. elim (Bool-cases (next == v)) [
        | inl f ↦ ground (arith, h.seen_before v, e, ==→≡ next v f)
        | inr f ↦ h.covered v (ground (arith, m, f))
      ];
      still_queued = h.still_queued;
      new_queued = h.new_queued;
    }

    after_new :
        (current next : ℕ) (rest : List ℕ) (s : Search) (r : Scanned)
        → Scan-Result current rest (seeing next current s) r
        → Scan-Result current (next ∷ rest) s r
    unfolding contains
    after_new current next rest s (Scanned.reached path) h = h
    after_new current next rest s (Scanned.missed t) h = record {
      keeps = h.keeps;
      grown = omega (arith, h.grown, length-append {0} s.queue (next ∷ []));
      seen_before = λ v m. h.seen_before v (ground (arith, m));
      covered = λ v m. ground (arith, m, h.seen_before v, h.covered v);
      still_queued =
          λ v m. h.still_queued v (ground (arith, m, contains-append s.queue (next ∷ []) v));
      new_queued = λ v m.
          ground (arith, h.new_queued v m, h.still_queued v, contains-append s.queue (next ∷ []) v);
    }

    scan_result :
        (current : ℕ) (deps : List ℕ) (s : Search)
        → IsSearching s
        → contains s.seen current ≡ true
        → ((v : ℕ) → contains deps v ≡ true → Edge deps_of current v)
        → Within size deps
        → Scan-Result current deps s (scan to current deps s)
    unfolding scan contains
    scan_result current [] s h k edges w = record {
      keeps = h;
      grown = refl;
      seen_before = λ v m. m;
      covered = λ v m. cc;
      still_queued = λ v m. m;
      new_queued = λ v m. ground (arith, m);
    }
    scan_result current (next ∷ rest) s h k edges w =
        let edge = edges next (ground (arith, ==_self next)) in
        let later = λ (v : ℕ) (m : contains rest v ≡ true). edges v (ground (arith, m)) in
        elim (Bool-cases (contains s.seen next)) [
          | inl e ↦
              rw (e, scan)
                (after_known current next rest s (scan to current rest s) e
                  (scan_result current rest s h k later w.1))
          | inr e ↦ elim (Bool-cases (next == to)) [
            | inl f ↦
                rw (e, f, scan)
                  (subst
                    (λ (n : ℕ).
                      IsRoute deps_of a (reverse (n ∷ climb ((next, current) ∷ s.previous) n)) n)
                    (==→≡ next to f) (IsRoute-to_new s current next h k edge))
            | inr f ↦
                let t = seeing next current s in
                rw (e, f, scan)
                  (after_new current next rest s (scan to current rest t) (
                    scan_result current rest t (seeing-IsSearching s current next h k edge w.0 e f)
                      (ground (arith, k)) later w.1))
          ]
        ]

    -- What the nodes that are seen and not queued depend on is seen.
    abbrev IsClosed : Search → Type 0
    IsClosed s =
        (u v : ℕ)
        → contains s.seen u ≡ true
        → contains s.queue u ≡ false
        → Edge deps_of u v
        → contains s.seen v ≡ true

    abbrev pub Search-Result : PathSearch → Type 0
    Search-Result (PathSearch.path path) = IsRoute deps_of a path to
    Search-Result PathSearch.no_path = ¬ DependsOn deps_of a to
    Search-Result PathSearch.out_of_fuel = ⊥

    seen_all :
        (s : Search)
        → IsSearching s
        → s.queue ≡ []
        → IsClosed s
        → (b : ℕ) → DependsOn deps_of a b
        → contains s.seen b ≡ true
    unfolding contains
    seen_all s h e closed b (DependsOn.direct edge) = closed a b h.source (rw e refl) edge
    seen_all s h e closed b (DependsOn.through {b = c} d edge) =
        closed c b (seen_all s h e closed c d) (rw e refl) edge

    closed_apart :
        (s : Search) → IsSearching s → s.queue ≡ [] → IsClosed s → ¬ DependsOn deps_of a to
    closed_apart s h e closed d = ground (arith, seen_all s h e closed to d, h.missing)

    popped :
        (s : Search) (current : ℕ) (rest : List ℕ)
        → s.queue ≡ current ∷ rest
        → IsSearching s
        → IsSearching (record s { queue = rest })
    unfolding contains
    popped s current rest e h = record {
      routes = h.routes;
      once = h.once;
      inside = h.inside;
      missing = h.missing;
      source = h.source;
      queued = λ v q. h.queued v (rw e (ground (arith, q)));
    }

    scanned-IsClosed :
        (s t : Search) (current : ℕ) (rest : List ℕ)
        → s.queue ≡ current ∷ rest
        → IsClosed s
        → Scans (get_or deps_of current []) (record s { queue = rest }) t
        → IsClosed t
    unfolding contains
    scanned-IsClosed s t current rest e closed h u v k out edge = elim (Bool-cases (current == u)) [
      | inl f ↦ h.covered v (subst (λ (n : ℕ). Edge deps_of n v) (sym (==→≡ current u f)) edge)
      | inr f ↦ h.seen_before v (
          closed u v (ground (arith, h.new_queued u k, out))
            (rw e (ground (arith, f, h.still_queued u, out))) edge)
    ]

    search_result :
        (fuel : ℕ) (s : Search)
        → IsSearching s
        → IsClosed s
        → size + length s.queue < fuel + length s.seen
        → All (Within size) deps_of
        → Search-Result (search_path fuel deps_of to s)
    unfolding search_path
    search_result zero s h closed m w =
        let few = tally_once size s.seen (λ v b. h.once v) in
        let impossible : ⊥ = omega (arith, m, few, tally-eq-length size s.seen h.inside) in
        elim impossible [ ]
    search_result (suc fuel) s h closed m w = elim (List-cases s.queue) [
      | inl e ↦ rw (e, search_path) (closed_apart s h e closed)
      | inr (current, rest, e) ↦
          let deps = get_or deps_of current [] in
          let before : Search = record s { queue = rest } in
          let own : contains s.queue current ≡ true = rw e (ground (arith, ==_self current)) in
          let scanned =
            scan_result current deps before (popped s current rest e h) (h.queued current own)
              (λ v k. k) (Within-get_or deps_of deps_of current w) in
          elim (Scanned-cases (scan to current deps before)) [
            | inl (path, f) ↦
                rw (e, search_path, f) (subst (Scan-Result current deps before) f scanned)
            | inr (t, f) ↦
                let scans : Scans deps before t =
                  subst (Scan-Result current deps before) f scanned in
                rw (e, search_path, f)
                  (search_result fuel t scans.keeps
                    (scanned-IsClosed s t current rest e closed scans)
                    (omega (arith, m, scans.grown, ap length e)) w)
          ]
    ]

    -- When every dependency is the index of a node, the search for a chain of dependencies from
    -- a node of the graph to another one ends: with a path from the one to the other on which
    -- each node depends on the next, or, when it gives none, where the first node does not
    -- depend on the other.
    pub dependency_path_exact :
        a < size → All (Within size) deps_of → Search-Result (dependency_path deps_of a to)
    unfolding dependency_path contains climb
    dependency_path_exact b w =
        search_result (suc size) (record { previous = []; queue = a ∷ []; seen = a ∷ [] })
          (record {
            routes = λ v k. (sym (==→≡ a v (ground (arith, k))), refl);
            once = λ v. ground arith;
            inside = (b, tt);
            missing = ground (arith, ==→≡ a to);
            source = ground (arith, ==_self a);
            queued = λ v q. q;
          })
          (λ u v k out edge. cc) (omega arith) w
