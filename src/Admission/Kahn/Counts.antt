-- ===== src/Admission/Kahn/Counts.antt =====
-- src/graph/mod.rs: what `indegree` and `dependents` hold when the sort starts.
use checkspan.Common.{
  ℕ, zero, suc, ◌+◌, ◌<◌, List, [], ◌∷◌, ◌++◌, ◌≡◌, refl, arith, ◌==◌, nat_eq, length, All,
  if◌then◌else◌,
}
use checkspan.Common.Indexed.{
  get_or, set, replicate, length-set, length-replicate, get_or-replicate, get_or-set, count,
  count-append, Within,
}
use checkspan.Admission.Kahn.{Degrees, add_edges, add_all, degrees}

-- What the edges of `c` add to the counters, and to the lists of dependents.
record Added (n c : ℕ) (producers : List ℕ) (d e : Degrees) : Type 0 where
  degrees_size : length e.indegree ≡ n
  dependents_size : length e.dependents ≡ n
  degree :
      (v : ℕ)
      → get_or e.indegree v 0 ≡ get_or d.indegree v 0 + (if v == c then length producers else 0)
  dependent :
      (v p : ℕ)
      → count v (get_or e.dependents p [])
        ≡ count v (get_or d.dependents p []) + (if v == c then count p producers else 0)

add_edges-Added :
    (n c : ℕ) (producers : List ℕ) (d : Degrees)
    → c < n
    → Within n producers
    → length d.indegree ≡ n
    → length d.dependents ≡ n
    → Added n c producers d (add_edges c producers d)
unfolding add_edges
add_edges-Added n c [] d h w k m = record {
  degrees_size = k;
  dependents_size = m;
  degree = λ v. ground arith;
  dependent = λ v p. ground arith;
}
add_edges-Added n c (q ∷ producers) d h w k m =
    let one : Degrees = record {
      indegree = set d.indegree c (get_or d.indegree c 0 + 1);
      dependents = set d.dependents q (get_or d.dependents q [] ++ c ∷ []);
    } in
    let later =
      add_edges-Added n c producers one h w.1
        (omega (arith, k, length-set d.indegree c (get_or d.indegree c 0 + 1)))
        (omega (arith, m, length-set {0} d.dependents q (get_or d.dependents q [] ++ c ∷ []))) in
    record {
      degrees_size = later.degrees_size;
      dependents_size = later.dependents_size;
      degree = λ v.
          ground
            (arith, k, later.degree v, get_or-set d.indegree c v (get_or d.indegree c 0 + 1) 0);
      dependent = λ v p. ground (
        arith,
        m,
        w.0,
        later.dependent v p,
        get_or-set d.dependents q p (get_or d.dependents q [] ++ c ∷ []) [],
        count-append v (get_or d.dependents q []) (c ∷ []),
      );
    }

-- The entry of node `v` in a list whose first entry is that of node `c`.
unfoldable pub entry : ℕ → List (List ℕ) → ℕ → List ℕ
entry c [] v = []
entry c (producers ∷ rest) v = if v == c then producers else entry (suc c) rest v

pub entry_early : (c : ℕ) (rest : List (List ℕ)) (v : ℕ) → v < c → entry c rest v ≡ []
unfolding entry
entry_early c [] v h = refl
entry_early c (producers ∷ rest) v h = ground (arith, entry_early (suc c) rest v)

pub entry-get_or : (c : ℕ) (rest : List (List ℕ)) (k : ℕ) → entry c rest (c + k) ≡ get_or rest k []
unfolding entry
entry-get_or c [] k = refl
entry-get_or c (producers ∷ rest) zero = ground arith
entry-get_or c (producers ∷ rest) (suc k) =
    let moved : c + suc k ≡ suc c + k = omega arith in
    rw moved (ground (arith, entry-get_or (suc c) rest k))

record AllAdded (n c : ℕ) (rest : List (List ℕ)) (d e : Degrees) : Type 0 where
  degrees_size : length e.indegree ≡ n
  dependents_size : length e.dependents ≡ n
  degree : (v : ℕ) → get_or e.indegree v 0 ≡ get_or d.indegree v 0 + length (entry c rest v)
  dependent :
      (v p : ℕ)
      → count v (get_or e.dependents p [])
        ≡ count v (get_or d.dependents p []) + count p (entry c rest v)

add_all-AllAdded :
    (n c : ℕ) (rest : List (List ℕ)) (d : Degrees)
    → c + length rest ≡ n
    → All (Within n) rest
    → length d.indegree ≡ n
    → length d.dependents ≡ n
    → AllAdded n c rest d (add_all c rest d)
unfolding add_all entry
add_all-AllAdded n c [] d h w k m = record {
  degrees_size = k;
  dependents_size = m;
  degree = λ v. omega arith;
  dependent = λ v p. omega arith;
}
add_all-AllAdded n c (producers ∷ rest) d h w k m =
    let here = add_edges-Added n c producers d (omega (arith, h)) w.0 k m in
    let later =
      add_all-AllAdded n (suc c) rest (add_edges c producers d) (omega (arith, h)) w.1
        here.degrees_size here.dependents_size in
    record {
      degrees_size = later.degrees_size;
      dependents_size = later.dependents_size;
      degree = λ v. ground (arith, here.degree v, later.degree v, entry_early (suc c) rest v);
      dependent = λ v p.
          ground (arith, here.dependent v p, later.dependent v p, entry_early (suc c) rest v);
    }

-- The counter of a node is the number of its producers, and a node stands among the dependents of
-- another as often as that one among its producers.
pub record Counted (deps_of : List (List ℕ)) (d : Degrees) : Type 0 where
  pub degrees_size : length d.indegree ≡ length deps_of
  pub degree : (v : ℕ) → get_or d.indegree v 0 ≡ length (get_or deps_of v [])
  pub dependent : (v p : ℕ) → count v (get_or d.dependents p []) ≡ count p (get_or deps_of v [])

pub degrees-Counted :
    (deps_of : List (List ℕ))
    → All (Within (length deps_of)) deps_of
    → Counted deps_of (degrees deps_of)
unfolding degrees
degrees-Counted deps_of w =
    let n = length deps_of in
    let blank : Degrees = record { indegree = replicate n 0; dependents = replicate n [] } in
    let all =
      add_all-AllAdded n 0 deps_of blank (omega arith) w (length-replicate n 0)
        (length-replicate n []) in
    record {
      degrees_size = all.degrees_size;
      degree = λ v.
          ground (arith, all.degree v, get_or-replicate {A = ℕ} n 0 v, entry-get_or 0 deps_of v);
      dependent = λ v p. ground (
        arith,
        all.dependent v p,
        get_or-replicate {A = List ℕ} n [] p,
        entry-get_or 0 deps_of v,
      );
    }
