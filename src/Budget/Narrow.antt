-- ===== src/Budget/Narrow.antt =====
-- src/budget/mod.rs: `check_narrowing`, which lets a retry see less and never more.
use checkspan.Common.{
  Bool, true, false, not, Option, List, [], ◌∷◌, Text, ◌==◌, nat_eq, list_eq, find, keep, contains,
  is_empty, if◌then◌else◌, Result, ok, err, ◌>>=◌, or_fail,
}
use checkspan.Contracts.Ids.{Ident}
use checkspan.Contracts.Node.{NodeSpec, PortSpec}
use checkspan.Budget.Status.{
  NarrowingError, unknown_port, required_port, duplicate_port, restricted_and_dropped,
  empty_sources, widens_scope,
}

pub record Narrowing : Type 0 where
  pub repair_hint : Option Text
  pub dropped_ports : List Ident
  pub restricted_sources : List (Ident × List Text)

abbrev pub refuse_if : Bool → NarrowingError → Result (Unit {0}) NarrowingError
refuse_if b e = if b then err e else ok tt

abbrev pub find_port : Ident → List PortSpec → Option PortSpec
find_port name ports = find (λ p. p.name == name) ports

-- The loop over `dropped_ports`, with the set `seen`.
unfoldable pub check_dropped :
    List PortSpec → List Ident → List Ident → Result (Unit {0}) NarrowingError
unfolding contains find
check_dropped ports seen [] = ok tt
check_dropped ports seen (port ∷ rest) = do
  _ ← refuse_if (contains seen port) (duplicate_port port)
  declared ← or_fail (find_port port ports) (unknown_port port)
  _ ← refuse_if declared.required (required_port port)
  check_dropped ports (port ∷ seen) rest

-- The loop over the sources of one port.
unfoldable pub check_sources : Ident → List Text → List Text → Result (Unit {0}) NarrowingError
unfolding contains
check_sources port approved [] = ok tt
check_sources port approved (source ∷ rest) = do
  _ ← refuse_if (not (contains approved source)) (widens_scope port source)
  check_sources port approved rest

-- `effective.allowed_source_scope = sources`, on the first port of the name.
unfoldable pub restrict : Ident → List Text → List PortSpec → List PortSpec
restrict port sources [] = []
restrict port sources (p ∷ ports) =
    let later = p ∷ restrict port sources ports in
    elim (p.name == port) [
      | true ↦ record p { allowed_source_scope = sources } ∷ ports
      | false ↦ later
    ]

-- The loop over `restricted_sources`, with the set `restricted`.
unfoldable pub restrict_all :
    List Ident
    → List Ident
    → List (Ident × List Text)
    → List PortSpec
    → Result (List PortSpec) NarrowingError
unfolding contains check_sources restrict find
restrict_all dropped restricted [] ports = ok ports
restrict_all dropped restricted ((port, sources) ∷ rest) ports = do
  _ ← refuse_if (contains restricted port) (duplicate_port port)
  _ ← refuse_if (contains dropped port) (restricted_and_dropped port)
  effective ← or_fail (find_port port ports) (unknown_port port)
  _ ← refuse_if (is_empty sources) (empty_sources port)
  _ ← check_sources port effective.allowed_source_scope sources
  restrict_all dropped (port ∷ restricted) rest (restrict port sources ports)

unfoldable pub check_narrowing : NodeSpec → Narrowing → Result (List PortSpec) NarrowingError
unfolding check_dropped restrict_all keep contains
check_narrowing node n = do
  _ ← check_dropped node.evidence_ports [] n.dropped_ports
  restrict_all n.dropped_ports [] n.restricted_sources
      (keep (λ p. not (contains n.dropped_ports p.name)) node.evidence_ports)
