-- ===== src/Contracts/Refs.antt =====
-- The references that the records of src/contracts hold, from graph.rs, node.rs and attempt.rs, and
-- the equality that Rust derives for each.
use checkspan.Common.{ℕ, Bool, true, ◌&&◌, ◌≡◌, arith, Eq, ◌==◌, ==→≡, ==_self, nat_eq, list_eq}
use checkspan.Contracts.Ids.{Ident, GraphId, NodeId, RunId, Digest}

pub record GraphRef : Type 0 where
  pub graph_id : GraphId
  pub revision : ℕ

pub record NodeRef : Type 0 where
  pub graph_id : GraphId
  pub node_id : NodeId
  pub revision : ℕ

pub record AttemptRef : Type 0 where
  pub run_id : RunId
  pub node : NodeRef
  pub number : ℕ

pub record ReceiptRef : Type 0 where
  pub id : Ident
  pub run_id : RunId
  pub node : NodeRef

pub record TypeRef : Type 0 where
  pub schema_id : Ident
  pub version : ℕ
  pub digest : Digest

pub record VerifierRef : Type 0 where
  pub id : Ident
  pub version : ℕ
  pub digest : Digest

pub record PolicyRef : Type 0 where
  pub id : Ident
  pub version : ℕ

unfoldable pub graph_ref_beq : GraphRef → GraphRef → Bool
graph_ref_beq a b = (a.graph_id == b.graph_id) && (a.revision == b.revision)

pub graph_ref_beq_sound : (a b : GraphRef) → graph_ref_beq a b ≡ true → a ≡ b
unfolding graph_ref_beq
graph_ref_beq_sound a b h = ground (arith, ==→≡ a.graph_id b.graph_id, ==→≡ a.revision b.revision)

pub graph_ref_beq_refl : (a : GraphRef) → graph_ref_beq a a ≡ true
unfolding graph_ref_beq
graph_ref_beq_refl a = ground (arith, ==_self a.graph_id, ==_self a.revision)

instance abbrev pub graph_ref_eq : Eq GraphRef
graph_ref_eq = record {
  beq = graph_ref_beq;
  beq_sound = graph_ref_beq_sound;
  beq_refl = graph_ref_beq_refl;
}

unfoldable pub node_ref_beq : NodeRef → NodeRef → Bool
node_ref_beq a b =
    (a.graph_id == b.graph_id) && (a.node_id == b.node_id) && (a.revision == b.revision)

pub node_ref_beq_sound : (a b : NodeRef) → node_ref_beq a b ≡ true → a ≡ b
unfolding node_ref_beq
node_ref_beq_sound a b h =
    ground (arith, ==→≡ a.graph_id b.graph_id, ==→≡ a.node_id b.node_id, ==→≡ a.revision b.revision)

pub node_ref_beq_refl : (a : NodeRef) → node_ref_beq a a ≡ true
unfolding node_ref_beq
node_ref_beq_refl a = ground (arith, ==_self a.graph_id, ==_self a.node_id, ==_self a.revision)

instance abbrev pub node_ref_eq : Eq NodeRef
node_ref_eq = record {
  beq = node_ref_beq;
  beq_sound = node_ref_beq_sound;
  beq_refl = node_ref_beq_refl;
}

unfoldable pub attempt_ref_beq : AttemptRef → AttemptRef → Bool
attempt_ref_beq a b = (a.run_id == b.run_id) && (a.node == b.node) && (a.number == b.number)

pub attempt_ref_beq_sound : (a b : AttemptRef) → attempt_ref_beq a b ≡ true → a ≡ b
unfolding attempt_ref_beq
attempt_ref_beq_sound a b h =
    ground (arith, ==→≡ a.run_id b.run_id, ==→≡ a.node b.node, ==→≡ a.number b.number)

pub attempt_ref_beq_refl : (a : AttemptRef) → attempt_ref_beq a a ≡ true
unfolding attempt_ref_beq
attempt_ref_beq_refl a = ground (arith, ==_self a.run_id, ==_self a.node, ==_self a.number)

instance abbrev pub attempt_ref_eq : Eq AttemptRef
attempt_ref_eq = record {
  beq = attempt_ref_beq;
  beq_sound = attempt_ref_beq_sound;
  beq_refl = attempt_ref_beq_refl;
}

unfoldable pub receipt_ref_beq : ReceiptRef → ReceiptRef → Bool
receipt_ref_beq a b = (a.id == b.id) && (a.run_id == b.run_id) && (a.node == b.node)

pub receipt_ref_beq_sound : (a b : ReceiptRef) → receipt_ref_beq a b ≡ true → a ≡ b
unfolding receipt_ref_beq
receipt_ref_beq_sound a b h =
    ground (arith, ==→≡ a.id b.id, ==→≡ a.run_id b.run_id, ==→≡ a.node b.node)

pub receipt_ref_beq_refl : (a : ReceiptRef) → receipt_ref_beq a a ≡ true
unfolding receipt_ref_beq
receipt_ref_beq_refl a = ground (arith, ==_self a.id, ==_self a.run_id, ==_self a.node)

instance abbrev pub receipt_ref_eq : Eq ReceiptRef
receipt_ref_eq = record {
  beq = receipt_ref_beq;
  beq_sound = receipt_ref_beq_sound;
  beq_refl = receipt_ref_beq_refl;
}

unfoldable pub type_ref_beq : TypeRef → TypeRef → Bool
type_ref_beq a b =
    (a.schema_id == b.schema_id) && (a.version == b.version) && (a.digest == b.digest)

pub type_ref_beq_sound : (a b : TypeRef) → type_ref_beq a b ≡ true → a ≡ b
unfolding type_ref_beq
type_ref_beq_sound a b h =
    ground (arith, ==→≡ a.schema_id b.schema_id, ==→≡ a.version b.version, ==→≡ a.digest b.digest)

pub type_ref_beq_refl : (a : TypeRef) → type_ref_beq a a ≡ true
unfolding type_ref_beq
type_ref_beq_refl a = ground (arith, ==_self a.schema_id, ==_self a.version, ==_self a.digest)

instance abbrev pub type_ref_eq : Eq TypeRef
type_ref_eq = record {
  beq = type_ref_beq;
  beq_sound = type_ref_beq_sound;
  beq_refl = type_ref_beq_refl;
}

unfoldable pub verifier_ref_beq : VerifierRef → VerifierRef → Bool
verifier_ref_beq a b = (a.id == b.id) && (a.version == b.version) && (a.digest == b.digest)

pub verifier_ref_beq_sound : (a b : VerifierRef) → verifier_ref_beq a b ≡ true → a ≡ b
unfolding verifier_ref_beq
verifier_ref_beq_sound a b h =
    ground (arith, ==→≡ a.id b.id, ==→≡ a.version b.version, ==→≡ a.digest b.digest)

pub verifier_ref_beq_refl : (a : VerifierRef) → verifier_ref_beq a a ≡ true
unfolding verifier_ref_beq
verifier_ref_beq_refl a = ground (arith, ==_self a.id, ==_self a.version, ==_self a.digest)

instance abbrev pub verifier_ref_eq : Eq VerifierRef
verifier_ref_eq = record {
  beq = verifier_ref_beq;
  beq_sound = verifier_ref_beq_sound;
  beq_refl = verifier_ref_beq_refl;
}

unfoldable pub policy_ref_beq : PolicyRef → PolicyRef → Bool
policy_ref_beq a b = (a.id == b.id) && (a.version == b.version)

pub policy_ref_beq_sound : (a b : PolicyRef) → policy_ref_beq a b ≡ true → a ≡ b
unfolding policy_ref_beq
policy_ref_beq_sound a b h = ground (arith, ==→≡ a.id b.id, ==→≡ a.version b.version)

pub policy_ref_beq_refl : (a : PolicyRef) → policy_ref_beq a a ≡ true
unfolding policy_ref_beq
policy_ref_beq_refl a = ground (arith, ==_self a.id, ==_self a.version)

instance abbrev pub policy_ref_eq : Eq PolicyRef
policy_ref_eq = record {
  beq = policy_ref_beq;
  beq_sound = policy_ref_beq_sound;
  beq_refl = policy_ref_beq_refl;
}
