-- ===== src/Deps/Reason.antt =====
-- src/deps/mod.rs: the printed form of a blocker, and `blocked_reason`.
use checkspan.Common.{
  Option, none, some, List, [], ◌∷◌, ◌++◌, ◌≡◌, ◌≢◌, ◌↔◌, refl, Text, text, Result, ok, err,
  Result-cases, inl, inr, subst,
}
use checkspan.Contracts.Ids.{NodeId}
use checkspan.Contracts.Printed.{
  print_node_ref, print_type_ref, print_receipt_ref, print_status, print_verdict,
}
use checkspan.Contracts.Node.{NodeSpec}
use checkspan.Contracts.Graph.{find_node}
use checkspan.Deps.Service.{
  Blocker, not_accepted, no_receipt, receipt_missing, not_an_acceptance, node_mismatch,
  attempt_missing, no_result, result_type_mismatch, subject_mismatch, expired, revoked,
  unknown_node, DependencyService, DependencySnapshot, unless_blocked, resolve_all, resolve_node,
  resolve,
}

unfoldable pub print_blocker : Blocker → Text
unfolding print_node_ref print_type_ref print_receipt_ref print_status print_verdict
print_blocker (not_accepted node status) =
    text "dependency "
    ++ node
    ++ text " is "
    ++ print_status status
    ++ text " in this run, not accepted"
print_blocker (no_receipt node) = text "dependency " ++ node ++ text " names no receipt"
print_blocker (receipt_missing r) = text "receipt " ++ print_receipt_ref r ++ text " is not stored"
print_blocker (not_an_acceptance r verdict) =
    text "receipt "
    ++ print_receipt_ref r
    ++ text " is a "
    ++ print_verdict verdict
    ++ text " verdict, not an acceptance"
print_blocker (node_mismatch expected found) =
    text "receipt is about " ++ print_node_ref found ++ text ", not " ++ print_node_ref expected
print_blocker (attempt_missing r) =
    text "the attempt behind receipt " ++ print_receipt_ref r ++ text " is not stored"
print_blocker (no_result r) =
    text "the attempt behind receipt " ++ print_receipt_ref r ++ text " has no result"
print_blocker (result_type_mismatch expected found) =
    text "producer declares "
    ++ print_type_ref found
    ++ text " but the consumer expects "
    ++ print_type_ref expected
print_blocker (subject_mismatch expected found) =
    text "result digest " ++ found ++ text " is not the expected " ++ expected
print_blocker (expired r valid_until) =
    text "receipt " ++ print_receipt_ref r ++ text " expired at " ++ valid_until
print_blocker (revoked r) = text "receipt " ++ print_receipt_ref r ++ text " was revoked"
print_blocker (unknown_node n) = text "node " ++ n ++ text " is not in the graph"

-- `.map(ToString::to_string).collect::<Vec<_>>().join("; ")`
unfoldable pub join_blockers : List Blocker → Text
unfolding print_blocker
join_blockers [] = []
join_blockers (b ∷ []) = print_blocker b
join_blockers (b ∷ c ∷ bs) = print_blocker b ++ (text "; " ++ join_blockers (c ∷ bs))

abbrev pub reason_of : Result DependencySnapshot (List Blocker) → Option Text
reason_of (ok snapshot) = none
reason_of (err blockers) = some (join_blockers blockers)

unfoldable pub blocked_reason : DependencyService → NodeId → Option Text
unfolding resolve join_blockers
blocked_reason s id = reason_of (resolve s id)

-- A text that says something.
abbrev Says : Text → Type 0
Says t = t ≢ []

print_blocker-Says : (b : Blocker) → Says (print_blocker b)
unfolding print_blocker
print_blocker-Says (not_accepted node status) e = cc e
print_blocker-Says (no_receipt node) e = cc e
print_blocker-Says (receipt_missing r) e = cc e
print_blocker-Says (not_an_acceptance r verdict) e = cc e
print_blocker-Says (node_mismatch expected found) e = cc e
print_blocker-Says (attempt_missing r) e = cc e
print_blocker-Says (no_result r) e = cc e
print_blocker-Says (result_type_mismatch expected found) e = cc e
print_blocker-Says (subject_mismatch expected found) e = cc e
print_blocker-Says (expired r valid_until) e = cc e
print_blocker-Says (revoked r) e = cc e
print_blocker-Says (unknown_node n) e = cc e

append_nil {ℓ} : {A : Type ℓ} (xs ys : List A) → xs ++ ys ≡ [] → xs ≡ []
append_nil [] ys h = refl
append_nil (x ∷ xs) ys h = cc h

join_blockers-Says : (b : Blocker) (bs : List Blocker) → Says (join_blockers (b ∷ bs))
unfolding join_blockers print_blocker
join_blockers-Says b [] e = print_blocker-Says b e
join_blockers-Says b (c ∷ bs) e =
    print_blocker-Says b (append_nil (print_blocker b) (text "; " ++ join_blockers (c ∷ bs)) e)

unless_blocked-Says {ℓ} :
    {A : Type ℓ} (a : A) (blockers bs : List Blocker)
    → unless_blocked a blockers ≡ err bs
    → Says (join_blockers bs)
unless_blocked-Says a [] bs h = cc
unless_blocked-Says a (b ∷ blockers) bs h =
    let same : (b ∷ blockers) ≡ bs = cc in
    subst (λ l. Says (join_blockers l)) same (join_blockers-Says b blockers)

resolve_node-Says :
    (s : DependencyService) (id : NodeId) (o : Option NodeSpec) (bs : List Blocker)
    → resolve_node s id o ≡ err bs
    → Says (join_blockers bs)
unfolding resolve_node
resolve_node-Says s id none bs h =
    let same : (unknown_node id ∷ []) ≡ bs = cc in
    subst (λ l. Says (join_blockers l)) same (join_blockers-Says (unknown_node id) [])
resolve_node-Says s id (some node) bs h = unless_blocked-Says _ (resolve_all s node.deps).1 bs h

pub IsReason : DependencyService → NodeId → Option Text → Type 0
IsReason s id reason =
    ((reason ≡ none) ↔ ((snapshot : DependencySnapshot) × (resolve s id ≡ ok snapshot)))
    × (reason ≢ some [])

-- A node has no blocked reason exactly when its dependencies resolve, and a reason is never empty.
pub blocked_reason_lem : (s : DependencyService) (id : NodeId) → IsReason s id (blocked_reason s id)
unfolding blocked_reason resolve IsReason
blocked_reason_lem s id = elim (Result-cases (resolve s id)) [
  | inl (snapshot, e) ↦ rw e ((λ _. (snapshot, refl), λ _. refl), λ h. cc h)
  | inr (bs, e) ↦ rw e (
    (λ h. cc h, λ (snapshot, h). cc h),
    λ h. resolve_node-Says s id (find_node id s.spec.nodes) bs e (cc h),
  )
]
