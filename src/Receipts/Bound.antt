-- ===== src/Receipts/Bound.antt =====
-- src/receipts/mod.rs: what an admitted receipt is bound to, and that a refused one leaves no trace.
use checkspan.Common.{
  ℕ, Bool, true, false, not, Option, none, some, List, [], ◌∷◌, ◌≡◌, refl, sym, subst, ap, ◌∙◌, inl,
  inr, arith, Text, ◌==◌, ==→≡, nat_eq, list_eq, option_eq, is_empty, is_none, ok, >>=_ok, or_fail,
  or_fail_ok, map_err_ok, map_err, ok-injective, Bool-cases, Option-cases,
}
use checkspan.Contracts.Time.{Timestamp}
use checkspan.Contracts.Refs.{NodeRef, node_ref_eq, verifier_ref_eq, policy_ref_eq}
use checkspan.Contracts.Node.{NodeSpec}
use checkspan.Contracts.Graph.{GraphSpec, GraphRun, find_node, node_ref}
use checkspan.Contracts.Attempt.{
  Attempt, Execution, ExecutionOutcome, EvidenceRef, ResultRef, VerifierReceipt, verdict_eq, accept,
  check_receipt,
}
use checkspan.State.Node.{NodeState}
use checkspan.State.Run.{RunState, node_state, replay_run}
use checkspan.Store.Tables.{Db, read_events, read_receipt, read_attempt}
use checkspan.Deps.Service.{DependencyService, recheck_refs}
use checkspan.Digests.Bound.{Writer}
use checkspan.Receipts.Issue.{only_if, expect_result, completed_result, context_of}
use checkspan.Receipts.Frozen.{FreezesFirst, frozen_subject-FreezesFirst, completed_result-some}
use checkspan.Receipts.Admit.{
  frozen_subject, own_node, is_expired, subject_fits, is_checking, recheck_accept, check_ledger,
  check_offer, dependency_blocked,
}

pub only_if_ok : {E : Type 0} (b : Bool) (e : E) (u : Unit {0}) → only_if b e ≡ ok u → b ≡ true
only_if_ok true e u h = refl
only_if_ok false e u h = cc

pub expect_ok :
    {E : Type 0} (o : Option ResultRef) (e : E) (r : ResultRef)
    → expect_result o e ≡ ok r
    → o ≡ some r
expect_ok none e r h = cc
expect_ok (some x) e r h = ap some (ok-injective h)

pub is_empty_nil : {A : Type 0} (xs : List A) → is_empty xs ≡ true → xs ≡ []
is_empty_nil [] h = refl
is_empty_nil (x ∷ xs) h = cc

-- The receipt is well formed, in this run, about a node of this graph at its revision, by the verifier
-- and under the policy of its contract, and not past its validity.
pub record IsOffered (spec : GraphSpec) (run : GraphRun) (receipt : VerifierReceipt)
    (now : Timestamp) (node : NodeSpec) : Type 0 where
  pub well_formed : check_receipt receipt ≡ []
  pub same_run : receipt.attempt.run_id ≡ run.run_id
  pub in_graph : find_node receipt.attempt.node.node_id spec.nodes ≡ some node
  pub same_node : node_ref spec receipt.attempt.node.node_id ≡ some receipt.attempt.node
  pub same_verifier : receipt.verifier ≡ node.acceptance.verifier
  pub same_policy : receipt.policy_ref ≡ node.acceptance.policy_ref
  pub in_time : is_expired receipt.validity.valid_until now ≡ false

own_node-some :
    (spec : GraphSpec) (reference : NodeRef) (node : NodeSpec)
    → own_node spec reference ≡ some node
    → (find_node reference.node_id spec.nodes ≡ some node)
      × (node_ref spec reference.node_id ≡ some reference)
unfolding own_node
own_node-some spec reference node h = elim (Option-cases (find_node reference.node_id spec.nodes)) [
  | inl e ↦ cc (rw (own_node, e) at h)
  | inr (n, e) ↦ elim (Bool-cases (node_ref spec reference.node_id == some reference)) [
    | inr f ↦ cc (rw (own_node, e, f) at h)
    | inl f ↦
        let same : n ≡ node = cc (rw (own_node, e, f) at h) in
        (e ∙ ap some same, ==→≡ (node_ref spec reference.node_id) (some reference) f)
  ]
]

pub check_offer-IsOffered :
    (spec : GraphSpec) (run : GraphRun) (receipt : VerifierReceipt) (now : Timestamp)
    (node : NodeSpec)
    → check_offer spec run receipt now ≡ ok node
    → IsOffered spec run receipt now node
unfolding check_offer
check_offer-IsOffered spec run receipt now node h =
    let (u, first, h₁) = >>=_ok (only_if (is_empty (check_receipt receipt)) _) _ h in
    let (u₁, second, h₂) = >>=_ok (only_if (receipt.attempt.run_id == run.run_id) _) _ h₁ in
    let (n, third, h₃) = >>=_ok (or_fail (own_node spec receipt.attempt.node) _) _ h₂ in
    let (u₂, fourth, h₄) = >>=_ok (only_if (receipt.verifier == n.acceptance.verifier) _) _ h₃ in
    let (u₃, fifth, h₅) = >>=_ok (only_if (receipt.policy_ref == n.acceptance.policy_ref) _) _ h₄ in
    let (u₄, sixth, h₆) =
      >>=_ok (only_if (not (is_expired receipt.validity.valid_until now)) _) _ h₅ in
    let own =
      own_node-some spec receipt.attempt.node n
        (or_fail_ok (own_node spec receipt.attempt.node) _ n third) in
    let timely = only_if_ok (not (is_expired receipt.validity.valid_until now)) _ u₄ sixth in
    subst (IsOffered spec run receipt now) (ok-injective h₆) (record {
      well_formed =
          is_empty_nil (check_receipt receipt)
            (only_if_ok (is_empty (check_receipt receipt)) _ u first);
      same_run =
          ==→≡ receipt.attempt.run_id run.run_id
            (only_if_ok (receipt.attempt.run_id == run.run_id) _ u₁ second);
      in_graph = own.0;
      same_node = own.1;
      same_verifier =
          ==→≡ receipt.verifier n.acceptance.verifier
            (only_if_ok (receipt.verifier == n.acceptance.verifier) _ u₂ fourth);
      same_policy =
          ==→≡ receipt.policy_ref n.acceptance.policy_ref
            (only_if_ok (receipt.policy_ref == n.acceptance.policy_ref) _ u₃ fifth);
      in_time = ground (arith, timely);
    })

module _ (w : Writer) (spec : GraphSpec) (run : GraphRun) (node : NodeSpec)
    (receipt : VerifierReceipt) (now : Timestamp) (db : Db) where
  -- The ledger as the dependency service sees it.
  abbrev pub service_on : RunState → DependencyService
  service_on state = record { spec = spec; run = run; state = state; store = db; now = now }

  -- The receipt is new; it is about a sealed attempt that completed, on its result, its frozen subject
  -- and its context; that attempt is the one that its node is checking, by the replayed log; and if
  -- it accepts, every dependency of the node is pinned to a receipt that is still usable.
  pub record IsBound (attempt : Attempt) : Type 0 where
    pub new : read_receipt db run.run_id receipt.id ≡ none
    pub sealed :
        read_attempt db run.run_id receipt.attempt.node.node_id receipt.attempt.number
        ≡ some attempt
    pub result : ResultRef
    pub produced : attempt.result ≡ some result
    pub execution : Execution
    pub executed : attempt.execution ≡ some execution
    pub completed : execution.outcome ≡ ExecutionOutcome.completed
    pub same_result : receipt.result_digest ≡ result.digest
    pub same_subject :
        (patch : EvidenceRef) → FreezesFirst attempt patch → patch.subject ≡ receipt.subject
    pub same_context : context_of w receipt.attempt node attempt result ≡ ok receipt.context_digest
    pub state : RunState
    pub replayed : replay_run run.run_id spec (read_events db run.run_id) ≡ ok state
    pub checking :
        (s : NodeState) × (node_state state receipt.attempt.node.node_id ≡ some s)
        × (s.checking ≡ true)
        × (s.current_attempt ≡ some receipt.attempt.number)
    pub rechecked :
        receipt.verdict ≡ accept
        → recheck_refs (service_on state) receipt.attempt.node.node_id attempt.dependency_receipts
          ≡ ok tt

  subject_fits_ok :
      (o : Option Text) (u : Unit {0})
      → subject_fits o receipt ≡ ok u
      → (t : Text) → o ≡ some t
      → t ≡ receipt.subject
  unfolding subject_fits
  subject_fits_ok none u h t e = cc
  subject_fits_ok (some x) u h t e =
      let same : x ≡ t = cc in
      sym same ∙ ==→≡ x receipt.subject (only_if_ok (x == receipt.subject) _ u h)

  is_checking-some :
      (o : Option NodeState) (number : ℕ)
      → is_checking o number ≡ true
      → (s : NodeState) × (o ≡ some s) × (s.checking ≡ true) × (s.current_attempt ≡ some number)
  unfolding is_checking
  is_checking-some none number h = cc
  is_checking-some (some s) number h =
      (s, refl, ground (arith, h), ==→≡ s.current_attempt (some number) (ground (arith, h)))

  recheck_accept_ok :
      (service : DependencyService) (attempt : Attempt) (u : Unit {0})
      → recheck_accept service receipt attempt ≡ ok u
      → receipt.verdict ≡ accept
      → recheck_refs service receipt.attempt.node.node_id attempt.dependency_receipts ≡ ok tt
  unfolding recheck_accept
  recheck_accept_ok service attempt u h e =
      map_err_ok dependency_blocked
        (recheck_refs service receipt.attempt.node.node_id attempt.dependency_receipts) tt
        (ground (arith, h, e))

  pub check_ledger-IsBound :
      (attempt : Attempt)
      → check_ledger w spec run node receipt now db ≡ ok attempt
      → IsBound attempt
  unfolding check_ledger
  check_ledger-IsBound attempt h =
      let id = receipt.attempt.node.node_id in
      let (u, first, h₁) =
        >>=_ok (only_if (is_none (read_receipt db run.run_id receipt.id)) _) _ h in
      let (a, second, h₂) =
        >>=_ok (or_fail (read_attempt db run.run_id id receipt.attempt.number) _) _ h₁ in
      let (result, third, h₃) =
        >>=_ok (expect_result (completed_result a.execution a.result) _) _ h₂ in
      let (u₁, fourth, h₄) = >>=_ok (only_if (receipt.result_digest == result.digest) _) _ h₃ in
      let (u₂, fifth, h₅) = >>=_ok (subject_fits (frozen_subject a) receipt) _ h₄ in
      let (context, sixth, h₆) =
        >>=_ok (map_err _ (context_of w receipt.attempt node a result)) _ h₅ in
      let (u₃, seventh, h₇) = >>=_ok (only_if (context == receipt.context_digest) _) _ h₆ in
      let (state, eighth, h₈) =
        >>=_ok (map_err _ (replay_run run.run_id spec (read_events db run.run_id))) _ h₇ in
      let (u₄, ninth, h₉) =
        >>=_ok (only_if (is_checking (node_state state id) receipt.attempt.number) _) _ h₈ in
      let (u₅, tenth, last) = >>=_ok (recheck_accept (service_on state) receipt a) _ h₉ in
      let (execution, executed, ended, produced) =
        completed_result-some a.execution a.result result
          (expect_ok (completed_result a.execution a.result) _ result third) in
      let same_context =
        ==→≡ context receipt.context_digest
          (only_if_ok (context == receipt.context_digest) _ u₃ seventh) in
      subst IsBound (ok-injective last) (record {
        new =
            ground (arith, only_if_ok (is_none (read_receipt db run.run_id receipt.id)) _ u first);
        sealed = or_fail_ok (read_attempt db run.run_id id receipt.attempt.number) _ a second;
        result = result;
        produced = produced;
        execution = execution;
        executed = executed;
        completed = ended;
        same_result =
            ==→≡ receipt.result_digest result.digest
              (only_if_ok (receipt.result_digest == result.digest) _ u₁ fourth);
        same_subject = λ patch first_patch.
            subject_fits_ok (frozen_subject a) u₂ fifth patch.subject
              (frozen_subject-FreezesFirst a patch first_patch);
        same_context =
            map_err_ok _ (context_of w receipt.attempt node a result) context sixth
            ∙ ap ok same_context;
        state = state;
        replayed =
            map_err_ok _ (replay_run run.run_id spec (read_events db run.run_id)) state eighth;
        checking =
            is_checking-some (node_state state id) receipt.attempt.number
              (only_if_ok (is_checking (node_state state id) receipt.attempt.number) _ u₄ ninth);
        rechecked = recheck_accept_ok (service_on state) a u₅ tenth;
      })
