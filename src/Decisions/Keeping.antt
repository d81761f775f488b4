-- ===== src/Decisions/Keeping.antt =====
-- Decide keeps the two-person rule.
use workforce_platform.Base.{
  ℕ, suc, Bool, true, false, not, ◌&&◌, Option, none, some, List, [], ◌∷◌, ◌++◌, ◌==◌, ◌≡◌, refl,
  sym, ◌∙◌, subst, inl, inr, arith, Bool-cases, ◌≢◌,
}
use workforce_platform.Base.Rows.{exists_where, update_if, find_row-key, All-find}
use workforce_platform.Schema.{
  Ident, Text, Principal, Operation, Proposal, ProposalStatus, ProposalDecision, DecisionKind,
  endorse, approve, reject, invalid, BusinessStatus, Effect, proposal_execute, Db,
}
use workforce_platform.Tx.{pure, fail}
use workforce_platform.Tx.Ensures.{
  Ensures, ensures-of, ensures-pure, ensures-fail, ensures-bind, ensures-gets, ensures-query,
  ensures-refuse, ensures-exec, ensures-exec-then,
}
use workforce_platform.BusinessOperations.{find_proposal, move_business, release}
use workforce_platform.Decisions.{
  is_endorse, is_approve, is_pending_endorsement, is_pending_approval, is_pending, set_status,
  insert_effect, authorize, enqueue, approve_proposal, reject_proposal, carry_out, decided,
  record_decision, decision_row, decide, or_revoked, active_principal,
}
use workforce_platform.Decisions.Governed.{
  IsGoverned, IsWeaker, Fits, Fits-same, IsGoverned-weaker, IsGoverned-row, IsGoverned-decided,
  needs_endorsement, needs_approval, is_own_endorsement, is_separate_approval, exists_where-append,
}

abbrev pub Gov : Db → Type 0
Gov d = IsGoverned d.proposals d.proposal_decisions

-- What a statement leaves alone.
pub record SameProposals (d e : Db) : Type 0 where
  pub proposals : e.proposals ≡ d.proposals
  pub decisions : e.proposal_decisions ≡ d.proposal_decisions

pub Gov-same : (d e : Db) → SameProposals d e → Gov d → Gov e
Gov-same d e s v =
    subst (λ ps. IsGoverned ps e.proposal_decisions) (sym s.proposals)
      (subst (IsGoverned d.proposals) (sym s.decisions) v)

pub same_trans : {d e f : Db} → SameProposals d e → SameProposals e f → SameProposals d f
same_trans s t = record {
  proposals = t.proposals ∙ s.proposals;
  decisions = t.decisions ∙ s.decisions;
}

insert_effect-same : (new : Effect) (d : Db) → SameProposals d (insert_effect new d)
unfolding insert_effect
insert_effect-same new d = ground arith

authorize-same :
    (ids : ℕ → Ident) (n : ℕ) (proposal : Ident) (ops : List Operation) (d : Db)
    → SameProposals d (authorize ids n proposal ops d)
unfolding authorize
authorize-same ids n proposal [] d = record { proposals = refl; decisions = refl }
authorize-same ids n proposal (op ∷ ops) d =
    same_trans (insert_effect-same _ d) (authorize-same ids (suc n) proposal ops _)

pub move_business-same :
    (proposal : Ident) (from to : BusinessStatus) (d : Db)
    → SameProposals d (move_business proposal from to d)
unfolding move_business
move_business-same proposal from to d = record { proposals = refl; decisions = refl }

abbrev status_change : Ident → (ProposalStatus → Bool) → ProposalStatus → Proposal → Proposal
status_change id from to =
    update_if (λ p. p.id == id && from p.status) (λ p. record p { status = to })

-- A status change that asks for nothing keeps the rule.
reject-IsWeaker : (id : Ident) → IsWeaker (status_change id is_pending ProposalStatus.rejected)
reject-IsWeaker id = record {
  id = λ p. ground arith;
  creator = λ p. ground arith;
  endorsement = λ p. ground arith;
  approval = λ p. ground arith;
}

-- A status change of one proposal, for which the decisions that it needs are recorded.
status-Gov :
    (from : ProposalStatus → Bool) (to : ProposalStatus) (p : Proposal) (d : Db)
    → find_proposal p.id d ≡ some p
    → (from p.status ≡ true
        → needs_endorsement to ≡ true
        → exists_where (is_own_endorsement p) d.proposal_decisions ≡ true)
    → (from p.status ≡ true
        → needs_approval to ≡ true
        → exists_where (is_separate_approval p) d.proposal_decisions ≡ true)
    → Gov d
    → Gov (set_status p.id from to d)
status-Gov from to p d found e a v =
    IsGoverned-row (status_change p.id from to) d.proposal_decisions d.proposals p
      (λ q. ground arith) (λ q miss. rw miss refl) found
      (λ f.
        Fits-same (status_change p.id from to) d.proposal_decisions p (ground arith) (ground arith)
          (λ n. ground (arith, e, f.endorsed)) (λ n. ground (arith, a, f.approved)))
      v

-- What the checks of Decide and the row that it records say before the decision is carried out.
record Recorded (kind : DecisionKind) (p : Proposal) (d : Db) : Type 0 where
  found : find_proposal p.id d ≡ some p
  governed : Gov d
  by_requester :
      is_endorse kind ≡ true → exists_where (is_own_endorsement p) d.proposal_decisions ≡ true
  by_another :
      is_approve kind ≡ true → exists_where (is_separate_approval p) d.proposal_decisions ≡ true

approve-Gov :
    (ids : ℕ → Ident) (p : Proposal) (d : Db)
    → Recorded approve p d
    → Ensures (approve_proposal ids p) d (λ _ d'. Gov d')
unfolding approve_proposal
approve-Gov ids p d r = ensures-query _ _ d λ t _. ensures-refuse _ _ _ d λ _.
    ensures-refuse _ _ _ d λ pending. ensures-exec-then _ _ d (
      ensures-exec-then _ _ _ (
        ensures-exec-then _ _ _
          (ensures-exec (λ _ d'. Gov d') _ _ (Gov-same d1 d4 same (approved pending)))))
  where
    d1 : Db
    d1 = set_status p.id is_pending_approval ProposalStatus.approved d

    d2 : Db
    d2 = authorize ids 0 p.id p.operations d1

    d3 : Db
    d3 = move_business p.id BusinessStatus.reserved BusinessStatus.dispatching d2

    d4 : Db
    d4 = enqueue (proposal_execute p.id) d3

    same : SameProposals d1 d4
    same = same_trans {d = d1} {e = d2} {f = d4} (authorize-same ids 0 p.id p.operations d1) (
        same_trans {d = d2} {e = d3} {f = d4}
          (move_business-same p.id BusinessStatus.reserved BusinessStatus.dispatching d2)
          (record { proposals = refl; decisions = refl }))

    endorsed_row : Fits d.proposal_decisions p
    endorsed_row =
        All-find (Fits d.proposal_decisions) (λ q. q.id == p.id) d.proposals p r.governed.fits
          r.found

    approved : not (is_pending_approval p.status) ≡ false → Gov d1
    approved pending =
        status-Gov is_pending_approval ProposalStatus.approved p d r.found
          (λ s _. endorsed_row.endorsed (ground arith)) (λ _ _. r.by_another refl) r.governed

carry_out-Gov :
    (ids : ℕ → Ident) (kind : DecisionKind) (p : Proposal) (d : Db)
    → Recorded kind p d
    → Ensures (carry_out ids kind p) d (λ _ d'. Gov d')
unfolding carry_out reject_proposal release
carry_out-Gov ids endorse p d r =
    ensures-exec (λ _ d'. Gov d') _ d
      (status-Gov is_pending_endorsement ProposalStatus.pending_approval p d r.found
        (λ _ _. r.by_requester refl) (λ _ n. cc) r.governed)
carry_out-Gov ids reject p d r = ensures-exec-then _ _ d (
    ensures-exec (λ _ d'. Gov d') _ _
      (Gov-same (set_status p.id is_pending ProposalStatus.rejected d) _
        (move_business-same p.id BusinessStatus.reserved BusinessStatus.released _)
        (IsGoverned-weaker (status_change p.id is_pending ProposalStatus.rejected)
          d.proposal_decisions d.proposals (reject-IsWeaker p.id) r.governed)))
carry_out-Gov ids approve p d r = approve-Gov ids p d r
carry_out-Gov ids (invalid t) p d r = ensures-pure tt d r.governed

record_decision-Gov :
    (ids : ℕ → Ident) (new : ProposalDecision) (p : Proposal) (d : Db)
    → new.proposal_id ≡ p.id
    → find_proposal p.id d ≡ some p
    → (is_endorse new.kind ≡ true → new.actor_id ≡ p.created_by)
    → (is_approve new.kind ≡ true → new.actor_id ≢ p.created_by)
    → Gov d
    → Ensures (record_decision new (carry_out ids new.kind p)) d (λ _ d'. Gov d')
unfolding record_decision pure fail
record_decision-Gov ids new p d about found own other v =
    ensures-of _ d (elim (Bool-cases (exists_where (decided new) d.proposal_decisions)) [
      | inl again ↦ rw again v
      | inr fresh ↦ elim (Bool-cases (exists_where (λ x. x.id == new.id) d.proposal_decisions)) [
        | inl clash ↦ rw (fresh, clash) tt
        | inr free ↦ rw (fresh, free) (carry_out-Gov ids new.kind p added recorded).holds
      ]
    ])
  where
    added : Db
    added = record d { proposal_decisions = d.proposal_decisions ++ new ∷ [] }

    recorded : Recorded new.kind p added
    recorded = record {
      found = found;
      governed = IsGoverned-decided d.proposal_decisions d.proposals new v;
      by_requester = λ k.
          ground
            (arith, exists_where-append (is_own_endorsement p) d.proposal_decisions new, own k);
      by_another = λ k.
          ground
            (arith, exists_where-append (is_separate_approval p) d.proposal_decisions new, other k);
    }

pub decide-Gov :
    (id : Ident) (ids : ℕ → Ident) (proposal actor : Ident) (kind : DecisionKind) (revision : ℕ)
    (digest reason : Text) (d : Db)
    → Gov d
    → Ensures (decide id ids proposal actor kind revision digest reason) d (λ _ d'. Gov d')
unfolding decide
decide-Gov id ids proposal actor kind revision digest reason d v = ensures-gets _ _ d (
    ensures-bind (λ _ d'. Gov d') (or_revoked (active_principal actor d)) _ d
      (revoked (active_principal actor d))
      λ who d' v'. ensures-query _ _ d' λ p found. ensures-refuse _ _ _ d' λ _.
        ensures-refuse _ _ _ d' λ own. ensures-refuse _ _ _ d' λ other. ensures-refuse _ _ _ d' λ _.
          record_decision-Gov ids (decision_row id proposal actor kind revision digest reason) p d'
            (sym (same_id d' p found))
            (subst (λ i. find_proposal i d' ≡ some p) (sym (same_id d' p found)) found)
            (λ k. ground arith) (λ k. ground arith) v')
  where
    same_id : (d : Db) (p : Proposal) → find_proposal proposal d ≡ some p → p.id ≡ proposal
    same_id d p found = find_row-key (λ p. p.id) proposal d.proposals p found

    revoked : (o : Option Principal) → Ensures (or_revoked o) d (λ _ d'. Gov d')
    revoked none = ensures-fail _ d
    revoked (some who) = ensures-pure who d v
