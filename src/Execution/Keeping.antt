-- ===== src/Execution/Keeping.antt =====
-- What the statements of executeProposal keep of an approved proposal.
use workforce_platform.Base.{
  ℕ, suc, Bool, true, false, ◌&&◌, some, List, [], ◌∷◌, map, ◌==◌, ◌≡◌, refl, sym, ap, ◌∙◌, subst,
  inl, inr, arith, Bool-cases,
}
use workforce_platform.Base.Rows.{
  find_row, exists_where, update_if, select_where, find_row-map, find_row-key,
}
use workforce_platform.Schema.{
  Ident, Proposal, ProposalStatus, FailureReason, Effect, Receipt, proposal_execute, Db,
}
use workforce_platform.Tx.{pure, fail}
use workforce_platform.Tx.Ensures.{
  Ensures, ensures-of, ensures-pure, ensures-bind, ensures-query, ensures-refuse, ensures-exec-then,
}
use workforce_platform.BusinessOperations.{find_proposal}
use workforce_platform.Proposals.{Digests}
use workforce_platform.Proposals.Keeping.{ensures-lift}
use workforce_platform.Decisions.{set_status, enqueue}
use workforce_platform.Decisions.Governed.{Fits-same, IsGoverned-row, needs_approval}
use workforce_platform.Decisions.Keeping.{Gov, SameProposals, Gov-same, same_trans}
use workforce_platform.Execution.{
  insert_receipt, apply_effect, apply_effects, attention_row, needs_attention, enqueue_all,
  enqueue_eligible_children, is_eligible,
}

-- A proposal of the table that has been approved.
pub record Approved (id : Ident) (d : Db) : Type 0 where
  pub row : Proposal
  pub found : find_proposal id d ≡ some row
  pub far : needs_approval row.status ≡ true
  pub governed : Gov d

pub Approved-same : (id : Ident) (d e : Db) → SameProposals d e → Approved id d → Approved id e
Approved-same id d e s a = record {
  row = a.row;
  found = ap (find_row (λ p. p.id) id) s.proposals ∙ a.found;
  far = a.far;
  governed = Gov-same d e s a.governed;
}

-- A change of the proposal's row alone that leaves its status one of an approved proposal.
record IsLater (id : Ident) (g : Proposal → Proposal) : Type 0 where
  same_id : (p : Proposal) → (g p).id ≡ p.id
  same_creator : (p : Proposal) → (g p).created_by ≡ p.created_by
  others : (p : Proposal) → (p.id == id) ≡ false → g p ≡ p
  later : (p : Proposal) → needs_approval p.status ≡ true → needs_approval (g p).status ≡ true

Approved-row :
    (id : Ident) (g : Proposal → Proposal) (d : Db)
    → IsLater id g
    → Approved id d
    → Approved id (record d { proposals = map g d.proposals })
Approved-row id g d s a = record {
  row = g a.row;
  found = find_row-map (λ p. p.id) id g s.same_id d.proposals ∙ rw a.found refl;
  far = s.later a.row a.far;
  governed =
      IsGoverned-row g d.proposal_decisions d.proposals a.row s.same_id
        (λ q miss. s.others q (subst (λ i. (q.id == i) ≡ false) key miss))
        (subst (λ i. find_row (λ p. p.id) i d.proposals ≡ some a.row) (sym key) a.found)
        (λ f.
          Fits-same g d.proposal_decisions a.row (s.same_id a.row) (s.same_creator a.row)
            (λ _. f.endorsed (ground (arith, a.far))) (λ _. f.approved a.far))
        a.governed;
}
  where
    key : a.row.id ≡ id
    key = find_row-key (λ p. p.id) id d.proposals a.row a.found

module _ (id : Ident) (from : ProposalStatus → Bool) where
  pub Approved-status :
      (to : ProposalStatus) (d : Db)
      → needs_approval to ≡ true
      → Approved id d
      → Approved id (set_status id from to d)
  Approved-status to d far a =
      Approved-row id (update_if (λ p. p.id == id && from p.status) (λ p. record p { status = to }))
        d
        (record {
          same_id = λ p. ground arith;
          same_creator = λ p. ground arith;
          others = λ p miss. rw miss refl;
          later = λ p h. ground (arith, far);
        })
        a

  pub Approved-attention :
      (reason : FailureReason) (d : Db)
      → Approved id d
      → Approved id (needs_attention id from reason d)
  Approved-attention reason d a =
      Approved-row id (update_if (λ p. p.id == id && from p.status) (attention_row reason)) d
        (record {
          same_id = λ p. ground arith;
          same_creator = λ p. ground arith;
          others = λ p miss. rw miss refl;
          later = λ p h. ground arith;
        })
        a

-- What applies the effects leaves proposals and decisions alone.
module _ (h : Digests) (base : Db) where
  insert_receipt-same :
      (r : Receipt) (d : Db)
      → SameProposals base d
      → Ensures (insert_receipt r) d (λ _ d'. SameProposals base d')
  unfolding insert_receipt pure fail
  insert_receipt-same r d s =
      ensures-of _ d (elim (Bool-cases (exists_where (λ x. x.id == r.id) d.receipts)) [
        | inl clash ↦ rw (clash, insert_receipt) tt
        | inr free ↦
            rw (free, insert_receipt) (record { proposals = s.proposals; decisions = s.decisions })
      ])

  apply_effect-same :
      (receipt : Ident) (e : Effect) (d : Db)
      → SameProposals base d
      → Ensures (apply_effect h receipt e) d (λ _ d'. SameProposals base d')
  unfolding apply_effect
  apply_effect-same receipt e d s = ensures-query _ _ d λ cur _. ensures-lift _ _ d λ c _.
      ensures-lift _ _ d λ next _. ensures-exec-then _ _ d (
        ensures-query _ _ _ λ seen _. ensures-refuse _ _ _ _ λ _.
          ensures-exec-then _ _ _
            (insert_receipt-same _ _ (record { proposals = s.proposals; decisions = s.decisions })))

  pub apply_effects-same :
      (ids : ℕ → Ident) (n : ℕ) (es : List Effect) (d : Db)
      → SameProposals base d
      → Ensures (apply_effects h ids n es) d (λ _ d'. SameProposals base d')
  unfolding apply_effects
  apply_effects-same ids n [] d s = ensures-pure tt d s
  apply_effects-same ids n (e ∷ es) d s =
      ensures-bind (λ _ d'. SameProposals base d') (apply_effect h (ids n) e) _ d
        (apply_effect-same (ids n) e d s) λ u d' s'. apply_effects-same ids (suc n) es d' s'

enqueue_all-same : (ps : List Proposal) (d : Db) → SameProposals d (enqueue_all ps d)
unfolding enqueue_all
enqueue_all-same [] d = record { proposals = refl; decisions = refl }
enqueue_all-same (p ∷ ps) d =
    same_trans {d = d} {e = enqueue (proposal_execute p.id) d} {f = enqueue_all (p ∷ ps) d}
      (record { proposals = refl; decisions = refl })
      (enqueue_all-same ps (enqueue (proposal_execute p.id) d))

pub children-same : (task : Ident) (d : Db) → SameProposals d (enqueue_eligible_children task d)
unfolding enqueue_eligible_children
children-same task d = enqueue_all-same (select_where (is_eligible task d) d.proposals) d
