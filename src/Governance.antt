-- ===== src/Governance.antt =====
-- The life of proposals as a whole: the transactions of internal/store/store.go that touch them, as
-- steps from one committed database to the next, and the two-person rule over every history.
use workforce_platform.Base.{ℕ, true, some, List, [], ◌==◌, ◌≡◌, sym, subst, arith}
use workforce_platform.Base.Rows.{exists_where, update_if, All-find}
use workforce_platform.Schema.{Ident, Text, Time, Operation, Proposal, DecisionKind, Origin, Db}
use workforce_platform.Tx.{with_org}
use workforce_platform.Tx.Ensures.{
  Ensures, ensures-gets, ensures-refuse, ensures-exec, ensures-exec-then, with_org-keeps,
}
use workforce_platform.Tasks.{is_rejected_with, reject_row, cancel_task}
use workforce_platform.BusinessOperations.{find_proposal}
use workforce_platform.Proposals.{Digests, Contains, NewIds, create_proposal_tx}
use workforce_platform.Proposals.Keeping.{create_proposal_tx-Gov}
use workforce_platform.Decisions.{decide}
use workforce_platform.Decisions.Governed.{
  IsGoverned, IsWeaker, IsGoverned-weaker, Fits, needs_approval, is_own_endorsement,
  is_separate_approval,
}
use workforce_platform.Decisions.Keeping.{Gov, SameProposals, Gov-same, decide-Gov}
use workforce_platform.Execution.{execute_proposal}
use workforce_platform.Execution.Governed.{execute_proposal-Gov}

-- One transaction, or the two of executeProposal. `elsewhere` is any other one: it leaves the
-- proposals and the decisions as they are.
pub data Step (h : Digests) (contains : Contains) (d : Db) : Db → Type 0 where
  proposes :
      (ids : NewIds) (now : Time) (task actor : Ident) (summary : Text) (origin : Origin)
      (run : Ident) (ops : List Operation)
      → Step h contains d
          (with_org (create_proposal_tx h contains ids now task actor summary origin run ops) d).1
  decides :
      (id : Ident) (ids : ℕ → Ident) (proposal actor : Ident) (kind : DecisionKind) (revision : ℕ)
      (digest reason : Text)
      → Step h contains d (with_org (decide id ids proposal actor kind revision digest reason) d).1
  executes :
      (ids : ℕ → Ident) (proposal : Ident) → Step h contains d (execute_proposal h ids proposal d).1
  cancels :
      (now : Time) (task : Ident) (version : ℕ)
      → Step h contains d (with_org (cancel_task now task version) d).1
  elsewhere : (e : Db) → SameProposals d e → Step h contains d e

-- A database that a history of steps reaches.
pub data Reaches (h : Digests) (contains : Contains) (start : Db) : Db → Type 0 where
  begin : Reaches h contains start start
  next_step :
      (d e : Db) → Reaches h contains start d → Step h contains d e → Reaches h contains start e

cancel_task-Gov :
    (now : Time) (task : Ident) (version : ℕ) (d : Db)
    → Gov d
    → Ensures (cancel_task now task version) d (λ _ d'. Gov d')
unfolding cancel_task
cancel_task-Gov now task version d v = ensures-gets _ _ d (
    ensures-exec-then _ _ d (
      ensures-refuse _ _ _ _ λ _. ensures-exec-then _ _ _ (
        ensures-exec-then _ _ _ (
          ensures-exec (λ _ d'. Gov d') _ _
            (IsGoverned-weaker (update_if (is_rejected_with task) reject_row) d.proposal_decisions
              d.proposals weaker v)))))
  where
    weaker : IsWeaker (update_if (is_rejected_with task) reject_row)
    weaker = record {
      id = λ p. ground arith;
      creator = λ p. ground arith;
      endorsement = λ p. ground arith;
      approval = λ p. ground arith;
    }

module _ (h : Digests) (contains : Contains) where
  Step-Gov : (d e : Db) → Step h contains d e → Gov d → Gov e
  Step-Gov d e (proposes ids now task actor summary origin run ops) v =
      with_org-keeps Gov (create_proposal_tx h contains ids now task actor summary origin run ops) d
        v (create_proposal_tx-Gov h contains ids now task actor summary origin run ops d v)
  Step-Gov d e (decides id ids proposal actor kind revision digest reason) v =
      with_org-keeps Gov (decide id ids proposal actor kind revision digest reason) d v
        (decide-Gov id ids proposal actor kind revision digest reason d v)
  Step-Gov d e (executes ids proposal) v = execute_proposal-Gov h ids proposal d v
  Step-Gov d e (cancels now task version) v =
      with_org-keeps Gov (cancel_task now task version) d v (cancel_task-Gov now task version d v)
  Step-Gov d e (elsewhere _ same) v = Gov-same d e same v

  Reaches-Gov : (start d : Db) → Reaches h contains start d → Gov start → Gov d
  Reaches-Gov start _ begin v = v
  Reaches-Gov start d (next_step c _ r s) v = Step-Gov c d s (Reaches-Gov start c r v)

  fits :
      (start d : Db) (id : Ident) (p : Proposal)
      → start.proposals ≡ []
      → Reaches h contains start d
      → find_proposal id d ≡ some p
      → Fits d.proposal_decisions p
  fits start d id p empty r found =
      All-find (Fits d.proposal_decisions) (λ q. q.id == id) d.proposals p governed.fits found
    where
      governed : Gov d
      governed = Reaches-Gov start d r (
          subst (λ ps. IsGoverned ps start.proposal_decisions) (sym empty)
            (record { keyed = tt; fits = tt }))

  -- In every history that begins with no proposals, a proposal that is approved, executing, done or in
  -- need of attention has two decisions on record: the endorsement of its own requester, and an approval
  -- by somebody else.
  pub two_person_rule :
      (start d : Db) (id : Ident) (p : Proposal)
      → start.proposals ≡ []
      → Reaches h contains start d
      → find_proposal id d ≡ some p
      → needs_approval p.status ≡ true
      → (exists_where (is_own_endorsement p) d.proposal_decisions ≡ true)
        × (exists_where (is_separate_approval p) d.proposal_decisions ≡ true)
  two_person_rule start d id p empty r found far =
      let f = fits start d id p empty r found in (f.endorsed (ground (arith, far)), f.approved far)
