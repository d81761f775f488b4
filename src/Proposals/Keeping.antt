-- ===== src/Proposals/Keeping.antt =====
-- createProposalTx keeps the two-person rule.
use workforce_platform.Base.{
  ℕ, suc, false, ◌&&◌, Option, none, some, List, [], ◌∷◌, ◌==◌, ◌≡◌, refl, sym, subst, inl, inr,
  arith, Option-cases,
}
use workforce_platform.Base.Rows.{find_row, update_if}
use workforce_platform.Schema.{
  Ident, Text, Time, Operation, Proposal, BusinessOperation, Origin, Db,
}
use workforce_platform.Errors.{Result, ok, err}
use workforce_platform.Tx.{Tx, ◌>>=◌, pure, fail, next}
use workforce_platform.Tx.Ensures.{
  Ensures, Post, ensures-of, ensures-pure, ensures-bind, ensures-gets, ensures-query,
  ensures-refuse, ensures-exec, ensures-exec-then,
}
use workforce_platform.BusinessOperations.{
  find_proposal, insert_reservation, rebind, reserve_found, reserve_one, reserve,
}
use workforce_platform.Proposals.{
  Digests, Contains, lift, check_operation, check_operations, name_operations, is_supersedable,
  supersede_row, supersede, insert_proposal, NewIds, create_proposal_tx,
}
use workforce_platform.Decisions.Governed.{
  IsWeaker, IsGoverned-weaker, IsGoverned-proposed, needs_endorsement, needs_approval,
}
use workforce_platform.Decisions.Keeping.{Gov, SameProposals, Gov-same}

module _ {A B : Type 0} {Q : B → Db → Type 0} where
  Post-lift :
      (r : Result A) (f : A → Tx B) (d : Db)
      → ((a : A) → r ≡ ok a → Ensures (f a) d Q)
      → Post Q (next (lift r d) f)
  Post-lift (ok a) f d k = (k a refl).holds
  Post-lift (err e) f d k = tt

  -- The rest runs on what the call returned.
  pub ensures-lift :
      (r : Result A) (f : A → Tx B) (d : Db)
      → ((a : A) → r ≡ ok a → Ensures (f a) d Q)
      → Ensures (lift r >>= f) d Q
  unfolding ◌>>=◌
  ensures-lift r f d k = record { holds = Post-lift r f d k }

-- A check writes nothing.
check_operation-reads :
    (contains : Contains) (run : Ident) (op : Operation) (d : Db)
    → Ensures (check_operation contains run op) d (λ _ d'. d' ≡ d)
unfolding check_operation
check_operation-reads contains run op d = ensures-refuse _ _ _ d λ _. ensures-refuse _ _ _ d λ _.
    ensures-lift _ _ d λ c _.
      ensures-query _ _ d
        λ r _. ensures-refuse _ _ _ d λ _. ensures-lift _ _ d λ next _. ensures-pure tt d refl

check_operations-reads :
    (contains : Contains) (run : Ident) (ops : List Operation) (d : Db)
    → Ensures (check_operations contains run ops) d (λ _ d'. d' ≡ d)
unfolding check_operations
check_operations-reads contains run [] d = ensures-pure tt d refl
check_operations-reads contains run (op ∷ ops) d =
    ensures-bind (λ _ d'. d' ≡ d) (check_operation contains run op) _ d
      (check_operation-reads contains run op d)
      λ u d' same.
        subst (λ c. Ensures (check_operations contains run ops) d' (λ _ d'. d' ≡ c)) same
          (check_operations-reads contains run ops d')

-- Reservations leave proposals and decisions alone.
module _ (fingerprint : Operation → Text) (base : Db) where
  insert_reservation-same :
      (b : BusinessOperation) (d : Db)
      → SameProposals base d
      → Ensures (insert_reservation fingerprint b) d (λ _ d'. SameProposals base d')
  unfolding insert_reservation pure fail
  insert_reservation-same b d s =
      ensures-of _ d (elim (Option-cases (find_row (λ b. b.id) b.id d.business_operations)) [
        | inl missing ↦
            rw (missing, insert_reservation)
              (record { proposals = s.proposals; decisions = s.decisions })
        | inr (x, found) ↦ rw (found, insert_reservation) tt
      ])

  rebind-same :
      (proposal : Ident) (op : Operation) (b : BusinessOperation) (d : Db)
      → SameProposals base d
      → Ensures (rebind fingerprint proposal op b) d (λ _ d'. SameProposals base d')
  unfolding rebind
  rebind-same proposal op b d s = ensures-refuse _ _ _ d λ _. ensures-query _ _ d λ p _.
      ensures-gets _ _ d (
        ensures-refuse _ _ _ d λ _.
          ensures-exec (λ _ d'. SameProposals base d') _ d
            (record { proposals = s.proposals; decisions = s.decisions }))

  reserve_found-same :
      (id proposal : Ident) (op : Operation) (o : Option BusinessOperation) (d : Db)
      → SameProposals base d
      → Ensures (reserve_found fingerprint id proposal op o) d (λ _ d'. SameProposals base d')
  unfolding reserve_found
  reserve_found-same id proposal op none d s = insert_reservation-same _ d s
  reserve_found-same id proposal op (some b) d s = rebind-same proposal op b d s

  reserve_one-same :
      (id proposal : Ident) (op : Operation) (d : Db)
      → SameProposals base d
      → Ensures (reserve_one fingerprint id proposal op) d (λ _ d'. SameProposals base d')
  unfolding reserve_one
  reserve_one-same id proposal op d s =
      ensures-refuse _ _ _ d λ _. ensures-gets _ _ d (reserve_found-same id proposal op _ d s)

  reserve-same :
      (ids : ℕ → Ident) (n : ℕ) (proposal : Ident) (ops : List Operation) (d : Db)
      → SameProposals base d
      → Ensures (reserve fingerprint ids n proposal ops) d (λ _ d'. SameProposals base d')
  unfolding reserve
  reserve-same ids n proposal [] d s = ensures-pure tt d s
  reserve-same ids n proposal (op ∷ ops) d s =
      ensures-bind (λ _ d'. SameProposals base d') (reserve_one fingerprint (ids n) proposal op) _ d
        (reserve_one-same (ids n) proposal op d s)
        λ u d' s'. reserve-same ids (suc n) proposal ops d' s'

supersede-Gov : (task : Ident) (d : Db) → Gov d → Gov (supersede task d)
unfolding supersede
supersede-Gov task d v =
    IsGoverned-weaker (update_if (λ p. p.task_id == task && is_supersedable p.status) supersede_row)
      d.proposal_decisions d.proposals weaker v
  where
    weaker : IsWeaker (update_if (λ p. p.task_id == task && is_supersedable p.status) supersede_row)
    weaker = record {
      id = λ p. ground arith;
      creator = λ p. ground arith;
      endorsement = λ p. ground arith;
      approval = λ p. ground arith;
    }

insert_proposal-Gov :
    (p : Proposal) (d : Db)
    → needs_endorsement p.status ≡ false
    → needs_approval p.status ≡ false
    → Gov d
    → Ensures (insert_proposal p) d (λ _ d'. Gov d')
unfolding insert_proposal pure fail
insert_proposal-Gov p d e a v = ensures-of _ d (elim (Option-cases (find_proposal p.id d)) [
  | inl missing ↦
      rw (missing, insert_proposal)
        (IsGoverned-proposed d.proposal_decisions d.proposals p missing e a v)
  | inr (x, found) ↦ rw (found, insert_proposal) tt
])

pub create_proposal_tx-Gov :
    (h : Digests) (contains : Contains) (ids : NewIds) (now : Time) (task actor : Ident)
    (summary : Text) (origin : Origin) (run : Ident) (drafted : List Operation) (d : Db)
    → Gov d
    → Ensures
        (create_proposal_tx h contains ids now task actor summary origin run drafted)
        d
        (λ _ d'. Gov d')
unfolding create_proposal_tx
create_proposal_tx-Gov h contains ids now task actor summary origin run drafted d v =
    ensures-query _ _ d λ t _. ensures-refuse _ _ _ d λ _. ensures-refuse _ _ _ d λ _.
      ensures-gets _ _ d (
        ensures-bind (λ _ d'. d' ≡ d) (check_operations contains run ops) _ d
          (check_operations-reads contains run ops d)
          λ u d' same. ensures-exec-then _ _ d' (
            ensures-bind (λ _ d'. Gov d') (insert_proposal _) _ (supersede task d')
              (insert_proposal-Gov _ (supersede task d') refl refl
                (supersede-Gov task d' (subst Gov (sym same) v)))
              λ p d2 v2.
                ensures-bind (λ _ d3. SameProposals d2 d3)
                  (reserve h.of_operation ids.reservations 0 ids.proposal ops) _ d2
                  (reserve-same h.of_operation d2 ids.reservations 0 ids.proposal ops d2
                    (record { proposals = refl; decisions = refl }))
                  λ u d3 s3. ensures-pure p d3 (Gov-same d2 d3 s3 v2)))
  where
    ops : List Operation
    ops = name_operations ids.operations 0 drafted
