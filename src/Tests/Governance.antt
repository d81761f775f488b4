-- ===== src/Tests/Governance.antt =====
-- A proposal from its draft to its effects, run and witnessed.
use workforce_platform.Base.{ℕ, Bool, ◌+◌, true, false, some, List, [], ◌∷◌, ◌≡◌, refl}
use workforce_platform.Base.Rows.{All, find_row, find_where, exists_where, select_where, length}
use workforce_platform.Base.Int.{pos, ◌+ℤ◌, ◌-ℤ◌}
use workforce_platform.Schema.{
  Ident, Operation, Proposal, ProposalStatus, BusinessOperation, BusinessStatus, DecisionKind,
  Origin, Db,
}
use workforce_platform.Errors.{ok}
use workforce_platform.Tx.{◌>>=◌, with_org}
use workforce_platform.BusinessOperations.{
  find_proposal, reserve, reserve_one, reserve_found, insert_reservation, reservation, matches_key,
  all_key_chars, is_for, same_key, move_business,
}
use workforce_platform.BusinessOperations.Holding.{IsHeld}
use workforce_platform.BusinessOperations.Reserving.{reserve_holds, reserve_keeps_claims}
use workforce_platform.Connectors.{
  prepare, validate, manifest, get, prep, adjust, adjust_by, add_quantity,
}
use workforce_platform.Connectors.Payloads.{
  get_field, set_field, listed, parse, parse_members, integer,
}
use workforce_platform.Connectors.Manifests.{check}
use workforce_platform.Proposals.{
  Digests, NewIds, create_proposal_tx, check_operations, check_operation, name_operations,
  last_revision, supersede, insert_proposal, new_proposal,
}
use workforce_platform.Decisions.{
  decide, record_decision, carry_out, approve_proposal, authorize, insert_effect,
}
use workforce_platform.Decisions.Governed.{is_own_endorsement, is_separate_approval}
use workforce_platform.Execution.{
  execute_proposal, apply_proposal, apply_if_permitted, is_permitted, run_effects, apply_effects,
  apply_effect, insert_receipt, enqueue_all, enqueue_eligible_children,
}
use workforce_platform.Execution.AllOrNothing.{Outcome, execute_all_or_nothing}
use workforce_platform.Governance.{
  proposes, decides, executes, Reaches, begin, next_step, two_person_rule,
}
use workforce_platform.Tests.Samples.{warehouse, three_more, seven_more}

abbrev pub digests : Digests
digests = record {
  of_operations = length;
  of_operation = λ op. op.target_id;
  of_data = λ fs. elim (integer (get_field "quantity" fs)) [ some (pos n) ↦ n | _ ↦ 0 ];
}

abbrev pub contains : List ℕ → Ident → Bool
contains _ _ = false

abbrev pub fresh : NewIds
fresh = record { proposal = 60; operations = λ n. 70 + n; reservations = λ n. 80 + n }

-- Ada drafts, Ada endorses, Cy approves, the worker executes.
abbrev drafted : Db
drafted =
    (with_org (create_proposal_tx digests contains fresh 5 10 1 9 Origin.human 0 (three_more ∷ []))
      warehouse).1

abbrev endorsed : Db
endorsed = (with_org (decide 90 (λ n. 100 + n) 60 1 DecisionKind.endorse 1 1 4) drafted).1

abbrev decided_db : Db
decided_db = (with_org (decide 91 (λ n. 100 + n) 60 3 DecisionKind.approve 1 1 4) endorsed).1

abbrev executed : Db
executed = (execute_proposal digests (λ n. 110 + n) 60 decided_db).1

drafts : length drafted.proposals ≡ 1
unfolding create_proposal_tx check_operations check_operation name_operations last_revision
    supersede insert_proposal reserve reserve_one reserve_found insert_reservation matches_key
    all_key_chars is_for same_key prepare validate manifest get prep adjust adjust_by add_quantity
    get_field set_field listed parse parse_members integer check ◌+ℤ◌ ◌-ℤ◌ with_org find_where
    exists_where select_where ◌>>=◌
drafts = refl

abbrev wanted : List Operation
wanted = record three_more { id = 70 } ∷ []

abbrev in_status : ProposalStatus → Proposal
in_status s = record (new_proposal digests fresh 5 10 1 9 Origin.human 0 1 wanted) { status = s }

approves : find_proposal 60 decided_db ≡ some (in_status ProposalStatus.approved)
unfolding create_proposal_tx check_operations check_operation name_operations last_revision
    supersede insert_proposal reserve reserve_one reserve_found insert_reservation matches_key
    all_key_chars is_for same_key prepare validate manifest get prep adjust adjust_by add_quantity
    get_field set_field listed parse parse_members integer check ◌+ℤ◌ ◌-ℤ◌ with_org find_where
    exists_where select_where ◌>>=◌ decide record_decision carry_out approve_proposal authorize
    insert_effect move_business
approves = refl

finishes : find_proposal 60 executed ≡ some (in_status ProposalStatus.done)
unfolding create_proposal_tx check_operations check_operation name_operations last_revision
    supersede insert_proposal reserve reserve_one reserve_found insert_reservation matches_key
    all_key_chars is_for same_key prepare validate manifest get prep adjust adjust_by add_quantity
    get_field set_field listed parse parse_members integer check ◌+ℤ◌ ◌-ℤ◌ with_org find_where
    exists_where select_where ◌>>=◌ decide record_decision carry_out approve_proposal authorize
    insert_effect move_business execute_proposal apply_proposal apply_if_permitted is_permitted
    run_effects apply_effects apply_effect insert_receipt enqueue_eligible_children enqueue_all
finishes = refl

history : Reaches digests contains warehouse executed
history =
    next_step decided_db executed
      (next_step endorsed decided_db
        (next_step drafted endorsed
          (next_step warehouse drafted begin
            (proposes fresh 5 10 1 9 Origin.human 0 (three_more ∷ [])))
          (decides 90 (λ n. 100 + n) 60 1 DecisionKind.endorse 1 1 4))
        (decides 91 (λ n. 100 + n) 60 3 DecisionKind.approve 1 1 4))
      (executes (λ n. 110 + n) 60)

two_person_rule_example :
    (exists_where (is_own_endorsement (in_status ProposalStatus.done)) executed.proposal_decisions
      ≡ true)
    × (exists_where
          (is_separate_approval (in_status ProposalStatus.done))
          executed.proposal_decisions
        ≡ true)
two_person_rule_example =
    two_person_rule digests contains warehouse executed 60 (in_status ProposalStatus.done) refl
      history finishes refl

execute_all_or_nothing_example : Outcome 60 (in_status ProposalStatus.approved) decided_db executed
execute_all_or_nothing_example =
    execute_all_or_nothing digests (λ n. 110 + n) 60 decided_db (in_status ProposalStatus.approved)
      approves

-- A row that another proposal is dispatching, and two reservations beside it.
abbrev dispatched : BusinessOperation
dispatched = record (reservation digests.of_operation 5 59 seven_more) {
  status = BusinessStatus.dispatching;
}

abbrev busy : Db
busy = record warehouse { business_operations = dispatched ∷ [] }

abbrev reserved_db : Db
reserved_db = record warehouse {
  business_operations = dispatched ∷ reservation digests.of_operation 80 60 three_more ∷ [];
}

reserves :
    reserve digests.of_operation (λ n. 80 + n) 0 60 (three_more ∷ []) busy ≡ ok (tt, reserved_db)
unfolding reserve reserve_one reserve_found insert_reservation matches_key all_key_chars is_for
    same_key find_where ◌>>=◌
reserves = refl

reserve_holds_example : All (λ op. IsHeld digests.of_operation 60 op reserved_db) (three_more ∷ [])
unfolding find_where
reserve_holds_example =
    reserve_holds digests.of_operation 60 (λ n. 80 + n) (three_more ∷ []) busy reserved_db
      (refl, tt) reserves

reserve_keeps_claims_example :
    find_row (λ b. b.id) 5 reserved_db.business_operations ≡ some dispatched
unfolding find_where
reserve_keeps_claims_example =
    reserve_keeps_claims digests.of_operation 60 (λ n. 80 + n) (three_more ∷ []) busy reserved_db 5
      dispatched (refl, tt) refl refl reserves
