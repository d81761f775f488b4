-- ===== src/Errors.antt =====
-- The errors of the Go packages store and connectors, by their messages, and results.
use workforce_platform.Base.{ℕ, ◌≡◌, refl, ◌⊎◌, inl, inr}

-- The public codes of a failed run; `reported` is the runner's own.
pub data RunFailure : Type 0 where
  internal_error task_no_longer_active actor_revoked invalid_gate_schema : RunFailure
  stale_operation refused_operation foreign_operation : RunFailure
  reported : ℕ → RunFailure

-- `err_stale`, `err_invalid` and `err_unknown` are the sentinels of the package connectors.
pub data Error : Type 0 where
  not_found unique_violation invalid_json_text foreign_key_violation query_did_not_end : Error
  unsupported_handoff_role only_owner_or_assignee_may_hand_off recipient_inactive
        handoff_hop_limit_reached handoff_unavailable stale_handoff only_recipient_may_clarify
        only_creator_may_cancel only_recipient_may_reply :
      Error
  dependency_cycle task_not_found stale_task_or_not_cancellable terminal_task cancelled_task : Error
  only_task_owner_may_propose invalid_operation stale_record unknown_operation invalid_record
        run_scoped_business_key :
      Error
  identity_unavailable stale_proposal only_requester_may_endorse separate_approver_required
        invalid_decision proposal_not_pending_approval unknown_integration readback_failed :
      Error
  err_stale err_invalid err_unknown : Error
  run_held_by_live_lease : Error
  login_transaction_unusable session_invalid missing_argument positive_ttl_required : Error
  publish_error : RunFailure → Error
  parent_position_not_found unsupported_relationship_kind relationship_ends_before_start
        position_not_found management_cycle relationship_must_end_after_it_began
        exclusion_violation :
      Error
  check_violation invalid_lifecycle_transition admin_required registry_version_conflict
        no_capabilities_supplied :
      Error
  verifier_length verifier_character : Error
  auth_mode_required production_requires_oidc unsupported_auth_mode issuer_required
        audience_required issuer_not_absolute issuer_not_https :
      Error
  ui_origin_not_absolute production_requires_https production_requires_secure_cookies
        local_tokens_required malformed_local_entry invalid_local_identity invalid_local_role
        duplicate_local_token :
      Error
  trailing_backslash unbalanced_quote empty_word unknown_runner : Error
  harness_unsupported no_active_harness capabilities_not_granted only_owner_or_admin_may_run : Error
  template_name_required template_version_required harness_required stale_template
        only_draft_published template_harness_unsupported template_not_published
        capabilities_beyond_template :
      Error
  principal_not_in_organization account_linked_elsewhere no_active_link
        last_account_of_administrator no_linked_identity invalid_role :
      Error
  principal_is_required principal_not_found principal_is_not_active : Error
  milestone_depends_on_itself milestone_name_required acceptance_evidence_required project_not_found
        cancelled_milestone milestone_not_found completion_evidence_required stale_milestone
        milestone_already_met prerequisites_not_met :
      Error
  gate_not_found gate_not_respondent gate_revision gate_already_resolved gate_invalid_response
        gate_invalid_schema :
      Error
  invalid_business_key reserved_with_other_content claimed_or_dispatched : Error

pub data Result {ℓ} (A : Type ℓ) : Type ℓ where
  ok : A → Result A
  err : Error → Result A

pub Result-cases {ℓ} :
    {A : Type ℓ} (r : Result A) → ((a : A) × (r ≡ ok a)) ⊎ ((e : Error) × (r ≡ err e))
Result-cases (ok a) = inl (a, refl)
Result-cases (err e) = inr (e, refl)
