-- ===== src/Tests/Boards.antt =====
-- The boards, run and witnessed.
use workforce_platform.Base.{none, some, [], ◌∷◌, ltb, ◌≡◌, refl}
use workforce_platform.Base.Rows.{exists_where, select_where, insert_ordered, order_by}
use workforce_platform.Schema.{TaskStatus, HandoffRole, HandoffState, Db}
use workforce_platform.Errors.{ok}
use workforce_platform.Tx.{gets}
use workforce_platform.Execution.{is_blocked}
use workforce_platform.Boards.{WorkBoardItem, handoff_offered, work_board, unmet, first_of, blocker}
use workforce_platform.Boards.Blocked.{is_found, blocker-is_blocked}
use workforce_platform.Tests.Samples.{office, task_of}

-- Task 10 is in the way of task 11; task 12 is offered to Cy (3) until 50.
abbrev offered_office : Db
offered_office = record office {
  handoffs =
      record {
        id = 90;
        task_id = 12;
        offered_task_version = 1;
        recipient_id = 3;
        role = HandoffRole.owner;
        summary = 0;
        state = HandoffState.offered;
        created_by = 1;
        created_at = 5;
        expires_at = some 50;
        accepted_at = none;
        resolved_at = none;
        reason = 0;
        hop_depth = 1;
      }
      ∷ [];
}

abbrev offered_item : WorkBoardItem
offered_item = record {
  task_id = 12;
  title = 7;
  status = TaskStatus.ready;
  version = 1;
  created_at = 1;
  relevance = handoff_offered;
  blocker_task_id = 0;
  blocker_title = 0;
  blocker_owner_id = 0;
}

test_board_of_cy : work_board ltb 40 3 offered_office ≡ ok (offered_item ∷ [], offered_office)
unfolding work_board gets select_where order_by insert_ordered exists_where unmet first_of
test_board_of_cy = refl

-- The offer is over at 60.
test_board_after_expiry : work_board ltb 60 3 offered_office ≡ ok ([], offered_office)
unfolding work_board gets select_where order_by exists_where
test_board_after_expiry = refl

test_blocker : blocker (task_of 11 TaskStatus.ready) office ≡ some (task_of 10 TaskStatus.ready)
unfolding unmet select_where order_by insert_ordered first_of
test_blocker = refl

blocker-is_blocked_example :
    is_found (blocker (task_of 11 TaskStatus.ready) office) ≡ is_blocked 11 office
blocker-is_blocked_example = blocker-is_blocked (task_of 11 TaskStatus.ready) office
