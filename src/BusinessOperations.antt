-- ===== src/BusinessOperations.antt =====
-- internal/store/business_operations.go: one row per official operation, which a proposal reserves.
-- `fingerprint` is operationFingerprint, a SHA-256 over the operation's JSON: a parameter, as is the
-- order of the identifiers from platform.NewID.
pub mod Holding
pub mod Reserving
use Prim.Native.String.{String}
use text.Mathlib.Text.{◌==◌ as str_eq}
use workforce_platform.Base.{
  ℕ, suc, ◌+◌, Bool, true, false, not, ◌&&◌, ◌||◌, Option, none, some, List, [], ◌∷◌, ◌++◌, ◌==◌,
  leb, if◌then◌else◌,
}
use workforce_platform.Base.Rows.{find_row, find_where, update_where, set_row, length}
use workforce_platform.Schema.{
  Ident, Text, Operation, Proposal, ProposalStatus, BusinessOperation, BusinessStatus, Db,
}
use workforce_platform.Errors.{
  Error, unique_violation, invalid_business_key, reserved_with_other_content, claimed_or_dispatched,
}
use workforce_platform.Tx.{Tx, ◌>>=◌, ◌>>◌, pure, fail, gets, query_row, exec, refuse_if}

abbrev pub is_alnum : ℕ → Bool
is_alnum c =
    (leb b'A' c && leb c b'Z') || ((leb b'a' c && leb c b'z') || (leb b'0' c && leb c b'9'))

-- [A-Za-z0-9+]
abbrev pub is_key_start : ℕ → Bool
is_key_start c = is_alnum c || c == b'+'

-- [A-Za-z0-9._:/+@-]
abbrev pub is_key_char : ℕ → Bool
is_key_char c =
    is_alnum c
    || (c == b'.'
        || (c == b'_' || (c == b':' || (c == b'/' || (c == b'+' || (c == b'@' || c == b'-'))))))

unfoldable pub all_key_chars : List ℕ → Bool
all_key_chars [] = true
all_key_chars (c ∷ cs) = is_key_char c && all_key_chars cs

-- businessKeyRE: one start character and at most 199 more.
unfoldable pub matches_key : List ℕ → Bool
matches_key [] = false
matches_key (c ∷ cs) = is_key_start c && (all_key_chars cs && leb (length cs) 199)

unfoldable pub same_key : List ℕ → List ℕ → Bool
same_key [] [] = true
same_key (x ∷ xs) (y ∷ ys) = x == y && same_key xs ys
same_key _ _ = false

-- integration = $2 and action = $3 and business_key = $4
unfoldable pub is_for : Operation → BusinessOperation → Bool
is_for op b =
    str_eq b.integration op.integration
    && (str_eq b.action op.action && same_key b.business_key op.business_key)

abbrev pub find_business : Operation → Db → Option BusinessOperation
find_business op d = find_where (is_for op) d.business_operations

abbrev pub find_proposal : Ident → Db → Option Proposal
find_proposal id d = find_row (λ p. p.id) id d.proposals

-- What the holder's proposal says about a reserved row.
abbrev pub holder_gone : Option Proposal → Ident → Bool
holder_gone none task = false
holder_gone (some p) task = elim p.status [
  | ProposalStatus.rejected ↦ true
  | ProposalStatus.superseded ↦ p.task_id == task
  | _ ↦ false
]

unfoldable pub rebindable : BusinessOperation → Ident → Db → Bool
rebindable b task d = elim b.status [
  | BusinessStatus.released ↦ true
  | BusinessStatus.reserved ↦
      not (b.proposal_id == 0) && holder_gone (find_proposal b.proposal_id d) task
  | _ ↦ false
]

module _ (fingerprint : Operation → Text) where
  abbrev pub reservation : Ident → Ident → Operation → BusinessOperation
  reservation id proposal op = record {
    id = id;
    integration = op.integration;
    action = op.action;
    business_key = op.business_key;
    fingerprint = fingerprint op;
    proposal_id = proposal;
    status = BusinessStatus.reserved;
  }

  abbrev pub rebind_row : Ident → Operation → BusinessOperation → BusinessOperation
  rebind_row proposal op b = record b {
    proposal_id = proposal;
    status = BusinessStatus.reserved;
    fingerprint = fingerprint op;
  }

  unfoldable pub insert_reservation : BusinessOperation → Tx (Unit {0})
  insert_reservation b d = elim (find_row (λ b. b.id) b.id d.business_operations) [
    | some _ ↦ fail unique_violation d
    | none ↦ pure tt (record d { business_operations = d.business_operations ++ b ∷ [] })
  ]

  unfoldable pub rebind : Ident → Operation → BusinessOperation → Tx (Unit {0})
  rebind proposal op b = do
    refuse_if (not (b.fingerprint == fingerprint op)) reserved_with_other_content
    p ← query_row (find_proposal proposal)
    free ← gets (rebindable b p.task_id)
    refuse_if (not free) claimed_or_dispatched
    exec (λ d. record d {
      business_operations = set_row (λ b. b.id) b.id (rebind_row proposal op) d.business_operations;
    })

  unfoldable pub reserve_found :
      Ident → Ident → Operation → Option BusinessOperation → Tx (Unit {0})
  reserve_found id proposal op none = insert_reservation (reservation id proposal op)
  reserve_found id proposal op (some b) = rebind proposal op b

  -- One round of the loop in reserveBusinessOperations.
  unfoldable pub reserve_one : Ident → Ident → Operation → Tx (Unit {0})
  reserve_one id proposal op = do
    refuse_if (not (matches_key op.business_key)) invalid_business_key
    found ← gets (find_business op)
    reserve_found id proposal op found

  -- The n-th operation of the list draws the n-th identifier.
  unfoldable pub reserve : (ℕ → Ident) → ℕ → Ident → List Operation → Tx (Unit {0})
  reserve ids n proposal [] = pure tt
  reserve ids n proposal (op ∷ ops) = do
    reserve_one (ids n) proposal op
    reserve ids (suc n) proposal ops

abbrev pub is_held_by : Ident → BusinessStatus → BusinessOperation → Bool
is_held_by proposal status b = b.proposal_id == proposal && elim status [
  | BusinessStatus.reserved ↦ elim b.status [ BusinessStatus.reserved ↦ true | _ ↦ false ]
  | BusinessStatus.dispatching ↦ elim b.status [ BusinessStatus.dispatching ↦ true | _ ↦ false ]
  | _ ↦ false
]

-- update business_operations set status=... where proposal_id=$2 and status=...
unfoldable pub move_business : Ident → BusinessStatus → BusinessStatus → Db → Db
move_business proposal from to d = record d {
  business_operations =
      update_where (is_held_by proposal from) (λ b. record b { status = to }) d.business_operations;
}

-- releaseBusinessOperations
unfoldable pub release : Ident → Tx (Unit {0})
release proposal = exec (move_business proposal BusinessStatus.reserved BusinessStatus.released)
