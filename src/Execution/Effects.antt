-- ===== src/Execution/Effects.antt =====
-- The loop of applyProposal over the pending effects: an operation is prepared by its connector, written
-- to the simulator's record at the version that was read, read back, and receipted.
use workforce_platform.Base.{
  ℕ, suc, Bool, true, false, not, ◌&&◌, ◌||◌, Option, none, some, List, [], ◌∷◌, ◌++◌, ◌==◌,
  if◌then◌else◌,
}
use workforce_platform.Base.Rows.{exists_where, update_where, set_row}
use workforce_platform.Schema.{Ident, Operation, Effect, EffectState, Receipt, SimulatorRecord, Db}
use workforce_platform.Schema.Values.{Fields}
use workforce_platform.Errors.{
  Result, ok, err, unique_violation, unknown_integration, readback_failed,
}
use workforce_platform.Tx.{Tx, ◌>>=◌, ◌>>◌, pure, fail, query_row, exec, refuse_if}
use workforce_platform.Connectors.{Record, Connector, prepare, get}
use workforce_platform.Proposals.{Digests, lift, find_record, as_record}

abbrev pub is_authorized : EffectState → Bool
is_authorized EffectState.authorized = true
is_authorized _ = false

abbrev pub operation_of : Effect → Operation
operation_of e = record {
  id = e.operation_id;
  integration = e.integration;
  action = e.action;
  business_key = [];
  target_id = e.target_id;
  expected_version = e.expected_version;
  payload = e.payload;
}

abbrev pub known : Option Connector → Result Connector
known none = err unknown_integration
known (some c) = ok c

abbrev pub write_record : Record → SimulatorRecord → SimulatorRecord
write_record next r = record r { version = next.version; fields = next.fields }

-- update simulator_records ... where id=$4 and version=$5
abbrev pub store_record : Ident → ℕ → Record → Db → Db
store_record target version next d = record d {
  simulator_records =
      update_where (λ r. r.id == target && r.version == version) (write_record next)
        d.simulator_records;
}

abbrev pub verify_row : Fields → Effect → Effect
verify_row observed e = record e { state = EffectState.verified; result = some observed }

abbrev pub verify_effect : Ident → Fields → Db → Db
verify_effect id observed d = record d {
  effects = set_row (λ e. e.id) id (verify_row observed) d.effects;
}

unfoldable pub insert_receipt : Receipt → Tx (Unit {0})
insert_receipt r d =
    if exists_where (λ x. x.id == r.id) d.receipts
    then fail unique_violation d
    else pure tt (record d { receipts = d.receipts ++ r ∷ [] })

module _ (h : Digests) where
  -- One round of the loop over the pending effects.
  unfoldable pub apply_effect : Ident → Effect → Tx (Unit {0})
  apply_effect receipt e = do
    cur ← query_row (find_record e.target_id)
    c ← lift (known (get e.integration))
    next ← lift (prepare c (as_record cur) (operation_of e))
    exec (store_record e.target_id cur.version next)
    seen ← query_row (find_record e.target_id)
    refuse_if
        (not (seen.version == next.version) || not (h.of_data seen.fields == h.of_data next.fields))
        readback_failed
    exec (verify_effect e.id seen.fields)
    insert_receipt (record { id = receipt; effect_id = e.id; result = next.fields })

  unfoldable pub apply_effects : (ℕ → Ident) → ℕ → List Effect → Tx (Unit {0})
  apply_effects ids n [] = pure tt
  apply_effects ids n (e ∷ es) = do apply_effect (ids n) e; apply_effects ids (suc n) es
