-- ===== src/Connectors/Inventory.antt =====
-- The inventory connector keeps a quantity within 0 and 2^53 - 1, and touches nothing else.
use Prim.Native.String.{String}
use text.Mathlib.TextEquality.{eq_iff}
use workforce_platform.Base.{
  ℕ, ◌+◌, ◌-◌, ◌≤◌, true, none, some, [], ◌∷◌, ◌≡◌, ◌≢◌, ap, ◌∙◌, inl, inr, arith, Option-cases,
}
use workforce_platform.Base.Int.{ℤ, pos, negsuc, ◌+ℤ◌, ◌-ℤ◌}
use workforce_platform.Schema.{Operation}
use workforce_platform.Schema.Values.{Fields, Payload, number, int64}
use workforce_platform.Errors.{ok, Result-cases}
use workforce_platform.Connectors.Payloads.{get_field, set_field, max_safe, parse, integer}
use workforce_platform.Connectors.{
  Record, inventory, prepare, adjust, adjust_by, add_quantity, fits_quantity,
}
use workforce_platform.Connectors.Preparing.{get_field-set_field, prep-eq-ok}

-- The bounds that are checked before the addition hold after it.
quantity_in_bounds :
    (delta q : ℤ) → fits_quantity delta q ≡ true → (n : ℕ) × (q +ℤ delta ≡ pos n) × (n ≤ max_safe)
unfolding ◌+ℤ◌ ◌-ℤ◌
quantity_in_bounds (pos d) (pos q) h = (q + d, ground arith, ground arith)
quantity_in_bounds (negsuc d) (pos q) h = (q - (d + 1), ground arith, ground arith)
quantity_in_bounds delta (negsuc q) h = absurd (ground arith)

-- What an adjustment from the data `before` to the data `after` must satisfy.
pub record IsAdjustment (payload : Payload) (before after : Fields) : Type 0 where
  pub arguments : Fields
  pub parsed : parse payload ("delta" ∷ []) ≡ ok arguments
  pub delta : ℤ
  pub is_delta : integer (get_field "delta" arguments) ≡ some delta
  pub quantity : ℤ
  pub is_quantity : integer (get_field "quantity" before) ≡ some quantity
  pub total : ℕ
  pub is_total : quantity +ℤ delta ≡ pos total
  pub bounded : total ≤ max_safe
  pub written : get_field "quantity" after ≡ some (number (int64 (pos total)))
  pub others : (k : String) → k ≢ "quantity" → get_field k after ≡ get_field k before

module _ (payload : Payload) (before after : Fields) where
  add_quantity-IsAdjustment :
      (p : Fields) (delta q : ℤ)
      → parse payload ("delta" ∷ []) ≡ ok p
      → integer (get_field "delta" p) ≡ some delta
      → integer (get_field "quantity" before) ≡ some q
      → add_quantity delta (some q) before ≡ ok after
      → IsAdjustment payload before after
  unfolding add_quantity
  add_quantity-IsAdjustment p delta q is_p is_delta is_q e =
      let fits : fits_quantity delta q ≡ true = ground arith in
      let (n, is_total, bounded) = quantity_in_bounds delta q fits in
      let is_after : after ≡ set_field "quantity" (number (int64 (q +ℤ delta))) before =
        ground arith in
      record {
        arguments = p;
        parsed = is_p;
        delta = delta;
        is_delta = is_delta;
        quantity = q;
        is_quantity = is_q;
        total = n;
        is_total = is_total;
        bounded = bounded;
        written =
            ap (get_field "quantity") is_after
            ∙ get_field-set_field "quantity" "quantity" (number (int64 (q +ℤ delta))) before
            ∙ ap (λ z. some (number (int64 z))) is_total;
        others = λ k differs.
            ap (get_field k) is_after
            ∙ get_field-set_field "quantity" k (number (int64 (q +ℤ delta))) before
            ∙ ground (arith, eq_iff "quantity" k);
      }

  no_quantity : (delta : ℤ) → add_quantity delta none before ≢ ok after
  unfolding add_quantity
  no_quantity delta e = cc

  adjust-IsAdjustment : adjust payload before ≡ ok after → IsAdjustment payload before after
  unfolding adjust adjust_by
  adjust-IsAdjustment e = elim (Result-cases (parse payload ("delta" ∷ []))) [
    | inr (x, f) ↦ absurd (ground arith)
    | inl (p, is_p) ↦ elim (Option-cases (integer (get_field "delta" p))) [
      | inl none_such ↦ absurd (ground arith)
      | inr (delta, is_delta) ↦ elim (Option-cases (integer (get_field "quantity" before))) [
        | inl none_such ↦ absurd (no_quantity delta (ground arith))
        | inr (q, is_q) ↦ add_quantity-IsAdjustment p delta q is_p is_delta is_q (ground arith)
      ]
    ]
  ]

-- A prepared inventory operation is an adjustment: the new quantity is the old one plus the payload's
-- delta, between 0 and 2^53 - 1, so that every JSON reader gets it exactly, and no other member of the
-- record changes.
pub prepare-IsAdjustment :
    (cur next : Record) (op : Operation)
    → prepare inventory cur op ≡ ok next
    → IsAdjustment op.payload cur.fields next.fields
unfolding prepare
prepare-IsAdjustment cur next op e =
    let (_, _, _, _, _, changed) = prep-eq-ok _ (adjust op.payload) cur next op e in
    adjust-IsAdjustment op.payload cur.fields next.fields changed
