-- ===== src/BusinessOperations/Reserving.antt =====
-- reserveBusinessOperations gives every operation's row to the proposal, and takes no row from a
-- proposal that still needs it.
use text.Mathlib.TextPositions.{eq_refl}
use workforce_platform.Base.{
  ℕ, suc, true, Option, none, some, List, [], ◌∷◌, ◌≡◌, refl, ◌∙◌, inl, inr, arith, Option-cases,
  ==-refl,
}
use workforce_platform.Base.Rows.{All, find_row, IsKeyed}
use workforce_platform.Schema.{Ident, Text, Operation, BusinessOperation, Db}
use workforce_platform.Errors.{ok}
use workforce_platform.Tx.{pure, fail}
use workforce_platform.Tx.Ensures.{
  Ensures, ensures-of, ensures-pure, ensures-bind, ensures-gets, ensures-query, ensures-refuse,
  ensures-exec, ensures-weaken, ensures-ok,
}
use workforce_platform.BusinessOperations.Holding.{
  same_key_refl, is_claimed, IsHeld, Advances, Keyed, inserted, inserted-Advances, rebound,
  rebound-is_for, rebound-Advances,
}
use workforce_platform.Base.Rows.{find_where-map, find_where-append}
use workforce_platform.BusinessOperations.{
  is_for, find_business, reservation, insert_reservation, rebind, reserve_found, reserve_one,
  reserve,
}

module _ (fingerprint : Operation → Text) (proposal : Ident) where
  abbrev Round : List Operation → Db → Db → Type 0
  Round ops d e =
      Advances fingerprint proposal d e × All (λ op. IsHeld fingerprint proposal op e) ops

  own : (id : Ident) (op : Operation) → is_for op (reservation fingerprint id proposal op) ≡ true
  unfolding is_for
  own id op = rw (eq_refl op.integration, eq_refl op.action, same_key_refl op.business_key) refl

  insert-Round :
      (id : Ident) (op : Operation) (d : Db)
      → Keyed fingerprint proposal d
      → find_business op d ≡ none
      → Ensures
          (insert_reservation fingerprint (reservation fingerprint id proposal op))
          d
          (λ _ e. Round (op ∷ []) d e)
  unfolding insert_reservation pure fail inserted
  insert-Round id op d u free =
      ensures-of _ d (elim (Option-cases (find_row (λ b. b.id) id d.business_operations)) [
        | inl fresh ↦
            rw (fresh, insert_reservation)
              (
                inserted-Advances fingerprint proposal (reservation fingerprint id proposal op) d u
                    fresh,
                (held, tt),
              )
        | inr (x, there) ↦ rw (there, insert_reservation) tt
      ])
    where
      held :
          IsHeld fingerprint proposal op
            (inserted fingerprint proposal (reservation fingerprint id proposal op) d)
      held = record {
        row = reservation fingerprint id proposal op;
        found =
            find_where-append (is_for op) d.business_operations
              (reservation fingerprint id proposal op)
            ∙ rw (free, own id op) refl;
        holder = refl;
        content = refl;
        reserved = refl;
      }

  rebind-Round :
      (op : Operation) (b : BusinessOperation) (d : Db)
      → Keyed fingerprint proposal d
      → find_business op d ≡ some b
      → Ensures (rebind fingerprint proposal op b) d (λ _ e. Round (op ∷ []) d e)
  unfolding rebind rebound
  rebind-Round op b d u found = ensures-refuse _ _ _ d λ same. ensures-query _ _ d λ p _.
      ensures-gets _ _ d (
        ensures-refuse _ _ _ d λ free.
          ensures-exec (λ _ e. Round (op ∷ []) d e) _ d
            (
              rebound-Advances fingerprint proposal op b p.task_id d u found (ground (arith, same))
                  (ground (arith, free)),
              (
                record {
                  row = rebound fingerprint proposal op b b;
                  found =
                      find_where-map (is_for op) (rebound fingerprint proposal op b)
                        (rebound-is_for fingerprint proposal op op b) d.business_operations
                      ∙ rw found refl;
                  holder = rw (==-refl b.id) refl;
                  content = rw (==-refl b.id) refl;
                  reserved = rw (==-refl b.id) refl;
                },
                tt,
              ),
            ))

  reserve_found-Round :
      (id : Ident) (op : Operation) (o : Option BusinessOperation) (d : Db)
      → Keyed fingerprint proposal d
      → find_business op d ≡ o
      → Ensures (reserve_found fingerprint id proposal op o) d (λ _ e. Round (op ∷ []) d e)
  unfolding reserve_found
  reserve_found-Round id op none d u found = insert-Round id op d u found
  reserve_found-Round id op (some b) d u found = rebind-Round op b d u found

  reserve_one-Round :
      (id : Ident) (op : Operation) (d : Db)
      → Keyed fingerprint proposal d
      → Ensures (reserve_one fingerprint id proposal op) d (λ _ e. Round (op ∷ []) d e)
  unfolding reserve_one
  reserve_one-Round id op d u =
      ensures-refuse _ _ _ d λ _. ensures-gets _ _ d (reserve_found-Round id op _ d u refl)

  Advances-refl : (d : Db) → Keyed fingerprint proposal d → Advances fingerprint proposal d d
  unfolding Keyed
  Advances-refl d u = record { keyed = u; claims = λ k b found _. found; holds = λ op held. held }

  Advances-trans :
      (c d e : Db)
      → Advances fingerprint proposal c d
      → Advances fingerprint proposal d e
      → Advances fingerprint proposal c e
  Advances-trans c d e s t = record {
    keyed = t.keyed;
    claims = λ k b found claimed. t.claims k b (s.claims k b found claimed) claimed;
    holds = λ op held. t.holds op (s.holds op held);
  }

  reserve-Round :
      (ids : ℕ → Ident) (n : ℕ) (ops : List Operation) (d : Db)
      → Keyed fingerprint proposal d
      → Ensures (reserve fingerprint ids n proposal ops) d (λ _ e. Round ops d e)
  unfolding reserve Keyed
  reserve-Round ids n [] d u = ensures-pure tt d (Advances-refl d u, tt)
  reserve-Round ids n (op ∷ ops) d u =
      ensures-bind (λ _ e. Round (op ∷ []) d e) (reserve_one fingerprint (ids n) proposal op) _ d
        (reserve_one-Round (ids n) op d u)
        λ _ e one.
          ensures-weaken (λ _ f. Round ops e f) (λ _ f. Round (op ∷ ops) d f) _ e
            (λ _ f rest. (Advances-trans d e f one.0 rest.0, (rest.0.holds op one.1.0, rest.1)))
            (reserve-Round ids (suc n) ops e one.0.keyed)

  -- Reservations that commit leave each operation of the list with a reserved row that the proposal
  -- holds with the operation's fingerprint, where the table's identifiers are unique.
  pub reserve_holds :
      (ids : ℕ → Ident) (ops : List Operation) (d e : Db)
      → IsKeyed (λ b. b.id) d.business_operations
      → reserve fingerprint ids 0 proposal ops d ≡ ok (tt, e)
      → All (λ op. IsHeld fingerprint proposal op e) ops
  unfolding Keyed
  reserve_holds ids ops d e u r =
      (ensures-ok (λ _ e. Round ops d e) (reserve fingerprint ids 0 proposal ops) d tt e
        (reserve-Round ids 0 ops d u) r).1

  -- Reservations that commit leave a row that is being dispatched or is settled as it was, whatever
  -- operations they are for, where the table's identifiers are unique.
  pub reserve_keeps_claims :
      (ids : ℕ → Ident) (ops : List Operation) (d e : Db) (k : Ident) (b : BusinessOperation)
      → IsKeyed (λ b. b.id) d.business_operations
      → find_row (λ b. b.id) k d.business_operations ≡ some b
      → is_claimed b.status ≡ true
      → reserve fingerprint ids 0 proposal ops d ≡ ok (tt, e)
      → find_row (λ b. b.id) k e.business_operations ≡ some b
  unfolding Keyed
  reserve_keeps_claims ids ops d e k b u found claimed r =
      (ensures-ok (λ _ e. Round ops d e) (reserve fingerprint ids 0 proposal ops) d tt e
          (reserve-Round ids 0 ops d u) r).0.claims
        k b found claimed
