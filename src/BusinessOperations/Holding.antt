-- ===== src/BusinessOperations/Holding.antt =====
-- How one write of reserveBusinessOperations changes the rows of business operations.
use workforce_platform.Base.{
  ℕ, Bool, true, false, none, some, List, [], ◌∷◌, ◌++◌, map, ◌==◌, ◌≡◌, refl, sym, ap, ◌∙◌, subst,
  inl, inr, arith, Bool-cases, ==-refl,
}
use workforce_platform.Base.Rows.{
  find_where-map, find_where-append, find_row, find_where, update_if, IsKeyed, IsKeyed-map,
  IsKeyed-append, find_row-map, find_row-key, find_row-append,
}
use workforce_platform.Schema.{Ident, Text, Operation, BusinessOperation, BusinessStatus, Db}
use workforce_platform.BusinessOperations.{is_for, same_key, find_business, rebindable, rebind_row}

module _ {ℓ} {A : Type ℓ} where
  -- What any query finds is the row of its own key.
  find_where-find_row :
      (key : A → ℕ) (q : A → Bool) (xs : List A) (x : A)
      → IsKeyed key xs
      → find_where q xs ≡ some x
      → find_row key (key x) xs ≡ some x
  unfolding find_where
  find_where-find_row key q [] x u e = ground arith
  find_where-find_row key q (y ∷ xs) x u e = elim (Bool-cases (q y)) [
    | inl hit ↦ ground (arith, hit, e, ==-refl (key y))
    | inr miss ↦ ground (arith, miss, e, u.0, find_where-find_row key q xs x u.1)
  ]

pub same_key_refl : (xs : List ℕ) → same_key xs xs ≡ true
unfolding same_key
same_key_refl [] = refl
same_key_refl (x ∷ xs) = ground (arith, same_key_refl xs)

-- A row that a proposal still needs: it is being dispatched, or it is settled.
abbrev pub is_claimed : BusinessStatus → Bool
is_claimed BusinessStatus.reserved = false
is_claimed BusinessStatus.released = false
is_claimed _ = true

module _ (fingerprint : Operation → Text) (proposal : Ident) where
  pub record IsHeld (op : Operation) (d : Db) : Type 0 where
    pub row : BusinessOperation
    pub found : find_business op d ≡ some row
    pub holder : row.proposal_id ≡ proposal
    pub content : row.fingerprint ≡ fingerprint op
    pub reserved : row.status ≡ BusinessStatus.reserved

  -- What a round of the loop keeps, and the rows that it leaves.
  pub record Advances (d e : Db) : Type 0 where
    pub keyed : IsKeyed (λ b. b.id) e.business_operations
    pub claims :
        (k : Ident) (b : BusinessOperation)
        → find_row (λ b. b.id) k d.business_operations ≡ some b
        → is_claimed b.status ≡ true
        → find_row (λ b. b.id) k e.business_operations ≡ some b
    pub holds : (op : Operation) → IsHeld op d → IsHeld op e

  unfoldable pub Keyed : Db → Type 0
  Keyed d = IsKeyed (λ b. b.id) d.business_operations

  unfoldable pub inserted : BusinessOperation → Db → Db
  inserted b d = record d { business_operations = d.business_operations ++ b ∷ [] }

  pub inserted-Advances :
      (b : BusinessOperation) (d : Db)
      → Keyed d
      → find_row (λ b. b.id) b.id d.business_operations ≡ none
      → Advances d (inserted b d)
  unfolding Keyed inserted
  inserted-Advances b d u fresh = record {
    keyed = IsKeyed-append (λ b. b.id) d.business_operations b u fresh;
    claims = λ k x found _. find_row-append (λ b. b.id) k d.business_operations b ∙ rw found refl;
    holds = λ op held. record {
      row = held.row;
      found = find_where-append (is_for op) d.business_operations b ∙ rw held.found refl;
      holder = held.holder;
      content = held.content;
      reserved = held.reserved;
    };
  }

  unfoldable pub rebound : Operation → BusinessOperation → BusinessOperation → BusinessOperation
  rebound op b = update_if (λ x. x.id == b.id) (rebind_row fingerprint proposal op)

  pub rebound-is_for :
      (other op : Operation) (b x : BusinessOperation)
      → is_for other (rebound op b x) ≡ is_for other x
  unfolding rebound is_for
  rebound-is_for other op b x = ground arith

  pub rebound-Advances :
      (op : Operation) (b : BusinessOperation) (task : Ident) (d : Db)
      → Keyed d
      → find_business op d ≡ some b
      → b.fingerprint ≡ fingerprint op
      → rebindable b task d ≡ true
      → Advances d (record d { business_operations = map (rebound op b) d.business_operations })
  unfolding Keyed rebound rebindable
  rebound-Advances op b task d u found content free = record {
    keyed = IsKeyed-map (λ b. b.id) (rebound op b) (λ x. ground arith) d.business_operations u;
    claims = λ k x there claimed.
        find_row-map (λ b. b.id) k (rebound op b) (λ x. ground arith) d.business_operations
        ∙ rw there (kept x claimed (at_own k x there));
    holds = λ other held. record {
      row = rebound op b held.row;
      found =
          find_where-map (is_for other) (rebound op b) (rebound-is_for other op b)
            d.business_operations
          ∙ rw held.found refl;
      holder = ground (arith, held.holder);
      content = same_content other held.row held.content (
          find_where-find_row (λ b. b.id) (is_for other) d.business_operations held.row u
            held.found);
      reserved = ground (arith, held.reserved);
    };
  }
    where
      own_row : find_row (λ b. b.id) b.id d.business_operations ≡ some b
      own_row = find_where-find_row (λ b. b.id) (is_for op) d.business_operations b u found

      same_row :
          (x : BusinessOperation)
          → find_row (λ b. b.id) x.id d.business_operations ≡ some x
          → (x.id == b.id) ≡ true
          → x ≡ b
      same_row x there hit = ground (arith, there, own_row, at_id)
        where
          at_id : find_row (λ b. b.id) b.id d.business_operations ≡ some x
          at_id =
              subst (λ n. find_row (λ b. b.id) n d.business_operations ≡ some x)
                (ground (arith, hit)) there

      at_own :
          (k : Ident) (x : BusinessOperation)
          → find_row (λ b. b.id) k d.business_operations ≡ some x
          → find_row (λ b. b.id) x.id d.business_operations ≡ some x
      at_own k x there =
          subst (λ n. find_row (λ b. b.id) n d.business_operations ≡ some x)
            (sym (find_row-key (λ b. b.id) k d.business_operations x there)) there

      unclaimed : is_claimed b.status ≡ false
      unclaimed = ground (arith, free)

      kept :
          (x : BusinessOperation)
          → is_claimed x.status ≡ true
          → find_row (λ b. b.id) x.id d.business_operations ≡ some x
          → some (rebound op b x) ≡ some x
      kept x claimed there = elim (Bool-cases (x.id == b.id)) [
        | inl hit ↦
            ground (arith, ap (λ y. is_claimed y.status) (same_row x there hit), claimed, unclaimed)
        | inr miss ↦ rw miss refl
      ]

      same_content :
          (other : Operation) (x : BusinessOperation)
          → x.fingerprint ≡ fingerprint other
          → find_row (λ b. b.id) x.id d.business_operations ≡ some x
          → (rebound op b x).fingerprint ≡ fingerprint other
      same_content other x same there = elim (Bool-cases (x.id == b.id)) [
        | inl hit ↦
            ground (arith, hit, ap (λ y. y.fingerprint) (same_row x there hit), same, content)
        | inr miss ↦ rw miss same
      ]
