-- ===== src/Execution/Completing.antt =====
-- The loop of applyProposal leaves no pending effect.
use workforce_platform.Base.{
  ℕ, suc, Bool, true, false, ◌&&◌, List, [], ◌∷◌, ◌==◌, ◌≡◌, refl, inl, inr, arith, Bool-cases,
  ==-refl,
}
use workforce_platform.Base.Rows.{All, exists_where, update_if, select_where, All-map, All-mono}
use workforce_platform.Schema.{Ident, Effect, Receipt, Db}
use workforce_platform.Tx.{pure, fail}
use workforce_platform.Tx.Ensures.{
  Ensures, ensures-of, ensures-pure, ensures-bind, ensures-query, ensures-refuse, ensures-exec-then,
}
use workforce_platform.Proposals.{Digests}
use workforce_platform.Proposals.Keeping.{ensures-lift}
use workforce_platform.Execution.{
  is_authorized, insert_receipt, apply_effect, apply_effects, verify_row,
}

-- An effect of the proposal that still has to be applied.
abbrev pub is_open_effect : Ident → Effect → Bool
is_open_effect proposal e = e.proposal_id == proposal && is_authorized e.state

-- Every effect of the proposal that has to be applied is one of those listed.
abbrev pub Within : Ident → List Effect → Db → Type 0
Within proposal es d =
    All (λ e. is_open_effect proposal e ≡ true → exists_where (λ x. x.id == e.id) es ≡ true)
      d.effects

pub selected :
    (proposal : Ident) (es : List Effect)
    → All
        (λ e.
          is_open_effect proposal e ≡ true
          → exists_where (λ x. x.id == e.id) (select_where (is_open_effect proposal) es) ≡ true)
        es
unfolding exists_where select_where
selected proposal [] = tt
selected proposal (e ∷ es) = (
  λ o. rw o (ground (arith, ==-refl e.id)),
  All-mono _ _ (λ x f o. ground (arith, f o)) es (selected proposal es),
)

-- A verified effect is off the list.
off_list :
    (proposal : Ident) (e x : Effect) (es : List Effect) (f : Effect → Effect)
    → ((y : Effect) → (f y).id ≡ y.id)
    → ((y : Effect) → is_authorized (f y).state ≡ false)
    → (is_open_effect proposal x ≡ true → exists_where (λ y. y.id == x.id) (e ∷ es) ≡ true)
    → is_open_effect proposal (update_if (λ y. y.id == e.id) f x) ≡ true
    → exists_where (λ y. y.id == (update_if (λ y. y.id == e.id) f x).id) es ≡ true
unfolding exists_where
off_list proposal e x es f keeps closes w o = elim (Bool-cases (x.id == e.id)) [
  | inl same ↦ ground (arith, same, o, closes x)
  | inr other ↦ rw other (ground (arith, w (rw other at o), other))
]

module _ (h : Digests) (proposal : Ident) where
  receipt-Within :
      (r : Receipt) (es : List Effect) (d : Db)
      → Within proposal es d
      → Ensures (insert_receipt r) d (λ _ d'. Within proposal es d')
  unfolding insert_receipt pure fail
  receipt-Within r es d s =
      ensures-of _ d (elim (Bool-cases (exists_where (λ x. x.id == r.id) d.receipts)) [
        | inl clash ↦ rw (clash, insert_receipt) tt
        | inr free ↦ rw (free, insert_receipt) s
      ])

  -- One round takes its effect off the list.
  apply_effect-Within :
      (receipt : Ident) (e : Effect) (es : List Effect) (d : Db)
      → Within proposal (e ∷ es) d
      → Ensures (apply_effect h receipt e) d (λ _ d'. Within proposal es d')
  unfolding apply_effect exists_where
  apply_effect-Within receipt e es d w = ensures-query _ _ d λ cur _. ensures-lift _ _ d λ c _.
      ensures-lift _ _ d λ next _. ensures-exec-then _ _ d (
        ensures-query _ _ _ λ seen _. ensures-refuse _ _ _ _ λ _. ensures-exec-then _ _ _ (
          receipt-Within _ es _ (
            All-map _ _ (update_if (λ x. x.id == e.id) (verify_row seen.fields))
              (λ x f o.
                off_list proposal e x es (verify_row seen.fields) (λ y. refl) (λ y. refl) f o)
              d.effects w)))

  pub apply_effects-Within :
      (ids : ℕ → Ident) (n : ℕ) (es : List Effect) (d : Db)
      → Within proposal es d
      → Ensures (apply_effects h ids n es) d (λ _ d'. Within proposal [] d')
  unfolding apply_effects
  apply_effects-Within ids n [] d w = ensures-pure tt d w
  apply_effects-Within ids n (e ∷ es) d w =
      ensures-bind (λ _ d'. Within proposal es d') (apply_effect h (ids n) e) _ d
        (apply_effect-Within (ids n) e es d w) λ u d' w'. apply_effects-Within ids (suc n) es d' w'
