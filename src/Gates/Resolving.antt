-- ===== src/Gates/Resolving.antt =====
-- What ResolveGate does to a gate and to the run that waits for it.
use workforce_platform.Base.{
  ℕ, Bool, true, false, not, ◌&&◌, ◌||◌, Option, none, some, List, [], ◌∷◌, ◌==◌, ◌≡◌, refl, sym,
  subst, inl, inr, arith, Bool-cases, ==-refl,
}
use workforce_platform.Base.Rows.{
  All, find_row, find_where, exists_where, update_if, find_row-key, IsKeyed,
}
use workforce_platform.Base.Keys.{All-row}
use workforce_platform.Schema.{Ident, Time, Gate, Db}
use workforce_platform.Schema.Values.{Json}
use workforce_platform.Errors.{Result, ok, err}
use workforce_platform.Tx.{Tx, ◌>>=◌, pure, with_org}
use workforce_platform.Tx.Ensures.{
  Ensures, ensures-of, ensures-pure, ensures-gets, ensures-refuse, ensures-exec-then, ensures-if,
  with_org-keeps,
}
use workforce_platform.Proposals.Keeping.{ensures-lift}
use workforce_platform.Tasks.{is_pending_gate}
use workforce_platform.Gates.Schemas.{validate_gate_response}
use workforce_platform.Gates.{
  find_gate, found_gate, is_resolved, answer_row, answer, is_parked_at, resume, resolve_pending,
  resolve_gate_tx,
}

abbrev accepted_by : Result (Unit {0}) → Bool
accepted_by (ok _) = true
accepted_by (err _) = false

-- A gate without an answer, or with one that fits its schema.
abbrev pub has_fit_answer : Gate → Bool
has_fit_answer g =
    not (is_resolved g.status) || accepted_by (validate_gate_response g.input_schema g.response)

abbrev pub AnswersFit : Db → Type 0
AnswersFit d = All (λ g. has_fit_answer g ≡ true) d.decision_gates

module _ {B : Type 0} {Q : B → Db → Type 0} where
  ensures-found :
      (o : Option Gate) (f : Gate → Tx B) (d : Db)
      → ((g : Gate) → o ≡ some g → Ensures (f g) d Q)
      → Ensures (found_gate o >>= f) d Q
  unfolding ◌>>=◌
  ensures-found none f d k = ensures-of _ d tt
  ensures-found (some g) f d k = ensures-of _ d (k g refl).holds

pub exists_where_found {ℓ} :
    {A : Type ℓ} (key : A → ℕ) (k : ℕ) (q : A → Bool) (xs : List A) (x : A)
    → find_row key k xs ≡ some x
    → q x ≡ true
    → exists_where (λ x. key x == k && q x) xs ≡ true
unfolding find_where exists_where
exists_where_found key k q [] x found h = ground arith
exists_where_found key k q (y ∷ xs) x found h =
    ground (arith, exists_where_found key k q xs x, found, h)

resume-AnswersFit :
    (gate run : Ident) (d : Db) → AnswersFit d → Ensures (resume gate run) d (λ _ e. AnswersFit e)
unfolding resume pure
resume-AnswersFit gate run d v =
    ensures-of _ d
      (elim (Bool-cases
        (not (run == 0) && exists_where (λ r. r.id == run && is_parked_at gate r) d.agent_runs)) [
          | inl parked ↦ rw (parked, resume) v
          | inr gone ↦ rw (gone, resume) v
        ])

answer-AnswersFit :
    (now : Time) (g : Gate) (actor : Ident) (response : Option Json) (d : Db)
    → find_gate g.id d ≡ some g
    → validate_gate_response g.input_schema response ≡ ok tt
    → IsKeyed (λ g. g.id) d.decision_gates
    → AnswersFit d
    → AnswersFit (answer now g.id actor response d)
answer-AnswersFit now g actor response d found fit u v =
    All-row (λ g. g.id) (λ g. has_fit_answer g ≡ true) (λ g. has_fit_answer g ≡ true) g.id
      (update_if (λ x. x.id == g.id) (answer_row now actor response)) d.decision_gates g u found
      (λ h miss f. rw miss f) (λ _. rw (==-refl g.id, fit) refl) v

module _ (now : Time) (actor : Ident) (revision : ℕ) (response : Option Json) where
  resolve_pending-AnswersFit :
      (g : Gate) (d : Db)
      → find_gate g.id d ≡ some g
      → IsKeyed (λ g. g.id) d.decision_gates
      → AnswersFit d
      → Ensures (resolve_pending now actor g revision response) d (λ _ e. AnswersFit e)
  unfolding resolve_pending
  resolve_pending-AnswersFit g d found u v = ensures-refuse _ _ _ d λ _. ensures-refuse _ _ _ d λ _.
      ensures-lift _ _ d λ _ fit.
        ensures-exec-then _ _ d (
          resume-AnswersFit g.id g.run_id _
            (answer-AnswersFit now g actor response d found fit u v))

  resolve_gate_tx-AnswersFit :
      (id : Ident) (d : Db)
      → IsKeyed (λ g. g.id) d.decision_gates
      → AnswersFit d
      → Ensures (resolve_gate_tx now id actor revision response) d (λ _ e. AnswersFit e)
  unfolding resolve_gate_tx
  resolve_gate_tx-AnswersFit id d u v = ensures-gets _ _ d (
      ensures-found _ _ d λ g found. ensures-gets _ _ d (
        ensures-refuse _ _ _ d λ _.
          ensures-if _ _ _ d (λ _. ensures-pure tt d v)
            (λ _. resolve_pending-AnswersFit g d (at_own g found) u v)))
    where
      at_own : (g : Gate) → find_gate id d ≡ some g → find_gate g.id d ≡ some g
      at_own g found =
          subst (λ i. find_gate i d ≡ some g)
            (sym (find_row-key (λ g. g.id) id d.decision_gates g found)) found

  -- ResolveGate, committed or rolled back, leaves every recorded answer one that fits the schema of its
  -- gate, if it was so before and the identifiers of the gates are unique.
  pub resolve_gate-AnswersFit :
      (id : Ident) (d : Db)
      → IsKeyed (λ g. g.id) d.decision_gates
      → AnswersFit d
      → AnswersFit (with_org (resolve_gate_tx now id actor revision response) d).1
  resolve_gate-AnswersFit id d u v =
      with_org-keeps AnswersFit (resolve_gate_tx now id actor revision response) d v
        (resolve_gate_tx-AnswersFit id d u v)

  closed_refuses :
      (g : Gate) (d : Db)
      → is_pending_gate g.status ≡ false
      → Ensures (resolve_pending now actor g revision response) d (λ _ e. e ≡ d)
  unfolding resolve_pending
  closed_refuses g d closed =
      ensures-refuse _ _ _ d λ open_still. absurd (ground (arith, closed, open_still))

  tx_same :
      (id : Ident) (d : Db)
      → ((h : Gate) → find_gate id d ≡ some h → is_pending_gate h.status ≡ false)
      → Ensures (resolve_gate_tx now id actor revision response) d (λ _ e. e ≡ d)
  unfolding resolve_gate_tx
  tx_same id d closed = ensures-gets _ _ d (
      ensures-found _ _ d λ g found. ensures-gets _ _ d (
        ensures-refuse _ _ _ d λ _.
          ensures-if _ _ _ d (λ _. ensures-pure tt d refl)
            (λ _. closed_refuses g d (closed g found))))

  -- ResolveGate leaves the database as it was if the gate is no longer pending, whoever answers and
  -- whatever.
  pub answered_once :
      (id : Ident) (g : Gate) (d : Db)
      → find_gate id d ≡ some g
      → is_pending_gate g.status ≡ false
      → (with_org (resolve_gate_tx now id actor revision response) d).1 ≡ d
  answered_once id g d found closed =
      with_org-keeps (λ e. e ≡ d) (resolve_gate_tx now id actor revision response) d refl same
    where
      is_same : (h : Gate) → find_gate id d ≡ some h → is_pending_gate h.status ≡ false
      is_same h also = ground (arith, found, also, closed)

      same : Ensures (resolve_gate_tx now id actor revision response) d (λ _ e. e ≡ d)
      same = tx_same id d is_same
