-- ===== src/AgentRuns/Fencing.antt =====
-- A token that another claim has replaced writes nothing, and a live lease keeps other claims out.
use workforce_platform.Base.{
  ◌≤◌, Bool, true, false, ◌&&◌, Option, none, some, List, [], ◌∷◌, ◌==◌, ◌≡◌, ◌≢◌, refl, sym, ap,
  ◌∙◌, subst, inl, inr, arith, Bool-cases, Option-cases,
}
use workforce_platform.Base.Rows.{
  find_row, find_where, update_if, update_where, IsKeyed, find_row-map, find_row-key, IsKeyed-map,
}
use workforce_platform.Base.Keys.{find_where_row, find_where_key}
use workforce_platform.Schema.{Ident, Text, Time, Operation, AgentRun, Db}
use workforce_platform.Errors.{ok, err, not_found, RunFailure}
use workforce_platform.Tx.{Tx, ◌>>=◌, pure, exec}
use workforce_platform.Proposals.{Digests, Contains, NewIds}
use workforce_platform.AgentRuns.{
  is_claimable, claim_row, claimed, claim, is_held, fail_row, update_failure, fail_run, if_held,
  Question, park, publish,
}

-- No run of this identifier is held by the token.
abbrev pub IsFenced : Ident → Ident → Db → Type 0
IsFenced id token d = find_where (is_held id token) d.agent_runs ≡ none

module _ {ℓ} {A : Type ℓ} where
  update_where_missing :
      (q : A → Bool) (f : A → A) (xs : List A) → find_where q xs ≡ none → update_where q f xs ≡ xs
  unfolding find_where
  update_where_missing q f [] e = refl
  update_where_missing q f (x ∷ xs) e = ground (arith, update_where_missing q f xs, e)

module _ (id token : Ident) (d : Db) (fenced : IsFenced id token d) where
  if_held_lem : (rest : Tx (Unit {0})) → if_held id token rest d ≡ ok (tt, d)
  unfolding if_held pure
  if_held_lem rest = rw fenced refl

  fail_run_lem : (now : Time) (code : Option RunFailure) → fail_run now code id token d ≡ ok (tt, d)
  unfolding fail_run update_failure exec
  fail_run_lem now code =
      ap (λ rs. ok (tt, record d { agent_runs = rs }))
        (update_where_missing (is_held id token) (fail_row now _) d.agent_runs fenced)

module _ (now until : Time) (token id : Ident) (d : Db) where
  claiming : AgentRun → AgentRun
  claiming = update_if (λ r. r.id == id && is_claimable now r) (claim_row until token)

  claiming-id : (r : AgentRun) → (claiming r).id ≡ r.id
  unfolding claiming
  claiming-id r = ground arith

  -- What a claim that commits found and left.
  pub claim-eq-ok :
      (e : Db) (r : AgentRun)
      → IsKeyed (λ r. r.id) d.agent_runs
      → claim now until token id d ≡ ok (r, e)
      → (x : AgentRun) × (find_row (λ r. r.id) id d.agent_runs ≡ some x)
        × (is_claimable now x ≡ true)
        × (r ≡ claim_row until token x)
        × (e ≡ claimed now until token id d)
        × (find_row (λ r. r.id) id e.agent_runs ≡ some r)
        × IsKeyed (λ r. r.id) e.agent_runs
  unfolding claim ◌>>=◌ claiming
  claim-eq-ok e r u c =
      elim (Option-cases (find_where (λ r. r.id == id && is_claimable now r) d.agent_runs)) [
        | inl none_such ↦ absurd (ground (arith, none_such, c))
        | inr (x, found) ↦
            let (is_x, free) =
              find_where_row (λ r. r.id) id (is_claimable now) d.agent_runs x u found in
            let is_r : r ≡ claim_row until token x = ground (arith, found, c) in
            let is_e : e ≡ claimed now until token id d = ground (arith, found, c) in
            (
              x,
              is_x,
              free,
              is_r,
              is_e,
              ap (λ e. find_row (λ r. r.id) id e.agent_runs) is_e
                  ∙ find_row-map (λ r. r.id) id claiming claiming-id d.agent_runs
                  ∙ rw (is_x, is_r)
                      (ground (arith, free, find_row-key (λ r. r.id) id d.agent_runs x is_x)),
              subst (λ e. IsKeyed (λ r. r.id) e.agent_runs) (sym is_e)
                  (IsKeyed-map (λ r. r.id) claiming claiming-id d.agent_runs u),
            )
      ]

  module _ (e : Db) (r : AgentRun) (u : IsKeyed (λ r. r.id) d.agent_runs)
      (c : claim now until token id d ≡ ok (r, e)) where
    -- A claim by another token leaves none of the run's rows to the former one.
    claim-IsFenced : (former : Ident) → former ≢ token → IsFenced id former e
    claim-IsFenced former other =
        let (x, is_x, free, is_r, is_e, found, keyed) = claim-eq-ok e r u c in
        find_where_key (λ r. r.id) id (λ r. r.claim_token == former) e.agent_runs r keyed found
        ∙ rw (ap (λ r. r.claim_token) is_r) (ground (arith, other_test former other))
      where
        other_test : (former : Ident) → former ≢ token → (token == former) ≡ false
        other_test former other = elim (Bool-cases (token == former)) [
          | inl same ↦ absurd (other (ground (arith, same)))
          | inr differs ↦ differs
        ]

    -- After a claim commits, an attempt that holds another token can neither park the run, nor publish a
    -- draft, nor record a failure: each of its transactions commits and changes nothing, where the
    -- identifiers of the runs are unique.
    pub replaced_writes_nothing :
        (former : Ident)
        → former ≢ token
        → (h : Digests) (contains : Contains) (ids : NewIds)
        → (at : Time) (gate task release owner initiator : Ident) (q : Question)
          (summary marked : Text)
        → (ops : List Operation) (code : Option RunFailure)
        → (park id former gate task owner initiator q e ≡ ok (tt, e))
          × (publish h contains ids at id former task release owner initiator summary marked ops e
              ≡ ok (tt, e))
          × (fail_run at code id former e ≡ ok (tt, e))
    unfolding park publish
    replaced_writes_nothing former other h contains ids at gate task release owner initiator q
          summary marked ops code =
        let fenced = claim-IsFenced former other in
        (
          if_held_lem id former e fenced _,
          if_held_lem id former e fenced _,
          fail_run_lem id former e fenced at code,
        )

    -- Until the lease of a claim that commits is over, no second claim of the run succeeds, where the
    -- identifiers of the runs are unique.
    pub live_lease_excludes :
        (later until' : Time) (token' : Ident)
        → later ≤ until
        → claim later until' token' id e ≡ err not_found
    unfolding claim ◌>>=◌
    live_lease_excludes later until' token' in_time =
        let (x, is_x, free, is_r, is_e, found, keyed) = claim-eq-ok e r u c in
        let kept_out : find_where (λ r. r.id == id && is_claimable later r) e.agent_runs ≡ none =
          find_where_key (λ r. r.id) id (is_claimable later) e.agent_runs r keyed found
          ∙ rw is_r (ground (arith, in_time)) in
        rw kept_out refl
