-- ===== src/Decisions/Governed.antt =====
-- The two-person rule as an invariant of the tables of proposals and decisions.
use workforce_platform.Base.{
  Bool, true, false, not, ◌&&◌, ◌||◌, none, some, List, [], ◌∷◌, ◌++◌, map, ◌==◌, ◌≡◌, sym, subst,
  arith,
}
use workforce_platform.Base.Rows.{
  All, find_row, exists_where, IsKeyed, IsKeyed-map, IsKeyed-append, All-map, All-mono, All-append,
}
use workforce_platform.Base.Keys.{All-row}
use workforce_platform.Schema.{Proposal, ProposalStatus, ProposalDecision}
use workforce_platform.Decisions.{is_endorse, is_approve}

-- Statuses that only an endorsed proposal, and only an approved one, may have.
abbrev pub needs_endorsement : ProposalStatus → Bool
needs_endorsement ProposalStatus.pending_approval = true
needs_endorsement ProposalStatus.approved = true
needs_endorsement ProposalStatus.executing = true
needs_endorsement ProposalStatus.done = true
needs_endorsement ProposalStatus.needs_attention = true
needs_endorsement _ = false

abbrev pub needs_approval : ProposalStatus → Bool
needs_approval ProposalStatus.approved = true
needs_approval ProposalStatus.executing = true
needs_approval ProposalStatus.done = true
needs_approval ProposalStatus.needs_attention = true
needs_approval _ = false

-- The endorsement of its requester, and an approval by somebody else.
abbrev pub is_own_endorsement : Proposal → ProposalDecision → Bool
is_own_endorsement p x = x.proposal_id == p.id && (is_endorse x.kind && x.actor_id == p.created_by)

abbrev pub is_separate_approval : Proposal → ProposalDecision → Bool
is_separate_approval p x =
    x.proposal_id == p.id && (is_approve x.kind && not (x.actor_id == p.created_by))

pub record Fits (decisions : List ProposalDecision) (p : Proposal) : Type 0 where
  pub endorsed :
      needs_endorsement p.status ≡ true → exists_where (is_own_endorsement p) decisions ≡ true
  pub approved :
      needs_approval p.status ≡ true → exists_where (is_separate_approval p) decisions ≡ true

pub record IsGoverned (proposals : List Proposal) (decisions : List ProposalDecision) : Type 0 where
  pub keyed : IsKeyed (λ p. p.id) proposals
  pub fits : All (Fits decisions) proposals

pub exists_where-append {ℓ} :
    {A : Type ℓ} (p : A → Bool) (xs : List A) (y : A)
    → exists_where p (xs ++ y ∷ []) ≡ (exists_where p xs || p y)
unfolding exists_where
exists_where-append p [] y = ground arith
exists_where-append p (x ∷ xs) y = ground (arith, exists_where-append p xs y)

-- A change that keeps who proposed, and moves to no status that asks for more.
pub record IsWeaker (g : Proposal → Proposal) : Type 0 where
  pub id : (p : Proposal) → (g p).id ≡ p.id
  pub creator : (p : Proposal) → (g p).created_by ≡ p.created_by
  pub endorsement :
      (p : Proposal) → needs_endorsement (g p).status ≡ true → needs_endorsement p.status ≡ true
  pub approval :
      (p : Proposal) → needs_approval (g p).status ≡ true → needs_approval p.status ≡ true

module _ (g : Proposal → Proposal) (decisions : List ProposalDecision) where
  pub Fits-same :
      (p : Proposal)
      → (g p).id ≡ p.id
      → (g p).created_by ≡ p.created_by
      → (needs_endorsement (g p).status ≡ true
          → exists_where (is_own_endorsement p) decisions ≡ true)
      → (needs_approval (g p).status ≡ true
          → exists_where (is_separate_approval p) decisions ≡ true)
      → Fits decisions (g p)
  Fits-same p same_id same_creator e a = record {
    endorsed = λ n.
        subst
          (λ i.
            exists_where
              (λ x. x.proposal_id == i && (is_endorse x.kind && x.actor_id == (g p).created_by))
              decisions
            ≡ true)
          (sym same_id)
          (subst
            (λ c.
              exists_where (λ x. x.proposal_id == p.id && (is_endorse x.kind && x.actor_id == c))
                decisions
              ≡ true)
            (sym same_creator) (e n));
    approved = λ n.
        subst
          (λ i.
            exists_where
              (λ x.
                x.proposal_id == i && (is_approve x.kind && not (x.actor_id == (g p).created_by)))
              decisions
            ≡ true)
          (sym same_id)
          (subst
            (λ c.
              exists_where
                (λ x. x.proposal_id == p.id && (is_approve x.kind && not (x.actor_id == c)))
                decisions
              ≡ true)
            (sym same_creator) (a n));
  }

  pub IsGoverned-weaker :
      (proposals : List Proposal)
      → IsWeaker g
      → IsGoverned proposals decisions
      → IsGoverned (map g proposals) decisions
  IsGoverned-weaker proposals w v = record {
    keyed = IsKeyed-map (λ p. p.id) g w.id proposals v.keyed;
    fits =
        All-map (Fits decisions) (Fits decisions) g
          (λ p f.
            Fits-same p (w.id p) (w.creator p) (λ n. f.endorsed (w.endorsement p n))
              (λ n. f.approved (w.approval p n)))
          proposals v.fits;
  }

  -- One row may move to any status for which the decisions are there.
  pub IsGoverned-row :
      (proposals : List Proposal) (p : Proposal)
      → ((q : Proposal) → (g q).id ≡ q.id)
      → ((q : Proposal) → (q.id == p.id) ≡ false → g q ≡ q)
      → find_row (λ p. p.id) p.id proposals ≡ some p
      → (Fits decisions p → Fits decisions (g p))
      → IsGoverned proposals decisions
      → IsGoverned (map g proposals) decisions
  IsGoverned-row proposals p same_id others found this v = record {
    keyed = IsKeyed-map (λ p. p.id) g same_id proposals v.keyed;
    fits =
        All-row (λ p. p.id) (Fits decisions) (Fits decisions) p.id g proposals p v.keyed found
          (λ q miss f. subst (Fits decisions) (sym (others q miss)) f) this v.fits;
  }

module _ (decisions : List ProposalDecision) (proposals : List Proposal) where
  -- Decisions are only ever added.
  pub IsGoverned-decided :
      (x : ProposalDecision)
      → IsGoverned proposals decisions
      → IsGoverned proposals (decisions ++ x ∷ [])
  IsGoverned-decided x v = record {
    keyed = v.keyed;
    fits =
        All-mono (Fits decisions) (Fits (decisions ++ x ∷ []))
          (λ p f. record {
            endorsed = λ n.
                ground
                  (arith, exists_where-append (is_own_endorsement p) decisions x, f.endorsed n);
            approved = λ n.
                ground
                  (arith, exists_where-append (is_separate_approval p) decisions x, f.approved n);
          })
          proposals v.fits;
  }

  pub IsGoverned-proposed :
      (p : Proposal)
      → find_row (λ p. p.id) p.id proposals ≡ none
      → needs_endorsement p.status ≡ false
      → needs_approval p.status ≡ false
      → IsGoverned proposals decisions
      → IsGoverned (proposals ++ p ∷ []) decisions
  IsGoverned-proposed p fresh e a v = record {
    keyed = IsKeyed-append (λ p. p.id) proposals p v.keyed fresh;
    fits =
        All-append (Fits decisions) proposals p v.fits
          (record { endorsed = λ n. cc; approved = λ n. cc });
  }
