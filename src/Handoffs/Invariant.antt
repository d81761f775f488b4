-- ===== src/Handoffs/Invariant.antt =====
-- The bound on transfers of ownership, as an invariant of the tables of tasks and handoffs.
use workforce_platform.Base.{
  ◌≤◌, ◌<◌, true, false, none, some, List, [], ◌∷◌, ◌++◌, map, ◌≡◌, sym, ap, ◌∙◌, arith,
}
use workforce_platform.Base.Rows.{
  All, IsKeyed, IsKeyed-map, IsKeyed-append, All-map, All-mono, All-append, count_where-map,
  count_where-append,
}
use workforce_platform.Schema.{Ident, Task, Handoff}
use workforce_platform.Handoffs.{
  max_handoff_hops, is_open, is_accepted, is_owner_role, is_hop, hops, find_task, find_handoff,
}

-- An offer names a task of the table at a version that the task has reached; an open offer of
-- ownership at the current version was made below the limit.
pub record OfferFits (tasks : List Task) (all : List Handoff) (h : Handoff) : Type 0 where
  pub task : Task
  pub found : find_task h.task_id tasks ≡ some task
  pub reached : h.offered_task_version ≤ task.version
  pub below :
      is_open h.state ≡ true
      → is_owner_role h.role ≡ true
      → h.offered_task_version ≡ task.version
      → hops h.task_id all < max_handoff_hops

pub record Inv (tasks : List Task) (all : List Handoff) : Type 0 where
  pub keyed : IsKeyed (λ h. h.id) all
  pub bounded : (task : Ident) → hops task all ≤ max_handoff_hops
  pub offers : All (OfferFits tasks all) all

-- A change of a row that neither accepts nor reopens an offer.
pub record IsQuiet (g : Handoff → Handoff) : Type 0 where
  pub id : (h : Handoff) → (g h).id ≡ h.id
  pub task : (h : Handoff) → (g h).task_id ≡ h.task_id
  pub offered : (h : Handoff) → (g h).offered_task_version ≡ h.offered_task_version
  pub role : (h : Handoff) → (g h).role ≡ h.role
  pub accepts : (h : Handoff) → is_accepted (g h).state ≡ is_accepted h.state
  pub opens : (h : Handoff) → is_open (g h).state ≡ true → is_open h.state ≡ true

hops-quiet :
    (g : Handoff → Handoff)
    → IsQuiet g
    → (k : Ident) (all : List Handoff) → hops k (map g all) ≡ hops k all
hops-quiet g q k all =
    count_where-map (is_hop k) g (λ h. ground (arith, q.task h, q.role h, q.accepts h)) all

fits-quiet :
    (tasks : List Task) (all : List Handoff) (g : Handoff → Handoff)
    → IsQuiet g
    → (h : Handoff) → OfferFits tasks all h
    → OfferFits tasks (map g all) (g h)
fits-quiet tasks all g q h f = record {
  task = f.task;
  found = ap (λ k. find_task k tasks) (q.task h) ∙ f.found;
  reached = omega (arith, q.offered h, f.reached);
  below = λ o r v. omega (
    arith,
    hops-quiet g q (g h).task_id all,
    ap (λ k. hops k all) (q.task h),
    f.below (q.opens h o) (ap is_owner_role (sym (q.role h)) ∙ r) (sym (q.offered h) ∙ v),
  );
}

pub Inv-quiet :
    (tasks : List Task) (all : List Handoff) (g : Handoff → Handoff)
    → IsQuiet g
    → Inv tasks all
    → Inv tasks (map g all)
Inv-quiet tasks all g q v = record {
  keyed = IsKeyed-map (λ h. h.id) g q.id all v.keyed;
  bounded = λ k. omega (arith, hops-quiet g q k all, v.bounded k);
  offers =
      All-map (OfferFits tasks all) (OfferFits tasks (map g all)) g (fits-quiet tasks all g q) all
        v.offers;
}

-- Every task stays, at a version that does not fall.
abbrev pub Grows : List Task → List Task → Type 0
Grows tasks tasks' =
    (k : Ident) (t : Task)
    → find_task k tasks ≡ some t
    → (t' : Task) × (find_task k tasks' ≡ some t') × (t.version ≤ t'.version)

pub Inv-Grows :
    (tasks tasks' : List Task) (all : List Handoff)
    → Grows tasks tasks'
    → Inv tasks all
    → Inv tasks' all
Inv-Grows tasks tasks' all grows v = record {
  keyed = v.keyed;
  bounded = v.bounded;
  offers =
      All-mono (OfferFits tasks all) (OfferFits tasks' all)
        (λ h f.
          let (t', found, le) = grows h.task_id f.task f.found in
          record {
            task = t';
            found = found;
            reached = omega (arith, f.reached);
            below = λ o r e. f.below o r (omega (arith, f.reached));
          })
        all v.offers;
}

-- A new offer, at the task's version; one of ownership only below the limit.
pub Inv-append :
    (tasks : List Task) (all : List Handoff) (h : Handoff) (t : Task)
    → find_handoff h.id all ≡ none
    → find_task h.task_id tasks ≡ some t
    → h.offered_task_version ≡ t.version
    → is_accepted h.state ≡ false
    → (is_owner_role h.role ≡ true → hops h.task_id all < max_handoff_hops)
    → Inv tasks all
    → Inv tasks (all ++ h ∷ [])
Inv-append tasks all h t fresh found at_version waits below v = record {
  keyed = IsKeyed-append (λ h. h.id) all h v.keyed fresh;
  bounded = λ k. omega (arith, same k, v.bounded k);
  offers =
      All-append (OfferFits tasks (all ++ h ∷ [])) all h
        (All-mono (OfferFits tasks all) (OfferFits tasks (all ++ h ∷ [])) keep all v.offers)
        (record {
          task = t;
          found = found;
          reached = omega (arith, at_version);
          below = λ o r e. omega (arith, same h.task_id, below r);
        });
}
  where
    same : (k : Ident) → hops k (all ++ h ∷ []) ≡ hops k all
    same k = ground (arith, count_where-append (is_hop k) all h)

    keep : (x : Handoff) → OfferFits tasks all x → OfferFits tasks (all ++ h ∷ []) x
    keep x f = record {
      task = f.task;
      found = f.found;
      reached = f.reached;
      below = λ o r e. omega (arith, same x.task_id, f.below o r e);
    }
