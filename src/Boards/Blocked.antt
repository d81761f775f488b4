-- ===== src/Boards/Blocked.antt =====
-- The work board of internal/store/workboard.go and the worker agree on what is blocked.
use workforce_platform.Base.{
  Bool, true, false, ◌||◌, Option, none, some, List, [], ◌∷◌, ◌++◌, ◌==◌, ◌≡◌, refl, arith, inl,
  inr, Bool-cases, ◌∙◌, ap,
}
use workforce_platform.Base.Rows.{exists_where, select_where, insert_ordered, order_by}
use workforce_platform.Schema.{Ident, Task, TaskDependency, Db}
use workforce_platform.Execution.{blocks, is_blocked}
use workforce_platform.Boards.{unmet, first_of, blocker}

abbrev pub is_found : {A : Type 0} → Option A → Bool
is_found none = false
is_found (some a) = true

abbrev pub some_task : Task → Bool
some_task _ = true

found-first_of : (ts : List Task) → is_found (first_of ts) ≡ exists_where some_task ts
unfolding first_of exists_where
found-first_of [] = refl
found-first_of (t ∷ ts) = refl

module _ {A : Type 0} (before : A → A → Bool) (p : A → Bool) where
  exists_where-insert_ordered :
      (x : A) (xs : List A)
      → exists_where p (insert_ordered before x xs) ≡ (p x || exists_where p xs)
  unfolding exists_where insert_ordered
  exists_where-insert_ordered x [] = refl
  exists_where-insert_ordered x (y ∷ ys) = elim (Bool-cases (before x y)) [
    | inl first ↦ rw first refl
    | inr later ↦ rw (later, exists_where-insert_ordered x ys) (ground arith)
  ]

  exists_where-order_by : (xs : List A) → exists_where p (order_by before xs) ≡ exists_where p xs
  unfolding exists_where order_by
  exists_where-order_by [] = refl
  exists_where-order_by (x ∷ xs) =
      exists_where-insert_ordered x (order_by before xs)
      ∙ ap (λ b. p x || b) (exists_where-order_by xs)

exists_where-append :
    {A : Type 0} (p : A → Bool) (xs ys : List A)
    → exists_where p (xs ++ ys) ≡ (exists_where p xs || exists_where p ys)
unfolding exists_where
exists_where-append p [] ys = refl
exists_where-append p (x ∷ xs) ys = ground (arith, exists_where-append p xs ys)

some_task-select_where :
    (q : Task → Bool) (ts : List Task)
    → exists_where some_task (select_where q ts) ≡ exists_where q ts
unfolding exists_where select_where
some_task-select_where q [] = refl
some_task-select_where q (t ∷ ts) = elim (Bool-cases (q t)) [
  | inl here ↦ rw here refl
  | inr other ↦ rw other (some_task-select_where q ts)
]

some_task-unmet :
    (task : Ident) (tasks : List Task) (xs : List TaskDependency)
    → exists_where some_task (unmet task tasks xs) ≡ exists_where (blocks task tasks) xs
unfolding exists_where unmet
some_task-unmet task tasks [] = refl
some_task-unmet task tasks (x ∷ xs) = elim (Bool-cases (x.task_id == task)) [
  | inl here ↦ rw here (
      exists_where-append some_task _ (unmet task tasks xs)
      ∙ rw (some_task-select_where _ tasks, some_task-unmet task tasks xs) refl)
  | inr other ↦ rw other (some_task-unmet task tasks xs)
]

-- WorkBoard names a blocker of a task exactly if applyProposal holds the proposals of the task back for a
-- dependency.
pub blocker-is_blocked : (t : Task) (d : Db) → is_found (blocker t d) ≡ is_blocked t.id d
blocker-is_blocked t d =
    found-first_of _
    ∙ exists_where-order_by _ some_task _
    ∙ some_task-unmet t.id d.tasks d.task_dependencies
