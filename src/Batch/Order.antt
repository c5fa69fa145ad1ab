-- ===== src/Batch/Order.antt =====
-- The order of a batch is a rearrangement of the tasks, in which none comes right before one that
-- is to run before it.
use satis.Base.{
  ℕ, ◌+◌, ◌==◌, sort_by, insert_by, Bool, true, false, if◌then◌else◌, Bool-cases, inl, inr, Option,
  none, some, List, [], ◌∷◌, ◌≡◌, refl, ap, ◌∙◌, arith,
}
use satis.Base.Ints.{ℤ, pos, negsuc}
use satis.Base.Sorted.{Ordered, sort_by-Ordered, text_asym, text_eq_comm}
use satis.Batch.{
  BatchTask, int_ltb, int_eq, indices, at, runs_before, less_at, ordered_task_indices,
}

-- How many times a position stands in a list.
unfoldable pub times : ℕ → List ℕ → ℕ
times i [] = 0
times i (j ∷ js) = (if i == j then 1 else 0) + times i js

times-insert_by :
    (lt : ℕ → ℕ → Bool) (i j : ℕ) (js : List ℕ) → times i (insert_by lt j js) ≡ times i (j ∷ js)
unfolding times insert_by
times-insert_by lt i j [] = refl
times-insert_by lt i j (k ∷ ks) = ground (arith, times-insert_by lt i j ks)

pub times-sort_by : (lt : ℕ → ℕ → Bool) (i : ℕ) (js : List ℕ) → times i (sort_by lt js) ≡ times i js
unfolding times sort_by
times-sort_by lt i [] = refl
times-sort_by lt i (j ∷ js) =
    times-insert_by lt i j (sort_by lt js)
    ∙ ap (λ n. (if i == j then 1 else 0) + n) (times-sort_by lt i js)

int_asym : (a b : ℤ) → int_ltb a b ≡ true → int_ltb b a ≡ false
int_asym (pos a) (pos b) h = ground arith
int_asym (pos a) (negsuc b) h = cc
int_asym (negsuc a) (pos b) h = refl
int_asym (negsuc a) (negsuc b) h = ground arith

int_eq_comm : (a b : ℤ) → int_eq a b ≡ int_eq b a
int_eq_comm (pos a) (pos b) = ground arith
int_eq_comm (pos a) (negsuc b) = refl
int_eq_comm (negsuc a) (pos b) = refl
int_eq_comm (negsuc a) (negsuc b) = ground arith

int_eq_not_ltb : (a b : ℤ) → int_eq a b ≡ true → int_ltb b a ≡ false
int_eq_not_ltb (pos a) (pos b) h = ground arith
int_eq_not_ltb (pos a) (negsuc b) h = cc
int_eq_not_ltb (negsuc a) (pos b) h = refl
int_eq_not_ltb (negsuc a) (negsuc b) h = ground arith

module _ {W V E : Type 0} where
  -- Two tasks are never each to run before the other.
  runs_before_asym : (x y : BatchTask W V E) → runs_before x y ≡ true → runs_before y x ≡ false
  unfolding runs_before
  runs_before_asym x y h = ground (
    arith,
    int_eq_comm x.priority y.priority,
    int_eq_comm x.cost_level y.cost_level,
    text_eq_comm x.kind y.kind,
    int_asym y.priority x.priority,
    int_asym x.cost_level y.cost_level,
    text_asym x.kind y.kind,
    text_asym x.id y.id,
  )

  less_at_asym :
      (tasks : List (BatchTask W V E)) (i j : ℕ)
      → less_at tasks i j ≡ true
      → less_at tasks j i ≡ false
  less_at_asym tasks i j = cases (at tasks i) (at tasks j)
    where
      compare_found : Option (BatchTask W V E) → Option (BatchTask W V E) → Bool
      compare_found a b = elim a [
        | none ↦ false
        | some x ↦ elim b [ none ↦ false | some y ↦ runs_before x y ]
      ]

      cases :
          (a b : Option (BatchTask W V E)) → compare_found a b ≡ true → compare_found b a ≡ false
      cases none none h = refl
      cases none (some y) h = refl
      cases (some x) none h = refl
      cases (some x) (some y) h = runs_before_asym x y h

  abbrev higher : Option (BatchTask W V E) → Option (BatchTask W V E) → Bool
  higher none b = false
  higher (some x) none = false
  higher (some x) (some y) = int_ltb y.priority x.priority

  -- Whether the priority of the left position is the higher one.
  abbrev pub higher_at : List (BatchTask W V E) → ℕ → ℕ → Bool
  higher_at tasks i j = higher (at tasks i) (at tasks j)

  higher_runs_before :
      (tasks : List (BatchTask W V E)) (i j : ℕ)
      → less_at tasks i j ≡ false
      → higher_at tasks i j ≡ false
  unfolding runs_before
  higher_runs_before tasks i j = cases (at tasks i) (at tasks j)
    where
      found : Option (BatchTask W V E) → Option (BatchTask W V E) → Bool
      found a b = elim a [
        | none ↦ false
        | some x ↦ elim b [ none ↦ false | some y ↦ runs_before x y ]
      ]

      cases : (a b : Option (BatchTask W V E)) → found a b ≡ false → higher a b ≡ false
      cases none b h = refl
      cases (some x) none h = refl
      cases (some x) (some y) h = elim (Bool-cases (int_eq x.priority y.priority)) [
        | inl e ↦ int_eq_not_ltb x.priority y.priority e
        | inr e ↦ ground arith
      ]

  Ordered-higher_at :
      (tasks : List (BatchTask W V E)) (js : List ℕ)
      → Ordered (less_at tasks) js
      → Ordered (higher_at tasks) js
  Ordered-higher_at tasks [] o = tt
  Ordered-higher_at tasks (i ∷ []) o = (tt, tt)
  Ordered-higher_at tasks (i ∷ j ∷ js) o =
      (higher_runs_before tasks j i o.0, Ordered-higher_at tasks (j ∷ js) o.1)

  -- The order holds every position of a task once, no position comes right before that of a task
  -- which is to run before it, and so none right before that of a task of higher priority.
  pub ordered_task_indices-Ordered :
      (tasks : List (BatchTask W V E))
      → Ordered (less_at tasks) (ordered_task_indices tasks)
        × Ordered (higher_at tasks) (ordered_task_indices tasks)
        × ((i : ℕ) → times i (ordered_task_indices tasks) ≡ times i (indices 0 tasks))
  unfolding ordered_task_indices
  ordered_task_indices-Ordered tasks =
      let o = sort_by-Ordered (less_at tasks) (less_at_asym tasks) (indices 0 tasks) in
      (
        o,
        Ordered-higher_at tasks (ordered_task_indices tasks) o,
        λ i. times-sort_by (less_at tasks) i (indices 0 tasks),
      )
