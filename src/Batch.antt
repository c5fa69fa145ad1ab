-- ===== src/Batch.antt =====
-- The order in which a batch of tasks is run, and the serial scheduler (satis/batch_scheduler.go).
--
-- A task's function and the context are not of this file: a task runs as a function of a state that
-- it changes, and the context's error is read from that state.
pub mod Order
pub mod Serial
mod Samples
use satis.Base.{
  ℕ, zero, suc, ◌+◌, Text, text_eq, text_ltb, ltb, ◌==◌, sort_by, length, Bool, true, false,
  if◌then◌else◌, Option, none, some, List, [], ◌∷◌, map,
}
use satis.Base.Ints.{ℤ, pos, negsuc}

module _ (W V E : Type 0) where
  -- What a task returns.
  pub data Outcome : Type 0 where
    value : V → Outcome
    failed : E → Outcome

  pub record BatchTask : Type 0 where
    pub id : Text
    pub kind : Text
    pub exec_fn : W → Outcome × W
    pub priority : ℤ
    pub cost_level : ℤ

  pub record BatchResult : Type 0 where
    pub task : BatchTask
    pub result : Outcome

abbrev pub int_ltb : ℤ → ℤ → Bool
int_ltb (pos a) (pos b) = ltb a b
int_ltb (pos a) (negsuc b) = false
int_ltb (negsuc a) (pos b) = true
int_ltb (negsuc a) (negsuc b) = ltb b a

abbrev pub int_eq : ℤ → ℤ → Bool
int_eq (pos a) (pos b) = a == b
int_eq (pos a) (negsuc b) = false
int_eq (negsuc a) (pos b) = false
int_eq (negsuc a) (negsuc b) = a == b

-- `0, 1, …` from `i` on, as many as there are tasks.
abbrev pub indices {ℓ} : {A : Type ℓ} → ℕ → List A → List ℕ
indices i [] = []
indices i (x ∷ xs) = i ∷ indices (suc i) xs

abbrev pub at {ℓ} : {A : Type ℓ} → List A → ℕ → Option A
at [] n = none
at (x ∷ xs) zero = some x
at (x ∷ xs) (suc n) = at xs n

-- `xs[n] = y`, for a position that is there
abbrev pub set_at {ℓ} : {A : Type ℓ} → List A → ℕ → A → List A
set_at [] n y = []
set_at (x ∷ xs) zero y = y ∷ xs
set_at (x ∷ xs) (suc n) y = x ∷ set_at xs n y

module _ {W V E : Type 0} where
  -- Whether the left task is to run before the right one.
  unfoldable pub runs_before : BatchTask W V E → BatchTask W V E → Bool
  runs_before left right =
      if int_eq left.priority right.priority
      then (if int_eq left.cost_level right.cost_level
          then (if text_eq left.kind right.kind
              then text_ltb left.id right.id
              else text_ltb left.kind right.kind)
          else int_ltb left.cost_level right.cost_level)
      else int_ltb right.priority left.priority

  abbrev pub less_at : List (BatchTask W V E) → ℕ → ℕ → Bool
  less_at tasks i j = elim (at tasks i) [
    | none ↦ false
    | some left ↦ elim (at tasks j) [ none ↦ false | some right ↦ runs_before left right ]
  ]

  unfoldable pub ordered_task_indices : List (BatchTask W V E) → List ℕ
  unfolding sort_by runs_before
  ordered_task_indices tasks = sort_by (less_at tasks) (indices 0 tasks)

module _ {W V E : Type 0} (ctx_err : W → Option E) where
  -- One round of the loop of SerialScheduler.Schedule.
  abbrev pub run_task : BatchTask W V E → W → BatchResult W V E × W
  run_task task w = elim (ctx_err w) [
    | some e ↦ (record { task = task; result = failed e }, w)
    | none ↦ let (r, w') = task.exec_fn w in (record { task = task; result = r }, w')
  ]

  -- The loop; a slot of the results is empty until its task has run.
  unfoldable pub run_all :
      List (BatchTask W V E)
      → List ℕ
      → List (Option (BatchResult W V E))
      → W
      → List (Option (BatchResult W V E)) × W
  run_all tasks [] results w = (results, w)
  run_all tasks (i ∷ order) results w = elim (at tasks i) [
    | none ↦ run_all tasks order results w
    | some task ↦
        let (r, w') = run_task task w in run_all tasks order (set_at results i (some r)) w'
  ]

  unfoldable pub serial_schedule :
      List (BatchTask W V E) → W → List (Option (BatchResult W V E)) × W
  unfolding run_all ordered_task_indices
  serial_schedule tasks w = run_all tasks (ordered_task_indices tasks) (map (λ t. none) tasks) w

-- The sizes are lengths, so they are not negative.
unfoldable pub estimate_io_cost_level : ℕ → ℕ
estimate_io_cost_level input_size =
    if ltb input_size 1024 then 1 else if ltb input_size 10240 then 2 else 3

unfoldable pub estimate_llm_cost_level : ℕ → ℕ → ℕ
estimate_llm_cost_level input_size prompt_size =
    let total = input_size + prompt_size in
    if ltb total 500 then 3 else if ltb total 5000 then 4 else 5
