-- ===== src/Batch/Samples.antt =====
-- A batch of three tasks, which count how many have run.
use satis.Base.{ℕ, suc, bytes, Text, text_eq, none, List, [], ◌∷◌, ◌≡◌, refl}
use satis.Base.Ints.{pos}
use satis.Batch.{Outcome, BatchTask, value, indices, less_at, ordered_task_indices, serial_schedule}
use satis.Base.Sorted.{Ordered}
use satis.Batch.Order.{times, higher_at, ordered_task_indices-Ordered}
use satis.Batch.Serial.{IsRun, IsFilled, serial_schedule-IsFilled}

abbrev task : Text → ℕ → ℕ → BatchTask ℕ ℕ ℕ
task id priority cost = record {
  id = id;
  kind = bytes "chunk";
  exec_fn = λ w. (value w, suc w);
  priority = pos priority;
  cost_level = pos cost;
}

abbrev tasks : List (BatchTask ℕ ℕ ℕ)
tasks = task (bytes "a") 1 3 ∷ task (bytes "b") 2 3 ∷ task (bytes "c") 2 1 ∷ []

order_of_tasks : ordered_task_indices tasks ≡ 2 ∷ 1 ∷ 0 ∷ []
unfolding ordered_task_indices text_eq
order_of_tasks = refl

ordered_task_indices-Ordered_example :
    Ordered (less_at tasks) (ordered_task_indices tasks)
    × Ordered (higher_at tasks) (ordered_task_indices tasks)
    × ((i : ℕ) → times i (ordered_task_indices tasks) ≡ times i (indices 0 tasks))
ordered_task_indices-Ordered_example = ordered_task_indices-Ordered tasks

serial_schedule-IsFilled_example :
    (trace : List (ℕ × Outcome ℕ ℕ ℕ)) × IsRun
      (λ w. none)
      tasks
      (ordered_task_indices tasks)
      0
      trace
      (serial_schedule (λ w. none) tasks 0).1
    × IsFilled trace (serial_schedule (λ w. none) tasks 0).0 1 (task (bytes "b") 2 3)
serial_schedule-IsFilled_example =
    serial_schedule-IsFilled (λ w. none) tasks 0 1 (task (bytes "b") 2 3) refl
