-- ===== src/Batch/Serial.antt =====
-- The serial scheduler runs every task once, in order, and stores its outcome in the task's place.
use satis.Base.{
  ℕ, zero, suc, ◌+◌, ◌<◌, ◌==◌, ==_iff, Bool-cases, inl, inr, ◌⊎◌, Option, none, some, List, [],
  ◌∷◌, map, ◌≡◌, ◌≢◌, refl, sym, ap, subst, ◌∙◌, arith,
}
use satis.Batch.{
  BatchTask, BatchResult, Outcome, failed, indices, at, set_at, ordered_task_indices, run_task,
  run_all, serial_schedule,
}
use satis.Batch.Order.{times, ordered_task_indices-Ordered}

module _ {A : Type 0} where
  at-set_at : (xs : List A) (i : ℕ) (x y : A) → at xs i ≡ some x → at (set_at xs i y) i ≡ some y
  at-set_at [] i x y h = cc
  at-set_at (z ∷ zs) zero x y h = refl
  at-set_at (z ∷ zs) (suc i) x y h = at-set_at zs i x y h

  at-set_at_ne : (xs : List A) (i j : ℕ) (y : A) → i ≢ j → at (set_at xs j y) i ≡ at xs i
  at-set_at_ne [] i j y h = refl
  at-set_at_ne (z ∷ zs) zero zero y h = absurd (h refl)
  at-set_at_ne (z ∷ zs) zero (suc j) y h = refl
  at-set_at_ne (z ∷ zs) (suc i) zero y h = refl
  at-set_at_ne (z ∷ zs) (suc i) (suc j) y h = at-set_at_ne zs i j y (λ e. h (ap suc e))

  times_below : (xs : List A) (i k : ℕ) → i < k → times i (indices k xs) ≡ 0
  unfolding times
  times_below [] i k h = refl
  times_below (x ∷ xs) i k h = ground (arith, times_below xs i (suc k) (omega arith))

  times-indices :
      (xs : List A) (i k : ℕ) (x : A) → at xs i ≡ some x → times (k + i) (indices k xs) ≡ 1
  unfolding times
  times-indices [] i k x h = cc
  times-indices (y ∷ ys) zero k x h = ground (arith, times_below ys (k + 0) (suc k) (omega arith))
  times-indices (y ∷ ys) (suc i) k x h =
      let same : suc k + i ≡ k + suc i = omega arith in
      ground (arith, times-indices ys i (suc k) x h, ap (λ n. times n (indices (suc k) ys)) same)

  -- A position of the list of positions holds an element.
  inside_indices :
      (xs : List A) (k i : ℕ) → times (k + i) (indices k xs) ≢ 0 → (x : A) × (at xs i ≡ some x)
  unfolding times
  inside_indices [] k i h = absurd (h refl)
  inside_indices (x ∷ xs) k zero h = (x, refl)
  inside_indices (x ∷ xs) k (suc i) h =
      let same : suc k + i ≡ k + suc i = omega arith in
      inside_indices xs (suc k) i
        (λ z. h (ground (arith, ap (λ n. times n (indices (suc k) xs)) same)))

module _ {W V E : Type 0} where
  -- One turn of a task in a state: it runs once, unless the context is done, and then it fails with the
  -- context's error and changes nothing.
  pub data IsTurn (ctx_err : W → Option E) (task : BatchTask W V E) (w : W)
      : Outcome W V E → W → Type 0 where
    runs : ctx_err w ≡ none → IsTurn ctx_err task w (task.exec_fn w).0 (task.exec_fn w).1
    stops : {e : E} → ctx_err w ≡ some e → IsTurn ctx_err task w (failed e) w

  -- The turns of an order of positions one after the other, each in the state that the one before it
  -- left, and the outcome of each with its position.
  pub data IsRun (ctx_err : W → Option E) (tasks : List (BatchTask W V E))
      : List ℕ → W → List (ℕ × Outcome W V E) → W → Type 0 where
    ended : {w : W} → IsRun ctx_err tasks [] w [] w
    turn :
        {i : ℕ}
        → {order : List ℕ} → {task : BatchTask W V E} → {w after last : W} → {r : Outcome W V E}
        → {rest : List (ℕ × Outcome W V E)} → at tasks i ≡ some task
        → IsTurn ctx_err task w r after
        → IsRun ctx_err tasks order after rest last
        → IsRun ctx_err tasks (i ∷ order) w ((i, r) ∷ rest) last

  -- The outcome stands in the list with the position.
  pub data IsOutcome (i : ℕ) (r : Outcome W V E) : List (ℕ × Outcome W V E) → Type 0 where
    now : {rest : List (ℕ × Outcome W V E)} → IsOutcome i r ((i, r) ∷ rest)
    later :
        {x : ℕ × Outcome W V E}
        → {rest : List (ℕ × Outcome W V E)} → IsOutcome i r rest
        → IsOutcome i r (x ∷ rest)

  -- The slot of a position holds the task with the outcome of its turn.
  pub record IsFilled (trace : List (ℕ × Outcome W V E))
      (results : List (Option (BatchResult W V E))) (i : ℕ) (task : BatchTask W V E) : Type 0 where
    pub outcome : Outcome W V E
    pub of_turn : IsOutcome i outcome trace
    pub stored : at results i ≡ some (some (record { task = task; result = outcome }))

  empty_slot :
      (tasks : List (BatchTask W V E)) (i : ℕ) (task : BatchTask W V E)
      → at tasks i ≡ some task
      → at (map {B = Option (BatchResult W V E)} (λ t. none) tasks) i ≡ some none
  empty_slot [] i task h = cc
  empty_slot (t ∷ tasks) zero task h = refl
  empty_slot (t ∷ tasks) (suc i) task h = empty_slot tasks i task h

module _ {W V E : Type 0} (ctx_err : W → Option E) where
  run_task-IsTurn :
      (task : BatchTask W V E) (w : W)
      → ((run_task ctx_err task w).0.task ≡ task)
        × IsTurn ctx_err task w (run_task ctx_err task w).0.result (run_task ctx_err task w).1
  run_task-IsTurn task w = found (ctx_err w) refl
    where
      found :
          (o : Option E)
          → ctx_err w ≡ o
          → ((run_task ctx_err task w).0.task ≡ task)
            × IsTurn ctx_err task w (run_task ctx_err task w).0.result (run_task ctx_err task w).1
      found none e = rw (e, run_task) ((refl, runs e))
      found (some x) e = rw (e, run_task) ((refl, stops e))

  module _ (tasks : List (BatchTask W V E)) where
    -- A run of an order, with what becomes of the slots: one is filled by its turn, or has no turn.
    record Traced (order : List ℕ) (results : List (Option (BatchResult W V E))) (w : W)
        : Type 0 where
      trace : List (ℕ × Outcome W V E)
      run : IsRun ctx_err tasks order w trace (run_all ctx_err tasks order results w).1
      slots :
          (i : ℕ) (task : BatchTask W V E) (slot : Option (BatchResult W V E))
          → at tasks i ≡ some task
          → at results i ≡ some slot
          → IsFilled trace (run_all ctx_err tasks order results w).0 i task
            ⊎ ((times i order ≡ 0) × (at (run_all ctx_err tasks order results w).0 i ≡ some slot))

    one_turn :
        (j : ℕ) (order : List ℕ) (results : List (Option (BatchResult W V E))) (w : W)
        (t : BatchTask W V E)
        → at tasks j ≡ some t
        → Traced order (set_at results j (some (run_task ctx_err t w).0)) (run_task ctx_err t w).1
        → Traced (j ∷ order) results w
    unfolding run_all times
    one_turn j order results w t e h =
        let r : BatchResult W V E = (run_task ctx_err t w).0 in
        let (same_task, turned) = run_task-IsTurn t w in
        record {
          trace = (j, r.result) ∷ h.trace;
          run = rw (e, run_all) (turn e turned h.run);
          slots = λ i task slot here there.
              rw (e, run_all)
                (elim (Bool-cases (i == j)) [
                  | inl s ↦
                      let same : i ≡ j = (==_iff i j).0 s in
                      let mine : t ≡ task = cc (sym e ∙ ap (at tasks) (sym same) ∙ here) in
                      let stored : at (set_at results j (some r)) i ≡ some (some r) =
                        ap (λ k. at (set_at results k (some r)) i) (sym same)
                        ∙ at-set_at results i slot (some r) there in
                      elim (h.slots i task (some r) here stored) [
                        | inl f ↦ inl (record {
                          outcome = f.outcome;
                          of_turn = later f.of_turn;
                          stored = f.stored;
                        })
                        | inr (z, kept) ↦ inl (record {
                          outcome = r.result;
                          of_turn =
                              subst (λ k. IsOutcome i r.result ((k, r.result) ∷ h.trace)) same now;
                          stored =
                              kept
                              ∙ ap
                                  (λ (x : BatchTask W V E).
                                    some (some (record { task = x; result = r.result })))
                                  (same_task ∙ mine);
                        })
                      ]
                  | inr s ↦
                      let apart : i ≢ j = (λ p. cc (sym s ∙ (==_iff i j).1 p)) in
                      let unset : at (set_at results j (some r)) i ≡ at results i =
                        at-set_at_ne results i j (some r) apart in
                      elim (h.slots i task slot here (unset ∙ there)) [
                        | inl f ↦ inl (record {
                          outcome = f.outcome;
                          of_turn = later f.of_turn;
                          stored = f.stored;
                        })
                        | inr (z, kept) ↦ inr (ground arith, kept)
                      ]
                ]);
        }

    run_all-Traced :
        (order : List ℕ) (results : List (Option (BatchResult W V E))) (w : W)
        → ((j : ℕ) → times j order ≢ 0 → (t : BatchTask W V E) × (at tasks j ≡ some t))
        → Traced order results w
    unfolding run_all times
    run_all-Traced [] results w inside = record {
      trace = [];
      run = ended;
      slots = λ i task slot here there. inr (refl, there);
    }
    run_all-Traced (j ∷ order) results w inside =
        let (t, e) = inside j (ground (arith, (==_iff j j).1 refl)) in
        one_turn j order results w t e (
          run_all-Traced order (set_at results j (some (run_task ctx_err t w).0))
            (run_task ctx_err t w).1 (λ i h. inside i (ground arith)))

  -- SerialScheduler.Schedule gives the tasks their turns one after the other, in their order, and the
  -- slot of each task holds this task with the outcome of its turn.
  pub serial_schedule-IsFilled :
      (tasks : List (BatchTask W V E)) (w : W) (i : ℕ) (task : BatchTask W V E)
      → at tasks i ≡ some task
      → (trace : List (ℕ × Outcome W V E)) × IsRun ctx_err tasks
          (ordered_task_indices tasks)
          w
          trace
          (serial_schedule ctx_err tasks w).1
        × IsFilled trace (serial_schedule ctx_err tasks w).0 i task
  unfolding serial_schedule
  serial_schedule-IsFilled tasks w i task here =
      let order : List ℕ = ordered_task_indices tasks in
      let permuted : (j : ℕ) → times j order ≡ times j (indices 0 tasks) =
        (ordered_task_indices-Ordered tasks).2 in
      let once : times i (indices 0 tasks) ≡ 1 =
        ap (λ n. times n (indices 0 tasks)) (omega arith) ∙ times-indices tasks i 0 task here in
      let h : Traced tasks order (map (λ t. none) tasks) w =
        run_all-Traced tasks order (map (λ t. none) tasks) w (λ j n.
          inside_indices tasks 0 j
            (λ z. n (permuted j ∙ ap (λ m. times m (indices 0 tasks)) (omega arith) ∙ z))) in
      (
        h.trace,
        h.run,
        elim (h.slots i task none here (empty_slot tasks i task here)) [
          | inl f ↦ f
          | inr (z, kept) ↦ absurd (omega (arith, z, permuted i, once))
        ],
      )
