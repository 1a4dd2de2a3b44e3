-- ===== src/Executor/Progress.antt =====
-- src/utils/executor.hpp: one worker that goes on is enough for the tasks in the queue to be run.
use lingdong.Prelude.{
  ℕ, zero, suc, ◌≡◌, refl, subst, ap, false, List, [], ◌∷◌, ◌++◌, append-nil, append_assoc, some,
  get_elem?, length,
}
use lingdong.BlockingQueue.{pop, pop_front}
use lingdong.Executor.{
  Executor, Worker, testing, entering, locking, running, Event, worker_acts, popped, act,
  step_worker, step, steps,
}
use lingdong.Executor.Exit.{get-set}

-- Four steps for each of `n` tasks.
abbrev pub rounds : ℕ → ℕ → List Event
rounds i zero = []
rounds i (suc n) = worker_acts i ∷ worker_acts i ∷ worker_acts i ∷ worker_acts i ∷ rounds i n

module _ {ℓ} {T : Type ℓ} (i : ℕ) where
  -- Worker `i` stands at `w`, the queue holds `ts`, `xs` were run, and nobody has called `join`.
  abbrev pub Stands : Worker T → List T → List T → Executor T → Type ℓ
  Stands w ts xs ex =
      (get_elem? ex.workers i ≡ some w)
      × (ex.task_queue.queue ≡ ts)
      × (ex.executed ≡ xs)
      × (ex.done ≡ false)
      × (ex.task_queue.closed ≡ false)

  module _ (ts xs : List T) (ex : Executor T) where
    from_testing : Stands testing ts xs ex → Stands entering ts xs (step (worker_acts i) ex)
    unfolding step step_worker act
    from_testing (at_i, q, x, d, c) =
        let moved = get-set ex.workers i entering at_i in rw at_i (rw d (moved, q, x, refl, c))

    from_entering : Stands entering ts xs ex → Stands locking ts xs (step (worker_acts i) ex)
    unfolding step step_worker act
    from_entering (at_i, q, x, d, c) =
        let moved = get-set ex.workers i locking at_i in rw at_i (rw c (moved, q, x, d, refl))

    from_locking :
        (t : T) → Stands locking (t ∷ ts) xs ex → Stands (running t) ts xs (step (worker_acts i) ex)
    unfolding step step_worker act pop pop_front popped
    from_locking t (at_i, q, x, d, c) =
        let moved = get-set ex.workers i (running t) at_i in rw at_i (rw q (moved, refl, x, d, c))

    from_running :
        (t : T)
        → Stands (running t) ts xs ex
        → Stands testing ts (xs ++ t ∷ []) (step (worker_acts i) ex)
    unfolding step step_worker act
    from_running t (at_i, q, x, d, c) =
        let moved = get-set ex.workers i testing at_i in
        rw at_i (moved, q, ap (λ s. s ++ t ∷ []) x, d, c)

  -- Where nobody calls `join`, a worker that is at its test and acts alone has run each task of
  -- the queue, in the order of the queue, after four steps for each, and the queue is empty.
  pub rounds-executed :
      (ts xs : List T) (ex : Executor T)
      → Stands testing ts xs ex
      → Stands testing [] (xs ++ ts) (steps (rounds i (length ts)) ex)
  unfolding steps
  rounds-executed [] xs ex h = rw (append-nil xs) h
  rounds-executed (t ∷ ts) xs ex h =
      let h1 = from_testing (t ∷ ts) xs ex h in
      let h2 = from_entering (t ∷ ts) xs (step (worker_acts i) ex) h1 in
      let h3 = from_locking ts xs (step (worker_acts i) (step (worker_acts i) ex)) t h2 in
      let h4 =
        from_running ts xs (step (worker_acts i) (step (worker_acts i) (step (worker_acts i) ex))) t
          h3 in
      let ended =
        rounds-executed ts (xs ++ t ∷ [])
          (step (worker_acts i)
            (step (worker_acts i) (step (worker_acts i) (step (worker_acts i) ex))))
          h4 in
      subst
        (λ s. Stands testing [] s (
          steps (rounds i (length ts)) (
            step (worker_acts i)
              (step (worker_acts i) (step (worker_acts i) (step (worker_acts i) ex))))))
        (append_assoc xs (t ∷ []) ts) ended
