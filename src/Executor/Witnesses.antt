-- ===== src/Executor/Witnesses.antt =====
-- The theorems on src/utils/executor.hpp at concrete inputs.
use lingdong.Prelude.{ℕ, ◌≡◌, refl, true, false, [], ◌∷◌, List, some, get_elem?, arith}
use lingdong.BlockingQueue.{new_queue}
use lingdong.Executor.{
  Executor, Event, worker_acts, caller_acts, join_sets, join_closes, testing, locking, exited,
  asking, act, popped, call, step, step_worker, step_caller, steps,
}
use lingdong.BlockingQueue.{pop, pop_front, close}
use lingdong.Executor.Tasks.{total, steps-total}
use lingdong.Executor.Exit.{steps-exited}
use lingdong.Executor.Progress.{Stands, rounds, rounds-executed}

-- A worker is at its lock, and a caller has a task, when another thread calls `join`.
abbrev busy : Executor ℕ
busy = record {
  task_queue = record (new_queue 2) { queue = 7 ∷ [] };
  done = false;
  workers = locking ∷ testing ∷ [];
  callers = asking 8 ∷ [];
  executed = [];
}

abbrev join_events : List Event
join_events =
    join_sets ∷ join_closes ∷ worker_acts 0 ∷ caller_acts 0 ∷ worker_acts 0 ∷ worker_acts 0 ∷ []

join_test : (steps join_events busy).executed ≡ 7 ∷ []
unfolding steps step step_worker step_caller act popped pop pop_front call close
join_test = refl

steps-total_example : total (λ t. t) (steps join_events busy) ≡ total (λ t. t) busy
steps-total_example = steps-total (λ t. t) join_events busy

abbrev joined : Executor ℕ
joined = record busy { done = true; task_queue = close busy.task_queue }

joined_closed : joined.task_queue.closed ≡ true
unfolding close
joined_closed = refl

steps-exited_example :
    get_elem?
      (steps (worker_acts 0 ∷ caller_acts 0 ∷ worker_acts 0 ∷ worker_acts 0 ∷ []) joined).workers
      0
    ≡ some exited
steps-exited_example =
    steps-exited (worker_acts 0 ∷ caller_acts 0 ∷ worker_acts 0 ∷ worker_acts 0 ∷ []) 0 joined
      (refl, joined_closed) refl (omega arith)

rounds-executed_example : Stands 1 testing [] (7 ∷ []) (steps (rounds 1 1) busy)
rounds-executed_example = rounds-executed 1 (7 ∷ []) [] busy (refl, refl, refl, refl, refl)
