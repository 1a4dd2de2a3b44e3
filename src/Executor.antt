-- ===== src/Executor.antt =====
-- src/utils/executor.hpp: the workers of an executor, the threads that give it tasks, and `join`, as
-- steps of a shared state. A step goes to where the thread next reads or writes what is shared.
pub mod Tasks
pub mod Exit
pub mod Progress
mod Witnesses
use lingdong.Prelude.{
  ℕ, zero, suc, Bool, true, false, not, ◌||◌, List, [], ◌∷◌, ◌++◌, Option, none, some, get_elem?,
  set, if◌then◌else◌,
}
use lingdong.BlockingQueue.{BlockingQueue, Outcome, waits, returns, push, pop, close}

-- Where a worker stands: before the test of `done_`, at the first test of `pop`, at its lock, in
-- a task, or behind the loop.
pub data Worker {ℓ} (T : Type ℓ) : Type ℓ where
  testing : Worker T
  entering : Worker T
  locking : Worker T
  running : T → Worker T
  exited : Worker T

-- Where a call of `async_execute` stands: before its first test, before the test of its loop, at
-- the first test of `push`, at its lock, or behind its return.
pub data Caller {ℓ} (T : Type ℓ) : Type ℓ where
  asking : T → Caller T
  trying : T → Caller T
  offering : T → Caller T
  pushing : T → Caller T
  answered : T → Bool → Caller T

pub record Executor {ℓ} (T : Type ℓ) : Type ℓ where
  pub task_queue : BlockingQueue T
  pub done : Bool
  pub workers : List (Worker T)
  pub callers : List (Caller T)
  pub executed : List T

pub data Event : Type 0 where
  worker_acts : ℕ → Event
  caller_acts : ℕ → Event
  push_expires : ℕ → Event
  pop_expires : ℕ → Event
  join_sets : Event
  join_closes : Event

module _ {ℓ} {T : Type ℓ} where
  unfoldable pub popped : Outcome (Option T) → Worker T
  popped waits = locking
  popped (returns none) = testing
  popped (returns (some t)) = running t

  -- The loop of a worker.
  unfoldable pub act : Worker T → Executor T → Worker T × Executor T
  act testing ex = (if ex.done then exited else entering, ex)
  act entering ex = (if ex.task_queue.closed then testing else locking, ex)
  act locking ex =
      let (outcome, q) = pop ex.task_queue in (popped outcome, record ex { task_queue = q })
  act (running t) ex = (testing, record ex { executed = ex.executed ++ t ∷ [] })
  act exited ex = (exited, ex)

  -- `push` returned false: the loop goes on. It returned true: so does `async_execute`.
  unfoldable pub pushed : T → Outcome Bool → Caller T
  pushed t waits = pushing t
  pushed t (returns true) = answered t true
  pushed t (returns false) = trying t

  -- `async_execute`. Behind its loop `done_` is set, and stays so.
  unfoldable pub call : Caller T → Executor T → Caller T × Executor T
  call (asking t) ex = (if ex.done then answered t false else trying t, ex)
  call (trying t) ex = (if ex.done then answered t (false || not ex.done) else offering t, ex)
  call (offering t) ex = (if ex.task_queue.closed then trying t else pushing t, ex)
  call (pushing t) ex =
      let (outcome, q) = push t ex.task_queue in (pushed t outcome, record ex { task_queue = q })
  call (answered t status) ex = (answered t status, ex)

  -- A `push` that waits comes to the end of its 50 ms.
  unfoldable pub expire : Caller T → Caller T
  expire (pushing t) = trying t
  expire (asking t) = asking t
  expire (trying t) = trying t
  expire (offering t) = offering t
  expire (answered t status) = answered t status

  -- So does a `pop`, which then returns false.
  unfoldable pub give_up : Worker T → Worker T
  give_up locking = testing
  give_up testing = testing
  give_up entering = entering
  give_up (running t) = running t
  give_up exited = exited

  unfoldable pub step_give_up : ℕ → Option (Worker T) → Executor T → Executor T
  step_give_up i none ex = ex
  step_give_up i (some w) ex = record ex { workers = set ex.workers i (give_up w) }

  unfoldable pub step_worker : ℕ → Option (Worker T) → Executor T → Executor T
  step_worker i none ex = ex
  step_worker i (some w) ex =
      let (w', ex') = act w ex in record ex' { workers = set ex.workers i w' }

  unfoldable pub step_caller : ℕ → Option (Caller T) → Executor T → Executor T
  step_caller i none ex = ex
  step_caller i (some c) ex =
      let (c', ex') = call c ex in record ex' { callers = set ex.callers i c' }

  unfoldable pub step_expiry : ℕ → Option (Caller T) → Executor T → Executor T
  step_expiry i none ex = ex
  step_expiry i (some c) ex = record ex { callers = set ex.callers i (expire c) }

  unfoldable pub step : Event → Executor T → Executor T
  step (worker_acts i) ex = step_worker i (get_elem? ex.workers i) ex
  step (caller_acts i) ex = step_caller i (get_elem? ex.callers i) ex
  step (push_expires i) ex = step_expiry i (get_elem? ex.callers i) ex
  step (pop_expires i) ex = step_give_up i (get_elem? ex.workers i) ex
  step join_sets ex = record ex { done = true }
  step join_closes ex = if ex.done then record ex { task_queue = close ex.task_queue } else ex

  unfoldable pub steps : List Event → Executor T → Executor T
  steps [] ex = ex
  steps (e ∷ es) ex = steps es (step e ex)
