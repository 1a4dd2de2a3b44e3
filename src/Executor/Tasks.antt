-- ===== src/Executor/Tasks.antt =====
-- src/utils/executor.hpp: where the tasks are. Each is in one place, and none is lost or run twice.
use lingdong.Prelude.{
  ℕ, zero, suc, ◌+◌, ◌≡◌, refl, ◌∙◌, ap, true, false, List, [], ◌∷◌, ◌++◌, some, get_elem?, set,
  leb, not, ◌&&◌, length, Bool-cases, Option-cases, inl, inr, arith,
}
use lingdong.BlockingQueue.{BlockingQueue, pop, pop_front, push, close}
use lingdong.Executor.{
  Executor, Worker, testing, entering, locking, running, exited, Caller, asking, trying, offering,
  pushing, answered, Event, worker_acts, caller_acts, push_expires, pop_expires, join_sets,
  join_closes, popped, pushed, expire, act, call, give_up, step_worker, step_caller, step_expiry,
  step_give_up, step, steps,
}

module _ {ℓ} {T : Type ℓ} (f : T → ℕ) where
  abbrev pub sum : List T → ℕ
  sum [] = 0
  sum (t ∷ ts) = f t + sum ts

  abbrev pub worker_sum : List (Worker T) → ℕ
  worker_sum [] = 0
  worker_sum (running t ∷ ws) = f t + worker_sum ws
  worker_sum (testing ∷ ws) = worker_sum ws
  worker_sum (entering ∷ ws) = worker_sum ws
  worker_sum (locking ∷ ws) = worker_sum ws
  worker_sum (exited ∷ ws) = worker_sum ws

  -- The tasks of the callers: those that are not yet taken, and those that are refused.
  abbrev pub caller_sum : List (Caller T) → ℕ
  caller_sum [] = 0
  caller_sum (asking t ∷ cs) = f t + caller_sum cs
  caller_sum (trying t ∷ cs) = f t + caller_sum cs
  caller_sum (offering t ∷ cs) = f t + caller_sum cs
  caller_sum (pushing t ∷ cs) = f t + caller_sum cs
  caller_sum (answered t true ∷ cs) = caller_sum cs
  caller_sum (answered t false ∷ cs) = f t + caller_sum cs

  abbrev pub total : Executor T → ℕ
  total ex =
      sum ex.executed + worker_sum ex.workers + sum ex.task_queue.queue + caller_sum ex.callers

  pub sum-snoc : (ts : List T) (t : T) → sum (ts ++ t ∷ []) ≡ sum ts + f t
  sum-snoc [] t = omega arith
  sum-snoc (x ∷ ts) t = omega (arith, sum-snoc ts t)

  abbrev one_worker : Worker T → ℕ
  one_worker w = worker_sum (w ∷ [])

  worker_sum-cons :
      (w : Worker T) (ws : List (Worker T)) → worker_sum (w ∷ ws) ≡ one_worker w + worker_sum ws
  worker_sum-cons (running t) ws = omega arith
  worker_sum-cons testing ws = omega arith
  worker_sum-cons entering ws = omega arith
  worker_sum-cons locking ws = omega arith
  worker_sum-cons exited ws = omega arith

  worker_sum-set :
      (ws : List (Worker T)) (i : ℕ) {w : Worker T} (w' : Worker T)
      → get_elem? ws i ≡ some w
      → worker_sum (set ws i w') + one_worker w ≡ worker_sum ws + one_worker w'
  worker_sum-set [] i w' e = cc e
  worker_sum-set (x ∷ ws) zero {w} w' e =
      let same : one_worker x ≡ one_worker w = cc e in
      omega (arith, same, worker_sum-cons x ws, worker_sum-cons w' ws)
  worker_sum-set (x ∷ ws) (suc i) {w} w' e =
      omega (arith, worker_sum-set ws i w' e, worker_sum-cons x ws, worker_sum-cons x (set ws i w'))

  abbrev one_caller : Caller T → ℕ
  one_caller c = caller_sum (c ∷ [])

  caller_sum-cons :
      (c : Caller T) (cs : List (Caller T)) → caller_sum (c ∷ cs) ≡ one_caller c + caller_sum cs
  caller_sum-cons (asking t) cs = omega arith
  caller_sum-cons (trying t) cs = omega arith
  caller_sum-cons (offering t) cs = omega arith
  caller_sum-cons (pushing t) cs = omega arith
  caller_sum-cons (answered t true) cs = omega arith
  caller_sum-cons (answered t false) cs = omega arith

  caller_sum-set :
      (cs : List (Caller T)) (i : ℕ) {c : Caller T} (c' : Caller T)
      → get_elem? cs i ≡ some c
      → caller_sum (set cs i c') + one_caller c ≡ caller_sum cs + one_caller c'
  caller_sum-set [] i c' e = cc e
  caller_sum-set (x ∷ cs) zero {c} c' e =
      let same : one_caller x ≡ one_caller c = cc e in
      omega (arith, same, caller_sum-cons x cs, caller_sum-cons c' cs)
  caller_sum-set (x ∷ cs) (suc i) {c} c' e =
      omega (arith, caller_sum-set cs i c' e, caller_sum-cons x cs, caller_sum-cons x (set cs i c'))

  pop_front-sum :
      (q : BlockingQueue T) (ts : List T)
      → q.queue ≡ ts
      → one_worker (popped (pop_front q ts).0) + sum (pop_front q ts).1.queue ≡ sum ts
  unfolding pop_front popped
  pop_front-sum q [] e = elim (Bool-cases q.closed) [
    | inl c ↦ rw c (rw e refl)
    | inr c ↦ rw c (rw e refl)
  ]
  pop_front-sum q (t ∷ ts) e = omega arith

  -- What a worker or a caller holds and what the executor holds, together.
  abbrev held : Executor T → ℕ
  held ex = sum ex.executed + sum ex.task_queue.queue

  act-sum :
      (w : Worker T) (ex : Executor T)
      → (one_worker (act w ex).0 + held (act w ex).1 ≡ one_worker w + held ex)
        × ((act w ex).1.workers ≡ ex.workers)
        × ((act w ex).1.callers ≡ ex.callers)
  unfolding act pop
  act-sum testing ex =
      (elim (Bool-cases ex.done) [ inl d ↦ rw d refl | inr d ↦ rw d refl ], refl, refl)
  act-sum entering ex =
      (elim (Bool-cases ex.task_queue.closed) [ inl c ↦ rw c refl | inr c ↦ rw c refl ], refl, refl)
  act-sum locking ex =
      (omega (arith, pop_front-sum ex.task_queue ex.task_queue.queue refl), refl, refl)
  act-sum (running t) ex = (omega (arith, sum-snoc ex.executed t), refl, refl)
  act-sum exited ex = (refl, refl, refl)

  push-sum :
      (t : T) (q : BlockingQueue T)
      → one_caller (pushed t (push t q).0) + sum (push t q).1.queue ≡ f t + sum q.queue
  unfolding push pushed
  push-sum t q = elim (Bool-cases (leb q.capacity (length q.queue) && not q.closed)) [
    | inl full ↦ rw full (omega arith)
    | inr room ↦ rw room (elim (Bool-cases q.closed) [
      | inl c ↦ rw c (omega arith)
      | inr c ↦ rw c (omega (arith, sum-snoc q.queue t))
    ])
  ]

  call-sum :
      (c : Caller T) (ex : Executor T)
      → (one_caller (call c ex).0 + held (call c ex).1 ≡ one_caller c + held ex)
        × ((call c ex).1.workers ≡ ex.workers)
        × ((call c ex).1.callers ≡ ex.callers)
  unfolding call
  call-sum (asking t) ex =
      (elim (Bool-cases ex.done) [ inl d ↦ rw d refl | inr d ↦ rw d refl ], refl, refl)
  call-sum (trying t) ex =
      (elim (Bool-cases ex.done) [ inl d ↦ rw d refl | inr d ↦ rw d refl ], refl, refl)
  call-sum (offering t) ex =
      (elim (Bool-cases ex.task_queue.closed) [ inl c ↦ rw c refl | inr c ↦ rw c refl ], refl, refl)
  call-sum (pushing t) ex = (omega (arith, push-sum t ex.task_queue), refl, refl)
  call-sum (answered t status) ex = (refl, refl, refl)

  give_up-sum : (w : Worker T) → one_worker (give_up w) ≡ one_worker w
  unfolding give_up
  give_up-sum testing = refl
  give_up-sum entering = refl
  give_up-sum locking = refl
  give_up-sum (running t) = refl
  give_up-sum exited = refl

  expire-sum : (c : Caller T) → one_caller (expire c) ≡ one_caller c
  unfolding expire
  expire-sum (asking t) = refl
  expire-sum (trying t) = refl
  expire-sum (offering t) = refl
  expire-sum (pushing t) = refl
  expire-sum (answered t status) = refl

  step-total : (e : Event) (ex : Executor T) → total (step e ex) ≡ total ex
  unfolding step step_worker step_caller step_expiry step_give_up close
  step-total (worker_acts i) ex = elim (Option-cases (get_elem? ex.workers i)) [
    | inl nobody ↦ rw nobody refl
    | inr (w, there) ↦
        let (same, ws, cs) = act-sum w ex in
        let swapped = worker_sum-set ex.workers i (act w ex).0 there in
        let others : caller_sum (act w ex).1.callers ≡ caller_sum ex.callers = ap caller_sum cs in
        rw there (omega (arith, same, swapped, others))
  ]
  step-total (caller_acts i) ex = elim (Option-cases (get_elem? ex.callers i)) [
    | inl nobody ↦ rw nobody refl
    | inr (c, there) ↦
        let (same, ws, cs) = call-sum c ex in
        let swapped = caller_sum-set ex.callers i (call c ex).0 there in
        let others : worker_sum (call c ex).1.workers ≡ worker_sum ex.workers = ap worker_sum ws in
        rw there (omega (arith, same, swapped, others))
  ]
  step-total (push_expires i) ex = elim (Option-cases (get_elem? ex.callers i)) [
    | inl nobody ↦ rw nobody refl
    | inr (c, there) ↦
        rw there (omega (arith, caller_sum-set ex.callers i (expire c) there, expire-sum c))
  ]
  step-total (pop_expires i) ex = elim (Option-cases (get_elem? ex.workers i)) [
    | inl nobody ↦ rw nobody refl
    | inr (w, there) ↦
        rw there (omega (arith, worker_sum-set ex.workers i (give_up w) there, give_up-sum w))
  ]
  step-total join_sets ex = refl
  step-total join_closes ex = elim (Bool-cases ex.done) [ inl d ↦ rw d refl | inr d ↦ rw d refl ]

  -- Whatever the threads do and in whatever order, and however tasks are weighed: the tasks that
  -- were run, that workers are in, that are queued, and that callers still have or got back
  -- refused, weigh the same together at all times. So no task is lost, and none is run twice.
  pub steps-total : (es : List Event) (ex : Executor T) → total (steps es ex) ≡ total ex
  unfolding steps
  steps-total [] ex = refl
  steps-total (e ∷ es) ex = steps-total es (step e ex) ∙ step-total e ex
