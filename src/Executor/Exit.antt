-- ===== src/Executor/Exit.antt =====
-- src/utils/executor.hpp: behind `join` every worker comes to the end of its loop.
use lingdong.Prelude.{
  ℕ, zero, suc, ◌+◌, ◌-◌, ◌≤◌, ◌≡◌, ◌≢◌, refl, subst, ap, ◌∙◌, true, false, List, [], ◌∷◌, some,
  get_elem?, set, get_elem?-set_ne, ◌==◌, ==_iff, if◌then◌else◌, Bool-cases, Option-cases, inl, inr,
  arith,
}
use lingdong.BlockingQueue.{BlockingQueue, pop, pop_front, push, close}
use lingdong.Executor.{
  Executor, Worker, testing, entering, locking, running, exited, Caller, asking, trying, offering,
  pushing, answered, Event, worker_acts, caller_acts, push_expires, pop_expires, join_sets,
  join_closes, popped, act, call, give_up, step_worker, step_caller, step_expiry, step_give_up,
  step, steps,
}

abbrev pub acts : ℕ → Event → ℕ
acts i (worker_acts j) = if j == i then 1 else 0
acts i (caller_acts j) = 0
acts i (push_expires j) = 0
acts i (pop_expires j) = 0
acts i join_sets = 0
acts i join_closes = 0

-- How often worker `i` acts.
abbrev pub turns : ℕ → List Event → ℕ
turns i [] = 0
turns i (e ∷ es) = acts i e + turns i es

module _ {ℓ} {T : Type ℓ} where
  -- `join` has set `done_` and closed the queue.
  abbrev pub Joined : Executor T → Type 0
  Joined ex = (ex.done ≡ true) × (ex.task_queue.closed ≡ true)

  -- How many steps a worker is at most away from the end, behind `join`.
  abbrev rank : Worker T → ℕ
  rank exited = 0
  rank testing = 1
  rank entering = 2
  rank (running t) = 2
  rank locking = 3

  pop_front-Joined :
      (q : BlockingQueue T) (ts : List T)
      → q.closed ≡ true
      → (rank (popped (pop_front q ts).0) ≤ 2) × ((pop_front q ts).1.closed ≡ true)
  unfolding pop_front popped
  pop_front-Joined q [] c = rw c (omega arith, refl)
  pop_front-Joined q (t ∷ ts) c = (omega arith, c)

  act-Joined :
      (w : Worker T) (ex : Executor T)
      → Joined ex
      → (rank (act w ex).0 ≤ rank w - 1) × Joined (act w ex).1 × ((act w ex).1.workers ≡ ex.workers)
  unfolding act pop
  act-Joined testing ex (d, c) = rw d (omega arith, (refl, c), refl)
  act-Joined entering ex (d, c) = rw c (omega arith, (d, refl), refl)
  act-Joined locking ex (d, c) =
      let (few, shut) = pop_front-Joined ex.task_queue ex.task_queue.queue c in
      (omega arith, (d, shut), refl)
  act-Joined (running t) ex (d, c) = (omega arith, (d, c), refl)
  act-Joined exited ex (d, c) = (omega arith, (d, c), refl)

  rank-three : (w : Worker T) → rank w ≤ 3
  rank-three exited = omega arith
  rank-three testing = omega arith
  rank-three entering = omega arith
  rank-three (running t) = omega arith
  rank-three locking = omega arith

  push-closed : (t : T) (q : BlockingQueue T) → q.closed ≡ true → (push t q).1.closed ≡ true
  unfolding push
  push-closed t q c = rw c (ground (arith, c))

  call-Joined :
      (c : Caller T) (ex : Executor T)
      → Joined ex
      → Joined (call c ex).1 × ((call c ex).1.workers ≡ ex.workers)
  unfolding call
  call-Joined (asking t) ex h = (h, refl)
  call-Joined (trying t) ex h = (h, refl)
  call-Joined (offering t) ex h = (h, refl)
  call-Joined (pushing t) ex (d, c) = ((d, push-closed t ex.task_queue c), refl)
  call-Joined (answered t status) ex h = (h, refl)

  pub get-set :
      (ws : List (Worker T)) (i : ℕ) {w : Worker T} (w' : Worker T)
      → get_elem? ws i ≡ some w
      → get_elem? (set ws i w') i ≡ some w'
  get-set [] i w' e = cc e
  get-set (x ∷ ws) zero w' e = refl
  get-set (x ∷ ws) (suc i) w' e = get-set ws i w' e

  -- What a step does to worker `i` behind `join`.
  abbrev Nearer : ℕ → ℕ → Worker T → Executor T → Type ℓ
  Nearer i taken w ex =
      (w' : Worker T) × (get_elem? ex.workers i ≡ some w') × (rank w' ≤ rank w - taken) × Joined ex

  give_up-rank : (w : Worker T) → rank (give_up w) ≤ rank w
  unfolding give_up
  give_up-rank testing = omega arith
  give_up-rank entering = omega arith
  give_up-rank locking = omega arith
  give_up-rank (running t) = omega arith
  give_up-rank exited = omega arith

  step_worker-Nearer :
      (i j : ℕ) {w : Worker T} (v : Worker T) (ex : Executor T)
      → Joined ex
      → get_elem? ex.workers i ≡ some w
      → get_elem? ex.workers j ≡ some v
      → Nearer i (if j == i then 1 else 0) w (step_worker j (some v) ex)
  unfolding step_worker
  step_worker-Nearer i j {w} v ex h e e' =
      let (less, h', others) = act-Joined v ex h in
      elim (Bool-cases (j == i)) [
        | inl same ↦
            let eq : j ≡ i = (==_iff j i).0 same in
            let own : v ≡ w = cc (e, e', eq) in
            rw same (
              (act v ex).0,
              rw eq (get-set ex.workers i (act v ex).0 e),
              subst (λ x. rank (act v ex).0 ≤ rank x - 1) own less,
              h',
            )
        | inr other ↦
            let ne : j ≢ i = ground (arith, other) in
            rw other (w, get_elem?-set_ne ex.workers (act v ex).0 ne ∙ e, omega arith, h')
      ]

  step_give_up-Nearer :
      (i j : ℕ) {w : Worker T} (v : Worker T) (ex : Executor T)
      → Joined ex
      → get_elem? ex.workers i ≡ some w
      → get_elem? ex.workers j ≡ some v
      → Nearer i 0 w (step_give_up j (some v) ex)
  unfolding step_give_up
  step_give_up-Nearer i j {w} v ex h e e' = elim (Bool-cases (j == i)) [
    | inl same ↦
        let eq : j ≡ i = (==_iff j i).0 same in
        let own : v ≡ w = cc (e, e', eq) in
        (
          give_up v,
          rw eq (get-set ex.workers i (give_up v) e),
          subst (λ x. rank (give_up v) ≤ rank x - 0) own (omega (arith, give_up-rank v)),
          h,
        )
    | inr other ↦
        let ne : j ≢ i = ground (arith, other) in
        (w, get_elem?-set_ne ex.workers (give_up v) ne ∙ e, omega arith, h)
  ]

  step-Nearer :
      (e : Event) (i : ℕ) {w : Worker T} (ex : Executor T)
      → Joined ex
      → get_elem? ex.workers i ≡ some w
      → Nearer i (acts i e) w (step e ex)
  unfolding step step_worker step_caller step_expiry step_give_up close
  step-Nearer (worker_acts j) i {w} ex h at_i = elim (Option-cases (get_elem? ex.workers j)) [
    | inr (v, at_j) ↦ rw at_j (step_worker-Nearer i j v ex h at_i at_j)
    | inl nobody ↦
        let ne : (j == i) ≡ false = elim (Bool-cases (j == i)) [
          | inl same ↦ let eq : j ≡ i = (==_iff j i).0 same in absurd (cc (at_i, nobody, eq))
          | inr other ↦ other
        ] in
        rw nobody (rw ne (w, at_i, omega arith, h))
  ]
  step-Nearer (caller_acts j) i {w} ex h at_i = elim (Option-cases (get_elem? ex.callers j)) [
    | inl nobody ↦ rw nobody (w, at_i, omega arith, h)
    | inr (c, there) ↦
        let (h', same) = call-Joined c ex h in
        rw there (w, ap (λ ws. get_elem? ws i) same ∙ at_i, omega arith, h')
  ]
  step-Nearer (push_expires j) i {w} ex h at_i = elim (Option-cases (get_elem? ex.callers j)) [
    | inl nobody ↦ rw nobody (w, at_i, omega arith, h)
    | inr (c, there) ↦ rw there (w, at_i, omega arith, h)
  ]
  step-Nearer (pop_expires j) i {w} ex h at_i = elim (Option-cases (get_elem? ex.workers j)) [
    | inl nobody ↦ rw nobody (w, at_i, omega arith, h)
    | inr (v, at_j) ↦ rw at_j (step_give_up-Nearer i j v ex h at_i at_j)
  ]
  step-Nearer join_sets i {w} ex (d, c) at_i = (w, at_i, omega arith, (refl, c))
  step-Nearer join_closes i {w} ex (d, c) at_i = rw d (w, at_i, omega arith, (refl, refl))

  steps-Nearer :
      (es : List Event) (i : ℕ) {w : Worker T} (ex : Executor T)
      → Joined ex
      → get_elem? ex.workers i ≡ some w
      → Nearer i (turns i es) w (steps es ex)
  unfolding steps
  steps-Nearer [] i {w} ex h e = (w, e, omega arith, h)
  steps-Nearer (event ∷ es) i {w} ex h e =
      let (w1, e1, less1, h1) = step-Nearer event i ex h e in
      let (w2, e2, less2, h2) = steps-Nearer es i (step event ex) h1 e1 in (w2, e2, omega arith, h2)

  rank-exited : (w : Worker T) → rank w ≤ 0 → w ≡ exited
  rank-exited exited h = refl
  rank-exited testing h = absurd (omega arith)
  rank-exited entering h = absurd (omega arith)
  rank-exited locking h = absurd (omega arith)
  rank-exited (running t) h = absurd (omega arith)

  -- Once `join` has set `done_` and closed the queue, a worker that acts three times is at its
  -- end, wherever it stood and whatever the other threads do in between.
  pub steps-exited :
      (es : List Event) (i : ℕ) {w : Worker T} (ex : Executor T)
      → Joined ex
      → get_elem? ex.workers i ≡ some w
      → 3 ≤ turns i es
      → get_elem? (steps es ex).workers i ≡ some exited
  steps-exited es i {w} ex h e enough =
      let (w', e', less, h') = steps-Nearer es i ex h e in
      e' ∙ ap some (rank-exited w' (omega (arith, rank-three w)))
