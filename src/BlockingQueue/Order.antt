-- ===== src/BlockingQueue/Order.antt =====
-- The sections of src/utils/blocking_queue.hpp in any order: what goes in comes out in its order.
use lingdong.Prelude.{
  ◌≤◌, ◌≡◌, refl, sym, ap, ◌∙◌, true, false, Bool-cases, inl, inr, ◌⊎◌, ◌<◌, List, [], ◌∷◌, ◌++◌,
  append-nil, append_assoc, length, length-append, leb, All, arith,
}
use lingdong.BlockingQueue.{
  BlockingQueue, Section, push_section, pop_section, reserve_call, close_call, push, pop, pop_front,
  put, taken, reserve, close, serve, serve_all,
}

module _ {ℓ} {T : Type ℓ} where
  pop_front-fifo :
      (q : BlockingQueue T) (ts : List T)
      → q.queue ≡ ts
      → ts ++ [] ≡ taken (pop_front q ts).0 ++ (pop_front q ts).1.queue
  unfolding pop_front
  pop_front-fifo q [] e = elim (Bool-cases q.closed) [ inl c ↦ rw c (sym e) | inr c ↦ rw c (sym e) ]
  pop_front-fifo q (t ∷ ts) e = append-nil (t ∷ ts)

  pop_front-closed :
      (q : BlockingQueue T) (ts : List T) → q.closed ≡ true → (pop_front q ts).1.closed ≡ true
  unfolding pop_front
  pop_front-closed q [] c = rw c refl
  pop_front-closed q (t ∷ ts) c = c

  pop_front-le :
      (q : BlockingQueue T) (ts : List T)
      → q.queue ≡ ts
      → ((pop_front q ts).1.capacity ≡ q.capacity) × (length (pop_front q ts).1.queue ≤ length ts)
  unfolding pop_front
  pop_front-le q [] e = elim (Bool-cases q.closed) [
    | inl c ↦ rw c (refl, rw e (omega arith))
    | inr c ↦ rw c (refl, rw e (omega arith))
  ]
  pop_front-le q (t ∷ ts) e = (refl, omega arith)

  -- `push` leaves the queue, or there is room and it adds the element behind all others.
  push-cases :
      (x : T) (q : BlockingQueue T)
      → ((put x (push x q).0 ≡ []) × ((push x q).1 ≡ q))
        ⊎ ((q.closed ≡ false)
            × (length q.queue < q.capacity)
            × (put x (push x q).0 ≡ x ∷ [])
            × ((push x q).1 ≡ record q { queue = q.queue ++ x ∷ [] }))
  unfolding push
  push-cases x q = elim (Bool-cases q.closed) [
    | inl c ↦ rw c (elim (Bool-cases (leb q.capacity (length q.queue))) [
      | inl l ↦ rw l (inl (refl, refl))
      | inr l ↦ rw l (inl (refl, refl))
    ])
    | inr c ↦ rw c (elim (Bool-cases (leb q.capacity (length q.queue))) [
      | inl l ↦ rw l (inl (refl, refl))
      | inr l ↦ rw l (inr (refl, ground arith, refl, refl))
    ])
  ]

  serve-fifo :
      (s : Section T) (q : BlockingQueue T)
      → q.queue ++ (serve s q).accepted ≡ (serve s q).delivered ++ (serve s q).after.queue
  unfolding serve push pop pop_front reserve close
  serve-fifo (push_section x) q = elim (push-cases x q) [
    | inl (none_put, same) ↦ rw none_put (rw same (append-nil q.queue))
    | inr (opened, room, one_put, added) ↦ rw one_put (rw added refl)
  ]
  serve-fifo pop_section q = pop_front-fifo q q.queue refl
  serve-fifo (reserve_call cap) q = append-nil q.queue
  serve-fifo close_call q = append-nil q.queue

  -- In whatever order the threads have the lock, what was in the queue and what was accepted
  -- since is, in this order, what was delivered and what is left: nothing is lost, doubled or
  -- overtaken.
  pub serve_all-fifo :
      (ss : List (Section T)) (q : BlockingQueue T)
      → q.queue ++ (serve_all ss q).accepted
        ≡ (serve_all ss q).delivered ++ (serve_all ss q).after.queue
  unfolding serve_all
  serve_all-fifo [] q = append-nil q.queue
  serve_all-fifo (s ∷ ss) q =
      sym (append_assoc q.queue (serve s q).accepted _)
      ∙ ap (λ ts. ts ++ (serve_all ss (serve s q).after).accepted) (serve-fifo s q)
      ∙ append_assoc (serve s q).delivered (serve s q).after.queue _
      ∙ ap (λ ts. (serve s q).delivered ++ ts) (serve_all-fifo ss (serve s q).after)
      ∙ sym (append_assoc (serve s q).delivered _ _)

  -- A section that does not change the capacity.
  abbrev pub Keeps : Section T → Type 0
  Keeps (push_section x) = Unit
  Keeps pop_section = Unit
  Keeps (reserve_call cap) = ⊥
  Keeps close_call = Unit

  serve-bounded :
      (s : Section T) (q : BlockingQueue T)
      → Keeps s
      → length q.queue ≤ q.capacity
      → ((serve s q).after.capacity ≡ q.capacity) × (length (serve s q).after.queue ≤ q.capacity)
  unfolding serve push pop pop_front close
  serve-bounded (push_section x) q k h = elim (push-cases x q) [
    | inl (none_put, same) ↦ rw same (refl, h)
    | inr (opened, room, one_put, added) ↦
        rw added (refl, omega (arith, length-append q.queue (x ∷ [])))
  ]
  serve-bounded pop_section q k h =
      rw (pop_front-le q q.queue refl).0 (refl, omega (arith, pop_front-le q q.queue refl))
  serve-bounded (reserve_call cap) q k h = absurd k
  serve-bounded close_call q k h = (refl, h)

  -- A queue within its capacity stays within it, whatever the threads do, so long as none calls
  -- `reserve`.
  pub serve_all-bounded :
      (ss : List (Section T)) (q : BlockingQueue T)
      → All Keeps ss
      → length q.queue ≤ q.capacity
      → length (serve_all ss q).after.queue ≤ q.capacity
  unfolding serve_all
  serve_all-bounded [] q k h = h
  serve_all-bounded (s ∷ ss) q (k, ks) h =
      let (same, bound) = serve-bounded s q k h in
      let rest = serve_all-bounded ss (serve s q).after ks in rw same at rest bound

  serve-closed :
      (s : Section T) (q : BlockingQueue T)
      → q.closed ≡ true
      → ((serve s q).after.closed ≡ true) × ((serve s q).accepted ≡ [])
  unfolding serve pop reserve close
  serve-closed (push_section x) q c = elim (push-cases x q) [
    | inl (none_put, same) ↦ rw same (c, none_put)
    | inr (opened, room, one_put, added) ↦ absurd (ground (arith, c, opened))
  ]
  serve-closed pop_section q c = (pop_front-closed q q.queue c, refl)
  serve-closed (reserve_call cap) q c = (c, refl)
  serve-closed close_call q c = (refl, refl)

  serve_all-closed :
      (ss : List (Section T)) (q : BlockingQueue T)
      → q.closed ≡ true
      → (serve_all ss q).accepted ≡ []
  unfolding serve_all
  serve_all-closed [] q c = refl
  serve_all-closed (s ∷ ss) q c =
      let (shut, nothing) = serve-closed s q c in
      let rest = serve_all-closed ss (serve s q).after shut in rw nothing rest

  -- Behind a call of `close`, no push of any thread is accepted any more.
  pub close-serve_all :
      (ss : List (Section T)) (q : BlockingQueue T) → (serve_all ss (close q)).accepted ≡ []
  unfolding close
  close-serve_all ss q = serve_all-closed ss (close q) refl
