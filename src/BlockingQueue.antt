-- ===== src/BlockingQueue.antt =====
-- src/utils/blocking_queue.hpp: the bounded queue that threads share. Each member function holds the lock
-- but while it waits, so that the state of the queue changes in whole sections between waits.
pub mod Order
mod Witnesses
use lingdong.Prelude.{
  ℕ, zero, suc, ◌+◌, Bool, true, false, not, ◌&&◌, ◌||◌, List, [], ◌∷◌, ◌++◌, Option, none, some,
  length, leb, is_empty, if◌then◌else◌,
}

pub record BlockingQueue {ℓ} (T : Type ℓ) : Type ℓ where
  pub queue : List T
  pub capacity : ℕ
  pub closed : Bool

-- What a section under the lock comes to: the thread waits, or the function returns.
pub data Outcome {ℓ} (A : Type ℓ) : Type ℓ where
  waits : Outcome A
  returns : A → Outcome A

module _ {ℓ} {T : Type ℓ} where
  abbrev pub new_queue : ℕ → BlockingQueue T
  new_queue cap = record { queue = []; capacity = cap; closed = false }

  -- `push` from where it has the lock, at first and after each time it is woken, to where it waits
  -- or returns. If the wait comes to its end of 50 ms it returns false and leaves the queue.
  unfoldable pub push : T → BlockingQueue T → Outcome Bool × BlockingQueue T
  push data_ q =
      if leb q.capacity (length q.queue) && not q.closed
      then (waits, q)
      else if q.closed
      then (returns false, q)
      else (returns true, record q { queue = q.queue ++ data_ ∷ [] })

  unfoldable pub pop_front : BlockingQueue T → List T → Outcome (Option T) × BlockingQueue T
  pop_front q [] = if q.closed then (returns none, q) else (waits, q)
  pop_front q (t ∷ ts) = (returns (some t), record q { queue = ts })

  -- `pop` likewise. What it gives where it returns true is in the `some`.
  unfoldable pub pop : BlockingQueue T → Outcome (Option T) × BlockingQueue T
  pop q = pop_front q q.queue

  -- The first test of both, which does not wait for the lock: a closed queue is refused. The sections
  -- below may also come behind a `close` that came between this test and the lock.
  unfoldable pub enter :
      {A : Type 0}
      → A
      → (BlockingQueue T → Outcome A × BlockingQueue T)
      → BlockingQueue T
      → Outcome A × BlockingQueue T
  enter refused section q = if q.closed then (returns refused, q) else section q

  unfoldable pub reserve : ℕ → BlockingQueue T → BlockingQueue T
  reserve cap q = record q { capacity = cap }

  unfoldable pub close : BlockingQueue T → BlockingQueue T
  close q = record q { closed = true }

-- The sections of all threads, in the order in which they have the lock.
pub data Section {ℓ} (T : Type ℓ) : Type ℓ where
  push_section : T → Section T
  pop_section : Section T
  reserve_call : ℕ → Section T
  close_call : Section T

-- What was put in, what was taken out, and the queue behind.
pub record Served {ℓ} (T : Type ℓ) : Type ℓ where
  pub accepted : List T
  pub delivered : List T
  pub after : BlockingQueue T

module _ {ℓ} {T : Type ℓ} where
  abbrev pub put : T → Outcome Bool → List T
  put x (returns true) = x ∷ []
  put x (returns false) = []
  put x waits = []

  abbrev pub taken : Outcome (Option T) → List T
  taken (returns (some x)) = x ∷ []
  taken (returns none) = []
  taken waits = []

  unfoldable pub serve : Section T → BlockingQueue T → Served T
  serve (push_section x) q = record {
    accepted = put x (push x q).0;
    delivered = [];
    after = (push x q).1;
  }
  serve pop_section q = record { accepted = []; delivered = taken (pop q).0; after = (pop q).1 }
  serve (reserve_call cap) q = record { accepted = []; delivered = []; after = reserve cap q }
  serve close_call q = record { accepted = []; delivered = []; after = close q }

  unfoldable pub serve_all : List (Section T) → BlockingQueue T → Served T
  serve_all [] q = record { accepted = []; delivered = []; after = q }
  serve_all (s ∷ ss) q =
      let first = serve s q in
      let rest = serve_all ss first.after in
      record {
        accepted = first.accepted ++ rest.accepted;
        delivered = first.delivered ++ rest.delivered;
        after = rest.after;
      }
