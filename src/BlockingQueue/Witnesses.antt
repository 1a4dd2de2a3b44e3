-- ===== src/BlockingQueue/Witnesses.antt =====
-- Runs of src/utils/blocking_queue.hpp on a small queue.
use lingdong.Prelude.{ℕ, ◌≡◌, refl, false, List, [], ◌∷◌, ◌++◌}
use lingdong.BlockingQueue.{
  new_queue, Section, push_section, pop_section, push, pop, pop_front, serve, serve_all, waits,
}
use lingdong.BlockingQueue.Order.{serve_all-fifo}

-- Two producers and a consumer on a queue of two: the third push waits.
abbrev calls : List (Section ℕ)
calls = push_section 1 ∷ push_section 2 ∷ push_section 3 ∷ pop_section ∷ push_section 3 ∷ []

calls_test : (serve_all calls (new_queue 2)).after.queue ≡ 2 ∷ 3 ∷ []
unfolding serve_all serve push pop pop_front
calls_test = refl

full_test : (push {T = ℕ} 3 (record { queue = 1 ∷ 2 ∷ []; capacity = 2; closed = false })).0 ≡ waits
unfolding push
full_test = refl

serve_all-fifo_example :
    (new_queue {T = ℕ} 2).queue ++ (serve_all calls (new_queue 2)).accepted
    ≡ (serve_all calls (new_queue 2)).delivered ++ (serve_all calls (new_queue 2)).after.queue
serve_all-fifo_example = serve_all-fifo calls (new_queue 2)
