-- ===== src/HackerNews/Embed/Stuck.antt =====
-- src/task/hacker_news.cpp: a consumer that waits when there is nothing left waits for ever.
use lingdong.Prelude.{◌≡◌, []}
use lingdong.HackerNews.Embed.{waiting, Embedding}

module _ {E : Type 0} where
  -- The consumer waits, and nothing is left: neither in the file or a batch, nor with a task or in
  -- the queue.
  pub record IsStuck (r : Embedding E) : Type 0 where
    pub waits : r.consumer ≡ waiting
    pub read : r.unread ≡ []
    pub handed : r.one_batch ≡ []
    pub asked : r.posted ≡ []
    pub put_all : r.answers ≡ []
    pub taken : r.ready_emb_q ≡ []
