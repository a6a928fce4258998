-- ===== src/Render/Queue.antt =====
-- app/services/render_queue.py, class RenderQueue: renders behind a semaphore, as steps of the event
-- loop. `asyncio.Semaphore` is a counter of permits: a caller waits while it is 0.
pub mod Bound
use planmaker.Common.{ℕ, zero, suc, Bool, true, false, ◌==◌}

pub record RenderQueue : Type 0 where
  -- the semaphore's counter, `_inflight`, and the calls that wait for a permit
  pub permits : ℕ
  pub inflight : ℕ
  pub waiting : ℕ

-- RenderQueue(service, max_concurrent)
abbrev pub new_queue : ℕ → RenderQueue
new_queue max_concurrent = record { permits = max_concurrent; inflight = 0; waiting = 0 }

-- A call of generate or preview comes in; it is given a permit and counted; it returns or raises,
-- and `finally` and the semaphore take it back.
pub data Step : RenderQueue → RenderQueue → Type 0 where
  call :
      (p n w : ℕ)
      → Step
          (record { permits = p; inflight = n; waiting = w })
          (record { permits = p; inflight = n; waiting = suc w })
  start :
      (p n w : ℕ)
      → Step
          (record { permits = suc p; inflight = n; waiting = suc w })
          (record { permits = p; inflight = suc n; waiting = w })
  finish :
      (p n w : ℕ)
      → Step
          (record { permits = p; inflight = suc n; waiting = w })
          (record { permits = suc p; inflight = n; waiting = w })

-- The test of the loop in drain: `while self._inflight`.
abbrev pub is_drained : RenderQueue → Bool
is_drained q = q.inflight == 0

pub data Reached (max_concurrent : ℕ) : RenderQueue → Type 0 where
  created : Reached max_concurrent (new_queue max_concurrent)
  after : {q r : RenderQueue} → Reached max_concurrent q → Step q r → Reached max_concurrent r
