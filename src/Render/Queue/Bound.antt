-- ===== src/Render/Queue/Bound.antt =====
-- app/services/render_queue.py: how many renders run at once.
use planmaker.Common.{ℕ, zero, suc, ◌+◌, ◌≤◌, ◌≡◌, refl, arith}
use planmaker.Render.Queue.{RenderQueue, Step, call, start, finish, Reached, created, after}

Step-permits : {q r : RenderQueue} → Step q r → r.permits + r.inflight ≡ q.permits + q.inflight
Step-permits (call p n w) = refl
Step-permits (start p n w) = omega arith
Step-permits (finish p n w) = omega arith

Reached-permits :
    (max_concurrent : ℕ) (q : RenderQueue)
    → Reached max_concurrent q
    → q.permits + q.inflight ≡ max_concurrent
Reached-permits m _ created = omega arith
Reached-permits m _ (after {q} r s) = omega (arith, Step-permits s, Reached-permits m q r)

-- The queue can move: a waiting render can start, or a running one can finish.
pub data CanMove : RenderQueue → Type 0 where
  moves :
      {q : RenderQueue} (r : RenderQueue)
      → Step q r
      → r.waiting + r.inflight ≤ q.waiting + q.inflight
      → CanMove q

can_move :
    (p n w : ℕ)
    → 1 ≤ p + n
    → 1 ≤ w + n
    → CanMove (record { permits = p; inflight = n; waiting = w })
can_move p (suc n) w h k = moves _ (finish p n w) (omega arith)
can_move (suc p) zero (suc w) h k = moves _ (start p zero w) (omega arith)
can_move (suc p) zero zero h k = absurd (omega arith)
can_move zero zero w h k = absurd (omega arith)

-- Whatever calls come in and in whichever order they start and end, at most `max_concurrent` renders
-- run at once.
pub inflight_bound :
    (max_concurrent : ℕ) (q : RenderQueue) → Reached max_concurrent q → q.inflight ≤ max_concurrent
inflight_bound m q r = omega (arith, Reached-permits m q r)

-- With one permit or more the queue never gets stuck: while a render waits or runs, a waiting one
-- can start or a running one can finish.
pub queue_moves :
    (max_concurrent : ℕ) (q : RenderQueue)
    → Reached max_concurrent q
    → 1 ≤ max_concurrent
    → 1 ≤ q.waiting + q.inflight
    → CanMove q
queue_moves m q r some_permit busy =
    let total = Reached-permits m q r in
    can_move q.permits q.inflight q.waiting (omega arith) (omega arith)
