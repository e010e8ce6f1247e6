-- ===== src/Platform/WorkerPool.antt =====
-- native/platform/worker_pool.h and worker_pool.cpp: threads that drain a queue of tasks. A history
-- is a list of events in any order: what the mutex lets in one at a time. `accepted`, `started` and
-- `dropped` are the tasks, in order, that were queued, begun and cleared.
pub mod Order
use rats_search_tui.Base.{
  ℕ, Bool, true, false, not, ◌&&◌, List, [], ◌∷◌, ◌++◌, Option, none, some, length, ltb, pick,
  if◌then◌else◌,
}

pub record WorkerPool (T : Type 0) : Type 0 where
  pub threads : ℕ
  pub queue : List T
  pub stopping : Bool
  pub running : List T
  pub accepted : List T
  pub started : List T
  pub dropped : List T

module _ {T : Type 0} where
  unfoldable pub new : ℕ → WorkerPool T
  new threads = record {
    threads = threads;
    queue = [];
    stopping = false;
    running = [];
    accepted = [];
    started = [];
    dropped = [];
  }

  unfoldable pub post : T → WorkerPool T → WorkerPool T
  post t p =
      if p.stopping
      then p
      else record p { queue = p.queue ++ t ∷ []; accepted = p.accepted ++ t ∷ [] }

  -- stopAndDrain up to its wait for the tasks that run
  unfoldable pub stop : WorkerPool T → WorkerPool T
  stop p = if p.stopping then p else record p { stopping = true; queue = []; dropped = p.queue }

  -- A round of workerLoop in a thread that is free: it takes the front of the queue, or waits.
  take_from : List T → WorkerPool T → WorkerPool T
  take_from [] p = p
  take_from (t ∷ queue) p = record p {
    queue = queue;
    running = p.running ++ t ∷ [];
    started = p.started ++ t ∷ [];
  }

  unfoldable pub take_task : WorkerPool T → WorkerPool T
  unfolding take_from
  take_task p = if ltb (length p.running) p.threads then take_from p.queue p else p

  -- One of the tasks that run returns.
  unfoldable pub finish : ℕ → WorkerPool T → WorkerPool T
  finish i p = elim (pick i p.running) [ none ↦ p | some (t, rest) ↦ record p { running = rest } ]

pub data Event (T : Type 0) : Type 0 where
  posts : T → Event T
  stops takes : Event T
  finishes : ℕ → Event T

module _ {T : Type 0} where
  unfoldable pub handle : WorkerPool T → Event T → WorkerPool T
  handle p (posts t) = post t p
  handle p stops = stop p
  handle p takes = take_task p
  handle p (finishes i) = finish i p

  unfoldable pub run : WorkerPool T → List (Event T) → WorkerPool T
  run p [] = p
  run p (e ∷ es) = run (handle p e) es
