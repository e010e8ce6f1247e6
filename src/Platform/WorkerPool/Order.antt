-- ===== src/Platform/WorkerPool/Order.antt =====
-- The order in which native/platform/worker_pool.cpp starts its tasks, and its shutdown.
use mathlib.Core.List.{append_assoc, append-nil}
use rats_search_tui.Base.{
  ℕ, ◌≤◌, ◌<◌, ◌≡◌, refl, sym, ap, ◌∙◌, true, false, List, [], ◌∷◌, ◌++◌, length, length-append,
  pick-Shortens, arith,
}
use rats_search_tui.Platform.WorkerPool.{
  WorkerPool, post, stop, take_task, take_from, finish, Event, posts, stops, takes, finishes,
  handle, run,
}

-- Tasks are started in the order in which they were queued, and none is lost: those that were
-- queued are those started, then those that wait, then those that a shutdown cleared. There are
-- never more at work than threads, and nothing waits once the pool stops.
pub record IsFifo {T : Type 0} (p : WorkerPool T) : Type 0 where
  pub fifo : p.accepted ≡ p.started ++ (p.queue ++ p.dropped)
  pub busy : length p.running ≤ p.threads
  pub kept : p.stopping ≡ false → p.dropped ≡ []
  pub cleared : p.stopping ≡ true → p.queue ≡ []

module _ {T : Type 0} where
  post_fifo :
      (t : T) (p : WorkerPool T)
      → IsFifo p
      → p.stopping ≡ false
      → p.accepted ++ t ∷ [] ≡ p.started ++ ((p.queue ++ t ∷ []) ++ p.dropped)
  post_fifo t p v e =
      rw (v.fifo, v.kept e, append-nil, append-nil) (append_assoc p.started p.queue (t ∷ []))

  post-IsFifo : (t : T) (p : WorkerPool T) → IsFifo p → IsFifo (post t p)
  unfolding post
  post-IsFifo t p v = ground (arith, post_fifo t p v)

  stop_fifo : (p : WorkerPool T) → IsFifo p → p.stopping ≡ false → p.accepted ≡ p.started ++ p.queue
  stop_fifo p v e = rw (v.fifo, v.kept e, append-nil)

  stop-IsFifo : (p : WorkerPool T) → IsFifo p → IsFifo (stop p)
  unfolding stop
  stop-IsFifo p v = ground (arith, stop_fifo p v)

  -- The task at the front moves from the queue to the started ones.
  front_moves :
      (started : List T) (t : T) (queue dropped : List T)
      → started ++ ((t ∷ queue) ++ dropped) ≡ (started ++ t ∷ []) ++ (queue ++ dropped)
  front_moves started t queue dropped = sym (append_assoc started (t ∷ []) (queue ++ dropped))

  take_from-IsFifo :
      (queue : List T) (p : WorkerPool T)
      → p.queue ≡ queue
      → length p.running < p.threads
      → IsFifo p
      → IsFifo (take_from queue p)
  unfolding take_from
  take_from-IsFifo [] p e room v = v
  take_from-IsFifo (t ∷ queue) p e room v = record {
    fifo =
        v.fifo
        ∙ ap (λ (q : List T). p.started ++ (q ++ p.dropped)) e
        ∙ front_moves p.started t queue p.dropped;
    busy = omega (arith, length-append p.running (t ∷ []));
    kept = v.kept;
    cleared = λ s. cc (v.cleared s);
  }

  take_task-IsFifo : (p : WorkerPool T) → IsFifo p → IsFifo (take_task p)
  unfolding take_task
  take_task-IsFifo p v = ground (arith, take_from-IsFifo p.queue p refl, v)

  finish-IsFifo : (i : ℕ) (p : WorkerPool T) → IsFifo p → IsFifo (finish i p)
  unfolding finish
  finish-IsFifo i p v = ground (arith, pick-Shortens i p.running)

  handle-IsFifo : (p : WorkerPool T) (e : Event T) → IsFifo p → IsFifo (handle p e)
  unfolding handle
  handle-IsFifo p (posts t) v = post-IsFifo t p v
  handle-IsFifo p stops v = stop-IsFifo p v
  handle-IsFifo p takes v = take_task-IsFifo p v
  handle-IsFifo p (finishes i) v = finish-IsFifo i p v

  -- Whatever is posted, taken, finished and stopped in whatever order, a pool that satisfies `IsFifo`,
  -- as a new one does, goes on to: the tasks that were queued are, in their order, those started,
  -- those that wait and those that the shutdown cleared, at most as many run as there are threads,
  -- nothing is cleared before the shutdown and nothing waits behind it.
  pub run-IsFifo : (p : WorkerPool T) (es : List (Event T)) → IsFifo p → IsFifo (run p es)
  unfolding run
  run-IsFifo p [] v = v
  run-IsFifo p (e ∷ es) v = run-IsFifo (handle p e) es (handle-IsFifo p e v)

  -- What a shutdown settles.
  stopped_keeps :
      (p : WorkerPool T) (e : Event T)
      → p.stopping ≡ true
      → p.queue ≡ []
      → ((handle p e).stopping ≡ true)
        × ((handle p e).queue ≡ [])
        × ((handle p e).started ≡ p.started)
        × (length (handle p e).running ≤ length p.running)
  unfolding handle post stop take_task take_from finish
  stopped_keeps p (posts t) s q = ground arith
  stopped_keeps p stops s q = ground arith
  stopped_keeps p takes s q = ground arith
  stopped_keeps p (finishes i) s q = ground (arith, pick-Shortens i p.running)

  -- Once a pool that satisfies `IsFifo` stops, it starts no task any more, and the tasks that are at
  -- work become no more, whatever is posted.
  pub stop_ends :
      (p : WorkerPool T) (es : List (Event T))
      → IsFifo p
      → p.stopping ≡ true
      → ((run p es).started ≡ p.started) × (length (run p es).running ≤ length p.running)
  unfolding run
  stop_ends p [] v s = (refl, omega arith)
  stop_ends p (e ∷ es) v s =
      let (s', q', same, fewer) = stopped_keeps p e s (v.cleared s) in
      let (rest, less) = stop_ends (handle p e) es (handle-IsFifo p e v) s' in
      (rest ∙ same, omega arith)
